-- ===== src/Art/Method.antt =====
-- The accessors of cpp/art/ArtMethod.cpp and ArtMethod.h.
pub mod View
pub mod Updates
use art_hook.Base.{ℕ, bit_and, bit_or, Bool, ◌!=◌}
use art_hook.Art.State.{Statics, Act, ret, gets, ◌>>=◌}
use art_hook.Art.Modifiers.{complement}
use art_hook.Art.Members.{sizeof_ptr, sizeof_u4, sizeof_u2, member_of, assign_offset}

-- `id` is `current_method_id`.
module _ (id : ℕ) where
  unfoldable pub get_declaring_class : Act ℕ
  unfolding member_of
  get_declaring_class = member_of sizeof_ptr id 0

  unfoldable pub get_access_flags : Act ℕ
  unfolding member_of
  get_access_flags = gets (λ s. s.method_offset.access_flags_offset) >>= member_of sizeof_u4 id

  unfoldable pub set_access_flags : ℕ → Act (Unit {0})
  unfolding assign_offset
  set_access_flags v = do
    o ← gets (λ s. s.method_offset.access_flags_offset)
    assign_offset sizeof_u4 id o v

  unfoldable pub add_access_flags : ℕ → Act (Unit {0})
  unfolding get_access_flags set_access_flags
  add_access_flags f = do now ← get_access_flags; set_access_flags (bit_or now f)

  unfoldable pub remove_access_flags : ℕ → Act (Unit {0})
  unfolding get_access_flags set_access_flags
  remove_access_flags f = do now ← get_access_flags; set_access_flags (bit_and now (complement f))

  unfoldable pub has_access_flags : ℕ → Act Bool
  unfolding get_access_flags
  has_access_flags f = do now ← get_access_flags; ret (bit_and f now != 0)

  unfoldable pub get_dex_code_item_offset : Act ℕ
  unfolding member_of
  get_dex_code_item_offset =
      gets (λ s. s.method_offset.dex_code_item_offset_offset) >>= member_of sizeof_u4 id

  unfoldable pub set_dex_code_item_offset : ℕ → Act (Unit {0})
  unfolding assign_offset
  set_dex_code_item_offset v = do
    o ← gets (λ s. s.method_offset.dex_code_item_offset_offset)
    assign_offset sizeof_u4 id o v

  unfoldable pub get_quick_code : Act ℕ
  unfolding member_of
  get_quick_code = gets (λ s. s.method_offset.quick_code_offset) >>= member_of sizeof_ptr id

  unfoldable pub set_quick_code : ℕ → Act (Unit {0})
  unfolding assign_offset
  set_quick_code v = do
    o ← gets (λ s. s.method_offset.quick_code_offset)
    assign_offset sizeof_ptr id o v

  unfoldable pub get_interpreter_code : Act ℕ
  unfolding member_of
  get_interpreter_code =
      gets (λ s. s.method_offset.interpreter_code_offset) >>= member_of sizeof_ptr id

  unfoldable pub set_interpreter_code : ℕ → Act (Unit {0})
  unfolding assign_offset
  set_interpreter_code v = do
    o ← gets (λ s. s.method_offset.interpreter_code_offset)
    assign_offset sizeof_ptr id o v

  unfoldable pub get_jni_code : Act ℕ
  unfolding member_of
  get_jni_code = gets (λ s. s.method_offset.jni_code_offset) >>= member_of sizeof_ptr id

  unfoldable pub set_jni_code : ℕ → Act (Unit {0})
  unfolding assign_offset
  set_jni_code v = do
    o ← gets (λ s. s.method_offset.jni_code_offset)
    assign_offset sizeof_ptr id o v

  unfoldable pub set_hotness_count : ℕ → Act (Unit {0})
  unfolding assign_offset
  set_hotness_count v = do
    o ← gets (λ s. s.method_offset.hotness_count_offset)
    assign_offset sizeof_u2 id o v

-- ===== src/Art/Method/Updates.antt =====
-- The accessors of cpp/art/ArtMethod.cpp as reads of the members and updates of them.

use art_hook.Base.{
  sym, ap, ◌==◌, Bool-cases, true, false, leb, ℕ, ◌+◌, ◌^◌, ◌≤◌, ◌<◌, ◌≡◌, refl, ◌∙◌, inl, inr,
  some, arith,
}
use art_hook.Machine.{Mem}
use art_hook.Machine.Laws.{Ensures, weaken}
use art_hook.Machine.Stores.{peek, Same, Outside}
use art_hook.Art.State.{Statics, Act}
use art_hook.Art.Modifiers.{android_n}
use art_hook.Art.Members.{assign_offset}
use art_hook.Art.Method.{
  get_declaring_class, get_access_flags, set_access_flags, set_dex_code_item_offset, set_quick_code,
  set_interpreter_code, get_jni_code, set_jni_code, set_hotness_count,
}
use art_hook.Art.Method.View.{
  peek-join, Fields, IsLaidOut, Shows, assign_offset_lem, declared, extra_at, extra_width,
  member_of_lem, peek_apart, second,
}

module _ (api size id : ℕ) (ends : id + size ≤ 2 ^ 64) (f : Fields) (s : Statics) (m : Mem)
    (l : IsLaidOut api size s.method_offset) (h : Shows api s.method_offset id f m) where
  -- How an accessor that updates the members leaves them.
  abbrev pub Updates : Fields → Act (Unit {0}) → Type 0
  Updates f' c =
      Ensures (λ p m'. (p.1 ≡ s) × Shows api s.method_offset id f' m') (λ _. Unit {0}) (c s m)

  abbrev pub Reads : ℕ → Act ℕ → Type 0
  Reads v c = Ensures (λ p m'. (p.0 ≡ v) × (p.1 ≡ s) × (m' ≡ m)) (λ _. Unit {0}) (c s m)

  pub get_access_flags-Shows : Reads f.flags (get_access_flags id)
  unfolding get_access_flags
  get_access_flags-Shows =
      member_of_lem 4 id s.method_offset.access_flags_offset f.flags s m (omega arith) h.flags_shown

  pub get_declaring_class-Shows : Reads (declared s.method_offset f) (get_declaring_class id)
  unfolding get_declaring_class
  get_declaring_class-Shows =
      let at_start : id + 0 ≡ id = omega arith in
      member_of_lem 8 id 0 (declared s.method_offset f) s m (omega arith) (
        rw at_start
          (peek-join 4 4 id f.class (second s.method_offset f) m h.class_shown h.word_shown))

  pub get_jni_code-Shows : Reads f.jni_code (get_jni_code id)
  unfolding get_jni_code
  get_jni_code-Shows =
      member_of_lem 8 id s.method_offset.jni_code_offset f.jni_code s m (omega arith) h.jni_shown

  word_after :
      (m' : Mem) (v : ℕ)
      → peek 4 (id + s.method_offset.access_flags_offset) m' ≡ some v
      → Same (Outside 4 (id + s.method_offset.access_flags_offset)) m m'
      → peek 4 (id + 4) m' ≡ some (second s.method_offset (record f { flags = v }))
  word_after m' v e same = elim (Bool-cases (s.method_offset.access_flags_offset == 4)) [
    | inl overlaps ↦
        let at : s.method_offset.access_flags_offset ≡ 4 = ground arith in rw at (rw at at e)
    | inr apart ↦
        let far : 8 ≤ s.method_offset.access_flags_offset = ground (arith, l.flags_place) in
        let differs : second s.method_offset (record f { flags = v }) ≡ second s.method_offset f =
          rw apart refl in
        peek_apart _ _ _ _ m m' same (inl (omega arith)) (h.word_shown ∙ ap some (sym differs))
  ]

  pub set_access_flags-Shows :
      (v : ℕ) → v < 2 ^ 32 → Updates (record f { flags = v }) (set_access_flags id v)
  unfolding set_access_flags
  set_access_flags-Shows v fits =
      weaken (assign_offset_lem 4 id s.method_offset.access_flags_offset v s m (omega arith) fits)
        (λ p m' q. (
          q.0,
          record {
            class_shown = peek_apart _ _ _ _ m m' q.2 (inl (omega arith)) h.class_shown;
            word_shown = word_after m' v q.1 q.2;
            flags_shown = q.1;
            dex_shown = peek_apart _ _ _ _ m m' q.2 (inr (omega arith)) h.dex_shown;
            extra_shown = peek_apart _ _ _ _ m m' q.2 (inr (omega arith)) h.extra_shown;
            jni_shown = peek_apart _ _ _ _ m m' q.2 (inr (omega arith)) h.jni_shown;
            quick_shown = peek_apart _ _ _ _ m m' q.2 (inr (omega arith)) h.quick_shown;
            flags_fit = fits;
          },
        ))
        (λ _ u. u)

  pub set_dex_code_item_offset-Shows :
      (v : ℕ) → v < 2 ^ 32 → Updates (record f { dex_code = v }) (set_dex_code_item_offset id v)
  unfolding set_dex_code_item_offset
  set_dex_code_item_offset-Shows v fits =
      weaken
        (assign_offset_lem 4 id s.method_offset.dex_code_item_offset_offset v s m (omega arith)
          fits)
        (λ p m' q. (
          q.0,
          record {
            class_shown = peek_apart _ _ _ _ m m' q.2 (inl (omega arith)) h.class_shown;
            word_shown = peek_apart _ _ _ _ m m' q.2 (inl (omega arith)) h.word_shown;
            flags_shown = peek_apart _ _ _ _ m m' q.2 (inl (omega arith)) h.flags_shown;
            dex_shown = q.1;
            extra_shown = peek_apart _ _ _ _ m m' q.2 (inr (omega arith)) h.extra_shown;
            jni_shown = peek_apart _ _ _ _ m m' q.2 (inr (omega arith)) h.jni_shown;
            quick_shown = peek_apart _ _ _ _ m m' q.2 (inr (omega arith)) h.quick_shown;
            flags_fit = h.flags_fit;
          },
        ))
        (λ _ u. u)

  pub set_jni_code-Shows :
      (v : ℕ) → v < 2 ^ 64 → Updates (record f { jni_code = v }) (set_jni_code id v)
  unfolding set_jni_code
  set_jni_code-Shows v fits =
      weaken (assign_offset_lem 8 id s.method_offset.jni_code_offset v s m (omega arith) fits)
        (λ p m' q. (
          q.0,
          record {
            class_shown = peek_apart _ _ _ _ m m' q.2 (inl (omega arith)) h.class_shown;
            word_shown = peek_apart _ _ _ _ m m' q.2 (inl (omega arith)) h.word_shown;
            flags_shown = peek_apart _ _ _ _ m m' q.2 (inl (omega arith)) h.flags_shown;
            dex_shown = peek_apart _ _ _ _ m m' q.2 (inl (omega arith)) h.dex_shown;
            extra_shown = peek_apart _ _ _ _ m m' q.2 (inl (omega arith)) h.extra_shown;
            jni_shown = q.1;
            quick_shown = peek_apart _ _ _ _ m m' q.2 (inr (omega arith)) h.quick_shown;
            flags_fit = h.flags_fit;
          },
        ))
        (λ _ u. u)

  pub set_quick_code-Shows :
      (v : ℕ) → v < 2 ^ 64 → Updates (record f { quick_code = v }) (set_quick_code id v)
  unfolding set_quick_code
  set_quick_code-Shows v fits =
      weaken (assign_offset_lem 8 id s.method_offset.quick_code_offset v s m (omega arith) fits)
        (λ p m' q. (
          q.0,
          record {
            class_shown = peek_apart _ _ _ _ m m' q.2 (inl (omega arith)) h.class_shown;
            word_shown = peek_apart _ _ _ _ m m' q.2 (inl (omega arith)) h.word_shown;
            flags_shown = peek_apart _ _ _ _ m m' q.2 (inl (omega arith)) h.flags_shown;
            dex_shown = peek_apart _ _ _ _ m m' q.2 (inl (omega arith)) h.dex_shown;
            extra_shown = peek_apart _ _ _ _ m m' q.2 (inl (omega arith)) h.extra_shown;
            jni_shown = peek_apart _ _ _ _ m m' q.2 (inl (omega arith)) h.jni_shown;
            quick_shown = q.1;
            flags_fit = h.flags_fit;
          },
        ))
        (λ _ u. u)

  assign_extra-Shows :
      (v : ℕ)
      → v < 256 ^ extra_width api
      → Updates
          (record f { extra = v })
          (assign_offset (extra_width api) id (extra_at api s.method_offset) v)
  assign_extra-Shows v fits =
      weaken
        (assign_offset_lem (extra_width api) id (extra_at api s.method_offset) v s m (omega arith)
          fits)
        (λ p m' q. (
          q.0,
          record {
            class_shown = peek_apart _ _ _ _ m m' q.2 (inl (omega arith)) h.class_shown;
            word_shown = peek_apart _ _ _ _ m m' q.2 (inl (omega arith)) h.word_shown;
            flags_shown = peek_apart _ _ _ _ m m' q.2 (inl (omega arith)) h.flags_shown;
            dex_shown = peek_apart _ _ _ _ m m' q.2 (inl (omega arith)) h.dex_shown;
            extra_shown = q.1;
            jni_shown = peek_apart _ _ _ _ m m' q.2 (inr (omega arith)) h.jni_shown;
            quick_shown = peek_apart _ _ _ _ m m' q.2 (inr (omega arith)) h.quick_shown;
            flags_fit = h.flags_fit;
          },
        ))
        (λ _ u. u)

  -- From 7.0 on the extra member is the hotness count.
  pub set_hotness_count-Shows :
      leb android_n api ≡ true → Updates (record f { extra = 0 }) (set_hotness_count id 0)
  unfolding set_hotness_count
  set_hotness_count-Shows e = rw e at (assign_extra-Shows 0 (ground arith))

  pub set_interpreter_code-Shows :
      (v : ℕ)
      → leb android_n api ≡ false
      → v < 2 ^ 64
      → Updates (record f { extra = v }) (set_interpreter_code id v)
  unfolding set_interpreter_code
  set_interpreter_code-Shows v e fits = rw e at (assign_extra-Shows v (rw e fits))

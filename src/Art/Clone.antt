-- ===== src/Art/Clone.antt =====
-- `ArtMethod::Clone` of cpp/art/ArtMethod.cpp.
pub mod Flags
use art_hook.Base.{
  ℕ, zero, suc, ◌+◌, ◌*◌, bit_and, bit_or, Bool, not, ◌&&◌, ◌==◌, ◌!=◌, if◌then◌else◌, ltb, leb, [],
  ◌∷◌,
}
use art_hook.Machine.{Cmd, null, u64, load8, store8, pure, and_then}
use art_hook.Art.State.{Runtime, Statics, Act, ret, lift, gets, call, ◌>>=◌, ◌>>◌}
use art_hook.Art.Modifiers.{
  acc_public, acc_protected, acc_private, acc_native, acc_synchronized, acc_direct_flags,
  acc_skip_access_checks, acc_compile_dont_bother_n, acc_compile_dont_bother_o_mr1,
  acc_previously_warm_o_mr1, android_m, android_n, android_o_mr1, complement,
}
use art_hook.Art.Members.{memcpy, sizeof_ptr, sizeof_u4, member_of, assign_offset}
use art_hook.Art.Symbols.{get_symbol, get_bridge_list, clone_object}
use art_hook.Art.Method.{
  get_access_flags, has_access_flags, set_access_flags, set_hotness_count, get_jni_code,
  set_quick_code,
}

-- The flags of the clone.
unfoldable pub clone_flags : (api_level access_flags : ℕ) (is_native is_direct : Bool) → ℕ
clone_flags api_level access_flags is_native is_direct =
    let devirtual =
      bit_or (bit_and access_flags (complement (bit_or acc_public acc_protected))) acc_private in
    let own = if is_direct then access_flags else devirtual in
    let unlocked = bit_and own (complement acc_synchronized) in
    let kept =
      if ltb api_level android_o_mr1
      then bit_or unlocked acc_compile_dont_bother_n
      else bit_or (bit_or unlocked acc_compile_dont_bother_o_mr1) acc_previously_warm_o_mr1 in
    if is_native then kept else bit_or kept acc_skip_access_checks

-- The loop over the first words of the profiling info, which steps by sizeof(u4).
unfoldable pub redirect_profile : (n profiling_info id clone offset : ℕ) → Act (Unit {0})
unfolding member_of assign_offset
redirect_profile zero profiling_info id clone offset = ret tt
redirect_profile (suc n) profiling_info id clone offset = do
  v ← member_of sizeof_ptr profiling_info offset
  if v == id then assign_offset sizeof_ptr profiling_info offset clone else ret tt
  redirect_profile n profiling_info id clone (offset + sizeof_u4)

unfoldable pub move_profile : (id clone : ℕ) → Act (Unit {0})
unfolding get_jni_code redirect_profile
move_profile id clone = do
  profiling_info ← get_jni_code id
  if profiling_info != null then redirect_profile 4 profiling_info id clone 0 else ret tt

module _ (k : Runtime) where
  -- From 6.0 on a method is not an object.
  unfoldable pub copy_method : ℕ → Act ℕ
  unfolding get_symbol memcpy
  copy_method id = do
    symbols ← get_symbol k
    size ← gets (λ s. s.method_offset.method_size)
    clone ← lift (k.malloc size)
    let by_runtime = do call k symbols.method_copy_from (clone ∷ id ∷ sizeof_ptr ∷ []); ret tt
    if symbols.method_copy_from != null then by_runtime else lift (memcpy size clone id)
    ret clone

  unfoldable pub new_method : ℕ → Act ℕ
  unfolding get_symbol copy_method clone_object
  new_method id = do
    get_symbol k
    api_level ← gets (λ s. s.api_level)
    if ltb api_level android_m then clone_object k id else copy_method id

  -- From `if (api_level >= ANDROID_N)` on.
  unfoldable pub finish_clone : (id clone access_flags : ℕ) (is_native : Bool) → Act (Unit {0})
  unfolding set_hotness_count move_profile get_bridge_list set_quick_code set_access_flags
  finish_clone id clone access_flags is_native = do
    api_level ← gets (λ s. s.api_level)
    let cool = do set_hotness_count clone 0; if is_native then ret tt else move_profile id clone
    if leb android_n api_level then cool else ret tt
    bridge_list ← get_bridge_list k
    let interpreted = not is_native && bridge_list.quick_to_interpreter != null
    if interpreted then set_quick_code clone bridge_list.quick_to_interpreter else ret tt
    set_access_flags clone access_flags

  unfoldable pub clone_method : ℕ → Act ℕ
  unfolding new_method get_access_flags has_access_flags finish_clone
  clone_method id = do
    clone ← new_method id
    access_flags ← get_access_flags id
    is_native ← has_access_flags id acc_native
    is_direct ← has_access_flags id acc_direct_flags
    api_level ← gets (λ s. s.api_level)
    finish_clone id clone (clone_flags api_level access_flags is_native is_direct) is_native
    ret clone

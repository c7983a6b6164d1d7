-- ===== src/Art/Layout.antt =====
-- Where the members of an ArtMethod are: `GetBaseOffset` and `CalculateOtherOffset` of
-- cpp/art/native_load.cpp, and the initialisation in cpp/art/ArtMethod.cpp.
pub mod Laws
use art_hook.Base.{
  ℕ, ◌+◌, ◌*◌, bit_or, Bool, true, false, not, ◌&&◌, ◌||◌, ◌!=◌, if◌then◌else◌, ltb, leb,
}
use art_hook.Machine.{null, u64}
use art_hook.Art.State.{
  Runtime, Statics, ArtMethodSummary, ArtMethodOffsets, ArtBridgeList, JniCall, Act, ret, lift,
  gets, modify, invoke, ◌>>=◌, ◌>>◌,
}
use art_hook.Art.Modifiers.{acc_private, acc_native, acc_fast_native, android_lollipop, android_n}
use art_hook.Art.Members.{sizeof_ptr, sizeof_u4, sizeof_u2, distance_of, get_offset_by_value}
use art_hook.Art.Jni.{get_jni_env}
use art_hook.Art.Symbols.{sub64, get_android_api_level, get_bridge_list}

-- The assignments of `CalculateOtherOffset`; the offsets that it does not set are those of `old`.
unfoldable pub other_offsets :
    (api_level : ℕ) → ArtBridgeList → ArtMethodSummary → ArtMethodOffsets → ArtMethodOffsets
other_offsets api_level bridge_list summary old =
    let jni_code_offset = summary.jni_code_offset in
    let access_flags_offset = summary.access_flags_offset in
    let method_index_offset = u64 (access_flags_offset + sizeof_u4 * 3) in
    record {
      method_size = summary.method_size;
      jni_code_offset = jni_code_offset;
      quick_code_offset = u64 (jni_code_offset + summary.entrypoint_filed_size);
      access_flags_offset = access_flags_offset;
      dex_code_item_offset_offset = u64 (access_flags_offset + sizeof_u4 * 1);
      dex_method_index_offset = u64 (access_flags_offset + sizeof_u4 * 2);
      method_index_offset = method_index_offset;
      interpreter_code_offset =
          if ltb api_level android_n && bridge_list.interpreter_to_compiled_code != null
          then sub64 jni_code_offset summary.entrypoint_filed_size
          else old.interpreter_code_offset;
      hotness_count_offset =
          if leb android_n api_level
          then u64 (method_index_offset + sizeof_u2)
          else old.hotness_count_offset;
    }

module _ (k : Runtime) where
  unfoldable pub get_base_offset : ℕ → Act ArtMethodSummary
  unfolding get_offset_by_value
  get_base_offset env = do
    let entrypoint_filed_size =
        if leb (get_android_api_level k) android_lollipop then 8 else sizeof_ptr
    obj_class ← invoke k env (JniCall.find_class "java/lang/Object")
    internal_clone_method ←
        invoke k env (JniCall.get_method_id obj_class "internalClone" "()Ljava/lang/Object;")
    clone_method ← invoke k env (JniCall.get_method_id obj_class "clone" "()Ljava/lang/Object;")
    let access_flags = bit_or (bit_or acc_private acc_native) acc_fast_native
    access_flags_offset ← lift (get_offset_by_value sizeof_u4 internal_clone_method access_flags)
    libart ← lift (k.dl_open "libart.so")
    object_clone_symbol ←
        lift (k.dl_sym libart "_ZN3artL20Object_internalCloneEP7_JNIEnvP8_jobject")
    jni_code_offset ←
        lift (get_offset_by_value sizeof_ptr internal_clone_method object_clone_symbol)
    ret (record {
      method_size = distance_of internal_clone_method clone_method;
      access_flags_offset = access_flags_offset;
      entrypoint_filed_size = entrypoint_filed_size;
      jni_code_offset = jni_code_offset;
    })

  unfoldable pub calculate_other_offset : ArtMethodSummary → ArtMethodOffsets → Act ArtMethodOffsets
  unfolding get_bridge_list other_offsets
  calculate_other_offset summary old = do
    bridge_list ← get_bridge_list k
    ret (other_offsets (get_android_api_level k) bridge_list summary old)

  -- The constructor without arguments.
  unfoldable pub initialise : Act (Unit {0})
  unfolding get_jni_env get_base_offset calculate_other_offset
  initialise = do
    modify (λ s. record s { api_level = get_android_api_level k })
    env ← get_jni_env k
    summary ← get_base_offset env
    old ← gets (λ s. s.method_offset)
    offsets ← calculate_other_offset summary old
    modify (λ s. record s { method_offset = offsets })

  unfoldable pub art_method : Act (Unit {0})
  unfolding initialise
  art_method = do
    done_before ← gets (λ s. ltb 0 s.api_level || not s.art_prepared)
    if done_before then ret tt else initialise

  unfoldable pub set_art_prepared : Bool → Act (Unit {0})
  unfolding art_method
  set_art_prepared prepared = do
    old_art_prepared ← gets (λ s. s.art_prepared)
    modify (λ s. record s { art_prepared = prepared })
    if not old_art_prepared && prepared then art_method else ret tt

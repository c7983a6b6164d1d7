-- ===== src/Art/Hook.antt =====
-- `ArtMethod::Hook`, `Backup`, `InvokeOriginal` and `DealGCRoot` of cpp/art/ArtMethod.cpp.
pub mod Invariant
pub mod Accesses
pub mod Copies
pub mod Cloning
pub mod Steps
pub mod Entries
pub mod Digits
pub mod Keys
pub mod Live
pub mod Cloned
pub mod Total
pub mod Trace
pub mod Invoke
mod Examples
pub mod Laws
pub mod Clones
pub mod Roots
pub mod History
use art_hook.Base.{
  ℕ, Bool, true, false, not, ◌&&◌, ◌||◌, ◌==◌, ◌!=◌, if◌then◌else◌, ltb, leb, List, [], ◌∷◌, Option,
  none, some,
}
use art_hook.Machine.{null, undef}
use art_hook.Art.State.{
  Runtime, Statics, ArtMethodKey, JniCall, Act, ret, lift, gets, modify, call, invoke, ◌>>=◌, ◌>>◌,
}
use art_hook.Art.Modifiers.{
  acc_abstract, acc_static, acc_native, acc_fast_native, acc_critical_native_p,
  acc_compile_dont_bother_n, acc_compile_dont_bother_o_mr1, acc_previously_warm_o_mr1, android_n,
  android_o_mr1, android_p,
}
use art_hook.Art.Symbols.{get_symbol, get_bridge_list}
use art_hook.Art.Suspend.{manual_control}
use art_hook.Art.Clone.{clone_method}
use art_hook.Art.Method.{
  get_declaring_class, get_access_flags, add_access_flags, remove_access_flags, has_access_flags,
  get_dex_code_item_offset, set_dex_code_item_offset, get_quick_code, set_quick_code,
  get_interpreter_code, set_interpreter_code, get_jni_code, set_jni_code, set_hotness_count,
}

-- `std::map`: `find` and `insert`, which leaves the value of a key that is there.
abbrev pub Keys : Type 0
Keys = List (ℕ × ArtMethodKey)

unfoldable pub find_key : ℕ → Keys → Option ArtMethodKey
find_key id [] = none
find_key id ((i, key) ∷ rest) = if i == id then some key else find_key id rest

unfoldable pub insert_key : ℕ → ArtMethodKey → Keys → Keys
unfolding find_key
insert_key id key keys = elim (find_key id keys) [ none ↦ (id, key) ∷ keys | some _ ↦ keys ]

-- An assignment through the pointer that `find` gave.
unfoldable pub set_key : ℕ → ArtMethodKey → Keys → Keys
set_key id key [] = []
set_key id key ((i, old) ∷ rest) =
    if i == id then (i, key) ∷ rest else (i, old) ∷ set_key id key rest

unfoldable pub get_method_key : ℕ → Act (Option ArtMethodKey)
unfolding find_key
get_method_key id = gets (λ s. find_key id s.hooked_method_map)

-- The steps of `Hook` that do not call the runtime.
unfoldable pub forbid_compiling : ℕ → Act (Unit {0})
unfolding add_access_flags
forbid_compiling id = do
  api_level ← gets (λ s. s.api_level)
  let from_o_mr1 = do
    add_access_flags id acc_compile_dont_bother_o_mr1
    add_access_flags id acc_previously_warm_o_mr1
  if ltb api_level android_o_mr1 then add_access_flags id acc_compile_dont_bother_n else from_o_mr1

unfoldable pub reset_hotness : ℕ → Act (Unit {0})
unfolding has_access_flags set_hotness_count
reset_hotness id = do
  api_level ← gets (λ s. s.api_level)
  is_abstract ← if ltb android_p api_level then has_access_flags id acc_abstract else ret true
  let is_pie_abstract = ltb android_p api_level && not is_abstract
  if is_pie_abstract || leb android_n api_level then set_hotness_count id 0 else ret tt

unfoldable pub make_native : ℕ → Act (Unit {0})
unfolding add_access_flags remove_access_flags
make_native id = do
  api_level ← gets (λ s. s.api_level)
  add_access_flags id acc_native
  add_access_flags id acc_fast_native
  if leb android_p api_level then remove_access_flags id acc_critical_native_p else ret tt

module _ (k : Runtime) where
  unfoldable pub backup : ℕ → Act (Unit {0})
  unfolding get_declaring_class get_access_flags get_dex_code_item_offset get_interpreter_code
      get_quick_code get_jni_code clone_method insert_key
  backup id = do
    decl_class ← get_declaring_class id
    access_flags ← get_access_flags id
    dex_code_item_offset ← get_dex_code_item_offset id
    interpreter_code ← get_interpreter_code id
    quick_code ← get_quick_code id
    jni_code ← get_jni_code id
    original_method ← clone_method k id
    let key : ArtMethodKey = record {
      decl_class = decl_class;
      access_flags = access_flags;
      dex_code_item_offset = dex_code_item_offset;
      quick_code = quick_code;
      interpreter_code = interpreter_code;
      jni_code = jni_code;
      original_method = original_method;
    }
    modify (λ s. record s { hooked_method_map = insert_key id key s.hooked_method_map })

  unfoldable pub force_profiles : Act (Unit {0})
  unfolding get_symbol
  force_profiles = do
    symbols ← get_symbol k
    let force = do call k symbols.force_process_profiles []; ret tt
    if symbols.force_process_profiles != null then force else ret tt

  -- From `ARTSymbol::GetBridgeList()` on.
  unfoldable pub point_to_jni : (id replace : ℕ) → Act (Unit {0})
  unfolding get_bridge_list set_quick_code set_interpreter_code set_jni_code
  point_to_jni id replace = do
    bridge_list ← get_bridge_list k
    set_quick_code id bridge_list.quick_to_jni_bridge
    api_level ← gets (λ s. s.api_level)
    let interpreted = ltb api_level android_n && bridge_list.interpreter_to_compiled_code != null
    if interpreted then set_interpreter_code id bridge_list.interpreter_to_compiled_code else ret tt
    set_jni_code id replace

  -- The last step is the destructor of `suspendAll`.
  unfoldable pub hook_method : (id replace : ℕ) → Act (Unit {0})
  unfolding manual_control backup force_profiles set_dex_code_item_offset forbid_compiling
      reset_hotness make_native point_to_jni
  hook_method id replace = do
    manual_control k true
    backup id
    force_profiles
    set_dex_code_item_offset id 0
    forbid_compiling id
    reset_hotness id
    make_native id
    point_to_jni id replace
    manual_control k false

  -- The class has moved: clone again, and give the clone the entries that the method had.
  unfoldable pub clone_again : ℕ → ArtMethodKey → Act (Unit {0})
  unfolding clone_method set_quick_code set_jni_code set_dex_code_item_offset get_declaring_class
      set_key
  clone_again id key = do
    original_method ← clone_method k id
    modify λ s. record s {
      hooked_method_map =
          set_key id (record key { original_method = original_method }) s.hooked_method_map;
    }
    set_quick_code original_method key.quick_code
    set_jni_code original_method key.jni_code
    set_dex_code_item_offset original_method key.dex_code_item_offset
    decl_class ← get_declaring_class id
    let moved = record key { original_method = original_method; decl_class = decl_class }
    modify (λ s. record s { hooked_method_map = set_key id moved s.hooked_method_map })

  -- A method that was not hooked has a null key, which is read from.
  unfoldable pub deal_gc_root : ℕ → Act (Unit {0})
  unfolding get_method_key get_declaring_class clone_again
  deal_gc_root id = do
    method_key ← get_method_key id
    elim method_key as (λ _. Act (Unit {0})) [
      | none ↦ (λ s. undef)
      | some key ↦
          get_declaring_class id
          >>= (λ decl_class. if key.decl_class == decl_class then ret tt else clone_again id key)
    ]

  -- From `env->FindClass("java/lang/reflect/Method")` on.
  unfoldable pub invoke_backup : (env id original_method thiz params : ℕ) → Act ℕ
  unfolding has_access_flags
  invoke_backup env id original_method thiz params = do
    method_class ← invoke k env (JniCall.find_class "java/lang/reflect/Method")
    invoke_method ← invoke k env (
        JniCall.get_method_id method_class "invoke"
          "(Ljava/lang/Object;[Ljava/lang/Object;)Ljava/lang/Object;")
    obj_class ← invoke k env (JniCall.find_class "java/lang/Object")
    is_static ← has_access_flags id acc_static
    java_method ← invoke k env (JniCall.to_reflected_method obj_class original_method is_static)
    invoke k env
        (JniCall.call_nonvirtual_object_method java_method method_class invoke_method thiz params)

  unfoldable pub invoke_original : (id env thiz params : ℕ) → Act ℕ
  unfolding get_method_key deal_gc_root invoke_backup
  invoke_original id env thiz params = do
    deal_gc_root id
    method_key ← get_method_key id
    elim method_key as (λ _. Act ℕ) [
      | none ↦ (λ s. undef)
      | some key ↦ invoke_backup env id key.original_method thiz params
    ]

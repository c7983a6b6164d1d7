-- ===== src/Art/Symbols.antt =====
-- cpp/art/ARTSymbol.cpp: the functions of libart.so, looked up once.
use Prim.Native.String.{String}
use art_hook.Base.{
  ℕ, zero, suc, ◌+◌, ◌-◌, ◌*◌, ◌^◌, true, ◌==◌, ◌!=◌, if◌then◌else◌, ltb, leb, [], ◌∷◌,
}
use art_hook.Machine.{null, u64}
use art_hook.Art.State.{
  Runtime, ArtSymbolList, ArtBridgeList, RuntimeObject, JniCall, Act, ret, lift, gets, modify, call,
  invoke, ◌>>=◌, ◌>>◌,
}
use art_hook.Art.Modifiers.{android_m, android_n, android_o, android_o_mr1, atoi}
use art_hook.Art.Members.{sizeof_ptr, member_of}
use art_hook.Art.Jni.{get_jni_env, get_current_thread}

-- `a - b` on `size_t`, for `b` below 2^64.
abbrev pub sub64 : ℕ → ℕ → ℕ
sub64 a b = u64 (a + (2 ^ 64 - b))

abbrev pub method_copy_from_name : ℕ → String
method_copy_from_name api_level =
    if ltb android_o api_level
    then "_ZN3art9ArtMethod8CopyFromEPS0_NS_11PointerSizeE"
    else (if ltb android_n api_level
        then "_ZN3art9ArtMethod8CopyFromEPS0_m"
        else "_ZN3art9ArtMethod8CopyFromEPKS0_m")

-- Where the search through the Runtime expects its members, from the offset of its `vm`.
abbrev pub class_linker_offset : (api_level offset : ℕ) → ℕ
class_linker_offset api_level offset =
    let o = sub64 (sub64 offset (sizeof_ptr * 3)) (2 * sizeof_ptr) in
    if leb android_o_mr1 api_level then sub64 o sizeof_ptr else o

abbrev pub intern_table_offset : (api_level offset : ℕ) → ℕ
intern_table_offset api_level offset = sub64 (class_linker_offset api_level offset) sizeof_ptr

abbrev pub thread_list_offset : (api_level offset : ℕ) → ℕ
thread_list_offset api_level offset = sub64 (intern_table_offset api_level offset) sizeof_ptr

abbrev pub heap_offset : (api_level offset : ℕ) → ℕ
heap_offset api_level offset =
    let o = sub64 (thread_list_offset api_level offset) (4 * sizeof_ptr) in
    let o1 = if leb android_m api_level then sub64 o (3 * sizeof_ptr) else o in
    if leb android_n api_level then sub64 o1 sizeof_ptr else o1

module _ (k : Runtime) where
  -- `get_android_api_level` of cpp/art/api_level.h.
  abbrev pub get_android_api_level : ℕ
  get_android_api_level = atoi k.sdk

  -- From the test of `object_clone` on, after the other members.
  unfoldable pub find_clones : (libart object_clone : ℕ) → ArtSymbolList → Act ArtSymbolList
  find_clones libart object_clone list = do
    let others = do
      with_class ← lift (k.dl_sym libart "_ZN3art6mirror6Object5CloneEPNS_6ThreadEPNS0_5ClassE")
      with_size ← lift (k.dl_sym libart "_ZN3art6mirror6Object5CloneEPNS_6ThreadEm")
      ret (record list { object_clone_with_class = with_class; object_clone_with_size = with_size })
    if object_clone == null then others else ret list

  unfoldable pub find_symbols : Act ArtSymbolList
  unfolding find_clones
  find_symbols = do
    libart ← lift (k.dl_open "libart.so")
    suspend ← lift (k.dl_sym libart "_ZN3art3Dbg9SuspendVMEv")
    resume ← lift (k.dl_sym libart "_ZN3art3Dbg8ResumeVMEv")
    profiles ← lift (k.dl_sym libart "_ZN3art12ProfileSaver20ForceProcessProfilesEv")
    copy_from ← lift (k.dl_sym libart (method_copy_from_name get_android_api_level))
    clone ← lift (k.dl_sym libart "_ZN3art6mirror6Object5CloneEPNS_6ThreadE")
    list ← gets (λ s. s.symbol_list)
    let found = record list {
      suspend_vm = suspend;
      resume_vm = resume;
      force_process_profiles = profiles;
      method_copy_from = copy_from;
      object_clone = clone;
    }
    found_all ← find_clones libart clone found
    modify (λ s. record s { symbol_list = found_all; symbol_inited = true })
    ret found_all

  unfoldable pub get_symbol : Act ArtSymbolList
  unfolding find_symbols
  get_symbol = do
    inited ← gets (λ s. s.symbol_inited)
    if inited then gets (λ s. s.symbol_list) else find_symbols

  -- The members of the Runtime, once its `vm` is at `offset`.
  unfoldable pub runtime_members : (api_level runtime offset : ℕ) → Act RuntimeObject
  unfolding member_of
  runtime_members api_level runtime offset = do
    obj ← gets (λ s. s.runtime_obj)
    heap ← member_of sizeof_ptr runtime (heap_offset api_level offset)
    thread_list ← member_of sizeof_ptr runtime (thread_list_offset api_level offset)
    class_linker ← member_of sizeof_ptr runtime (class_linker_offset api_level offset)
    intern_table ← member_of sizeof_ptr runtime (intern_table_offset api_level offset)
    ret (record obj {
      heap = heap;
      thread_list = thread_list;
      class_linker = class_linker;
      intern_table = intern_table;
    })

  -- `n` slots are left. Where none holds `vm`, the members are null.
  unfoldable pub search_runtime : (n api_level vm runtime offset : ℕ) → Act RuntimeObject
  unfolding member_of runtime_members
  search_runtime zero api_level vm runtime offset = gets λ s. record s.runtime_obj {
    heap = null;
    thread_list = null;
    class_linker = null;
    intern_table = null;
  }
  search_runtime (suc n) api_level vm runtime offset = do
    v ← member_of sizeof_ptr runtime offset
    let rest = search_runtime n api_level vm runtime (offset + sizeof_ptr)
    if v == vm then runtime_members api_level runtime offset else rest

  unfoldable pub search_class_linker : (n api_level class_linker intern_table offset : ℕ) → Act ℕ
  unfolding member_of
  search_class_linker zero api_level class_linker intern_table offset = ret null
  search_class_linker (suc n) api_level class_linker intern_table offset = do
    v ← member_of sizeof_ptr class_linker offset
    let rest = search_class_linker n api_level class_linker intern_table (offset + sizeof_ptr)
    let target_offset = offset + (if leb android_m api_level then 3 else 5) * sizeof_ptr
    if v == intern_table then member_of sizeof_ptr class_linker target_offset else rest

  -- From `LOGE("start to search runtime by risky way")` on.
  unfoldable pub search_trampoline : (api_level vm : ℕ) → Act ℕ
  unfolding member_of search_runtime search_class_linker
  search_trampoline api_level vm = do
    runtime ← member_of sizeof_ptr vm sizeof_ptr
    modify (λ s. record s { runtime_obj = record (s.runtime_obj) { runtime = runtime } })
    obj ← search_runtime 100 api_level vm runtime 384
    modify (λ s. record s { runtime_obj = obj })
    search_class_linker 100 api_level obj.class_linker obj.intern_table (sizeof_ptr * 25)

  unfoldable pub get_android_runtime_address : ℕ → Act ℕ
  unfolding get_jni_env search_trampoline
  get_android_runtime_address libart = do
    env ← get_jni_env k
    vm ← invoke k env JniCall.get_java_vm
    modify (λ s. record s { runtime_obj = record (s.runtime_obj) { vm = vm } })
    quick_to_jni_bridge ← lift (k.dl_sym libart "art_quick_generic_jni_trampoline")
    if quick_to_jni_bridge == null
        then search_trampoline get_android_api_level vm
        else ret quick_to_jni_bridge

  unfoldable pub find_bridges : Act ArtBridgeList
  unfolding get_android_runtime_address
  find_bridges = do
    libart ← lift (k.dl_open "libart.so")
    to_compiled ← lift (k.dl_sym libart "artInterpreterToCompiledCodeBridge")
    to_jni ← get_android_runtime_address libart
    to_interpreter ← lift (k.dl_sym libart "art_quick_to_interpreter_bridge")
    let list : ArtBridgeList = record {
      interpreter_to_compiled_code = to_compiled;
      quick_to_jni_bridge = to_jni;
      quick_to_interpreter = to_interpreter;
    }
    modify (λ s. record s { bridge_list = list; bridge_inited = true })
    ret list

  unfoldable pub get_bridge_list : Act ArtBridgeList
  unfolding find_bridges
  get_bridge_list = do
    inited ← gets (λ s. s.bridge_inited)
    if inited then gets (λ s. s.bridge_list) else find_bridges

  unfoldable pub clone_object : ℕ → Act ℕ
  unfolding get_symbol get_current_thread
  clone_object art_object = do
    list ← get_symbol
    thread ← get_current_thread k
    if list.object_clone != null
        then call k list.object_clone (art_object ∷ thread ∷ [])
        else (if list.object_clone_with_class != null
            then call k list.object_clone_with_class (art_object ∷ thread ∷ null ∷ [])
            else call k list.object_clone_with_size (art_object ∷ thread ∷ 0 ∷ []))

-- ===== src/Art/Load.antt =====
-- How the library enters a process: cpp/native-lib.cpp, `is_zygote` and `JNI_OnLoad` of
-- cpp/art/native_load.cpp, cpp/art/hook_module and cpp/art/test.cpp.
use Prim.Native.String.{String}
use art_hook.Base.{
  ℕ, ◌-◌, ◌^◌, Bool, true, false, not, ◌&&◌, ◌||◌, ◌==◌, ◌!=◌, if◌then◌else◌, Text, [], ◌∷◌,
  strcmp_eq,
}
use art_hook.Machine.{Cmd, null, load_le}
use art_hook.Art.State.{Runtime, JniCall, Act, ret, lift, call, invoke, no_offsets, ◌>>=◌, ◌>>◌}
use art_hook.Art.Jni.{get_jni_env}
use art_hook.Art.Symbols.{get_bridge_list}
use art_hook.Art.Hook.{hook_method, invoke_original}
use art_hook.Art.Layout.{get_base_offset, calculate_other_offset, art_method, set_art_prepared}

-- `strstr(s, t) != nullptr`.
unfoldable pub starts_with : (t s : Text) → Bool
starts_with [] s = true
starts_with (c ∷ t) [] = false
starts_with (c ∷ t) (d ∷ s) = c == d && starts_with t s

unfoldable pub strstr_found : (s t : Text) → Bool
unfolding starts_with
strstr_found [] t = starts_with t []
strstr_found (c ∷ s) t = starts_with t (c ∷ s) || strstr_found s t

abbrev pub zygote : Text
zygote = b'z' ∷ b'y' ∷ b'g' ∷ b'o' ∷ b't' ∷ b'e' ∷ []

abbrev pub app_process : Text
app_process = b'a' ∷ b'p' ∷ b'p' ∷ b'_' ∷ b'p' ∷ b'r' ∷ b'o' ∷ b'c' ∷ b'e' ∷ b's' ∷ b's' ∷ []

abbrev pub dex2oat : Text
dex2oat = b'd' ∷ b'e' ∷ b'x' ∷ b'2' ∷ b'o' ∷ b'a' ∷ b't' ∷ []

-- `process_name` is what GetProcessName reads, as if its string were still there.
unfoldable pub is_zygote : Text → Bool
unfolding strcmp_eq strstr_found
is_zygote process_name =
    if strcmp_eq zygote process_name then true else strstr_found process_name app_process

abbrev pub jni_version_1_6 : ℕ
jni_version_1_6 = 0x10006

abbrev pub jni_ok : ℕ
jni_ok = 0

-- JNI_ERR, -1 as a `jint`.
abbrev pub jni_err : ℕ
jni_err = 2 ^ 32 - 1

-- The library in its process: `process_name`, the addresses of its functions and of the variables
-- that xHook writes an old function to, and the calls of cpp/xhook.
pub record Library : Type 0 where
  pub process_name : Text
  pub my_test_output : ℕ
  pub my_call_application_on_create : ℕ
  pub my_execv : ℕ
  pub create_java_vm_impl : ℕ
  pub old_create_jvm : ℕ
  pub org_execv : ℕ
  pub dlsym_default : String → Cmd ℕ
  pub xhook_register : (pathname_regex symbol : String) (new_func old_func : ℕ) → Cmd ℕ
  pub xhook_refresh : ℕ → Cmd ℕ
  pub execv : String → Cmd ℕ
  pub get_env : Cmd ℕ

module _ (k : Runtime) (l : Library) where
  -- The replacement of `callApplicationOnCreate`; `method` is that of app_on_create.cpp.
  unfoldable pub my_call_application_on_create : (method env thiz this_app : ℕ) → Act (Unit {0})
  unfolding invoke_original
  my_call_application_on_create method env thiz this_app = do
    app_class ← invoke k env (JniCall.get_object_class this_app)
    params ← invoke k env (JniCall.new_object_array 1 app_class this_app)
    invoke_original k method env thiz params
    ret tt

  unfoldable pub hook_app_on_create : Act ℕ
  unfolding get_jni_env hook_method
  hook_app_on_create = do
    env ← get_jni_env k
    in_class ← invoke k env (JniCall.find_class "android/app/Instrumentation")
    method ←
        invoke k env
          (JniCall.get_method_id in_class "callApplicationOnCreate" "(Landroid/app/Application;)V")
    hook_method k method l.my_call_application_on_create
    ret method

  unfoldable pub jni_create_java_vm_impl : (p_vm p_env vm_args : ℕ) → Act ℕ
  unfolding set_art_prepared hook_app_on_create
  jni_create_java_vm_impl p_vm p_env vm_args = do
    old_create_jvm ← lift (load_le 8 l.old_create_jvm)
    let create = do
      r ← call k old_create_jvm (p_vm ∷ p_env ∷ vm_args ∷ [])
      if r == jni_ok then set_art_prepared k true else ret tt
      hook_app_on_create
      ret r
    if old_create_jvm == null then ret jni_ok else create

  unfoldable pub hook_create_jvm : Act (Unit {0})
  unfolding set_art_prepared
  hook_create_jvm = do
    set_art_prepared k false
    create_jvm_symbol ← lift (l.dlsym_default "JNI_CreateJavaVM")
    let register = do
      lift (l.xhook_register ".*\\.so$" "JNI_CreateJavaVM" l.create_java_vm_impl l.old_create_jvm)
      lift (l.xhook_refresh 0)
      ret tt
    if create_jvm_symbol != null then register else ret tt

  -- The constructor of `static_initializer`.
  unfoldable pub static_initializer : Act (Unit {0})
  unfolding is_zygote hook_create_jvm
  static_initializer = if not (is_zygote l.process_name) then ret tt else hook_create_jvm

  -- The replacement of `testOutput`; `method` is that of test.cpp.
  unfoldable pub my_test_output : (method env thiz : ℕ) → Act (Unit {0})
  unfolding invoke_original
  my_test_output method env thiz = do invoke_original k method env thiz null; ret tt

  unfoldable pub test_art_hook : Act ℕ
  unfolding get_jni_env hook_method
  test_art_hook = do
    env ← get_jni_env k
    test_class ← invoke k env (JniCall.find_class "com/pvdnc/arthook/TestClass")
    test_method ← invoke k env (JniCall.get_method_id test_class "testOutput" "()V")
    hook_method k test_method l.my_test_output
    ret test_method

  -- -1 as an `int`, or what the old function gives.
  unfoldable pub my_execv : (path : Text) (path_address argv : ℕ) → Act ℕ
  unfolding strstr_found
  my_execv path path_address argv = do
    let run = do
      org_execv ← lift (load_le 8 l.org_execv)
      call k org_execv (path_address ∷ argv ∷ [])
    if strstr_found path dex2oat then ret (2 ^ 32 - 1) else run

  unfoldable pub test_xhook : Act (Unit {0})
  test_xhook = do
    lift (l.xhook_register ".*\\.so$" "execv" l.my_execv l.org_execv)
    lift (l.xhook_refresh 0)
    lift (l.execv "dex2oat test")
    ret tt

  -- `JNI_OnLoad` once it has its environment. Its own `method_offset` is used by nothing.
  unfoldable pub load_in_app : ℕ → Act ℕ
  unfolding set_art_prepared get_base_offset calculate_other_offset art_method get_bridge_list
      test_art_hook test_xhook
  load_in_app env = do
    set_art_prepared k true
    summary ← get_base_offset k env
    calculate_other_offset k summary no_offsets
    art_method k
    get_bridge_list k
    test_art_hook
    test_xhook
    bridge_class ← invoke k env (JniCall.find_class "com/pvdnc/arthook/NativeBridge")
    invoke k env (JniCall.register_natives bridge_class)
    invoke k env (JniCall.get_static_method_id bridge_class "reversed0" "()V")
    invoke k env (JniCall.get_static_method_id bridge_class "reversed1" "()V")
    ret jni_version_1_6

  unfoldable pub jni_on_load : Act ℕ
  unfolding is_zygote load_in_app
  jni_on_load = do
    let enter = do env ← lift l.get_env; if env == null then ret jni_err else load_in_app env
    if is_zygote l.process_name then ret jni_version_1_6 else enter

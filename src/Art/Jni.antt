-- ===== src/Art/Jni.antt =====
-- cpp/base/jni_helper.cpp and cpp/art/thread.cpp.
use art_hook.Base.{ℕ, Bool, true, false, ◌==◌, ◌!=◌, if◌then◌else◌, []}
use art_hook.Machine.{null}
use art_hook.Art.State.{Runtime, JniCall, Act, ret, lift, gets, modify, call, invoke, ◌>>=◌, ◌>>◌}

module _ (k : Runtime) where
  unfoldable pub find_jnienv : Act (Unit {0})
  find_jnienv = do
    libandroid_runtime ← lift (k.dl_open "libandroid_runtime.so")
    f ← lift (k.dl_sym libandroid_runtime "_ZN7android14AndroidRuntime9getJNIEnvEv")
    modify (λ s. record s { get_jnienv_symbol = f })

  unfoldable pub get_jni_env : Act ℕ
  unfolding find_jnienv
  get_jni_env = do
    known ← gets (λ s. s.get_jnienv_symbol)
    if known == null then find_jnienv else ret tt
    f ← gets (λ s. s.get_jnienv_symbol)
    if f != null then call k f [] else ret null

  -- A `jboolean` is a number, 0 for false.
  unfoldable pub jni_exception_clear : ℕ → Act Bool
  jni_exception_clear env = do
    raised ← invoke k env JniCall.exception_check
    let clear = do
      invoke k env JniCall.exception_describe
      invoke k env JniCall.exception_clear
      ret true
    if raised != 0 then clear else ret false

  unfoldable pub get_current_thread : Act ℕ
  unfolding get_jni_env jni_exception_clear
  get_current_thread = do
    env ← get_jni_env
    thread_class ← invoke k env (JniCall.find_class "java/lang/Thread")
    current_thread_method ←
        invoke k env
          (JniCall.get_static_method_id thread_class "currentThread" "()Ljava/lang/Thread;")
    thread ← invoke k env (JniCall.call_static_object_method thread_class current_thread_method)
    native_peer_field ← invoke k env (JniCall.get_field_id thread_class "nativePeer" "J")
    raised ← jni_exception_clear env
    let native_peer = invoke k env (JniCall.get_long_field thread native_peer_field)
    if raised then lift k.tls_self else native_peer

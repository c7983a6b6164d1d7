-- ===== src/Art/Suspend.antt =====
-- cpp/art/scoped_thread_state_change.cc.
pub mod Laws
use Prim.Native.String.{String}
use art_hook.Base.{ℕ, ◌+◌, ◌-◌, ◌^◌, Bool, ◌==◌, ◌!=◌, ◌&&◌, ◌||◌, if◌then◌else◌, [], leb}
use art_hook.Machine.{null, u64}
use art_hook.Art.State.{
  Runtime, Statics, Daemons, JniCall, Act, ret, gets, modify, call, invoke, ◌>>=◌, ◌>>◌,
}
use art_hook.Art.Jni.{jni_exception_clear}
use art_hook.Art.Symbols.{get_symbol}

-- `n <= 0` of a `long` with the bits `n`.
abbrev pub not_positive : ℕ → Bool
not_positive n = n == 0 || leb (2 ^ 63) n

abbrev set_daemons : (Daemons → Daemons) → Act (Unit {0})
set_daemons f = modify (λ s. record s { daemons = f s.daemons })

module _ (k : Runtime) where
  -- `ScopedSuspendAll::ManualControl`, which the constructor calls with true and the destructor
  -- with false.
  unfoldable pub manual_control : Bool → Act (Unit {0})
  unfolding get_symbol
  manual_control suspend = do
    symbols ← get_symbol k
    let supported = symbols.suspend_vm != null && symbols.resume_vm != null
    let switch = do call k (if suspend then symbols.suspend_vm else symbols.resume_vm) []; ret tt
    if supported then switch else ret tt

  unfoldable pub start_fallback : (env class start : ℕ) → Act ℕ
  unfolding jni_exception_clear
  start_fallback env class start = do
    let fork = do
      jni_exception_clear k env
      invoke k env (JniCall.get_static_method_id class "startPostZygoteFork" "()V")
    if start == null then fork else ret start

  -- From the lookup of `start` on.
  unfoldable pub load_methods : (env class : ℕ) → Act (Unit {0})
  unfolding start_fallback jni_exception_clear
  load_methods env class = do
    first ← invoke k env (JniCall.get_static_method_id class "start" "()V")
    start ← start_fallback env class first
    set_daemons (λ d. record d { java_lang_daemons_start = start })
    let clear = do jni_exception_clear k env; ret tt
    if start == null then clear else ret tt
    stop ← invoke k env (JniCall.get_static_method_id class "stop" "()V")
    set_daemons (λ d. record d { java_lang_daemons_stop = stop })
    clear

  -- `ScopedNoGCDaemons::Load`.
  unfoldable pub load_daemons : ℕ → Act (Unit {0})
  unfolding load_methods jni_exception_clear
  load_daemons env = do
    found ← invoke k env (JniCall.find_class "java/lang/Daemons")
    class ← invoke k env (JniCall.new_global_ref found)
    set_daemons (λ d. record d { java_lang_daemons = class })
    let unavailable = do jni_exception_clear k env; ret tt
    if class == null then unavailable else load_methods env class

  -- `CallStaticVoidMethod` on the class of the daemons.
  unfoldable pub call_daemons : (env method : ℕ) → Act (Unit {0})
  unfolding jni_exception_clear
  call_daemons env method = do
    class ← gets (λ s. s.daemons.java_lang_daemons)
    invoke k env (JniCall.call_static_void_method class method)
    jni_exception_clear k env
    ret tt

  -- The constructor of ScopedNoGCDaemons.
  unfoldable pub enter_no_gc : ℕ → Act (Unit {0})
  unfolding call_daemons
  enter_no_gc env = do
    d ← gets (λ s. s.daemons)
    let guard = u64 (d.no_gc_daemons_guard + (2 ^ 64 - 1))
    let stop = do
      set_daemons (λ d. record d { no_gc_daemons_guard = guard })
      if not_positive guard then call_daemons env d.java_lang_daemons_stop else ret tt
    if d.java_lang_daemons_start != null then stop else ret tt

  -- The destructor of ScopedNoGCDaemons.
  unfoldable pub leave_no_gc : ℕ → Act (Unit {0})
  unfolding call_daemons
  leave_no_gc env = do
    d ← gets (λ s. s.daemons)
    let guard = u64 (d.no_gc_daemons_guard + 1)
    let start = do
      set_daemons (λ d. record d { no_gc_daemons_guard = guard })
      if guard == 1 then call_daemons env d.java_lang_daemons_start else ret tt
    if d.java_lang_daemons_stop != null then start else ret tt

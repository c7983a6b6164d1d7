-- ===== src/Core/Interface.antt =====
-- The public functions of cpp/xhook/xhook.c and their entry points for Java in cpp/xhook/xh_jni.c,
-- with `xh_log_priority` of cpp/xhook/xh_log.c, and a caller that makes a sequence of calls.
pub mod Laws
use art_hook.Base.{ℕ, Bool, true, false, Option, List, [], ◌∷◌, if◌then◌else◌, Text}
use art_hook.Machine.{Cmd, pure, ◌>>=◌}
use art_hook.Core.State.{Env, Core, core_start}
use art_hook.Core.Registry.{register, ignore}
use art_hook.Core.Lifecycle.{refresh, clear, enable_sigsegv_protection}

-- ANDROID_LOG_DEBUG and ANDROID_LOG_WARN of <android/log.h>.
abbrev pub android_log_debug : ℕ
android_log_debug = 3

abbrev pub android_log_warn : ℕ
android_log_warn = 5

pub data Call : Type 0 where
  registering : (pathname_regex_str symbol : Option Text) (new_func old_func : ℕ) → Call
  ignoring : (pathname_regex_str symbol : Option Text) → Call
  refreshing : (async : Bool) → Call
  clearing : Call
  debugging : (flag : Bool) → Call
  protecting : (flag : Bool) → Call

module _ (env : Env) where
  pub record Library : Type 0 where
    pub core : Core env
    pub log_priority : ℕ

  abbrev pub library_start : Library
  library_start = record { core = core_start env; log_priority = android_log_warn }

  abbrev with_core : Library → ℕ × Core env → ℕ × Library
  with_core l (r, c) = (r, record l { core = c })

  unfoldable pub xhook_register :
      Library → (pathname_regex_str symbol : Option Text) (new_func old_func : ℕ) → ℕ × Library
  unfolding register
  xhook_register l pathname_regex_str symbol new_func old_func =
      with_core l (register env l.core pathname_regex_str symbol new_func old_func)

  unfoldable pub xhook_ignore : Library → (pathname_regex_str symbol : Option Text) → ℕ × Library
  unfolding ignore
  xhook_ignore l pathname_regex_str symbol =
      with_core l (ignore env l.core pathname_regex_str symbol)

  unfoldable pub xhook_refresh : Library → (async : Bool) → Cmd (ℕ × Library)
  unfolding refresh
  xhook_refresh l async = do r ← refresh env l.core async; pure (with_core l r)

  unfoldable pub xhook_clear : Library → Library
  unfolding clear
  xhook_clear l = record l { core = clear env l.core }

  unfoldable pub xhook_enable_debug : Library → (flag : Bool) → Library
  xhook_enable_debug l flag = record l {
    log_priority = if flag then android_log_debug else android_log_warn;
  }

  unfoldable pub xhook_enable_sigsegv_protection : Library → (flag : Bool) → Library
  unfolding enable_sigsegv_protection
  xhook_enable_sigsegv_protection l flag = record l {
    core = enable_sigsegv_protection env l.core flag;
  }

  -- `Java_com_qiyi_xhook_NativeHandler_refresh` and the others.
  unfoldable pub jni_refresh : Library → (async : Bool) → Cmd (ℕ × Library)
  unfolding xhook_refresh
  jni_refresh l async = xhook_refresh l async

  unfoldable pub jni_clear : Library → Library
  unfolding xhook_clear
  jni_clear l = xhook_clear l

  unfoldable pub jni_enable_debug : Library → (flag : Bool) → Library
  unfolding xhook_enable_debug
  jni_enable_debug l flag = xhook_enable_debug l flag

  unfoldable pub jni_enable_sigsegv_protection : Library → (flag : Bool) → Library
  unfolding xhook_enable_sigsegv_protection
  jni_enable_sigsegv_protection l flag = xhook_enable_sigsegv_protection l flag

  -- One call; the code that it returns is dropped.
  unfoldable pub perform : Call → Library → Cmd Library
  unfolding jni_refresh jni_clear jni_enable_debug jni_enable_sigsegv_protection xhook_register
      xhook_ignore
  perform (registering pathname_regex_str symbol new_func old_func) l =
      pure (xhook_register l pathname_regex_str symbol new_func old_func).1
  perform (ignoring pathname_regex_str symbol) l = pure (xhook_ignore l pathname_regex_str symbol).1
  perform (refreshing async) l = do r ← jni_refresh l async; pure r.1
  perform clearing l = pure (jni_clear l)
  perform (debugging flag) l = pure (jni_enable_debug l flag)
  perform (protecting flag) l = pure (jni_enable_sigsegv_protection l flag)

  unfoldable pub perform_all : List Call → Library → Cmd Library
  unfolding perform
  perform_all [] l = pure l
  perform_all (call ∷ rest) l = do l ← perform call l; perform_all rest l

-- ===== src/Core/Interface/Laws.antt =====
-- What holds of the library after any sequence of calls of the public functions.
use art_hook.Base.{◌≡◌, refl, List, [], ◌∷◌}
use art_hook.Machine.{Mem, Res}
use art_hook.Machine.Laws.{seen, Ensures, returns, bind, at_return}
use art_hook.Core.State.{Env}
use art_hook.Core.Lifecycle.{refresh}
use art_hook.Core.Lifecycle.Laws.{IsValid}
use art_hook.Core.Lifecycle.Steps.{
  Reach, start, next, registers, ignores, refreshes, clears, protects, Reach-IsValid,
}
use art_hook.Core.Interface.{
  Library, library_start, Call, registering, ignoring, refreshing, clearing, debugging, protecting,
  xhook_register, xhook_ignore, xhook_refresh, xhook_clear, xhook_enable_debug,
  xhook_enable_sigsegv_protection, jni_refresh, jni_clear, jni_enable_debug,
  jni_enable_sigsegv_protection, perform, perform_all,
}

module _ (env : Env) where
  abbrev Reaches : Res (Library env) → Type 0
  Reaches r = Ensures (λ l n. Reach env l.core) (λ n. Unit {0}) r

  Reaches-perform :
      (call : Call) (l : Library env) (m : Mem) → Reach env l.core → Reaches (perform env call l m)
  unfolding perform xhook_register xhook_ignore jni_refresh xhook_refresh jni_clear xhook_clear
      jni_enable_debug xhook_enable_debug jni_enable_sigsegv_protection
      xhook_enable_sigsegv_protection
  Reaches-perform (registering regex_str symbol new_func old_func) l m r =
      returns (next r (registers regex_str symbol new_func old_func refl))
  Reaches-perform (ignoring regex_str symbol) l m r =
      returns (next r (ignores regex_str symbol refl))
  Reaches-perform (refreshing async) l m r =
      bind {P = λ x n. Reach env x.1.core}
        (bind (seen (refresh env l.core async m))
          (λ x n e. returns (next r (refreshes async m n x.0 e))))
        (λ x n h. returns h)
  Reaches-perform clearing l m r = returns (next r (clears refl))
  Reaches-perform (debugging flag) l m r = returns r
  Reaches-perform (protecting flag) l m r = returns (next r (protects flag refl))

  Reaches-perform_all :
      (calls : List Call) (l : Library env) (m : Mem)
      → Reach env l.core
      → Reaches (perform_all env calls l m)
  unfolding perform_all
  Reaches-perform_all [] l m r = returns r
  Reaches-perform_all (call ∷ rest) l m r =
      bind (Reaches-perform call l m r) (λ l' n r'. Reaches-perform_all rest l' n r')

  -- After any sequence of public calls that returns, also of calls in a wrong order or with wrong
  -- arguments, the state of the library is valid.
  pub perform_all-IsValid :
      (calls : List Call) (l : Library env) (m n : Mem)
      → perform_all env calls (library_start env) m ≡ Res.done l n
      → IsValid env l.core
  perform_all-IsValid calls l m n run =
      Reach-IsValid env
        (at_return (rw run at (Reaches-perform_all calls (library_start env) m start)))

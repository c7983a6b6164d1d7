-- ===== src/Art/Suspend/Laws.antt =====
-- Scopes without the daemons of the garbage collector.
use art_hook.Base.{
  ◌∷◌, ℕ, suc, ◌+◌, ◌-◌, ◌%◌, ◌^◌, ◌≤◌, ◌<◌, ◌≡◌, ◌≢◌, refl, sym, ap, ◌∙◌, false, arith, ◌==◌, ◌!=◌,
}
use art_hook.Machine.{Mem, Res, null, u64, and_then}
use art_hook.Machine.Laws.{Ensures, returns, faults, bind, branch, weaken, at_return, seen}
use art_hook.Art.State.{Runtime, Statics, Daemons, Event, JniCall, Act, invoke, ◌>>=◌}
use art_hook.Art.Runs.{fork, taken, passed}
use art_hook.Art.Jni.{jni_exception_clear}
use art_hook.Art.Suspend.{call_daemons, enter_no_gc, leave_no_gc, not_positive}

module _ (k : Runtime) (env : ℕ) where
  -- The statics of the daemons are as they were.
  abbrev Same : {A : Type 0} → Daemons → Res (A × Statics) → Type 0
  Same {A} d r = Ensures {A = A × Statics} (λ p m'. p.1.daemons ≡ d) (λ _. Unit {0}) r

  invoke-Same :
      {B : Type 0} (c : JniCall) (next : ℕ → Act B) (s : Statics) (m : Mem)
      → ((a : ℕ) (s' : Statics) (m' : Mem) → s'.daemons ≡ s.daemons → Same s.daemons (next a s' m'))
      → Same s.daemons ((invoke k env c >>= next) s m)
  unfolding invoke
  invoke-Same c next s m rest =
      bind {P = λ p m'. p.1.daemons ≡ s.daemons} {F = λ _. Unit {0}}
        (branch (env == null) Res.segv
          (λ m.
            and_then (k.jni_call env c m)
              (λ r. Res.done (r, record s { events = Event.jni c ∷ s.events })))
          m (λ _. faults tt) (λ _. bind (seen (k.jni_call env c m)) λ a n _. returns refl))
        (λ p m' e. rest p.0 p.1 m' e)

  clear-Same : (s : Statics) (m : Mem) → Same s.daemons (jni_exception_clear k env s m)
  unfolding jni_exception_clear
  clear-Same s m = invoke-Same JniCall.exception_check _ s m λ raised s1 m1 e1.
      fork (raised != 0) _ _ s1 m1
        (λ _. rw (sym e1) (
          invoke-Same JniCall.exception_describe _ s1 m1 λ _ s2 m2 e2.
            rw (sym e2) (invoke-Same JniCall.exception_clear _ s2 m2 (λ _ s3 m3 e3. returns e3))))
        (λ _. returns e1)

  call_daemons-Same : (x : ℕ) (s : Statics) (m : Mem) → Same s.daemons (call_daemons k env x s m)
  unfolding call_daemons
  call_daemons-Same x s m =
      invoke-Same (JniCall.call_static_void_method _ x) _ s m
        λ _ s1 m1 e1. bind (clear-Same s1 m1) (λ p m2 e2. returns (e2 ∙ e1))

  -- `d` scopes are open, entered and left in any order from `s0` on.
  pub data Scopes (s0 : Statics) : ℕ → Statics → Mem → Type 0 where
    outside : (m : Mem) → Scopes s0 0 s0 m
    enter :
        {d : ℕ} {s s' : Statics} {m m' : Mem}
        → Scopes s0 d s m
        → d < 2 ^ 62
        → enter_no_gc k env s m ≡ Res.done (tt, s') m'
        → Scopes s0 (suc d) s' m'
    leave :
        {d : ℕ} {s s' : Statics} {m m' : Mem}
        → Scopes s0 (suc d) s m
        → leave_no_gc k env s m ≡ Res.done (tt, s') m'
        → Scopes s0 d s' m'

  abbrev pub guarded : Daemons → ℕ → Daemons
  guarded d g = record d { no_gc_daemons_guard = g }

  -- The guard counts down from 0, as a `long`.
  abbrev pub guard_of : ℕ → ℕ
  guard_of d = (2 ^ 64 - d) % 2 ^ 64

  module _ (s0 : Statics) (started : s0.daemons.java_lang_daemons_start ≢ null)
      (stopped : s0.daemons.java_lang_daemons_stop ≢ null)
      (fresh : s0.daemons.no_gc_daemons_guard ≡ 0) where
    abbrev Counts : ℕ → Statics → Type 0
    Counts d s = (s.daemons ≡ guarded s0.daemons (guard_of d)) × (d ≤ 2 ^ 62)

    enter-Counts :
        (d : ℕ) (s : Statics) (m : Mem)
        → Counts d s
        → d < 2 ^ 62
        → Ensures (λ p m'. Counts (suc d) p.1) (λ _. Unit {0}) (enter_no_gc k env s m)
    unfolding enter_no_gc
    enter-Counts d s m c small =
        let g = u64 (s.daemons.no_gc_daemons_guard + (2 ^ 64 - 1)) in
        let s1 : Statics = record s { daemons = guarded s.daemons g } in
        let counted : s1.daemons ≡ guarded s0.daemons (guard_of (suc d)) =
          ap (λ x. guarded x (u64 (x.no_gc_daemons_guard + (2 ^ 64 - 1)))) c.0
          ∙ ap (guarded s0.daemons) (omega arith) in
        let same_start : s.daemons.java_lang_daemons_start ≡ s0.daemons.java_lang_daemons_start =
          ap (λ x. x.java_lang_daemons_start) c.0 in
        fork (s.daemons.java_lang_daemons_start != null) _ _ s m
          (λ _.
            fork (not_positive g) _ _ s1 m
              (λ _.
                weaken (call_daemons-Same _ s1 m) (λ p m' e. (e ∙ counted, omega arith)) (λ _ u. u))
              (λ _. returns (counted, omega arith)))
          (λ absent. absurd (started (sym same_start ∙ ground arith)))

    leave-quiet :
        (d : ℕ) (s : Statics) (m : Mem)
        → Counts (suc d) s
        → leave_no_gc k env s m
          ≡ Res.done (tt, record s { daemons = guarded s0.daemons (guard_of d) }) m
    unfolding leave_no_gc
    leave-quiet d s m c =
        let g = u64 (s.daemons.no_gc_daemons_guard + 1) in
        let s1 : Statics = record s { daemons = guarded s.daemons g } in
        let guard_now : s.daemons.no_gc_daemons_guard ≡ guard_of (suc d) =
          ap (λ x. x.no_gc_daemons_guard) c.0 in
        let counted : s1.daemons ≡ guarded s0.daemons (guard_of d) =
          ap (λ x. guarded x (u64 (x.no_gc_daemons_guard + 1))) c.0
          ∙ ap (guarded s0.daemons) (omega (arith, c.1)) in
        let same_stop : s.daemons.java_lang_daemons_stop ≡ s0.daemons.java_lang_daemons_stop =
          ap (λ x. x.java_lang_daemons_stop) c.0 in
        let there : s.daemons.java_lang_daemons_stop ≢ null = (λ e. stopped (sym same_stop ∙ e)) in
        let not_one : (g == 1) ≡ false = ground (arith, guard_now, c.1) in
        taken (s.daemons.java_lang_daemons_stop != null) _ _ s m (ground arith)
        ∙ passed (g == 1) _ _ s1 m not_one
        ∙ ap (λ x. Res.done (tt, record s { daemons = x }) m) counted

    leave-Counts :
        (d : ℕ) (s : Statics) (m : Mem)
        → Counts (suc d) s
        → Ensures (λ p m'. Counts d p.1) (λ _. Unit {0}) (leave_no_gc k env s m)
    leave-Counts d s m c = rw (leave-quiet d s m c) (returns (refl, omega (arith, c.1)))

    Scopes-Counts : {d : ℕ} {s : Statics} {m : Mem} → Scopes s0 d s m → Counts d s
    Scopes-Counts (outside m) = (ap (guarded s0.daemons) fresh, omega arith)
    Scopes-Counts (enter {d} {s} {s'} {m} {m'} before small run) =
        at_return (rw run at (enter-Counts d s m (Scopes-Counts before) small))
    Scopes-Counts (leave {d} {s} {s'} {m} {m'} before run) =
        at_return (rw run at (leave-Counts d s m (Scopes-Counts before)))

    -- However scopes without the daemons are entered and left, fewer than 2 ^ 62 of them open at a
    -- time, the end of a scope calls nothing: it only counts the guard up, so the daemons that the
    -- beginning of a scope has stopped are not started again. It is supposed that `Load` has found
    -- the methods that start and stop them and that the guard starts at 0.
    pub leave-starts_nothing :
        (d : ℕ) (s : Statics) (m : Mem)
        → Scopes s0 (suc d) s m
        → leave_no_gc k env s m
          ≡ Res.done (tt, record s { daemons = guarded s0.daemons (guard_of d) }) m
    leave-starts_nothing d s m open_scopes = leave-quiet d s m (Scopes-Counts open_scopes)

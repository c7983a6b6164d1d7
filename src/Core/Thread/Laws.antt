-- ===== src/Core/Thread/Laws.antt =====
-- What the refresh thread does when it is told to end.
use art_hook.Base.{◌≡◌, refl, ◌∙◌, false, arith}
use art_hook.Machine.{Mem, Res, Cmd, and_then, pure, ◌>>=◌}
use art_hook.Machine.Laws.{seen, Ensures, returns, bind, at_return}
use art_hook.Core.State.{Env, Core}
use art_hook.Core.Refresh.{refresh_impl}
use art_hook.Core.Refresh.Laws.{refresh_impl-Frame}
use art_hook.Core.Thread.{
  Place, testing, waiting, refreshing, over, woken, thread_step, thread_steps,
}

module _ (env : Env) where
  abbrev to_test : Core env → Cmd (Place × Core env)
  to_test d = pure (testing, d)

  woken-over : (c : Core env) → c.refresh_thread_running ≡ false → woken env c ≡ (over, c)
  unfolding woken
  woken-over c stopped = ground arith

  abbrev Stopped : Core env → Place × Core env → Mem → Type 0
  Stopped c x n = (x.0 ≡ over) × (x.1.refresh_thread_do ≡ c.refresh_thread_do)

  Stopped-thread_steps :
      (place : Place) (c : Core env) (m : Mem)
      → c.refresh_thread_running ≡ false
      → Ensures (Stopped c) (λ n. Unit {0}) (thread_steps env 2 place c m)
  unfolding thread_steps thread_step
  Stopped-thread_steps testing c m stopped = rw stopped (returns (refl, refl))
  Stopped-thread_steps waiting c m stopped = rw (woken-over c stopped) (returns (refl, refl))
  Stopped-thread_steps over c m stopped = returns (refl, refl)
  Stopped-thread_steps refreshing c m stopped = bind {P = Left} left_test finish
    where
      Left : Place × Core env → Mem → Type 0
      Left x n =
          (x.0 ≡ testing)
          × ((x.1.refresh_thread_running ≡ false) × (x.1.refresh_thread_do ≡ c.refresh_thread_do))

      left_test : Ensures Left (λ n. Unit {0}) (and_then (refresh_impl env c m) to_test)
      left_test = bind (seen (refresh_impl env c m)) λ d n e.
          let kept = refresh_impl-Frame env c d m n e in
          returns (refl, (kept.running ∙ stopped, kept.requested))

      finish :
          (x : Place × Core env) (n : Mem)
          → Left x n
          → Ensures (Stopped c) (λ n. Unit {0}) (and_then (thread_step env x.0 x.1 n) pure)
      finish (place, d) n (e, (off, kept)) = rw (e, off) (returns (refl, kept))

  -- Once the thread is told to end it has returned after two steps of its own from wherever it is,
  -- where those steps return, and a request that is still open is left.
  pub thread_steps-over :
      (place : Place) (c d : Core env) (after : Place) (m n : Mem)
      → c.refresh_thread_running ≡ false
      → thread_steps env 2 place c m ≡ Res.done (after, d) n
      → (after ≡ over) × (d.refresh_thread_do ≡ c.refresh_thread_do)
  unfolding thread_steps thread_step woken
  thread_steps-over place c d after m n stopped run =
      at_return (rw run at (Stopped-thread_steps place c m stopped))

  -- The rest of the thread once it is told to end: the refresh it is about to do, if any.
  abbrev pub last_steps : Place → Core env → Cmd (Place × Core env)
  last_steps testing c = pure (over, c)
  last_steps waiting c = pure (over, c)
  last_steps refreshing c = do d ← refresh_impl env c; pure (over, d)
  last_steps over c = pure (over, c)

  pub thread_steps-last_steps :
      (place : Place) (c : Core env) (m : Mem)
      → c.refresh_thread_running ≡ false
      → thread_steps env 2 place c m ≡ last_steps place c m
  unfolding thread_steps thread_step
  thread_steps-last_steps testing c m stopped = rw stopped refl
  thread_steps-last_steps waiting c m stopped = rw (woken-over c stopped) refl
  thread_steps-last_steps over c m stopped = refl
  thread_steps-last_steps refreshing c m stopped = finish (refresh_impl env c m) refl
    where
      again : Place × Core env → Cmd (Place × Core env)
      again (place, d) n = and_then (thread_step env place d n) pure

      ended : Core env → Cmd (Place × Core env)
      ended d = pure (over, d)

      finish :
          (r : Res (Core env))
          → refresh_impl env c m ≡ r
          → and_then (and_then r to_test) again ≡ and_then r ended
      finish (Res.done d n) e =
          let off = (refresh_impl-Frame env c d m n e).running ∙ stopped in rw off refl
      finish (Res.segv n) e = refl
      finish Res.undefined e = refl
      finish Res.out_of_fuel e = refl

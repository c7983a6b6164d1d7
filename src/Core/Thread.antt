-- ===== src/Core/Thread.antt =====
-- `xh_core_refresh_thread_func` of cpp/xhook/xh_core.c, cut at the points where it takes or gives up
-- a lock: what happens between two of them no other thread sees.
pub mod Laws
use art_hook.Base.{ℕ, zero, suc, Bool, true, false, not, ◌&&◌, if◌then◌else◌}
use art_hook.Machine.{Cmd, pure, ◌>>=◌}
use art_hook.Core.State.{Env, Core}
use art_hook.Core.Refresh.{refresh_impl}

-- At the test of the outer loop; at the condition variable, with the mutex; with a request taken, on
-- the way to the refresh; returned.
pub data Place : Type 0 where
  testing waiting refreshing over : Place

module _ (env : Env) where
  -- The inner loop waits on while there is no request and the thread is to run.
  unfoldable pub woken : Core env → Place × Core env
  woken c =
      if not c.refresh_thread_do && c.refresh_thread_running
      then (waiting, c)
      else if not c.refresh_thread_running
      then (over, c)
      else (refreshing, record c { refresh_thread_do = false })

  -- The condition variable is not modelled: from its wait the thread may come back at any time, as
  -- POSIX allows, and a signal does not make it come back.
  unfoldable pub thread_step : Place → Core env → Cmd (Place × Core env)
  unfolding woken refresh_impl
  thread_step testing c = pure (if c.refresh_thread_running then (waiting, c) else (over, c))
  thread_step waiting c = pure (woken c)
  thread_step refreshing c = do c ← refresh_impl env c; pure (testing, c)
  thread_step over c = pure (over, c)

  -- `n` steps of the thread with no other thread between them.
  unfoldable pub thread_steps : ℕ → Place → Core env → Cmd (Place × Core env)
  unfolding thread_step
  thread_steps zero place c = pure (place, c)
  thread_steps (suc n) place c = do (place, c) ← thread_step place c; thread_steps n place c

-- ===== src/Core/System.antt =====
-- The calling thread and the refresh thread of cpp/xhook/xh_core.c side by side: what either does
-- under a lock is one step, and the steps of the two come in any order.
pub mod Examples
pub mod Laws
pub mod Steps
use art_hook.Base.{ℕ, ◌≡◌, ◌⊎◌, Bool, true, false, Option, if◌then◌else◌, Text}
use art_hook.Machine.{Mem, Res}
use art_hook.Core.State.{Env, Core, core_start}
use art_hook.Core.Registry.{register, ignore}
use art_hook.Core.Lifecycle.{init_once, refresh, clear, enable_sigsegv_protection}
use art_hook.Core.Thread.{Place, testing, over, thread_step}

-- Between two calls, or in `xh_core_clear` at `pthread_join`.
pub data Caller : Type 0 where
  free joining : Caller

-- `place` is that of the refresh thread, `over` where there is none.
pub record System (env : Env) : Type 0 where
  pub core : Core env
  pub place : Place
  pub caller : Caller

module _ (env : Env) where
  abbrev pub system_start : System env
  system_start = record { core = core_start env; place = over; caller = free }

  -- `pthread_create` where the asynchronous part was not ready before the call and is after it.
  abbrev pub place_after : (before after : Core env) → Place → Place
  place_after before after place =
      if before.async_init_ok then place else (if after.async_init_ok then testing else place)

  -- `xh_core_clear` up to `pthread_join`, but for the signal that wakes the thread.
  abbrev pub begin_clear : Core env → Core env
  begin_clear c = if c.async_init_ok then record c { refresh_thread_running = false } else c

  pub data Move (x y : System env) : Type 0 where
    registers :
        (regex_str symbol : Option Text) (new_func old_func : ℕ)
        → x.caller ≡ free
        → y ≡ record x { core = (register env x.core regex_str symbol new_func old_func).1 }
        → Move x y
    ignores :
        (regex_str symbol : Option Text)
        → x.caller ≡ free
        → y ≡ record x { core = (ignore env x.core regex_str symbol).1 }
        → Move x y
    protects :
        (flag : Bool)
        → x.caller ≡ free
        → y ≡ record x { core = enable_sigsegv_protection env x.core flag }
        → Move x y
    refreshes :
        (async : Bool) (r : ℕ) (d : Core env) (m n : Mem)
        → x.caller ≡ free
        → refresh env x.core async m ≡ Res.done (r, d) n
        → y ≡ record x { core = d; place = place_after x.core d x.place }
        → Move x y
    begins_clear :
        x.caller ≡ free → y ≡ record x { core = begin_clear x.core; caller = joining } → Move x y
    ends_clear :
        x.caller ≡ joining
        → (x.core.async_init_ok ≡ false) ⊎ (x.place ≡ over)
        → y ≡ record x { core = clear env x.core; caller = free }
        → Move x y
    thread_moves :
        (p : Place) (d : Core env) (m n : Mem)
        → thread_step env x.place x.core m ≡ Res.done (p, d) n
        → y ≡ record x { core = d; place = p }
        → Move x y

  pub data Reach : System env → Type 0 where
    start : Reach system_start
    next : {x y : System env} → Reach x → Move x y → Reach y

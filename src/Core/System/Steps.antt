-- ===== src/Core/System/Steps.antt =====
-- The steps of the calling thread and of the refresh thread keep to one refresh thread.
use art_hook.Base.{◌≡◌, refl, ◌⊎◌, inl, inr, false, arith, Bool-cases}
use art_hook.Core.State.{Env}
use art_hook.Core.Registry.Laws.{register-Registers, ignore-Ignores}
use art_hook.Core.Lifecycle.{clear, enable_sigsegv_protection}
use art_hook.Core.Lifecycle.Laws.{refresh-Refreshes}
use art_hook.Core.Thread.{over}
use art_hook.Core.System.{
  free, joining, System, system_start, begin_clear, Move, registers, ignores, protects, refreshes,
  begins_clear, ends_clear, thread_moves, Reach, start, next,
}
use art_hook.Core.System.Laws.{
  Single, Single-core, Registers-SameThread, Ignores-SameThread, Refreshes-Starts, Single-refresh,
  Single-thread,
}

module _ (env : Env) where
  start-Single : Single env (system_start env)
  start-Single = record {
    ready = ground arith;
    absent = λ _. refl;
    running_free = λ _. refl;
    running_joining = λ _. refl;
    present = λ on. ground arith;
  }

  begin-Single :
      (x : System env)
      → x.caller ≡ free
      → Single env x
      → Single env (record x { core = begin_clear env x.core; caller = joining })
  begin-Single x idle v = record {
    ready = ground (arith, v);
    absent = ground (arith, v);
    running_free = ground arith;
    running_joining = λ _. told;
    present = λ on. ground (arith, on, told);
  }
    where
      told : (begin_clear env x.core).refresh_thread_running ≡ false
      told = elim (Bool-cases x.core.async_init_ok) [
        | inl on ↦ ground (arith, on)
        | inr off ↦ ground (arith, off, v.running_free idle)
      ]

  end-Single :
      (x : System env)
      → x.caller ≡ joining
      → (x.core.async_init_ok ≡ false) ⊎ (x.place ≡ over)
      → Single env x
      → Single env (record x { core = clear env x.core; caller = free })
  unfolding clear
  end-Single x waits ended v = record {
    ready = ground arith;
    absent = λ _. gone ended;
    running_free = λ _. ground (arith, v.running_joining waits);
    running_joining = ground arith;
    present = λ on. ground (arith, on, v.running_joining waits);
  }
    where
      gone : (x.core.async_init_ok ≡ false) ⊎ (x.place ≡ over) → x.place ≡ over
      gone (inl off) = v.absent off
      gone (inr e) = e

  Move-Single : {x y : System env} → Move env x y → Single env x → Single env y
  unfolding enable_sigsegv_protection
  Move-Single {x} (registers rs sy f o idle e) v = rw e (
      Single-core env x _
        (Registers-SameThread env x.core rs sy f o _ (register-Registers env x.core rs sy f o)) v)
  Move-Single {x} (ignores rs sy idle e) v = rw e (
      Single-core env x _ (Ignores-SameThread env x.core rs sy _ (ignore-Ignores env x.core rs sy))
        v)
  Move-Single {x} (protects flag idle e) v =
      rw e (Single-core env x (record (x.core) { sigsegv_enable = flag }) (refl, refl, λ h. h) v)
  Move-Single {x} (refreshes async r d m n idle run e) v = rw e (
      Single-refresh env x d idle
        (Refreshes-Starts env x.core d m n r (v.running_free idle) v.ready
          (refresh-Refreshes env x.core d async m n r run))
        v)
  Move-Single {x} (begins_clear idle e) v = rw e (begin-Single x idle v)
  Move-Single {x} (ends_clear waits ended e) v = rw e (end-Single x waits ended v)
  Move-Single {x} (thread_moves p d m n run e) v = rw e (Single-thread env x p d m n v run)

  -- In whatever order the calling thread and the refresh thread take their steps from the start:
  -- there is no refresh thread while the asynchronous part is not ready, so that a call never starts
  -- a second one; between two calls the thread is told to run exactly while that part is ready, and
  -- it is not over while it is told to run; while a clear waits for it, it is told to end.
  pub Reach-Single : {x : System env} → Reach env x → Single env x
  Reach-Single start = start-Single
  Reach-Single (next r move) = Move-Single move (Reach-Single r)

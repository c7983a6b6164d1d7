-- ===== src/Core/Guard/Laws.antt =====
-- What the SIGSEGV guard of cpp/xhook/xh_core.c keeps, and when a fault gets past it.
use art_hook.Base.{◌≡◌, false, ◌&&◌, arith}
use art_hook.Machine.{Mem, Res, Cmd, pure, and_then}
use art_hook.Machine.Laws.{Ensures, returns, faults, undefined, out_of_fuel, branch}
use art_hook.Core.State.{Env, Core}
use art_hook.Core.Guard.{land, protected}

module _ (env : Env) where
  -- `d` differs from `c` at most in the map, the flag of the handler and the count of the calls.
  pub record Frame (c d : Core env) : Type 0 where
    pub sigsegv_enable : d.sigsegv_enable ≡ c.sigsegv_enable
    pub handler : d.handler ≡ c.handler
    pub hook_info : d.hook_info ≡ c.hook_info
    pub ignore_info : d.ignore_info ≡ c.ignore_info
    pub inited : d.inited ≡ c.inited
    pub init_ok : d.init_ok ≡ c.init_ok
    pub async_inited : d.async_inited ≡ c.async_inited
    pub async_init_ok : d.async_init_ok ≡ c.async_init_ok
    pub running : d.refresh_thread_running ≡ c.refresh_thread_running
    pub requested : d.refresh_thread_do ≡ c.refresh_thread_do

  -- Guarded code leaves the map alone too.
  abbrev pub Kept : Core env → Core env → Type 0
  Kept c d = Frame c d × (d.map_info ≡ c.map_info)

  -- A fault of guarded code ends the process only where the guard is off or not installed.
  abbrev pub Unguarded : Core env → Mem → Type 0
  Unguarded c m = (c.sigsegv_enable && c.handler) ≡ false

  land-Ensures :
      {A : Type 0} (c : Core env) (fallback : A) (r : Res A)
      → Ensures (λ out n. Kept c out.1) (Unguarded c) (land env c fallback r)
  unfolding land
  land-Ensures c fallback (Res.done a m) = returns (ground arith)
  land-Ensures c fallback (Res.segv m) =
      branch c.handler (pure (fallback, record c { sigsegv_flag = false })) Res.segv m
        (λ on. returns (ground arith)) (λ off. faults (ground arith))
  land-Ensures c fallback Res.undefined = undefined
  land-Ensures c fallback Res.out_of_fuel = out_of_fuel

  Unguarded-Ensures :
      {A : Type 0} (c : Core env) (r : Res A)
      → c.sigsegv_enable ≡ false
      → Ensures
          (λ (out : A × Core env) (n : Mem). Kept c out.1)
          (Unguarded c)
          (and_then r (λ a. pure (a, c)))
  Unguarded-Ensures c (Res.done a m) off = returns (ground arith)
  Unguarded-Ensures c (Res.segv m) off = faults (ground arith)
  Unguarded-Ensures c Res.undefined off = undefined
  Unguarded-Ensures c Res.out_of_fuel off = out_of_fuel

  pub protected-Ensures :
      {A : Type 0} (c : Core env) (run : Cmd A) (fallback : A) (m : Mem)
      → Ensures (λ out n. Kept c out.1) (Unguarded c) (protected env c run fallback m)
  unfolding protected
  protected-Ensures c run fallback m =
      branch c.sigsegv_enable (λ m. land env c fallback (run m)) _ m
        (λ on. land-Ensures c fallback (run m)) (λ off. Unguarded-Ensures c (run m) off)

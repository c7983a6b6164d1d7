-- ===== src/Core/Lifecycle/Laws.antt =====
-- The life cycle of cpp/xhook/xh_core.c: the calls a client makes as steps, and what every state
-- that they reach satisfies.
use art_hook.Base.{ℕ, ◌≡◌, ◌≢◌, refl, Bool, true, false, some, arith, if◌then◌else◌, Text}
use art_hook.Machine.{Mem, Res, Cmd, pure, and_then}
use art_hook.Elf.Image.{err_unknown}
use art_hook.Core.State.{Env, Core, core_start}
use art_hook.Core.Refresh.{refresh_impl}
use art_hook.Core.Refresh.Laws.{refresh_impl-Frame}
use art_hook.Core.Lifecycle.{init_once, refresh, refresh_sync, refresh_async, clear}

module _ (env : Env) where
  -- Each flag implies the ones that are set before it, the refresh thread runs exactly while the
  -- asynchronous part is ready, and the map is empty before the first refresh.
  pub record IsValid (c : Core env) : Type 0 where
    pub init_ok : c.init_ok ≡ true → c.inited ≡ true
    pub async_inited : c.async_inited ≡ true → c.init_ok ≡ true
    pub async_init_ok : c.async_init_ok ≡ true → c.async_inited ≡ true
    pub running : c.refresh_thread_running ≡ c.async_init_ok
    pub map_info : (p : Text) (b : ℕ) → env.tree.find p c.map_info ≡ some b → c.init_ok ≡ true

  pub core_start-IsValid : IsValid (core_start env)
  core_start-IsValid = record {
    init_ok = ground arith;
    async_inited = ground arith;
    async_init_ok = ground arith;
    running = refl;
    map_info = λ p b e. ground (arith, env.tree.find-empty p);
  }

  pub init_once-IsValid : {c : Core env} → IsValid c → IsValid (init_once env c)
  unfolding init_once
  init_once-IsValid {c} v = record {
    init_ok = ground arith;
    async_inited = ground (arith, v);
    async_init_ok = ground (arith, v);
    running = ground (arith, v);
    map_info = λ p b e. ground (arith, v.map_info p b);
  }

  pub refresh_async-IsValid :
      {c : Core env} → c.init_ok ≡ true → IsValid c → IsValid (refresh_async env c).1
  unfolding refresh_async
  refresh_async-IsValid {c} ready v = record {
    init_ok = ground (arith, v);
    async_inited = ground (arith, v);
    async_init_ok = ground (arith, v);
    running = ground (arith, v);
    map_info = λ p b e. ground (arith, v.map_info p b);
  }

  pub refresh_sync-IsValid :
      (c d : Core env) (m n : Mem)
      → c.init_ok ≡ true
      → IsValid c
      → refresh_impl env c m ≡ Res.done d n
      → IsValid d
  refresh_sync-IsValid c d m n ready v e =
      let f = refresh_impl-Frame env c d m n e in
      record {
        init_ok = ground (arith, v, f);
        async_inited = ground (arith, v, f);
        async_init_ok = ground (arith, v, f);
        running = ground (arith, v, f);
        map_info = λ p b h. ground (arith, f);
      }

  pub clear-IsValid : {c : Core env} → IsValid c → IsValid (clear env c)
  unfolding clear
  clear-IsValid {c} v = record {
    init_ok = ground (arith, v);
    async_inited = ground (arith, v);
    async_init_ok = ground (arith, v);
    running = ground (arith, v);
    map_info = λ p b e. ground (arith, env.tree.find-empty p);
  }

  refresh_sync-done :
      (c d : Core env) (m n : Mem) (r : ℕ)
      → refresh_sync env c m ≡ Res.done (r, d) n
      → (refresh_impl env c m ≡ Res.done d n) × (r ≡ 0)
  unfolding refresh_sync
  refresh_sync-done c d m n r e = split (refresh_impl env c m) e
    where
      split :
          (x : Res (Core env))
          → and_then {B = ℕ × Core env} x (λ c. pure (0, c)) ≡ Res.done (r, d) n
          → (x ≡ Res.done d n) × (r ≡ 0)
      split (Res.done a k) e = ground arith
      split (Res.segv k) e = ground arith
      split Res.undefined e = ground arith
      split Res.out_of_fuel e = ground arith

  -- What a call of `xh_core_refresh` that returns has done.
  pub data Refreshes (c : Core env) (m : Mem) (r : ℕ) (d : Core env) (n : Mem) : Type 0 where
    uninitialised :
        (init_once env c).init_ok ≡ false → r ≢ 0 → d ≡ init_once env c → Refreshes c m r d n
    requested :
        (init_once env c).init_ok ≡ true
        → (r, d) ≡ refresh_async env (init_once env c)
        → Refreshes c m r d n
    refreshed :
        (init_once env c).init_ok ≡ true
        → r ≡ 0
        → refresh_impl env (init_once env c) m ≡ Res.done d n
        → Refreshes c m r d n

  pub refresh-Refreshes :
      (c d : Core env) (async : Bool) (m n : Mem) (r : ℕ)
      → refresh env c async m ≡ Res.done (r, d) n
      → Refreshes c m r d n
  unfolding refresh
  refresh-Refreshes c d async m n r e = go (init_once env c).init_ok async refl e
    where
      c' : Core env
      c' = init_once env c

      run : Bool → Cmd (ℕ × Core env)
      run async = if async then pure (refresh_async env c') else refresh_sync env c'

      go :
          (b async : Bool)
          → c'.init_ok ≡ b
          → (if b then run async else pure (err_unknown, c')) m ≡ Res.done (r, d) n
          → Refreshes c m r d n
      go false async off e = uninitialised off (ground arith) (ground arith)
      go true true on e = requested on (ground arith)
      go true false on e = let back = refresh_sync-done c' d m n r e in refreshed on back.1 back.0

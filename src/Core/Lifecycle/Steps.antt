-- ===== src/Core/Lifecycle/Steps.antt =====
-- The calls of the interface of cpp/xhook/xh_core.h as steps, in any order, over memory that may
-- change in between.
use art_hook.Base.{ℕ, ◌≡◌, refl, ap, Bool, true, Option, none, some, arith, Text}
use art_hook.Machine.{Mem, Res}
use art_hook.Elf.Image.{err_inval}
use art_hook.Core.State.{Env, Core, core_start}
use art_hook.Core.Registry.{register, ignore}
use art_hook.Core.Registry.Laws.{
  Registers, Ignores, accepted, refused, register-Registers, ignore-Ignores,
}
use art_hook.Core.Refresh.Laws.{refresh_impl-Frame}
use art_hook.Core.Lifecycle.{init_once, refresh_async, refresh, clear, enable_sigsegv_protection}
use art_hook.Core.Lifecycle.Laws.{
  IsValid, Refreshes, uninitialised, requested, refreshed, refresh-Refreshes, core_start-IsValid,
  init_once-IsValid, refresh_async-IsValid, refresh_sync-IsValid, clear-IsValid,
}

module _ (env : Env) where
  pub data Step (c d : Core env) : Type 0 where
    registers :
        (regex_str symbol : Option Text) (new_func old_func : ℕ)
        → d ≡ (register env c regex_str symbol new_func old_func).1
        → Step c d
    ignores : (regex_str symbol : Option Text) → d ≡ (ignore env c regex_str symbol).1 → Step c d
    refreshes :
        (async : Bool) (m n : Mem) (r : ℕ) → refresh env c async m ≡ Res.done (r, d) n → Step c d
    clears : d ≡ clear env c → Step c d
    protects : (flag : Bool) → d ≡ enable_sigsegv_protection env c flag → Step c d

  pub data Reach : Core env → Type 0 where
    start : Reach (core_start env)
    next : {c d : Core env} → Reach c → Step c d → Reach d

  Registers-IsValid :
      (c : Core env) (regex_str symbol : Option Text) (new_func old_func : ℕ)
      → (out : ℕ × Core env) → Registers env c regex_str symbol new_func old_func out
      → IsValid env c
      → IsValid env out.1
  Registers-IsValid c regex_str symbol new_func old_func out (accepted _ _ _ _ _ _ _ _ _ _ e) v =
      rw e (record {
        init_ok = v.init_ok;
        async_inited = v.async_inited;
        async_init_ok = v.async_init_ok;
        running = v.running;
        map_info = v.map_info;
      })
  Registers-IsValid c regex_str symbol new_func old_func out (refused _ _ _ e) v = rw e (record {
    init_ok = v.init_ok;
    async_inited = v.async_inited;
    async_init_ok = v.async_init_ok;
    running = v.running;
    map_info = v.map_info;
  })

  Ignores-IsValid :
      (c : Core env) (regex_str symbol : Option Text) (out : ℕ × Core env)
      → Ignores env c regex_str symbol out
      → IsValid env c
      → IsValid env out.1
  Ignores-IsValid c regex_str symbol out (accepted _ _ _ _ _ _ _ e) v = rw e (record {
    init_ok = v.init_ok;
    async_inited = v.async_inited;
    async_init_ok = v.async_init_ok;
    running = v.running;
    map_info = v.map_info;
  })
  Ignores-IsValid c regex_str symbol out (refused _ _ _ e) v = rw e (record {
    init_ok = v.init_ok;
    async_inited = v.async_inited;
    async_init_ok = v.async_init_ok;
    running = v.running;
    map_info = v.map_info;
  })

  Refreshes-IsValid :
      (c d : Core env) (m n : Mem) (r : ℕ) → Refreshes env c m r d n → IsValid env c → IsValid env d
  Refreshes-IsValid c d m n r (uninitialised off _ e) v = rw e (init_once-IsValid env v)
  Refreshes-IsValid c d m n r (requested on e) v =
      let e' : d ≡ _ = ap (λ out. out.1) e in
      rw e' (refresh_async-IsValid env on (init_once-IsValid env v))
  Refreshes-IsValid c d m n r (refreshed on _ e) v =
      refresh_sync-IsValid env (init_once env c) d m n on (init_once-IsValid env v) e

  Step-IsValid : {c d : Core env} → Step c d → IsValid env c → IsValid env d
  unfolding enable_sigsegv_protection
  Step-IsValid {c} (registers rs sy f o e) v =
      rw e (Registers-IsValid c rs sy f o _ (register-Registers env c rs sy f o) v)
  Step-IsValid {c} (ignores rs sy e) v =
      rw e (Ignores-IsValid c rs sy _ (ignore-Ignores env c rs sy) v)
  Step-IsValid {c} {d} (refreshes async m n r e) v =
      Refreshes-IsValid c d m n r (refresh-Refreshes env c d async m n r e) v
  Step-IsValid (clears e) v = rw e (clear-IsValid env v)
  Step-IsValid (protects flag e) v = rw e (record {
    init_ok = v.init_ok;
    async_inited = v.async_inited;
    async_init_ok = v.async_init_ok;
    running = v.running;
    map_info = v.map_info;
  })

  -- In every state that the calls reach from the initial one: the flags are set in their order, the
  -- refresh thread is marked as running exactly while the asynchronous part is ready, and the map
  -- has an image only while the library is initialised.
  pub Reach-IsValid : {c : Core env} → Reach c → IsValid env c
  Reach-IsValid start = core_start-IsValid env
  Reach-IsValid (next r st) = Step-IsValid st (Reach-IsValid r)

  Refreshes-inited :
      (c d : Core env) (m n : Mem) (r : ℕ) → Refreshes env c m r d n → d.inited ≡ true
  unfolding init_once refresh_async
  Refreshes-inited c d m n r (uninitialised off _ e) = ground arith
  Refreshes-inited c d m n r (requested on e) = ground arith
  Refreshes-inited c d m n r (refreshed on _ e) =
      ground (arith, refresh_impl-Frame env (init_once env c) d m n e)

  -- After a call of refresh, whatever it returned, registering and ignoring are refused and change
  -- nothing, until the library is cleared.
  pub register-refresh :
      (c d : Core env) (async : Bool) (m n : Mem) (r : ℕ)
      → refresh env c async m ≡ Res.done (r, d) n
      → (regex_str symbol : Option Text) (new_func old_func : ℕ)
      → (register env d regex_str symbol new_func old_func ≡ (err_inval, d))
        × (ignore env d regex_str symbol ≡ (err_inval, d))
  register-refresh c d async m n r e regex_str symbol new_func old_func =
      let on = Refreshes-inited c d m n r (refresh-Refreshes env c d async m n r e) in
      (refuse_hook regex_str symbol on, refuse_ignore regex_str on)
    where
      refuse_hook :
          (regex_str symbol : Option Text)
          → d.inited ≡ true
          → register env d regex_str symbol new_func old_func ≡ (err_inval, d)
      refuse_hook none symbol on = unfold register in refl
      refuse_hook (some _) none on = unfold register in refl
      refuse_hook (some _) (some _) on = unfold register in ground arith

      refuse_ignore :
          (regex_str : Option Text)
          → d.inited ≡ true
          → ignore env d regex_str symbol ≡ (err_inval, d)
      refuse_ignore none on = unfold ignore in refl
      refuse_ignore (some _) on = unfold ignore in ground arith

  -- Clearing a state that the calls reach gives back the initial state, but for the choice of the
  -- protection, the handler and its flag, a pending request and the count of the calls.
  pub clear-core_start :
      (c : Core env)
      → Reach c
      → let d = clear env c in
        d ≡ record (core_start env) {
          sigsegv_enable = c.sigsegv_enable;
          sigsegv_flag = c.sigsegv_flag;
          handler = d.handler;
          refresh_thread_do = c.refresh_thread_do;
          calls = d.calls;
        }
  unfolding clear
  clear-core_start c r = ground (arith, Reach-IsValid r)

-- ===== src/Core/Lifecycle.antt =====
-- `xh_core_refresh`, `xh_core_clear` and the initialisation of cpp/xhook/xh_core.c, as the caller's
-- thread runs them.
pub mod Laws
pub mod Steps
use art_hook.Base.{ℕ, ◌+◌, Bool, true, false, not, none, some, [], ◌==◌, ◌!=◌, if◌then◌else◌}
use art_hook.Machine.{Cmd, pure, ◌>>=◌}
use art_hook.Elf.Image.{err_unknown}
use art_hook.Core.State.{Env, Core}
use art_hook.Core.Guard.{add_sigsegv_handler, del_sigsegv_handler}
use art_hook.Core.Refresh.{refresh_impl}

module _ (env : Env) where
  unfoldable pub init_once : Core env → Core env
  unfolding add_sigsegv_handler
  init_once c =
      let (r, c') = add_sigsegv_handler env (record c { inited = true }) in
      if c.inited then c else (if r == 0 then record c' { init_ok = true } else c')

  -- The new thread runs `xh_core_refresh_thread_func`.
  unfoldable pub init_async_once : Core env → Core env
  init_async_once c =
      let c' = record c { async_inited = true; calls = c.calls + 1 } in
      if c.async_inited
      then c
      else if env.pthread_create c.calls
      then record c' { refresh_thread_running = true; async_init_ok = true }
      else record c' { refresh_thread_running = false }

  -- A refresh now, on the caller's thread.
  unfoldable pub refresh_sync : Core env → Cmd (ℕ × Core env)
  unfolding refresh_impl
  refresh_sync c = do c ← refresh_impl env c; pure (0, c)

  -- A request to the refresh thread, but for the signal that wakes it.
  unfoldable pub refresh_async : Core env → ℕ × Core env
  unfolding init_async_once
  refresh_async c =
      let c' = init_async_once c in
      if c'.async_init_ok then (0, record c' { refresh_thread_do = true }) else (err_unknown, c')

  unfoldable pub refresh : Core env → (async : Bool) → Cmd (ℕ × Core env)
  unfolding init_once refresh_async refresh_sync
  refresh c async =
      let c' = init_once c in
      let run = if async then pure (refresh_async c') else refresh_sync c' in
      if c'.init_ok then run else pure (err_unknown, c')

  -- The first part of `xh_core_clear`: the thread is told to end, but for the signal
  -- that wakes it, and joined.
  unfoldable pub stop_thread : Core env → Core env
  stop_thread c =
      let stopped = record c { refresh_thread_running = false; async_init_ok = false } in
      let c' = if c.async_init_ok then stopped else c in record c' { async_inited = false }

  unfoldable pub stop_guard : Core env → Core env
  unfolding del_sigsegv_handler
  stop_guard c =
      let removed = record (del_sigsegv_handler env c) { init_ok = false } in
      let c' = if c.init_ok then removed else c in record c' { inited = false }

  unfoldable pub clear : Core env → Core env
  unfolding stop_thread stop_guard
  clear c = record (stop_guard (stop_thread c)) {
    map_info = env.tree.empty;
    hook_info = [];
    ignore_info = [];
  }

  unfoldable pub enable_sigsegv_protection : Core env → (flag : Bool) → Core env
  enable_sigsegv_protection c flag = record c { sigsegv_enable = flag }

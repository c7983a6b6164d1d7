-- ===== src/Core/Guard.antt =====
-- The SIGSEGV guard of cpp/xhook/xh_core.c: `xh_core_check_elf_header`, `xh_core_hook`, and the
-- installation of the handler.
pub mod Laws
use art_hook.Base.{
  ℕ, ◌+◌, Bool, true, false, not, Option, none, some, ◌&&◌, ◌==◌, if◌then◌else◌, Text,
}
use art_hook.Machine.{Mem, Res, done, segv, undefined, out_of_fuel, Cmd, ◌>>=◌, and_then, pure}
use art_hook.Elf.Image.{err_unknown, err_segverr}
use art_hook.Elf.Header.{check_elfheader}
use art_hook.Core.State.{Env, Core}
use art_hook.Core.Select.{hook_impl}

module _ (env : Env) where
  -- What follows a run under `sigsetjmp`: the signal comes back only through the handler; with no
  -- handler it ends the process.
  unfoldable pub land : {A : Type 0} → Core env → (fallback : A) → Res A → Res (A × Core env)
  land c fallback (done a m) = done (a, record c { sigsegv_flag = false }) m
  land c fallback (segv m) =
      (if c.handler then pure (fallback, record c { sigsegv_flag = false }) else segv) m
  land c fallback undefined = undefined
  land c fallback out_of_fuel = out_of_fuel

  -- `flag = 1; if(0 == sigsetjmp(...)) run else fallback; flag = 0;`, where protection is on.
  unfoldable pub protected : {A : Type 0} → Core env → Cmd A → (fallback : A) → Cmd (A × Core env)
  unfolding land
  protected c run fallback =
      if c.sigsegv_enable
      then (λ m. land c fallback (run m))
      else (λ m. and_then (run m) (λ a. pure (a, c)))

  unfoldable pub check_elf_header : Core env → (base_addr : ℕ) → Cmd (ℕ × Core env)
  unfolding protected
  check_elf_header c base_addr = protected c (check_elfheader base_addr) err_segverr

  unfoldable pub hook : Core env → (pathname : Text) (base_addr : ℕ) → Cmd (Unit {0} × Core env)
  unfolding protected
  hook c pathname base_addr =
      protected c (hook_impl env c.hook_info c.ignore_info pathname base_addr) tt

  -- `sigemptyset` fails at NULL only.
  unfoldable pub add_sigsegv_handler : Core env → ℕ × Core env
  add_sigsegv_handler c =
      let called = record c { calls = c.calls + 1 } in
      let install : ℕ × Core env = elim (env.sigaction c.calls) [
        | none ↦ (0, record called { handler = true })
        | some errno ↦ (if errno == 0 then err_unknown else errno, called)
      ] in
      if c.sigsegv_enable then install else (0, c)

  -- The action that is restored, the one from before the handler, is not kept: it is some other one.
  unfoldable pub del_sigsegv_handler : Core env → Core env
  del_sigsegv_handler c =
      let called = record c { calls = c.calls + 1 } in
      let restore : Core env = elim (env.sigaction c.calls) [
        | none ↦ record called { handler = false }
        | some _ ↦ called
      ] in
      if c.sigsegv_enable then restore else c

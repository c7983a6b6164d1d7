-- ===== src/Core/Select.antt =====
-- How cpp/xhook/xh_core.c decides by the registered hooks and ignore rules: whether an image is
-- looked at (`xh_core_refresh_impl`), and which hooks are applied to it (`xh_core_hook_impl`).
pub mod Laws
use art_hook.Base.{
  ℕ, Bool, true, false, Option, none, some, List, [], ◌∷◌, ◌==◌, if◌then◌else◌, Text, strcmp_eq,
}
use art_hook.Machine.{Cmd, pure, ◌>>=◌, ◌>>◌}
use art_hook.Elf.Image.{Elf, cleared}
use art_hook.Elf.Init.{elf_init}
use art_hook.Elf.Hook.{elf_hook}
use art_hook.Core.State.{Env, HookInfo, IgnoreInfo}

-- The outcome of the inner loop over the ignore rules, for one hook: leave both loops, pass over
-- this hook, or nothing ignores it.
pub data Verdict : Type 0 where
  stop skip apply : Verdict

module _ (env : Env) where
  unfoldable pub ignore_scan : List (IgnoreInfo env) → (pathname symbol : Text) → Verdict
  ignore_scan [] pathname symbol = apply
  ignore_scan (ii ∷ rest) pathname symbol =
      let on = ignore_scan rest pathname symbol in
      let hit : Verdict = elim ii.symbol [
        | none ↦ stop
        | some s ↦ if strcmp_eq s symbol then skip else on
      ] in
      if env.regexec ii.pathname_regex pathname then hit else on

  -- The check of the path in `xh_core_refresh_impl`: `match` behind the label `check_finished`.
  -- Both labels end the loop over the hooks.
  unfoldable pub wanted : List (HookInfo env) → List (IgnoreInfo env) → (pathname : Text) → Bool
  unfolding ignore_scan
  wanted [] ignores pathname = false
  wanted (hi ∷ rest) ignores pathname =
      let verdict : Bool = elim (ignore_scan ignores pathname hi.symbol) [
        | apply ↦ true
        | _ ↦ false
      ] in
      let on = wanted rest ignores pathname in
      if env.regexec hi.pathname_regex pathname then verdict else on

  -- The loop of `xh_core_hook_impl`. The code of `xh_elf_hook` is not looked at.
  unfoldable pub hook_loop :
      List (HookInfo env) → List (IgnoreInfo env) → (pathname : Text) → Elf → Cmd (Unit {0})
  unfolding ignore_scan
  hook_loop [] ignores pathname elf = pure tt
  hook_loop (hi ∷ rest) ignores pathname elf =
      let on = hook_loop rest ignores pathname elf in
      let patch = do elf_hook env.kernel env.fuel elf (some hi.symbol) hi.new_func hi.old_func; on
      in let act : Cmd (Unit {0}) = elim (ignore_scan ignores pathname hi.symbol) [
        | stop ↦ pure tt
        | skip ↦ on
        | apply ↦ patch
      ] in
        if env.regexec hi.pathname_regex pathname then act else on

  unfoldable pub hook_impl :
      List (HookInfo env)
      → List (IgnoreInfo env)
      → (pathname : Text) (base_addr : ℕ) → Cmd (Unit {0})
  unfolding hook_loop
  hook_impl hooks ignores pathname base_addr = do
    (r, elf) ← elf_init cleared base_addr (some pathname)
    if r == 0 then hook_loop hooks ignores pathname elf else pure tt

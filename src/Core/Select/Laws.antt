-- ===== src/Core/Select/Laws.antt =====
-- The decisions of cpp/xhook/xh_core.c against their description: which hooks the ignore rules
-- leave for an image, and for which images the refresh looks at all.
use art_hook.Base.{
  ◌≡◌, refl, inl, inr, Bool, true, false, not, Option, none, some, List, [], ◌∷◌, ◌&&◌, ◌||◌, arith,
  if◌then◌else◌, Text, strcmp_eq, Bool-cases,
}
use art_hook.Machine.{Cmd, pure, ◌>>◌}
use art_hook.Elf.Image.{Elf}
use art_hook.Elf.Hook.{elf_hook}
use art_hook.Core.State.{Env, HookInfo, IgnoreInfo}
use art_hook.Core.Select.{skip, apply, ignore_scan, wanted, hook_loop}

module _ (env : Env) where
  -- Some rule for all symbols covers the path.
  unfoldable pub ignored_whole : List (IgnoreInfo env) → (pathname : Text) → Bool
  ignored_whole [] pathname = false
  ignored_whole (ii ∷ rest) pathname =
      (env.regexec ii.pathname_regex pathname && (elim ii.symbol [ none ↦ true | some _ ↦ false ]))
      || ignored_whole rest pathname

  -- Some rule for this symbol covers the path.
  unfoldable pub ignored_symbol : List (IgnoreInfo env) → (pathname symbol : Text) → Bool
  ignored_symbol [] pathname symbol = false
  ignored_symbol (ii ∷ rest) pathname symbol =
      (env.regexec ii.pathname_regex pathname
        && (elim ii.symbol [ none ↦ false | some s ↦ strcmp_eq s symbol ]))
      || ignored_symbol rest pathname symbol

  -- The hooks for the path whose symbol is not ignored there, in their order.
  unfoldable pub chosen :
      List (HookInfo env) → List (IgnoreInfo env) → (pathname : Text) → List (HookInfo env)
  chosen [] ignores pathname = []
  chosen (hi ∷ rest) ignores pathname =
      if env.regexec hi.pathname_regex pathname && not (ignored_symbol ignores pathname hi.symbol)
      then hi ∷ chosen rest ignores pathname
      else chosen rest ignores pathname

  -- `xh_elf_hook` for each of the hooks in turn, whatever it returns.
  unfoldable pub apply_all : List (HookInfo env) → Elf → Cmd (Unit {0})
  apply_all [] elf = pure tt
  apply_all (hi ∷ rest) elf = do
    elf_hook env.kernel env.fuel elf (some hi.symbol) hi.new_func hi.old_func
    apply_all rest elf

  -- The first hook whose pattern the path matches.
  unfoldable pub first_match : List (HookInfo env) → (pathname : Text) → Option (HookInfo env)
  first_match [] pathname = none
  first_match (hi ∷ rest) pathname =
      if env.regexec hi.pathname_regex pathname then some hi else first_match rest pathname

  scan-apply :
      (ignores : List (IgnoreInfo env)) (pathname symbol : Text)
      → ignored_whole ignores pathname ≡ false
      → ignore_scan env ignores pathname symbol
        ≡ (if ignored_symbol ignores pathname symbol then skip else apply)
  unfolding ignore_scan ignored_whole ignored_symbol
  scan-apply [] pathname symbol h = refl
  scan-apply (ii ∷ rest) pathname symbol h = ground (arith, scan-apply rest pathname symbol)

  scan-ne-apply :
      (ignores : List (IgnoreInfo env)) (pathname symbol : Text)
      → ignored_whole ignores pathname ≡ true
      → (ignore_scan env ignores pathname symbol ≡ apply)
      → ⊥
  unfolding ignore_scan ignored_whole
  scan-ne-apply [] pathname symbol h e = ground arith
  scan-ne-apply (ii ∷ rest) pathname symbol h e = ground (arith, scan-ne-apply rest pathname symbol)

  -- Where no rule for all symbols covers the path, the hooks applied to an image are those for its
  -- path whose symbol is not ignored there, in the order of registration.
  pub hook_loop-chosen :
      (hooks : List (HookInfo env)) (ignores : List (IgnoreInfo env)) (pathname : Text) (elf : Elf)
      → ignored_whole ignores pathname ≡ false
      → hook_loop env hooks ignores pathname elf ≡ apply_all (chosen hooks ignores pathname) elf
  unfolding hook_loop chosen apply_all
  hook_loop-chosen [] ignores pathname elf h = refl
  hook_loop-chosen (hi ∷ rest) ignores pathname elf h =
      elim (Bool-cases (env.regexec hi.pathname_regex pathname)) [
        | inr e ↦ rw e (hook_loop-chosen rest ignores pathname elf h)
        | inl e ↦ elim (Bool-cases (ignored_symbol ignores pathname hi.symbol)) [
          | inl i ↦
              rw (e, scan-apply ignores pathname hi.symbol h, i)
                (hook_loop-chosen rest ignores pathname elf h)
          | inr i ↦
              rw (e, scan-apply ignores pathname hi.symbol h, i)
                (rw (hook_loop-chosen rest ignores pathname elf h) refl)
        ]
      ]

  -- The refresh looks at an image exactly when some hook is for its path, no rule for all symbols
  -- covers the path, and the symbol of the first such hook is not ignored there.
  pub wanted-first_match :
      (hooks : List (HookInfo env)) (ignores : List (IgnoreInfo env)) (pathname : Text)
      → wanted env hooks ignores pathname ≡ (elim (first_match hooks pathname) [
        | none ↦ false
        | some hi ↦
            not (ignored_whole ignores pathname) && not (ignored_symbol ignores pathname hi.symbol)
      ])
  unfolding wanted first_match
  wanted-first_match [] ignores pathname = refl
  wanted-first_match (hi ∷ rest) ignores pathname = ground (
    arith,
    wanted-first_match rest ignores pathname,
    scan-apply ignores pathname hi.symbol,
    scan-ne-apply ignores pathname hi.symbol,
  )

  hook_loop-none :
      (hooks : List (HookInfo env)) (ignores : List (IgnoreInfo env)) (pathname : Text) (elf : Elf)
      → ignored_whole ignores pathname ≡ true
      → hook_loop env hooks ignores pathname elf ≡ pure tt
  unfolding hook_loop
  hook_loop-none [] ignores pathname elf h = refl
  hook_loop-none (hi ∷ rest) ignores pathname elf h = ground (
    arith,
    hook_loop-none rest ignores pathname elf h,
    scan-ne-apply ignores pathname hi.symbol h,
  )

  -- Where a rule for all symbols covers the path, no hook is applied to the image, and the refresh
  -- does not look at it.
  pub ignored_whole-none :
      (hooks : List (HookInfo env)) (ignores : List (IgnoreInfo env)) (pathname : Text) (elf : Elf)
      → ignored_whole ignores pathname ≡ true
      → (hook_loop env hooks ignores pathname elf ≡ pure tt)
        × (wanted env hooks ignores pathname ≡ false)
  ignored_whole-none hooks ignores pathname elf h = (
    hook_loop-none hooks ignores pathname elf h,
    ground (arith, wanted-first_match hooks ignores pathname),
  )

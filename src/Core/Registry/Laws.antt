-- ===== src/Core/Registry/Laws.antt =====
-- What a call of `xh_core_register` or `xh_core_ignore` leaves behind, on every branch.
use art_hook.Base.{
  ℕ, ◌+◌, ◌≡◌, ◌≢◌, refl, inl, inr, true, false, Option, none, some, [], ◌∷◌, ◌++◌, arith, ◌==◌,
  Text, Bool-cases, Option-cases,
}
use art_hook.Machine.{null}
use art_hook.Elf.Image.{err_inval, err_nomem}
use art_hook.Core.State.{Env, Core}
use art_hook.Core.Registry.{register, ignore}

module _ (env : Env) where
  -- Why a hook is not added, with the code that says so and the count of allocations then.
  pub data Unregistered (c : Core env) (regex_str symbol : Option Text) (new_func : ℕ)
      : ℕ → ℕ → Type 0 where
    no_pattern : regex_str ≡ none → Unregistered c regex_str symbol new_func err_inval c.calls
    no_symbol : symbol ≡ none → Unregistered c regex_str symbol new_func err_inval c.calls
    no_function : new_func ≡ null → Unregistered c regex_str symbol new_func err_inval c.calls
    too_late : c.inited ≡ true → Unregistered c regex_str symbol new_func err_inval c.calls
    bad_pattern :
        (str : Text)
        → regex_str ≡ some str
        → env.regcomp str ≡ none
        → Unregistered c regex_str symbol new_func err_inval c.calls
    no_entry :
        env.malloc c.calls ≡ false
        → Unregistered c regex_str symbol new_func err_nomem (c.calls + 1)
    no_copy :
        env.malloc (c.calls + 1) ≡ false
        → Unregistered c regex_str symbol new_func err_nomem (c.calls + 1 + 1)

  -- The call adds one hook behind the others, or reports an error and changes the count of the
  -- allocations only.
  pub data Registers (c : Core env) (regex_str symbol : Option Text) (new_func old_func : ℕ)
      (out : ℕ × Core env) : Type 0 where
    accepted :
        (str name : Text) (regex : env.Regex)
        → regex_str ≡ some str
        → symbol ≡ some name
        → new_func ≢ null
        → c.inited ≡ false
        → env.regcomp str ≡ some regex
        → env.malloc c.calls ≡ true
        → env.malloc (c.calls + 1) ≡ true
        → out ≡ (
          0,
          record c {
            hook_info =
                c.hook_info
                ++ record {
                  pathname_regex = regex;
                  symbol = name;
                  new_func = new_func;
                  old_func = old_func;
                }
                  ∷ [];
            calls = c.calls + 1 + 1;
          },
        )
        → Registers c regex_str symbol new_func old_func out
    refused :
        (code calls : ℕ)
        → Unregistered c regex_str symbol new_func code calls
        → out ≡ (code, record c { calls = calls })
        → Registers c regex_str symbol new_func old_func out

  -- A call of register adds one hook behind the others and returns 0 where no argument is missing, no
  -- refresh has begun, the expression compiles and both allocations succeed. Otherwise it returns
  -- XH_ERRNO_INVAL or XH_ERRNO_NOMEM by what was wrong, and changes the count of allocations only.
  pub register-Registers :
      (c : Core env) (regex_str symbol : Option Text) (new_func old_func : ℕ)
      → Registers c regex_str symbol new_func old_func
          (register env c regex_str symbol new_func old_func)
  unfolding register
  register-Registers c none symbol new_func old_func =
      refused err_inval c.calls (no_pattern refl) refl
  register-Registers c (some str) none new_func old_func =
      refused err_inval c.calls (no_symbol refl) refl
  register-Registers c (some str) (some name) new_func old_func =
      elim (Bool-cases (new_func == null)) [
        | inl bad ↦ refused err_inval c.calls (no_function (ground arith)) (ground arith)
        | inr given ↦ elim (Bool-cases c.inited) [
          | inl late ↦ refused err_inval c.calls (too_late late) (ground arith)
          | inr fresh ↦ elim (Option-cases (env.regcomp str)) [
            | inl e ↦ refused err_inval c.calls (bad_pattern str refl e) (ground arith)
            | inr (regex, e) ↦ elim (Bool-cases (env.malloc c.calls)) [
              | inr e1 ↦ refused err_nomem (c.calls + 1) (no_entry e1) (ground arith)
              | inl e1 ↦ elim (Bool-cases (env.malloc (c.calls + 1))) [
                | inr e2 ↦ refused err_nomem (c.calls + 1 + 1) (no_copy e2) (ground arith)
                | inl e2 ↦
                    accepted str name regex refl refl (ground arith) fresh e e1 e2 (ground arith)
              ]
            ]
          ]
        ]
      ]

  -- Why a rule is not added. No copy is made where there is no symbol.
  pub data Unignored (c : Core env) (regex_str symbol : Option Text) : ℕ → ℕ → Type 0 where
    no_rule_pattern : regex_str ≡ none → Unignored c regex_str symbol err_inval c.calls
    rule_too_late : c.inited ≡ true → Unignored c regex_str symbol err_inval c.calls
    bad_rule_pattern :
        (str : Text)
        → regex_str ≡ some str
        → env.regcomp str ≡ none
        → Unignored c regex_str symbol err_inval c.calls
    no_rule : env.malloc c.calls ≡ false → Unignored c regex_str symbol err_nomem (c.calls + 1)
    no_rule_copy :
        (name : Text)
        → symbol ≡ some name
        → env.malloc (c.calls + 1) ≡ false
        → Unignored c regex_str symbol err_nomem (c.calls + 1 + 1)

  -- The same of an ignore rule, which may name no symbol and then copies none.
  pub data Ignores (c : Core env) (regex_str symbol : Option Text) (out : ℕ × Core env)
      : Type 0 where
    accepted :
        (str : Text) (regex : env.Regex) (calls : ℕ)
        → regex_str ≡ some str
        → c.inited ≡ false
        → env.regcomp str ≡ some regex
        → env.malloc c.calls ≡ true
        → out ≡ (
          0,
          record c {
            ignore_info = c.ignore_info ++ record { pathname_regex = regex; symbol = symbol } ∷ [];
            calls = calls;
          },
        )
        → Ignores c regex_str symbol out
    refused :
        (code calls : ℕ)
        → Unignored c regex_str symbol code calls
        → out ≡ (code, record c { calls = calls })
        → Ignores c regex_str symbol out

  ignore-Ignores_accepting :
      (c : Core env) (str : Text) (symbol : Option Text) (regex : env.Regex)
      → c.inited ≡ false
      → env.regcomp str ≡ some regex
      → env.malloc c.calls ≡ true
      → Ignores c (some str) symbol (ignore env c (some str) symbol)
  unfolding ignore
  ignore-Ignores_accepting c str none regex fresh e e1 =
      accepted str regex (c.calls + 1) refl fresh e e1 (ground arith)
  ignore-Ignores_accepting c str (some name) regex fresh e e1 =
      elim (Bool-cases (env.malloc (c.calls + 1))) [
        | inr e2 ↦ refused err_nomem (c.calls + 1 + 1) (no_rule_copy name refl e2) (ground arith)
        | inl e2 ↦ accepted str regex (c.calls + 1 + 1) refl fresh e e1 (ground arith)
      ]

  -- A call of ignore adds one rule behind the others and returns 0 where there is a pattern, no refresh
  -- has begun, the expression compiles and the allocations succeed; a missing symbol is kept as such.
  -- Otherwise it returns XH_ERRNO_INVAL or XH_ERRNO_NOMEM by what was wrong, and changes the count of
  -- allocations only.
  pub ignore-Ignores :
      (c : Core env) (regex_str symbol : Option Text)
      → Ignores c regex_str symbol (ignore env c regex_str symbol)
  unfolding ignore
  ignore-Ignores c none symbol = refused err_inval c.calls (no_rule_pattern refl) refl
  ignore-Ignores c (some str) symbol = elim (Bool-cases c.inited) [
    | inl late ↦ refused err_inval c.calls (rule_too_late late) (ground arith)
    | inr fresh ↦ elim (Option-cases (env.regcomp str)) [
      | inl e ↦ refused err_inval c.calls (bad_rule_pattern str refl e) (ground arith)
      | inr (regex, e) ↦ elim (Bool-cases (env.malloc c.calls)) [
        | inr e1 ↦ refused err_nomem (c.calls + 1) (no_rule e1) (ground arith)
        | inl e1 ↦ ignore-Ignores_accepting c str symbol regex fresh e e1
      ]
    ]
  ]

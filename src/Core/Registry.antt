-- ===== src/Core/Registry.antt =====
-- `xh_core_register` and `xh_core_ignore` of cpp/xhook/xh_core.c. `none` is a NULL argument. The
-- queues of cpp/xhook/queue.h, a copy of the BSD header, are lists in the order of insertion.
pub mod Laws
use art_hook.Base.{
  ℕ, ◌+◌, Bool, true, false, not, Option, none, some, List, [], ◌∷◌, ◌++◌, ◌==◌, ◌||◌,
  if◌then◌else◌, Text,
}
use art_hook.Machine.{null}
use art_hook.Elf.Image.{err_inval, err_nomem}
use art_hook.Core.State.{Env, Core, HookInfo, IgnoreInfo}

module _ (env : Env) where
  -- An allocation: its outcome, and the state that has counted it.
  abbrev pub alloc : Core env → Bool × Core env
  alloc c = (env.malloc c.calls, record c { calls = c.calls + 1 })

  -- From `malloc` on: the entry, the copy of the symbol, and the insertion under the lock.
  unfoldable pub add_hook :
      Core env → env.Regex → (symbol : Text) (new_func old_func : ℕ) → ℕ × Core env
  add_hook c regex symbol new_func old_func =
      let hi : HookInfo env = record {
        pathname_regex = regex;
        symbol = symbol;
        new_func = new_func;
        old_func = old_func;
      } in
      let (got_entry, c1) = alloc c in
      let (got_symbol, c2) = alloc c1 in
      if not got_entry
      then (err_nomem, c1)
      else if not got_symbol
      then (err_nomem, c2)
      else (0, record c2 { hook_info = c2.hook_info ++ hi ∷ [] })

  unfoldable pub register :
      Core env → (pathname_regex_str symbol : Option Text) (new_func old_func : ℕ) → ℕ × Core env
  unfolding add_hook
  register c none symbol new_func old_func = (err_inval, c)
  register c (some regex_str) none new_func old_func = (err_inval, c)
  register c (some regex_str) (some symbol) new_func old_func =
      if (new_func == null) || c.inited then (err_inval, c) else elim (env.regcomp regex_str) [
        | none ↦ (err_inval, c)
        | some regex ↦ add_hook c regex symbol new_func old_func
      ]

  -- The copy of the symbol is allocated only where there is one.
  unfoldable pub add_ignore : Core env → env.Regex → Option Text → ℕ × Core env
  add_ignore c regex symbol =
      let ii : IgnoreInfo env = record { pathname_regex = regex; symbol = symbol } in
      let (got_entry, c1) = alloc c in
      let (got_symbol, c2) = alloc c1 in
      let linked = λ (d : Core env). record d { ignore_info = d.ignore_info ++ ii ∷ [] } in
      if not got_entry then (err_nomem, c1) else elim symbol [
        | none ↦ (0, linked c1)
        | some _ ↦ if not got_symbol then (err_nomem, c2) else (0, linked c2)
      ]

  unfoldable pub ignore : Core env → (pathname_regex_str symbol : Option Text) → ℕ × Core env
  unfolding add_ignore
  ignore c none symbol = (err_inval, c)
  ignore c (some regex_str) symbol =
      if c.inited then (err_inval, c) else elim (env.regcomp regex_str) [
        | none ↦ (err_inval, c)
        | some regex ↦ add_ignore c regex symbol
      ]

-- ===== src/Core/Examples.antt =====
-- cpp/xhook/xh_core.c in a process with one image, one hook and one file of maps.
use art_hook.Base.{
  ap, strcmp_eq_iff, ℕ, ◌≡◌, ◌≢◌, refl, sym, ◌∙◌, inl, inr, true, false, not, Option, none, some,
  arith, List, [], ◌∷◌, ◌&&◌, if◌then◌else◌, Text, strcmp_eq, eq_of_strcmp_eq, Bool-cases,
}
use art_hook.Machine.{Mem, Res, null, load8, store8}
use art_hook.Maps.{lines}
use art_hook.Elf.Image.{cleared}
use art_hook.Elf.Examples.{kernel, process, path, map_line}
use art_hook.Elf.Header.{check_elfheader}
use art_hook.Elf.Init.{elf_init}
use art_hook.Elf.Hook.{elf_hook}
use art_hook.Core.Tree.{PathTree}
use art_hook.Core.State.{Env, Core, HookInfo, IgnoreInfo, core_start}
use art_hook.Core.Registry.{register}
use art_hook.Core.Registry.Laws.{Registers, register-Registers}
use art_hook.Core.Select.{wanted, hook_loop, hook_impl}
use art_hook.Core.Select.Laws.{
  ignored_whole, ignored_symbol, chosen, apply_all, first_match, hook_loop-chosen,
  wanted-first_match,
}
use art_hook.Core.Guard.Laws.{Frame}
use art_hook.Core.Refresh.{Refreshing, refresh_lines, refresh_impl}
use art_hook.Core.Refresh.Laws.{Image, refresh_impl-ne-segv, refresh_impl-Image}
use art_hook.Core.Lifecycle.{init_once, clear}
use art_hook.Core.Lifecycle.Laws.{IsValid}
use art_hook.Core.Lifecycle.Steps.{Reach, start, next, registers, Reach-IsValid, clear-core_start}

abbrev find : Text → List (Text × ℕ) → Option ℕ
find q [] = none
find q ((p, v) ∷ t) = if strcmp_eq p q then some v else find q t

abbrev insert : Text → ℕ → List (Text × ℕ) → Option ℕ × List (Text × ℕ)
insert p v t = (find p t, elim (find p t) [ none ↦ (p, v) ∷ t | some _ ↦ t ])

abbrev remove : Text → List (Text × ℕ) → List (Text × ℕ)
remove p [] = []
remove p ((q, v) ∷ t) = if strcmp_eq p q then remove p t else (q, v) ∷ remove p t

pub insert_lem :
    (p q : Text) (v : ℕ) (t : List (Text × ℕ))
    → ((insert p v t).0 ≡ find p t)
      × (find q (insert p v t).1 ≡ (
          if strcmp_eq p q
          then (elim (find p t) [ none ↦ some v | some w ↦ some w ])
          else find q t))
insert_lem p q v t = (refl, cases (find p t) refl)
  where
    cases :
        (o : Option ℕ)
        → find p t ≡ o
        → find q ((elim o as (λ _. List (Text × ℕ)) [ none ↦ (p, v) ∷ t | some _ ↦ t ])) ≡ (
            if strcmp_eq p q
            then (elim o as (λ _. Option ℕ) [ none ↦ some v | some w ↦ some w ])
            else find q t)
    cases none e = refl
    cases (some w) e = elim (Bool-cases (strcmp_eq p q)) [
      | inl same ↦ rw same (ap (λ s. find s t) (sym (eq_of_strcmp_eq p q same)) ∙ e)
      | inr other ↦ rw other
    ]

pub find-remove :
    (p q : Text) (t : List (Text × ℕ))
    → find q (remove p t) ≡ (if strcmp_eq p q then none else find q t)
find-remove p q [] = ground arith
find-remove p q ((r, v) ∷ t) = elim (Bool-cases (strcmp_eq p r)) [
  | inl same ↦
      let moved : strcmp_eq r q ≡ strcmp_eq p q =
        ap (λ s. strcmp_eq s q) (sym (eq_of_strcmp_eq p r same)) in
      ground (arith, find-remove p q t, moved)
  | inr other ↦
      ground (arith, find-remove p q t, strcmp_eq_iff p r, strcmp_eq_iff r q, strcmp_eq_iff p q)
]

abbrev tree : PathTree
tree = record {
  Tree = List (Text × ℕ);
  empty = [];
  find = find;
  insert = insert;
  remove = remove;
  find-empty = λ p. refl;
  insert_lem = insert_lem;
  find-remove = find-remove;
}

-- Patterns are whole paths.
abbrev pub env : Env
env = record {
  Regex = Text;
  regcomp = λ s. some s;
  regexec = λ r p. strcmp_eq r p;
  malloc = λ n. true;
  kernel = kernel;
  sigaction = λ n. none;
  pthread_create = λ n. true;
  tree = tree;
  fuel = 3;
}

abbrev symbol : Text
symbol = 0x66 ∷ []

-- Hook `f` in `/x`.
abbrev registered : Core env
unfolding register
registered = (register env (core_start env) (some path) (some symbol) 0x77 null).1

abbrev ready : Core env
unfolding init_once
ready = init_once env registered

abbrev core_of : Res (Core env) → Core env
core_of (Res.done c m) = c
core_of (Res.segv m) = core_start env
core_of Res.undefined = core_start env
core_of Res.out_of_fuel = core_start env

abbrev mem_of : {A : Type 0} → Res A → Mem
mem_of (Res.done c m) = m
mem_of (Res.segv m) = m
mem_of Res.undefined = process
mem_of Res.out_of_fuel = process

register-Registers_example :
    Registers env
      (core_start env)
      (some path)
      (some symbol)
      0x77
      null
      (register env (core_start env) (some path) (some symbol) 0x77 null)
register-Registers_example =
    register-Registers env (core_start env) (some path) (some symbol) 0x77 null

abbrev first_hook : HookInfo env
first_hook = record { pathname_regex = path; symbol = symbol; new_func = 0x77; old_func = null }

abbrev second_hook : HookInfo env
second_hook = record { pathname_regex = path; symbol = path; new_func = 0x99; old_func = null }

abbrev symbol_rule : IgnoreInfo env
symbol_rule = record { pathname_regex = path; symbol = some symbol }

hook_loop-chosen_example :
    hook_loop env (first_hook ∷ second_hook ∷ []) (symbol_rule ∷ []) path cleared
    ≡ apply_all env (chosen env (first_hook ∷ second_hook ∷ []) (symbol_rule ∷ []) path) cleared
hook_loop-chosen_example =
    hook_loop-chosen env (first_hook ∷ second_hook ∷ []) (symbol_rule ∷ []) path cleared
      (unfold ignored_whole strcmp_eq in refl)

wanted-first_match_example :
    wanted env (first_hook ∷ []) (symbol_rule ∷ []) path
    ≡ (elim (first_match env (first_hook ∷ []) path) [
      | none ↦ false
      | some hi ↦
          not (ignored_whole env (symbol_rule ∷ []) path)
          && not (ignored_symbol env (symbol_rule ∷ []) path hi.symbol)
    ])
wanted-first_match_example = wanted-first_match env (first_hook ∷ []) (symbol_rule ∷ []) path

ready_on : ready.sigsegv_enable ≡ true
unfolding ready registered
ready_on = refl

ready_handler : ready.handler ≡ true
unfolding ready registered
ready_handler = refl

refresh_impl-ne-segv_example : refresh_impl env ready process ≢ Res.segv process
refresh_impl-ne-segv_example = refresh_impl-ne-segv env ready process process ready_on ready_handler

-- The refresh on this process.
abbrev run : Res (Core env)
unfolding refresh_impl
run = refresh_impl env ready process

run_returns : refresh_impl env ready process ≡ Res.done (core_of run) (mem_of run)
unfolding run ready registered refresh_impl refresh_lines check_elfheader hook_impl elf_init
    elf_hook load8 store8 strcmp_eq
run_returns = refl

run_finds : find path (core_of run).map_info ≡ some 4096
unfolding run ready registered refresh_impl refresh_lines check_elfheader hook_impl elf_init
    elf_hook load8 store8 strcmp_eq
run_finds = refl

refresh_impl-Image_example :
    Frame env ready (core_of run) × Image env ready (lines map_line) path 4096
refresh_impl-Image_example =
    refresh_impl-Image env ready (core_of run) process (mem_of run) map_line path 4096 refl
      run_returns run_finds

-- The first line of the file, and then the same line again.
abbrev begun : Refreshing env
begun = record { core = ready; refreshed = [] }

abbrev after_line : Res (Refreshing env)
unfolding refresh_lines
after_line = refresh_lines env (map_line ∷ []) begun process

abbrev state_of : Res (Refreshing env) → Refreshing env
state_of (Res.done s m) = s
state_of (Res.segv m) = begun
state_of Res.undefined = begun
state_of Res.out_of_fuel = begun

abbrev after_both : Res (Refreshing env)
unfolding refresh_lines
after_both = refresh_lines env (map_line ∷ []) (state_of after_line) (mem_of after_line)

line_returns :
    refresh_lines env (map_line ∷ []) begun process
    ≡ Res.done (state_of after_line) (mem_of after_line)
unfolding after_line ready registered refresh_impl refresh_lines check_elfheader hook_impl elf_init
    elf_hook load8 store8 strcmp_eq
line_returns = refl

both_return :
    refresh_lines env (map_line ∷ []) (state_of after_line) (mem_of after_line)
    ≡ Res.done (state_of after_both) (mem_of after_both)
unfolding after_both after_line ready registered refresh_impl refresh_lines check_elfheader
    hook_impl elf_init elf_hook load8 store8 strcmp_eq
both_return = refl

line_places : find path (state_of after_line).refreshed ≡ some 4096
unfolding after_line ready registered refresh_impl refresh_lines check_elfheader hook_impl elf_init
    elf_hook load8 store8 strcmp_eq
line_places = refl

registered-Reach : Reach env registered
unfolding register registered
registered-Reach = next start (registers (some path) (some symbol) 0x77 null refl)

Reach-IsValid_example : IsValid env registered
Reach-IsValid_example = Reach-IsValid env registered-Reach

clear-core_start_example :
    let d = clear env registered in
    d ≡ record (core_start env) {
      sigsegv_enable = registered.sigsegv_enable;
      sigsegv_flag = registered.sigsegv_flag;
      handler = d.handler;
      refresh_thread_do = registered.refresh_thread_do;
      calls = d.calls;
    }
clear-core_start_example = clear-core_start env registered registered-Reach

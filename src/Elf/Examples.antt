-- ===== src/Elf/Examples.antt =====
-- A small image in memory, and the code of cpp/xhook/xh_elf.c on it.
use art_hook.Base.{
  ℕ, zero, suc, ◌+◌, ◌-◌, ◌/◌, ◌%◌, ◌^◌, ◌<◌, ◌≡◌, ◌≢◌, refl, ◌⊎◌, inl, inr, true, Option, none,
  some, arith, [], ◌∷◌, ◌++◌, ltb, Text, if◌then◌else◌,
}
use art_hook.Machine.{u32, u64, Mem, Res, load8, store8}
use art_hook.Machine.Laws.{Ensures}
use art_hook.Machine.Stores.{peek}
use art_hook.Machine.Total.{Usable-Legible, usable, usable-Usable}
use art_hook.Maps.Protect.{Kernel}
use art_hook.Elf.Image.{Elf, cleared, err_inval}
use art_hook.Elf.Header.{check_elfheader}
use art_hook.Elf.Header.Laws.{Checked}
use art_hook.Elf.Header.Total.{check_elfheader-decides}
use art_hook.Elf.Symbols.{find_symidx_by_name, gnu_hash_lookup_undef}
use art_hook.Elf.Symbols.Undef.{First, gnu_hash_lookup_undef-First}
use art_hook.Elf.Symbols.Laws.{Found, find_symidx-IsNamed}
use art_hook.Elf.Init.{elf_init}
use art_hook.Elf.Init.Laws.{Finished, elf_init-Finished}
use art_hook.Elf.Replace.{replace_function}
use art_hook.Elf.Replace.Laws.{KeepsBytes, Outcome, replace_function-Outcome}
use art_hook.Elf.Hook.{elf_hook, hook_plain}
use art_hook.Elf.Hook.Laws.{elf_hook-below_base}
use art_hook.Elf.Hook.Ends.{hook_plain-ends}
use art_hook.Elf.Hook.Plt.{Plt, hook_plain-Plt}
use art_hook.Maps.{lines}
use art_hook.Maps.Protect.{get_mem_protect}
use art_hook.Maps.Protect.Laws.{Mapped, get_mem_protect-Mapped}

-- `n` bytes of a little-endian integer.
abbrev pub le : ℕ → ℕ → Text
le zero v = []
le (suc n) v = v % 256 ∷ le n (v / 256)

abbrev pub nth : Text → ℕ → Option ℕ
nth [] i = none
nth (c ∷ s) zero = some c
nth (c ∷ s) (suc i) = nth s i

abbrev pub at_base : ℕ → Text → ℕ → Option ℕ
at_base base bytes a = if ltb a base then none else nth bytes (a - base)

abbrev base : ℕ
base = 4096

-- The ELF header of 64 bytes, with two program headers behind it.
abbrev ehdr_bytes : Text
ehdr_bytes =
    0x7f
    ∷ 0x45
    ∷ 0x4c
    ∷ 0x46
    ∷ 2
    ∷ 1
    ∷ 1
    ∷ (le 9 0
        ++ le 2 3
        ++ le 2 183
        ++ le 4 1
        ++ le 8 0
        ++ le 8 64
        ++ le 8 0
        ++ le 4 0
        ++ le 2 64
        ++ le 2 56
        ++ le 2 2
        ++ le 6 0)

abbrev phdr_bytes : (type vaddr memsz : ℕ) → Text
phdr_bytes type vaddr memsz =
    le 4 type ++ le 4 0 ++ le 8 0 ++ le 8 vaddr ++ le 8 0 ++ le 8 memsz ++ le 8 memsz ++ le 8 0

-- DT_STRTAB, DT_SYMTAB, DT_HASH, DT_JMPREL, DT_PLTRELSZ, DT_PLTREL and DT_NULL.
abbrev dyn_bytes : Text
dyn_bytes =
    le 8 5
    ++ le 8 288
    ++ le 8 6
    ++ le 8 296
    ++ le 8 4
    ++ le 8 344
    ++ le 8 23
    ++ le 8 368
    ++ le 8 2
    ++ le 8 24
    ++ le 8 20
    ++ le 8 7
    ++ le 8 0
    ++ le 8 0

-- The string table names one symbol, `f`; it is symbol 1. One relocation is for its slot at 392.
abbrev image : Text
image =
    ehdr_bytes
    ++ phdr_bytes 1 0 408
    ++ phdr_bytes 2 176 112
    ++ dyn_bytes
    ++ le 1 0
    ++ le 7 0x66
    ++ le 24 0
    ++ le 4 1
    ++ le 20 0
    ++ le 4 1
    ++ le 4 2
    ++ le 4 1
    ++ le 8 0
    ++ le 4 0
    ++ le 8 392
    ++ le 8 (2 ^ 32 + 1026)
    ++ le 8 0
    ++ le 8 0x55
    ++ le 8 0

abbrev pub process : Mem
process = record { cell = at_base base image; prot = λ p. 3 }

abbrev symbol : Text
symbol = 0x66 ∷ []

abbrev pub path : Text
path = 0x2f ∷ 0x78 ∷ []

-- "1000-2000 rw-p 0 0:0 0 /x"
abbrev pub map_line : Text
map_line =
    b'1' ∷ b'0' ∷ b'0' ∷ b'0' ∷ b'-' ∷ b'2' ∷ b'0' ∷ b'0' ∷ b'0' ∷ b' ' ∷ b'r' ∷ b'w' ∷ b'-' ∷ b'p'
    ∷ b' ' ∷ b'0' ∷ b' ' ∷ b'0' ∷ b':' ∷ b'0' ∷ b' ' ∷ b'0' ∷ b' ' ∷ path

abbrev pub kernel : Kernel
kernel = record {
  self_maps = λ m. some map_line;
  mprotect = λ addr len prot m. (none, record m { prot = λ p. prot });
}

kernel_KeepsBytes : KeepsBytes kernel
kernel_KeepsBytes = record { bytes = λ addr len prot m x. refl }

abbrev pub left_by : {A : Type 0} → Res A → Mem
left_by (Res.done a m) = m
left_by (Res.segv m) = m
left_by Res.undefined = process
left_by Res.out_of_fuel = process

abbrev pub returned_by : {A : Type 0} → A → Res A → A
returned_by a (Res.done b m) = b
returned_by a (Res.segv m) = a
returned_by a Res.undefined = a
returned_by a Res.out_of_fuel = a

check_elfheader-decides_example :
    (r : ℕ) × (check_elfheader base process ≡ Res.done r process) × Checked base process r process
check_elfheader-decides_example =
    check_elfheader-decides base process
      (Usable-Legible (usable-Usable 24 base process (unfold usable in refl)))

abbrev inited : Res (ℕ × Elf)
unfolding elf_init
inited = elf_init cleared base (some path) process

abbrev elf : Elf
elf = (returned_by (0, cleared) inited).1

image_inited : elf_init cleared base (some path) process ≡ Res.done (0, elf) process
unfolding elf_init load8
image_inited = refl

elf_init-Finished_example : Finished path base (0, elf) ⊎ ((0 ≡ err_inval) × (base ≡ 0))
elf_init-Finished_example = elf_init-Finished path base cleared elf 0 process process image_inited

symbol_found : find_symidx_by_name 3 elf symbol process ≡ Res.done (some 1) process
unfolding find_symidx_by_name inited load8
symbol_found = refl

find_symidx-IsNamed_example : (process ≡ process) × Found elf symbol process (some 1)
find_symidx-IsNamed_example = find_symidx-IsNamed elf symbol process 3 process (some 1) symbol_found

abbrev slot : ℕ
slot = base + 392

abbrev saved : ℕ
saved = base + 400

abbrev swapped : Mem
unfolding replace_function
swapped = left_by (replace_function kernel (some path) slot 0x77 saved process)

slot_after : replace_function kernel (some path) slot 0x77 saved process ≡ Res.done 0 swapped
unfolding replace_function load8 store8
slot_after = refl

slot_holds : peek 8 slot process ≡ some 0x55
unfolding peek
slot_holds = refl

replace_function-Outcome_example :
    Outcome kernel kernel_KeepsBytes slot 0x77 saved 0x55
      (omega arith)
      (omega arith)
      (inr (inr (omega arith)))
      process
      0
      swapped
replace_function-Outcome_example =
    replace_function-Outcome kernel kernel_KeepsBytes slot 0x77 saved 0x55 (omega arith)
      (omega arith) (inr (inr (omega arith))) (some path) process swapped 0 slot_holds slot_after

below_image : 100 < elf.base_addr
unfolding inited load8
below_image = omega arith

elf_hook-below_base_example :
    Ensures
      (λ r n. n.cell 100 ≡ process.cell 100)
      (λ n. n.cell 100 ≡ process.cell 100)
      (elf_hook kernel 3 elf (some symbol) 0x77 saved process)
elf_hook-below_base_example =
    elf_hook-below_base kernel kernel_KeepsBytes elf 0x77 saved 3 (some symbol) process 100
      below_image (inr (inl (omega arith)))

hook_plain-ends_example :
    hook_plain kernel elf 0x77 saved 1 true (base + 368) 24 process ≢ Res.out_of_fuel
hook_plain-ends_example =
    hook_plain-ends kernel elf 0x77 saved 1 true (base + 368) 24 process (omega arith)

-- The whole hook: the slot of `f` now holds the new function, and the old one is saved.
slot_hooked :
    peek 8 slot (left_by (elf_hook kernel 3 elf (some symbol) 0x77 saved process)) ≡ some 0x77
unfolding elf_hook inited load8 store8 peek
slot_hooked = refl

abbrev patched_process : Mem
unfolding hook_plain
patched_process = left_by (hook_plain kernel elf 0x77 saved 1 true (base + 368) 24 process)

table_hooked :
    hook_plain kernel elf 0x77 saved 1 true (base + 368) 24 process ≡ Res.done 0 patched_process
unfolding hook_plain inited elf_init patched_process load8 store8
table_hooked = refl

hook_plain-Plt_example :
    Plt kernel kernel_KeepsBytes elf 0x77 saved 1
      (omega arith)
      process
      patched_process
      (u64 (base + 368 + u32 24))
      (base + 368)
hook_plain-Plt_example =
    hook_plain-Plt kernel kernel_KeepsBytes elf 0x77 saved 1 (omega arith) (base + 368) 24 process
      patched_process (λ e. absurd (omega arith)) table_hooked

slot_protected : get_mem_protect kernel slot 8 (some path) process ≡ Res.done (0, 3) process
unfolding get_mem_protect
slot_protected = refl

get_mem_protect-Mapped_example : Mapped (some path) (lines map_line) (slot + 5)
get_mem_protect-Mapped_example =
    get_mem_protect-Mapped kernel slot 8 (some path) process process 3 map_line (slot + 5) refl
      slot_protected (omega arith) (omega arith)

-- The same symbol table, read as if no hash table covered it.
abbrev uncovered : Elf
uncovered = record cleared { strtab = base + 288; symtab = base + 296; symoffset = 2 }

symbol_searched : gnu_hash_lookup_undef uncovered symbol process ≡ Res.done (some 1) process
unfolding gnu_hash_lookup_undef load8
symbol_searched = refl

gnu_hash_lookup_undef-First_example :
    (process ≡ process) × First uncovered symbol process 2 0 (some 1)
gnu_hash_lookup_undef-First_example =
    gnu_hash_lookup_undef-First uncovered symbol process process (some 1) symbol_searched

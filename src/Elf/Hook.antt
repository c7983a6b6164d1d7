-- ===== src/Elf/Hook.antt =====
-- `xh_elf_find_and_replace_func` and `xh_elf_hook` of cpp/xhook/xh_elf.c. `fuel` bounds the chain
-- walks of the lookup and the rounds over a packed table; the rounds over a plain table are
-- bounded by its size.
pub mod Ends
pub mod PackedEnds
pub mod PackedFails
mod Examples
pub mod Laws
pub mod Plt
use art_hook.Base.{
  ℕ, zero, suc, ◌+◌, ◌/◌, ◌%◌, ◌^◌, Bool, true, false, not, Option, none, some, ◌&&◌, ◌||◌, ◌==◌,
  ◌!=◌, ltb, if◌then◌else◌, Text,
}
use art_hook.Machine.{u32, u64, null, Cmd, Res, out_of_fuel, pure, ◌>>=◌, load64, load_le}
use art_hook.Maps.Protect.{Kernel}
use art_hook.Reloc.Plain.{PlainIterator, plain_init, plain_next}
use art_hook.Reloc.Packed.{Rela, PackedIterator, packed_init, packed_next}
use art_hook.Elf.Image.{Elf, err_format, err_elfinit, err_inval}
use art_hook.Elf.Symbols.{find_symidx_by_name}
use art_hook.Elf.Replace.{replace_function}

-- ELF64_R_SYM and ELF64_R_TYPE.
abbrev pub r_sym : ℕ → ℕ
r_sym info = info / 2 ^ 32

abbrev pub r_type : ℕ → ℕ
r_type info = u32 info

abbrev pub jump_slot : ℕ
jump_slot = 1026

abbrev pub glob_dat : ℕ
glob_dat = 1025

abbrev pub abs64 : ℕ
abs64 = 257

-- `rel_common`: an entry of a plain table at its address, or the one of the packed iterator.
pub data RelCommon : Type 0 where
  at : ℕ → RelCommon
  unpacked : Rela → RelCommon

-- `r_info` is read before `r_offset`; both kinds of entry have the same layout up to there.
unfoldable pub read_reloc : RelCommon → Cmd (ℕ × ℕ)
unfolding load_le
read_reloc (at p) = do info ← load64 (p + 8); offset ← load64 p; pure (info, offset)
read_reloc (unpacked e) = pure (e.r_info, e.r_offset)

-- Whether the relocation is one to patch: its symbol, and a type that its table is for.
abbrev pub targets : (is_plt : Bool) (symidx info : ℕ) → Bool
targets is_plt symidx info =
    (r_sym info == symidx)
    && (if is_plt
        then r_type info == jump_slot
        else ((r_type info == glob_dat) || (r_type info == abs64)))

module _ (k : Kernel) (self : Elf) (new_func old_func symidx : ℕ) where
  -- The code that is returned, and `*found`.
  unfoldable pub find_and_replace_func : (is_plt : Bool) → RelCommon → Cmd (ℕ × Bool)
  unfolding replace_function read_reloc
  find_and_replace_func is_plt rel_common = do
    (info, offset) ← read_reloc rel_common
    let addr = u64 (self.bias_addr + offset)
    let patch = do r ← replace_function k self.pathname addr new_func old_func; pure (r, true)
    let placed = if ltb addr self.base_addr then pure (err_format, true) else patch
    if targets is_plt symidx info then placed else pure (0, false)

  -- The loop over .rel(a).plt leaves at the first hit (`is_plt`), the one over .rel(a).dyn does not.
  unfoldable pub plain_loop : ℕ → (is_plt : Bool) → PlainIterator → Cmd ℕ
  unfolding find_and_replace_func plain_next
  plain_loop zero is_plt iter = λ m. out_of_fuel
  plain_loop (suc rounds) is_plt iter =
      let (entry, iter') = plain_next iter in
      elim entry [
        | none ↦ pure 0
        | some p ↦ do
          (r, found) ← find_and_replace_func is_plt (at p)
          let rest = plain_loop rounds is_plt iter'
          if r != 0 then pure r else (if is_plt && found then pure 0 else rest)
      ]

  unfoldable pub packed_loop : ℕ → PackedIterator → Cmd ℕ
  unfolding find_and_replace_func packed_next
  packed_loop zero iter = λ m. out_of_fuel
  packed_loop (suc rounds) iter = do
    (entry, iter') ← packed_next iter
    elim entry [
      | none ↦ pure 0
      | some e ↦ do
        (r, _) ← find_and_replace_func false (unpacked e)
        let rest = packed_loop rounds iter'
        if r != 0 then pure r else rest
    ]

  unfoldable pub hook_plain : (is_plt : Bool) (table table_sz : ℕ) → Cmd ℕ
  unfolding plain_loop plain_init
  hook_plain is_plt table table_sz =
      if table == 0
      then pure 0
      else plain_loop (suc (u32 table_sz)) is_plt (plain_init table table_sz self.is_use_rela)

  -- The code of `xh_elf_packed_reloc_iterator_init` is not looked at.
  unfoldable pub hook_packed : ℕ → Cmd ℕ
  unfolding packed_loop packed_init
  hook_packed fuel = if self.relandroid == 0 then pure 0 else do
    (_, iter) ← packed_init self.relandroid self.relandroid_sz self.is_use_rela
    packed_loop fuel iter

  -- The three tables in turn, up to the first error.
  unfoldable pub hook_tables : ℕ → Cmd ℕ
  unfolding hook_plain hook_packed
  hook_tables fuel = do
    r ← hook_plain true self.relplt self.relplt_sz
    let packed = hook_packed fuel
    let dyn = do r ← hook_plain false self.reldyn self.reldyn_sz; if r != 0 then pure r else packed
    if r != 0 then pure r else dyn

-- A symbol that the image does not have is no error.
unfoldable pub elf_hook :
    Kernel → (fuel : ℕ) → Elf → (symbol : Option Text) (new_func old_func : ℕ) → Cmd ℕ
unfolding hook_tables find_symidx_by_name
elf_hook k fuel self symbol new_func old_func = elim self.pathname [
  | none ↦ pure err_elfinit
  | some _ ↦ elim symbol [
    | none ↦ pure err_inval
    | some name ↦ if new_func == null then pure err_inval else do
      found ← find_symidx_by_name fuel self name
      elim found [ none ↦ pure 0 | some symidx ↦ hook_tables k self new_func old_func symidx fuel ]
  ]
]

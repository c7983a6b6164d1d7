-- ===== src/Reloc/Plain.antt =====
-- `xh_elf_plain_reloc_iterator_t` of cpp/xhook/xh_elf.c, with `sizeof(Elf64_Rela)` 24 and
-- `sizeof(Elf64_Rel)` 16.
use art_hook.Base.{ℕ, ◌+◌, Bool, Option, none, some, leb, if◌then◌else◌}
use art_hook.Machine.{u32, u64}

pub record PlainIterator : Type 0 where
  pub cur : ℕ
  pub end : ℕ
  pub is_use_rela : Bool

abbrev pub entry_size : Bool → ℕ
entry_size is_use_rela = if is_use_rela then 24 else 16

unfoldable pub plain_init : ℕ → ℕ → Bool → PlainIterator
plain_init rel rel_sz is_use_rela = record {
  cur = rel;
  end = u64 (rel + u32 rel_sz);
  is_use_rela = is_use_rela;
}

-- The address of the next entry, or NULL.
unfoldable pub plain_next : PlainIterator → Option ℕ × PlainIterator
plain_next self =
    if leb self.end self.cur
    then (none, self)
    else (some self.cur, record self { cur = u64 (self.cur + entry_size self.is_use_rela) })

-- ===== src/Reloc/Packed.antt =====
-- `xh_elf_packed_reloc_iterator_t` of cpp/xhook/xh_elf.c.
pub mod Laws
pub mod Ends
use art_hook.Base.{
  ℕ, zero, suc, ◌+◌, bit_and, Bool, true, false, not, Option, none, some, ◌&&◌, ◌==◌, ◌!=◌, leb,
  if◌then◌else◌,
}
use art_hook.Machine.{u64, Cmd, pure, ◌>>=◌}
use art_hook.Reloc.Sleb128.{Decoder, Decoded, value, error, format, decoder_init, decoder_next}

-- `ElfW(Rela)`; an `ElfW(Rel)` leaves the addend out.
pub record Rela : Type 0 where
  pub r_offset : ℕ
  pub r_info : ℕ
  pub r_addend : ℕ

-- `rela` and `rel`, the entry that the last call handed out, are not state of their own: they
-- are written and returned by the same call. `r_addend` is the bit pattern of the `ssize_t`.
pub record PackedIterator : Type 0 where
  pub decoder : Decoder
  pub relocation_count : ℕ
  pub group_size : ℕ
  pub group_flags : ℕ
  pub group_r_offset_delta : ℕ
  pub relocation_index : ℕ
  pub relocation_group_index : ℕ
  pub r_offset : ℕ
  pub r_info : ℕ
  pub r_addend : ℕ
  pub is_use_rela : Bool

abbrev pub grouped_by_info : ℕ
grouped_by_info = 1

abbrev pub grouped_by_offset_delta : ℕ
grouped_by_offset_delta = 2

abbrev pub grouped_by_addend : ℕ
grouped_by_addend = 4

abbrev pub group_has_addend : ℕ
group_has_addend = 8

abbrev pub flagged : PackedIterator → ℕ → Bool
flagged self flag = bit_and self.group_flags flag != 0

-- `if(0 != (r = xh_elf_sleb128_decoder_next(...))) return r;` stores the value by `write` and
-- goes on with `next`.
unfoldable pub decode :
    PackedIterator
    → (ℕ → PackedIterator → PackedIterator)
    → (PackedIterator → Cmd (ℕ × PackedIterator))
    → Cmd (ℕ × PackedIterator)
decode self write next = do
  d ← decoder_next self.decoder
  elim d [
    | value v dec ↦ next (write v (record self { decoder = dec }))
    | error r dec ↦ pure (r, record self { decoder = dec })
  ]

-- The iterator after `memset`, with the decoder and `is_use_rela` set.
unfoldable pub packed_zero : ℕ → ℕ → Bool → PackedIterator
unfolding decoder_init
packed_zero rel rel_sz is_use_rela = record {
  decoder = decoder_init rel rel_sz;
  relocation_count = 0;
  group_size = 0;
  group_flags = 0;
  group_r_offset_delta = 0;
  relocation_index = 0;
  relocation_group_index = 0;
  r_offset = 0;
  r_info = 0;
  r_addend = 0;
  is_use_rela = is_use_rela;
}

unfoldable pub packed_init : ℕ → ℕ → Bool → Cmd (ℕ × PackedIterator)
unfolding packed_zero decode
packed_init rel rel_sz is_use_rela =
    decode (packed_zero rel rel_sz is_use_rela) (λ v s. record s { relocation_count = v })
      λ self. decode self (λ v s. record s { r_offset = v }) λ self. pure (0, self)

-- The two stages of `xh_elf_packed_reloc_iterator_read_group_fields` behind the flags.
unfoldable pub read_group_addend : PackedIterator → Cmd (ℕ × PackedIterator)
unfolding decode
read_group_addend self =
    if flagged self group_has_addend && flagged self grouped_by_addend
    then (if not self.is_use_rela
        then pure (format, self)
        else decode self (λ v s. record s { r_addend = u64 (s.r_addend + v) })
            λ self. pure (0, record self { relocation_group_index = 0 }))
    else (if flagged self group_has_addend
        then pure (0, record self { relocation_group_index = 0 })
        else pure (0, record self { r_addend = 0; relocation_group_index = 0 }))

unfoldable pub read_group_info : PackedIterator → Cmd (ℕ × PackedIterator)
unfolding read_group_addend decode
read_group_info self =
    if flagged self grouped_by_info
    then decode self (λ v s. record s { r_info = v }) read_group_addend
    else read_group_addend self

unfoldable pub read_group_delta : PackedIterator → Cmd (ℕ × PackedIterator)
unfolding read_group_info decode
read_group_delta self =
    if flagged self grouped_by_offset_delta
    then decode self (λ v s. record s { group_r_offset_delta = v }) read_group_info
    else read_group_info self

unfoldable pub read_group_fields : PackedIterator → Cmd (ℕ × PackedIterator)
unfolding read_group_delta decode
read_group_fields self =
    decode self (λ v s. record s { group_size = v })
      λ self. decode self (λ v s. record s { group_flags = v }) read_group_delta

-- Each stage of `xh_elf_packed_reloc_iterator_next`; a code that is not 0 makes it return NULL.
unfoldable pub next_addend : PackedIterator → Cmd (ℕ × PackedIterator)
unfolding decode
next_addend self =
    if self.is_use_rela && (flagged self group_has_addend && not (flagged self grouped_by_addend))
    then decode self (λ v s. record s { r_addend = u64 (s.r_addend + v) }) (λ self. pure (0, self))
    else pure (0, self)

unfoldable pub next_info : PackedIterator → Cmd (ℕ × PackedIterator)
unfolding next_addend decode
next_info self =
    if flagged self grouped_by_info
    then next_addend self
    else decode self (λ v s. record s { r_info = v }) next_addend

unfoldable pub next_offset : PackedIterator → Cmd (ℕ × PackedIterator)
unfolding next_info decode
next_offset self =
    if flagged self grouped_by_offset_delta
    then next_info (record self { r_offset = u64 (self.r_offset + self.group_r_offset_delta) })
    else decode self (λ v s. record s { r_offset = u64 (s.r_offset + v) }) next_info

unfoldable pub next_group : PackedIterator → Cmd (ℕ × PackedIterator)
unfolding read_group_fields
next_group self =
    if self.relocation_group_index == self.group_size
    then read_group_fields self
    else pure (0, self)

abbrev pub entry_of : PackedIterator → Rela
entry_of self = record {
  r_offset = self.r_offset;
  r_info = self.r_info;
  r_addend = if self.is_use_rela then self.r_addend else 0;
}

-- The end of the call: both indices move on, and the entry is handed out.
unfoldable pub next_emit : ℕ × PackedIterator → Cmd (Option Rela × PackedIterator)
next_emit (r, self) =
    if r == 0
    then pure (
      some (entry_of self),
      record self {
        relocation_index = u64 (self.relocation_index + 1);
        relocation_group_index = u64 (self.relocation_group_index + 1);
      },
    )
    else pure (none, self)

unfoldable pub packed_next : PackedIterator → Cmd (Option Rela × PackedIterator)
unfolding next_group next_offset next_emit
packed_next self =
    let rest = do
      (r, self) ← next_group self
      (if r == 0 then (do e ← next_offset self; next_emit e) else pure (none, self))
    in if leb self.relocation_count self.relocation_index then pure (none, self) else rest

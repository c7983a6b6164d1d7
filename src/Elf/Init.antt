-- ===== src/Elf/Init.antt =====
-- `xh_elf_init` and `xh_elf_check` of cpp/xhook/xh_elf.c. Both return a code and leave `*self`
-- changed, so they give the pair of the two.
pub mod Laws
use art_hook.Base.{
  ℕ, zero, suc, ◌+◌, ◌-◌, ◌*◌, ◌/◌, Bool, true, false, not, Option, none, some, ◌&&◌, ◌||◌, ◌==◌,
  ◌!=◌, ltb, if◌then◌else◌, [], ◌∷◌, Text,
}
use art_hook.Machine.{u32, u64, null, Cmd, pure, ◌>>=◌, load32, load64, load_le}
use art_hook.Elf.Image.{
  Elf, cleared, err_inval, err_format, e_phoff, p_vaddr, p_memsz, get_first_segment_by_type,
  get_first_segment_by_type_offset,
}
use art_hook.Elf.Header.{memcmp_at}

-- 1 where a pointer that a lookup needs is missing, 0 otherwise.
unfoldable pub check : Elf → ℕ
check self =
    if self.base_addr == 0
    then 1
    else if self.bias_addr == 0
    then 1
    else if self.ehdr == null
    then 1
    else if self.phdr == null
    then 1
    else if self.strtab == null
    then 1
    else if self.symtab == null
    then 1
    else if self.bucket == null
    then 1
    else if self.chain == null
    then 1
    else if self.is_use_gnu_hash && (self.bloom == null)
    then 1
    else 0

-- The tags of <elf.h> that the switch names.
pub data Tag : Type 0 where
  tag_null strtab symtab pltrel jmprel pltrelsz rel relsz android_rel android_relsz hash : Tag
  gnu_hash other : Tag

unfoldable pub tag_of : ℕ → Tag
tag_of d_tag =
    if d_tag == 0
    then tag_null
    else if d_tag == 5
    then strtab
    else if d_tag == 6
    then symtab
    else if d_tag == 20
    then pltrel
    else if d_tag == 23
    then jmprel
    else if d_tag == 2
    then pltrelsz
    else if (d_tag == 17) || (d_tag == 7)
    then rel
    else if (d_tag == 18) || (d_tag == 8)
    then relsz
    else if (d_tag == 0x6000000f) || (d_tag == 0x60000011)
    then android_rel
    else if (d_tag == 0x60000010) || (d_tag == 0x60000012)
    then android_relsz
    else if d_tag == 4
    then hash
    else if d_tag == 0x6ffffef5
    then gnu_hash
    else other

abbrev pub dt_rela : ℕ
dt_rela = 7

-- After one round of the loop over the dynamic section: go on, leave the loop, or return.
pub data Round : Type 0 where
  continue : Elf → Round
  break : Elf → Round
  return : ℕ → Elf → Round

-- A pointer into the image must not lie below its base.
unfoldable pub placed : Elf → ℕ → (Elf → Elf) → Round
placed self addr write =
    if ltb addr self.base_addr then return err_format (write self) else continue (write self)

abbrev pub hash_at : Elf → ℕ → Cmd Round
hash_at self raw = if ltb raw self.base_addr then pure (return err_format self) else do
  bucket_cnt ← load32 raw
  chain_cnt ← load32 (u64 (raw + 4))
  pure (
      continue (record self {
        bucket_cnt = bucket_cnt;
        chain_cnt = chain_cnt;
        bucket = u64 (raw + 8);
        chain = u64 (raw + 8 + 4 * bucket_cnt);
      }))

abbrev pub gnu_hash_at : Elf → ℕ → Cmd Round
gnu_hash_at self raw = if ltb raw self.base_addr then pure (return err_format self) else do
  bucket_cnt ← load32 raw
  symoffset ← load32 (u64 (raw + 4))
  bloom_sz ← load32 (u64 (raw + 8))
  bloom_shift ← load32 (u64 (raw + 12))
  pure (
      continue (record self {
        bucket_cnt = bucket_cnt;
        symoffset = symoffset;
        bloom_sz = bloom_sz;
        bloom_shift = bloom_shift;
        bloom = u64 (raw + 16);
        bucket = u64 (raw + 16 + 8 * bloom_sz);
        chain = u64 (raw + 16 + 8 * bloom_sz + 4 * bucket_cnt);
        is_use_gnu_hash = true;
      }))

-- The body of the switch, with `d` the entry's value.
unfoldable pub dyn_case : Elf → Tag → ℕ → Cmd Round
unfolding placed load_le
dyn_case self tag_null d = pure (break self)
dyn_case self strtab d =
    let p = u64 (self.bias_addr + d) in pure (placed self p (λ s. record s { strtab = p }))
dyn_case self symtab d =
    let p = u64 (self.bias_addr + d) in pure (placed self p (λ s. record s { symtab = p }))
dyn_case self pltrel d = pure (continue (record self { is_use_rela = d == dt_rela }))
dyn_case self jmprel d =
    let p = u64 (self.bias_addr + d) in pure (placed self p (λ s. record s { relplt = p }))
dyn_case self pltrelsz d = pure (continue (record self { relplt_sz = u32 d }))
dyn_case self rel d =
    let p = u64 (self.bias_addr + d) in pure (placed self p (λ s. record s { reldyn = p }))
dyn_case self relsz d = pure (continue (record self { reldyn_sz = u32 d }))
dyn_case self android_rel d =
    let p = u64 (self.bias_addr + d) in pure (placed self p (λ s. record s { relandroid = p }))
dyn_case self android_relsz d = pure (continue (record self { relandroid_sz = u32 d }))
dyn_case self hash d =
    if self.is_use_gnu_hash then pure (continue self) else hash_at self (u64 (self.bias_addr + d))
dyn_case self gnu_hash d = gnu_hash_at self (u64 (self.bias_addr + d))
dyn_case self other d = pure (continue self)

-- Whether the switch reads the value of the entry.
abbrev pub reads_value : Tag → Elf → Bool
reads_value tag_null self = false
reads_value other self = false
reads_value hash self = not self.is_use_gnu_hash
reads_value strtab self = true
reads_value symtab self = true
reads_value pltrel self = true
reads_value jmprel self = true
reads_value pltrelsz self = true
reads_value rel self = true
reads_value relsz self = true
reads_value android_rel self = true
reads_value android_relsz self = true
reads_value gnu_hash self = true

-- The loop over the dynamic section, with `n` entries of 16 bytes left from `dyn` on.
unfoldable pub dyn_loop : ℕ → ℕ → Elf → Cmd Round
unfolding dyn_case tag_of
dyn_loop zero dyn self = pure (break self)
dyn_loop (suc n) dyn self = do
  d_tag ← load64 dyn
  d ← if reads_value (tag_of d_tag) self then load64 (dyn + 8) else pure 0
  round ← dyn_case self (tag_of d_tag) d
  elim round [
    | continue self' ↦ dyn_loop n (dyn + 16) self'
    | break self' ↦ pure (break self')
    | return r self' ↦ pure (return r self')
  ]

-- The checks behind the loop: the magic "APS2" of a packed table, then `xh_elf_check`.
unfoldable pub finish : Elf → Cmd (ℕ × Elf)
unfolding check
finish self = if check self != 0 then pure (err_format, self) else pure (0, self)

unfoldable pub check_android : Elf → Cmd (ℕ × Elf)
unfolding memcmp_at finish
check_android self =
    if self.relandroid == 0
    then finish self
    else if ltb self.relandroid_sz 4
    then pure (err_format, self)
    else do
      magic ← memcmp_at (b'A' ∷ b'P' ∷ b'S' ∷ b'2' ∷ []) self.relandroid
      let stripped = record self {
        relandroid = u64 (self.relandroid + 4);
        relandroid_sz = self.relandroid_sz - 4;
      }
      if magic then finish stripped else pure (err_format, self)

abbrev pub pt_load : ℕ
pt_load = 1

abbrev pub pt_dynamic : ℕ
pt_dynamic = 2

unfoldable pub parse_dynamic : Elf → ℕ → Cmd (ℕ × Elf)
unfolding dyn_loop check_android load_le
parse_dynamic self dhdr = do
  vaddr ← p_vaddr dhdr
  memsz ← p_memsz dhdr
  let self = record self { dyn = u64 (self.bias_addr + vaddr); dyn_sz = u32 memsz }
  round ← dyn_loop (self.dyn_sz / 16) self.dyn self
  elim round [
    | continue self' ↦ check_android self'
    | break self' ↦ check_android self'
    | return r self' ↦ pure (r, self')
  ]

-- The bias is the distance of the image from the address of its first load segment.
unfoldable pub find_bias : Elf → Cmd (ℕ × Elf)
unfolding get_first_segment_by_type_offset get_first_segment_by_type parse_dynamic load_le
find_bias self = do
  phdr0 ← get_first_segment_by_type_offset self pt_load 0
  elim phdr0 [
    | none ↦ pure (err_format, self)
    | some phdr0 ↦ do
      vaddr ← p_vaddr phdr0
      let biased = record self { bias_addr = self.base_addr - vaddr }
      let rest = do
        dhdr ← get_first_segment_by_type biased pt_dynamic
        elim dhdr [ none ↦ pure (err_format, biased) | some dhdr ↦ parse_dynamic biased dhdr ]
      if ltb self.base_addr vaddr then pure (err_format, self) else rest
  ]

unfoldable pub elf_init : Elf → ℕ → Option Text → Cmd (ℕ × Elf)
unfolding find_bias load_le
elf_init self base_addr none = pure (err_inval, self)
elf_init self base_addr (some pathname) = if base_addr == 0 then pure (err_inval, self) else do
  phoff ← e_phoff base_addr
  find_bias (record cleared {
    pathname = some pathname;
    base_addr = base_addr;
    ehdr = base_addr;
    phdr = u64 (base_addr + phoff);
  })

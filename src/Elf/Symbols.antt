-- ===== src/Elf/Symbols.antt =====
-- Symbol lookup by name in cpp/xhook/xh_elf.c. `some i` is the return of 0 with `*symidx = i`, and
-- `none` the return of XH_ERRNO_NOTFND. `fuel` counts the rounds of the chain walks: a chain in
-- memory may be a cycle.
pub mod Laws
pub mod Undef
pub mod Chains
mod Examples
use art_hook.Base.{
  ℕ, zero, suc, ◌+◌, ◌-◌, ◌*◌, ◌/◌, ◌%◌, ◌^◌, Bool, true, false, Option, none, some, bit_and,
  bit_or, ◌==◌, ◌!=◌, ltb, leb, if◌then◌else◌, Text,
}
use art_hook.Machine.{
  u32, u64, Cmd, Res, pure, undef, out_of_fuel, ◌>>=◌, load32, load64, load_le, strcmp_at,
}
use art_hook.Elf.Image.{Elf, st_name}
use art_hook.Elf.Hash.{elf_hash, gnu_hash}

-- `strcmp(symbol, self->strtab + self->symtab[i].st_name) == 0`.
unfoldable pub names : Elf → Text → ℕ → Cmd Bool
unfolding load_le strcmp_at
names self symbol i = do name ← st_name self.symtab i; strcmp_at symbol (u64 (self.strtab + name))

-- `table[i]` of `uint32_t`.
abbrev pub word_at : ℕ → ℕ → Cmd ℕ
word_at table i = load32 (u64 (table + 4 * i))

unfoldable pub hash_walk : ℕ → Elf → Text → ℕ → Cmd (Option ℕ)
unfolding names load_le
hash_walk zero self symbol i = λ m. out_of_fuel
hash_walk (suc fuel) self symbol i =
    let round = do
      hit ← names self symbol i
      let rest = do next ← word_at self.chain i; hash_walk fuel self symbol next
      (if hit then pure (some i) else rest)
    in if i == 0 then pure none else round

unfoldable pub hash_lookup : ℕ → Elf → Text → Cmd (Option ℕ)
unfolding hash_walk elf_hash
hash_lookup fuel self symbol = if self.bucket_cnt == 0 then undef else do
  i ← word_at self.bucket (elf_hash symbol % self.bucket_cnt)
  hash_walk fuel self symbol i

-- The `while(1)` loop of `xh_elf_gnu_hash_lookup_def` at symbol `i`.
unfoldable pub gnu_chain_walk : ℕ → Elf → Text → ℕ → ℕ → Cmd (Option ℕ)
unfolding names load_le
gnu_chain_walk zero self symbol hash i = λ m. out_of_fuel
gnu_chain_walk (suc fuel) self symbol hash i = do
  name ← st_name self.symtab i
  symhash ← word_at self.chain (u32 (i + 2 ^ 32 - self.symoffset))
  hit ←
      (if bit_or hash 1 == bit_or symhash 1
        then strcmp_at symbol (u64 (self.strtab + name))
        else pure false)
  let rest = gnu_chain_walk fuel self symbol hash (u32 (i + 1))
  if hit then pure (some i) else (if bit_and symhash 1 != 0 then pure none else rest)

abbrev pub elfclass_bits : ℕ
elfclass_bits = 64

abbrev pub bloom_mask : ℕ → ℕ → ℕ
bloom_mask hash shift = bit_or (2 ^ (hash % elfclass_bits)) (2 ^ (hash / 2 ^ shift % elfclass_bits))

-- A zero `bloom_sz` or `bucket_cnt`, or a shift by 32 bits or more, is undefined in C.
unfoldable pub gnu_hash_lookup_def : ℕ → Elf → Text → Cmd (Option ℕ)
unfolding gnu_chain_walk gnu_hash
gnu_hash_lookup_def fuel self symbol =
    let hash = gnu_hash symbol in
    let mask = bloom_mask hash self.bloom_shift in
    let in_bucket = do
      i ← word_at self.bucket (hash % self.bucket_cnt)
      (if ltb i self.symoffset then pure none else gnu_chain_walk fuel self symbol hash i)
    in let filtered = do
      word ← load64 (u64 (self.bloom + 8 * (hash / elfclass_bits % self.bloom_sz)))
      (if bit_and word mask != mask
          then pure none
          else (if self.bucket_cnt == 0 then undef else in_bucket))
      in if self.bloom_sz == 0 then undef else (if ltb self.bloom_shift 32 then filtered else undef)

-- `for(i = 0; i < self->symoffset; i++)` with `n` rounds left.
unfoldable pub undef_walk : ℕ → ℕ → Elf → Text → Cmd (Option ℕ)
unfolding names
undef_walk zero i self symbol = pure none
undef_walk (suc n) i self symbol = do
  hit ← names self symbol i
  let rest = undef_walk n (i + 1) self symbol
  if hit then pure (some i) else rest

unfoldable pub gnu_hash_lookup_undef : Elf → Text → Cmd (Option ℕ)
unfolding undef_walk
gnu_hash_lookup_undef self symbol = undef_walk self.symoffset 0 self symbol

unfoldable pub gnu_hash_lookup : ℕ → Elf → Text → Cmd (Option ℕ)
unfolding gnu_hash_lookup_def gnu_hash_lookup_undef
gnu_hash_lookup fuel self symbol = do
  found ← gnu_hash_lookup_def fuel self symbol
  elim found [ some i ↦ pure (some i) | none ↦ gnu_hash_lookup_undef self symbol ]

unfoldable pub find_symidx_by_name : ℕ → Elf → Text → Cmd (Option ℕ)
unfolding gnu_hash_lookup hash_lookup
find_symidx_by_name fuel self symbol =
    if self.is_use_gnu_hash then gnu_hash_lookup fuel self symbol else hash_lookup fuel self symbol

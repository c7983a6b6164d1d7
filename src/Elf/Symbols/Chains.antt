-- ===== src/Elf/Symbols/Chains.antt =====
-- The lookups of cpp/xhook/xh_elf.c by a hash table, against the chains of the table as lists of
-- symbols. A chain that ends is walked to its first symbol of the name.
use art_hook.Base.{
  ℕ, zero, suc, ◌+◌, ◌-◌, ◌*◌, ◌/◌, ◌%◌, ◌^◌, ◌<◌, ◌≤◌, ◌≡◌, ◌≢◌, refl, inl, inr, Bool, true, false,
  Option, none, some, arith, ◌==◌, ◌!=◌, if◌then◌else◌, Text, List, [], ◌∷◌, length, bit_or,
  bit_and, ltb, Bool-cases,
}
use art_hook.Machine.{Mem, Res, u32, u64, load64, strcmp_at}
use art_hook.Elf.Image.{Elf, st_name}
use art_hook.Elf.Hash.{elf_hash, gnu_hash}
use art_hook.Elf.Symbols.{
  names, word_at, hash_walk, hash_lookup, gnu_chain_walk, gnu_hash_lookup_def, bloom_mask,
  elfclass_bits,
}

-- The first of the symbols that has the name, if one has.
abbrev pub first_named : (ℕ → Bool) → List ℕ → Option ℕ
first_named named [] = none
first_named named (i ∷ l) = if named i then some i else first_named named l

module _ (self : Elf) (symbol : Text) (m : Mem) (named : ℕ → Bool) where
  -- The chain of a System V table from symbol `i` on, with the outcome of each comparison.
  pub data Chain : ℕ → List ℕ → Type 0 where
    stop : {i : ℕ} → i ≡ 0 → Chain i []
    link :
        {i next : ℕ} {l : List ℕ}
        → i ≢ 0
        → names self symbol i m ≡ Res.done (named i) m
        → word_at self.chain i m ≡ Res.done next m
        → Chain next l
        → Chain i (i ∷ l)

  -- What stands at symbol `i` of a GNU table: its name, the word of its hash, and the outcome of the
  -- comparison. The word of a symbol of the name is that of the hash of the name, but for bit 0.
  pub record Entry (i symhash : ℕ) : Type 0 where
    pub name : ℕ
    pub name_here : st_name self.symtab i m ≡ Res.done name m
    pub hash_here : word_at self.chain (u32 (i + 2 ^ 32 - self.symoffset)) m ≡ Res.done symhash m
    pub compared : strcmp_at symbol (u64 (self.strtab + name)) m ≡ Res.done (named i) m
    pub hashed : named i ≡ true → bit_or (gnu_hash symbol) 1 ≡ bit_or symhash 1

  -- The chain of a GNU table from symbol `i` on: it ends at a word with bit 0 set.
  pub data GnuChain : ℕ → List ℕ → Type 0 where
    last : {i symhash : ℕ} → Entry i symhash → bit_and symhash 1 ≢ 0 → GnuChain i (i ∷ [])
    more :
        {i symhash : ℕ} {l : List ℕ}
        → Entry i symhash
        → bit_and symhash 1 ≡ 0
        → GnuChain (u32 (i + 1)) l
        → GnuChain i (i ∷ l)

  hash_walk-Chain :
      {i : ℕ} {l : List ℕ} (fuel : ℕ)
      → Chain i l
      → length l < fuel
      → hash_walk fuel self symbol i m ≡ Res.done (first_named named l) m
  unfolding hash_walk
  hash_walk-Chain zero c h = absurd (omega arith)
  hash_walk-Chain (suc fuel) (stop e) h = ground (arith, e)
  hash_walk-Chain {i} (suc fuel) (link there hit next c) h =
      let going : (i == 0) ≡ false = ground arith in
      let rest = hash_walk-Chain fuel c (omega arith) in
      elim (Bool-cases (named i)) [
        | inl yes_named ↦ rw (going, hit, yes_named) refl
        | inr other ↦ rw (going, hit, other, next) rest
      ]

  -- Where the chain of the bucket ends, a lookup in a System V table returns, with as many rounds as
  -- the chain has symbols and one more: it gives the first symbol of the chain that has the name,
  -- or none if none has.
  pub hash_lookup-first :
      (fuel i : ℕ) (l : List ℕ)
      → self.bucket_cnt ≢ 0
      → word_at self.bucket (elf_hash symbol % self.bucket_cnt) m ≡ Res.done i m
      → Chain i l
      → length l < fuel
      → hash_lookup fuel self symbol m ≡ Res.done (first_named named l) m
  unfolding hash_lookup
  hash_lookup-first fuel i l buckets bucket c h =
      let some_buckets : (self.bucket_cnt == 0) ≡ false = ground arith in
      rw (some_buckets, bucket) (hash_walk-Chain fuel c h)

  -- The comparison is made where the words of the two hashes agree, and else it would fail.
  hit_here :
      {i symhash : ℕ} (e : Entry i symhash)
      → (if bit_or (gnu_hash symbol) 1 == bit_or symhash 1
            then strcmp_at symbol (u64 (self.strtab + e.name))
            else (λ m. Res.done false m))
          m
        ≡ Res.done (named i) m
  hit_here {i} {symhash} e = elim (Bool-cases (bit_or (gnu_hash symbol) 1 == bit_or symhash 1)) [
    | inl same ↦ rw same e.compared
    | inr other ↦ elim (Bool-cases (named i)) [
      | inl yes_named ↦ absurd (ground (arith, other, e.hashed yes_named))
      | inr not_named ↦ rw (other, not_named) refl
    ]
  ]

  gnu_chain_walk-GnuChain :
      (fuel : ℕ) {i : ℕ} {l : List ℕ}
      → GnuChain i l
      → length l ≤ fuel
      → gnu_chain_walk fuel self symbol (gnu_hash symbol) i m ≡ Res.done (first_named named l) m
  unfolding gnu_chain_walk
  gnu_chain_walk-GnuChain zero (last e odd) h = absurd (omega arith)
  gnu_chain_walk-GnuChain zero (more e even c) h = absurd (omega arith)
  gnu_chain_walk-GnuChain (suc fuel) {i} (last {symhash} e odd) h =
      let ends : (bit_and symhash 1 != 0) ≡ true = ground (arith, odd) in
      elim (Bool-cases (named i)) [
        | inl yes_named ↦ rw (e.name_here, e.hash_here, hit_here e, yes_named) refl
        | inr other ↦ rw (e.name_here, e.hash_here, hit_here e, other, ends) refl
      ]
  gnu_chain_walk-GnuChain (suc fuel) {i} (more {symhash} e even c) h =
      let goes_on : (bit_and symhash 1 != 0) ≡ false = ground (arith, even) in
      let rest = gnu_chain_walk-GnuChain fuel c (omega arith) in
      elim (Bool-cases (named i)) [
        | inl yes_named ↦ rw (e.name_here, e.hash_here, hit_here e, yes_named) refl
        | inr other ↦ rw (e.name_here, e.hash_here, hit_here e, other, goes_on) rest
      ]

  -- The parts of a GNU table that the lookup reads before the chain.
  pub record GnuTable (i word : ℕ) : Type 0 where
    pub filter_words : self.bloom_sz ≢ 0
    pub buckets : self.bucket_cnt ≢ 0
    pub shift_fits : ltb self.bloom_shift 32 ≡ true
    pub filter_here :
        load64 (u64 (self.bloom + 8 * (gnu_hash symbol / elfclass_bits % self.bloom_sz))) m
        ≡ Res.done word m
    pub bucket_here : word_at self.bucket (gnu_hash symbol % self.bucket_cnt) m ≡ Res.done i m

  -- A lookup in a GNU table returns, with as many rounds as the chain has symbols: it gives the first
  -- symbol of the chain that has the name, or none if none has. It is supposed that the table has
  -- bloom words and buckets, and a shift of the filter below 32; that the word of the filter, the
  -- bucket, and the name and the word of each symbol of the chain can be read; that the bucket gives
  -- a symbol that is not below `symoffset`, and its chain ends; that the word of a symbol that has
  -- the name is the hash of the name, but for bit 0; and that the filter has the bits of the name if
  -- a symbol of the chain has it.
  pub gnu_hash_lookup_def-first :
      (fuel i word : ℕ) (l : List ℕ)
      → GnuTable i word
      → self.symoffset ≤ i
      → GnuChain i l
      → (first_named named l ≢ none
          → bit_and word (bloom_mask (gnu_hash symbol) self.bloom_shift)
            ≡ bloom_mask (gnu_hash symbol) self.bloom_shift)
      → length l ≤ fuel
      → gnu_hash_lookup_def fuel self symbol m ≡ Res.done (first_named named l) m
  unfolding gnu_hash_lookup_def
  gnu_hash_lookup_def-first fuel i word l t covered c filtered h =
      let mask = bloom_mask (gnu_hash symbol) self.bloom_shift in
      let some_words : (self.bloom_sz == 0) ≡ false = ground (arith, t.filter_words) in
      let some_buckets : (self.bucket_cnt == 0) ≡ false = ground (arith, t.buckets) in
      let above : ltb i self.symoffset ≡ false = ground arith in
      elim (Bool-cases (bit_and word mask != mask)) [
        | inl out ↦
            rw (some_words, t.shift_fits, t.filter_here, out)
              (sieved (first_named named l) refl out)
        | inr pass ↦
            rw (some_words, t.shift_fits, t.filter_here, pass, some_buckets, t.bucket_here, above)
              (gnu_chain_walk-GnuChain fuel c h)
      ]
    where
      sieved :
          (o : Option ℕ)
          → first_named named l ≡ o
          → (bit_and word (bloom_mask (gnu_hash symbol) self.bloom_shift)
              != bloom_mask (gnu_hash symbol) self.bloom_shift)
            ≡ true
          → ◌≡◌ {A = Res (Option ℕ)} (Res.done none m) (Res.done (first_named named l) m)
      sieved none e out = rw e refl
      sieved (some j) e out = let bits = filtered (λ gone. cc) in absurd (ground (arith, out, bits))

-- ===== src/Elf/Symbols/Laws.antt =====
-- The symbol lookup finds only symbols of the name that was asked for, and changes nothing.
use art_hook.Base.{
  ℕ, zero, suc, ◌+◌, ◌≡◌, refl, ◌∙◌, true, false, Option, none, some, ◌==◌, ◌!=◌, if◌then◌else◌,
  Text, bit_or, bit_and, ltb,
}
use art_hook.Machine.{Mem, Res, Cmd, and_then, pure, undef, u32, u64, load_le, strcmp_at}
use art_hook.Machine.Laws.{
  Ensures, returns, undefined, out_of_fuel, bind, branch, weaken, Keeps, Keeps-load_le, Keeps-bind,
  Keeps-strcmp_at, at_return, observe,
}
use art_hook.Elf.Image.{Elf, st_name}
use art_hook.Elf.Symbols.{
  names, hash_walk, hash_lookup, gnu_chain_walk, gnu_hash_lookup_def, undef_walk,
  gnu_hash_lookup_undef, gnu_hash_lookup, find_symidx_by_name,
}

module _ (self : Elf) (symbol : Text) (m : Mem) where
  -- Symbol `i` of the table has the name.
  abbrev pub IsNamed : ℕ → Type 0
  IsNamed i = names self symbol i m ≡ Res.done true m

  -- What a lookup gives: no symbol, or one of the name.
  abbrev pub Found : Option ℕ → Type 0
  Found none = Unit {0}
  Found (some i) = IsNamed i

  abbrev Finds : Res (Option ℕ) → Type 0
  Finds r = Ensures (λ o n. (n ≡ m) × Found o) (λ n. n ≡ m) r

  pub Keeps-names : (i : ℕ) → Keeps m (names self symbol i m)
  unfolding names
  Keeps-names i = Keeps-bind m _ _ (Keeps-load_le 4 _ m) (λ name. Keeps-strcmp_at symbol _ m)

  Finds-load :
      (n a : ℕ) (k : ℕ → Cmd (Option ℕ))
      → ((w : ℕ) → Finds (k w m))
      → Finds (and_then (load_le n a m) k)
  Finds-load n a k next = bind (Keeps-load_le n a m) (λ w l e. rw e (next w))

  Finds-hash_walk : (fuel i : ℕ) → Finds (hash_walk fuel self symbol i m)
  unfolding hash_walk
  Finds-hash_walk zero i = out_of_fuel
  Finds-hash_walk (suc fuel) i =
      branch (i == 0) (pure none) _ m (λ _. returns (refl, tt))
        λ _. bind (observe m _ (Keeps-names i)) λ hit n h. rw h.0 (
          branch hit (pure (some i)) _ m (λ on. returns (refl, h.1 ∙ rw on))
            λ _. Finds-load 4 _ _ (λ w. Finds-hash_walk fuel w))

  Finds-undef_walk : (n i : ℕ) → Finds (undef_walk n i self symbol m)
  unfolding undef_walk
  Finds-undef_walk zero i = returns (refl, tt)
  Finds-undef_walk (suc n) i = bind (observe m _ (Keeps-names i)) λ hit k h. rw h.0 (
      branch hit (pure (some i)) _ m (λ on. returns (refl, h.1 ∙ rw on))
        λ _. Finds-undef_walk n (i + 1))

  IsNamed-parts :
      (i name : ℕ)
      → st_name self.symtab i m ≡ Res.done name m
      → strcmp_at symbol (u64 (self.strtab + name)) m ≡ Res.done true m
      → IsNamed i
  unfolding names
  IsNamed-parts i name e e' = rw (e, names) e'

  Finds-gnu_chain_walk : (fuel hash i : ℕ) → Finds (gnu_chain_walk fuel self symbol hash i m)
  unfolding gnu_chain_walk
  Finds-gnu_chain_walk zero hash i = out_of_fuel
  Finds-gnu_chain_walk (suc fuel) hash i = bind (observe m _ (Keeps-load_le 4 _ m)) λ name n h.
      rw h.0 (
        Finds-load 4 _ _ λ symhash.
          bind {P = λ hit l. (l ≡ m) × (hit ≡ true → IsNamed i)} (hits hash symhash name h.1)
            λ hit l h'. rw h'.0 (
              branch hit (pure (some i)) _ m (λ on. returns (refl, h'.1 on))
                λ _.
                  branch (bit_and symhash 1 != 0) (pure none) _ m (λ _. returns (refl, tt))
                    λ _. Finds-gnu_chain_walk fuel hash (u32 (i + 1))))
    where
      hits :
          (hash symhash name : ℕ)
          → st_name self.symtab i m ≡ Res.done name m
          → Ensures
              (λ hit l. (l ≡ m) × (hit ≡ true → IsNamed i))
              (λ l. l ≡ m)
              ((if bit_or hash 1 == bit_or symhash 1
                  then strcmp_at symbol (u64 (self.strtab + name))
                  else pure false)
                m)
      hits hash symhash name e =
          branch (bit_or hash 1 == bit_or symhash 1) _ _ m
            (λ _.
              weaken (observe m _ (Keeps-strcmp_at symbol _ m))
                (λ hit l h'. (h'.0, λ (on : hit ≡ true). IsNamed-parts i name e (h'.1 ∙ rw on)))
                (λ l f. f))
            (λ _. returns (refl, λ (on : false ≡ true). cc))

  Finds-hash_lookup : (fuel : ℕ) → Finds (hash_lookup fuel self symbol m)
  unfolding hash_lookup
  Finds-hash_lookup fuel =
      branch (self.bucket_cnt == 0) undef _ m (λ _. undefined)
        λ _. Finds-load 4 _ _ (λ i. Finds-hash_walk fuel i)

  Finds-gnu_hash_lookup_def : (fuel : ℕ) → Finds (gnu_hash_lookup_def fuel self symbol m)
  unfolding gnu_hash_lookup_def
  Finds-gnu_hash_lookup_def fuel =
      branch (self.bloom_sz == 0) undef _ m (λ _. undefined)
        λ _.
          branch (ltb self.bloom_shift 32) _ undef m
            (λ _. Finds-load 8 _ _ λ word.
              branch (bit_and word _ != _) (pure none) _ m (λ _. returns (refl, tt))
                λ _.
                  branch (self.bucket_cnt == 0) undef _ m (λ _. undefined)
                    λ _. Finds-load 4 _ _ λ i.
                      branch (ltb i self.symoffset) (pure none) _ m (λ _. returns (refl, tt))
                        λ _. Finds-gnu_chain_walk fuel _ i)
            (λ _. undefined)

  Finds-gnu_hash_lookup : (fuel : ℕ) → Finds (gnu_hash_lookup fuel self symbol m)
  unfolding gnu_hash_lookup gnu_hash_lookup_undef
  Finds-gnu_hash_lookup fuel = bind (Finds-gnu_hash_lookup_def fuel) next
    where
      next :
          (o : Option ℕ) (n : Mem)
          → (n ≡ m) × Found o
          → Finds (
              (elim o as (λ _. Cmd (Option ℕ)) [
                | some i ↦ pure (some i)
                | none ↦ gnu_hash_lookup_undef self symbol
              ])
                n)
      next none n h = rw h.0 (Finds-undef_walk self.symoffset 0)
      next (some i) n h = returns h

  pub Finds-find_symidx : (fuel : ℕ) → Finds (find_symidx_by_name fuel self symbol m)
  unfolding find_symidx_by_name
  Finds-find_symidx fuel =
      branch self.is_use_gnu_hash (gnu_hash_lookup fuel self symbol) (hash_lookup fuel self symbol)
        m (λ _. Finds-gnu_hash_lookup fuel) (λ _. Finds-hash_lookup fuel)

  -- A symbol index that the lookup returns, by either kind of hash table, is the index of a symbol
  -- whose name in the string table is the name that was asked for; and a lookup leaves the memory
  -- as it was.
  pub find_symidx-IsNamed :
      (fuel : ℕ) (n : Mem) (o : Option ℕ)
      → find_symidx_by_name fuel self symbol m ≡ Res.done o n
      → (n ≡ m) × Found o
  find_symidx-IsNamed fuel n o e = at_return (rw e at (Finds-find_symidx fuel))

-- ===== src/Elf/Init/Laws.antt =====
-- What `xh_elf_init` establishes for the object that it fills.
use art_hook.Base.{
  ℕ, zero, suc, ◌+◌, ◌-◌, ◌/◌, ◌≤◌, ◌≡◌, ◌≢◌, refl, ◌⊎◌, inl, inr, Bool, true, false, none, some,
  arith, ◌==◌, ◌!=◌, ltb, if◌then◌else◌, Text, [], ◌∷◌,
}
use art_hook.Machine.{u32, u64, null, Mem, Res, Cmd, and_then, pure, load_le, load64, ◌>>=◌}
use art_hook.Machine.Laws.{
  Ensures, returns, faults, undefined, out_of_fuel, bind, branch, on_option, weaken, forget,
  at_return, Keeps-load_le,
}
use art_hook.Elf.Image.{
  Elf, cleared, err_format, err_inval, p_vaddr, get_first_segment_by_type,
  get_first_segment_by_type_offset,
}
use art_hook.Elf.Header.{memcmp_at}
use art_hook.Elf.Init.{
  check, Tag, tag_null, strtab, symtab, pltrel, jmprel, pltrelsz, rel, relsz, android_rel,
  android_relsz, hash, gnu_hash, other, tag_of, Round, continue, break, return, placed, dyn_case,
  reads_value, dyn_loop, finish, check_android, parse_dynamic, find_bias, elf_init, pt_load,
  pt_dynamic,
}

-- A pointer that was never set, or one that does not lie below the base address.
abbrev pub Inside : Elf → ℕ → Type 0
Inside self p = (p ≡ null) ⊎ (self.base_addr ≤ p)

-- The table of packed relocations: there is none, or it is what stands behind the magic of a table
-- in the image.
abbrev pub Packed : Elf → ℕ → Type 0
Packed self p = (p ≡ null) ⊎ ((table : ℕ) × (self.base_addr ≤ table) × (p ≡ u64 (table + 4)))

-- The tables of the image are inside it, the packed one with its magic.
abbrev pub Placed : (pathname : Text) (base_addr : ℕ) → Elf → Type 0
Placed pathname base_addr self = record {
  named : self.pathname ≡ some pathname;
  based : self.base_addr ≡ base_addr;
  strings : Inside self self.strtab;
  symbols : Inside self self.symtab;
  plt : Inside self self.relplt;
  dynamic : Inside self self.reldyn;
  packed : Inside self self.relandroid;
}

-- The table behind its magic.
abbrev stripped : Elf → Elf
stripped self = record self {
  relandroid = u64 (self.relandroid + 4);
  relandroid_sz = self.relandroid_sz - 4;
}

module _ (pathname : Text) (base_addr : ℕ) where
  abbrev Going : Round → Type 0
  Going (continue self) = Placed pathname base_addr self
  Going (break self) = Placed pathname base_addr self
  Going (return r self) = r ≡ err_format

  abbrev Quiet : {A : Type 0} → (A → Type 0) → Res A → Type 0
  Quiet {A} P r = Ensures {A = A} (λ a n. P a) (λ n. Unit {0}) r

  any : {A : Type 0} (r : Res A) → Quiet (λ _. Unit {0}) r
  any (Res.done a m) = returns tt
  any (Res.segv m) = faults tt
  any Res.undefined = undefined
  any Res.out_of_fuel = out_of_fuel

  load_then :
      {A : Type 0} (n a : ℕ) (m : Mem) (k : ℕ → Cmd A) (P : A → Type 0)
      → ((v : ℕ) (m : Mem) → Quiet P (k v m))
      → Quiet P (and_then (load_le n a m) k)
  load_then n a m k P h = bind (forget (Keeps-load_le n a m)) (λ v l _. h v l)

  Going-placed :
      (self : Elf) (addr : ℕ) (write : Elf → Elf)
      → (self.base_addr ≤ addr → Placed pathname base_addr (write self))
      → Going (placed self addr write)
  unfolding placed
  Going-placed self addr write h = cases (ltb addr self.base_addr) refl
    where
      cases :
          (b : Bool)
          → ltb addr self.base_addr ≡ b
          → Going (if b then return err_format (write self) else continue (write self))
      cases true e = refl
      cases false e = h (ground arith)

  -- `raw` is a place in the image, and the words there are read.
  Going-table :
      (self : Elf) (raw : ℕ) (rest : Cmd Round) (m : Mem)
      → Quiet Going (rest m)
      → Quiet Going ((if ltb raw self.base_addr then pure (return err_format self) else rest) m)
  Going-table self raw rest m h =
      branch (ltb raw self.base_addr) (pure (return err_format self)) rest m (λ _. returns refl)
        (λ _. h)

  Going-dyn_case :
      (self : Elf) (tag : Tag) (d : ℕ) (m : Mem)
      → Placed pathname base_addr self
      → Quiet Going (dyn_case self tag d m)
  unfolding dyn_case
  Going-dyn_case self tag_null d m h = returns h
  Going-dyn_case self strtab d m h =
      let p = u64 (self.bias_addr + d) in
      returns (
        Going-placed self p (λ s. record s { strtab = p })
          (λ in_image. record {
            named = h.named;
            based = h.based;
            strings = inr in_image;
            symbols = h.symbols;
            plt = h.plt;
            dynamic = h.dynamic;
            packed = h.packed;
          }))
  Going-dyn_case self symtab d m h =
      let p = u64 (self.bias_addr + d) in
      returns (
        Going-placed self p (λ s. record s { symtab = p })
          (λ in_image. record {
            named = h.named;
            based = h.based;
            strings = h.strings;
            symbols = inr in_image;
            plt = h.plt;
            dynamic = h.dynamic;
            packed = h.packed;
          }))
  Going-dyn_case self pltrel d m h = returns h
  Going-dyn_case self jmprel d m h =
      let p = u64 (self.bias_addr + d) in
      returns (
        Going-placed self p (λ s. record s { relplt = p })
          (λ in_image. record {
            named = h.named;
            based = h.based;
            strings = h.strings;
            symbols = h.symbols;
            plt = inr in_image;
            dynamic = h.dynamic;
            packed = h.packed;
          }))
  Going-dyn_case self pltrelsz d m h = returns h
  Going-dyn_case self rel d m h =
      let p = u64 (self.bias_addr + d) in
      returns (
        Going-placed self p (λ s. record s { reldyn = p })
          (λ in_image. record {
            named = h.named;
            based = h.based;
            strings = h.strings;
            symbols = h.symbols;
            plt = h.plt;
            dynamic = inr in_image;
            packed = h.packed;
          }))
  Going-dyn_case self relsz d m h = returns h
  Going-dyn_case self android_rel d m h =
      let p = u64 (self.bias_addr + d) in
      returns (
        Going-placed self p (λ s. record s { relandroid = p })
          (λ in_image. record {
            named = h.named;
            based = h.based;
            strings = h.strings;
            symbols = h.symbols;
            plt = h.plt;
            dynamic = h.dynamic;
            packed = inr in_image;
          }))
  Going-dyn_case self android_relsz d m h = returns h
  Going-dyn_case self hash d m h =
      branch self.is_use_gnu_hash (pure (continue self)) _ m (λ _. returns h)
        λ _.
          Going-table self (u64 (self.bias_addr + d)) _ m
            (load_then 4 _ m _ Going λ v l. load_then 4 _ l _ Going (λ v l. returns h))
  Going-dyn_case self gnu_hash d m h = Going-table self (u64 (self.bias_addr + d)) _ m (
      load_then 4 _ m _ Going λ v l.
        load_then 4 _ l _ Going
          λ v l. load_then 4 _ l _ Going λ v l. load_then 4 _ l _ Going (λ v l. returns h))
  Going-dyn_case self other d m h = returns h

  on_round :
      {A : Type 0} {P : A → Type 0} (r : Round) (go stop : Elf → Cmd A) (out : ℕ → Elf → Cmd A)
      (m : Mem)
      → Going r
      → ((self : Elf) → Placed pathname base_addr self → Quiet P (go self m))
      → ((self : Elf) → Placed pathname base_addr self → Quiet P (stop self m))
      → ((self : Elf) → Quiet P (out err_format self m))
      → Quiet P (
          (elim r as (λ _. Cmd A) [
            | continue self ↦ go self
            | break self ↦ stop self
            | return code self ↦ out code self
          ])
            m)
  on_round (continue self) go stop out m h on_go on_stop on_out = on_go self h
  on_round (break self) go stop out m h on_go on_stop on_out = on_stop self h
  on_round (return code self) go stop out m h on_go on_stop on_out = rw h (on_out self)

  Going-dyn_loop :
      (n dyn : ℕ) (self : Elf) (m : Mem)
      → Placed pathname base_addr self
      → Quiet Going (dyn_loop n dyn self m)
  unfolding dyn_loop
  Going-dyn_loop zero dyn self m h = returns h
  Going-dyn_loop (suc n) dyn self m h = load_then 8 _ m _ Going λ d_tag l.
      bind (any ((if reads_value (tag_of d_tag) self then load64 (dyn + 8) else pure 0) l)) λ d l _.
        bind (Going-dyn_case self (tag_of d_tag) d l h) λ r l g.
          on_round r (λ s. dyn_loop n (dyn + 16) s) (λ s. pure (break s)) (λ c s. pure (return c s))
            l g (λ s h'. Going-dyn_loop n (dyn + 16) s l h') (λ s h'. returns h')
            (λ s. returns refl)

  -- What a return of 0 leaves.
  abbrev pub Ready : Elf → Type 0
  Ready self = record {
    named : self.pathname ≡ some pathname;
    based : self.base_addr ≡ base_addr;
    strings : base_addr ≤ self.strtab;
    symbols : base_addr ≤ self.symtab;
    plt : Inside self self.relplt;
    dynamic : Inside self self.reldyn;
    packed : Packed self self.relandroid;
    hashed : (self.bias_addr ≢ 0) × ((self.bucket ≢ null) × (self.chain ≢ null));
    filtered : (self.is_use_gnu_hash ≡ false) ⊎ (self.bloom ≢ null);
  }

  abbrev pub Finished : ℕ × Elf → Type 0
  Finished (r, self) = (r ≡ err_format) ⊎ ((r ≡ 0) × Ready self)

  -- The tables of the image but the packed one.
  abbrev Tables : Elf → Type 0
  Tables self = record {
    named : self.pathname ≡ some pathname;
    based : self.base_addr ≡ base_addr;
    strings : Inside self self.strtab;
    symbols : Inside self self.symtab;
    plt : Inside self self.relplt;
    dynamic : Inside self self.reldyn;
  }

  tables : (self : Elf) → Placed pathname base_addr self → Tables self
  tables self h = record {
    named = h.named;
    based = h.based;
    strings = h.strings;
    symbols = h.symbols;
    plt = h.plt;
    dynamic = h.dynamic;
  }

  Ready-check :
      (self : Elf) → Tables self → Packed self self.relandroid → check self ≡ 0 → Ready self
  unfolding check
  Ready-check self h packed passed = record {
    named = h.named;
    based = h.based;
    strings = ground (arith, h.strings, h.based);
    symbols = ground (arith, h.symbols, h.based);
    plt = h.plt;
    dynamic = h.dynamic;
    packed = packed;
    hashed = ground arith;
    filtered = ground arith;
  }

  Finished-finish :
      (self : Elf) (m : Mem)
      → Tables self
      → Packed self self.relandroid
      → Quiet Finished (finish self m)
  unfolding finish
  Finished-finish self m h packed =
      branch (check self != 0) (pure (err_format, self)) (pure (0, self)) m
        (λ _. returns (inl refl))
        (λ passed. returns (inr (refl, Ready-check self h packed (ground arith))))

  inside :
      (self : Elf)
      → Placed pathname base_addr self
      → (self.relandroid == 0) ≡ false
      → self.base_addr ≤ self.relandroid
  inside self h present = ground (arith, h.packed, present)

  Finished-check_android :
      (self : Elf) (m : Mem)
      → Placed pathname base_addr self
      → Quiet Finished (check_android self m)
  unfolding check_android
  Finished-check_android self m h =
      branch (self.relandroid == 0) (finish self) _ m
        (λ none_packed. Finished-finish self m (tables self h) (inl (ground (arith, none_packed))))
        λ some_packed.
          branch (ltb self.relandroid_sz 4) (pure (err_format, self)) _ m (λ _. returns (inl refl))
            λ _.
              bind (any (memcmp_at (b'A' ∷ b'P' ∷ b'S' ∷ b'2' ∷ []) self.relandroid m)) λ magic l _.
                branch magic (finish (stripped self)) (pure (err_format, self)) l
                  (λ _.
                    Finished-finish (stripped self) l (tables self h)
                      (inr (self.relandroid, inside self h some_packed, refl)))
                  (λ _. returns (inl refl))

  Finished-parse_dynamic :
      (self : Elf) (dhdr : ℕ) (m : Mem)
      → Placed pathname base_addr self
      → Quiet Finished (parse_dynamic self dhdr m)
  unfolding parse_dynamic
  Finished-parse_dynamic self dhdr m h = load_then 8 _ m _ Finished λ vaddr l.
      load_then 8 _ l _ Finished λ memsz l.
        bind
          (Going-dyn_loop (u32 memsz / 16) (u64 (self.bias_addr + vaddr))
            (record self { dyn = u64 (self.bias_addr + vaddr); dyn_sz = u32 memsz }) l h)
          λ r l g.
            on_round r check_android check_android (λ c s. pure (c, s)) l g
              (λ s h'. Finished-check_android s l h') (λ s h'. Finished-check_android s l h')
              (λ s. returns (inl refl))

  -- The rest of `find_bias` once the address of the first load segment is read.
  abbrev from_vaddr : Elf → ℕ → Cmd (ℕ × Elf)
  from_vaddr self vaddr =
      let biased = record self { bias_addr = self.base_addr - vaddr } in
      let rest = do
        dhdr ← get_first_segment_by_type biased pt_dynamic
        elim dhdr as (λ _. Cmd (ℕ × Elf)) [
          | none ↦ pure (err_format, biased)
          | some dhdr ↦ parse_dynamic biased dhdr
        ]
      in if ltb self.base_addr vaddr then pure (err_format, self) else rest

  Finished-from_vaddr :
      (self : Elf) (vaddr : ℕ) (m : Mem)
      → Placed pathname base_addr self
      → Quiet Finished (from_vaddr self vaddr m)
  Finished-from_vaddr self vaddr m h =
      let biased : Elf = record self { bias_addr = self.base_addr - vaddr } in
      branch (ltb self.base_addr vaddr) (pure (err_format, self)) _ m (λ _. returns (inl refl))
        λ _. bind (any (get_first_segment_by_type biased pt_dynamic m)) λ dhdr l _.
          on_option dhdr (pure (err_format, biased)) (λ dhdr. parse_dynamic biased dhdr) l
            (returns (inl refl)) (λ dhdr. Finished-parse_dynamic biased dhdr l h)

  Finished-find_bias :
      (self : Elf) (m : Mem) → Placed pathname base_addr self → Quiet Finished (find_bias self m)
  unfolding find_bias
  Finished-find_bias self m h =
      bind (any (get_first_segment_by_type_offset self pt_load 0 m)) λ phdr0 l _.
        on_option phdr0 (pure (err_format, self)) (λ phdr0. p_vaddr phdr0 >>= from_vaddr self) l
          (returns (inl refl))
          (λ phdr0.
            load_then 8 (phdr0 + 16) l (from_vaddr self) Finished
              (λ vaddr l. Finished-from_vaddr self vaddr l h))

  pub elf_init-Finished :
      (self e : Elf) (r : ℕ) (m n : Mem)
      → elf_init self base_addr (some pathname) m ≡ Res.done (r, e) n
      → Finished (r, e) ⊎ ((r ≡ err_inval) × (base_addr ≡ 0))
  unfolding elf_init
  elf_init-Finished self e r m n run = at_return (rw run at inits)
    where
      inits :
          Quiet
            (λ x. Finished x ⊎ ((x.0 ≡ err_inval) × (base_addr ≡ 0)))
            (elf_init self base_addr (some pathname) m)
      inits =
          branch (base_addr == 0) (pure (err_inval, self)) _ m
            (λ zero_base. returns (inr (refl, ground arith)))
            (λ _. load_then 8 _ m _ _ λ phoff l.
              weaken
                (Finished-find_bias
                  (record cleared {
                    pathname = some pathname;
                    base_addr = base_addr;
                    ehdr = base_addr;
                    phdr = u64 (base_addr + phoff);
                  })
                  l
                  (record {
                    named = refl;
                    based = refl;
                    strings = inl refl;
                    symbols = inl refl;
                    plt = inl refl;
                    dynamic = inl refl;
                    packed = inl refl;
                  }))
                (λ x n f. inl f) (λ n f. f))

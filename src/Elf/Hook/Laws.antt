-- ===== src/Elf/Hook/Laws.antt =====
-- What `xh_elf_hook` leaves of memory, and that the loop over a plain table ends.
use art_hook.Base.{
  ℕ, zero, suc, ◌+◌, ◌<◌, ◌≡◌, refl, ◌⊎◌, inl, Bool, true, false, Option, arith, ◌&&◌, ◌==◌, ◌!=◌,
  ltb, if◌then◌else◌, Text,
}
use art_hook.Machine.{u32, u64, null, Mem, pure, ◌>>=◌}
use art_hook.Machine.Laws.{
  Ensures, returns, out_of_fuel, branch, on_option, weaken, Keeps, Keeps-bind, Keeps-load_le,
}
use art_hook.Machine.Stores.{Outside, Spares, Spares-bind, Spares-Keeps}
use art_hook.Maps.Protect.{Kernel}
use art_hook.Reloc.Plain.{PlainIterator, plain_init, plain_next}
use art_hook.Reloc.Packed.{PackedIterator}
use art_hook.Reloc.Packed.Laws.{Keeps-packed_next, Keeps-packed_init}
use art_hook.Elf.Image.{Elf, err_format, err_elfinit, err_inval}
use art_hook.Elf.Symbols.Laws.{Finds-find_symidx}
use art_hook.Elf.Replace.{replace_function}
use art_hook.Elf.Replace.Laws.{KeepsBytes, Spares-replace_function}
use art_hook.Elf.Hook.{
  RelCommon, at, unpacked, read_reloc, targets, find_and_replace_func, plain_loop, packed_loop,
  hook_plain, hook_packed, hook_tables, elf_hook,
}

Keeps-read_reloc : (r : RelCommon) (m : Mem) → Keeps m (read_reloc r m)
unfolding read_reloc
Keeps-read_reloc (at p) m =
    Keeps-bind m _ _ (Keeps-load_le 8 (p + 8) m)
      λ info. Keeps-bind m _ _ (Keeps-load_le 8 p m) (λ offset. returns refl)
Keeps-read_reloc (unpacked e) m = returns refl

module _ (k : Kernel) (laws : KeepsBytes k) (self : Elf) (new_func old_func : ℕ) where
  -- The addresses below the image, less the place for the old function.
  abbrev pub Foreign : ℕ → Type 0
  Foreign x = (x < self.base_addr) × ((old_func ≡ null) ⊎ Outside 8 old_func x)

  Spares-place :
      (addr : ℕ) (m : Mem)
      → Spares {A = ℕ × Bool} Foreign m (
          (if ltb addr self.base_addr
              then pure (err_format, true)
              else (do r ← replace_function k self.pathname addr new_func old_func; pure (r, true)))
            m)
  Spares-place addr m =
      branch (ltb addr self.base_addr) (pure (err_format, true)) _ m (λ _. returns (λ x s. refl))
        λ inside.
          Spares-bind Foreign m (replace_function k self.pathname addr new_func old_func m)
            (λ r. pure (r, true))
            (weaken (Spares-replace_function k laws addr new_func old_func self.pathname m)
              (λ r n same x s. same x (inl (ground arith), s.1))
              (λ n same x s. same x (inl (ground arith), s.1)))
            (λ r n. returns (λ x s. refl))

  Spares-find_and_replace_func :
      (symidx : ℕ) (is_plt : Bool) (rel : RelCommon) (m : Mem)
      → Spares Foreign m (find_and_replace_func k self new_func old_func symidx is_plt rel m)
  unfolding find_and_replace_func
  Spares-find_and_replace_func symidx is_plt rel m =
      Spares-bind Foreign m _ _ (Spares-Keeps Foreign m _ (Keeps-read_reloc rel m)) λ e n.
        branch (targets is_plt symidx e.0) _ (pure (0, false)) n
          (λ _. Spares-place (u64 (self.bias_addr + e.1)) n) (λ _. returns (λ x s. refl))

  Spares-plain_loop :
      (symidx rounds : ℕ) (is_plt : Bool) (iter : PlainIterator) (m : Mem)
      → Spares Foreign m (plain_loop k self new_func old_func symidx rounds is_plt iter m)
  unfolding plain_loop
  Spares-plain_loop symidx zero is_plt iter m = out_of_fuel
  Spares-plain_loop symidx (suc rounds) is_plt iter m =
      on_option (plain_next iter).0 (pure 0) _ m (returns (λ x s. refl)) λ p.
        Spares-bind Foreign m _ _ (Spares-find_and_replace_func symidx is_plt (at p) m) λ f n.
          branch (f.0 != 0) _ _ n (λ _. returns (λ x s. refl))
            λ _.
              branch (is_plt && f.1) _ _ n (λ _. returns (λ x s. refl))
                λ _. Spares-plain_loop symidx rounds is_plt (plain_next iter).1 n

  Spares-packed_loop :
      (symidx rounds : ℕ) (iter : PackedIterator) (m : Mem)
      → Spares Foreign m (packed_loop k self new_func old_func symidx rounds iter m)
  unfolding packed_loop
  Spares-packed_loop symidx zero iter m = out_of_fuel
  Spares-packed_loop symidx (suc rounds) iter m =
      Spares-bind Foreign m _ _ (Spares-Keeps Foreign m _ (Keeps-packed_next m iter)) λ e n.
        on_option e.0 (pure 0) _ n (returns (λ x s. refl)) λ r.
          Spares-bind Foreign n _ _ (Spares-find_and_replace_func symidx false (unpacked r) n)
            λ f n'.
              branch (f.0 != 0) _ _ n' (λ _. returns (λ x s. refl))
                (λ _. Spares-packed_loop symidx rounds e.1 n')

  Spares-hook_plain :
      (symidx : ℕ) (is_plt : Bool) (table table_sz : ℕ) (m : Mem)
      → Spares Foreign m (hook_plain k self new_func old_func symidx is_plt table table_sz m)
  unfolding hook_plain
  Spares-hook_plain symidx is_plt table table_sz m =
      branch (table == 0) (pure 0) _ m (λ _. returns (λ x s. refl))
        λ _.
          Spares-plain_loop symidx (suc (u32 table_sz)) is_plt
            (plain_init table table_sz self.is_use_rela) m

  Spares-hook_packed :
      (symidx fuel : ℕ) (m : Mem)
      → Spares Foreign m (hook_packed k self new_func old_func symidx fuel m)
  unfolding hook_packed
  Spares-hook_packed symidx fuel m =
      branch (self.relandroid == 0) (pure 0) _ m (λ _. returns (λ x s. refl))
        λ _.
          Spares-bind Foreign m _ _
            (Spares-Keeps Foreign m _
              (Keeps-packed_init m self.relandroid self.relandroid_sz self.is_use_rela))
            (λ e n. Spares-packed_loop symidx fuel e.1 n)

  Spares-hook_tables :
      (symidx fuel : ℕ) (m : Mem)
      → Spares Foreign m (hook_tables k self new_func old_func symidx fuel m)
  unfolding hook_tables
  Spares-hook_tables symidx fuel m =
      Spares-bind Foreign m _ _ (Spares-hook_plain symidx true self.relplt self.relplt_sz m) λ r n.
        branch (r != 0) _ _ n (λ _. returns (λ x s. refl))
          λ _.
            Spares-bind Foreign n _ _ (Spares-hook_plain symidx false self.reldyn self.reldyn_sz n)
              λ r n'.
                branch (r != 0) _ _ n' (λ _. returns (λ x s. refl))
                  (λ _. Spares-hook_packed symidx fuel n')

  Spares-elf_hook :
      (fuel : ℕ) (symbol : Option Text) (m : Mem)
      → Spares Foreign m (elf_hook k fuel self symbol new_func old_func m)
  unfolding elf_hook
  Spares-elf_hook fuel symbol m =
      on_option self.pathname (pure err_elfinit) _ m (returns (λ x s. refl)) λ _.
        on_option symbol (pure err_inval) _ m (returns (λ x s. refl)) λ name.
          branch (new_func == null) (pure err_inval) _ m (λ _. returns (λ x s. refl))
            λ _.
              Spares-bind Foreign m _ _
                (weaken (Finds-find_symidx self name m fuel) (λ o n h x s. rw h.0)
                  (λ n e x s. rw e))
                (λ found n.
                  on_option found (pure 0) _ n (returns (λ x s. refl))
                    (λ symidx. Spares-hook_tables symidx fuel n))

  -- However `xh_elf_hook` ends, by a code or by SIGSEGV half way, and whatever the tables contain, a
  -- byte below the base address of the image is as before, unless it is one of the eight of an
  -- `old_func` that was given. It is supposed that `mprotect` changes no byte.
  pub elf_hook-below_base :
      (fuel : ℕ) (symbol : Option Text) (m : Mem) (x : ℕ)
      → x < self.base_addr
      → (old_func ≡ null) ⊎ Outside 8 old_func x
      → Ensures
          (λ r n. n.cell x ≡ m.cell x)
          (λ n. n.cell x ≡ m.cell x)
          (elf_hook k fuel self symbol new_func old_func m)
  elf_hook-below_base fuel symbol m x below apart =
      weaken (Spares-elf_hook fuel symbol m) (λ r n same. same x (below, apart))
        (λ n same. same x (below, apart))

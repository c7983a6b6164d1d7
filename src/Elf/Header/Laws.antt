-- ===== src/Elf/Header/Laws.antt =====
-- What an accepted ELF header has in memory.
use art_hook.Base.{
  ℕ, ◌+◌, ◌≡◌, refl, ◌⊎◌, inl, inr, Bool, true, false, some, arith, [], ◌∷◌, ◌&&◌, ◌==◌, ◌!=◌,
  if◌then◌else◌, Text,
}
use art_hook.Machine.{Mem, Res, Cmd, pure, load_le, ◌>>=◌}
use art_hook.Machine.Laws.{Ensures, returns, bind, branch, weaken, at_return}
use art_hook.Machine.Stores.{peek, peek-load_le, load8-Ensures}
use art_hook.Elf.Image.{err_format}
use art_hook.Elf.Header.{
  memcmp_at, elf_magic, elf_class64, elf_data2lsb, ev_current, et_exec, et_dyn, em_aarch64,
  check_elfheader,
}

-- The bytes of `s` stand at `a`.
abbrev pub Reads : Text → ℕ → Mem → Type 0
Reads [] a m = Unit {0}
Reads (c ∷ s) a m = (m.cell a ≡ some c) × Reads s (a + 1) m

memcmp_at-Reads :
    (s : Text) (a : ℕ) (m : Mem)
    → Ensures
        (λ hit n. (n ≡ m) × ((hit ≡ true → Reads s a m) × (hit ≡ false → Reads s a m → ⊥)))
        (λ n. n ≡ m)
        (memcmp_at s a m)
unfolding memcmp_at
memcmp_at-Reads [] a m = returns (refl, (λ _. tt, λ (off : true ≡ false). λ _. cc))
memcmp_at-Reads (c ∷ s) a m = bind (load8-Ensures a m) λ b n h. rw h.0 (
    branch (b == c) (memcmp_at s (a + 1)) (pure false) m
      (λ same.
        weaken (memcmp_at-Reads s (a + 1) m)
          (λ hit l h'.
            (h'.0, (λ on. (ground (arith, h.1), h'.1.0 on), λ off reads. h'.1.1 off reads.1)))
          (λ l f. f))
      (λ other.
        returns (refl, (λ (on : false ≡ true). cc, λ _ reads. ground (arith, h.1, reads.0)))))

-- The fields of <elf.h> by their offsets: the magic, ELFCLASS64, ELFDATA2LSB and EV_CURRENT of
-- `e_ident`; `e_type` ET_EXEC or ET_DYN; `e_machine` EM_AARCH64; `e_version` EV_CURRENT.
pub record IsAarch64Image (base_addr : ℕ) (m : Mem) : Type 0 where
  pub ident : Reads (0x7f ∷ 0x45 ∷ 0x4c ∷ 0x46 ∷ 2 ∷ 1 ∷ 1 ∷ []) base_addr m
  pub type : (peek 2 (base_addr + 16) m ≡ some 2) ⊎ (peek 2 (base_addr + 16) m ≡ some 3)
  pub machine : peek 2 (base_addr + 18) m ≡ some 183
  pub version : peek 4 (base_addr + 20) m ≡ some 1

module _ (base_addr : ℕ) (m : Mem) where
  -- A return of the check: 0 for a header as above, XH_ERRNO_FORMAT for any other.
  abbrev pub Checked : ℕ → Mem → Type 0
  Checked r n =
      (n ≡ m)
      × (((r ≡ 0) × IsAarch64Image base_addr m) ⊎ ((r ≡ err_format) × ¬ IsAarch64Image base_addr m))

  abbrev Checks : Res ℕ → Type 0
  Checks r = Ensures Checked (λ n. n ≡ m) r

  reject :
      (bad : Bool) (rest : Cmd ℕ)
      → (bad ≡ true → ¬ IsAarch64Image base_addr m)
      → (bad ≡ false → Checks (rest m))
      → Checks ((if bad then pure err_format else rest) m)
  reject bad rest no_image h =
      branch bad (pure err_format) rest m (λ on. returns (refl, inr (refl, no_image on))) h

  Checks-check_elfheader : Checks (check_elfheader base_addr m)
  unfolding check_elfheader
  Checks-check_elfheader = bind (memcmp_at-Reads elf_magic base_addr m) λ magic n h. rw h.0 (
      branch magic _ (pure err_format) m
        (λ on. bind (load8-Ensures (base_addr + 4) m) λ class n h1. rw h1.0 (
          reject (class != elf_class64) _ (λ e image. ground (arith, image.ident, h1.1))
            λ e1. bind (load8-Ensures (base_addr + 5) m) λ encoding n h2. rw h2.0 (
              reject (encoding != elf_data2lsb) _ (λ e image. ground (arith, image.ident, h2.1))
                λ e2. bind (load8-Ensures (base_addr + 6) m) λ version n h3. rw h3.0 (
                  reject (version != ev_current) _ (λ e image. ground (arith, image.ident, h3.1))
                    λ e3.
                      fields (h.1.0 on) (ground (arith, h1.1)) (ground (arith, h2.1))
                        (ground (arith, h3.1))))))
        (λ off. returns (refl, inr (refl, λ image. h.1.1 off (starts image.ident)))))
    where
      starts :
          Reads (0x7f ∷ 0x45 ∷ 0x4c ∷ 0x46 ∷ 2 ∷ 1 ∷ 1 ∷ []) base_addr m
          → Reads elf_magic base_addr m
      starts (a, (b, (c, (d, rest)))) = (a, (b, (c, (d, tt))))

      fields :
          Reads elf_magic base_addr m
          → m.cell (base_addr + 4) ≡ some 2
          → m.cell (base_addr + 5) ≡ some 1
          → m.cell (base_addr + 6) ≡ some 1
          → Checks (
              (do
                type ← load_le 2 (base_addr + 16)
                (if (type != et_exec) && (type != et_dyn) then pure err_format else (do
                  machine ← load_le 2 (base_addr + 18)
                  (if machine != em_aarch64 then pure err_format else (do
                    version ← load_le 4 (base_addr + 20)
                    (if version != ev_current then pure err_format else pure 0))))))
                m)
      fields magic class encoding version = bind (peek-load_le 2 (base_addr + 16) m) λ t n h1.
          rw h1.0 (
            reject ((t != et_exec) && (t != et_dyn)) _ (λ e image. ground (arith, image.type, h1.1))
              λ e1. bind (peek-load_le 2 (base_addr + 18) m) λ machine n h2. rw h2.0 (
                reject (machine != em_aarch64) _ (λ e image. ground (arith, image.machine, h2.1))
                  λ e2. bind (peek-load_le 4 (base_addr + 20) m) λ v n h3. rw h3.0 (
                    reject (v != ev_current) (pure 0)
                      (λ e image. ground (arith, image.version, h3.1))
                      λ e3. returns (
                        refl,
                        inl (
                          refl,
                          record {
                            ident = ground (arith, magic, class, encoding, version);
                            type = ground (arith, h1.1);
                            machine = ground (arith, h2.1);
                            version = ground (arith, h3.1);
                          },
                        ),
                      ))))

-- Where the check returns, it returns 0 if the bytes at the base address are the header of a
-- little-endian 64-bit aarch64 executable or shared object, and XH_ERRNO_FORMAT if they are not; it
-- changes no memory.
pub check_elfheader-Checked :
    (base_addr r : ℕ) (m n : Mem)
    → check_elfheader base_addr m ≡ Res.done r n
    → Checked base_addr m r n
check_elfheader-Checked base_addr r m n run =
    at_return (rw run at (Checks-check_elfheader base_addr m))

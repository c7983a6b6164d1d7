-- ===== src/Elf/Header/Total.antt =====
-- `xh_elf_check_elfheader` of cpp/xhook/xh_elf.c decides a header that can be read.
use art_hook.Base.{
  ℕ, ◌+◌, ◌≤◌, ◌<◌, ◌≡◌, refl, ap, ◌∙◌, Bool, false, arith, [], ◌∷◌, ◌&&◌, ◌==◌, ◌!=◌, length,
  if◌then◌else◌, Text,
}
use art_hook.Machine.{Mem, Res, Cmd, pure, and_then, load8, load_le}
use art_hook.Machine.Total.{
  Total, total, Legible, Legible-sub, follow, split, arrives, found, load8-Legible, load_le-Legible,
}
use art_hook.Elf.Image.{err_format}
use art_hook.Elf.Header.{
  memcmp_at, elf_magic, elf_class64, elf_data2lsb, ev_current, et_exec, et_dyn, em_aarch64,
  check_elfheader,
}
use art_hook.Elf.Header.Laws.{Checked, check_elfheader-Checked}

abbrev Unmoved : {A : Type 0} → Mem → Res A → Type 0
Unmoved {A} m r = Total {A = A} (λ a n. n ≡ m) r

memcmp_at-Unmoved :
    (s : Text) (a : ℕ) (m : Mem) → Legible m (length s) a → Unmoved m (memcmp_at s a m)
unfolding memcmp_at
memcmp_at-Unmoved [] a m h = total refl
memcmp_at-Unmoved (c ∷ s) a m h =
    follow {P = λ b n. n ≡ m}
      (arrives (load8-Legible a m (h.shown a (omega arith) (omega arith))).1 refl)
      λ b n e. rw e (
        split (b == c) (memcmp_at s (a + 1)) (pure false) m
          (λ _.
            memcmp_at-Unmoved s (a + 1) m
              (Legible-sub (length s) (a + 1) h (omega arith) (omega arith)))
          (λ _. total refl))

module _ (base_addr : ℕ) (m : Mem) (h : Legible m 24 base_addr) where
  -- The byte, and the little-endian integer, at an offset.
  byte-Unmoved : (o : ℕ) → o < 24 → Unmoved m (load8 (base_addr + o) m)
  byte-Unmoved o inside =
      arrives (load8-Legible (base_addr + o) m (h.shown _ (omega arith) (omega arith))).1 refl

  field-Unmoved : (n o : ℕ) → o + n ≤ 24 → Unmoved m (load_le n (base_addr + o) m)
  field-Unmoved n o inside =
      arrives
        (load_le-Legible n (base_addr + o) m
          (Legible-sub n (base_addr + o) h (omega arith) (omega arith))).1
        refl

  -- A test of what was read, and the rest of the check.
  tested :
      {r : Res ℕ} (bad : ℕ → Bool) (rest : Cmd ℕ)
      → Unmoved m r
      → Unmoved m (rest m)
      → Unmoved m (and_then r (λ v. if bad v then pure err_format else rest))
  tested bad rest read more =
      follow read
        λ v n e. rw e (split (bad v) (pure err_format) rest m (λ _. total refl) (λ _. more))

  check_elfheader-Unmoved : Unmoved m (check_elfheader base_addr m)
  unfolding check_elfheader
  check_elfheader-Unmoved =
      follow
        (memcmp_at-Unmoved elf_magic base_addr m
          (Legible-sub 4 base_addr h (omega arith) (omega arith)))
        λ magic n e. rw e (
          split magic _ (pure err_format) m
            (λ _.
              tested (λ v. v != elf_class64) _ (byte-Unmoved 4 (omega arith))
                (tested (λ v. v != elf_data2lsb) _ (byte-Unmoved 5 (omega arith))
                  (tested (λ v. v != ev_current) _ (byte-Unmoved 6 (omega arith))
                    (tested (λ v. (v != et_exec) && (v != et_dyn)) _
                      (field-Unmoved 2 16 (omega arith))
                      (tested (λ v. v != em_aarch64) _ (field-Unmoved 2 18 (omega arith))
                        (tested (λ v. v != ev_current) (pure 0) (field-Unmoved 4 20 (omega arith))
                          (total refl)))))))
            (λ _. total refl))

  -- The check returns where the first 24 bytes can be read, and changes no memory: it returns 0 if
  -- they are the start of the header of a little-endian 64-bit aarch64 executable or shared object,
  -- and XH_ERRNO_FORMAT if they are not.
  pub check_elfheader-decides :
      (r : ℕ) × (check_elfheader base_addr m ≡ Res.done r m) × Checked base_addr m r m
  check_elfheader-decides =
      let (r, n, run, same) = found check_elfheader-Unmoved in
      let returned : check_elfheader base_addr m ≡ Res.done r m = run ∙ ap (Res.done r) same in
      (r, returned, check_elfheader-Checked base_addr r m m returned)

-- ===== src/Elf/Replace/Total.antt =====
-- `xh_elf_replace_function` of cpp/xhook/xh_elf.c succeeds where the kernel grants what it asks for.
use art_hook.Base.{
  ℕ, ◌+◌, ◌-◌, ◌*◌, ◌/◌, ◌^◌, ◌≤◌, ◌<◌, ◌≡◌, refl, ap, ◌∙◌, ◌⊎◌, inl, inr, Option, none, some,
  arith, ◌==◌, ◌!=◌, if◌then◌else◌, Text, Bool-cases,
}
use art_hook.Machine.{Mem, Res, pure, null, page, page_size, u64, store64}
use art_hook.Machine.Stores.{peek}
use art_hook.Machine.Total.{
  Total, total, Open, Opens, Usable, Usable-Opens, Lives, lives, Legible, follow, loosen, found,
  split, arrives, load_le-Legible, Lives-load_le, Lives-store_le,
}
use art_hook.Maps.Protect.{Kernel, get_addr_protect, set_addr_protect}
use art_hook.Elf.Replace.{swap_function, unlock, protect, replace_function}
use art_hook.Elf.Replace.Laws.{KeepsBytes, Apart, Swapped, Outcome, replace_function-Outcome}

-- `mprotect` on a range with the 8 bytes at `addr` succeeds: these bytes have the protection then,
-- and any page has it or is as before.
pub record Grants (k : Kernel) (addr : ℕ) : Type 0 where
  pub granted :
      (start len prot : ℕ) (m : Mem)
      → start ≤ addr
      → addr + 8 ≤ start + len
      → ((k.mprotect start len prot m).0 ≡ none)
        × ((x : ℕ) → addr ≤ x → x < addr + 8 → (k.mprotect start len prot m).1.prot (page x) ≡ prot)
        × ((x : ℕ)
            → ((k.mprotect start len prot m).1.prot (page x) ≡ prot)
              ⊎ ((k.mprotect start len prot m).1.prot (page x) ≡ m.prot (page x)))

-- The range that is asked for has the 8 bytes.
covered :
    (addr : ℕ)
    → addr + 8 + page_size ≤ 2 ^ 64
    → (addr / page_size * page_size ≤ addr)
      × (addr + 8
          ≤ addr / page_size * page_size
            + u64 (
                u64 (u64 (addr + 7) / page_size * page_size + page_size)
                + 2 ^ 64
                - addr / page_size * page_size))
covered addr h = omega arith

module _ (k : Kernel) (laws : KeepsBytes k) (addr : ℕ) (grants : Grants k addr)
    (low : addr + 8 + page_size ≤ 2 ^ 64) where
  abbrev Granted : ℕ → Mem → ℕ → Mem → Type 0
  Granted prot m r n =
      (r ≡ 0)
      × ((x : ℕ) → addr ≤ x → x < addr + 8 → n.prot (page x) ≡ prot)
      × ((x : ℕ) → (n.prot (page x) ≡ prot) ⊎ (n.prot (page x) ≡ m.prot (page x)))
      × ((x : ℕ) → n.cell x ≡ m.cell x)

  set_addr_protect-Granted :
      (prot : ℕ) (m : Mem) → Total (Granted prot m) (set_addr_protect k addr prot m)
  unfolding set_addr_protect
  set_addr_protect-Granted prot m =
      let g = grants.granted _ _ prot m (covered addr low).0 (covered addr low).1 in
      total (rw (g.0) refl, g.1, g.2, laws.bytes _ _ prot m)

  -- With the protection 3 the slot is open, and what was open is open still.
  slot_opened :
      (m n : Mem) (r : ℕ) → Legible m 8 addr → Granted 3 m r n → Opens m n × Usable n 8 addr
  slot_opened m n r legible (zero_code, set, kept, same) = (
    record { carry = carried },
    record {
      place = λ x from to.
          let (b, here, can) = legible.shown x from to in
          record {
            byte = b;
            mapped = same x ∙ here;
            can_read = rw (set x from to) refl;
            can_write = rw (set x from to) refl;
          };
    },
  )
    where
      carried : (x : ℕ) → Open m x → Open n x
      carried x h = elim (kept x) [
        | inl three ↦ record {
          byte = h.byte;
          mapped = same x ∙ h.mapped;
          can_read = rw three refl;
          can_write = rw three refl;
        }
        | inr as_before ↦ record {
          byte = h.byte;
          mapped = same x ∙ h.mapped;
          can_read = rw as_before h.can_read;
          can_write = rw as_before h.can_write;
        }
      ]

  module _ (new_func old_func : ℕ) where
    swap_function-Total :
        (old_prot : ℕ) (m : Mem)
        → Usable m 8 addr
        → (old_func ≡ null) ⊎ Usable m 8 old_func
        → Total (λ r n. r ≡ 0) (swap_function k addr new_func old_func old_prot m)
    unfolding swap_function
    swap_function-Total old_prot m slot place =
        follow (Lives-load_le 8 addr m slot) λ old_addr m1 o1.
          follow (save old_addr m1 o1) λ _ m2 o2.
            follow (Lives-store_le 8 addr new_func m2 (Usable-Opens o2 (Usable-Opens o1 slot)))
              λ _ m3 o3. follow (restore m3) (λ _ m4 _. total refl)
      where
        save :
            (old_addr : ℕ) (m1 : Mem)
            → Opens m m1
            → Lives m1 ((if old_func != null then store64 old_func old_addr else pure tt) m1)
        save old_addr m1 o1 = elim (Bool-cases (old_func != null)) [
          | inl given ↦ elim place [
            | inl absent ↦ absurd (ground (arith, given, absent))
            | inr there ↦ rw given (Lives-store_le 8 old_func old_addr m1 (Usable-Opens o1 there))
          ]
          | inr absent ↦ rw absent lives
        ]

        restore :
            (m3 : Mem)
            → Total
                (λ r n. Unit {0})
                ((if old_prot != 3 then set_addr_protect k addr old_prot else pure 0) m3)
        restore m3 = elim (Bool-cases (old_prot != 3)) [
          | inl other ↦ rw other (loosen (set_addr_protect-Granted old_prot m3) (λ r n g. tt))
          | inr same ↦ rw same (total tt)
        ]

    unlock-Total :
        (old_prot : ℕ) (m : Mem)
        → Legible m 8 addr
        → (old_prot ≡ 3 → Usable m 8 addr)
        → (old_func ≡ null) ⊎ Usable m 8 old_func
        → Total (λ r n. r ≡ 0) (unlock k addr new_func old_func old_prot m)
    unfolding unlock
    unlock-Total old_prot m legible true_prot place = follow opened λ r m1 h.
        split (r == 0) (swap_function k addr new_func old_func old_prot) (pure r) m1
          (λ _. swap_function-Total old_prot m1 h.2 (moved h.1 place))
          (λ failed. absurd (ground (arith, failed, h.0)))
      where
        moved :
            {m1 : Mem}
            → Opens m m1
            → (old_func ≡ null) ⊎ Usable m 8 old_func
            → (old_func ≡ null) ⊎ Usable m1 8 old_func
        moved o (inl absent) = inl absent
        moved o (inr there) = inr (Usable-Opens o there)

        opened :
            Total
              (λ r n. (r ≡ 0) × Opens m n × Usable n 8 addr)
              ((if old_prot != 3 then set_addr_protect k addr 3 else pure 0) m)
        opened =
            split (old_prot != 3) (set_addr_protect k addr 3) (pure 0) m
              (λ _.
                loosen (set_addr_protect-Granted 3 m)
                  (λ r n g. let (opens, slot) = slot_opened m n r legible g in (g.0, opens, slot)))
              (λ same. total (refl, record { carry = λ x h. h }, true_prot (ground arith)))

    protect-Total :
        (pathname : Option Text) (m : Mem) (prot : ℕ)
        → Legible m 8 addr
        → get_addr_protect k addr pathname m ≡ Res.done (0, prot) m
        → (prot ≡ 3 → Usable m 8 addr)
        → (old_func ≡ null) ⊎ Usable m 8 old_func
        → Total (λ r n. r ≡ 0) (protect k pathname addr new_func old_func m)
    unfolding protect
    protect-Total pathname m prot legible listed true_prot place =
        follow (arrives {P = λ out n. (out ≡ (0, prot)) × (n ≡ m)} listed (refl, refl)) step
      where
        step :
            (out : ℕ × ℕ) (n : Mem)
            → (out ≡ (0, prot)) × (n ≡ m)
            → Total
                (λ r n. r ≡ 0)
                ((if out.0 == 0 then unlock k addr new_func old_func out.1 else pure out.0) n)
        step out n h = rw (h.0, h.1) (unlock-Total prot m legible true_prot place)

    replace_function-Total :
        (pathname : Option Text) (m : Mem) (prot : ℕ)
        → Legible m 8 addr
        → get_addr_protect k addr pathname m ≡ Res.done (0, prot) m
        → (prot ≡ 3 → Usable m 8 addr)
        → (old_func ≡ null) ⊎ Usable m 8 old_func
        → Total (λ r n. r ≡ 0) (replace_function k pathname addr new_func old_func m)
    unfolding replace_function
    replace_function-Total pathname m prot legible listed true_prot place =
        let (now, read) = load_le-Legible 8 addr m legible in
        follow (arrives {P = λ v n. n ≡ m} read refl) λ v n same. rw same (
          split (v == new_func) (pure 0) (protect k pathname addr new_func old_func) m
            (λ _. total refl) (λ _. protect-Total pathname m prot legible listed true_prot place))

    pub replace_function-succeeds :
        (v : ℕ) (pathname : Option Text) (m : Mem) (prot : ℕ) (fits : new_func < 2 ^ 64)
        (old_fits : v < 2 ^ 64) (apart : Apart k laws addr old_func)
        → peek 8 addr m ≡ some v
        → Legible m 8 addr
        → get_addr_protect k addr pathname m ≡ Res.done (0, prot) m
        → (prot ≡ 3 → Usable m 8 addr)
        → (old_func ≡ null) ⊎ Usable m 8 old_func
        → (n : Mem) × (replace_function k pathname addr new_func old_func m ≡ Res.done 0 n)
          × (Swapped k laws addr new_func old_func v fits old_fits apart n
              ⊎ ((v ≡ new_func) × (n ≡ m)))
    replace_function-succeeds v pathname m prot fits old_fits apart e legible listed true_prot
          place =
        let (r, n, run, zero_code) =
          found (replace_function-Total pathname m prot legible listed true_prot place) in
        let returned : replace_function k pathname addr new_func old_func m ≡ Res.done 0 n =
          run ∙ ap (λ c. Res.done c n) zero_code in
        let outcome =
          replace_function-Outcome k laws addr new_func old_func v fits old_fits apart pathname m n
            0 e returned in
        (n, returned, succeeded n outcome)
      where
        succeeded :
            (n : Mem)
            → Outcome k laws addr new_func old_func v fits old_fits apart m 0 n
            → Swapped k laws addr new_func old_func v fits old_fits apart n
              ⊎ ((v ≡ new_func) × (n ≡ m))
        succeeded n (inl (same, h)) = h
        succeeded n (inr (differs, h)) = absurd (differs refl)

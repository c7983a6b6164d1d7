-- ===== src/Maps/Print/Laws.antt =====
-- What `sscanf` takes from a printed line of /proc/self/maps in
-- cpp/xhook/xh_core.c and cpp/xhook/xh_util.c.
use native.Mathlib.Nat.{pow-suc, div-div-eq-div-mul, div-le_self, div-eq_of_lt}
use art_hook.Base.{
  ℕ, zero, suc, ◌+◌, ◌*◌, ◌/◌, ◌%◌, ◌^◌, ◌≤◌, ◌<◌, ◌≡◌, refl, ap, sym, ◌∙◌, true, false, Option,
  none, some, [], ◌∷◌, ◌++◌, Text, arith,
}
use art_hook.Maps.Print.{
  hex_char, hex_text, Digits, starts_decimal, Line, print_line, IsPrinted, perm_of,
}
use art_hook.Maps.{
  saturated, hex_digit, hex_digits, starts_digit, scan_hex, scan_char, scan_word, is_space,
  is_digit, skip_digits, scan_decimal, scan_region, scan_tail, scan_mapping,
}

hex_digit-hex_char : (d : ℕ) → d < 16 → hex_digit (hex_char d) ≡ some d
hex_digit-hex_char d h = ground arith

-- The text behind a number does not go on with a digit.
abbrev pub Stops : Text → Type 0
Stops r = starts_digit r ≡ false

hex_digits-Stops : (acc : ℕ) (r : Text) → Stops r → hex_digits acc r ≡ (acc, r)
unfolding hex_digits
hex_digits-Stops acc [] h = refl
hex_digits-Stops acc (c ∷ r) h = cases (hex_digit c) refl
  where
    cases :
        (o : Option ℕ)
        → hex_digit c ≡ o
        → (elim o as (λ _. ℕ × Text) [
          | none ↦ (acc, c ∷ r)
          | some d ↦ hex_digits (saturated (acc * 16 + d)) r
        ])
          ≡ (acc, c ∷ r)
    cases none e = refl
    cases (some d) e = absurd (ground (arith, e, h))

-- The digits are read from the front: `acc` is what stands before them.
hex_digits-hex_text :
    (w n : ℕ) (r : Text)
    → n < 2 ^ 64
    → Stops r
    → hex_digits (n / 16 ^ w) (hex_text w n ++ r) ≡ (n, r)
unfolding hex_text hex_digits
hex_digits-hex_text zero n r fits h = ground (arith, hex_digits-Stops n r h)
hex_digits-hex_text (suc w) n r fits h =
    let d = n / 16 ^ w % 16 in
    let shorter : n / 16 ^ suc w ≡ n / 16 ^ w / 16 =
      ap (λ x. n / x) (pow-suc 16 w) ∙ sym (div-div-eq-div-mul n (16 ^ w) 16) in
    let small : n / 16 ^ w ≤ n = div-le_self n (16 ^ w) in
    let next : saturated (n / 16 ^ suc w * 16 + d) ≡ n / 16 ^ w = rw shorter (ground arith) in
    rw (hex_digit-hex_char d (omega arith), hex_digits) (rw next (hex_digits-hex_text w n r fits h))

scan_hex-hex_text :
    (w n : ℕ) (r : Text)
    → n < 16 ^ suc w
    → n < 2 ^ 64
    → Stops r
    → scan_hex (hex_text (suc w) n ++ r) ≡ some (n, r)
unfolding hex_text scan_hex
scan_hex-hex_text w n r fits small h =
    let d = n / 16 ^ w % 16 in
    let low : d < 16 = omega arith in
    let none_before : n / 16 ^ suc w ≡ 0 = div-eq_of_lt fits in
    let all = hex_digits-hex_text (suc w) n r small h in
    let no_space : is_space (hex_char d) ≡ false = ground (arith, low) in
    rw no_space (rw (hex_digit-hex_char d low, starts_digit) (ap some (rw none_before at all)))

-- The four characters of the permissions are no white space, and a space stands before them.
scan_word-perm :
    (a b c d : ℕ) (r : Text)
    → is_space a ≡ false
    → is_space b ≡ false
    → is_space c ≡ false
    → is_space d ≡ false
    → scan_word 4 (0x20 ∷ a ∷ b ∷ c ∷ d ∷ r) ≡ some (a ∷ b ∷ c ∷ d ∷ [], r)
unfolding scan_word
scan_word-perm a b c d r ha hb hc hd = ground arith

scan_hex-space : (s : Text) → scan_hex (0x20 ∷ s) ≡ scan_hex s
unfolding scan_hex
scan_hex-space s = refl

skip_digits-Digits : (s r : Text) → Digits s → starts_decimal r ≡ false → skip_digits (s ++ r) ≡ r
unfolding skip_digits
skip_digits-Digits [] [] h e = refl
skip_digits-Digits [] (c ∷ r) h e = rw e refl
skip_digits-Digits (c ∷ s) r (h, hs) e = rw h (skip_digits-Digits s r hs e)

scan_decimal-Digits :
    (c : ℕ) (s r : Text)
    → is_digit c ≡ true
    → Digits s
    → starts_decimal r ≡ false
    → scan_decimal (0x20 ∷ c ∷ (s ++ r)) ≡ some r
unfolding scan_decimal
scan_decimal-Digits c s r h hs e = ground (arith, skip_digits-Digits s r hs e)

module _ (l : Line) (p : IsPrinted l) where
  scan_tail-printed :
      scan_tail (
        0x20
        ∷ (hex_text (suc l.major_width) l.major
            ++ b':'
              ∷ (hex_text (suc l.minor_width) l.minor
                  ++ 0x20 ∷ l.first_digit ∷ (l.digits ++ l.tail))))
      ≡ some l.tail
  unfolding scan_tail scan_char
  scan_tail-printed =
      let inode = 0x20 ∷ l.first_digit ∷ (l.digits ++ l.tail) in
      let minor = hex_text (suc l.minor_width) l.minor ++ inode in
      rw
        (
          scan_hex-space (hex_text (suc l.major_width) l.major ++ b':' ∷ minor),
          scan_hex-hex_text l.major_width l.major (b':' ∷ minor) p.major_fits.0 p.major_fits.1 refl,
          scan_hex-hex_text l.minor_width l.minor inode p.minor_fits.0 p.minor_fits.1 refl,
          scan_decimal-Digits l.first_digit l.digits l.tail p.numbered.0 p.numbered.1 p.ended,
        )
        refl

  -- What is behind the addresses, from the space on.
  abbrev after_perm : Text
  after_perm =
      0x20
      ∷ (hex_text (suc l.offset_width) l.offset
          ++ 0x20
            ∷ (hex_text (suc l.major_width) l.major
                ++ b':'
                  ∷ (hex_text (suc l.minor_width) l.minor
                      ++ 0x20 ∷ l.first_digit ∷ (l.digits ++ l.tail))))

  -- From a line that the kernel prints, for whatever widths of its numbers, the scan of the refresh
  -- takes the base address, the permissions, the offset and what stands behind the number of the
  -- file, and the scan for the protection takes both addresses and the permissions.
  pub scan-print_line :
      (scan_mapping (print_line l)
        ≡ some (record {
          base_addr = l.start;
          perm = perm_of l;
          offset = l.offset;
          tail = some l.tail;
        }))
      × (scan_region (print_line l)
          ≡ some (record { start = l.start; end = l.end; perm = perm_of l }))
  unfolding scan_mapping scan_region scan_char
  scan-print_line =
      let perms = 0x20 ∷ l.read ∷ l.write ∷ l.exec ∷ l.private ∷ after_perm in
      let ends = b'-' ∷ (hex_text (suc l.end_width) l.end ++ perms) in
      let first = scan_hex-hex_text l.start_width l.start ends p.start_fits.0 p.start_fits.1 refl in
      let second = scan_hex-hex_text l.end_width l.end perms p.end_fits.0 p.end_fits.1 refl in
      let word =
        scan_word-perm l.read l.write l.exec l.private after_perm p.perms.0 p.perms.1 p.perms.2
          p.perms.3 in
      let device =
        0x20
        ∷ (hex_text (suc l.major_width) l.major
            ++ b':'
              ∷ (hex_text (suc l.minor_width) l.minor
                  ++ 0x20 ∷ l.first_digit ∷ (l.digits ++ l.tail))) in
      let third =
        scan_hex-space (hex_text (suc l.offset_width) l.offset ++ device)
        ∙ scan_hex-hex_text l.offset_width l.offset device p.offset_fits.0 p.offset_fits.1 refl in
      (rw (first, second, word, third, scan_tail-printed) refl, rw (first, second, word) refl)

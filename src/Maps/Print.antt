-- ===== src/Maps/Print.antt =====
-- A line of /proc/self/maps as the kernel prints it, for the scans of cpp/xhook/xh_core.c and
-- cpp/xhook/xh_util.c.
pub mod Laws
use native.Mathlib.Nat.{pow-suc, div-div-eq-div-mul, div-le_self, div-eq_of_lt}
use art_hook.Base.{
  ℕ, zero, suc, ◌+◌, ◌-◌, ◌*◌, ◌/◌, ◌%◌, ◌^◌, ◌≤◌, ◌<◌, ◌≡◌, refl, ap, sym, ◌∙◌, Bool, true, false,
  Option, none, some, [], ◌∷◌, ◌++◌, ltb, if◌then◌else◌, Text, arith,
}
use art_hook.Machine.{u64}
use art_hook.Maps.{
  hex_digit, hex_digits, starts_digit, scan_hex, scan_char, scan_word, is_space, is_digit,
  skip_digits, scan_decimal, scan_region, scan_tail, scan_mapping,
}

abbrev pub hex_char : ℕ → ℕ
hex_char d = if ltb d 10 then b'0' + d else b'a' + (d - 10)

-- `w` digits, leading zeros included.
unfoldable pub hex_text : (w n : ℕ) → Text
hex_text zero n = []
hex_text (suc w) n = hex_char (n / 16 ^ w % 16) ∷ hex_text w n

-- The number of the file: decimal digits, and what stands behind them.
abbrev pub Digits : Text → Type 0
Digits [] = Unit {0}
Digits (c ∷ s) = (is_digit c ≡ true) × Digits s

abbrev pub starts_decimal : Text → Bool
starts_decimal [] = false
starts_decimal (c ∷ s) = is_digit c

-- A line: the addresses, the permissions, the offset, the device and the number of the file, each
-- with one digit more than its width says, and what stands behind them.
pub record Line : Type 0 where
  pub start_width : ℕ
  pub start : ℕ
  pub end_width : ℕ
  pub end : ℕ
  pub read : ℕ
  pub write : ℕ
  pub exec : ℕ
  pub private : ℕ
  pub offset_width : ℕ
  pub offset : ℕ
  pub major_width : ℕ
  pub major : ℕ
  pub minor_width : ℕ
  pub minor : ℕ
  pub first_digit : ℕ
  pub digits : Text
  pub tail : Text

-- "%08lx-%08lx %c%c%c%c %08llx %02x:%02x %lu".
abbrev pub print_line : Line → Text
print_line l =
    hex_text (suc l.start_width) l.start
    ++ b'-'
      ∷ (hex_text (suc l.end_width) l.end
          ++ 0x20
            ∷ l.read
            ∷ l.write
            ∷ l.exec
            ∷ l.private
            ∷ 0x20
            ∷ (hex_text (suc l.offset_width) l.offset
                ++ 0x20
                  ∷ (hex_text (suc l.major_width) l.major
                      ++ b':'
                        ∷ (hex_text (suc l.minor_width) l.minor
                            ++ 0x20 ∷ l.first_digit ∷ (l.digits ++ l.tail)))))

abbrev pub Fits : (w n : ℕ) → Type 0
Fits w n = (n < 16 ^ suc w) × (n < 2 ^ 64)

pub record IsPrinted (l : Line) : Type 0 where
  pub start_fits : Fits l.start_width l.start
  pub end_fits : Fits l.end_width l.end
  pub offset_fits : Fits l.offset_width l.offset
  pub major_fits : Fits l.major_width l.major
  pub minor_fits : Fits l.minor_width l.minor
  pub perms :
      (is_space l.read ≡ false)
      × (is_space l.write ≡ false)
      × (is_space l.exec ≡ false)
      × (is_space l.private ≡ false)
  pub numbered : (is_digit l.first_digit ≡ true) × Digits l.digits
  pub ended : starts_decimal l.tail ≡ false

abbrev pub perm_of : Line → Text
perm_of l = l.read ∷ l.write ∷ l.exec ∷ l.private ∷ []

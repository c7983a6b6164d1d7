-- ===== src/Maps.antt =====
-- /proc/self/maps as the C code reads it: the lines that `fgets` returns, and what `sscanf` takes
-- from a line. The kernel prints addresses in plain hexadecimal, so the scan of a number knows no
-- sign and no 0x.
pub mod Lines
pub mod Print
mod Examples
pub mod Protect
use art_hook.Base.{
  ℕ, zero, suc, ◌+◌, ◌-◌, ◌*◌, ◌^◌, ◌≡◌, Bool, true, false, not, Option, none, some, List, [], ◌∷◌,
  ◌&&◌, ◌||◌, ◌==◌, leb, ltb, if◌then◌else◌, Text, length,
}

abbrev pub prepend : ℕ → List Text → List Text
prepend c [] = (c ∷ []) ∷ []
prepend c (line ∷ rest) = (c ∷ line) ∷ rest

-- The chunks that successive calls of `fgets(line, cap + 1, fp)` return: up to a newline, which is
-- kept, and at most `cap` bytes. `left` bytes fit the current chunk.
unfoldable pub fgets_from : (cap left : ℕ) → Text → List Text
fgets_from cap left [] = []
fgets_from cap left (c ∷ s) =
    let full = (c == 0x0a) || leb left 1 in
    let rest = fgets_from cap (if full then cap else left - 1) s in
    if full then (c ∷ []) ∷ rest else prepend c rest

-- `char line[512]; while(fgets(line, sizeof(line), fp))`.
unfoldable pub lines : Text → List Text
unfolding fgets_from
lines content = fgets_from 511 511 content

abbrev pub is_space : ℕ → Bool
is_space c = (c == 0x20) || (leb 9 c && leb c 13)

unfoldable pub skip_spaces : Text → Text
skip_spaces [] = []
skip_spaces (c ∷ s) = if is_space c then skip_spaces s else c ∷ s

abbrev pub hex_digit : ℕ → Option ℕ
hex_digit c =
    if leb b'0' c && leb c b'9'
    then some (c - b'0')
    else if leb b'a' c && leb c b'f'
    then some (c - b'a' + 10)
    else if leb b'A' c && leb c b'F'
    then some (c - b'A' + 10)
    else none

-- A number that is too large is ULONG_MAX.
abbrev pub saturated : ℕ → ℕ
saturated v = if ltb v (2 ^ 64) then v else 2 ^ 64 - 1

-- The digits from the front of the text on: the number with `acc` before them, and the rest.
unfoldable pub hex_digits : ℕ → Text → ℕ × Text
hex_digits acc [] = (acc, [])
hex_digits acc (c ∷ s) = elim (hex_digit c) [
  | none ↦ (acc, c ∷ s)
  | some d ↦ hex_digits (saturated (acc * 16 + d)) s
]

abbrev pub starts_digit : Text → Bool
starts_digit [] = false
starts_digit (c ∷ s) = elim (hex_digit c) [ none ↦ false | some _ ↦ true ]

-- `%lx`: at least one digit.
unfoldable pub scan_hex : Text → Option (ℕ × Text)
unfolding hex_digits skip_spaces
scan_hex s = let s = skip_spaces s in if starts_digit s then some (hex_digits 0 s) else none

-- An ordinary character of the format.
unfoldable pub scan_char : ℕ → Text → Option Text
scan_char c [] = none
scan_char c (d ∷ s) = if d == c then some s else none

-- `%Ns`: up to `n` characters that are no white space.
unfoldable pub take_word : ℕ → Text → Text × Text
take_word zero s = ([], s)
take_word (suc n) [] = ([], [])
take_word (suc n) (c ∷ s) =
    let (w, rest) = take_word n s in if is_space c then ([], c ∷ s) else (c ∷ w, rest)

unfoldable pub scan_word : ℕ → Text → Option (Text × Text)
unfolding take_word skip_spaces
scan_word n s =
    let (w, rest) = take_word n (skip_spaces s) in
    elim w [ [] ↦ none | c ∷ w' ↦ some (c ∷ w', rest) ]

-- `%*d`, of which only the success and the rest matter; the kernel prints no sign.
abbrev pub is_digit : ℕ → Bool
is_digit c = leb b'0' c && leb c b'9'

unfoldable pub skip_digits : Text → Text
skip_digits [] = []
skip_digits (c ∷ s) = if is_digit c then skip_digits s else c ∷ s

unfoldable pub scan_decimal : Text → Option Text
unfolding skip_digits skip_spaces
scan_decimal s = elim (skip_spaces s) [
  | [] ↦ none
  | c ∷ r ↦ if is_digit c then some (skip_digits r) else none
]

infixl 5 ◌>>=◌
abbrev pub ◌>>=◌ {ℓ κ} : {A : Type ℓ} {B : Type κ} → Option A → (A → Option B) → Option B
none >>= k = none
some a >>= k = k a

abbrev pub Region : Type 0
Region = record { start : ℕ; end : ℕ; perm : Text }

-- `sscanf(line, "%lx-%lx %4s ", &start, &end, perm) == 3`.
unfoldable pub scan_region : Text → Option Region
unfolding scan_hex scan_char scan_word
scan_region line = do
  (start, s) ← scan_hex line
  s ← scan_char b'-' s
  (end, s) ← scan_hex s
  (perm, s) ← scan_word 4 s
  some (record { start = start; end = end; perm = perm })

-- `perm[i]`, which is the terminating 0 behind the word.
abbrev pub char_at : Text → ℕ → ℕ
char_at [] i = 0
char_at (c ∷ s) zero = c
char_at (c ∷ s) (suc i) = char_at s i

-- The line from `line + pathname_pos` on is `none` where the scan stops before `%n`.
abbrev pub Mapping : Type 0
Mapping = record { base_addr : ℕ; perm : Text; offset : ℕ; tail : Option Text }

-- ` %*x:%*x %*d%n`.
unfoldable pub scan_tail : Text → Option Text
unfolding scan_hex scan_char scan_decimal
scan_tail s = do (_, s) ← scan_hex s; s ← scan_char b':' s; (_, s) ← scan_hex s; scan_decimal s

-- `sscanf(line, "%lx-%*lx %4s %lx %*x:%*x %*d%n", &base_addr, perm, &offset, &pathname_pos) == 3`.
unfoldable pub scan_mapping : Text → Option Mapping
unfolding scan_hex scan_char scan_word scan_tail
scan_mapping line = do
  (base_addr, s) ← scan_hex line
  s ← scan_char b'-' s
  (_, s) ← scan_hex s
  (perm, s) ← scan_word 4 s
  (offset, s) ← scan_hex s
  some (record { base_addr = base_addr; perm = perm; offset = offset; tail = scan_tail s })

-- ===== src/Base/Digits.antt =====
-- The binary digits of a number, and what `|`, `&` and `~` do to them.
use Prim.Native.Nat.{
  ℕ, zero, suc, ◌+◌, ◌-◌, ◌*◌, ◌/◌, ◌%◌, ◌^◌, ◌≤◌, ◌<◌, min, max, bit_and, bit_or,
}
use mathlib.Core.Path.{◌≡◌, refl, ◌∙◌}
use native.Mathlib.Nat.{pow-suc}
use native.Mathlib.Omega.{arith}
use art_hook.Base.Tests.{◌==◌, if◌then◌else◌}
use art_hook.Base.Bits.{bit_or_lowest, bit_and_lowest, zero-bit_and, double-pow}

-- The digit of `x` that counts 2 ^ k.
unfoldable pub digit : ℕ → ℕ → ℕ
digit zero x = x % 2
digit (suc k) x = digit k (x / 2)

pub digit-bit_or : (k a b : ℕ) → digit k (bit_or a b) ≡ max (digit k a) (digit k b)
unfolding digit
digit-bit_or zero a b = ground (arith, bit_or_lowest a b)
digit-bit_or (suc k) a b =
    let half : bit_or a b / 2 ≡ bit_or (a / 2) (b / 2) = ground (arith, bit_or_lowest a b) in
    rw half (digit-bit_or k (a / 2) (b / 2))

pub digit-bit_and : (k a b : ℕ) → digit k (bit_and a b) ≡ min (digit k a) (digit k b)
unfolding digit
digit-bit_and zero a b = ground (arith, bit_and_lowest a b)
digit-bit_and (suc k) a b =
    let half : bit_and a b / 2 ≡ bit_and (a / 2) (b / 2) = ground (arith, bit_and_lowest a b) in
    rw half (digit-bit_and k (a / 2) (b / 2))

pub bit_or_lt : (n a b : ℕ) → a < 2 ^ n → b < 2 ^ n → bit_or a b < 2 ^ n
bit_or_lt zero a b p q =
    let none_a : a ≡ 0 = omega arith in
    let none_b : b ≡ 0 = omega arith in rw (none_a, none_b) (omega arith)
bit_or_lt (suc n) a b p q =
    let half =
      bit_or_lt n (a / 2) (b / 2) (omega (arith, pow-suc 2 n)) (omega (arith, pow-suc 2 n)) in
    ground (arith, bit_or_lowest a b, pow-suc 2 n, half)

pub bit_and_lt : (n a b : ℕ) → a < 2 ^ n → bit_and a b < 2 ^ n
bit_and_lt zero a b p =
    let none_a : a ≡ 0 = omega arith in rw none_a (ground (arith, zero-bit_and b))
bit_and_lt (suc n) a b p =
    let half = bit_and_lt n (a / 2) (b / 2) (omega (arith, pow-suc 2 n)) in
    ground (arith, bit_and_lowest a b, pow-suc 2 n, half)

-- `~f` has the digits that `f` has not.
pub digit-complement : (n k f : ℕ) → k < n → f < 2 ^ n → digit k (2 ^ n - 1 - f) + digit k f ≡ 1
unfolding digit
digit-complement zero k f h p = absurd (omega arith)
digit-complement (suc n) zero f h p = omega (arith, pow-suc 2 n)
digit-complement (suc n) (suc k) f h p =
    let half : (2 ^ suc n - 1 - f) / 2 ≡ 2 ^ n - 1 - f / 2 = omega (arith, pow-suc 2 n) in
    rw half (digit-complement n k (f / 2) (omega arith) (omega (arith, pow-suc 2 n)))

-- A test of one flag looks at its digit.
pub bit_and-one : (k x : ℕ) → bit_and (2 ^ k) x ≡ digit k x * 2 ^ k
unfolding digit
bit_and-one zero x = ground (arith, bit_and_lowest 1 x, zero-bit_and (x / 2))
bit_and-one (suc k) x =
    let half : 2 ^ suc k / 2 ≡ 2 ^ k = omega (arith, pow-suc 2 k) in
    let even : 2 ^ suc k % 2 ≡ 0 = omega (arith, pow-suc 2 k) in
    let low : bit_and (2 ^ suc k) x ≡ bit_and (2 ^ k) (x / 2) * 2 + 0 =
      bit_and_lowest (2 ^ suc k) x ∙ rw (half, even) (omega arith) in
    low ∙ rw (bit_and-one k (x / 2)) (omega (arith, double-pow (digit k (x / 2)) k))

pow_some : (n : ℕ) → 0 < 2 ^ n
pow_some zero = omega arith
pow_some (suc n) = omega (arith, pow-suc 2 n, pow_some n)

pow_lt : (k n : ℕ) → k < n → 2 ^ k < 2 ^ n
pow_lt zero (suc n) h = omega (arith, pow-suc 2 n, pow_some n)
pow_lt (suc k) (suc n) h = omega (arith, pow-suc 2 k, pow-suc 2 n, pow_lt k n (omega arith))
pow_lt k zero h = absurd (omega arith)

pub digit_le : (k x : ℕ) → digit k x ≤ 1
unfolding digit
digit_le zero x = omega arith
digit_le (suc k) x = digit_le k (x / 2)

-- The digit of a number with one digit.
abbrev pub one_at : ℕ → ℕ → ℕ
one_at i k = if i == k then 1 else 0

digit_none : (i : ℕ) → digit i 0 ≡ 0
unfolding digit
digit_none zero = refl
digit_none (suc i) = digit_none i

pub digit-pow : (i k : ℕ) → digit i (2 ^ k) ≡ one_at i k
unfolding digit
digit-pow zero zero = refl
digit-pow zero (suc k) = ground (arith, pow-suc 2 k)
digit-pow (suc i) zero = digit_none i ∙ ground arith
digit-pow (suc i) (suc k) =
    let half : 2 ^ suc k / 2 ≡ 2 ^ k = omega (arith, pow-suc 2 k) in
    rw half (digit-pow i k ∙ ground arith)

-- `|` with one flag, and `& ~` of one flag.
pub digit-add_flag : (i k x : ℕ) → digit i (bit_or x (2 ^ k)) ≡ (if i == k then 1 else digit i x)
digit-add_flag i k x = ground (arith, digit-bit_or i x (2 ^ k), digit-pow i k, digit_le i x)

pub digit-remove_flag :
    (n i k x : ℕ)
    → i < n
    → k < n
    → digit i (bit_and x (2 ^ n - 1 - 2 ^ k)) ≡ (if i == k then 0 else digit i x)
digit-remove_flag n i k x h p = ground (
  arith,
  digit-bit_and i x (2 ^ n - 1 - 2 ^ k),
  digit-complement n i (2 ^ k) h (pow_lt k n p),
  digit-pow i k,
  digit_le i x,
)

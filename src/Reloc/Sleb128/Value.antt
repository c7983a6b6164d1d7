-- ===== src/Reloc/Sleb128/Value.antt =====
-- What a byte sequence in the SLEB128 format means, and that the decoder returns it.
use native.Mathlib.Nat.{pow-suc, pow-le-pow_right, mul-le-mul_right}
use art_hook.Base.{
  ℕ, zero, suc, ◌+◌, ◌-◌, ◌*◌, ◌/◌, ◌%◌, ◌^◌, ◌≤◌, ◌<◌, ◌≡◌, refl, ◌∙◌, ◌⊎◌, inl, inr, true, false,
  arith, List, [], ◌∷◌, length, bit_and, bit_or, ◌!=◌, ltb, if◌then◌else◌, some, sym, ap, ◌≢◌,
  Bool-cases, ltb→lt, lt→ltb, leb, leb→le,
}
use art_hook.Base.Bits.{bit_and_lowest, bit_or_above}
use art_hook.Machine.{u64, Mem, Res, load8, readable}
use art_hook.Reloc.Sleb128.{Decoder, Decoded, value, size, extend_sign, decode_loop, decoder_next}

-- The digits of a number to the base 128, the lowest first, with the sign in bit 6 of the last: its
-- two's complement modulo 2 ^ 64.
abbrev pub meaning : List ℕ → ℕ
meaning [] = 0
meaning (d ∷ []) = if ltb d 64 then d else 2 ^ 64 - 128 + d
meaning (d ∷ e ∷ ds) = d + 128 * meaning (e ∷ ds)

-- The digits stand at `cur`, each but the last with bit 7 set.
abbrev pub Encoded : List ℕ → ℕ → Mem → Type 0
Encoded [] cur m = ⊥
Encoded (d ∷ []) cur m = (d < 128) × ((readable m cur ≡ true) × (m.cell cur ≡ some d))
Encoded (d ∷ e ∷ ds) cur m =
    ((d < 128) × ((readable m cur ≡ true) × (m.cell cur ≡ some (128 + d))))
    × Encoded (e ∷ ds) (cur + 1) m

-- The masks of the decoder on a byte.
no_bits : (a : ℕ) → a < 2 → bit_and a 0 ≡ 0
no_bits zero h = refl
no_bits (suc zero) h = refl
no_bits (suc (suc a)) h = absurd (omega arith)

payload : (a : ℕ) → a < 256 → bit_and a 127 ≡ a % 128
payload a h = ground (
  arith,
  no_bits (a / 128) (omega arith),
  bit_and_lowest a 127,
  bit_and_lowest (a / 2) 63,
  bit_and_lowest (a / 4) 31,
  bit_and_lowest (a / 8) 15,
  bit_and_lowest (a / 16) 7,
  bit_and_lowest (a / 32) 3,
  bit_and_lowest (a / 64) 1,
)

sign_bit : (a : ℕ) → a < 128 → bit_and a 64 ≡ a / 64 * 64
sign_bit a h = ground (
  arith,
  no_bits (a / 64 / 2) (omega arith),
  bit_and_lowest a 64,
  bit_and_lowest (a / 2) 32,
  bit_and_lowest (a / 4) 16,
  bit_and_lowest (a / 8) 8,
  bit_and_lowest (a / 16) 4,
  bit_and_lowest (a / 32) 2,
  bit_and_lowest (a / 64) 1,
)

more_bit : (a : ℕ) → a < 256 → bit_and a 128 ≡ a / 128 * 128
more_bit a h = ground (
  arith,
  no_bits (a / 128 / 2) (omega arith),
  bit_and_lowest a 128,
  bit_and_lowest (a / 2) 64,
  bit_and_lowest (a / 4) 32,
  bit_and_lowest (a / 8) 16,
  bit_and_lowest (a / 16) 8,
  bit_and_lowest (a / 32) 4,
  bit_and_lowest (a / 64) 2,
  bit_and_lowest (a / 128) 1,
)

pow-add : (j k : ℕ) → 2 ^ (j + k) ≡ 2 ^ j * 2 ^ k
pow-add zero k = grind arith
pow-add (suc j) k =
    let shifted : suc j + k ≡ suc (j + k) = omega arith in
    let doubled : 2 ^ suc j * 2 ^ k ≡ 2 ^ j * 2 ^ k * 2 = rw (pow-suc 2 j) (grind arith) in
    rw (shifted, pow-suc 2 (j + k), pow-add j k) (sym doubled)

pow-positive : (k : ℕ) → 1 ≤ 2 ^ k
pow-positive k = pow-le-pow_right {n = 2} (omega arith) {i = 0} {j = k} (omega arith)

-- A digit that is placed above the ones before it.
place : (s d v : ℕ) → s ≤ 56 → d < 128 → v < 2 ^ s → bit_or v (u64 (d * 2 ^ s)) ≡ v + d * 2 ^ s
place s d v small fits h =
    let bound : 2 ^ s ≤ 2 ^ 56 = pow-le-pow_right (omega arith) small in
    let product : d * 2 ^ s ≤ 127 * 2 ^ s = mul-le-mul_right (2 ^ s) (omega arith) in
    let same : u64 (d * 2 ^ s) ≡ d * 2 ^ s = omega arith in rw same (bit_or_above s v d h)

place_last : (d v : ℕ) → d < 128 → v < 2 ^ 63 → bit_or v (u64 (d * 2 ^ 63)) ≡ v + d % 2 * 2 ^ 63
place_last d v fits h =
    let same : u64 (d * 2 ^ 63) ≡ d % 2 * 2 ^ 63 = omega arith in
    rw same (bit_or_above 63 v (d % 2) h)

rewritten :
    (q s : ℕ) → q + 1 ≡ 2 ^ (64 - s) → 2 ^ (64 - s) * 2 ^ s ≡ 2 ^ 64 → q * 2 ^ s + 2 ^ s ≡ 2 ^ 64
rewritten q s same whole =
    let rows : (q + 1) * 2 ^ s ≡ q * 2 ^ s + 2 ^ s = grind arith in sym rows ∙ (rw same whole)

-- The sign, spread over the bits from `s` on.
spread : (s v : ℕ) → s ≤ 63 → v < 2 ^ s → bit_or v (u64 (2 ^ 64 - 2 ^ s)) ≡ v + 2 ^ 64 - 2 ^ s
spread s v small h =
    let q = 2 ^ (64 - s) - 1 in
    let exponent : 64 - s + s ≡ 64 = omega arith in
    let whole : 2 ^ (64 - s) * 2 ^ s ≡ 2 ^ 64 = sym (pow-add (64 - s) s) ∙ rw exponent in
    let same : q + 1 ≡ 2 ^ (64 - s) = omega (arith, pow-positive (64 - s)) in
    let parts : q * 2 ^ s + 2 ^ s ≡ 2 ^ 64 = rewritten q s same whole in
    let field : u64 (2 ^ 64 - 2 ^ s) ≡ q * 2 ^ s = omega (arith, pow-positive s) in
    rw field (bit_or_above s v q h ∙ omega arith)

load8-at : (a b : ℕ) (m : Mem) → readable m a ≡ true → m.cell a ≡ some b → load8 a m ≡ Res.done b m
unfolding load8
load8-at a b m ok e = rw (e, load8, ok)

extend-off : (d s v : ℕ) → (bit_and d 64 ≡ 0) ⊎ (64 ≤ s) → extend_sign d s v ≡ v
unfolding extend_sign
extend-off d s v h = ground arith

extend-on :
    (d s v : ℕ) → bit_and d 64 ≢ 0 → s < 64 → extend_sign d s v ≡ bit_or v (u64 (2 ^ 64 - 2 ^ s))
unfolding extend_sign
extend-on d s v h le = ground arith

-- The last digit, where the bits above it are left to be filled, and where they are not.
last_within :
    (d s v : ℕ)
    → s ≤ 56
    → d < 128
    → v < 2 ^ s
    → extend_sign d (s + 7) (bit_or v (u64 (d * 2 ^ s))) ≡ u64 (v + 2 ^ s * meaning (d ∷ []))
last_within d s v small fits h =
    let bound : 2 ^ s ≤ 2 ^ 56 = pow-le-pow_right (omega arith) small in
    let top : 2 ^ (s + 7) ≡ 2 ^ s * 128 = pow-add s 7 in
    let product : d * 2 ^ s ≤ 127 * 2 ^ s = mul-le-mul_right (2 ^ s) (omega arith) in
    let swap : 2 ^ s * d ≡ d * 2 ^ s = grind arith in
    let rows : 2 ^ s * (2 ^ 64 - 128 + d) ≡ 2 ^ s * (2 ^ 64 - 128) + d * 2 ^ s = grind arith in
    rw (place s d v small fits h) (elim (Bool-cases (ltb d 64)) [
      | inl plus ↦
          rw
            (
              extend-off d (s + 7) (v + d * 2 ^ s)
                  (inl (omega (arith, sign_bit d fits, ltb→lt d 64 plus))),
              plus,
            )
            (omega (arith, swap))
      | inr minus ↦
          let negative : bit_and d 64 ≢ 0 = ground (arith, sign_bit d fits, minus) in
          rw
            (
              extend-on d (s + 7) (v + d * 2 ^ s) negative (omega arith),
              spread (s + 7) (v + d * 2 ^ s) (omega arith) (omega (arith, top, product, h)),
              minus,
              top,
            )
            (omega (arith, rows, product, pow-positive s))
    ])

last_above :
    (d v : ℕ)
    → d < 128
    → v < 2 ^ 63
    → extend_sign d 70 (bit_or v (u64 (d * 2 ^ 63))) ≡ u64 (v + 2 ^ 63 * meaning (d ∷ []))
last_above d v fits h =
    rw (place_last d v fits h, extend-off d 70 (v + d % 2 * 2 ^ 63) (inr (omega arith)))
      (ground arith)

last_digit :
    (d s v i : ℕ)
    → s ≡ 7 * i
    → i ≤ 9
    → d < 128
    → v < 2 ^ s
    → extend_sign d (s + 7) (bit_or v (u64 (d * 2 ^ s))) ≡ u64 (v + 2 ^ s * meaning (d ∷ []))
last_digit d s v i e le fits h = elim (Bool-cases (leb s 56)) [
  | inl small ↦ last_within d s v (leb→le s 56 small) fits h
  | inr large ↦ let top : s ≡ 63 = ground arith in rw top (last_above d v fits (rw top at h))
]

carry : (d s v : ℕ) → d < 128 → v < 2 ^ s → v + d * 2 ^ s < 2 ^ (s + 7)
carry d s v fits h =
    let product : d * 2 ^ s ≤ 127 * 2 ^ s = mul-le-mul_right (2 ^ s) (omega arith) in
    omega (arith, pow-add s 7)

module _ (m : Mem) where
  -- The value of a run of the loop from `cur` on, and where it leaves the decoder.
  abbrev Gives : (ds : List ℕ) (cur end s v : ℕ) → Res Decoded
  Gives ds cur end s v =
      Res.done (value (u64 (v + 2 ^ s * meaning ds)) (record { cur = cur + length ds; end = end }))
        m

  next_digit :
      (d e : ℕ) (ds : List ℕ) (cur end s v : ℕ)
      → Gives (e ∷ ds) (cur + 1) end (s + 7) (v + d * 2 ^ s) ≡ Gives (d ∷ e ∷ ds) cur end s v
  next_digit d e ds cur end s v =
      let rest = meaning (e ∷ ds) in
      let rows : 2 ^ s * (d + 128 * rest) ≡ d * 2 ^ s + 2 ^ s * 128 * rest = grind arith in
      let sums : v + d * 2 ^ s + 2 ^ s * 128 * rest ≡ v + 2 ^ s * (d + 128 * rest) = omega arith in
      let place : cur + 1 + length (e ∷ ds) ≡ cur + length (d ∷ e ∷ ds) = omega arith in
      rw (pow-add s 7, place)
        (ap
          (λ n. Res.done (value (u64 n) (record { cur = cur + length (d ∷ e ∷ ds); end = end })) m)
          sums)

  decode_loop-Gives :
      (ds : List ℕ) (i left cur end s v : ℕ)
      → s ≡ 7 * i
      → i + length ds ≤ 10
      → length ds ≤ left
      → v < 2 ^ s
      → Encoded ds cur m
      → decode_loop left cur end s v m ≡ Gives ds cur end s v
  unfolding decode_loop
  decode_loop-Gives [] i left cur end s v e le room h stands = absurd stands
  decode_loop-Gives (d ∷ ds) i zero cur end s v e le room h stands = absurd (omega arith)
  decode_loop-Gives (d ∷ []) i (suc left) cur end s v e le room h (fits, (ok, byte)) =
      let small : ltb s size ≡ true = lt→ltb s 64 (omega arith) in
      let stop : (bit_and d 128 != 0) ≡ false = ground (arith, more_bit d) in
      let bits : bit_and d 127 ≡ d = omega (arith, payload d (omega arith)) in
      let sum = last_digit d s v i e (omega arith) fits h in
      rw (load8-at cur d m ok byte, small, stop, bits, sum)
  decode_loop-Gives (d ∷ e' ∷ ds) i (suc left) cur end s v e le room h ((fits, (ok, byte)), rest) =
      let small : ltb s size ≡ true = lt→ltb s 64 (omega arith) in
      let on : (bit_and (128 + d) 128 != 0) ≡ true = ground (arith, more_bit (128 + d)) in
      let bits : bit_and (128 + d) 127 ≡ d = omega (arith, payload (128 + d) (omega arith)) in
      rw (load8-at cur (128 + d) m ok byte, small, on, bits, place s d v (omega arith) fits h)
        (decode_loop-Gives (e' ∷ ds) (i + 1) left (cur + 1) end (s + 7) (v + d * 2 ^ s)
            (omega arith) (omega arith) (omega arith) (carry d s v fits h) rest
          ∙ next_digit d e' ds cur end s v)

-- Where a well-formed encoding of up to ten bytes stands at the decoder, readable and before the
-- end, a call returns the number that it stands for, negative ones in two's complement, and leaves
-- the decoder behind it.
pub decoder_next-meaning :
    (ds : List ℕ) (d : Decoder) (m : Mem)
    → Encoded ds d.cur m
    → length ds ≤ 10
    → d.cur + length ds ≤ d.end
    → decoder_next d m
      ≡ Res.done (value (u64 (meaning ds)) (record { cur = d.cur + length ds; end = d.end })) m
unfolding decoder_next
decoder_next-meaning ds d m stands le room =
    decode_loop-Gives m ds 0 (d.end - d.cur) d.cur d.end 0 0 refl (omega arith) (omega arith)
      (omega arith) stands
    ∙ first
  where
    first :
        Res.done
          (value (u64 (0 + 2 ^ 0 * meaning ds)) (record { cur = d.cur + length ds; end = d.end }))
          m
        ≡ Res.done (value (u64 (meaning ds)) (record { cur = d.cur + length ds; end = d.end })) m
    first = let one : 0 + 2 ^ 0 * meaning ds ≡ meaning ds = omega arith in rw one

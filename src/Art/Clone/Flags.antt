-- ===== src/Art/Clone/Flags.antt =====
-- The access flags that a clone is given, digit by digit.
use art_hook.Base.{
  not, ◌&&◌, ◌∙◌, ℕ, ◌^◌, ◌<◌, ◌≡◌, refl, Bool, true, false, bit_and, bit_or, if◌then◌else◌, arith,
  ltb, ◌==◌, ◌||◌,
}
use art_hook.Base.Digits.{
  digit-add_flag, digit-remove_flag, digit-pow, digit_le, digit, digit-bit_or, digit-bit_and,
  digit-complement, bit_or_lt, bit_and_lt,
}
use art_hook.Art.Modifiers.{
  acc_private, acc_synchronized, acc_skip_access_checks, acc_compile_dont_bother_n,
  acc_compile_dont_bother_o_mr1, acc_previously_warm_o_mr1, complement, acc_public, acc_protected,
  android_o_mr1,
}
use art_hook.Art.Clone.{clone_flags}

if_fits : (b : Bool) (x y : ℕ) → x < 2 ^ 32 → y < 2 ^ 32 → (if b then x else y) < 2 ^ 32
if_fits true x y p q = p
if_fits false x y p q = q

or_fits : (a b : ℕ) → a < 2 ^ 32 → b < 2 ^ 32 → bit_or a b < 2 ^ 32
or_fits = bit_or_lt 32

and_fits : (a b : ℕ) → a < 2 ^ 32 → bit_and a b < 2 ^ 32
and_fits = bit_and_lt 32

pub clone_flags_fit :
    (api flags : ℕ) (native direct : Bool)
    → flags < 2 ^ 32
    → clone_flags api flags native direct < 2 ^ 32
unfolding clone_flags
clone_flags_fit api flags native direct h =
    let bare : (2 ^ 24 < 2 ^ 32)
        × (2 ^ 25 < 2 ^ 32)
        × (2 ^ 23 < 2 ^ 32)
        × (2 ^ 19 < 2 ^ 32)
        × (2 < 2 ^ 32) =
      (omega arith, omega arith, omega arith, omega arith, omega arith) in
    let devirtual = or_fits _ acc_private (and_fits flags _ h) bare.4 in
    let own = if_fits direct _ _ h devirtual in
    let unlocked = and_fits _ (complement acc_synchronized) own in
    let kept =
      if_fits (ltb api android_o_mr1) _ _ (or_fits _ acc_compile_dont_bother_n unlocked bare.0) (
        or_fits _ acc_previously_warm_o_mr1
          (or_fits _ acc_compile_dont_bother_o_mr1 unlocked bare.1) bare.2) in
    if_fits native _ _ kept (or_fits _ acc_skip_access_checks kept bare.3)

-- What cloning does to one digit of the flags.
abbrev pub cloned_digit : (api : ℕ) (native direct : Bool) (i d : ℕ) → ℕ
cloned_digit api native direct i d =
    if i == 5 || not direct && (i == 0 || i == 2)
    then 0
    else (if not direct && i == 1 || not native && i == 19
        then 1
        else (if ltb api android_o_mr1
            then (if i == 24 then 1 else d)
            else (if i == 25 || i == 23 then 1 else d)))

not_open-digit :
    (flags i : ℕ)
    → i < 32
    → digit i (bit_and flags (complement (bit_or acc_public acc_protected)))
      ≡ (if i == 0 || i == 2 then 0 else digit i flags)
not_open-digit flags i h =
    let rest = complement (bit_or acc_public acc_protected) in
    ground (
      arith,
      digit-bit_and i flags rest,
      digit-complement 32 i 5 h (omega arith),
      digit-bit_or i 1 4,
      digit-pow i 0,
      digit-pow i 2,
      digit_le i flags,
    )

own-digit :
    (flags i : ℕ) (direct : Bool)
    → i < 32
    → digit i (
        if direct
        then flags
        else bit_or (bit_and flags (complement (bit_or acc_public acc_protected))) acc_private)
      ≡ (if not direct && (i == 0 || i == 2)
          then 0
          else (if not direct && i == 1 then 1 else digit i flags))
own-digit flags i true h = refl
own-digit flags i false h =
    let closed = bit_and flags (complement (bit_or acc_public acc_protected)) in
    ground (arith, not_open-digit flags i h, digit-add_flag i 1 closed)

unlocked-digit :
    (x i : ℕ)
    → i < 32
    → digit i (bit_and x (complement acc_synchronized)) ≡ (if i == 5 then 0 else digit i x)
unlocked-digit x i h = digit-remove_flag 32 i 5 x h (omega arith)

kept-digit :
    (api x i : ℕ)
    → digit i (
        if ltb api android_o_mr1
        then bit_or x acc_compile_dont_bother_n
        else bit_or (bit_or x acc_compile_dont_bother_o_mr1) acc_previously_warm_o_mr1)
      ≡ (if ltb api android_o_mr1
          then (if i == 24 then 1 else digit i x)
          else (if i == 25 || i == 23 then 1 else digit i x))
kept-digit api x i = ground (
  arith,
  digit-add_flag i 24 x,
  digit-add_flag i 25 x,
  digit-add_flag i 23 (bit_or x acc_compile_dont_bother_o_mr1),
)

checked-digit :
    (x i : ℕ) (native : Bool)
    → digit i (if native then x else bit_or x acc_skip_access_checks)
      ≡ (if not native && i == 19 then 1 else digit i x)
checked-digit x i true = refl
checked-digit x i false = digit-add_flag i 19 x ∙ ground arith

pub clone_flags-digit :
    (api flags i : ℕ) (native direct : Bool)
    → i < 32
    → digit i (clone_flags api flags native direct)
      ≡ cloned_digit api native direct i (digit i flags)
unfolding clone_flags
clone_flags-digit api flags i native direct h =
    let devirtual =
      bit_or (bit_and flags (complement (bit_or acc_public acc_protected))) acc_private in
    let own = if direct then flags else devirtual in
    let unlocked = bit_and own (complement acc_synchronized) in
    checked-digit _ i native
    ∙ rw (kept-digit api unlocked i, unlocked-digit own i h, own-digit flags i direct h)
        (ground arith)

-- ===== src/Art/Hook/Digits.antt =====
-- What `ArtMethod::Hook` of cpp/art/ArtMethod.cpp does to the access flags, digit by digit.
use art_hook.Base.{ℕ, ◌<◌, ◌≡◌, ◌&&◌, ◌||◌, bit_or, ◌==◌, if◌then◌else◌, arith, ltb, leb}
use art_hook.Base.Digits.{digit, digit-add_flag, digit-remove_flag}
use art_hook.Art.Modifiers.{
  acc_native, acc_fast_native, acc_compile_dont_bother_o_mr1, android_o_mr1, android_p,
}
use art_hook.Art.Hook.Steps.{native_flags, forbidden_flags}

-- What a hook does to one digit of the flags.
abbrev pub hooked_digit : (api i d : ℕ) → ℕ
hooked_digit api i d =
    if i == 8 || i == 19
    then 1
    else (if leb android_p api && i == 21
        then 0
        else (if ltb api android_o_mr1
            then (if i == 24 then 1 else d)
            else (if i == 25 || i == 23 then 1 else d)))

forbidden_flags-digit :
    (api flags i : ℕ)
    → digit i (forbidden_flags api flags) ≡ (
        if ltb api android_o_mr1
        then (if i == 24 then 1 else digit i flags)
        else (if i == 25 || i == 23 then 1 else digit i flags))
forbidden_flags-digit api flags i = ground (
  arith,
  digit-add_flag i 24 flags,
  digit-add_flag i 25 flags,
  digit-add_flag i 23 (bit_or flags acc_compile_dont_bother_o_mr1),
)

native_flags-digit :
    (api flags i : ℕ)
    → i < 32
    → digit i (native_flags api flags) ≡ (
        if i == 8 || i == 19
        then 1
        else (if leb android_p api && i == 21 then 0 else digit i flags))
native_flags-digit api flags i h =
    let native = bit_or flags acc_native in
    ground (
      arith,
      digit-add_flag i 8 flags,
      digit-add_flag i 19 native,
      digit-remove_flag 32 i 21 (bit_or native acc_fast_native) h (omega arith),
    )

pub hooked_flags-digit :
    (api flags i : ℕ)
    → i < 32
    → digit i (native_flags api (forbidden_flags api flags)) ≡ hooked_digit api i (digit i flags)
hooked_flags-digit api flags i h = ground (
  arith,
  native_flags-digit api (forbidden_flags api flags) i h,
  forbidden_flags-digit api flags i,
)

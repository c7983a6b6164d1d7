-- ===== src/Art/Modifiers.antt =====
-- cpp/art/modifiers.h: the bits of `access_flags_`, and the versions of cpp/art/api_level.h.
use art_hook.Base.{ℕ, ◌+◌, ◌-◌, ◌*◌, ◌^◌, bit_or, Text, [], ◌∷◌, leb, if◌then◌else◌, ◌&&◌}

abbrev pub acc_public : ℕ
acc_public = 0x1

abbrev pub acc_private : ℕ
acc_private = 0x2

abbrev pub acc_protected : ℕ
acc_protected = 0x4

abbrev pub acc_static : ℕ
acc_static = 0x8

abbrev pub acc_synchronized : ℕ
acc_synchronized = 0x20

abbrev pub acc_native : ℕ
acc_native = 0x100

abbrev pub acc_abstract : ℕ
acc_abstract = 0x400

abbrev pub acc_constructor : ℕ
acc_constructor = 0x10000

abbrev pub acc_fast_native : ℕ
acc_fast_native = 0x80000

abbrev pub acc_skip_access_checks : ℕ
acc_skip_access_checks = acc_fast_native

abbrev pub acc_critical_native_p : ℕ
acc_critical_native_p = 0x200000

abbrev pub acc_compile_dont_bother_n : ℕ
acc_compile_dont_bother_n = 0x1000000

abbrev pub acc_compile_dont_bother_o_mr1 : ℕ
acc_compile_dont_bother_o_mr1 = 0x2000000

abbrev pub acc_previously_warm_o_mr1 : ℕ
acc_previously_warm_o_mr1 = 0x800000

abbrev pub acc_direct_flags : ℕ
acc_direct_flags = bit_or (bit_or acc_static acc_private) acc_constructor

abbrev pub android_lollipop : ℕ
android_lollipop = 21

abbrev pub android_m : ℕ
android_m = 23

abbrev pub android_n : ℕ
android_n = 24

abbrev pub android_o : ℕ
android_o = 26

abbrev pub android_o_mr1 : ℕ
android_o_mr1 = 27

abbrev pub android_p : ℕ
android_p = 28

-- `~f` of a `u4`.
abbrev pub complement : ℕ → ℕ
complement f = 2 ^ 32 - 1 - f

-- `atoi` on the digits of a system property, which has neither a sign nor white space before them.
abbrev atoi_from : ℕ → Text → ℕ
atoi_from n [] = n
atoi_from n (c ∷ s) =
    let rest = atoi_from (n * 10 + (c - b'0')) s in if leb b'0' c && leb c b'9' then rest else n

abbrev pub atoi : Text → ℕ
atoi s = atoi_from 0 s

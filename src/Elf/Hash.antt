-- ===== src/Elf/Hash.antt =====
-- The two hash functions of cpp/xhook/xh_elf.c, over the bytes of a name.
use Prim.Native.Nat.{bit_xor}
use art_hook.Base.{ℕ, ◌+◌, ◌*◌, ◌/◌, ◌^◌, [], ◌∷◌, bit_and, Text}
use art_hook.Machine.{u32}

-- One round of the loop of `xh_elf_hash`: `h ^= g; h ^= g >> 24;`.
unfoldable pub elf_hash_round : ℕ → ℕ → ℕ
elf_hash_round h c =
    let h' = u32 (u32 (h * 2 ^ 4) + c) in
    let g = bit_and h' 0xf0000000 in bit_xor (bit_xor h' g) (g / 2 ^ 24)

unfoldable pub elf_hash_from : ℕ → Text → ℕ
unfolding elf_hash_round
elf_hash_from h [] = h
elf_hash_from h (c ∷ name) = elf_hash_from (elf_hash_round h c) name

unfoldable pub elf_hash : Text → ℕ
unfolding elf_hash_from
elf_hash name = elf_hash_from 0 name

unfoldable pub gnu_hash_from : ℕ → Text → ℕ
gnu_hash_from h [] = h
gnu_hash_from h (c ∷ name) = gnu_hash_from (u32 (h + u32 (u32 (h * 2 ^ 5) + c))) name

unfoldable pub gnu_hash : Text → ℕ
unfolding gnu_hash_from
gnu_hash name = gnu_hash_from 5381 name

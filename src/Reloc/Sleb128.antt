-- ===== src/Reloc/Sleb128.antt =====
-- `xh_elf_sleb128_decoder_t` of cpp/xhook/xh_elf.c, for a 64-bit `size_t`.
pub mod Laws
pub mod Value
use art_hook.Base.{
  ℕ, zero, suc, ◌+◌, ◌-◌, ◌*◌, ◌^◌, bit_and, bit_or, ◌&&◌, ◌!=◌, ltb, if◌then◌else◌,
}
use art_hook.Machine.{u32, u64, Cmd, pure, undef, ◌>>=◌, load8}

pub record Decoder : Type 0 where
  pub cur : ℕ
  pub end : ℕ

-- What a call leaves behind: the value in `*ret`, or the error code with `*ret` not written.
pub data Decoded : Type 0 where
  value : ℕ → Decoder → Decoded
  error : ℕ → Decoder → Decoded

unfoldable pub decoder_init : ℕ → ℕ → Decoder
decoder_init rel rel_sz = record { cur = rel; end = u64 (rel + u32 rel_sz) }

abbrev pub size : ℕ
size = 64

-- XH_ERRNO_FORMAT.
abbrev pub format : ℕ
format = 1007

-- After the loop: the sign bit of the last byte is spread over the higher bits.
unfoldable pub extend_sign : ℕ → ℕ → ℕ → ℕ
extend_sign byte shift v =
    if ltb shift size && (bit_and byte 64 != 0) then bit_or v (u64 (2 ^ 64 - 2 ^ shift)) else v

-- The `do` loop with `left` bytes before `end`. A shift by 64 bits or more is undefined in C.
unfoldable pub decode_loop : (left cur end shift v : ℕ) → Cmd Decoded
unfolding extend_sign
decode_loop zero cur end shift v = pure (error format (record { cur = cur; end = end }))
decode_loop (suc left) cur end shift v = do
  byte ← load8 cur
  let v' = bit_or v (u64 (bit_and byte 127 * 2 ^ shift))
  let more = decode_loop left (cur + 1) end (shift + 7) v'
  let last = pure (value (extend_sign byte (shift + 7) v') (record { cur = cur + 1; end = end }))
  if ltb shift size then (if bit_and byte 128 != 0 then more else last) else undef

unfoldable pub decoder_next : Decoder → Cmd Decoded
unfolding decode_loop
decoder_next d = decode_loop (d.end - d.cur) d.cur d.end 0 0

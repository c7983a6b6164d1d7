-- ===== src/Reloc/Sleb128/Laws.antt =====
-- How far a call of `xh_elf_sleb128_decoder_next` moves the decoder.
use art_hook.Base.{
  ℕ, zero, suc, ◌+◌, ◌-◌, ◌*◌, ◌^◌, ◌≤◌, ◌<◌, ◌≡◌, refl, arith, bit_and, bit_or, ◌!=◌, ltb,
}
use art_hook.Machine.{u64, Mem, Res, undef}
use art_hook.Machine.Laws.{
  Ensures, returns, undefined, bind, branch, weaken, Keeps-load8, at_return,
}
use art_hook.Reloc.Sleb128.{Decoder, Decoded, value, error, format, size, decode_loop, decoder_next}

-- A value was made of at least one byte, all of them before the end; an error is XH_ERRNO_FORMAT,
-- after which nothing is left to read.
abbrev pub Moved : Decoder → Decoded → Type 0
Moved d (value v e) = (e.end ≡ d.end) × ((d.cur < e.cur) × (e.cur ≤ d.end))
Moved d (error r e) = (e.end ≡ d.end) × ((r ≡ format) × (e.end ≤ e.cur))

abbrev Moves : Decoder → Mem → Res Decoded → Type 0
Moves d m r = Ensures (λ x n. (n ≡ m) × Moved d x) (λ n. n ≡ m) r

Moved-later :
    (d d' : Decoder) (x : Decoded) → d'.end ≡ d.end → d.cur ≤ d'.cur → Moved d' x → Moved d x
Moved-later d d' (value v e) same le h = ground arith
Moved-later d d' (error r e) same le h = ground arith

Moves-decode_loop :
    (left cur end shift v : ℕ) (m : Mem)
    → left ≡ end - cur
    → Moves (record { cur = cur; end = end }) m (decode_loop left cur end shift v m)
unfolding decode_loop
Moves-decode_loop zero cur end shift v m e = returns (refl, (refl, (refl, omega arith)))
Moves-decode_loop (suc left) cur end shift v m e = bind (Keeps-load8 cur m) λ byte n same. rw same (
    branch (ltb shift size) _ undef m
      (λ _.
        branch (bit_and byte 128 != 0) _ _ m
          (λ _.
            weaken
              (Moves-decode_loop left (cur + 1) end (shift + 7)
                (bit_or v (u64 (bit_and byte 127 * 2 ^ shift))) m (omega arith))
              (λ x l h. (
                h.0,
                Moved-later (record { cur = cur; end = end }) (record { cur = cur + 1; end = end })
                    x refl (omega arith) h.1,
              ))
              (λ l f. f))
          (λ _. returns (refl, (refl, (omega arith, omega arith)))))
      (λ _. undefined))

pub Moves-decoder_next : (d : Decoder) (m : Mem) → Moves d m (decoder_next d m)
unfolding decoder_next
Moves-decoder_next d m = Moves-decode_loop (d.end - d.cur) d.cur d.end 0 0 m refl

-- A call that decodes a value has read at least one byte and none behind the end, and a call
-- that fails does it with XH_ERRNO_FORMAT, at the end; neither changes memory.
pub decoder_next-Moved :
    (d : Decoder) (m n : Mem) (x : Decoded) → decoder_next d m ≡ Res.done x n → (n ≡ m) × Moved d x
decoder_next-Moved d m n x run = at_return (rw run at (Moves-decoder_next d m))

-- At the end a call reads nothing and fails.
pub decoder_next-at_end :
    (d : Decoder) (m : Mem) → d.end ≤ d.cur → decoder_next d m ≡ Res.done (error format d) m
unfolding decoder_next decode_loop
decoder_next-at_end d m h = let none_left : d.end - d.cur ≡ 0 = omega arith in rw none_left

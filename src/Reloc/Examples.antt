-- ===== src/Reloc/Examples.antt =====
-- The decoders of cpp/xhook/xh_elf.c on a few bytes.
use art_hook.Base.{ℕ, zero, suc, ◌-◌, ◌^◌, ◌≡◌, refl, Option, some, arith, List, [], ◌∷◌}
use art_hook.Machine.{Mem, Res, u64, load8}
use art_hook.Reloc.Sleb128.{Decoder, Decoded, value, decoder_next}
use art_hook.Reloc.Sleb128.Value.{meaning, decoder_next-meaning}

-- -129 is 0xff 0x7e: the digits 127 and 126.
abbrev pub bytes : ℕ → Option ℕ
bytes zero = some 0xff
bytes (suc zero) = some 0x7e
bytes (suc (suc i)) = some 0x80

abbrev memory : Mem
memory = record { cell = bytes; prot = λ p. 1 }

abbrev digits : List ℕ
digits = 127 ∷ 126 ∷ []

abbrev decoder : Decoder
decoder = record { cur = 0; end = 3 }

decoder_next-meaning_example :
    decoder_next decoder memory
    ≡ Res.done (value (u64 (meaning digits)) (record { cur = 2; end = 3 })) memory
decoder_next-meaning_example =
    decoder_next-meaning digits decoder memory
      ((omega arith, (refl, refl)), (omega arith, (refl, refl))) (omega arith) (omega arith)

minus_129 : u64 (meaning digits) ≡ 2 ^ 64 - 129
minus_129 = refl

abbrev decoded : Decoded
decoded = value (2 ^ 64 - 129) (record { cur = 2; end = 3 })

decoder_runs : decoder_next decoder memory ≡ Res.done decoded memory
unfolding decoder_next load8
decoder_runs = refl

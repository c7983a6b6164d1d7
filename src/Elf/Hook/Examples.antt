-- ===== src/Elf/Hook/Examples.antt =====
-- A packed table of two entries, for the loop of cpp/xhook/xh_elf.c over it.
use art_hook.Base.{ℕ, ◌<◌, ◌≡◌, ◌≢◌, refl, true, arith, [], ◌∷◌, Text}
use art_hook.Machine.{Mem, Res, load8}
use art_hook.Reloc.Sleb128.{decoder_next}
use art_hook.Reloc.Packed.{PackedIterator, packed_zero, packed_init}
use art_hook.Elf.Image.{Elf, cleared}
use art_hook.Elf.Examples.{at_base, kernel}
use art_hook.Elf.Hook.{hook_packed}
use art_hook.Elf.Hook.PackedEnds.{hook_packed-ends}
use art_hook.Elf.Hook.PackedFails.{hook_packed-failed_init}

-- The count, the offset, and a group of two entries with the distance 8 and the info of symbol 1.
abbrev packed : Text
packed = 2 ∷ 16 ∷ 2 ∷ 3 ∷ 8 ∷ 0x81 ∷ 0x88 ∷ 0x80 ∷ 0x80 ∷ 0x10 ∷ []

abbrev process : Mem
process = record { cell = at_base 4096 packed; prot = λ p. 3 }

abbrev elf : Elf
elf = record cleared { relandroid = 4096; relandroid_sz = 10; is_use_rela = true }

abbrev returned : Res (ℕ × PackedIterator) → PackedIterator
unfolding packed_zero
returned (Res.done (r, iter) m) = iter
returned (Res.segv m) = packed_zero 0 0 true
returned Res.undefined = packed_zero 0 0 true
returned Res.out_of_fuel = packed_zero 0 0 true

abbrev iter : PackedIterator
unfolding packed_init load8
iter = returned (packed_init 4096 10 true process)

packed_inited : packed_init 4096 10 true process ≡ Res.done (0, iter) process
unfolding packed_init load8 iter decoder_next
packed_inited = refl

few_entries : iter.relocation_count < 3
unfolding packed_init load8 iter decoder_next
few_entries = omega arith

hook_packed-ends_example : hook_packed kernel elf 0x77 0 1 3 process ≢ Res.out_of_fuel
hook_packed-ends_example =
    hook_packed-ends kernel elf 0x77 0 1 3 0 iter process process packed_inited few_entries

-- A table of three bytes: the count is read, and the first offset is cut short.
abbrev broken : Mem
broken = record { cell = at_base 4096 (0xff ∷ 0x7e ∷ 0x80 ∷ []); prot = λ p. 3 }

abbrev broken_elf : Elf
broken_elf = record elf { relandroid_sz = 3 }

abbrev broken_iter : PackedIterator
unfolding packed_init load8
broken_iter = returned (packed_init 4096 3 true broken)

broken_init : packed_init 4096 3 true broken ≡ Res.done (1007, broken_iter) broken
unfolding packed_init load8 broken_iter decoder_next
broken_init = refl

hook_packed-failed_init_example :
    hook_packed kernel broken_elf 0x77 0 1 1 broken ≡ Res.done 0 broken
hook_packed-failed_init_example =
    hook_packed-failed_init kernel broken_elf 0x77 0 1 0 1007 broken_iter broken broken broken_init
      (λ e. absurd (omega arith))

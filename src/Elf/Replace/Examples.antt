-- ===== src/Elf/Replace/Examples.antt =====
-- A slot on a page that cannot be written, for cpp/xhook/xh_elf.c.
use art_hook.Base.{ℕ, ◌≡◌, refl, ◌⊎◌, inl, none, some, arith, ◌∷◌, Text}
use art_hook.Machine.{Mem, Res}
use art_hook.Machine.Stores.{peek}
use art_hook.Machine.Total.{Legible, Usable, usable-Usable, usable}
use art_hook.Maps.Protect.{Kernel, get_addr_protect, get_mem_protect}
use art_hook.Elf.Examples.{process, path}
use art_hook.Elf.Replace.{replace_function}
use art_hook.Elf.Replace.Laws.{KeepsBytes, Swapped}
use art_hook.Elf.Replace.Total.{Grants, replace_function-succeeds}

-- "1000-2000 r--p 0 0:0 0 /x"
abbrev sealed_line : Text
sealed_line =
    b'1' ∷ b'0' ∷ b'0' ∷ b'0' ∷ b'-' ∷ b'2' ∷ b'0' ∷ b'0' ∷ b'0' ∷ b' ' ∷ b'r' ∷ b'-' ∷ b'-' ∷ b'p'
    ∷ b' ' ∷ b'0' ∷ b' ' ∷ b'0' ∷ b':' ∷ b'0' ∷ b' ' ∷ b'0' ∷ b' ' ∷ path

abbrev kernel : Kernel
kernel = record {
  self_maps = λ m. some sealed_line;
  mprotect = λ addr len prot m. (none, record m { prot = λ p. prot });
}

abbrev sealed : Mem
sealed = record process { prot = λ p. 1 }

abbrev slot : ℕ
slot = 4488

kernel-KeepsBytes : KeepsBytes kernel
kernel-KeepsBytes = record { bytes = λ addr len prot m x. refl }

kernel-Grants : Grants kernel slot
kernel-Grants = record {
  granted = λ start len prot m low high. (refl, λ x from to. refl, λ x. inl refl);
}

slot-Legible : Legible sealed 8 slot
slot-Legible = record {
  shown = λ x from to. let h = open_slot.place x from to in (h.byte, h.mapped, refl);
}
  where
    open_slot : Usable process 8 slot
    open_slot = usable-Usable 8 slot process (unfold usable in refl)

slot_listed : get_addr_protect kernel slot (some path) sealed ≡ Res.done (0, 1) sealed
unfolding get_addr_protect get_mem_protect
slot_listed = refl

replace_function-succeeds_example :
    (n : Mem) × (replace_function kernel (some path) slot 0x77 0 sealed ≡ Res.done 0 n)
    × (Swapped kernel kernel-KeepsBytes slot 0x77 0 0x55 (omega arith) (omega arith) (inl refl) n
        ⊎ ((◌≡◌ {A = ℕ} 0x55 0x77) × (n ≡ sealed)))
replace_function-succeeds_example =
    replace_function-succeeds kernel kernel-KeepsBytes slot kernel-Grants (omega arith) 0x77 0 0x55
      (some path) sealed 1 (omega arith) (omega arith) (inl refl) (unfold peek in refl) slot-Legible
      slot_listed (λ e. absurd (omega arith)) (inl refl)

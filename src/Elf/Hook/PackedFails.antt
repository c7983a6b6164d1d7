-- ===== src/Elf/Hook/PackedFails.antt =====
-- `xh_elf_hook` of cpp/xhook/xh_elf.c where the iterator over the packed table is not initialised.
use art_hook.Base.{ℕ, suc, ◌≡◌, ◌≢◌, refl, inl, inr, ◌==◌, Bool-cases}
use art_hook.Machine.{Mem, Res}
use art_hook.Machine.Laws.{at_return}
use art_hook.Maps.Protect.{Kernel}
use art_hook.Reloc.Packed.{PackedIterator, packed_init}
use art_hook.Reloc.Packed.Laws.{Keeps-packed_init, packed_init-failed}
use art_hook.Elf.Image.{Elf}
use art_hook.Elf.Hook.{packed_loop, hook_packed}

module _ (k : Kernel) (self : Elf) (new_func old_func symidx : ℕ) where
  -- Where the initialisation of the iterator over the packed table returns an error, `xh_elf_hook`
  -- goes on to the loop all the same: the loop is over at its first round, whatever count of entries
  -- was read, with 0 and with the memory as it was.
  pub hook_packed-failed_init :
      (rounds r : ℕ) (iter : PackedIterator) (m n : Mem)
      → packed_init self.relandroid self.relandroid_sz self.is_use_rela m ≡ Res.done (r, iter) n
      → r ≢ 0
      → hook_packed k self new_func old_func symidx (suc rounds) m ≡ Res.done 0 m
  unfolding hook_packed packed_loop
  hook_packed-failed_init rounds r iter m n run failed =
      let kept : n ≡ m =
        at_return
          (rw run at (Keeps-packed_init m self.relandroid self.relandroid_sz self.is_use_rela)) in
      let over =
        packed_init-failed self.relandroid self.relandroid_sz r self.is_use_rela iter m n run
          failed in
      elim (Bool-cases (self.relandroid == 0)) [
        | inl absent ↦ rw absent refl
        | inr present ↦ rw (present, run, over, kept) refl
      ]

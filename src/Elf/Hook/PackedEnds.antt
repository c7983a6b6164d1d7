-- ===== src/Elf/Hook/PackedEnds.antt =====
-- The loop of `xh_elf_hook` of cpp/xhook/xh_elf.c over the packed table ends within its rounds.
use art_hook.Base.{
  ℕ, zero, suc, ◌-◌, ◌^◌, ◌<◌, ◌≡◌, ◌≢◌, inl, inr, false, Option, none, some, arith, ◌==◌, ◌!=◌,
  if◌then◌else◌,
}
use art_hook.Machine.{Mem, Res, Cmd, pure, ◌>>=◌}
use art_hook.Machine.Ends.{Ends, returns, Ends→≢, Ends-bind, Ends-branch, Ends-EndsWith, given_back}
use art_hook.Maps.Protect.{Kernel}
use art_hook.Reloc.Packed.{Rela, PackedIterator, packed_init}
use art_hook.Reloc.Packed.Ends.{Counted, packed_next-Counted, packed_init-Fits}
use art_hook.Elf.Image.{Elf}
use art_hook.Elf.Hook.{unpacked, find_and_replace_func, packed_loop, hook_packed}
use art_hook.Elf.Hook.Ends.{Ends-find_and_replace_func}

module _ (k : Kernel) (self : Elf) (new_func old_func symidx : ℕ) where
  Ends-packed_loop :
      (rounds : ℕ) (iter : PackedIterator) (m : Mem)
      → iter.relocation_count < 2 ^ 64
      → iter.relocation_count - iter.relocation_index < rounds
      → Ends (packed_loop k self new_func old_func symidx rounds iter m)
  unfolding packed_loop
  Ends-packed_loop zero iter m fits enough = absurd (omega arith)
  Ends-packed_loop (suc rounds) iter m fits enough =
      Ends-EndsWith (packed_next-Counted iter m fits)
        λ x n c. step x n c (λ next l small less. Ends-packed_loop rounds next l small less)
    where
      on_entry : PackedIterator → Rela → Cmd ℕ
      on_entry next e = do
        (r, _) ← find_and_replace_func k self new_func old_func symidx false (unpacked e)
        let rest = packed_loop k self new_func old_func symidx rounds next
        if r != 0 then pure r else rest

      step :
          (x : Option Rela × PackedIterator) (n : Mem)
          → Counted iter x
          → ((next : PackedIterator) (l : Mem)
              → next.relocation_count < 2 ^ 64
              → next.relocation_count - next.relocation_index < rounds
              → Ends (packed_loop k self new_func old_func symidx rounds next l))
          → Ends ((elim x.0 as (λ _. Cmd ℕ) [ none ↦ pure 0 | some e ↦ on_entry x.1 e ]) n)
      step (none, next) n c rest = returns
      step (some e, next) n (inl over) rest = absurd (ground (arith, over))
      step (some e, next) n (inr (more, count, index)) rest =
          Ends-bind
            (Ends-find_and_replace_func k self new_func old_func symidx false (unpacked e) n)
            λ f l.
              Ends-branch (f.0 != 0) (pure f.0) _ l returns
                (rest next l (omega (arith, count)) (omega (arith, more, count, index)))

  -- Where the initialisation of the iterator returns, the loop over the packed table ends, whatever
  -- the table has: one round for each entry that the table counts, and one more, are enough.
  pub hook_packed-ends :
      (fuel r : ℕ) (iter : PackedIterator) (m n : Mem)
      → packed_init self.relandroid self.relandroid_sz self.is_use_rela m ≡ Res.done (r, iter) n
      → iter.relocation_count < fuel
      → hook_packed k self new_func old_func symidx fuel m ≢ Res.out_of_fuel
  unfolding hook_packed
  hook_packed-ends fuel r iter m n run enough =
      let (fits, first) =
        given_back
          (rw run at (packed_init-Fits self.relandroid self.relandroid_sz self.is_use_rela m)) in
      Ends→≢ _ (
        Ends-branch (self.relandroid == 0) (pure 0) _ m returns
          (rw run (Ends-packed_loop fuel iter n fits (omega arith))))

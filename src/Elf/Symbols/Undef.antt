-- ===== src/Elf/Symbols/Undef.antt =====
-- `xh_elf_gnu_hash_lookup_undef`, the linear search below the symbols that the hash table covers,
-- against its description.
use art_hook.Base.{
  ℕ, zero, suc, ◌+◌, ◌<◌, ◌≡◌, refl, ◌∙◌, true, false, Option, none, some, arith, Text,
}
use art_hook.Machine.{Mem, Res, pure}
use art_hook.Machine.Laws.{Ensures, returns, bind, branch, weaken, observe, at_return}
use art_hook.Elf.Image.{Elf}
use art_hook.Elf.Symbols.{names, undef_walk, gnu_hash_lookup_undef}
use art_hook.Elf.Symbols.Laws.{Keeps-names}

module _ (self : Elf) (symbol : Text) (m : Mem) where
  -- The `n` symbols from `i` on have other names.
  abbrev pub Others : (n i : ℕ) → Type 0
  Others zero i = Unit {0}
  Others (suc n) i = (names self symbol i m ≡ Res.done false m) × Others n (i + 1)

  -- The first of the `n` symbols from `i` on that has the name, if one has.
  abbrev pub First : (n i : ℕ) → Option ℕ → Type 0
  First n i none = Others n i
  First n i (some j) =
      (k : ℕ) × ((k < n) × ((j ≡ i + k) × (Others k i × (names self symbol j m ≡ Res.done true m))))

  First-later :
      (n i : ℕ) (o : Option ℕ)
      → names self symbol i m ≡ Res.done false m
      → First n (i + 1) o
      → First (suc n) i o
  First-later n i none e h = (e, h)
  First-later n i (some j) e (k, (lt, (at_k, (others, hit)))) =
      (suc k, (omega arith, (omega arith, ((e, others), hit))))

  First-undef_walk :
      (n i : ℕ) → Ensures (λ o l. (l ≡ m) × First n i o) (λ l. l ≡ m) (undef_walk n i self symbol m)
  unfolding undef_walk
  First-undef_walk zero i = returns (refl, tt)
  First-undef_walk (suc n) i = bind (observe m _ (Keeps-names self symbol m i)) λ hit l h. rw h.0 (
      branch hit (pure (some i)) _ m
        (λ on. returns (refl, (0, (omega arith, (omega arith, (tt, h.1 ∙ rw on))))))
        (λ off.
          weaken (First-undef_walk n (i + 1))
            (λ o l h'. (h'.0, First-later n i o (h.1 ∙ rw off) h'.1)) (λ l e. e)))

  -- Where the search returns, it returns the first symbol of that name among those below
  -- `symoffset`, or none of them has the name; and it leaves the memory as it was.
  pub gnu_hash_lookup_undef-First :
      (l : Mem) (o : Option ℕ)
      → gnu_hash_lookup_undef self symbol m ≡ Res.done o l
      → (l ≡ m) × First self.symoffset 0 o
  unfolding gnu_hash_lookup_undef
  gnu_hash_lookup_undef-First l o run = at_return (rw run at (First-undef_walk self.symoffset 0))

-- ===== src/Art/Members/Laws.antt =====
-- What `GetOffsetByValue` finds.
use native.Mathlib.Nat.{mul-le-mul_right, suc-mul, zero-mul}
use art_hook.Base.{
  ap, ◌∙◌, sym, ℕ, zero, suc, ◌+◌, ◌*◌, ◌^◌, ◌<◌, ◌≡◌, ◌≢◌, refl, ◌⊎◌, inl, inr, arith, ◌==◌, some,
}
use art_hook.Machine.{Mem, Res, pure, u64}
use art_hook.Machine.Laws.{Ensures, returns, bind, branch, weaken, at_return}
use art_hook.Machine.Stores.{peek, peek-load_le}
use art_hook.Art.Members.{offset_by_value_from, get_offset_by_value}

module _ (size obj x : ℕ) (fits : obj + 24 * size < 2 ^ 64) (m : Mem) where
  -- None of the first `n` slots holds the value.
  abbrev pub Misses : ℕ → Type 0
  Misses zero = Unit {0}
  Misses (suc n) = Misses n × (peek size (obj + n * size) m ≢ some x)

  -- The offset is that of the first slot with the value, or 0 where none of the 24 has it.
  abbrev pub FirstSlot : ℕ → Type 0
  FirstSlot v =
      ((i : ℕ) × (i < 24) × (v ≡ i * size) × (peek size (obj + i * size) m ≡ some x) × Misses i)
      ⊎ ((v ≡ 0) × Misses 24)

  from-FirstSlot :
      (n i : ℕ)
      → i + n ≡ 24
      → Misses i
      → Ensures
          (λ v m'. (m' ≡ m) × FirstSlot v)
          (λ _. Unit {0})
          (offset_by_value_from n size obj x (i * size) m)
  unfolding offset_by_value_from
  from-FirstSlot zero i e misses =
      let all : i ≡ 24 = omega arith in returns (refl, inr (refl, rw all at misses))
  from-FirstSlot (suc n) i e misses =
      let place : u64 (obj + i * size) ≡ obj + i * size =
        omega (arith, mul-le-mul_right {m = i} {n = 24} size (omega arith)) in
      rw place (
        bind (weaken (peek-load_le size (obj + i * size) m) (λ v k h. h) (λ k h. tt)) λ v k h.
          rw h.0 (
            branch (v == x) (pure (i * size)) _ m
              (λ hit. returns (refl, inl (i, omega arith, refl, ground (arith, h.1), misses)))
              (λ miss.
                let next : i * size + size ≡ suc i * size = sym (suc-mul i size) in
                rw next (from-FirstSlot n (suc i) (omega arith) (misses, ground (arith, h.1))))))

  -- A search that returns has changed nothing, and gives the offset of the first of the 24 slots
  -- that holds the value, and 0 exactly if that is the first slot or if no slot holds it. It is
  -- supposed that the slots do not run over the end of the address space.
  pub get_offset_by_value-FirstSlot :
      (v : ℕ) (m' : Mem) → get_offset_by_value size obj x m ≡ Res.done v m' → (m' ≡ m) × FirstSlot v
  unfolding get_offset_by_value
  get_offset_by_value-FirstSlot v m' run =
      let run' : offset_by_value_from 24 size obj x (0 * size) m ≡ Res.done v m' =
        ap (λ z. offset_by_value_from 24 size obj x z m) (zero-mul size) ∙ run in
      at_return (rw run' at (from-FirstSlot 24 0 refl tt))

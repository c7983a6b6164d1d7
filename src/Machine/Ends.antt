-- ===== src/Machine/Ends.antt =====
-- Runs that do not use up their rounds.
use art_hook.Base.{
  ℕ, zero, suc, ◌+◌, ◌≡◌, ◌≢◌, refl, Bool, true, false, Option, none, some, if◌then◌else◌,
}
use art_hook.Machine.{
  Mem, Res, Cmd, and_then, pure, readable, writable, load8, load_le, store8, store_le, put, u8,
}

-- The run returns, is stopped by SIGSEGV, or does what C leaves undefined.
pub data Ends {A : Type 0} : Res A → Type 0 where
  returns : {a : A} {m : Mem} → Ends (Res.done a m)
  faults : {m : Mem} → Ends (Res.segv m)
  undefined : Ends Res.undefined

pub Ends→≢ : {A : Type 0} (r : Res A) → Ends r → r ≢ Res.out_of_fuel
Ends→≢ r returns = λ e. cc
Ends→≢ r faults = λ e. cc
Ends→≢ r undefined = λ e. cc

pub Ends-bind :
    {A B : Type 0} {r : Res A} {k : A → Cmd B}
    → Ends r
    → ((a : A) (m : Mem) → Ends (k a m))
    → Ends (and_then r k)
Ends-bind returns next = next _ _
Ends-bind faults next = faults
Ends-bind undefined next = undefined

pub Ends-branch :
    {A : Type 0} (b : Bool) (c d : Cmd A) (m : Mem)
    → Ends (c m)
    → Ends (d m)
    → Ends ((if b then c else d) m)
Ends-branch true c d m yes_case no_case = yes_case
Ends-branch false c d m yes_case no_case = no_case

pub Ends-load8 : (a : ℕ) (m : Mem) → Ends (load8 a m)
unfolding load8
Ends-load8 a m = cases (m.cell a)
  where
    cases :
        (o : Option ℕ)
        → Ends
            (elim o [ none ↦ Res.segv m | some b ↦ (if readable m a then pure b else Res.segv) m ])
    cases none = faults
    cases (some b) = Ends-branch (readable m a) (pure b) Res.segv m returns faults

pub Ends-load_le : (n a : ℕ) (m : Mem) → Ends (load_le n a m)
unfolding load_le
Ends-load_le zero a m = returns
Ends-load_le (suc n) a m =
    Ends-bind (Ends-load8 a m) λ b m1. Ends-bind (Ends-load_le n (a + 1) m1) (λ rest m2. returns)

Ends-store8 : (a b : ℕ) (m : Mem) → Ends (store8 a b m)
unfolding store8
Ends-store8 a b m = cases (m.cell a)
  where
    cases :
        (o : Option ℕ)
        → Ends (elim o [
          | none ↦ Res.segv m
          | some _ ↦ (if writable m a then (λ m. Res.done tt (put m a (u8 b))) else Res.segv) m
        ])
    cases none = faults
    cases (some _) = Ends-branch (writable m a) _ Res.segv m returns faults

pub Ends-store_le : (n a v : ℕ) (m : Mem) → Ends (store_le n a v m)
unfolding store_le
Ends-store_le zero a v m = returns
Ends-store_le (suc n) a v m = Ends-bind (Ends-store8 a _ m) (λ _ m1. Ends-store_le n (a + 1) _ m1)

-- The same, with what is returned.
pub data EndsWith {A : Type 0} (P : A → Type 0) : Res A → Type 0 where
  gives : {a : A} {m : Mem} → P a → EndsWith P (Res.done a m)
  stopped : {m : Mem} → EndsWith P (Res.segv m)
  stray : EndsWith P Res.undefined

module _ {A : Type 0} {P : A → Type 0} where
  pub EndsWith-bind :
      {B : Type 0} {Q : B → Type 0} {r : Res A} {k : A → Cmd B}
      → EndsWith P r
      → ((a : A) (m : Mem) → P a → EndsWith Q (k a m))
      → EndsWith Q (and_then r k)
  EndsWith-bind (gives p) next = next _ _ p
  EndsWith-bind stopped next = stopped
  EndsWith-bind stray next = stray

  pub EndsWith-branch :
      (b : Bool) (c d : Cmd A) (m : Mem)
      → (b ≡ true → EndsWith P (c m))
      → (b ≡ false → EndsWith P (d m))
      → EndsWith P ((if b then c else d) m)
  EndsWith-branch true c d m yes_case no_case = yes_case refl
  EndsWith-branch false c d m yes_case no_case = no_case refl

  pub Ends-EndsWith :
      {B : Type 0} {r : Res A} {k : A → Cmd B}
      → EndsWith P r
      → ((a : A) (m : Mem) → P a → Ends (k a m))
      → Ends (and_then r k)
  Ends-EndsWith (gives p) next = next _ _ p
  Ends-EndsWith stopped next = faults
  Ends-EndsWith stray next = undefined

  pub given_back : {a : A} {m : Mem} → EndsWith P (Res.done a m) → P a
  given_back (gives p) = p

pub EndsWith-Ends : {A : Type 0} {r : Res A} → Ends r → EndsWith (λ a. Unit {0}) r
EndsWith-Ends returns = gives tt
EndsWith-Ends faults = stopped
EndsWith-Ends undefined = stray

-- ===== src/Machine/Laws.antt =====
-- What every outcome of a run satisfies, with a rule for sequencing; the loads change nothing.
use art_hook.Base.{
  ℕ, zero, suc, ◌+◌, ◌≡◌, refl, Bool, true, false, Option, none, some, ◌==◌, if◌then◌else◌, Text,
  [], ◌∷◌,
}
use art_hook.Machine.{Mem, Res, Cmd, and_then, pure, readable, load8, load_le, strcmp_at}

-- `P` holds where the run returns, and `F` of the memory at a SIGSEGV.
pub data Ensures {A : Type 0} (P : A → Mem → Type 0) (F : Mem → Type 0) : Res A → Type 0 where
  returns : {a : A} {m : Mem} → P a m → Ensures P F (Res.done a m)
  faults : {m : Mem} → F m → Ensures P F (Res.segv m)
  undefined : Ensures P F Res.undefined
  out_of_fuel : Ensures P F Res.out_of_fuel

module _ {A : Type 0} {P : A → Mem → Type 0} {F : Mem → Type 0} where
  pub bind :
      {B : Type 0} {Q : B → Mem → Type 0} {r : Res A} {k : A → Cmd B}
      → Ensures P F r
      → ((a : A) (m : Mem) → P a m → Ensures Q F (k a m))
      → Ensures Q F (and_then r k)
  bind (returns p) next = next _ _ p
  bind (faults f) next = faults f
  bind undefined next = undefined
  bind out_of_fuel next = out_of_fuel

  pub weaken :
      {Q : A → Mem → Type 0} {G : Mem → Type 0} {r : Res A}
      → Ensures P F r
      → ((a : A) (m : Mem) → P a m → Q a m)
      → ((m : Mem) → F m → G m)
      → Ensures Q G r
  weaken (returns p) on_return on_fault = returns (on_return _ _ p)
  weaken (faults f) on_return on_fault = faults (on_fault _ f)
  weaken undefined on_return on_fault = undefined
  weaken out_of_fuel on_return on_fault = out_of_fuel

  pub forget : {r : Res A} → Ensures P F r → Ensures P (λ m. Unit {0}) r
  forget h = weaken h (λ a m p. p) (λ m f. tt)

  pub at_return : {a : A} {m : Mem} → Ensures P F (Res.done a m) → P a m
  at_return (returns p) = p

  pub at_fault : {m : Mem} → Ensures P F (Res.segv m) → F m
  at_fault (faults f) = f

module _ {A : Type 0} {P : A → Mem → Type 0} {F : Mem → Type 0} where
  pub branch :
      (b : Bool) (c d : Cmd A) (m : Mem)
      → (b ≡ true → Ensures P F (c m))
      → (b ≡ false → Ensures P F (d m))
      → Ensures P F ((if b then c else d) m)
  branch true c d m yes_case no_case = yes_case refl
  branch false c d m yes_case no_case = no_case refl

-- The same where the code tests a pointer for NULL.
module _ {A B : Type 0} {P : A → Mem → Type 0} {F : Mem → Type 0} where
  pub on_option :
      (o : Option B) (c : Cmd A) (d : B → Cmd A) (m : Mem)
      → Ensures P F (c m)
      → ((b : B) → Ensures P F (d b m))
      → Ensures P F ((elim o as (λ _. Cmd A) [ none ↦ c | some b ↦ d b ]) m)
  on_option none c d m absent given = absent
  on_option (some b) c d m absent given = given b

-- The run, returning or stopped, leaves the memory `m`.
abbrev pub Keeps : {A : Type 0} → Mem → Res A → Type 0
Keeps {A} m r = Ensures {A = A} (λ _ n. n ≡ m) (λ n. n ≡ m) r

pub Keeps-bind :
    {A B : Type 0} (m : Mem) (r : Res A) (k : A → Cmd B)
    → Keeps m r
    → ((a : A) → Keeps m (k a m))
    → Keeps m (and_then r k)
Keeps-bind m r k h next = bind h (λ a n e. rw e (next a))

pub Keeps-load8 : (a : ℕ) (m : Mem) → Keeps m (load8 a m)
unfolding load8
Keeps-load8 a m = cases (m.cell a)
  where
    cases :
        (o : Option ℕ)
        → Keeps m
            (elim o [ none ↦ Res.segv m | some b ↦ (if readable m a then pure b else Res.segv) m ])
    cases none = faults refl
    cases (some b) =
        branch (readable m a) (pure b) Res.segv m (λ _. returns refl) (λ _. faults refl)

pub Keeps-load_le : (n a : ℕ) (m : Mem) → Keeps m (load_le n a m)
unfolding load_le
Keeps-load_le zero a m = returns refl
Keeps-load_le (suc n) a m =
    Keeps-bind m _ _ (Keeps-load8 a m)
      λ b. Keeps-bind m _ _ (Keeps-load_le n (a + 1) m) (λ rest. returns refl)

pub Keeps-strcmp_at : (s : Text) (a : ℕ) (m : Mem) → Keeps m (strcmp_at s a m)
unfolding strcmp_at
Keeps-strcmp_at [] a m = Keeps-bind m _ _ (Keeps-load8 a m) (λ b. returns refl)
Keeps-strcmp_at (c ∷ s) a m = Keeps-bind m _ _ (Keeps-load8 a m) λ b.
    branch (b == c) (strcmp_at s (a + 1)) (pure false) m (λ _. Keeps-strcmp_at s (a + 1) m)
      (λ _. returns refl)

module _ {A : Type 0} {P Q : A → Mem → Type 0} {F G : Mem → Type 0} where
  pub both :
      {r : Res A}
      → Ensures P F r
      → Ensures Q G r
      → Ensures (λ a m. P a m × Q a m) (λ m. F m × G m) r
  both (returns p) (returns q) = returns (p, q)
  both (faults f) (faults g) = faults (f, g)
  both undefined q = undefined
  both out_of_fuel q = out_of_fuel

-- A run that keeps the memory, with the equation of what it returned.
pub observe :
    {A : Type 0} (m : Mem) (r : Res A)
    → Keeps m r
    → Ensures (λ a n. (n ≡ m) × (r ≡ Res.done a m)) (λ n. n ≡ m) r
observe m (Res.done a n) (returns e) = returns (e, rw e)
observe m (Res.segv n) (faults e) = faults e
observe m Res.undefined undefined = undefined
observe m Res.out_of_fuel out_of_fuel = out_of_fuel

-- Any run, with the equation of what it returned.
pub seen : {A : Type 0} (r : Res A) → Ensures (λ a n. r ≡ Res.done a n) (λ n. Unit {0}) r
seen (Res.done a m) = returns refl
seen (Res.segv m) = faults tt
seen Res.undefined = undefined
seen Res.out_of_fuel = out_of_fuel

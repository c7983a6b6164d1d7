-- ===== src/Machine/Stores.antt =====
-- What stores change: the integer that the bytes at an address make up, and the bytes elsewhere.
use native.Mathlib.Nat.{pow-suc}
use art_hook.Base.{
  ℕ, zero, suc, ◌+◌, ◌*◌, ◌/◌, ◌%◌, ◌^◌, ◌≤◌, ◌<◌, ◌≡◌, refl, ◌∙◌, ◌⊎◌, inl, Option, none, some,
  arith, if◌then◌else◌,
}
use art_hook.Machine.{
  Mem, Res, Cmd, and_then, pure, u8, readable, writable, load8, load_le, store8, store_le, put,
}
use art_hook.Machine.Laws.{Ensures, returns, faults, bind, branch, weaken, both, Keeps}

-- The little-endian integer of the `n` bytes at `a`, where they are mapped.
unfoldable pub peek : ℕ → ℕ → Mem → Option ℕ
peek zero a m = some 0
peek (suc n) a m = elim (m.cell a) [
  | none ↦ none
  | some b ↦ elim (peek n (a + 1) m) [ none ↦ none | some rest ↦ some (b + 2 ^ 8 * rest) ]
]

-- The bytes at the addresses of `S` are those of `m`.
abbrev pub Same : (ℕ → Type 0) → Mem → Mem → Type 0
Same S m n = (x : ℕ) → S x → n.cell x ≡ m.cell x

-- The addresses outside of the `n` bytes at `a`.
abbrev pub Outside : ℕ → ℕ → ℕ → Type 0
Outside n a x = (x < a) ⊎ (a + n ≤ x)

-- However the run ends, it has left the bytes of `S` as they were in `m`.
abbrev pub Spares : {A : Type 0} → (ℕ → Type 0) → Mem → Res A → Type 0
Spares {A} S m r = Ensures {A = A} (λ _ n. Same S m n) (λ n. Same S m n) r

pub Spares-bind :
    {A B : Type 0} (S : ℕ → Type 0) (m : Mem) (r : Res A) (k : A → Cmd B)
    → Spares S m r
    → ((a : A) (n : Mem) → Spares S n (k a n))
    → Spares S m (and_then r k)
Spares-bind S m r k h next = bind h λ a n same.
    weaken (next a n) (λ b l same' x out. same' x out ∙ same x out)
      (λ l same' x out. same' x out ∙ same x out)

pub Spares-Keeps : {A : Type 0} (S : ℕ → Type 0) (m : Mem) (r : Res A) → Keeps m r → Spares S m r
Spares-Keeps S m r h = weaken h (λ a n e x out. rw e) (λ n e x out. rw e)

peek-put : (n a p b : ℕ) (m : Mem) → p < a → peek n a (put m p b) ≡ peek n a m
unfolding peek
peek-put zero a p b m h = refl
peek-put (suc n) a p b m h = ground (arith, peek-put n (a + 1) p b m)

store8-Ensures :
    (a b : ℕ) (m : Mem) → Ensures (λ _ n. n ≡ put m a (u8 b)) (λ n. n ≡ m) (store8 a b m)
unfolding store8
store8-Ensures a b m = cases (m.cell a)
  where
    cases :
        (o : Option ℕ)
        → Ensures
            (λ _ n. n ≡ put m a (u8 b))
            (λ n. n ≡ m)
            (elim o [
              | none ↦ Res.segv m
              | some _ ↦ (if writable m a then (λ m. Res.done tt (put m a (u8 b))) else Res.segv) m
            ])
    cases none = faults refl
    cases (some _) = branch (writable m a) _ Res.segv m (λ _. returns refl) (λ _. faults refl)

pub Spares-store8 :
    (S : ℕ → Type 0) (a b : ℕ) (m : Mem)
    → ((x : ℕ) → S x → Outside 1 a x)
    → Spares S m (store8 a b m)
Spares-store8 S a b m out =
    weaken (store8-Ensures a b m) (λ _ n e x s. ground (arith, e, out x s)) (λ n e x s. rw e)

pub Spares-store_le :
    (S : ℕ → Type 0) (n a v : ℕ) (m : Mem)
    → ((x : ℕ) → S x → Outside n a x)
    → Spares S m (store_le n a v m)
unfolding store_le
Spares-store_le S zero a v m out = returns (λ x s. refl)
Spares-store_le S (suc n) a v m out =
    Spares-bind S m _ _ (Spares-store8 S a (v % 2 ^ 8) m (λ x s. ground (arith, out x s)))
      (λ _ m'. Spares-store_le S n (a + 1) (v / 2 ^ 8) m' (λ x s. ground (arith, out x s)))

-- What is stored is what the bytes then make up.
pub peek-store_le :
    (n a v : ℕ) (m : Mem)
    → v < 256 ^ n
    → Ensures (λ _ m'. peek n a m' ≡ some v) (λ _. Unit {0}) (store_le n a v m)
unfolding store_le peek
peek-store_le zero a v m h = returns (ground arith)
peek-store_le (suc n) a v m h =
    bind (weaken (store8-Ensures a (v % 2 ^ 8) m) (λ _ k e. e) (λ k e. tt)) λ _ m1 e.
      weaken
        (both (peek-store_le n (a + 1) (v / 2 ^ 8) m1 (omega (arith, pow-suc 256 n)))
          (Spares-store_le (λ x. x ≡ a) n (a + 1) (v / 2 ^ 8) m1 (λ x s. inl (omega arith))))
        (λ _ m2 h2.
          let stored : m1.cell a ≡ some (v % 2 ^ 8) = rw e (ground arith) in
          let first : m2.cell a ≡ some (v % 2 ^ 8) = h2.1 a refl ∙ stored in
          ground (arith, first, h2.0))
        (λ _ f. tt)

pub load8-Ensures :
    (a : ℕ) (m : Mem) → Ensures (λ b n. (n ≡ m) × (m.cell a ≡ some b)) (λ n. n ≡ m) (load8 a m)
unfolding load8
load8-Ensures a m = cases (m.cell a) refl
  where
    cases :
        (o : Option ℕ)
        → m.cell a ≡ o
        → Ensures
            (λ b n. (n ≡ m) × (m.cell a ≡ some b))
            (λ n. n ≡ m)
            (elim o [ none ↦ Res.segv m | some b ↦ (if readable m a then pure b else Res.segv) m ])
    cases none e = faults refl
    cases (some b) e =
        branch (readable m a) (pure b) Res.segv m (λ _. returns (refl, e)) (λ _. faults refl)

-- A load returns what the bytes make up, and changes nothing.
pub peek-load_le :
    (n a : ℕ) (m : Mem)
    → Ensures (λ v k. (k ≡ m) × (peek n a m ≡ some v)) (λ k. k ≡ m) (load_le n a m)
unfolding load_le peek
peek-load_le zero a m = returns (refl, refl)
peek-load_le (suc n) a m = bind (load8-Ensures a m) λ b k h.
    rw h.0 (bind (peek-load_le n (a + 1) m) λ rest l h'. returns (h'.0, ground (arith, h.1, h'.1)))

pub peek-Same :
    (n a : ℕ) (m k : Mem) → Same (λ x. (a ≤ x) × (x < a + n)) m k → peek n a k ≡ peek n a m
unfolding peek
peek-Same zero a m k same = refl
peek-Same (suc n) a m k same =
    let first : k.cell a ≡ m.cell a = same a (omega arith) in
    let rest = peek-Same n (a + 1) m k (λ x s. same x (omega (arith, s))) in
    ground (arith, first, rest)

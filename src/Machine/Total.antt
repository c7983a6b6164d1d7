-- ===== src/Machine/Total.antt =====
-- Runs that return: memory that is open to the code, and stays open.
use art_hook.Base.{
  ℕ, zero, suc, ◌+◌, ◌*◌, ◌%◌, ◌/◌, ◌^◌, ◌≤◌, ◌<◌, ◌≡◌, refl, Bool, true, false, none, some, ◌==◌,
  if◌then◌else◌, arith, ◌⊎◌, inl, inr, Bool-cases, Option-cases, ◌&&◌,
}
use art_hook.Machine.{
  Mem, Res, Cmd, and_then, readable, writable, load8, load_le, store8, store_le, put, u8,
}
use art_hook.Machine.Laws.{Ensures, returns, faults, undefined, out_of_fuel}

-- The run returns, with `P`.
pub data Total {A : Type 0} (P : A → Mem → Type 0) : Res A → Type 0 where
  total : {a : A} {m : Mem} → P a m → Total P (Res.done a m)

pub found :
    {A : Type 0} {P : A → Mem → Type 0} {r : Res A}
    → Total P r
    → (a : A) × (m : Mem) × (r ≡ Res.done a m) × P a m
found (total p) = (_, _, refl, p)

-- A byte is mapped, and can be read and written.
pub record Open (m : Mem) (x : ℕ) : Type 0 where
  pub byte : ℕ
  pub mapped : m.cell x ≡ some byte
  pub can_read : readable m x ≡ true
  pub can_write : writable m x ≡ true

-- What is open in the first memory is open in the second.
pub record Opens (m n : Mem) : Type 0 where
  pub carry : (x : ℕ) → Open m x → Open n x

-- The `n` bytes from `a` on are open.
pub record Usable (m : Mem) (n a : ℕ) : Type 0 where
  pub place : (x : ℕ) → a ≤ x → x < a + n → Open m x

pub through : {m n l : Mem} → Opens m n → Opens n l → Opens m l
through p q = record { carry = λ x h. q.carry x (p.carry x h) }

-- The run returns, and what was open is open still.
abbrev pub Lives : {A : Type 0} → Mem → Res A → Type 0
Lives {A} m r = Total {A = A} (λ _ n. Opens m n) r

module _ {A : Type 0} {P Q : A → Mem → Type 0} where
  pub loosen : {r : Res A} → Total P r → ((a : A) (m : Mem) → P a m → Q a m) → Total Q r
  loosen (total p) weaker = total (weaker _ _ p)

  -- What a run ensures where it returns, and that it does.
  pub meet :
      {F : Mem → Type 0} {r : Res A} → Ensures P F r → Total Q r → Total (λ a m. P a m × Q a m) r
  meet (returns p) (total q) = total (p, q)
  meet (faults f) t = elim t [ ]
  meet undefined t = elim t [ ]
  meet out_of_fuel t = elim t [ ]

module _ {A B : Type 0} where
  pub follow :
      {P : A → Mem → Type 0} {Q : B → Mem → Type 0} {r : Res A} {k : A → Cmd B}
      → Total P r
      → ((a : A) (n : Mem) → P a n → Total Q (k a n))
      → Total Q (and_then r k)
  follow (total p) next = next _ _ p

  pub after :
      {m : Mem} {r : Res A} {k : A → Cmd B}
      → Lives m r
      → ((a : A) (n : Mem) → Opens m n → Lives n (k a n))
      → Lives m (and_then r k)
  after (total p) next = loosen (next _ _ p) (λ b l o. through p o)

  pub along :
      {P : A → Mem → Type 0} {F : Mem → Type 0} {m : Mem} {r : Res A} {k : A → Cmd B}
      → Ensures P F r
      → Lives m r
      → ((a : A) (n : Mem) → P a n → Opens m n → Lives n (k a n))
      → Lives m (and_then r k)
  along e t next = follow (meet e t) λ a n h. loosen (next a n h.0 h.1) (λ b l o. through h.1 o)

pub lives : {A : Type 0} {a : A} {m : Mem} → Lives m (Res.done a m)
lives = total (record { carry = λ x h. h })

pub Usable-sub : {m : Mem} {n a : ℕ} (k b : ℕ) → Usable m n a → a ≤ b → b + k ≤ a + n → Usable m k b
Usable-sub k b u low high = record { place = λ x from to. u.place x (omega arith) (omega arith) }

pub Usable-Opens : {m l : Mem} {n a : ℕ} → Opens m l → Usable m n a → Usable l n a
Usable-Opens o u = record { place = λ x from to. o.carry x (u.place x from to) }

pub Usable-tail : {m l : Mem} {n a : ℕ} → Opens m l → Usable m (suc n) a → Usable l n (a + 1)
Usable-tail {n} {a} o u = Usable-Opens o (Usable-sub n (a + 1) u (omega arith) (omega arith))

pub Usable-head : {m : Mem} {n a : ℕ} → Usable m (suc n) a → Open m a
Usable-head u = u.place _ (omega arith) (omega arith)

pub Lives-load8 : (a : ℕ) (m : Mem) → Open m a → Lives m (load8 a m)
unfolding load8
Lives-load8 a m h = rw (h.mapped, load8) (rw h.can_read lives)

pub Lives-load_le : (n a : ℕ) (m : Mem) → Usable m n a → Lives m (load_le n a m)
unfolding load_le
Lives-load_le zero a m u = lives
Lives-load_le (suc n) a m u =
    after (Lives-load8 a m (Usable-head u))
      λ b k o. after (Lives-load_le n (a + 1) k (Usable-tail o u)) (λ rest l o'. lives)

Opens-put : (m : Mem) (a b : ℕ) → Opens m (put m a b)
Opens-put m a b = record { carry = λ x h. at x h (Bool-cases (x == a)) }
  where
    at : (x : ℕ) → Open m x → ((x == a) ≡ true) ⊎ ((x == a) ≡ false) → Open (put m a b) x
    at x h (inl same) = record {
      byte = b;
      mapped = rw same refl;
      can_read = h.can_read;
      can_write = h.can_write;
    }
    at x h (inr other) = record {
      byte = h.byte;
      mapped = rw other h.mapped;
      can_read = h.can_read;
      can_write = h.can_write;
    }

pub Lives-store8 : (a b : ℕ) (m : Mem) → Open m a → Lives m (store8 a b m)
unfolding store8
Lives-store8 a b m h = rw (h.mapped, store8) (rw h.can_write (total (Opens-put m a (u8 b))))

pub Lives-store_le : (n a v : ℕ) (m : Mem) → Usable m n a → Lives m (store_le n a v m)
unfolding store_le
Lives-store_le zero a v m u = lives
Lives-store_le (suc n) a v m u =
    after (Lives-store8 a (v % 2 ^ 8) m (Usable-head u))
      λ _ k o. Lives-store_le n (a + 1) (v / 2 ^ 8) k (Usable-tail o u)

-- The test of a concrete memory.
unfoldable pub usable : (n a : ℕ) → Mem → Bool
usable zero a m = true
usable (suc n) a m = elim (m.cell a) [
  | none ↦ false
  | some b ↦ readable m a && writable m a && usable n (a + 1) m
]

pub usable-Usable : (n a : ℕ) (m : Mem) → usable n a m ≡ true → Usable m n a
unfolding usable
usable-Usable zero a m h = record { place = λ x from to. absurd (omega arith) }
usable-Usable (suc n) a m h = elim (Option-cases (m.cell a)) [
  | inl gone ↦ absurd (ground (arith, gone))
  | inr (b, first) ↦
      let rest = usable-Usable n (a + 1) m (ground (arith, first)) in
      record {
        place = λ x from to. elim (Bool-cases (x == a)) [
          | inl same ↦
              let e : x ≡ a = ground arith in
              record {
                byte = b;
                mapped = rw e first;
                can_read = rw e (ground (arith, first));
                can_write = rw e (ground (arith, first));
              }
          | inr other ↦ rest.place x (ground arith) (omega arith)
        ];
      }
]

-- The `n` bytes from `a` on are mapped and can be read.
pub record Legible (m : Mem) (n a : ℕ) : Type 0 where
  pub shown : (x : ℕ) → a ≤ x → x < a + n → (b : ℕ) × (m.cell x ≡ some b) × (readable m x ≡ true)

pub Usable-Legible : {m : Mem} {n a : ℕ} → Usable m n a → Legible m n a
Usable-Legible u = record {
  shown = λ x from to. let h = u.place x from to in (h.byte, h.mapped, h.can_read);
}

pub load8-Legible :
    (a : ℕ) (m : Mem)
    → (b : ℕ) × (m.cell a ≡ some b) × (readable m a ≡ true)
    → (v : ℕ) × (load8 a m ≡ Res.done v m)
unfolding load8
load8-Legible a m (b, here, r) = (b, rw (here, load8) (rw r refl))

pub load_le-Legible : (n a : ℕ) (m : Mem) → Legible m n a → (v : ℕ) × (load_le n a m ≡ Res.done v m)
unfolding load_le
load_le-Legible zero a m h = (0, refl)
load_le-Legible (suc n) a m h =
    let (b, first) = load8-Legible a m (h.shown a (omega arith) (omega arith)) in
    let (w, rest) =
      load_le-Legible n (a + 1) m
        (record { shown = λ x from to. h.shown x (omega arith) (omega arith) }) in
    (b + 2 ^ 8 * w, rw (first, rest) refl)

module _ {A : Type 0} {P : A → Mem → Type 0} where
  pub split :
      (b : Bool) (c d : Cmd A) (m : Mem)
      → (b ≡ true → Total P (c m))
      → (b ≡ false → Total P (d m))
      → Total P ((if b then c else d) m)
  split true c d m yes_case no_case = yes_case refl
  split false c d m yes_case no_case = no_case refl

  -- A run that is known to return.
  pub arrives : {a : A} {m : Mem} {r : Res A} → r ≡ Res.done a m → P a m → Total P r
  arrives e p = rw e (total p)

pub Legible-sub :
    {m : Mem} {n a : ℕ} (k b : ℕ) → Legible m n a → a ≤ b → b + k ≤ a + n → Legible m k b
Legible-sub k b h low high = record { shown = λ x from to. h.shown x (omega arith) (omega arith) }

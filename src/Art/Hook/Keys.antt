-- ===== src/Art/Hook/Keys.antt =====
-- The map of hooked methods.
use art_hook.Base.{
  ℕ, ◌≡◌, refl, ap, ◌∙◌, ◌==◌, if◌then◌else◌, arith, [], ◌∷◌, Option, none, some, Option-cases,
  Bool-cases, inl, inr,
}
use art_hook.Art.State.{ArtMethodKey}
use art_hook.Art.Hook.{Keys, find_key, insert_key, set_key}

-- A key that is there stays.
abbrev pub kept_key : Option ArtMethodKey → ArtMethodKey → ArtMethodKey
kept_key none key = key
kept_key (some old) key = old

swapped : (a b : ℕ) → (a == b) ≡ (b == a)
swapped a b = ground arith

present :
    (i id : ℕ) (old : ArtMethodKey) (keys : Keys)
    → find_key id keys ≡ some old
    → find_key i keys ≡ (if i == id then some old else find_key i keys)
present i id old keys e = elim (Bool-cases (i == id)) [
  | inl hit ↦ let same : i ≡ id = ground arith in rw hit (ap (λ x. find_key x keys) same ∙ e)
  | inr miss ↦ rw miss refl
]

pub find_key-insert_key :
    (i id : ℕ) (key : ArtMethodKey) (keys : Keys)
    → find_key i (insert_key id key keys)
      ≡ (if i == id then some (kept_key (find_key id keys) key) else find_key i keys)
unfolding find_key insert_key
find_key-insert_key i id key keys = elim (Option-cases (find_key id keys)) [
  | inl absent ↦ rw (absent, find_key) (rw (swapped id i) refl)
  | inr (old, e) ↦ rw (e, insert_key) (present i id old keys e)
]

pub find_key-set_key :
    (id : ℕ) (key : ArtMethodKey) (keys : Keys) {old : ArtMethodKey}
    → find_key id keys ≡ some old
    → find_key id (set_key id key keys) ≡ some key
unfolding find_key set_key
find_key-set_key id key [] e = ground arith
find_key-set_key id key ((i, k) ∷ keys) e = elim (Bool-cases (i == id)) [
  | inl hit ↦ rw (hit, find_key) (rw hit refl)
  | inr miss ↦
      rw (miss, find_key) (rw miss (find_key-set_key id key keys (rw (miss, find_key) at e)))
]

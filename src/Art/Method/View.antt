-- ===== src/Art/Method/View.antt =====
-- An ArtMethod in memory as a record of its members, and the accessors as reads and updates of it.
use native.Mathlib.Nat.{pow-suc, mul_right_comm, mul_comm}
use art_hook.Base.{
  Option-cases, zero, suc, ◌*◌, ◌==◌, leb, if◌then◌else◌, ℕ, ◌+◌, ◌^◌, ◌≤◌, ◌<◌, ◌≡◌, refl, ◌∙◌,
  ◌⊎◌, inl, inr, some, arith,
}
use art_hook.Machine.{Mem, u64}
use art_hook.Machine.Laws.{Ensures, returns, bind, weaken, both}
use art_hook.Machine.Stores.{
  peek, Same, Outside, Spares-store_le, peek-store_le, peek-load_le, peek-Same,
}
use art_hook.Art.State.{Statics, ArtMethodOffsets}
use art_hook.Art.Modifiers.{android_n}
use art_hook.Art.Members.{member_of, assign_offset}

-- The members that the hook reads and writes. `class` is the reference to the class, of 4 bytes, and
-- `word` the 4 bytes behind it where they are not the flags. `extra` is the hotness count, or before 7.0 the
-- entry point for the interpreter.
pub record Fields : Type 0 where
  pub class : ℕ
  pub word : ℕ
  pub flags : ℕ
  pub dex_code : ℕ
  pub extra : ℕ
  pub jni_code : ℕ
  pub quick_code : ℕ

-- Where the extra member is, and its size.
abbrev pub extra_at : ℕ → ArtMethodOffsets → ℕ
extra_at api_level o =
    if leb android_n api_level then o.hotness_count_offset else o.interpreter_code_offset

abbrev pub extra_width : ℕ → ℕ
extra_width api_level = if leb android_n api_level then 2 else 8

-- The members stand one after the other, within the `size` bytes of a method.
pub record IsLaidOut (api_level size : ℕ) (o : ArtMethodOffsets) : Type 0 where
  pub flags_place : (o.access_flags_offset ≡ 4) ⊎ (8 ≤ o.access_flags_offset)
  pub dex_place : o.access_flags_offset + 4 ≤ o.dex_code_item_offset_offset
  pub extra_place : o.dex_code_item_offset_offset + 4 ≤ extra_at api_level o
  pub jni_place : extra_at api_level o + extra_width api_level ≤ o.jni_code_offset
  pub quick_place : o.jni_code_offset + 8 ≤ o.quick_code_offset
  pub size_place : o.quick_code_offset + 8 ≤ size

-- The word behind the reference to the class: the flags, or a member that no code here changes.
abbrev pub second : ArtMethodOffsets → Fields → ℕ
second o f = if o.access_flags_offset == 4 then f.flags else f.word

-- What `GetDeclaringClass` reads, which is as wide as a pointer.
abbrev pub declared : ArtMethodOffsets → Fields → ℕ
declared o f = f.class + 256 ^ 4 * second o f

-- The method at `id` in memory `m` has the members `f`.
pub record Shows (api_level : ℕ) (o : ArtMethodOffsets) (id : ℕ) (f : Fields) (m : Mem)
    : Type 0 where
  pub class_shown : peek 4 id m ≡ some f.class
  pub word_shown : peek 4 (id + 4) m ≡ some (second o f)
  pub flags_shown : peek 4 (id + o.access_flags_offset) m ≡ some f.flags
  pub dex_shown : peek 4 (id + o.dex_code_item_offset_offset) m ≡ some f.dex_code
  pub extra_shown : peek (extra_width api_level) (id + extra_at api_level o) m ≡ some f.extra
  pub jni_shown : peek 8 (id + o.jni_code_offset) m ≡ some f.jni_code
  pub quick_shown : peek 8 (id + o.quick_code_offset) m ≡ some f.quick_code
  pub flags_fit : f.flags < 2 ^ 32

abbrev pub Within : ℕ → ℕ → ℕ → Type 0
Within id size x = (id ≤ x) × (x < id + size)

nested : (x v : ℕ) → x * 256 * v ≡ 256 * (x * v)
nested x v = mul_right_comm x 256 v ∙ mul_comm (x * v) 256

pub peek-join :
    (n k a u v : ℕ) (m : Mem)
    → peek n a m ≡ some u
    → peek k (a + n) m ≡ some v
    → peek (n + k) a m ≡ some (u + 256 ^ n * v)
unfolding peek
peek-join zero k a u v m p q =
    let none_left : u ≡ 0 = ground arith in
    let size : 0 + k ≡ k = omega arith in
    let place : a + 0 ≡ a = omega arith in
    let total : u + 1 * v ≡ v = omega arith in rw (size, total) (rw place at q)
peek-join (suc n) k a u v m p q = elim (Option-cases (m.cell a)) [
  | inl gone ↦ absurd (ground (arith, gone))
  | inr (b, first) ↦ elim (Option-cases (peek n (a + 1) m)) [
    | inl gone ↦ absurd (ground (arith, first, gone))
    | inr (w, rest) ↦
        let size : suc n + k ≡ suc (n + k) = omega arith in
        let place : a + suc n ≡ a + 1 + n = omega arith in
        let joined = peek-join n k (a + 1) w v m rest (rw place at q) in
        let scale : 256 ^ suc n * v ≡ 256 * (256 ^ n * v) = rw pow-suc (nested (256 ^ n) v) in
        rw size (ground (arith, first, rest, joined, scale))
  ]
]

-- A read of a member that is there.
pub member_of_lem :
    (n ptr off v : ℕ) (s : Statics) (m : Mem)
    → ptr + off < 2 ^ 64
    → peek n (ptr + off) m ≡ some v
    → Ensures (λ p m'. (p.0 ≡ v) × (p.1 ≡ s) × (m' ≡ m)) (λ _. Unit {0}) (member_of n ptr off s m)
unfolding member_of
member_of_lem n ptr off v s m fits e =
    let place : u64 (ptr + off) ≡ ptr + off = omega arith in
    rw place (
      bind (weaken (peek-load_le n (ptr + off) m) (λ w k h. h) (λ k h. tt))
        λ w k h. returns (ground arith, refl, h.0))

-- An assignment changes the bytes of its member only.
pub assign_offset_lem :
    (n ptr off v : ℕ) (s : Statics) (m : Mem)
    → ptr + off < 2 ^ 64
    → v < 256 ^ n
    → Ensures
        (λ p m'. (p.1 ≡ s) × (peek n (ptr + off) m' ≡ some v) × Same (Outside n (ptr + off)) m m')
        (λ _. Unit {0})
        (assign_offset n ptr off v s m)
unfolding assign_offset
assign_offset_lem n ptr off v s m fits small =
    let place : u64 (ptr + off) ≡ ptr + off = omega arith in
    let stored =
      both (peek-store_le n (ptr + off) v m small)
        (Spares-store_le (Outside n (ptr + off)) n (ptr + off) v m (λ x out. out)) in
    rw place (bind (weaken stored (λ _ k h. h) (λ k h. tt)) λ _ k h. returns (refl, h.0, h.1))

-- A member apart from the assigned one reads as before.
pub peek_apart :
    (n a k b : ℕ) (m m' : Mem) {v : ℕ}
    → Same (Outside n a) m m'
    → (b + k ≤ a) ⊎ (a + n ≤ b)
    → peek k b m ≡ some v
    → peek k b m' ≡ some v
peek_apart n a k b m m' same apart e =
    peek-Same k b m m' (λ x h. same x (ground (arith, apart))) ∙ e

-- Members within the bytes that two memories share are the same.
pub Shows-Same :
    (api size id : ℕ) (o : ArtMethodOffsets) (f : Fields) (m m' : Mem)
    → IsLaidOut api size o
    → Same (Within id size) m m'
    → Shows api o id f m
    → Shows api o id f m'
Shows-Same api size id o f m m' l same h = record {
  class_shown = peek-Same _ _ m m' (λ x b. same x (omega arith, omega arith)) ∙ h.class_shown;
  word_shown = peek-Same _ _ m m' (λ x b. same x (omega arith, omega arith)) ∙ h.word_shown;
  flags_shown = peek-Same _ _ m m' (λ x b. same x (omega arith, omega arith)) ∙ h.flags_shown;
  dex_shown = peek-Same _ _ m m' (λ x b. same x (omega arith, omega arith)) ∙ h.dex_shown;
  extra_shown = peek-Same _ _ m m' (λ x b. same x (omega arith, omega arith)) ∙ h.extra_shown;
  jni_shown = peek-Same _ _ m m' (λ x b. same x (omega arith, omega arith)) ∙ h.jni_shown;
  quick_shown = peek-Same _ _ m m' (λ x b. same x (omega arith, omega arith)) ∙ h.quick_shown;
  flags_fit = h.flags_fit;
}

-- ===== src/Art/Live.antt =====
-- Code of cpp/art that returns: the accessors of a method whose bytes are open.
use art_hook.Base.{
  ℕ, zero, suc, ◌+◌, ◌^◌, ◌≤◌, ◌<◌, ◌≡◌, refl, Bool, true, false, if◌then◌else◌, arith, leb,
}
use art_hook.Machine.{Mem, Res, and_then, u64}
use art_hook.Machine.Total.{
  Total, total, Opens, Usable, Lives, loosen, follow, through, Usable-sub, Lives-load_le,
  Lives-store_le, lives, after, Lives-load8, Lives-store8, Usable-head, Usable-tail, Usable-Opens,
}
use art_hook.Art.State.{Statics, Act}
use art_hook.Art.Modifiers.{android_n}
use art_hook.Art.Members.{member_of, assign_offset, memcpy}
use art_hook.Art.Method.{
  get_declaring_class, get_access_flags, set_access_flags, has_access_flags,
  get_dex_code_item_offset, set_dex_code_item_offset, get_quick_code, set_quick_code,
  set_interpreter_code, get_jni_code, set_jni_code, set_hotness_count,
}
use art_hook.Art.Method.View.{IsLaidOut}

-- The run returns, leaves the static variables as they were, and what was open is open still.
abbrev pub Calm : {A : Type 0} → Statics → Mem → Res (A × Statics) → Type 0
Calm {A} s m r = Total {A = A × Statics} (λ p n. (p.1 ≡ s) × Opens m n) r

pub Lives-Calm :
    {A : Type 0} {s : Statics} {m : Mem} {r : Res (A × Statics)} → Calm s m r → Lives m r
Lives-Calm h = loosen h (λ p n q. q.1)

module _ {A B : Type 0} where
  pub settle :
      {s : Statics} {m : Mem} {r : Res (A × Statics)} (next : A → Act B)
      → Calm s m r
      → ((a : A) (n : Mem) → Opens m n → Calm s n (next a s n))
      → Calm s m (and_then r (λ p. next p.0 p.1))
  settle {s} next h rest =
      follow h λ p n q. rw q.0 (loosen (rest p.0 n q.1) (λ b l q'. (q'.0, through q.1 q'.1)))

module _ {A : Type 0} {P : A × Statics → Mem → Type 0} where
  pub choose :
      (b : Bool) (c d : Act A) (s : Statics) (m : Mem)
      → (b ≡ true → Total P (c s m))
      → (b ≡ false → Total P (d s m))
      → Total P ((if b then c else d) s m)
  choose true c d s m yes_case no_case = yes_case refl
  choose false c d s m yes_case no_case = no_case refl

pub calm : {A : Type 0} {a : A} {s : Statics} {m : Mem} → Calm s m (Res.done (a, s) m)
calm = total (refl, record { carry = λ x h. h })

member_of-Calm :
    (n ptr off : ℕ) (s : Statics) (m : Mem)
    → ptr + off < 2 ^ 64
    → Usable m n (ptr + off)
    → Calm s m (member_of n ptr off s m)
unfolding member_of
member_of-Calm n ptr off s m fits u =
    let place : u64 (ptr + off) ≡ ptr + off = omega arith in
    rw place (follow (Lives-load_le n (ptr + off) m u) (λ v l o. total (refl, o)))

assign_offset-Calm :
    (n ptr off v : ℕ) (s : Statics) (m : Mem)
    → ptr + off < 2 ^ 64
    → Usable m n (ptr + off)
    → Calm s m (assign_offset n ptr off v s m)
unfolding assign_offset
assign_offset-Calm n ptr off v s m fits u =
    let place : u64 (ptr + off) ≡ ptr + off = omega arith in
    rw place (follow (Lives-store_le n (ptr + off) v m u) (λ v l o. total (refl, o)))

-- A member of an object of `size` bytes at `p`.
module _ (size p : ℕ) (s : Statics) (m : Mem) (fits : p + size ≤ 2 ^ 64) (u : Usable m size p) where
  pub read-Calm : (n off : ℕ) → 0 < n → off + n ≤ size → Calm s m (member_of n p off s m)
  read-Calm n off some_bytes inside =
      member_of-Calm n p off s m (omega arith)
        (Usable-sub n (p + off) u (omega arith) (omega arith))

  pub write-Calm : (n off v : ℕ) → 0 < n → off + n ≤ size → Calm s m (assign_offset n p off v s m)
  write-Calm n off v some_bytes inside =
      assign_offset-Calm n p off v s m (omega arith)
        (Usable-sub n (p + off) u (omega arith) (omega arith))

-- The accessors of a method.
module _ (api size p : ℕ) (s : Statics) (m : Mem) (l : IsLaidOut api size s.method_offset)
    (fits : p + size ≤ 2 ^ 64) (u : Usable m size p) where
  pub get_declaring_class-Calm : Calm s m (get_declaring_class p s m)
  unfolding get_declaring_class
  get_declaring_class-Calm = read-Calm size p s m fits u 8 0 (omega arith) (omega arith)

  pub get_access_flags-Calm : Calm s m (get_access_flags p s m)
  unfolding get_access_flags
  get_access_flags-Calm = read-Calm size p s m fits u 4 _ (omega arith) (omega arith)

  pub has_access_flags-Calm : (x : ℕ) → Calm s m (has_access_flags p x s m)
  unfolding has_access_flags
  has_access_flags-Calm x = settle _ get_access_flags-Calm (λ now n o. calm)

  pub get_dex_code_item_offset-Calm : Calm s m (get_dex_code_item_offset p s m)
  unfolding get_dex_code_item_offset
  get_dex_code_item_offset-Calm = read-Calm size p s m fits u 4 _ (omega arith) (omega arith)

  pub get_quick_code-Calm : Calm s m (get_quick_code p s m)
  unfolding get_quick_code
  get_quick_code-Calm = read-Calm size p s m fits u 8 _ (omega arith) (omega arith)

  pub get_jni_code-Calm : Calm s m (get_jni_code p s m)
  unfolding get_jni_code
  get_jni_code-Calm = read-Calm size p s m fits u 8 _ (omega arith) (omega arith)

  pub set_access_flags-Calm : (v : ℕ) → Calm s m (set_access_flags p v s m)
  unfolding set_access_flags
  set_access_flags-Calm v = write-Calm size p s m fits u 4 _ v (omega arith) (omega arith)

  pub set_dex_code_item_offset-Calm : (v : ℕ) → Calm s m (set_dex_code_item_offset p v s m)
  unfolding set_dex_code_item_offset
  set_dex_code_item_offset-Calm v = write-Calm size p s m fits u 4 _ v (omega arith) (omega arith)

  pub set_quick_code-Calm : (v : ℕ) → Calm s m (set_quick_code p v s m)
  unfolding set_quick_code
  set_quick_code-Calm v = write-Calm size p s m fits u 8 _ v (omega arith) (omega arith)

  pub set_jni_code-Calm : (v : ℕ) → Calm s m (set_jni_code p v s m)
  unfolding set_jni_code
  set_jni_code-Calm v = write-Calm size p s m fits u 8 _ v (omega arith) (omega arith)

  pub set_hotness_count-Calm :
      (v : ℕ) → leb android_n api ≡ true → Calm s m (set_hotness_count p v s m)
  unfolding set_hotness_count
  set_hotness_count-Calm v e =
      let place : s.method_offset.hotness_count_offset + 2 ≤ s.method_offset.jni_code_offset =
        rw e at l.jni_place in
      write-Calm size p s m fits u 2 _ v (omega arith) (omega arith)

  pub set_interpreter_code-Calm :
      (v : ℕ) → leb android_n api ≡ false → Calm s m (set_interpreter_code p v s m)
  unfolding set_interpreter_code
  set_interpreter_code-Calm v e =
      let place : s.method_offset.interpreter_code_offset + 8 ≤ s.method_offset.jni_code_offset =
        rw e at l.jni_place in
      write-Calm size p s m fits u 8 _ v (omega arith) (omega arith)

pub Lives-memcpy :
    (n dst src : ℕ) (m : Mem) → Usable m n dst → Usable m n src → Lives m (memcpy n dst src m)
unfolding memcpy
Lives-memcpy zero dst src m to from = lives
Lives-memcpy (suc n) dst src m to from = after (Lives-load8 src m (Usable-head from)) λ b m1 o1.
    let to1 = Usable-Opens o1 to in
    after (Lives-store8 dst b m1 (Usable-head to1)) λ _ m2 o2.
      Lives-memcpy n (dst + 1) (src + 1) m2 (Usable-tail o2 to1) (Usable-tail (through o1 o2) from)

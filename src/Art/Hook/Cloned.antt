-- ===== src/Art/Hook/Cloned.antt =====
-- `ArtMethod::Clone` of cpp/art/ArtMethod.cpp returns while a method is hooked, from 6.0 on.
use art_hook.Base.{
  ap, refl, ℕ, zero, suc, ◌+◌, ◌*◌, ◌^◌, ◌≤◌, ◌≡◌, sym, ◌∙◌, ◌⊎◌, inl, inr, Bool, true, false, not,
  ◌&&◌, ◌!=◌, ◌==◌, arith, leb, ltb,
}
use art_hook.Machine.{Mem, Res, Cmd, and_then, null}
use art_hook.Machine.Laws.{Ensures}
use art_hook.Machine.Total.{
  Total, total, Opens, Usable, Usable-Opens, Lives, lives, loosen, meet, follow, after, through,
}
use art_hook.Art.State.{ArtMethodOffsets, ArtBridgeList, Runtime, Statics, lift}
use art_hook.Art.Live.{
  Calm, calm, Lives-Calm, Lives-memcpy, settle, choose, read-Calm, write-Calm,
  get_access_flags-Calm, has_access_flags-Calm, set_access_flags-Calm, set_hotness_count-Calm,
  set_quick_code-Calm, get_jni_code-Calm,
}
use art_hook.Art.Modifiers.{acc_native, acc_direct_flags, android_m, android_n}
use art_hook.Art.Clone.{
  redirect_profile, move_profile, copy_method, new_method, finish_clone, clone_method,
}
use art_hook.Art.Method.View.{Fields}
use art_hook.Art.Hook.{Keys}
use art_hook.Art.Hook.Invariant.{Apart, IsPolite, Ready, get_symbol-Stays}
use art_hook.Art.Hook.Copies.{new_method-Gives}
use art_hook.Art.Hook.Cloning.{cool_clone, jni_code-Holds, flags-Holds, has_flags-Holds}
use art_hook.Art.Hook.Live.{IsLive, bridges-Calm, get_symbol-Lives, call-Lives}

-- The run goes on, and what it leaves open is open from the start.
bring :
    {A B : Type 0} {P : A → Mem → Type 0} {F : Mem → Type 0} {R : B → Type 0} {m : Mem} {r : Res A}
    {next : A → Cmd B}
    → Ensures P F r
    → Lives m r
    → ((a : A) (n : Mem) → P a n → Opens m n → Total (λ b l. R b × Opens n l) (next a n))
    → Total (λ b l. R b × Opens m l) (and_then r next)
bring e t rest =
    follow (meet e t) λ a n h. loosen (rest a n h.0 h.1) (λ b l q. (q.0, through h.1 q.1))

-- The profiling info, if there is one, is open.
abbrev pub ProfileOpen : Mem → ℕ → Type 0
ProfileOpen m p = (p ≡ null) ⊎ Usable m 20 p

pub ProfileOpen-Opens : {m n : Mem} {p : ℕ} → Opens m n → ProfileOpen m p → ProfileOpen n p
ProfileOpen-Opens o (inl none) = inl none
ProfileOpen-Opens o (inr u) = inr (Usable-Opens o u)

redirect-Calm :
    (n p id clone off : ℕ) (s : Statics) (m : Mem)
    → p + 20 ≤ 2 ^ 64
    → off + 4 * n ≤ 16
    → Usable m 20 p
    → Calm s m (redirect_profile n p id clone off s m)
unfolding redirect_profile
redirect-Calm zero p id clone off s m fits short u = calm
redirect-Calm (suc n) p id clone off s m fits short u =
    settle _ (read-Calm 20 p s m fits u 8 off (omega arith) (omega arith)) λ v m1 o1.
      settle _
        (choose (v == id) _ _ s m1
          (λ _.
            write-Calm 20 p s m1 fits (Usable-Opens o1 u) 8 off clone (omega arith) (omega arith))
          (λ _. calm))
        λ _ m2 o2.
          redirect-Calm n p id clone (off + 4) s m2 fits (omega arith)
            (Usable-Opens o2 (Usable-Opens o1 u))

module _ (api size id : ℕ) (o : ArtMethodOffsets) (bridge : ArtBridgeList) (keys : Keys)
    (f : Fields) (ends : id + size ≤ 2 ^ 64) (k : Runtime) (polite : IsPolite k id size)
    (live : IsLive k size) where
  abbrev Good : Statics → Mem → Type 0
  Good = Ready api size id o bridge keys f

  move-Calm :
      (clone : ℕ) (s : Statics) (m : Mem)
      → f.jni_code + 20 ≤ 2 ^ 64
      → ProfileOpen m f.jni_code
      → Good s m
      → Usable m size id
      → Calm s m (move_profile id clone s m)
  unfolding move_profile
  move-Calm clone s m fits profile r u =
      follow
        (meet (jni_code-Holds _ _ _ _ _ _ f ends k polite s m r)
          (get_jni_code-Calm api size id s m r.laid ends u))
        λ p m1 h. rw h.1.0 (
          loosen
            (choose (p.0 != null) _ _ s m1
              (λ given. rw h.0.0 (
                redirect-Calm 4 f.jni_code id clone 0 s m1 fits (omega arith)
                  (open_there m1 h.1.1 (rw h.0.0 at given))))
              (λ _. calm))
            (λ q n c. (c.0, through h.1.1 c.1)))
    where
      open_there : (m1 : Mem) → Opens m m1 → (f.jni_code != null) ≡ true → Usable m1 20 f.jni_code
      open_there m1 o1 given = elim profile [
        | inl absent ↦ absurd (ground (arith, absent, given))
        | inr here ↦ Usable-Opens o1 here
      ]

  finish-Calm :
      (clone flags : ℕ) (native : Bool) (s : Statics) (m : Mem)
      → Apart id size clone
      → f.jni_code + 20 ≤ 2 ^ 64
      → ProfileOpen m f.jni_code
      → Good s m
      → Usable m size id
      → Usable m size clone
      → Calm s m (finish_clone k id clone flags native s m)
  unfolding finish_clone
  finish-Calm clone flags native s m apart fits profile r u uc =
      settle _
        (choose (leb android_n s.api_level) _ _ s m
          (λ new.
            let e : leb android_n api ≡ true = ap (leb android_n) (sym r.api_known) ∙ new in
            follow
              (meet (cool_clone _ _ _ _ _ _ f ends k polite clone s m apart new r)
                (set_hotness_count-Calm api size clone s m r.laid apart.0 uc 0 e))
              λ p m1 h. rw h.1.0 (
                loosen
                  (choose native _ _ s m1 (λ _. calm)
                    (λ _.
                      move-Calm clone s m1 fits (ProfileOpen-Opens h.1.1 profile) (rw h.1.0 at h.0)
                        (Usable-Opens h.1.1 u)))
                  (λ q n c. (c.0, through h.1.1 c.1))))
          (λ _. calm))
        λ _ m2 o2.
          let u2 = Usable-Opens o2 uc in
          settle _ (bridges-Calm api size clone apart.0 s r.laid k m2 r.bridge_found) λ list m3 o3.
            let u3 = Usable-Opens o3 u2 in
            settle _
              (choose (not native && list.quick_to_interpreter != null) _ _ s m3
                (λ _. set_quick_code-Calm api size clone s m3 r.laid apart.0 u3 _) (λ _. calm))
              λ _ m4 o4.
                set_access_flags-Calm api size clone s m4 r.laid apart.0 (Usable-Opens o4 u3) flags

  module _ (whole : o.method_size ≡ size) (modern : ltb api android_m ≡ false) where
    -- What a new method is: an object whose bytes are open.
    abbrev pub Given : Mem → Res (ℕ × Statics) → Type 0
    Given m r = Total (λ p n. Opens m n × Usable n size p.0) r

    malloc-Given : (n : ℕ) (s : Statics) (m : Mem) → n ≡ size → Given m (lift (k.malloc n) s m)
    malloc-Given n s m e = rw e (follow (live.malloc_gives m) (λ p l h. total (h.0, h.1)))

    copy-Given :
        (s : Statics) (m : Mem) → Good s m → Usable m size id → Given m (copy_method k id s m)
    unfolding copy_method
    copy-Given s m r u =
        follow
          (meet (get_symbol-Stays _ _ _ _ _ _ _ k polite s m r) (get_symbol-Lives k size live s m))
          λ list m1 h1.
            let e : list.1.method_offset.method_size ≡ size =
              ap (λ x. x.method_size) h1.0.offsets_known ∙ whole in
            follow (malloc-Given _ list.1 m1 e) λ clone m2 h2.
              let u2 = Usable-Opens (through h1.1 h2.0) u in
              follow
                (choose {P = λ p n. Opens m2 n} (list.0.method_copy_from != null) _ _ clone.1 m2
                  (λ _. after (call-Lives k size live _ _ clone.1 m2) (λ x n c. lives))
                  (λ _.
                    after
                      (Lives-memcpy list.1.method_offset.method_size clone.0 id m2 (rw e h2.1)
                        (rw e u2))
                      (λ x n c. lives)))
                λ x m3 h3. total (through (through h1.1 h2.0) h3, Usable-Opens h3 h2.1)

    new-Given :
        (s : Statics) (m : Mem) → Good s m → Usable m size id → Given m (new_method k id s m)
    unfolding new_method
    new-Given s m r u =
        follow
          (meet (get_symbol-Stays _ _ _ _ _ _ _ k polite s m r) (get_symbol-Lives k size live s m))
          λ list m1 h1.
            choose (ltb list.1.api_level android_m) _ _ list.1 m1
              (λ old. absurd (ground (arith, old, modern, h1.0.api_known)))
              (λ _.
                loosen (copy-Given list.1 m1 h1.0 (Usable-Opens h1.1 u))
                  (λ p n c. (through h1.1 c.0, c.1)))

    pub clone-Given :
        (s : Statics) (m : Mem)
        → f.jni_code + 20 ≤ 2 ^ 64
        → ProfileOpen m f.jni_code
        → Good s m
        → Usable m size id
        → Given m (clone_method k id s m)
    unfolding clone_method
    clone-Given s m fits profile r u =
        follow
          (meet (new_method-Gives api size id o bridge keys f ends k polite s m r)
            (new-Given s m r u))
          λ clone m1 h1.
            let u1 = Usable-Opens h1.1.0 u in
            let r1 = h1.0.1 in
            loosen
              (bring (flags-Holds _ _ _ _ _ _ f ends k polite clone.1 m1 r1)
                (Lives-Calm (get_access_flags-Calm api size id clone.1 m1 r1.laid ends u1))
                λ flags m2 h2 o2.
                  let u2 = Usable-Opens o2 u1 in
                  bring (has_flags-Holds _ _ _ _ _ _ f ends k polite acc_native flags.1 m2 h2.1)
                    (Lives-Calm
                      (has_access_flags-Calm api size id flags.1 m2 h2.1.laid ends u2 acc_native))
                    λ native m3 h3 o3.
                      let u3 = Usable-Opens o3 u2 in
                      bring
                        (has_flags-Holds _ _ _ _ _ _ f ends k polite acc_direct_flags native.1 m3
                          h3.1)
                        (Lives-Calm (
                          has_access_flags-Calm api size id native.1 m3 h3.1.laid ends u3
                            acc_direct_flags))
                        λ direct m4 h4 o4.
                          let so_far = through o2 (through o3 o4) in
                          follow {Q = λ p l. (p.0 ≡ clone.0) × Opens m4 l}
                            (finish-Calm clone.0 _ native.0 direct.1 m4 h1.0.0 fits
                              (ProfileOpen-Opens (through h1.1.0 so_far) profile) h4.1
                              (Usable-Opens o4 u3) (Usable-Opens so_far h1.1.1))
                            (λ x n c. total (refl, c.1)))
              (λ p n c. (through h1.1.0 c.1, rw c.0 (Usable-Opens c.1 h1.1.1)))

    pub clone-Lives :
        (s : Statics) (m : Mem)
        → f.jni_code + 20 ≤ 2 ^ 64
        → ProfileOpen m f.jni_code
        → Good s m
        → Usable m size id
        → Lives m (clone_method k id s m)
    clone-Lives s m fits profile r u = loosen (clone-Given s m fits profile r u) (λ p n c. c.0)

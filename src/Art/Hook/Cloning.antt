-- ===== src/Art/Hook/Cloning.antt =====
-- `ArtMethod::Clone` while a method is hooked: it leaves the method, and gives the clone its flags.
use art_hook.Base.{
  ap, sym, ℕ, zero, suc, ◌+◌, ◌*◌, ◌^◌, ◌≤◌, ◌<◌, ◌≡◌, refl, ◌∙◌, Bool, true, not, arith, ◌!=◌,
  ◌==◌, ◌&&◌, leb, bit_and, some,
}
use art_hook.Machine.{Mem, Res, null, load_le}
use art_hook.Machine.Laws.{Ensures, returns, bind, weaken, both, Keeps-load_le}
use art_hook.Machine.Stores.{peek}
use art_hook.Art.State.{ArtMethodOffsets, Runtime, Statics, ArtBridgeList}
use art_hook.Art.Runs.{fork}
use art_hook.Art.Modifiers.{acc_native, acc_direct_flags, android_n}
use art_hook.Art.Members.{member_of, offset_of}
use art_hook.Art.Method.{
  set_hotness_count, set_quick_code, set_access_flags, get_access_flags, has_access_flags,
  get_jni_code,
}
use art_hook.Art.Method.View.{Fields, assign_offset_lem}
use art_hook.Art.Method.Updates.{get_access_flags-Shows, get_jni_code-Shows}
use art_hook.Art.Clone.Flags.{clone_flags_fit}
use art_hook.Art.Clone.{clone_flags, redirect_profile, move_profile, finish_clone, clone_method}
use art_hook.Art.Hook.{Keys}
use art_hook.Art.Hook.Invariant.{Apart, IsPolite, Ready, Stays, lift-Stays, get_bridge_list-Stays}
use art_hook.Art.Hook.Accesses.{Beside, assign-Stays, Reads-Ready}
use art_hook.Art.Hook.Copies.{new_method-Gives}

-- The profiling info, if there is one, is apart from the method.
abbrev pub Clear : (id size p : ℕ) → Type 0
Clear id size p = (p + 20 ≤ 2 ^ 64) × Beside id size 20 p

abbrev pub is_set : ℕ → ℕ → Bool
is_set x flags = bit_and x flags != 0

-- The flags that the clone of a method with `flags` is given.
abbrev pub own_flags : (api flags : ℕ) → ℕ
own_flags api flags =
    clone_flags api flags (is_set acc_native flags) (is_set acc_direct_flags flags)

module _ (api size id : ℕ) (o : ArtMethodOffsets) (bridge : ArtBridgeList) (keys : Keys)
    (f : Fields) (ends : id + size ≤ 2 ^ 64) (k : Runtime) (polite : IsPolite k id size) where
  abbrev Good : Statics → Mem → Type 0
  Good = Ready api size id o bridge keys f

  abbrev Holds : {A : Type 0} → Res (A × Statics) → Type 0
  Holds {A} r = Stays api size id o bridge keys f {A = A} r

  pub read-Holds : (p off : ℕ) (s : Statics) (m : Mem) → Good s m → Holds (member_of 8 p off s m)
  unfolding member_of
  read-Holds p off s m r =
      lift-Stays _ _ _ _ _ _ _ (load_le 8 (offset_of p off)) s m
        (weaken (Keeps-load_le 8 _ m) (λ _ n e x w. rw e) (λ n e. tt)) r

  redirect_profile-Holds :
      (n p clone off : ℕ) (s : Statics) (m : Mem)
      → Clear id size p
      → off + 4 * n ≤ 16
      → Good s m
      → Holds (redirect_profile n p id clone off s m)
  unfolding redirect_profile
  redirect_profile-Holds zero p clone off s m clear short r = returns r
  redirect_profile-Holds (suc n) p clone off s m clear short r =
      bind (read-Holds p off s m r) λ v m1 r1.
        bind
          (fork (v.0 == id) _ _ v.1 m1
            (λ _.
              assign-Stays _ _ _ _ _ _ _ 8 p off clone v.1 m1 (omega (arith, clear.0))
                (ground (arith, clear.1)) r1)
            (λ _. returns r1))
          (λ q m2 r2. redirect_profile-Holds n p clone (off + 4) q.1 m2 clear (omega arith) r2)

  pub jni_code-Holds :
      (s : Statics) (m : Mem)
      → Good s m
      → Ensures (λ p m'. (p.0 ≡ f.jni_code) × Good p.1 m') (λ _. Unit {0}) (get_jni_code id s m)
  jni_code-Holds s m r =
      Reads-Ready _ _ _ _ _ _ _ ends f.jni_code (get_jni_code id) s m r
        (get_jni_code-Shows api size id ends f s m r.laid r.shown)

  pub flags-Holds :
      (s : Statics) (m : Mem)
      → Good s m
      → Ensures (λ p m'. (p.0 ≡ f.flags) × Good p.1 m') (λ _. Unit {0}) (get_access_flags id s m)
  flags-Holds s m r =
      Reads-Ready _ _ _ _ _ _ _ ends f.flags (get_access_flags id) s m r
        (get_access_flags-Shows api size id ends f s m r.laid r.shown)

  -- A test of the flags.
  pub has_flags-Holds :
      (x : ℕ) (s : Statics) (m : Mem)
      → Good s m
      → Ensures
          (λ p m'. (p.0 ≡ (bit_and x f.flags != 0)) × Good p.1 m')
          (λ _. Unit {0})
          (has_access_flags id x s m)
  unfolding has_access_flags
  has_flags-Holds x s m r = bind (flags-Holds s m r) (λ p m' h. returns (rw h.0, h.1))

  move_profile-Holds :
      (clone : ℕ) (s : Statics) (m : Mem)
      → Clear id size f.jni_code
      → Good s m
      → Holds (move_profile id clone s m)
  unfolding move_profile
  move_profile-Holds clone s m clear r = bind (jni_code-Holds s m r) λ p m1 h.
      fork (p.0 != null) _ _ p.1 m1
        (λ _. redirect_profile-Holds 4 p.0 clone 0 p.1 m1 (rw h.0 clear) (omega arith) h.1)
        (λ _. returns h.1)

  -- The flags of the clone are those that were computed.
  abbrev pub Flagged : (clone flags : ℕ) → Statics → Mem → Type 0
  Flagged clone flags s m = peek 4 (clone + s.method_offset.access_flags_offset) m ≡ some flags

  set_clone_flags :
      (clone flags : ℕ) (s : Statics) (m : Mem)
      → Apart id size clone
      → flags < 2 ^ 32
      → Good s m
      → Ensures
          (λ p m'. Flagged clone flags p.1 m' × Good p.1 m')
          (λ _. Unit {0})
          (set_access_flags clone flags s m)
  unfolding set_access_flags
  set_clone_flags clone flags s m apart fits r =
      let o = s.method_offset.access_flags_offset in
      weaken
        (both (assign_offset_lem 4 clone o flags s m (omega (arith, apart.0)) fits) (
          assign-Stays _ _ _ _ _ _ _ 4 clone o flags s m (omega (arith, apart.0))
            (ground (arith, apart.1)) r))
        (λ p m' h. (rw h.0.0 h.0.1, h.1)) (λ _ u. tt)

  pub cool_clone :
      (clone : ℕ) (s : Statics) (m : Mem)
      → Apart id size clone
      → leb android_n s.api_level ≡ true
      → Good s m
      → Holds (set_hotness_count clone 0 s m)
  unfolding set_hotness_count
  cool_clone clone s m apart new r =
      let e : leb android_n api ≡ true = ap (leb android_n) (sym r.api_known) ∙ new in
      let place : s.method_offset.hotness_count_offset + 2 ≤ s.method_offset.jni_code_offset =
        rw e at r.laid.jni_place in
      assign-Stays _ _ _ _ _ _ _ 2 clone s.method_offset.hotness_count_offset 0 s m
        (omega (arith, apart.0)) (ground (arith, apart.1)) r

  pub interpret_clone :
      (clone v : ℕ) (s : Statics) (m : Mem)
      → Apart id size clone
      → Good s m
      → Holds (set_quick_code clone v s m)
  unfolding set_quick_code
  interpret_clone clone v s m apart r =
      assign-Stays _ _ _ _ _ _ _ 8 clone s.method_offset.quick_code_offset v s m
        (omega (arith, apart.0)) (ground (arith, apart.1)) r

  finish_clone-Flagged :
      (clone flags : ℕ) (native : Bool) (s : Statics) (m : Mem)
      → Apart id size clone
      → flags < 2 ^ 32
      → Clear id size f.jni_code
      → Good s m
      → Ensures
          (λ p m'. Flagged clone flags p.1 m' × Good p.1 m')
          (λ _. Unit {0})
          (finish_clone k id clone flags native s m)
  unfolding finish_clone
  finish_clone-Flagged clone flags native s m apart fits clear r =
      bind
        (fork (leb android_n s.api_level) _ _ s m
          (λ new. bind (cool_clone clone s m apart new r) λ p m1 r1.
            fork native _ _ p.1 m1 (λ _. returns r1)
              (λ _. move_profile-Holds clone p.1 m1 clear r1))
          (λ _. returns r))
        λ p m2 r2. bind (get_bridge_list-Stays _ _ _ _ _ _ _ k polite p.1 m2 r2) λ q m3 h3.
          bind
            (fork (not native && q.0.quick_to_interpreter != null) _ _ q.1 m3
              (λ _. interpret_clone clone q.0.quick_to_interpreter q.1 m3 apart h3.1)
              (λ _. returns h3.1))
            (λ u m4 r4. set_clone_flags clone flags u.1 m4 apart fits r4)

  pub clone_method-Flagged :
      (s : Statics) (m : Mem)
      → Clear id size f.jni_code
      → Good s m
      → Ensures
          (λ p m'. Apart id size p.0 × Flagged p.0 (own_flags api f.flags) p.1 m' × Good p.1 m')
          (λ _. Unit {0})
          (clone_method k id s m)
  unfolding clone_method
  clone_method-Flagged s m clear r =
      bind (new_method-Gives api size id o bridge keys f ends k polite s m r) λ clone m1 h1.
        bind (flags-Holds clone.1 m1 h1.1) λ flags m2 h2.
          bind (has_flags-Holds acc_native flags.1 m2 h2.1) λ native m3 h3.
            bind (has_flags-Holds acc_direct_flags native.1 m3 h3.1) λ direct m4 h4.
              let same : clone_flags direct.1.api_level flags.0 native.0 direct.0
                  ≡ own_flags api f.flags =
                rw (h4.1.api_known, h2.0, h3.0, h4.0) refl in
              bind
                (finish_clone-Flagged clone.0
                  (clone_flags direct.1.api_level flags.0 native.0 direct.0) native.0 direct.1 m4
                  h1.0 (rw same (clone_flags_fit api f.flags _ _ r.shown.flags_fit)) clear h4.1)
                (λ u m5 h5. returns (h1.0, h5.0 ∙ ap some same, h5.1))

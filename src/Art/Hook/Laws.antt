-- ===== src/Art/Hook/Laws.antt =====
-- What `ArtMethod::Hook` and `Backup` do.
use art_hook.Base.{
  ℕ, ◌+◌, ◌^◌, ◌≤◌, ◌<◌, ◌≡◌, ap, ◌∙◌, ◌⊎◌, inl, inr, Bool-cases, Bool, true, false, ◌&&◌, ◌!=◌,
  if◌then◌else◌, arith, [], ltb, leb, some,
}
use art_hook.Base.Digits.{digit}
use art_hook.Machine.{Mem, Res, null}
use art_hook.Machine.Laws.{Ensures, returns, bind, weaken, at_return}
use art_hook.Machine.Stores.{peek}
use art_hook.Art.State.{Runtime, Statics, ArtMethodKey, ArtMethodOffsets, ArtBridgeList}
use art_hook.Art.Runs.{fork}
use art_hook.Art.Suspend.{manual_control}
use art_hook.Art.Modifiers.{android_n}
use art_hook.Art.Method.{
  get_declaring_class, get_dex_code_item_offset, get_interpreter_code, get_quick_code,
}
use art_hook.Art.Method.View.{Fields, declared, member_of_lem}
use art_hook.Art.Method.Updates.{get_declaring_class-Shows}
use art_hook.Art.Hook.{Keys, insert_key, backup, force_profiles, hook_method}
use art_hook.Art.Hook.Invariant.{IsPolite, Apart, Ready, Stays, call-Stays, get_symbol-Stays}
use art_hook.Art.Hook.Accesses.{Ready-keys, Reads-Ready}
use art_hook.Art.Hook.Cloning.{Clear, clone_method-Flagged, read-Holds, flags-Holds, jni_code-Holds}
use art_hook.Art.Hook.Steps.{
  BridgesFit, hooked, hooked_extra, dex-Holds, forbid-Holds, native-Holds,
}
use art_hook.Art.Hook.Entries.{reset_hotness-Holds, point_to_jni-Holds}
use art_hook.Art.Hook.Digits.{hooked_digit, hooked_flags-digit}

-- The key has what the method had; an entry point for the interpreter it has before 7.0.
pub record Records (api : ℕ) (o : ArtMethodOffsets) (f : Fields) (key : ArtMethodKey) : Type 0 where
  pub class_kept : key.decl_class ≡ declared o f
  pub flags_kept : key.access_flags ≡ f.flags
  pub dex_kept : key.dex_code_item_offset ≡ f.dex_code
  pub quick_kept : key.quick_code ≡ f.quick_code
  pub jni_kept : key.jni_code ≡ f.jni_code
  pub interpreter_kept : (leb android_n api ≡ true) ⊎ (key.interpreter_code ≡ f.extra)

module _ (api size id : ℕ) (o : ArtMethodOffsets) (bridge : ArtBridgeList) (keys : Keys)
    (ends : id + size ≤ 2 ^ 64) (k : Runtime) (polite : IsPolite k id size) where
  abbrev pub Good : Fields → Statics → Mem → Type 0
  Good f = Ready api size id o bridge keys f

  pub control-Stays :
      (ks : Keys) (f : Fields) (suspend : Bool) (s : Statics) (m : Mem)
      → Ready api size id o bridge ks f s m
      → Stays api size id o bridge ks f (manual_control k suspend s m)
  unfolding manual_control
  control-Stays ks f suspend s m r =
      bind (get_symbol-Stays _ _ _ _ _ _ _ k polite s m r) λ list m1 r1.
        fork (list.0.suspend_vm != null && list.0.resume_vm != null) _ _ list.1 m1
          (λ _. bind (call-Stays _ _ _ _ _ _ _ k polite _ [] list.1 m1 r1) (λ p m2 h. returns h.1))
          (λ _. returns r1)

  pub profiles-Stays :
      (ks : Keys) (f : Fields) (s : Statics) (m : Mem)
      → Ready api size id o bridge ks f s m
      → Stays api size id o bridge ks f (force_profiles k s m)
  unfolding force_profiles
  profiles-Stays ks f s m r = bind (get_symbol-Stays _ _ _ _ _ _ _ k polite s m r) λ list m1 r1.
      fork (list.0.force_process_profiles != null) _ _ list.1 m1
        (λ _. bind (call-Stays _ _ _ _ _ _ _ k polite _ [] list.1 m1 r1) (λ p m2 h. returns h.1))
        (λ _. returns r1)

  -- What the map of hooked methods is after a backup.
  abbrev pub BackedUp : Fields → Fields → Statics → Mem → Type 0
  BackedUp f f' s m =
      (key : ArtMethodKey) × Records api o f key
      × Apart id size key.original_method
      × Ready api size id o bridge (insert_key id key keys) f' s m

  pub dex-Reads :
      (f : Fields) (s : Statics) (m : Mem)
      → Good f s m
      → Ensures
          (λ p m'. (p.0 ≡ f.dex_code) × Good f p.1 m')
          (λ _. Unit {0})
          (get_dex_code_item_offset id s m)
  unfolding get_dex_code_item_offset
  dex-Reads f s m r =
      Reads-Ready _ _ _ _ _ _ f ends f.dex_code (get_dex_code_item_offset id) s m r
        (member_of_lem 4 id _ f.dex_code s m (omega arith) r.shown.dex_shown)

  pub quick-Reads :
      (f : Fields) (s : Statics) (m : Mem)
      → Good f s m
      → Ensures
          (λ p m'. (p.0 ≡ f.quick_code) × Good f p.1 m')
          (λ _. Unit {0})
          (get_quick_code id s m)
  unfolding get_quick_code
  quick-Reads f s m r =
      Reads-Ready _ _ _ _ _ _ f ends f.quick_code (get_quick_code id) s m r
        (member_of_lem 8 id _ f.quick_code s m (omega arith) r.shown.quick_shown)

  -- What `GetEntryPointFromInterpreter` reads.
  pub interpreter-Reads :
      (f : Fields) (s : Statics) (m : Mem)
      → Good f s m
      → Ensures
          (λ p m'. ((leb android_n api ≡ true) ⊎ (p.0 ≡ f.extra)) × Good f p.1 m')
          (λ _. Unit {0})
          (get_interpreter_code id s m)
  unfolding get_interpreter_code
  interpreter-Reads f s m r = elim (Bool-cases (leb android_n api)) [
    | inl new ↦
        weaken (read-Holds _ _ _ _ _ _ f ends k polite id _ s m r) (λ p m' h. (inl new, h))
          (λ _ u. u)
    | inr old ↦
        let place : s.method_offset.interpreter_code_offset + 8 ≤ s.method_offset.jni_code_offset =
          rw old at r.laid.jni_place in
        weaken
          (Reads-Ready _ _ _ _ _ _ f ends f.extra (get_interpreter_code id) s m r
            (member_of_lem 8 id _ f.extra s m (omega arith) (rw old at r.shown.extra_shown)))
          (λ p m' h. (inr h.0, h.1)) (λ _ u. u)
  ]

  pub backup-BackedUp :
      (f : Fields) (s : Statics) (m : Mem)
      → Clear id size f.jni_code
      → Good f s m
      → Ensures (λ p m'. BackedUp f f p.1 m') (λ _. Unit {0}) (backup k id s m)
  unfolding backup get_declaring_class get_dex_code_item_offset get_interpreter_code get_quick_code
  backup-BackedUp f s m clear r =
      bind (get_declaring_class-Shows api size id ends f s m r.laid r.shown) λ class m1 h1.
        bind (flags-Holds _ _ _ _ _ _ f ends k polite class.1 m1 (rw (h1.1, h1.2) r)) λ flags m2 h2.
          bind (dex-Reads f flags.1 m2 h2.1) λ dex m3 h3.
            bind (interpreter-Reads f dex.1 m3 h3.1) λ interpreter m4 h4.
              bind (quick-Reads f interpreter.1 m4 h4.1) λ quick m5 h5.
                bind (jni_code-Holds _ _ _ _ _ _ f ends k polite quick.1 m5 h5.1) λ jni m6 h6.
                  bind (clone_method-Flagged _ _ _ _ _ _ f ends k polite jni.1 m6 clear h6.1)
                    λ clone m7 h7. returns (
                      _,
                      record {
                        class_kept = h1.0 ∙ ap (λ x. declared x f) r.offsets_known;
                        flags_kept = h2.0;
                        dex_kept = h3.0;
                        quick_kept = h5.0;
                        jni_kept = h6.0;
                        interpreter_kept = h4.0;
                      },
                      h7.0,
                      Ready-keys _ _ _ _ _ _ f _ _ clone.1 m7 (ap (insert_key id _) h7.2.keys_known)
                          h7.2,
                    )

  extra_after :
      (x : ℕ)
      → (if ltb api android_n && bridge.interpreter_to_compiled_code != null
          then bridge.interpreter_to_compiled_code
          else (if leb android_n api then 0 else x))
        ≡ hooked_extra api bridge x
  extra_after x = ground arith

  module _ (f : Fields) (replace : ℕ) (s : Statics) (m : Mem) (clear : Clear id size f.jni_code)
      (bridges : BridgesFit bridge) (fits : replace < 2 ^ 64) (ready : Good f s m) where
    pub hook_method-Ensures :
        Ensures
          (λ p n. BackedUp f (hooked api bridge replace f) p.1 n)
          (λ _. Unit {0})
          (hook_method k id replace s m)
    unfolding hook_method
    hook_method-Ensures = bind (control-Stays keys f true s m ready) λ p1 m1 r1.
        bind (backup-BackedUp f p1.1 m1 clear r1) λ p2 m2 h2.
          let ks = insert_key id h2.0 keys in
          bind (profiles-Stays ks f p2.1 m2 h2.3) λ p3 m3 r3.
            bind (dex-Holds _ _ _ _ _ ks ends f p3.1 m3 r3) λ p4 m4 r4.
              bind (forbid-Holds _ _ _ _ _ ks ends _ p4.1 m4 r4) λ p5 m5 r5.
                bind (reset_hotness-Holds _ _ _ _ _ ks ends k polite _ p5.1 m5 r5) λ p6 m6 r6.
                  bind (native-Holds _ _ _ _ _ ks ends _ p6.1 m6 r6) λ p7 m7 r7.
                    bind
                      (point_to_jni-Holds _ _ _ _ _ ks ends k polite _ replace p7.1 m7 bridges fits
                        r7)
                      λ p8 m8 r8.
                        weaken (control-Stays ks _ false p8.1 m8 r8)
                          (λ p9 m9 r9. (h2.0, h2.1, h2.2, rw (extra_after f.extra) at r9))
                          (λ _ u. u)

  module _ (f : Fields) (replace : ℕ) (s s' : Statics) (m m' : Mem)
      (clear : Clear id size f.jni_code) (bridges : BridgesFit bridge) (fits : replace < 2 ^ 64)
      (ready : Good f s m) (run : hook_method k id replace s m ≡ Res.done (tt, s') m') where
    -- A hook that returns has left the members of the method as the specification says: the class as
    -- it was, no dex code, the entry point for compiled code at the bridge to JNI, the entry point
    -- for JNI at the replacement, the flags of `native_flags` and `forbidden_flags`, and the hotness
    -- at 0 (before 7.0: the entry point for the interpreter at its bridge, if there is one). The map
    -- of hooked methods has been given a key with the members as they were and with a clone that is
    -- apart from the method, unless it had a key for the method. It is supposed that the members are
    -- laid out within the method, that the bridges have been looked up, that the profiling info is
    -- apart from the method, and that what the hook calls does not write into the method.
    pub hook_method-Hooked : BackedUp f (hooked api bridge replace f) s' m'
    hook_method-Hooked =
        at_return (rw run at (hook_method-Ensures f replace s m clear bridges fits ready))

    -- Digit by digit, a hook that returns has set the flags of a native and of a fast native method,
    -- has set those that keep the compiler away (one flag before 8.1, two from then on), has cleared
    -- the one of a critical native method from 9.0 on, and has left every other flag as it was,
    -- whatever the flags were. It is supposed what the refinement supposes.
    pub hook_method-flags :
        (i : ℕ)
        → i < 32
        → (v : ℕ) × (peek 4 (id + s'.method_offset.access_flags_offset) m' ≡ some v)
          × (digit i v ≡ hooked_digit api i (digit i f.flags))
    hook_method-flags i h =
        (_, hook_method-Hooked.3.shown.flags_shown, hooked_flags-digit api f.flags i h)

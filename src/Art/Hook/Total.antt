-- ===== src/Art/Hook/Total.antt =====
-- `ArtMethod::Hook` and `Backup` of cpp/art/ArtMethod.cpp return, and do what a hook is to do.
use art_hook.Base.{ℕ, ◌+◌, ◌^◌, ◌≤◌, ◌<◌, ◌≡◌, true, false, arith, ltb}
use art_hook.Machine.{Mem, Res}
use art_hook.Machine.Total.{Usable, Usable-Opens, Lives, lives, meet, after, along, through, found}
use art_hook.Art.State.{ArtMethodOffsets, ArtBridgeList, Runtime, Statics}
use art_hook.Art.Live.{
  Lives-Calm, read-Calm, get_declaring_class-Calm, get_access_flags-Calm,
  get_dex_code_item_offset-Calm, set_dex_code_item_offset-Calm, get_quick_code-Calm,
  get_jni_code-Calm,
}
use art_hook.Art.Modifiers.{android_m}
use art_hook.Art.Method.{get_interpreter_code}
use art_hook.Art.Method.View.{Fields}
use art_hook.Art.Method.Updates.{get_declaring_class-Shows}
use art_hook.Art.Hook.{Keys, insert_key, backup, hook_method}
use art_hook.Art.Hook.Invariant.{IsPolite, Ready}
use art_hook.Art.Hook.Steps.{BridgesFit, hooked, dex-Holds, forbid-Holds, native-Holds}
use art_hook.Art.Hook.Entries.{reset_hotness-Holds}
use art_hook.Art.Hook.Cloning.{Clear, read-Holds, flags-Holds, jni_code-Holds}
use art_hook.Art.Hook.Live.{
  IsLive, forbid-Calm, native-Calm, reset-Calm, point-Calm, control-Lives, profiles-Lives,
}
use art_hook.Art.Hook.Cloned.{ProfileOpen, ProfileOpen-Opens, clone-Lives}
use art_hook.Art.Hook.Laws.{
  control-Stays, profiles-Stays, dex-Reads, quick-Reads, backup-BackedUp, BackedUp,
  hook_method-Ensures,
}

module _ (api size id : ℕ) (o : ArtMethodOffsets) (bridge : ArtBridgeList) (keys : Keys)
    (ends : id + size ≤ 2 ^ 64) (k : Runtime) (polite : IsPolite k id size) (live : IsLive k size)
    (whole : o.method_size ≡ size) (modern : ltb api android_m ≡ false)
    (place : o.interpreter_code_offset + 8 ≤ size) where
  abbrev Good : Fields → Statics → Mem → Type 0
  Good f = Ready api size id o bridge keys f

  backup-Lives :
      (f : Fields) (s : Statics) (m : Mem)
      → Clear id size f.jni_code
      → ProfileOpen m f.jni_code
      → Good f s m
      → Usable m size id
      → Lives m (backup k id s m)
  unfolding backup get_interpreter_code
  backup-Lives f s m clear profile r u =
      along (get_declaring_class-Shows api size id ends f s m r.laid r.shown)
        (Lives-Calm (get_declaring_class-Calm api size id s m r.laid ends u))
        λ class m1 h1 o1.
          let r1 : Good f class.1 m1 = rw (h1.1, h1.2) r in
          let u1 = Usable-Opens o1 u in
          along (flags-Holds _ _ _ _ _ _ f ends k polite class.1 m1 r1)
            (Lives-Calm (get_access_flags-Calm api size id class.1 m1 r1.laid ends u1))
            λ flags m2 h2 o2.
              let u2 = Usable-Opens o2 u1 in
              along (dex-Reads api size id o bridge keys ends k polite f flags.1 m2 h2.1)
                (Lives-Calm
                  (get_dex_code_item_offset-Calm api size id flags.1 m2 h2.1.laid ends u2))
                λ dex m3 h3 o3.
                  let u3 = Usable-Opens o3 u2 in
                  let there : dex.1.method_offset.interpreter_code_offset + 8 ≤ size =
                    rw h3.1.offsets_known place in
                  along (read-Holds _ _ _ _ _ _ f ends k polite id _ dex.1 m3 h3.1)
                    (Lives-Calm (read-Calm size id dex.1 m3 ends u3 8 _ (omega arith) there))
                    λ interpreter m4 r4 o4.
                      let u4 = Usable-Opens o4 u3 in
                      along
                        (quick-Reads api size id o bridge keys ends k polite f interpreter.1 m4 r4)
                        (Lives-Calm
                          (get_quick_code-Calm api size id interpreter.1 m4 r4.laid ends u4))
                        λ quick m5 h5 o5.
                          let u5 = Usable-Opens o5 u4 in
                          along (jni_code-Holds _ _ _ _ _ _ f ends k polite quick.1 m5 h5.1)
                            (Lives-Calm
                              (get_jni_code-Calm api size id quick.1 m5 h5.1.laid ends u5))
                            λ jni m6 h6 o6.
                              let so_far =
                                through o1 (through o2 (through o3 (through o4 (through o5 o6)))) in
                              after
                                (clone-Lives _ _ _ _ _ _ f ends k polite live whole modern jni.1 m6
                                  clear.0 (ProfileOpen-Opens so_far profile) h6.1
                                  (Usable-Opens o6 u5))
                                (λ x n c. lives)

  module _ (f : Fields) (replace : ℕ) (s : Statics) (m : Mem) (clear : Clear id size f.jni_code)
      (bridges : BridgesFit bridge) (fits : replace < 2 ^ 64) (ready : Good f s m)
      (profile : ProfileOpen m f.jni_code) (usable : Usable m size id) where
    hook_method-Lives : Lives m (hook_method k id replace s m)
    unfolding hook_method
    hook_method-Lives =
        along (control-Stays api size id o bridge keys ends k polite keys f true s m ready)
          (control-Lives k size live true s m)
          λ p1 m1 r1 o1.
            let u1 = Usable-Opens o1 usable in
            along (backup-BackedUp api size id o bridge keys ends k polite f p1.1 m1 clear r1)
              (backup-Lives f p1.1 m1 clear (ProfileOpen-Opens o1 profile) r1 u1)
              λ p2 m2 h2 o2.
                let u2 = Usable-Opens o2 u1 in
                let ks = insert_key id h2.0 keys in
                along (profiles-Stays api size id o bridge keys ends k polite ks f p2.1 m2 h2.3)
                  (profiles-Lives k size live p2.1 m2)
                  λ p3 m3 r3 o3.
                    let u3 = Usable-Opens o3 u2 in
                    along (dex-Holds _ _ _ _ _ ks ends f p3.1 m3 r3)
                      (Lives-Calm
                        (set_dex_code_item_offset-Calm api size id p3.1 m3 r3.laid ends u3 0))
                      λ p4 m4 r4 o4.
                        let u4 = Usable-Opens o4 u3 in
                        along (forbid-Holds _ _ _ _ _ ks ends _ p4.1 m4 r4)
                          (Lives-Calm (forbid-Calm api size id ends p4.1 r4.laid m4 u4))
                          λ p5 m5 r5 o5.
                            let u5 = Usable-Opens o5 u4 in
                            along (reset_hotness-Holds _ _ _ _ _ ks ends k polite _ p5.1 m5 r5)
                              (Lives-Calm
                                (reset-Calm api size id ends p5.1 r5.laid m5 r5.api_known u5))
                              λ p6 m6 r6 o6.
                                let u6 = Usable-Opens o6 u5 in
                                along (native-Holds _ _ _ _ _ ks ends _ p6.1 m6 r6)
                                  (Lives-Calm (native-Calm api size id ends p6.1 r6.laid m6 u6))
                                  λ p7 m7 r7 o7.
                                    after
                                      (Lives-Calm (
                                        point-Calm api size id ends p7.1 r7.laid k replace m7
                                          r7.bridge_found r7.api_known (Usable-Opens o7 u6)))
                                      (λ p8 m8 o8. control-Lives k size live false p8.1 m8)

    -- From 6.0 on a hook returns, and leaves what the specification says: the members of the method
    -- as `hooked` makes them, and a key for the method with the members as they were, the entry
    -- point for the interpreter among them before 7.0, and with a clone apart from it, unless there was a key already. It is supposed that the bytes of the
    -- method, and of its profiling info if it has one, are mapped and can be read and written; that
    -- what the hook calls returns, leaves such bytes so, does not write into the method, and that
    -- `malloc` has as many bytes again, apart from it; that the members are laid out within the method, and the
    -- profiling info apart from it; and that the bridges have been looked up.
    pub hook_method-returns :
        (s' : Statics) × (m' : Mem) × (hook_method k id replace s m ≡ Res.done (tt, s') m')
        × BackedUp api size id o bridge keys ends k polite f (hooked api bridge replace f) s' m'
    hook_method-returns =
        let (p, m', run, h) = found (
          meet
            (hook_method-Ensures api size id o bridge keys ends k polite f replace s m clear bridges
              fits ready)
            hook_method-Lives) in
        (p.1, m', run, h.0)

-- ===== src/Art/Hook/Entries.antt =====
-- The steps of `ArtMethod::Hook` of cpp/art/ArtMethod.cpp that reset the hotness and set the entry points.
use art_hook.Base.{
  ℕ, ◌+◌, ◌^◌, ◌≤◌, ◌<◌, ◌≡◌, sym, ap, ◌∙◌, Bool, true, false, not, ◌&&◌, ◌||◌, ◌!=◌, if◌then◌else◌,
  arith, ltb, leb,
}
use art_hook.Machine.{Mem, Res, null}
use art_hook.Machine.Laws.{returns, bind, weaken}
use art_hook.Art.State.{ArtMethodOffsets, Runtime, Statics, ArtBridgeList, ret}
use art_hook.Art.Runs.{fork}
use art_hook.Art.Modifiers.{acc_abstract, android_n, android_p}
use art_hook.Art.Method.{set_hotness_count, set_quick_code, set_jni_code, set_interpreter_code}
use art_hook.Art.Method.View.{Fields}
use art_hook.Art.Method.Updates.{
  set_hotness_count-Shows, set_interpreter_code-Shows, set_quick_code-Shows, set_jni_code-Shows,
}
use art_hook.Art.Hook.{Keys, reset_hotness, point_to_jni}
use art_hook.Art.Hook.Cloning.{has_flags-Holds}
use art_hook.Art.Hook.Invariant.{IsPolite, Ready, Stays, get_bridge_list-Stays}
use art_hook.Art.Hook.Accesses.{Updates-Ready}
use art_hook.Art.Hook.Steps.{BridgesFit}

module _ (api size id : ℕ) (o : ArtMethodOffsets) (bridge : ArtBridgeList) (keys : Keys)
    (ends : id + size ≤ 2 ^ 64) where
  abbrev Good : Fields → Statics → Mem → Type 0
  Good f = Ready api size id o bridge keys f

  abbrev Holds : Fields → {A : Type 0} → Res (A × Statics) → Type 0
  Holds f {A} r = Stays api size id o bridge keys f {A = A} r

  abbrev cooled : Fields → Fields
  cooled f = record f { extra = if leb android_n api then 0 else f.extra }

  cool-Holds :
      (f : Fields) (s : Statics) (m : Mem)
      → leb android_n api ≡ true
      → Good f s m
      → Holds (cooled f) (set_hotness_count id 0 s m)
  cool-Holds f s m e r = rw e (
      Updates-Ready _ _ _ _ _ _ f ends (record f { extra = 0 }) (set_hotness_count id 0) s m r
        (set_hotness_count-Shows api size id ends f s m r.laid r.shown e))

  -- The test that the hotness is reset under: the flag of an abstract method plays no part in it.
  tested : (a : ℕ) (b : Bool) → (ltb android_p a && not b || leb android_n a) ≡ leb android_n a
  tested a b = ground arith

  module _ (k : Runtime) (polite : IsPolite k id size) where
    pub reset_hotness-Holds :
        (f : Fields) (s : Statics) (m : Mem) → Good f s m → Holds (cooled f) (reset_hotness id s m)
    unfolding reset_hotness
    reset_hotness-Holds f s m r =
        bind
          (fork (ltb android_p s.api_level) _ _ s m
            (λ _.
              weaken (has_flags-Holds _ _ _ _ _ _ f ends k polite acc_abstract s m r)
                (λ p m' h. h.1) (λ _ u. u))
            (λ _. returns r))
          λ p m1 r1.
            fork (ltb android_p s.api_level && not p.0 || leb android_n s.api_level) _ _ p.1 m1
              (λ yes.
                cool-Holds f p.1 m1
                  (ap (leb android_n) (sym r.api_known) ∙ sym (tested s.api_level p.0) ∙ yes) r1)
              (λ no.
                let e : leb android_n api ≡ false =
                  ap (leb android_n) (sym r.api_known) ∙ sym (tested s.api_level p.0) ∙ no in
                rw e (returns r1))

    quick-Holds :
        (f : Fields) (v : ℕ) (s : Statics) (m : Mem)
        → v < 2 ^ 64
        → Good f s m
        → Holds (record f { quick_code = v }) (set_quick_code id v s m)
    quick-Holds f v s m fits r =
        Updates-Ready _ _ _ _ _ _ f ends (record f { quick_code = v }) (set_quick_code id v) s m r
          (set_quick_code-Shows api size id ends f s m r.laid r.shown v fits)

    jni-Holds :
        (f : Fields) (v : ℕ) (s : Statics) (m : Mem)
        → v < 2 ^ 64
        → Good f s m
        → Holds (record f { jni_code = v }) (set_jni_code id v s m)
    jni-Holds f v s m fits r =
        Updates-Ready _ _ _ _ _ _ f ends (record f { jni_code = v }) (set_jni_code id v) s m r
          (set_jni_code-Shows api size id ends f s m r.laid r.shown v fits)

    interpreter-Holds :
        (f : Fields) (v : ℕ) (s : Statics) (m : Mem)
        → leb android_n api ≡ false
        → v < 2 ^ 64
        → Good f s m
        → Holds (record f { extra = v }) (set_interpreter_code id v s m)
    interpreter-Holds f v s m old fits r =
        Updates-Ready _ _ _ _ _ _ f ends (record f { extra = v }) (set_interpreter_code id v) s m r
          (set_interpreter_code-Shows api size id ends f s m r.laid r.shown v old fits)

    abbrev entered : Fields → Fields
    entered f = record f {
      extra =
          if ltb api android_n && bridge.interpreter_to_compiled_code != null
          then bridge.interpreter_to_compiled_code
          else f.extra;
    }

    interpret-Holds :
        (f : Fields) (s : Statics) (m : Mem)
        → BridgesFit bridge
        → Good f s m
        → Holds (entered f) (
            (if ltb s.api_level android_n && bridge.interpreter_to_compiled_code != null
                then set_interpreter_code id bridge.interpreter_to_compiled_code
                else ret tt)
              s m)
    interpret-Holds f s m fit r =
        let same : ltb s.api_level android_n ≡ ltb api android_n =
          ap (λ a. ltb a android_n) r.api_known in
        fork _ _ _ s m
          (λ yes.
            let e : (ltb api android_n && bridge.interpreter_to_compiled_code != null) ≡ true =
              ap (λ b. b && bridge.interpreter_to_compiled_code != null) (sym same) ∙ yes in
            rw e
              (interpreter-Holds f bridge.interpreter_to_compiled_code s m (ground arith) fit.1 r))
          (λ no.
            let e : (ltb api android_n && bridge.interpreter_to_compiled_code != null) ≡ false =
              ap (λ b. b && bridge.interpreter_to_compiled_code != null) (sym same) ∙ no in
            rw e (returns r))

    pub point_to_jni-Holds :
        (f : Fields) (replace : ℕ) (s : Statics) (m : Mem)
        → BridgesFit bridge
        → replace < 2 ^ 64
        → Good f s m
        → Holds
            (record (entered f) { jni_code = replace; quick_code = bridge.quick_to_jni_bridge })
            (point_to_jni k id replace s m)
    unfolding point_to_jni
    point_to_jni-Holds f replace s m fit fits r =
        bind (get_bridge_list-Stays _ _ _ _ _ _ _ k polite s m r) λ p m1 h. rw h.0 (
          bind (quick-Holds f bridge.quick_to_jni_bridge p.1 m1 fit.0 h.1) λ q m2 r2.
            bind (interpret-Holds _ q.1 m2 fit r2) (λ u m3 r3. jni-Holds _ replace u.1 m3 fits r3))

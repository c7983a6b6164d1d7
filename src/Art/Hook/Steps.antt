-- ===== src/Art/Hook/Steps.antt =====
-- The steps of `ArtMethod::Hook` that change the members of the method.
use art_hook.Base.{
  ℕ, ◌+◌, ◌^◌, ◌≤◌, ◌<◌, ◌≡◌, sym, ap, ◌∙◌, true, false, ◌==◌, if◌then◌else◌, arith, ltb, leb,
  bit_and, bit_or,
}
use art_hook.Base.Digits.{bit_or_lt, bit_and_lt}
use art_hook.Machine.{Mem, Res, null}
use art_hook.Machine.Laws.{Ensures, returns, bind}
use art_hook.Art.State.{ArtMethodOffsets, Statics, ArtBridgeList}
use art_hook.Art.Runs.{fork}
use art_hook.Art.Modifiers.{
  acc_native, acc_fast_native, acc_critical_native_p, acc_compile_dont_bother_n,
  acc_compile_dont_bother_o_mr1, acc_previously_warm_o_mr1, android_n, android_o_mr1, android_p,
  complement,
}
use art_hook.Art.Method.{
  add_access_flags, remove_access_flags, get_access_flags, set_access_flags,
  set_dex_code_item_offset,
}
use art_hook.Art.Method.View.{Fields}
use art_hook.Art.Method.Updates.{
  set_access_flags-Shows, get_access_flags-Shows, set_dex_code_item_offset-Shows,
}
use art_hook.Art.Hook.{Keys, forbid_compiling, make_native}
use art_hook.Art.Hook.Invariant.{Ready, Stays}
use art_hook.Art.Hook.Accesses.{Reads-Ready, Updates-Ready}

-- The entry points of the runtime are 64-bit addresses.
abbrev pub BridgesFit : ArtBridgeList → Type 0
BridgesFit bridge =
    (bridge.quick_to_jni_bridge < 2 ^ 64) × (bridge.interpreter_to_compiled_code < 2 ^ 64)

-- The members that a hook leaves, from those that it finds.
abbrev pub forbidden_flags : (api flags : ℕ) → ℕ
forbidden_flags api flags =
    if ltb api android_o_mr1
    then bit_or flags acc_compile_dont_bother_n
    else bit_or (bit_or flags acc_compile_dont_bother_o_mr1) acc_previously_warm_o_mr1

abbrev pub native_flags : (api flags : ℕ) → ℕ
native_flags api flags =
    let native = bit_or (bit_or flags acc_native) acc_fast_native in
    if leb android_p api then bit_and native (complement acc_critical_native_p) else native

abbrev pub hooked_extra : (api : ℕ) → ArtBridgeList → (extra : ℕ) → ℕ
hooked_extra api bridge extra =
    if leb android_n api
    then 0
    else (if bridge.interpreter_to_compiled_code == null
        then extra
        else bridge.interpreter_to_compiled_code)

abbrev pub hooked : (api : ℕ) → ArtBridgeList → (replace : ℕ) → Fields → Fields
hooked api bridge replace f = record {
  class = f.class;
  word = f.word;
  flags = native_flags api (forbidden_flags api f.flags);
  dex_code = 0;
  extra = hooked_extra api bridge f.extra;
  jni_code = replace;
  quick_code = bridge.quick_to_jni_bridge;
}

module _ (api size id : ℕ) (o : ArtMethodOffsets) (bridge : ArtBridgeList) (keys : Keys)
    (ends : id + size ≤ 2 ^ 64) where
  abbrev Good : Fields → Statics → Mem → Type 0
  Good f = Ready api size id o bridge keys f

  abbrev Holds : Fields → {A : Type 0} → Res (A × Statics) → Type 0
  Holds f {A} r = Stays api size id o bridge keys f {A = A} r

  abbrev with_flags : Fields → ℕ → Fields
  with_flags f v = record f { flags = v }

  set_flags-Holds :
      (f : Fields) (v : ℕ) (s : Statics) (m : Mem)
      → v < 2 ^ 32
      → Good f s m
      → Holds (with_flags f v) (set_access_flags id v s m)
  set_flags-Holds f v s m fits r =
      Updates-Ready _ _ _ _ _ _ f ends (with_flags f v) (set_access_flags id v) s m r
        (set_access_flags-Shows api size id ends f s m r.laid r.shown v fits)

  now_flags-Holds :
      (f : Fields) (s : Statics) (m : Mem)
      → Good f s m
      → Ensures (λ p m'. (p.0 ≡ f.flags) × Good f p.1 m') (λ _. Unit {0}) (get_access_flags id s m)
  now_flags-Holds f s m r =
      Reads-Ready _ _ _ _ _ _ _ ends f.flags (get_access_flags id) s m r
        (get_access_flags-Shows api size id ends f s m r.laid r.shown)

  add-Holds :
      (f : Fields) (x : ℕ) (s : Statics) (m : Mem)
      → x < 2 ^ 32
      → Good f s m
      → Holds (with_flags f (bit_or f.flags x)) (add_access_flags id x s m)
  unfolding add_access_flags
  add-Holds f x s m fits r = bind (now_flags-Holds f s m r) λ p m1 h. rw h.0 (
      set_flags-Holds f (bit_or f.flags x) p.1 m1 (bit_or_lt 32 f.flags x r.shown.flags_fit fits)
        h.1)

  remove-Holds :
      (f : Fields) (x : ℕ) (s : Statics) (m : Mem)
      → Good f s m
      → Holds (with_flags f (bit_and f.flags (complement x))) (remove_access_flags id x s m)
  unfolding remove_access_flags
  remove-Holds f x s m r = bind (now_flags-Holds f s m r) λ p m1 h.
      rw h.0
        (set_flags-Holds f _ p.1 m1 (bit_and_lt 32 f.flags (complement x) r.shown.flags_fit) h.1)

  pub forbid-Holds :
      (f : Fields) (s : Statics) (m : Mem)
      → Good f s m
      → Holds (with_flags f (forbidden_flags api f.flags)) (forbid_compiling id s m)
  unfolding forbid_compiling
  forbid-Holds f s m r =
      fork (ltb s.api_level android_o_mr1) _ _ s m
        (λ old.
          let e : ltb api android_o_mr1 ≡ true =
            ap (λ a. ltb a android_o_mr1) (sym r.api_known) ∙ old in
          rw e (add-Holds f acc_compile_dont_bother_n s m (omega arith) r))
        (λ new.
          let e : ltb api android_o_mr1 ≡ false =
            ap (λ a. ltb a android_o_mr1) (sym r.api_known) ∙ new in
          rw e (
            bind (add-Holds f acc_compile_dont_bother_o_mr1 s m (omega arith) r)
              (λ p m1 r1. add-Holds _ acc_previously_warm_o_mr1 p.1 m1 (omega arith) r1)))

  pub native-Holds :
      (f : Fields) (s : Statics) (m : Mem)
      → Good f s m
      → Holds (with_flags f (native_flags api f.flags)) (make_native id s m)
  unfolding make_native
  native-Holds f s m r = bind (add-Holds f acc_native s m (omega arith) r) λ p m1 r1.
      bind (add-Holds _ acc_fast_native p.1 m1 (omega arith) r1) λ q m2 r2.
        fork (leb android_p s.api_level) _ _ q.1 m2
          (λ new.
            let e : leb android_p api ≡ true = ap (leb android_p) (sym r.api_known) ∙ new in
            rw e (remove-Holds _ acc_critical_native_p q.1 m2 r2))
          (λ old.
            let e : leb android_p api ≡ false = ap (leb android_p) (sym r.api_known) ∙ old in
            rw e (returns r2))

  pub dex-Holds :
      (f : Fields) (s : Statics) (m : Mem)
      → Good f s m
      → Holds (record f { dex_code = 0 }) (set_dex_code_item_offset id 0 s m)
  dex-Holds f s m r =
      Updates-Ready _ _ _ _ _ _ f ends (record f { dex_code = 0 }) (set_dex_code_item_offset id 0) s
        m r (set_dex_code_item_offset-Shows api size id ends f s m r.laid r.shown 0 (omega arith))

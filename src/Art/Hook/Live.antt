-- ===== src/Art/Hook/Live.antt =====
-- The steps of `ArtMethod::Hook` of cpp/art/ArtMethod.cpp return, where the bytes of the method are open.
use Prim.Native.String.{String}
use art_hook.Base.{
  ℕ, ◌+◌, ◌^◌, ◌≤◌, ◌≡◌, sym, ap, ◌∙◌, Bool, true, not, ◌&&◌, ◌||◌, ◌==◌, ◌!=◌, List, [], arith,
  ltb, leb,
}
use art_hook.Machine.{Mem, Cmd, null}
use art_hook.Machine.Total.{Total, Opens, Usable, Usable-Opens, Lives, lives, after}
use art_hook.Art.State.{ArtSymbolList, Runtime, Statics, Act, lift, call, ◌>>=◌}
use art_hook.Art.Live.{
  Calm, calm, settle, choose, get_access_flags-Calm, has_access_flags-Calm, set_access_flags-Calm,
  set_hotness_count-Calm, set_quick_code-Calm, set_jni_code-Calm, set_interpreter_code-Calm,
}
use art_hook.Art.Modifiers.{
  acc_abstract, acc_native, acc_fast_native, acc_critical_native_p, acc_compile_dont_bother_n,
  acc_compile_dont_bother_o_mr1, acc_previously_warm_o_mr1, android_n, android_o_mr1, android_p,
}
use art_hook.Art.Symbols.{get_symbol, find_symbols, find_clones, get_bridge_list}
use art_hook.Art.Suspend.{manual_control}
use art_hook.Art.Method.{add_access_flags, remove_access_flags}
use art_hook.Art.Method.View.{IsLaidOut}
use art_hook.Art.Hook.{forbid_compiling, reset_hotness, make_native, force_profiles, point_to_jni}

-- What is called returns, and leaves open what was open; `malloc` gives the bytes of a method.
pub record IsLive (k : Runtime) (size : ℕ) : Type 0 where
  pub dl_open_lives : (name : String) (m : Mem) → Lives m (k.dl_open name m)
  pub dl_sym_lives : (lib : ℕ) (name : String) (m : Mem) → Lives m (k.dl_sym lib name m)
  pub malloc_gives : (m : Mem) → Total (λ p l. Opens m l × Usable l size p) (k.malloc size m)
  pub call_lives : (f : ℕ) (args : List ℕ) (m : Mem) → Lives m (k.call f args m)

module _ (api size p : ℕ) (fits : p + size ≤ 2 ^ 64) (s : Statics)
    (l : IsLaidOut api size s.method_offset) where
  add-Calm : (x : ℕ) (m : Mem) → Usable m size p → Calm s m (add_access_flags p x s m)
  unfolding add_access_flags
  add-Calm x m u =
      settle _ (get_access_flags-Calm api size p s m l fits u)
        λ now n o. set_access_flags-Calm api size p s n l fits (Usable-Opens o u) _

  remove-Calm : (x : ℕ) (m : Mem) → Usable m size p → Calm s m (remove_access_flags p x s m)
  unfolding remove_access_flags
  remove-Calm x m u =
      settle _ (get_access_flags-Calm api size p s m l fits u)
        λ now n o. set_access_flags-Calm api size p s n l fits (Usable-Opens o u) _

  pub forbid-Calm : (m : Mem) → Usable m size p → Calm s m (forbid_compiling p s m)
  unfolding forbid_compiling
  forbid-Calm m u =
      choose (ltb s.api_level android_o_mr1) _ _ s m (λ _. add-Calm acc_compile_dont_bother_n m u)
        (λ _.
          settle _ (add-Calm acc_compile_dont_bother_o_mr1 m u)
            λ _ n o. add-Calm acc_previously_warm_o_mr1 n (Usable-Opens o u))

  pub native-Calm : (m : Mem) → Usable m size p → Calm s m (make_native p s m)
  unfolding make_native
  native-Calm m u = settle _ (add-Calm acc_native m u) λ _ m1 o1.
      settle _ (add-Calm acc_fast_native m1 (Usable-Opens o1 u)) λ _ m2 o2.
        choose (leb android_p s.api_level) _ _ s m2
          (λ _. remove-Calm acc_critical_native_p m2 (Usable-Opens o2 (Usable-Opens o1 u)))
          (λ _. calm)

  tested : (a : ℕ) (b : Bool) → (ltb android_p a && not b || leb android_n a) ≡ leb android_n a
  tested a b = ground arith

  pub reset-Calm : (m : Mem) → s.api_level ≡ api → Usable m size p → Calm s m (reset_hotness p s m)
  unfolding reset_hotness
  reset-Calm m known u =
      settle _
        (choose (ltb android_p s.api_level) _ _ s m
          (λ _. has_access_flags-Calm api size p s m l fits u acc_abstract) (λ _. calm))
        λ is_abstract n o.
          choose (ltb android_p s.api_level && not is_abstract || leb android_n s.api_level) _ _ s n
            (λ yes.
              set_hotness_count-Calm api size p s n l fits (Usable-Opens o u) 0
                (ap (leb android_n) (sym known) ∙ sym (tested s.api_level is_abstract) ∙ yes))
            (λ _. calm)

  -- The bridges are known.
  pub bridges-Calm :
      (k : Runtime) (m : Mem) → s.bridge_inited ≡ true → Calm s m (get_bridge_list k s m)
  unfolding get_bridge_list
  bridges-Calm k m known =
      choose s.bridge_inited _ _ s m (λ _. calm)
        (λ unknown. absurd (ground (arith, known, unknown)))

  pub point-Calm :
      (k : Runtime) (replace : ℕ) (m : Mem)
      → s.bridge_inited ≡ true
      → s.api_level ≡ api
      → Usable m size p
      → Calm s m (point_to_jni k p replace s m)
  unfolding point_to_jni
  point-Calm k replace m inited known u = settle _ (bridges-Calm k m inited) λ bridge m0 o0.
      let u0 = Usable-Opens o0 u in
      settle _ (set_quick_code-Calm api size p s m0 l fits u0 _) λ _ m1 o1.
        let u1 = Usable-Opens o1 u0 in
        settle _
          (choose (ltb s.api_level android_n && bridge.interpreter_to_compiled_code != null) _ _ s
            m1
            (λ old.
              set_interpreter_code-Calm api size p s m1 l fits u1 _ (ground (arith, old, known)))
            (λ _. calm))
          λ _ m2 o2. set_jni_code-Calm api size p s m2 l fits (Usable-Opens o2 u1) _

module _ (k : Runtime) (size : ℕ) (live : IsLive k size) where
  lift-Lives :
      {A : Type 0} (c : Cmd A) (s : Statics) (m : Mem) → Lives m (c m) → Lives m (lift c s m)
  lift-Lives c s m h = after h (λ a n o. lives)

  pub call-Lives : (g : ℕ) (args : List ℕ) (s : Statics) (m : Mem) → Lives m (call k g args s m)
  unfolding call
  call-Lives g args s m = after (live.call_lives g args m) (λ a n o. lives)

  sym-Lives :
      {B : Type 0} (lib : ℕ) (name : String) (next : ℕ → Act B) (s : Statics) (m : Mem)
      → ((a : ℕ) (s' : Statics) (n : Mem) → Lives n (next a s' n))
      → Lives m ((lift (k.dl_sym lib name) >>= next) s m)
  sym-Lives lib name next s m rest =
      after (lift-Lives (k.dl_sym lib name) s m (live.dl_sym_lives lib name m))
        (λ p n o. rest p.0 p.1 n)

  clones-Lives :
      (libart object_clone : ℕ) (list : ArtSymbolList) (s : Statics) (m : Mem)
      → Lives m (find_clones k libart object_clone list s m)
  unfolding find_clones
  clones-Lives libart object_clone list s m =
      choose (object_clone == null) _ _ s m
        (λ _. sym-Lives libart _ _ s m λ c s1 m1. sym-Lives libart _ _ s1 m1 (λ z s2 m2. lives))
        (λ _. lives)

  pub get_symbol-Lives : (s : Statics) (m : Mem) → Lives m (get_symbol k s m)
  unfolding get_symbol find_symbols
  get_symbol-Lives s m =
      choose s.symbol_inited _ _ s m (λ _. lives)
        λ _. after (lift-Lives (k.dl_open "libart.so") s m (live.dl_open_lives _ m)) λ lib m0 o.
          sym-Lives lib.0 _ _ lib.1 m0 λ suspend s1 m1. sym-Lives lib.0 _ _ s1 m1 λ resume s2 m2.
            sym-Lives lib.0 _ _ s2 m2 λ profiles s3 m3. sym-Lives lib.0 _ _ s3 m3 λ copy s4 m4.
              sym-Lives lib.0 _ _ s4 m4
                λ clone s5 m5. after (clones-Lives lib.0 clone _ s5 m5) (λ list m6 o6. lives)

  pub control-Lives :
      (suspend : Bool) (s : Statics) (m : Mem) → Lives m (manual_control k suspend s m)
  unfolding manual_control
  control-Lives suspend s m = after (get_symbol-Lives s m) λ list n o.
      choose (list.0.suspend_vm != null && list.0.resume_vm != null) _ _ list.1 n
        (λ _. after (call-Lives _ [] list.1 n) (λ r l o'. lives)) (λ _. lives)

  pub profiles-Lives : (s : Statics) (m : Mem) → Lives m (force_profiles k s m)
  unfolding force_profiles
  profiles-Lives s m = after (get_symbol-Lives s m) λ list n o.
      choose (list.0.force_process_profiles != null) _ _ list.1 n
        (λ _. after (call-Lives _ [] list.1 n) (λ r l o'. lives)) (λ _. lives)

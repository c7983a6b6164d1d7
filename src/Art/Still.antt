-- ===== src/Art/Still.antt =====
-- Code of cpp/art that leaves the static variables as they are.
use art_hook.Base.{
  ℕ, zero, suc, ◌+◌, ◌≡◌, refl, Bool, true, not, ◌&&◌, ◌||◌, ◌!=◌, ◌==◌, ltb, leb, arith,
}
use art_hook.Machine.{Mem, Res, Cmd, and_then, null, load_le, store_le}
use art_hook.Machine.Laws.{Ensures, returns, bind, seen}
use art_hook.Art.State.{ArtSymbolList, Runtime, Statics, Act, lift}
use art_hook.Art.Runs.{fork}
use art_hook.Art.Modifiers.{
  acc_abstract, acc_native, acc_fast_native, acc_critical_native_p, acc_compile_dont_bother_n,
  acc_compile_dont_bother_o_mr1, acc_previously_warm_o_mr1, android_n, android_o_mr1, android_p,
}
use art_hook.Art.Members.{member_of, assign_offset, offset_of}
use art_hook.Art.Method.{
  get_declaring_class, get_access_flags, set_access_flags, add_access_flags, remove_access_flags,
  has_access_flags, get_dex_code_item_offset, set_dex_code_item_offset, get_quick_code,
  set_quick_code, get_interpreter_code, set_interpreter_code, get_jni_code, set_jni_code,
  set_hotness_count,
}
use art_hook.Art.Symbols.{get_bridge_list, find_clones}
use art_hook.Art.Clone.{redirect_profile, move_profile, finish_clone}
use art_hook.Art.Hook.{forbid_compiling, reset_hotness, make_native, point_to_jni}

abbrev pub Still : {A : Type 0} → Statics → Res (A × Statics) → Type 0
Still {A} s r = Ensures {A = A × Statics} (λ p n. p.1 ≡ s) (λ n. Unit {0}) r

module _ {A B : Type 0} {Q : B × Statics → Mem → Type 0} where
  pub kept_then :
      {s : Statics} {r : Res (A × Statics)} (next : A → Act B)
      → Still s r
      → ((a : A) (n : Mem) → Ensures Q (λ n. Unit {0}) (next a s n))
      → Ensures Q (λ n. Unit {0}) (and_then r (λ p. next p.0 p.1))
  kept_then {s} next h rest = bind h (λ p n e. rw e (rest p.0 n))

pub lift-Still : {A : Type 0} (c : Cmd A) (s : Statics) (m : Mem) → Still s (lift c s m)
lift-Still c s m = bind (seen (c m)) (λ a n e. returns refl)

module _ (s : Statics) (p : ℕ) where
  pub member_of-Still : (n off : ℕ) (m : Mem) → Still s (member_of n p off s m)
  unfolding member_of
  member_of-Still n off m = lift-Still (load_le n (offset_of p off)) s m

  pub assign-Still : (n off v : ℕ) (m : Mem) → Still s (assign_offset n p off v s m)
  unfolding assign_offset
  assign-Still n off v m = lift-Still (store_le n (offset_of p off) v) s m

  pub get_declaring_class-Still : (m : Mem) → Still s (get_declaring_class p s m)
  unfolding get_declaring_class
  get_declaring_class-Still m = member_of-Still 8 _ m

  pub get_access_flags-Still : (m : Mem) → Still s (get_access_flags p s m)
  unfolding get_access_flags
  get_access_flags-Still m = member_of-Still 4 _ m

  pub has_access_flags-Still : (x : ℕ) (m : Mem) → Still s (has_access_flags p x s m)
  unfolding has_access_flags
  has_access_flags-Still x m = kept_then _ (get_access_flags-Still m) (λ now n. returns refl)

  pub get_dex_code_item_offset-Still : (m : Mem) → Still s (get_dex_code_item_offset p s m)
  unfolding get_dex_code_item_offset
  get_dex_code_item_offset-Still m = member_of-Still 4 _ m

  pub get_quick_code-Still : (m : Mem) → Still s (get_quick_code p s m)
  unfolding get_quick_code
  get_quick_code-Still m = member_of-Still 8 _ m

  pub get_interpreter_code-Still : (m : Mem) → Still s (get_interpreter_code p s m)
  unfolding get_interpreter_code
  get_interpreter_code-Still m = member_of-Still 8 _ m

  pub get_jni_code-Still : (m : Mem) → Still s (get_jni_code p s m)
  unfolding get_jni_code
  get_jni_code-Still m = member_of-Still 8 _ m

  pub set_access_flags-Still : (v : ℕ) (m : Mem) → Still s (set_access_flags p v s m)
  unfolding set_access_flags
  set_access_flags-Still v m = assign-Still 4 _ v m

  pub set_dex_code_item_offset-Still :
      (v : ℕ) (m : Mem) → Still s (set_dex_code_item_offset p v s m)
  unfolding set_dex_code_item_offset
  set_dex_code_item_offset-Still v m = assign-Still 4 _ v m

  pub set_quick_code-Still : (v : ℕ) (m : Mem) → Still s (set_quick_code p v s m)
  unfolding set_quick_code
  set_quick_code-Still v m = assign-Still 8 _ v m

  pub set_interpreter_code-Still : (v : ℕ) (m : Mem) → Still s (set_interpreter_code p v s m)
  unfolding set_interpreter_code
  set_interpreter_code-Still v m = assign-Still 8 _ v m

  pub set_jni_code-Still : (v : ℕ) (m : Mem) → Still s (set_jni_code p v s m)
  unfolding set_jni_code
  set_jni_code-Still v m = assign-Still 8 _ v m

  pub set_hotness_count-Still : (v : ℕ) (m : Mem) → Still s (set_hotness_count p v s m)
  unfolding set_hotness_count
  set_hotness_count-Still v m = assign-Still 2 _ v m

  add-Still : (x : ℕ) (m : Mem) → Still s (add_access_flags p x s m)
  unfolding add_access_flags
  add-Still x m = kept_then _ (get_access_flags-Still m) (λ now n. set_access_flags-Still _ n)

  remove-Still : (x : ℕ) (m : Mem) → Still s (remove_access_flags p x s m)
  unfolding remove_access_flags
  remove-Still x m = kept_then _ (get_access_flags-Still m) (λ now n. set_access_flags-Still _ n)

  pub forbid-Still : (m : Mem) → Still s (forbid_compiling p s m)
  unfolding forbid_compiling
  forbid-Still m =
      fork (ltb s.api_level android_o_mr1) _ _ s m (λ _. add-Still acc_compile_dont_bother_n m)
        (λ _.
          kept_then _ (add-Still acc_compile_dont_bother_o_mr1 m)
            (λ _ n. add-Still acc_previously_warm_o_mr1 n))

  pub native-Still : (m : Mem) → Still s (make_native p s m)
  unfolding make_native
  native-Still m = kept_then _ (add-Still acc_native m) λ _ m1.
      kept_then _ (add-Still acc_fast_native m1) λ _ m2.
        fork (leb android_p s.api_level) _ _ s m2 (λ _. remove-Still acc_critical_native_p m2)
          (λ _. returns refl)

  pub reset-Still : (m : Mem) → Still s (reset_hotness p s m)
  unfolding reset_hotness
  reset-Still m =
      kept_then _
        (fork (ltb android_p s.api_level) _ _ s m (λ _. has_access_flags-Still acc_abstract m)
          (λ _. returns refl))
        λ is_abstract n.
          fork (ltb android_p s.api_level && not is_abstract || leb android_n s.api_level) _ _ s n
            (λ _. set_hotness_count-Still 0 n) (λ _. returns refl)

  redirect-Still : (n id clone off : ℕ) (m : Mem) → Still s (redirect_profile n p id clone off s m)
  unfolding redirect_profile
  redirect-Still zero id clone off m = returns refl
  redirect-Still (suc n) id clone off m = kept_then _ (member_of-Still 8 off m) λ v m1.
      kept_then _ (fork (v == id) _ _ s m1 (λ _. assign-Still 8 off clone m1) (λ _. returns refl))
        (λ _ m2. redirect-Still n id clone (off + 4) m2)

-- The bridges are known.
module _ (k : Runtime) (s : Statics) (known : s.bridge_inited ≡ true) where
  bridges-Still : (m : Mem) → Still s (get_bridge_list k s m)
  unfolding get_bridge_list
  bridges-Still m =
      fork s.bridge_inited _ _ s m (λ _. returns refl)
        (λ unknown. absurd (ground (arith, known, unknown)))

  pub point-Still : (id replace : ℕ) (m : Mem) → Still s (point_to_jni k id replace s m)
  unfolding point_to_jni
  point-Still id replace m = kept_then _ (bridges-Still m) λ bridge m0.
      kept_then _ (set_quick_code-Still s id _ m0) λ _ m1.
        kept_then _
          (fork (ltb s.api_level android_n && bridge.interpreter_to_compiled_code != null) _ _ s m1
            (λ _. set_interpreter_code-Still s id _ m1) (λ _. returns refl))
          (λ _ m2. set_jni_code-Still s id _ m2)

  move-Still : (id clone : ℕ) (m : Mem) → Still s (move_profile id clone s m)
  unfolding move_profile
  move-Still id clone m = kept_then _ (get_jni_code-Still s id m) λ info n.
      fork (info != null) _ _ s n (λ _. redirect-Still s info 4 id clone 0 n) (λ _. returns refl)

  pub finish-Still :
      (id clone flags : ℕ) (native : Bool) (m : Mem)
      → Still s (finish_clone k id clone flags native s m)
  unfolding finish_clone
  finish-Still id clone flags native m =
      kept_then _
        (fork (leb android_n s.api_level) _ _ s m
          (λ _.
            kept_then _ (set_hotness_count-Still s clone 0 m)
              λ _ n. fork native _ _ s n (λ _. returns refl) (λ _. move-Still id clone n))
          (λ _. returns refl))
        λ _ m1. kept_then _ (bridges-Still m1) λ list m2.
          kept_then _
            (fork (not native && list.quick_to_interpreter != null) _ _ s m2
              (λ _. set_quick_code-Still s clone _ m2) (λ _. returns refl))
            (λ _ m3. set_access_flags-Still s clone flags m3)

pub find_clones-Still :
    (k : Runtime) (s : Statics) (libart object_clone : ℕ) (list : ArtSymbolList) (m : Mem)
    → Still s (find_clones k libart object_clone list s m)
unfolding find_clones
find_clones-Still k s libart object_clone list m =
    fork (object_clone == null) _ _ s m
      (λ _. kept_then _ (lift-Still (k.dl_sym libart _) s m) λ with_class m1.
        kept_then _ (lift-Still (k.dl_sym libart _) s m1) (λ with_size m2. returns refl))
      (λ _. returns refl)

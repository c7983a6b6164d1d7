-- ===== src/Art/Hook/Copies.antt =====
-- Where `ArtMethod::Clone` of cpp/art/ArtMethod.cpp puts a clone, and the calls that it makes.
use art_hook.Base.{ℕ, zero, suc, ◌+◌, ◌^◌, ◌≤◌, ◌<◌, refl, ◌⊎◌, arith, ◌!=◌, ◌==◌, [], ltb}
use art_hook.Machine.{Mem, Res, null}
use art_hook.Machine.Laws.{Ensures, returns, bind, weaken, Keeps-load8}
use art_hook.Machine.Stores.{Spares, Spares-bind, Spares-store8, Spares-Keeps}
use art_hook.Art.State.{
  ArtMethodOffsets, Runtime, Statics, ArtBridgeList, JniCall, Act, lift, invoke, ◌>>=◌,
}
use art_hook.Art.Runs.{fork}
use art_hook.Art.Modifiers.{android_m}
use art_hook.Art.Members.{memcpy}
use art_hook.Art.Jni.{get_jni_env, find_jnienv, jni_exception_clear, get_current_thread}
use art_hook.Art.Symbols.{clone_object}
use art_hook.Art.Method.View.{Fields, Within}
use art_hook.Art.Clone.{copy_method, new_method}
use art_hook.Art.Hook.{Keys}
use art_hook.Art.Hook.Invariant.{
  Apart, IsPolite, Ready, Ready-Same, Stays, Ready-jnienv, lift-Stays, call-Stays, invoke-Stays,
  get_symbol-Stays,
}

Spares-memcpy :
    (S : ℕ → Type 0) (n dst src : ℕ) (m : Mem)
    → ((x : ℕ) → S x → (x < dst) ⊎ (dst + n ≤ x))
    → Spares S m (memcpy n dst src m)
unfolding memcpy
Spares-memcpy S zero dst src m out = returns (λ x s. refl)
Spares-memcpy S (suc n) dst src m out =
    Spares-bind S m _ _ (Spares-Keeps S m _ (Keeps-load8 src m)) λ b m1.
      Spares-bind S m1 _ _ (Spares-store8 S dst b m1 (λ x s. ground (arith, out x s)))
        (λ _ m2. Spares-memcpy S n (dst + 1) (src + 1) m2 (λ x s. ground (arith, out x s)))

module _ (api size id : ℕ) (o : ArtMethodOffsets) (bridge : ArtBridgeList) (keys : Keys)
    (f : Fields) (ends : id + size ≤ 2 ^ 64) (k : Runtime) (polite : IsPolite k id size) where
  abbrev Good : Statics → Mem → Type 0
  Good = Ready api size id o bridge keys f

  abbrev Holds : {A : Type 0} → Res (A × Statics) → Type 0
  Holds {A} r = Stays api size id o bridge keys f {A = A} r

  get_jni_env-Holds : (s : Statics) (m : Mem) → Good s m → Holds (get_jni_env k s m)
  unfolding get_jni_env find_jnienv
  get_jni_env-Holds s m r =
      bind
        (fork (s.get_jnienv_symbol == null) _ _ s m
          (λ _.
            bind
              (lift-Stays _ _ _ _ _ _ _ (k.dl_open "libandroid_runtime.so") s m
                (polite.dl_open_leaves _ m) r)
              λ p m1 r1.
                bind
                  (lift-Stays _ _ _ _ _ _ _ (k.dl_sym p.0 _) p.1 m1 (polite.dl_sym_leaves p.0 _ m1)
                    r1)
                  λ q m2 r2. returns (Ready-jnienv api size id o bridge keys f q.1 m2 q.0 r2))
          (λ _. returns r))
        λ p m1 r1.
          fork (p.1.get_jnienv_symbol != null) _ _ p.1 m1
            (λ _.
              weaken (call-Stays _ _ _ _ _ _ _ k polite p.1.get_jnienv_symbol [] p.1 m1 r1)
                (λ q n h. h.1) (λ _ u. u))
            (λ _. returns r1)

  -- A call of the JNI interface, and what follows it.
  jni-Holds :
      {B : Type 0} (env : ℕ) (c : JniCall) (next : ℕ → Act B) (s : Statics) (m : Mem)
      → Good s m
      → ((a : ℕ) (s' : Statics) (m' : Mem) → Good s' m' → Holds (next a s' m'))
      → Holds ((invoke k env c >>= next) s m)
  jni-Holds env c next s m r rest =
      bind (invoke-Stays _ _ _ _ _ _ _ k polite env c s m r) (λ p m' r'. rest p.0 p.1 m' r')

  jni_exception_clear-Holds :
      (env : ℕ) (s : Statics) (m : Mem) → Good s m → Holds (jni_exception_clear k env s m)
  unfolding jni_exception_clear
  jni_exception_clear-Holds env s m r =
      jni-Holds env JniCall.exception_check _ s m r λ raised s1 m1 r1.
        fork (raised != 0) _ _ s1 m1
          (λ _. jni-Holds env JniCall.exception_describe _ s1 m1 r1 λ _ s2 m2 r2.
            jni-Holds env JniCall.exception_clear _ s2 m2 r2 (λ _ s3 m3 r3. returns r3))
          (λ _. returns r1)

  get_current_thread-Holds : (s : Statics) (m : Mem) → Good s m → Holds (get_current_thread k s m)
  unfolding get_current_thread
  get_current_thread-Holds s m r = bind (get_jni_env-Holds s m r) λ env m1 r1.
      jni-Holds env.0 _ _ env.1 m1 r1 λ class s2 m2 r2.
        jni-Holds env.0 _ _ s2 m2 r2 λ method s3 m3 r3.
          jni-Holds env.0 _ _ s3 m3 r3 λ thread s4 m4 r4.
            jni-Holds env.0 _ _ s4 m4 r4 λ field s5 m5 r5.
              bind (jni_exception_clear-Holds env.0 s5 m5 r5) λ raised m6 r6.
                fork raised.0 _ _ raised.1 m6
                  (λ _. lift-Stays _ _ _ _ _ _ _ k.tls_self raised.1 m6 (polite.tls_leaves m6) r6)
                  (λ _. invoke-Stays _ _ _ _ _ _ _ k polite env.0 _ raised.1 m6 r6)

  -- What a new method is: an object apart from the one that is hooked.
  abbrev pub Gives : Res (ℕ × Statics) → Type 0
  Gives r = Ensures (λ p m'. Apart id size p.0 × Good p.1 m') (λ _. Unit {0}) r

  clone_object-Gives : (s : Statics) (m : Mem) → Good s m → Gives (clone_object k id s m)
  unfolding clone_object
  clone_object-Gives s m r = bind (get_symbol-Stays _ _ _ _ _ _ _ k polite s m r) λ list m1 r1.
      bind (get_current_thread-Holds list.1 m1 r1) λ thread m2 r2.
        fork (list.0.object_clone != null) _ _ thread.1 m2
          (λ _. call-Stays _ _ _ _ _ _ _ k polite _ _ thread.1 m2 r2)
          (λ _.
            fork (list.0.object_clone_with_class != null) _ _ thread.1 m2
              (λ _. call-Stays _ _ _ _ _ _ _ k polite _ _ thread.1 m2 r2)
              (λ _. call-Stays _ _ _ _ _ _ _ k polite _ _ thread.1 m2 r2))

  malloc-Gives : (n : ℕ) (s : Statics) (m : Mem) → Good s m → Gives (lift (k.malloc n) s m)
  malloc-Gives n s m r =
      bind (polite.malloc_hands n m) λ p m' h. returns (h.0, Ready-Same _ _ _ _ _ _ _ s m m' h.1 r)

  copy_method-Gives : (s : Statics) (m : Mem) → Good s m → Gives (copy_method k id s m)
  unfolding copy_method
  copy_method-Gives s m r = bind (get_symbol-Stays _ _ _ _ _ _ _ k polite s m r) λ list m1 r1.
      bind (malloc-Gives list.1.method_offset.method_size list.1 m1 r1) λ clone m2 h2.
        bind
          (fork (list.0.method_copy_from != null) _ _ clone.1 m2
            (λ _.
              bind (call-Stays _ _ _ _ _ _ _ k polite _ _ clone.1 m2 h2.1) λ p m3 h3. returns h3.1)
            (λ _.
              lift-Stays _ _ _ _ _ _ _ (memcpy list.1.method_offset.method_size clone.0 id) clone.1
                m2
                (weaken
                  (Spares-memcpy (Within id size) _ clone.0 id m2
                    (λ x w. ground (arith, h2.0, r1.size_known)))
                  (λ _ n h. h) (λ n h. tt))
                h2.1))
          (λ p m4 r4. returns (h2.0, r4))

  pub new_method-Gives : (s : Statics) (m : Mem) → Good s m → Gives (new_method k id s m)
  unfolding new_method
  new_method-Gives s m r = bind (get_symbol-Stays _ _ _ _ _ _ _ k polite s m r) λ list m1 r1.
      fork (ltb list.1.api_level android_m) _ _ list.1 m1 (λ _. clone_object-Gives list.1 m1 r1)
        (λ _. copy_method-Gives list.1 m1 r1)

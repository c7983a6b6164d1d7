-- ===== src/Art/Hook/Invoke/Total.antt =====
-- `ArtMethod::InvokeOriginal` of cpp/art/ArtMethod.cpp returns, from 6.0 on.
use art_hook.Base.{ℕ, ◌+◌, ◌^◌, ◌≤◌, ◌≡◌, ◌≢◌, refl, sym, false, some, ltb, ◌==◌, ◌∷◌, arith}
use art_hook.Machine.{Mem, Res, and_then}
use art_hook.Machine.Total.{
  Total, Opens, Usable, Usable-Opens, Lives, total, meet, follow, loosen, split, through, found,
}
use art_hook.Art.State.{
  ArtMethodOffsets, ArtBridgeList, ArtMethodKey, Event, JniCall, Runtime, Statics, Act, invoke,
}
use art_hook.Art.Live.{has_access_flags-Calm}
use art_hook.Art.Modifiers.{android_m, acc_static}
use art_hook.Art.Method.View.{Fields, IsLaidOut}
use art_hook.Art.Hook.{Keys, find_key, get_method_key, invoke_backup, invoke_original}
use art_hook.Art.Hook.Invariant.{IsPolite, Ready}
use art_hook.Art.Hook.Cloning.{Clear}
use art_hook.Art.Hook.Cloned.{ProfileOpen}
use art_hook.Art.Hook.Live.{IsLive}
use art_hook.Art.Hook.Roots.{deal_gc_root-Ensures}
use art_hook.Art.Hook.Roots.Total.{deal_gc_root-Lives}
use art_hook.Art.Hook.Invoke.{Calls, invoke_original-Ensures}

-- The JNI interface returns, and leaves open what was open.
pub record JniLives (k : Runtime) (env : ℕ) : Type 0 where
  pub given : env ≢ 0
  pub jni_lives : (c : JniCall) (m : Mem) → Lives m (k.jni_call env c m)

module _ (k : Runtime) (env : ℕ) (jni : JniLives k env) where
  invoke-Lives :
      (c : JniCall) (s : Statics) (m : Mem)
      → Total
          (λ p n. (p.1 ≡ record s { events = Event.jni c ∷ s.events }) × Opens m n)
          (invoke k env c s m)
  unfolding invoke
  invoke-Lives c s m =
      split (env == 0) Res.segv _ m (λ null_env. absurd (jni.given (ground (arith, null_env))))
        (λ _. follow (jni.jni_lives c m) (λ r n o. total (refl, o)))

  invoke_then :
      {A : Type 0} (c : JniCall) (next : ℕ → Act A) (s : Statics) (m : Mem)
      → ((a : ℕ) (n : Mem)
          → Opens m n
          → Lives n (next a (record s { events = Event.jni c ∷ s.events }) n))
      → Lives m (and_then (invoke k env c s m) (λ p. next p.0 p.1))
  invoke_then c next s m rest =
      follow (invoke-Lives c s m) λ p n h. rw h.0 (loosen (rest p.0 n h.1) (λ b l o. through h.1 o))

  invoke_backup-Lives :
      (api size id clone thiz params : ℕ) (s : Statics) (m : Mem)
      → id + size ≤ 2 ^ 64
      → IsLaidOut api size s.method_offset
      → Usable m size id
      → Lives m (invoke_backup k env id clone thiz params s m)
  unfolding invoke_backup
  invoke_backup-Lives api size id clone thiz params s m ends laid u =
      invoke_then _ _ s m λ class m1 o1. invoke_then _ _ _ m1 λ method m2 o2.
        invoke_then _ _ _ m2 λ object m3 o3.
          let u3 = Usable-Opens (through o1 (through o2 o3)) u in
          follow (has_access_flags-Calm api size id _ m3 laid ends u3 acc_static) λ is_static m4 h4.
            rw h4.0 (
              loosen
                (invoke_then _ _ _ m4 λ java m5 o5. loosen (invoke-Lives _ _ m5) (λ p n h. h.1))
                (λ p n o. through h4.1 o))

module _ (api size id : ℕ) (o : ArtMethodOffsets) (bridge : ArtBridgeList) (f : Fields)
    (ends : id + size ≤ 2 ^ 64) (k : Runtime) (polite : IsPolite k id size) (live : IsLive k size)
    (whole : o.method_size ≡ size) (modern : ltb api android_m ≡ false)
    (clear : Clear id size f.jni_code) (env : ℕ) (jni : JniLives k env) where
  invoke_original-Lives :
      (keys : Keys) (old : ArtMethodKey) (thiz params : ℕ) (s : Statics) (m : Mem)
      → find_key id keys ≡ some old
      → ProfileOpen m f.jni_code
      → Ready api size id o bridge keys f s m
      → Usable m size id
      → Lives m (invoke_original k id env thiz params s m)
  unfolding invoke_original get_method_key
  invoke_original-Lives keys old thiz params s m e profile r u =
      follow
        (meet (deal_gc_root-Ensures api size id o bridge f ends k polite keys old s m clear e r) (
          deal_gc_root-Lives api size id o bridge f ends k polite live whole modern clear keys old s
            m e profile r u))
        λ p m1 ((key, follows, there, offsets, shown), o1). rw there (
          loosen
            (invoke_backup-Lives k env jni api size id key.original_method thiz params p.1 m1 ends
              (rw (sym offsets) at (rw r.offsets_known at r.laid)) (Usable-Opens o1 u))
            (λ q n c. through o1 c))

  -- From 6.0 on a call of the original returns, and has at last looked up `Method.invoke` and called
  -- it on the object that JNI has made of the clone in the key of the method, a static one if the
  -- method is static, with the object and the arguments that were given, and returns the answer; and the key has the class that the method has now, moved or not, with the flags and entry
  -- points that it had. It is supposed that the method has a key and that there is a JNI environment;
  -- that the bytes of the method, and of its profiling info if it has one, are mapped and can be read
  -- and written; that what the code calls returns, leaves such bytes so, does not write into the
  -- method, and that `malloc` has as many bytes again, apart from it; that the members are laid out
  -- within the method, and the profiling info apart from it; and that the bridges have been looked
  -- up.
  pub invoke_original-returns :
      (keys : Keys) (old : ArtMethodKey) (thiz params : ℕ) (s : Statics) (m : Mem)
      → find_key id keys ≡ some old
      → ProfileOpen m f.jni_code
      → Ready api size id o bridge keys f s m
      → Usable m size id
      → (r : ℕ) × (s' : Statics) × (m' : Mem) × (invoke_original k id env thiz params s m
          ≡ Res.done (r, s') m')
        × Calls api size id o bridge f ends k polite env old thiz params r s'
  invoke_original-returns keys old thiz params s m e profile r u =
      let (p, m', run, h) = found (
        meet
          (invoke_original-Ensures api size id o bridge f ends k polite env keys old thiz params s m
            clear e r)
          (invoke_original-Lives keys old thiz params s m e profile r u)) in
      (p.0, p.1, m', run, h.0)

-- ===== src/Art/Hook/Invoke.antt =====
-- `ArtMethod::InvokeOriginal` of cpp/art/ArtMethod.cpp: which clone it calls.
pub mod Total
use art_hook.Base.{ℕ, ◌+◌, ◌^◌, ◌≤◌, ◌≡◌, refl, ap, sym, ◌∙◌, Bool, ◌==◌, some, List, ◌∷◌}
use art_hook.Machine.{Mem, Res, and_then}
use art_hook.Machine.Laws.{Ensures, returns, faults, bind, branch, seen, both, weaken, at_return}
use art_hook.Art.State.{
  ArtBridgeList, ArtMethodOffsets, ArtMethodKey, Event, JniCall, Runtime, Statics, Act, invoke,
}
use art_hook.Art.Modifiers.{acc_static}
use art_hook.Machine.Stores.{Same}
use art_hook.Art.Method.{has_access_flags}
use art_hook.Art.Method.View.{Fields, IsLaidOut, Shows, Shows-Same, Within}
use art_hook.Art.Method.Updates.{get_access_flags-Shows}
use art_hook.Art.Still.{kept_then, has_access_flags-Still}
use art_hook.Art.Hook.{Keys, find_key, get_method_key, invoke_backup, invoke_original}
use art_hook.Art.Hook.Invariant.{IsPolite, Ready}
use art_hook.Art.Hook.Cloning.{Clear, is_set}
use art_hook.Art.Hook.Roots.{Follows, deal_gc_root-Ensures}

-- The calls by which the method at `clone` is invoked, the last one first: it is made a
-- java.lang.reflect.Method, and `invoke` of that is called.
abbrev pub invocation :
    (clone thiz params : ℕ) → (class method object java : ℕ) → Bool → List Event → List Event
invocation clone thiz params class method object java is_static es =
    Event.jni (JniCall.call_nonvirtual_object_method java class method thiz params)
    ∷ Event.jni (JniCall.to_reflected_method object clone is_static)
    ∷ Event.jni (JniCall.find_class "java/lang/Object")
    ∷ Event.jni (
        JniCall.get_method_id class "invoke"
          "(Ljava/lang/Object;[Ljava/lang/Object;)Ljava/lang/Object;")
    ∷ Event.jni (JniCall.find_class "java/lang/reflect/Method")
    ∷ es

-- `r` is an answer of the JNI interface to the call.
pub record Answered (k : Runtime) (env : ℕ) (c : JniCall) (r : ℕ) : Type 0 where
  pub asked : Mem
  pub left : Mem
  pub reply : k.jni_call env c asked ≡ Res.done r left

-- What a call of the method at `clone` does: each argument of a JNI call is what an earlier one has
-- answered, the class of `Method.invoke` and the object that stands for the clone among them, and
-- `r` is what `Method.invoke` has answered. Of the static variables only the events change.
pub record Invokes (k : Runtime) (env clone thiz params : ℕ) (is_static : Bool) (r : ℕ)
    (s s' : Statics) : Type 0 where
  pub class : ℕ
  pub method : ℕ
  pub object : ℕ
  pub java : ℕ
  pub class_found : Answered k env (JniCall.find_class "java/lang/reflect/Method") class
  pub method_found :
      Answered k env
        (JniCall.get_method_id class "invoke"
          "(Ljava/lang/Object;[Ljava/lang/Object;)Ljava/lang/Object;")
        method
  pub object_found : Answered k env (JniCall.find_class "java/lang/Object") object
  pub clone_reflected : Answered k env (JniCall.to_reflected_method object clone is_static) java
  pub invoked :
      Answered k env (JniCall.call_nonvirtual_object_method java class method thiz params) r
  pub same_but_events : s' ≡ record s {
    events = invocation clone thiz params class method object java is_static s.events;
  }

module _ (api size id : ℕ) (f : Fields) (ends : id + size ≤ 2 ^ 64) (k : Runtime)
    (polite : IsPolite k id size) (env : ℕ) where
  -- A call of the JNI interface adds its event, changes no other static variable and leaves the
  -- method alone.
  invoke-Logs :
      (c : JniCall) (s : Statics) (m : Mem)
      → Ensures
          (λ p n.
            (p.1 ≡ record s { events = Event.jni c ∷ s.events })
            × Answered k env c p.0
            × Same (Within id size) m n)
          (λ n. Unit {0})
          (invoke k env c s m)
  unfolding invoke
  invoke-Logs c s m =
      branch (env == 0) Res.segv
        (λ m.
          and_then (k.jni_call env c m)
            (λ r. Res.done (r, record s { events = Event.jni c ∷ s.events })))
        m (λ _. faults tt)
        (λ _.
          bind
            (weaken (both (seen (k.jni_call env c m)) (polite.jni_leaves env c m)) (λ r n h. h)
              (λ n _. tt))
            (λ r n h. returns (refl, record { asked = m; left = n; reply = h.0 }, h.1)))

  -- The members are laid out within the method, and are `f`.
  abbrev Laid : Statics → Mem → Type 0
  Laid s m = IsLaidOut api size s.method_offset × Shows api s.method_offset id f m

  log_then :
      {A : Type 0} {Q : A × Statics → Mem → Type 0} (c : JniCall) (next : ℕ → Act A) (s : Statics)
      (m : Mem)
      → Laid s m
      → ((a : ℕ) (n : Mem)
          → Answered k env c a
          → Laid s n
          → Ensures Q (λ n. Unit {0}) (next a (record s { events = Event.jni c ∷ s.events }) n))
      → Ensures Q (λ n. Unit {0}) (and_then (invoke k env c s m) (λ p. next p.0 p.1))
  log_then c next s m laid rest = bind (invoke-Logs c s m) (λ p n h.
      rw h.0
        (rest p.0 n h.1 (laid.0, Shows-Same api size id s.method_offset f m n laid.0 h.2 laid.1)))

  static-Reads :
      (s : Statics) (m : Mem)
      → Laid s m
      → Ensures
          (λ p n. (p.0 ≡ is_set acc_static f.flags) × (p.1 ≡ s) × (n ≡ m))
          (λ n. Unit {0})
          (has_access_flags id acc_static s m)
  unfolding has_access_flags
  static-Reads s m laid =
      bind (get_access_flags-Shows api size id ends f s m laid.0 laid.1)
        (λ p n h. returns (ap (is_set acc_static) h.0, h.1, h.2))

  static_then :
      {A : Type 0} {Q : A × Statics → Mem → Type 0} (next : Bool → Act A) (s : Statics) (m : Mem)
      → Laid s m
      → Ensures Q (λ n. Unit {0}) (next (is_set acc_static f.flags) s m)
      → Ensures Q
          (λ n. Unit {0})
          (and_then (has_access_flags id acc_static s m) (λ p. next p.0 p.1))
  static_then next s m laid rest = bind (static-Reads s m laid) (λ p n h. rw (h.0, h.1, h.2) rest)

  invoke_backup-Invokes :
      (clone thiz params : ℕ) (s : Statics) (m : Mem)
      → Laid s m
      → Ensures
          (λ p n. Invokes k env clone thiz params (is_set acc_static f.flags) p.0 s p.1)
          (λ n. Unit {0})
          (invoke_backup k env id clone thiz params s m)
  unfolding invoke_backup
  invoke_backup-Invokes clone thiz params s m laid =
      log_then _ _ s m laid λ class m1 class_found l1.
        log_then _ _ _ m1 l1 λ method m2 method_found l2.
          log_then _ _ _ m2 l2 λ object m3 object_found l3. static_then _ _ m3 l3 (
            log_then _ _ _ m3 l3 λ java m5 clone_reflected l5.
              weaken (invoke-Logs _ _ m5)
                (λ p n h. record {
                  class = class;
                  method = method;
                  object = object;
                  java = java;
                  class_found = class_found;
                  method_found = method_found;
                  object_found = object_found;
                  clone_reflected = clone_reflected;
                  invoked = h.1;
                  same_but_events = h.0;
                })
                (λ n u. u))

module _ (api size id : ℕ) (o : ArtMethodOffsets) (bridge : ArtBridgeList) (f : Fields)
    (ends : id + size ≤ 2 ^ 64) (k : Runtime) (polite : IsPolite k id size) (env : ℕ) where
  -- After some changes, the clone that the key of the method has by then is called, as a static
  -- method if the method is one.
  abbrev pub Calls : (old : ArtMethodKey) (thiz params r : ℕ) → Statics → Type 0
  Calls old thiz params r s =
      (key : ArtMethodKey) × Follows api size id o bridge f ends k polite old key
      × (find_key id s.hooked_method_map ≡ some key)
      × (before : Statics) × Invokes k env key.original_method thiz params
          (is_set acc_static f.flags) r before s

  pub invoke_original-Ensures :
      (keys : Keys) (old : ArtMethodKey) (thiz params : ℕ) (s : Statics) (m : Mem)
      → Clear id size f.jni_code
      → find_key id keys ≡ some old
      → Ready api size id o bridge keys f s m
      → Ensures
          (λ p n. Calls old thiz params p.0 p.1)
          (λ n. Unit {0})
          (invoke_original k id env thiz params s m)
  unfolding invoke_original get_method_key
  invoke_original-Ensures keys old thiz params s m clear e r =
      bind (deal_gc_root-Ensures api size id o bridge f ends k polite keys old s m clear e r)
        λ p m1 (key, follows, found, offsets, shown). rw found (
          weaken
            (invoke_backup-Invokes api size id f ends k polite env key.original_method thiz params
              p.1 m1
              (rw (sym offsets) at (rw r.offsets_known at r.laid), rw (sym offsets) at shown))
            (λ q n h. (
              key,
              follows,
              ap (λ x. find_key id x.hooked_method_map) h.same_but_events ∙ found,
              p.1,
              h,
            ))
            (λ n u. u))

  -- A call of the original that returns has, at last, looked up `Method.invoke` and called it on the
  -- object that JNI has made of the clone in the key of the method, with the object and the
  -- arguments that were given, and returns the answer; and the key has the class that the method has
  -- now, moved or not, with the flags and entry points that it had. It is supposed that the method
  -- has a key, that the members are laid out within the method, that the bridges have been looked
  -- up, that the profiling info is apart from the method, and that what the code calls does not
  -- write into the method.
  invoke_original-Calls :
      (keys : Keys) (old : ArtMethodKey) (thiz params r : ℕ) (s s' : Statics) (m m' : Mem)
      → Clear id size f.jni_code
      → find_key id keys ≡ some old
      → Ready api size id o bridge keys f s m
      → invoke_original k id env thiz params s m ≡ Res.done (r, s') m'
      → Calls old thiz params r s'
  invoke_original-Calls keys old thiz params r s s' m m' clear e ready run =
      at_return (rw run at (invoke_original-Ensures keys old thiz params s m clear e ready))

-- ===== src/Art/Hook/Roots.antt =====
-- `ArtMethod::DealGCRoot`: the key of a hooked method follows its class.
pub mod Total
pub mod Flags
use art_hook.Base.{ℕ, ◌+◌, ◌^◌, ◌≤◌, ◌≡◌, refl, ap, ◌∙◌, ◌==◌, arith, some}
use art_hook.Machine.{Mem, Res}
use art_hook.Machine.Laws.{Ensures, returns, bind, weaken, at_return}
use art_hook.Art.State.{Runtime, Statics, ArtMethodKey, ArtBridgeList, ArtMethodOffsets}
use art_hook.Art.Runs.{fork}
use art_hook.Art.Method.{get_declaring_class, set_jni_code, set_dex_code_item_offset}
use art_hook.Art.Method.View.{Fields, Shows, declared}
use art_hook.Art.Method.Updates.{get_declaring_class-Shows}
use art_hook.Art.Hook.{Keys, find_key, set_key, get_method_key, clone_again, deal_gc_root}
use art_hook.Art.Hook.Keys.{find_key-set_key}
use art_hook.Art.Hook.Invariant.{IsPolite, Ready}
use art_hook.Art.Hook.Accesses.{Ready-keys, assign-Stays}
use art_hook.Art.Hook.Cloning.{Clear, interpret_clone, clone_method-Flagged}

module _ (api size id : ℕ) (o : ArtMethodOffsets) (bridge : ArtBridgeList) (f : Fields)
    (ends : id + size ≤ 2 ^ 64) (k : Runtime) (polite : IsPolite k id size) where
  abbrev Good : Keys → Statics → Mem → Type 0
  Good keys = Ready api size id o bridge keys f

  pub class-Reads :
      (keys : Keys) (s : Statics) (m : Mem)
      → Good keys s m
      → Ensures
          (λ p m'. (p.0 ≡ declared o f) × Good keys p.1 m')
          (λ _. Unit {0})
          (get_declaring_class id s m)
  class-Reads keys s m r =
      weaken (get_declaring_class-Shows api size id ends f s m r.laid r.shown)
        (λ p m' h. (h.0 ∙ ap (λ x. declared x f) r.offsets_known, rw (h.1, h.2) r)) (λ _ u. u)

  -- The key has the present class, and the entries that it had.
  pub record Follows (old key : ArtMethodKey) : Type 0 where
    pub class_now : key.decl_class ≡ declared o f
    pub flags_same : key.access_flags ≡ old.access_flags
    pub dex_same : key.dex_code_item_offset ≡ old.dex_code_item_offset
    pub quick_same : key.quick_code ≡ old.quick_code
    pub interpreter_same : key.interpreter_code ≡ old.interpreter_code
    pub jni_same : key.jni_code ≡ old.jni_code

  abbrev pub Followed : ArtMethodKey → Statics → Mem → Type 0
  Followed old s m =
      (key : ArtMethodKey) × Follows old key
      × (find_key id s.hooked_method_map ≡ some key)
      × (s.method_offset ≡ o)
      × Shows api o id f m

  clone_again-Followed :
      (keys : Keys) (old : ArtMethodKey) (s : Statics) (m : Mem)
      → Clear id size f.jni_code
      → find_key id keys ≡ some old
      → Good keys s m
      → Ensures (λ p m'. Followed old p.1 m') (λ _. Unit {0}) (clone_again k id old s m)
  unfolding clone_again set_jni_code set_dex_code_item_offset
  clone_again-Followed keys old s m clear e r =
      bind (clone_method-Flagged _ _ _ _ _ keys f ends k polite s m clear r) λ clone m1 h1.
        let key1 : ArtMethodKey = record old { original_method = clone.0 } in
        let keys1 = set_key id key1 keys in
        let r1 =
          Ready-keys _ _ _ _ _ keys f keys1 (set_key id key1 clone.1.hooked_method_map) clone.1 m1
            (ap (set_key id key1) h1.2.keys_known) h1.2 in
        bind (interpret_clone _ _ _ _ _ keys1 f ends k polite clone.0 old.quick_code _ m1 h1.0 r1)
          λ p2 m2 r2.
            bind
              (assign-Stays _ _ _ _ _ keys1 f 8 clone.0 _ old.jni_code p2.1 m2
                (omega (arith, h1.0.0)) (ground (arith, h1.0.1)) r2)
              λ p3 m3 r3.
                bind
                  (assign-Stays _ _ _ _ _ keys1 f 4 clone.0 _ old.dex_code_item_offset p3.1 m3
                    (omega (arith, h1.0.0)) (ground (arith, h1.0.1)) r3)
                  λ p4 m4 r4. bind (class-Reads keys1 p4.1 m4 r4) λ p5 m5 h5.
                    let known = h5.1.keys_known in
                    returns (
                      _,
                      record {
                        class_now = h5.0;
                        flags_same = refl;
                        dex_same = refl;
                        quick_same = refl;
                        interpreter_same = refl;
                        jni_same = refl;
                      },
                      find_key-set_key id _ p5.1.hooked_method_map
                          (ap (find_key id) known ∙ find_key-set_key id key1 keys e),
                      h5.1.offsets_known,
                      rw h5.1.offsets_known at h5.1.shown,
                    )

  pub deal_gc_root-Ensures :
      (keys : Keys) (old : ArtMethodKey) (s : Statics) (m : Mem)
      → Clear id size f.jni_code
      → find_key id keys ≡ some old
      → Good keys s m
      → Ensures (λ p m'. Followed old p.1 m') (λ _. Unit {0}) (deal_gc_root k id s m)
  unfolding deal_gc_root get_method_key
  deal_gc_root-Ensures keys old s m clear e r =
      let known : find_key id s.hooked_method_map ≡ some old = ap (find_key id) r.keys_known ∙ e in
      rw known (
        bind (class-Reads keys s m r) λ p m1 h.
          fork (old.decl_class == p.0) _ _ p.1 m1
            (λ same. returns (
              old,
              record {
                class_now = ground (arith, h.0);
                flags_same = refl;
                dex_same = refl;
                quick_same = refl;
                interpreter_same = refl;
                jni_same = refl;
              },
              ap (find_key id) h.1.keys_known ∙ e,
              h.1.offsets_known,
              rw h.1.offsets_known at h.1.shown,
            ))
            (λ moved. clone_again-Followed keys old p.1 m1 clear e h.1))

  -- Once the key of a hooked method has been dealt with, it is there still, its class is the one that
  -- the method has now, moved or not, and its flags and entry points are those that it had; the
  -- members of the method are as they were. It is supposed that the method has a key, that the
  -- members are laid out within the method, that the bridges have been looked up, that the profiling
  -- info is apart from the method, and that what the code calls does not write into the method.
  pub deal_gc_root-Followed :
      (keys : Keys) (old : ArtMethodKey) (s s' : Statics) (m m' : Mem)
      → Clear id size f.jni_code
      → find_key id keys ≡ some old
      → Good keys s m
      → deal_gc_root k id s m ≡ Res.done (tt, s') m'
      → Followed old s' m'
  deal_gc_root-Followed keys old s s' m m' clear e r run =
      at_return (rw run at (deal_gc_root-Ensures keys old s m clear e r))

-- ===== src/Art/Hook/Roots/Flags.antt =====
-- `ArtMethod::DealGCRoot` of cpp/art/ArtMethod.cpp: the flags of the new clone.
use art_hook.Base.{ℕ, ◌+◌, ◌^◌, ◌≤◌, ◌<◌, ◌≡◌, ◌≢◌, ap, ◌∙◌, some, ◌==◌, arith}
use art_hook.Base.Digits.{digit}
use art_hook.Machine.{Mem, Res, u64}
use art_hook.Machine.Laws.{Ensures, returns, bind, both, weaken, at_return}
use art_hook.Machine.Stores.{peek, Spares-store_le, peek-Same}
use art_hook.Art.State.{Runtime, Statics, ArtMethodKey, ArtBridgeList, ArtMethodOffsets}
use art_hook.Art.Runs.{fork}
use art_hook.Art.Modifiers.{acc_native, acc_direct_flags}
use art_hook.Art.Members.{assign_offset}
use art_hook.Art.Clone.Flags.{cloned_digit, clone_flags-digit}
use art_hook.Art.Method.{set_quick_code, set_jni_code, set_dex_code_item_offset}
use art_hook.Art.Method.View.{Fields, declared}
use art_hook.Art.Method.Updates.{get_declaring_class-Shows}
use art_hook.Art.Hook.{Keys, find_key, set_key, get_method_key, clone_again, deal_gc_root}
use art_hook.Art.Hook.Keys.{find_key-set_key}
use art_hook.Art.Hook.Invariant.{Apart, IsPolite, Ready}
use art_hook.Art.Hook.Accesses.{Ready-keys, assign-Stays}
use art_hook.Art.Hook.Roots.{class-Reads}
use art_hook.Art.Hook.Cloning.{Clear, is_set, own_flags, clone_method-Flagged}

module _ (api size id : ℕ) (o : ArtMethodOffsets) (bridge : ArtBridgeList) (f : Fields)
    (ends : id + size ≤ 2 ^ 64) (k : Runtime) (polite : IsPolite k id size) where
  abbrev Good : Keys → Statics → Mem → Type 0
  Good keys = Ready api size id o bridge keys f

  -- The flags of the clone are `v`, and the method is as it was.
  abbrev Keeps : (clone v : ℕ) → Keys → Statics → Mem → Type 0
  Keeps clone v keys s m =
      (peek 4 (clone + s.method_offset.access_flags_offset) m ≡ some v) × Good keys s m

  -- A member behind the flags of the clone is written.
  assign-Keeps :
      (keys : Keys) (clone v n off x : ℕ) (s : Statics) (m : Mem)
      → Apart id size clone
      → s.method_offset.access_flags_offset + 4 ≤ off
      → off + n ≤ size
      → 0 < n
      → Keeps clone v keys s m
      → Ensures
          (λ p m'. Keeps clone v keys p.1 m')
          (λ _. Unit {0})
          (assign_offset n clone off x s m)
  unfolding assign_offset
  assign-Keeps keys clone v n off x s m apart behind inside some_bytes h =
      let at = clone + s.method_offset.access_flags_offset in
      let place : u64 (clone + off) ≡ clone + off = omega (arith, apart.0) in
      weaken
        (both {P = λ p l. peek 4 (clone + p.1.method_offset.access_flags_offset) l ≡ some v}
          {F = λ l. Unit {0}}
          (rw place (
            bind
              (weaken
                (Spares-store_le (λ y. (at ≤ y) × (y < at + 4)) n (clone + off) x m
                  (λ y w. ground (arith, w.1, behind)))
                (λ _ l same. same) (λ l _. tt))
              (λ _ l same. returns (peek-Same 4 at m l same ∙ h.0))))
          (assign-Stays _ _ _ _ _ keys f n clone off x s m (omega (arith, apart.0))
            (ground (arith, apart.1)) h.1))
        (λ p l q. q) (λ l _. tt)

  -- What is found of the clone that the key has now.
  abbrev pub Recloned : Statics → Mem → Type 0
  Recloned s m =
      (key : ArtMethodKey) × (find_key id s.hooked_method_map ≡ some key)
      × (peek 4 (key.original_method + s.method_offset.access_flags_offset) m
          ≡ some (own_flags api f.flags))

  clone_again-Recloned :
      (keys : Keys) (old : ArtMethodKey) (s : Statics) (m : Mem)
      → Clear id size f.jni_code
      → find_key id keys ≡ some old
      → Good keys s m
      → Ensures (λ p m'. Recloned p.1 m') (λ _. Unit {0}) (clone_again k id old s m)
  unfolding clone_again set_quick_code set_jni_code set_dex_code_item_offset
  clone_again-Recloned keys old s m clear e r =
      bind (clone_method-Flagged _ _ _ _ _ keys f ends k polite s m clear r) λ clone m1 h1.
        let key1 : ArtMethodKey = record old { original_method = clone.0 } in
        let keys1 = set_key id key1 keys in
        let r1 =
          Ready-keys _ _ _ _ _ keys f keys1 (set_key id key1 clone.1.hooked_method_map) clone.1 m1
            (ap (set_key id key1) h1.2.keys_known) h1.2 in
        bind
          (assign-Keeps keys1 clone.0 _ 8 clone.1.method_offset.quick_code_offset old.quick_code _
            m1 h1.0 (omega arith) (omega arith) (omega arith) (h1.1, r1))
          λ p2 m2 h2.
            bind
              (assign-Keeps keys1 clone.0 _ 8 p2.1.method_offset.jni_code_offset old.jni_code p2.1
                m2 h1.0 (omega arith) (omega arith) (omega arith) h2)
              λ p3 m3 h3.
                bind
                  (assign-Keeps keys1 clone.0 _ 4 p3.1.method_offset.dex_code_item_offset_offset
                    old.dex_code_item_offset p3.1 m3 h1.0 (omega arith) (omega arith) (omega arith)
                    h3)
                  λ p4 m4 h4.
                    bind (get_declaring_class-Shows api size id ends f p4.1 m4 h4.1.laid h4.1.shown)
                      λ p5 m5 h5.
                        let now : Keeps clone.0 (own_flags api f.flags) keys1 p5.1 m5 =
                          rw (h5.1, h5.2) h4 in
                        returns (
                          _,
                          find_key-set_key id _ p5.1.hooked_method_map
                              (ap (find_key id) now.1.keys_known ∙ find_key-set_key id key1 keys e),
                          now.0,
                        )

  deal_gc_root-Recloned :
      (keys : Keys) (old : ArtMethodKey) (s : Statics) (m : Mem)
      → Clear id size f.jni_code
      → find_key id keys ≡ some old
      → Good keys s m
      → old.decl_class ≢ declared o f
      → Ensures (λ p m'. Recloned p.1 m') (λ _. Unit {0}) (deal_gc_root k id s m)
  unfolding deal_gc_root get_method_key
  deal_gc_root-Recloned keys old s m clear e r moved =
      let known : find_key id s.hooked_method_map ≡ some old = ap (find_key id) r.keys_known ∙ e in
      rw known (
        bind (class-Reads api size id o bridge f ends k polite keys s m r) λ p m1 h.
          fork (old.decl_class == p.0) _ _ p.1 m1
            (λ same. absurd (moved (ground (arith, same, h.0))))
            (λ _. clone_again-Recloned keys old p.1 m1 clear e h.1))

  -- Where the class has moved, the key of a hooked method that has been dealt with has a clone whose
  -- flags are, digit by digit, what a clone gets of the flags that the method has now, whatever
  -- flags the key has recorded: a method that the hook has made native has a native clone. It is
  -- supposed that the method has a key, that the members are laid out within the method, that the
  -- bridges have been looked up, that the profiling info is apart from the method, and that what the
  -- code calls does not write into the method.
  pub deal_gc_root-flags :
      (keys : Keys) (old : ArtMethodKey) (s s' : Statics) (m m' : Mem) (i : ℕ)
      → Clear id size f.jni_code
      → find_key id keys ≡ some old
      → Good keys s m
      → old.decl_class ≢ declared o f
      → i < 32
      → deal_gc_root k id s m ≡ Res.done (tt, s') m'
      → (key : ArtMethodKey) × (find_key id s'.hooked_method_map ≡ some key)
        × (v : ℕ) × (peek 4 (key.original_method + s'.method_offset.access_flags_offset) m'
            ≡ some v)
        × (digit i v
            ≡ cloned_digit api
                (is_set acc_native f.flags)
                (is_set acc_direct_flags f.flags)
                i
                (digit i f.flags))
  deal_gc_root-flags keys old s s' m m' i clear e r moved inside run =
      let (key, there, flags) =
        at_return (rw run at (deal_gc_root-Recloned keys old s m clear e r moved)) in
      (key, there, own_flags api f.flags, flags, clone_flags-digit api f.flags i _ _ inside)

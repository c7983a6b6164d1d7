-- ===== src/Art/Hook/Roots/Total.antt =====
-- `ArtMethod::DealGCRoot` of cpp/art/ArtMethod.cpp returns, from 6.0 on.
use art_hook.Base.{ℕ, ◌+◌, ◌^◌, ◌≤◌, ◌≡◌, ap, ◌∙◌, false, some, ltb, ◌==◌, arith}
use art_hook.Machine.{Mem, Res}
use art_hook.Machine.Total.{
  Usable, Usable-Opens, Lives, lives, meet, follow, loosen, along, after, through, found,
}
use art_hook.Art.State.{ArtMethodOffsets, ArtBridgeList, ArtMethodKey, Runtime, Statics}
use art_hook.Art.Live.{
  Lives-Calm, choose, get_declaring_class-Calm, set_quick_code-Calm, set_jni_code-Calm,
  set_dex_code_item_offset-Calm,
}
use art_hook.Art.Modifiers.{android_m}
use art_hook.Art.Method.View.{Fields}
use art_hook.Art.Hook.{Keys, find_key, set_key, get_method_key, clone_again, deal_gc_root}
use art_hook.Art.Hook.Invariant.{IsPolite, Ready}
use art_hook.Art.Hook.Accesses.{Ready-keys, assign-Stays}
use art_hook.Art.Hook.Cloning.{Clear, interpret_clone, clone_method-Flagged}
use art_hook.Art.Hook.Cloned.{ProfileOpen, ProfileOpen-Opens, clone-Given}
use art_hook.Art.Hook.Live.{IsLive}
use art_hook.Art.Hook.Roots.{class-Reads, Followed, deal_gc_root-Ensures}

module _ (api size id : ℕ) (o : ArtMethodOffsets) (bridge : ArtBridgeList) (f : Fields)
    (ends : id + size ≤ 2 ^ 64) (k : Runtime) (polite : IsPolite k id size) (live : IsLive k size)
    (whole : o.method_size ≡ size) (modern : ltb api android_m ≡ false)
    (clear : Clear id size f.jni_code) where
  abbrev Good : Keys → Statics → Mem → Type 0
  Good keys = Ready api size id o bridge keys f

  clone_again-Lives :
      (keys : Keys) (old : ArtMethodKey) (s : Statics) (m : Mem)
      → ProfileOpen m f.jni_code
      → Good keys s m
      → Usable m size id
      → Lives m (clone_again k id old s m)
  unfolding clone_again
  clone_again-Lives keys old s m profile r u =
      follow
        (meet (clone_method-Flagged _ _ _ _ _ keys f ends k polite s m clear r)
          (clone-Given _ _ _ _ _ keys f ends k polite live whole modern s m clear.0 profile r u))
        λ clone m1 h1.
          let key1 : ArtMethodKey = record old { original_method = clone.0 } in
          let keys1 = set_key id key1 keys in
          let r1 =
            Ready-keys _ _ _ _ _ keys f keys1 (set_key id key1 clone.1.hooked_method_map) clone.1 m1
              (ap (set_key id key1) h1.0.2.keys_known) h1.0.2 in
          let apart = h1.0.0 in
          let uc = h1.1.1 in
          loosen
            (along
              (interpret_clone _ _ _ _ _ keys1 f ends k polite clone.0 old.quick_code _ m1 apart r1)
              (Lives-Calm (set_quick_code-Calm api size clone.0 _ m1 r1.laid apart.0 uc _))
              λ p2 m2 r2 o2.
                let u2 = Usable-Opens o2 uc in
                along
                  (assign-Stays _ _ _ _ _ keys1 f 8 clone.0 _ old.jni_code p2.1 m2
                    (omega (arith, apart.0)) (ground (arith, apart.1)) r2)
                  (Lives-Calm (set_jni_code-Calm api size clone.0 p2.1 m2 r2.laid apart.0 u2 _))
                  λ p3 m3 r3 o3.
                    let u3 = Usable-Opens o3 u2 in
                    along
                      (assign-Stays _ _ _ _ _ keys1 f 4 clone.0 _ old.dex_code_item_offset p3.1 m3
                        (omega (arith, apart.0)) (ground (arith, apart.1)) r3)
                      (Lives-Calm (
                        set_dex_code_item_offset-Calm api size clone.0 p3.1 m3 r3.laid apart.0 u3
                          _))
                      λ p4 m4 r4 o4.
                        let so_far = through h1.1.0 (through o2 (through o3 o4)) in
                        after
                          (Lives-Calm (
                            get_declaring_class-Calm api size id p4.1 m4 r4.laid ends
                              (Usable-Opens so_far u)))
                          (λ p5 m5 o5. lives))
            (λ p n c. through h1.1.0 c)

  pub deal_gc_root-Lives :
      (keys : Keys) (old : ArtMethodKey) (s : Statics) (m : Mem)
      → find_key id keys ≡ some old
      → ProfileOpen m f.jni_code
      → Good keys s m
      → Usable m size id
      → Lives m (deal_gc_root k id s m)
  unfolding deal_gc_root get_method_key
  deal_gc_root-Lives keys old s m e profile r u =
      let known : find_key id s.hooked_method_map ≡ some old = ap (find_key id) r.keys_known ∙ e in
      rw known (
        along (class-Reads api size id o bridge f ends k polite keys s m r)
          (Lives-Calm (get_declaring_class-Calm api size id s m r.laid ends u))
          λ p m1 h o1.
            choose (old.decl_class == p.0) _ _ p.1 m1 (λ same. lives)
              (λ moved.
                clone_again-Lives keys old p.1 m1 (ProfileOpen-Opens o1 profile) h.1
                  (Usable-Opens o1 u)))

  -- From 6.0 on the key of a hooked method can be dealt with, and is there still: its class is the
  -- one that the method has now, moved or not, its flags and entry points are those that it had, and
  -- the members of the method are as they were. It is supposed that the method has a key; that the
  -- bytes of the method, and of its profiling info if it has one, are mapped and can be read and
  -- written; that what the code calls returns, leaves such bytes so, does not write into the method,
  -- and that `malloc` has as many bytes again, apart from it; that the members are laid out within
  -- the method, and the profiling info apart from it; and that the bridges have been looked up.
  pub deal_gc_root-returns :
      (keys : Keys) (old : ArtMethodKey) (s : Statics) (m : Mem)
      → find_key id keys ≡ some old
      → ProfileOpen m f.jni_code
      → Good keys s m
      → Usable m size id
      → (s' : Statics) × (m' : Mem) × (deal_gc_root k id s m ≡ Res.done (tt, s') m')
        × Followed api size id o bridge f ends k polite old s' m'
  deal_gc_root-returns keys old s m e profile r u =
      let (p, m', run, h) = found (
        meet (deal_gc_root-Ensures api size id o bridge f ends k polite keys old s m clear e r)
          (deal_gc_root-Lives keys old s m e profile r u)) in
      (p.1, m', run, h.0)

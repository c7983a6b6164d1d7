-- ===== src/Art/Hook/Accesses.antt =====
-- Reads and writes between the steps of a hook.
use art_hook.Base.{ℕ, ◌+◌, ◌^◌, ◌≤◌, ◌<◌, ◌≡◌, ◌⊎◌, arith}
use art_hook.Art.Members.{assign_offset}
use art_hook.Machine.{u64, store_le, Mem}
use art_hook.Machine.Laws.{Ensures, weaken}
use art_hook.Machine.Stores.{Spares-store_le}
use art_hook.Art.Hook.{Keys}
use art_hook.Art.State.{ArtMethodOffsets, Statics, ArtBridgeList, Act}
use art_hook.Art.Method.View.{Fields, Shows, Within}
use art_hook.Art.Hook.Invariant.{Ready, Stays, lift-Stays}

-- The bytes `n` at `a` are apart from the method.
abbrev pub Beside : (id size n a : ℕ) → Type 0
Beside id size n a = (a + n ≤ id) ⊎ (id + size ≤ a)

module _ (api size id : ℕ) (o : ArtMethodOffsets) (bridge : ArtBridgeList) (keys : Keys)
    (f : Fields) where
  abbrev Good : Statics → Mem → Type 0
  Good = Ready api size id o bridge keys f

  -- A change of the map of hooked methods.
  pub Ready-keys :
      (l l' : Keys) (s : Statics) (m : Mem)
      → l' ≡ l
      → Good s m
      → Ready api size id o bridge l f (record s { hooked_method_map = l' }) m
  Ready-keys l l' s m e r = record {
    laid = r.laid;
    offsets_known = r.offsets_known;
    api_known = r.api_known;
    bridge_known = r.bridge_known;
    bridge_found = r.bridge_found;
    size_known = r.size_known;
    keys_known = e;
    shown = r.shown;
  }

  -- A write beside the method.
  pub assign-Stays :
      (n ptr off v : ℕ) (s : Statics) (m : Mem)
      → ptr + off < 2 ^ 64
      → Beside id size n (ptr + off)
      → Good s m
      → Stays api size id o bridge keys f (assign_offset n ptr off v s m)
  unfolding assign_offset
  assign-Stays n ptr off v s m fits beside r =
      let place : u64 (ptr + off) ≡ ptr + off = omega arith in
      rw place (
        lift-Stays api size id o bridge keys f (store_le n (ptr + off) v) s m
          (weaken
            (Spares-store_le (Within id size) n (ptr + off) v m (λ x w. ground (arith, beside)))
            (λ _ k h. h) (λ k h. tt))
          r)

  module _ (ends : id + size ≤ 2 ^ 64) where
    -- A read of the members, and an update of them.
    pub Reads-Ready :
        (v : ℕ) (c : Act ℕ) (s : Statics) (m : Mem)
        → Good s m
        → Ensures (λ p m'. (p.0 ≡ v) × (p.1 ≡ s) × (m' ≡ m)) (λ _. Unit {0}) (c s m)
        → Ensures (λ p m'. (p.0 ≡ v) × Good p.1 m') (λ _. Unit {0}) (c s m)
    Reads-Ready v c s m r h = weaken h (λ p m' q. (q.0, rw (q.1, q.2) r)) (λ _ u. u)

    pub Updates-Ready :
        (f' : Fields) (c : Act (Unit {0})) (s : Statics) (m : Mem)
        → Good s m
        → Ensures (λ p m'. (p.1 ≡ s) × Shows api s.method_offset id f' m') (λ _. Unit {0}) (c s m)
        → Stays api size id o bridge keys f' (c s m)
    Updates-Ready f' c s m r h =
        weaken h
          (λ p m' q. rw q.0 (record {
            laid = r.laid;
            offsets_known = r.offsets_known;
            api_known = r.api_known;
            bridge_known = r.bridge_known;
            bridge_found = r.bridge_found;
            size_known = r.size_known;
            keys_known = r.keys_known;
            shown = q.1;
          }))
          (λ _ u. u)

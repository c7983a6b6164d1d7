-- ===== src/Art/Hook/Invariant.antt =====
-- What holds between the steps of a hook: the method in memory has certain members, the offsets of
-- the members are known, and so are the bridges. The steps that leave the code keep it.
use art_hook.Base.{◌∷◌, ℕ, ◌+◌, ◌^◌, ◌≤◌, ◌≡◌, ◌⊎◌, true, arith, List, ◌==◌}
use art_hook.Machine.{Mem, Res, Cmd, and_then, null}
use art_hook.Machine.Laws.{Ensures, returns, faults, bind, branch}
use art_hook.Machine.Stores.{Same}
use Prim.Native.String.{String}
use art_hook.Art.Hook.{Keys}
use art_hook.Art.State.{
  ArtMethodOffsets, Event, Runtime, Statics, ArtBridgeList, ArtSymbolList, JniCall, Act, lift, call,
  invoke, ◌>>=◌,
}
use art_hook.Art.Runs.{fork}
use art_hook.Art.Method.View.{Fields, IsLaidOut, Shows, Within, Shows-Same}
use art_hook.Art.Symbols.{get_symbol, find_symbols, find_clones, get_bridge_list}

-- An object of `size` bytes at `p` has no byte in common with the method at `id`.
abbrev pub Apart : (id size p : ℕ) → Type 0
Apart id size p = (p + size ≤ 2 ^ 64) × ((p + size ≤ id) ⊎ (id + size ≤ p))

-- However the run ends, it has left the bytes of the method alone.
abbrev pub Leaves : {A : Type 0} → (id size : ℕ) → Mem → Res A → Type 0
Leaves {A} id size m r = Ensures {A = A} (λ _ n. Same (Within id size) m n) (λ _. Unit {0}) r

abbrev pub Hands : (id size : ℕ) → Mem → Res ℕ → Type 0
Hands id size m r = Ensures (λ p n. Apart id size p × Same (Within id size) m n) (λ _. Unit {0}) r

-- What the hook relies on: code that is called does not write into the method, and what it gives
-- back, or what `malloc` gives, does not point into the method.
pub record IsPolite (k : Runtime) (id size : ℕ) : Type 0 where
  pub dl_open_leaves : (name : _) (m : Mem) → Leaves id size m (k.dl_open name m)
  pub dl_sym_leaves : (lib : ℕ) (name : _) (m : Mem) → Leaves id size m (k.dl_sym lib name m)
  pub malloc_hands : (n : ℕ) (m : Mem) → Hands id size m (k.malloc n m)
  pub call_hands : (f : ℕ) (args : List ℕ) (m : Mem) → Hands id size m (k.call f args m)
  pub jni_leaves : (env : ℕ) (c : JniCall) (m : Mem) → Leaves id size m (k.jni_call env c m)
  pub tls_leaves : (m : Mem) → Leaves id size m (k.tls_self m)

module _ (api size id : ℕ) (o : ArtMethodOffsets) (bridge : ArtBridgeList) (keys : Keys)
    (f : Fields) where
  pub record Ready (s : Statics) (m : Mem) : Type 0 where
    pub laid : IsLaidOut api size s.method_offset
    pub offsets_known : s.method_offset ≡ o
    pub api_known : s.api_level ≡ api
    pub bridge_known : s.bridge_list ≡ bridge
    pub bridge_found : s.bridge_inited ≡ true
    pub size_known : s.method_offset.method_size ≤ size
    pub keys_known : s.hooked_method_map ≡ keys
    pub shown : Shows api s.method_offset id f m

  -- A step after which the method is ready again.
  abbrev pub Stays : {A : Type 0} → Res (A × Statics) → Type 0
  Stays {A} r = Ensures {A = A × Statics} (λ p m'. Ready p.1 m') (λ _. Unit {0}) r

  pub Ready-Same : (s : Statics) (m n : Mem) → Same (Within id size) m n → Ready s m → Ready s n
  Ready-Same s m n same r = record {
    laid = r.laid;
    offsets_known = r.offsets_known;
    api_known = r.api_known;
    bridge_known = r.bridge_known;
    bridge_found = r.bridge_found;
    size_known = r.size_known;
    keys_known = r.keys_known;
    shown = Shows-Same api size id s.method_offset f m n r.laid same r.shown;
  }

  -- The events and the symbols play no part.
  pub Ready-events :
      (s : Statics) (m : Mem) (e : List Event) → Ready s m → Ready (record s { events = e }) m
  Ready-events s m e r = record {
    laid = r.laid;
    offsets_known = r.offsets_known;
    api_known = r.api_known;
    bridge_known = r.bridge_known;
    bridge_found = r.bridge_found;
    size_known = r.size_known;
    keys_known = r.keys_known;
    shown = r.shown;
  }

  pub Ready-symbols :
      (s : Statics) (m : Mem) (l : ArtSymbolList)
      → Ready s m
      → Ready (record s { symbol_list = l; symbol_inited = true }) m
  Ready-symbols s m l r = record {
    laid = r.laid;
    offsets_known = r.offsets_known;
    api_known = r.api_known;
    bridge_known = r.bridge_known;
    bridge_found = r.bridge_found;
    size_known = r.size_known;
    keys_known = r.keys_known;
    shown = r.shown;
  }

  pub Ready-jnienv :
      (s : Statics) (m : Mem) (g : ℕ) → Ready s m → Ready (record s { get_jnienv_symbol = g }) m
  Ready-jnienv s m g r = record {
    laid = r.laid;
    offsets_known = r.offsets_known;
    api_known = r.api_known;
    bridge_known = r.bridge_known;
    bridge_found = r.bridge_found;
    size_known = r.size_known;
    keys_known = r.keys_known;
    shown = r.shown;
  }

  pub lift-Stays :
      {A : Type 0} (c : Cmd A) (s : Statics) (m : Mem)
      → Leaves id size m (c m)
      → Ready s m
      → Stays (lift c s m)
  lift-Stays c s m leaves r = bind leaves (λ a n same. returns (Ready-Same s m n same r))

  module _ (k : Runtime) (polite : IsPolite k id size) where
    pub call-Stays :
        (g : ℕ) (args : List ℕ) (s : Statics) (m : Mem)
        → Ready s m
        → Ensures (λ p m'. Apart id size p.0 × Ready p.1 m') (λ _. Unit {0}) (call k g args s m)
    unfolding call
    call-Stays g args s m r =
        bind (polite.call_hands g args m)
          λ p n h. returns (h.0, Ready-events s n _ (Ready-Same s m n h.1 r))

    pub invoke-Stays :
        (env : ℕ) (c : JniCall) (s : Statics) (m : Mem) → Ready s m → Stays (invoke k env c s m)
    unfolding invoke
    invoke-Stays env c s m r =
        branch (env == null) Res.segv
          (λ m.
            and_then (k.jni_call env c m)
              (λ r. Res.done (r, record s { events = Event.jni c ∷ s.events })))
          m (λ _. faults tt)
          (λ _.
            bind (polite.jni_leaves env c m)
              λ p n same. returns (Ready-events s n _ (Ready-Same s m n same r)))

    -- The lookup of a symbol.
    sym-Stays :
        {B : Type 0} (lib : ℕ) (name : String) (next : ℕ → Act B) (s : Statics) (m : Mem)
        → Ready s m
        → ((a : ℕ) (s' : Statics) (m' : Mem) → Ready s' m' → Stays (next a s' m'))
        → Stays ((lift (k.dl_sym lib name) >>= next) s m)
    sym-Stays lib name next s m r rest =
        bind (lift-Stays (k.dl_sym lib name) s m (polite.dl_sym_leaves lib name m) r)
          λ p m' r'. rest p.0 p.1 m' r'

    find_clones-Stays :
        (libart object_clone : ℕ) (list : ArtSymbolList) (s : Statics) (m : Mem)
        → Ready s m
        → Stays (find_clones k libart object_clone list s m)
    unfolding find_clones
    find_clones-Stays libart object_clone list s m r =
        fork (object_clone == null) _ _ s m
          (λ _.
            sym-Stays libart _ _ s m r
              λ with_class s1 m1 r1. sym-Stays libart _ _ s1 m1 r1 λ with_size s2 m2 r2. returns r2)
          (λ _. returns r)

    pub get_symbol-Stays : (s : Statics) (m : Mem) → Ready s m → Stays (get_symbol k s m)
    unfolding get_symbol find_symbols
    get_symbol-Stays s m r =
        fork s.symbol_inited _ _ s m (λ _. returns r)
          λ _.
            bind (lift-Stays (k.dl_open "libart.so") s m (polite.dl_open_leaves _ m) r) λ lib m0 r0.
              sym-Stays lib.0 _ _ lib.1 m0 r0 λ suspend s1 m1 r1.
                sym-Stays lib.0 _ _ s1 m1 r1 λ resume s2 m2 r2.
                  sym-Stays lib.0 _ _ s2 m2 r2 λ profiles s3 m3 r3.
                    sym-Stays lib.0 _ _ s3 m3 r3 λ copy_from s4 m4 r4.
                      sym-Stays lib.0 _ _ s4 m4 r4 λ clone s5 m5 r5.
                        bind (find_clones-Stays lib.0 clone _ s5 m5 r5)
                          λ list m6 r6. returns (Ready-symbols list.1 m6 list.0 r6)

    -- The bridges are known.
    pub get_bridge_list-Stays :
        (s : Statics) (m : Mem)
        → Ready s m
        → Ensures (λ p m'. (p.0 ≡ bridge) × Ready p.1 m') (λ _. Unit {0}) (get_bridge_list k s m)
    unfolding get_bridge_list
    get_bridge_list-Stays s m r =
        fork s.bridge_inited _ _ s m (λ _. returns (r.bridge_known, r))
          (λ unknown. absurd (ground (arith, r.bridge_found)))

-- ===== src/Art/Hook/Trace/Laws.antt =====
-- The calls of `ArtMethod::Hook` of cpp/art/ArtMethod.cpp, one after the other.

use art_hook.Base.{ℕ, ◌≡◌, refl, true, false, ◌&&◌, ◌!=◌, List, [], ◌∷◌, arith, ltb}
use art_hook.Machine.{Mem, Res, null}
use art_hook.Machine.Laws.{Ensures, returns, bind, weaken, at_return}
use art_hook.Art.State.{ArtSymbolList, Event, Runtime, Statics}
use art_hook.Art.Runs.{fork}
use art_hook.Art.Modifiers.{acc_native, acc_direct_flags, android_m}
use art_hook.Art.Members.{memcpy}
use art_hook.Art.Symbols.{get_symbol, find_symbols}
use art_hook.Art.Suspend.{manual_control}
use art_hook.Art.Clone.{clone_flags, copy_method, new_method, clone_method}
use art_hook.Art.Hook.{backup, hook_method}
use art_hook.Art.Still.{
  kept_then, lift-Still, find_clones-Still, get_declaring_class-Still, get_access_flags-Still,
  has_access_flags-Still, get_dex_code_item_offset-Still, set_dex_code_item_offset-Still,
  get_quick_code-Still, get_interpreter_code-Still, get_jni_code-Still, forbid-Still, native-Still,
  reset-Still, point-Still, finish-Still,
}
use art_hook.Art.Hook.Trace.{
  switched, copied, hook_calls, Knows, known_symbols, call-Traces, optional-Traces, resume-Traces,
  profiles-Traces,
}

module _ (api : ℕ) (modern : ltb api android_m ≡ false) (k : Runtime) where
  -- A clone, with the call that has made it.
  abbrev Clones : ArtSymbolList → ℕ → List Event → Res (ℕ × Statics) → Type 0
  Clones l id es r =
      Ensures (λ p n. Knows api modern k l (copied l p.0 id es) p.1) (λ n. Unit {0}) r

  copy_method-Clones :
      (l : ArtSymbolList) (es : List Event) (id : ℕ) (s : Statics) (m : Mem)
      → Knows api modern k l es s
      → Clones l id es (copy_method k id s m)
  unfolding copy_method
  copy_method-Clones l es id s m h = bind (known_symbols api modern k l es s m h) λ list m1 h1.
      rw h1.0 (
        kept_then _ (lift-Still (k.malloc list.1.method_offset.method_size) list.1 m1) λ clone m2.
          bind
            (fork (l.method_copy_from != null) _ _ list.1 m2
              (λ on.
                bind
                  (call-Traces api modern k l es l.method_copy_from (clone ∷ id ∷ 8 ∷ []) list.1 m2
                    h1.1)
                  (λ p n h'. returns (rw on h')))
              (λ off.
                weaken (lift-Still (memcpy list.1.method_offset.method_size clone id) list.1 m2)
                  (λ p n e. rw (e, off) h1.1) (λ n u. u)))
            (λ p m3 h3. returns h3))

  new_method-Clones :
      (l : ArtSymbolList) (es : List Event) (id : ℕ) (s : Statics) (m : Mem)
      → Knows api modern k l es s
      → Clones l id es (new_method k id s m)
  unfolding new_method
  new_method-Clones l es id s m h = bind (known_symbols api modern k l es s m h) λ list m1 h1.
      fork (ltb list.1.api_level android_m) _ _ list.1 m1
        (λ old. absurd (ground (arith, old, modern, h1.1.level)))
        (λ _. copy_method-Clones l es id list.1 m1 h1.1)

  clone_method-Clones :
      (l : ArtSymbolList) (es : List Event) (id : ℕ) (s : Statics) (m : Mem)
      → Knows api modern k l es s
      → Clones l id es (clone_method k id s m)
  unfolding clone_method
  clone_method-Clones l es id s m h = bind (new_method-Clones l es id s m h) λ clone m1 h1.
      kept_then _ (get_access_flags-Still clone.1 id m1) λ flags m2.
        kept_then _ (has_access_flags-Still clone.1 id acc_native m2) λ native m3.
          kept_then _ (has_access_flags-Still clone.1 id acc_direct_flags m3) λ direct m4.
            kept_then _
              (finish-Still k clone.1 h1.bridges id clone.0
                (clone_flags clone.1.api_level flags native direct) native m4)
              (λ _ m5. returns h1)

  backup-Traces :
      (l : ArtSymbolList) (es : List Event) (id : ℕ) (s : Statics) (m : Mem)
      → Knows api modern k l es s
      → Ensures
          (λ p n. (clone : ℕ) × Knows api modern k l (copied l clone id es) p.1)
          (λ n. Unit {0})
          (backup k id s m)
  unfolding backup
  backup-Traces l es id s m h = kept_then _ (get_declaring_class-Still s id m) λ class m1.
      kept_then _ (get_access_flags-Still s id m1) λ flags m2.
        kept_then _ (get_dex_code_item_offset-Still s id m2) λ dex m3.
          kept_then _ (get_interpreter_code-Still s id m3) λ interpreter m4.
            kept_then _ (get_quick_code-Still s id m4) λ quick m5.
              kept_then _ (get_jni_code-Still s id m5) λ jni m6.
                bind (clone_method-Clones l es id s m6 h) λ clone m7 h7. returns (
                  clone.0,
                  record {
                    level = h7.level;
                    bridges = h7.bridges;
                    inited = h7.inited;
                    symbols = h7.symbols;
                    events = h7.events;
                  },
                )

  module _ (s : Statics) (level : s.api_level ≡ api) (bridges : s.bridge_inited ≡ true) where
    -- The first lookup of the symbols, if they have not been looked up.
    first_symbols :
        (m : Mem)
        → Ensures (λ p n. Knows api modern k p.0 s.events p.1) (λ n. Unit {0}) (get_symbol k s m)
    unfolding get_symbol find_symbols
    first_symbols m =
        fork s.symbol_inited _ _ s m
          (λ known. returns (record {
            level = level;
            bridges = bridges;
            inited = known;
            symbols = refl;
            events = refl;
          }))
          λ _. kept_then _ (lift-Still (k.dl_open "libart.so") s m) λ lib m0.
            kept_then _ (lift-Still (k.dl_sym lib _) s m0) λ suspend m1.
              kept_then _ (lift-Still (k.dl_sym lib _) s m1) λ resume m2.
                kept_then _ (lift-Still (k.dl_sym lib _) s m2) λ profiles m3.
                  kept_then _ (lift-Still (k.dl_sym lib _) s m3) λ copy_from m4.
                    kept_then _ (lift-Still (k.dl_sym lib _) s m4) λ clone m5.
                      kept_then _ (find_clones-Still k s lib clone _ m5) λ list m6.
                        returns (record {
                          level = level;
                          bridges = bridges;
                          inited = refl;
                          symbols = refl;
                          events = refl;
                        })

    suspend-Traces :
        (m : Mem)
        → Ensures
            (λ p n.
              (l : ArtSymbolList) × Knows api modern k l (switched l l.suspend_vm s.events) p.1)
            (λ n. Unit {0})
            (manual_control k true s m)
    unfolding manual_control
    suspend-Traces m = bind (first_symbols m) λ list m1 h1.
        weaken
          (optional-Traces api modern k list.0 s.events
            (list.0.suspend_vm != null && list.0.resume_vm != null) list.0.suspend_vm [] list.1 m1
            h1)
          (λ p n h2. (list.0, h2)) (λ n u. u)

    hook_method-Traces :
        (id replace : ℕ) (m : Mem)
        → Ensures
            (λ p n. (clone : ℕ) × (p.1.events ≡ hook_calls p.1.symbol_list clone id s.events))
            (λ n. Unit {0})
            (hook_method k id replace s m)
    unfolding hook_method
    hook_method-Traces id replace m = bind (suspend-Traces m) λ p1 m1 (l, h1).
        bind (backup-Traces l _ id p1.1 m1 h1) λ p2 m2 (clone, h2).
          bind (profiles-Traces api modern k l _ p2.1 m2 h2) λ p3 m3 h3.
            kept_then _ (set_dex_code_item_offset-Still p3.1 id 0 m3) λ _ m4.
              kept_then _ (forbid-Still p3.1 id m4) λ _ m5.
                kept_then _ (reset-Still p3.1 id m5) λ _ m6.
                  kept_then _ (native-Still p3.1 id m6) λ _ m7.
                    kept_then _ (point-Still k p3.1 h3.bridges id replace m7) λ _ m8.
                      weaken (resume-Traces api modern k l _ p3.1 m8 h3)
                        (λ p n h. (clone, rw h.symbols h.events)) (λ n u. u)

-- A hook that returns, from 6.0 on and with the bridges looked up, has made these calls and no
-- other, in this order: it has stopped the threads, had the method copied, had the profiles saved,
-- and let the threads go on, the second and the third where the runtime has the function, the first
-- and the last where it has both of theirs. So threads that a hook has stopped go on after it.
pub hook_method-calls :
    (k : Runtime) (id replace : ℕ) (s s' : Statics) (m m' : Mem)
    → ltb s.api_level android_m ≡ false
    → s.bridge_inited ≡ true
    → hook_method k id replace s m ≡ Res.done (tt, s') m'
    → (clone : ℕ) × (s'.events ≡ hook_calls s'.symbol_list clone id s.events)
hook_method-calls k id replace s s' m m' modern bridges run =
    at_return (rw run at (hook_method-Traces s.api_level modern k s refl bridges id replace m))

-- ===== src/Art/Hook/Trace.antt =====
-- What `ArtMethod::Hook` of cpp/art/ArtMethod.cpp calls, from 6.0 on.
pub mod Laws
use art_hook.Base.{
  ℕ, ◌≡◌, refl, ap, Bool, true, false, ◌&&◌, ◌!=◌, if◌then◌else◌, List, [], ◌∷◌, arith, ltb,
}
use art_hook.Machine.{Mem, Res, null}
use art_hook.Machine.Laws.{Ensures, returns, bind, weaken, seen, at_return}
use art_hook.Art.State.{ArtSymbolList, Event, Runtime, Statics, ret, call, ◌>>◌}
use art_hook.Art.Runs.{fork}
use art_hook.Art.Modifiers.{acc_native, acc_direct_flags, android_m}
use art_hook.Art.Members.{memcpy}
use art_hook.Art.Symbols.{get_symbol, find_symbols}
use art_hook.Art.Suspend.{manual_control}
use art_hook.Art.Clone.{clone_flags, copy_method, new_method, clone_method}
use art_hook.Art.Hook.{backup, force_profiles, hook_method}
use art_hook.Art.Still.{
  Still, kept_then, lift-Still, find_clones-Still, get_declaring_class-Still,
  get_access_flags-Still, has_access_flags-Still, get_dex_code_item_offset-Still,
  set_dex_code_item_offset-Still, get_quick_code-Still, get_interpreter_code-Still,
  get_jni_code-Still, forbid-Still, native-Still, reset-Still, point-Still, finish-Still,
}

-- The calls, the last one first: all threads are stopped, the runtime copies the method, it saves
-- its profiles, and the threads go on; each call where the runtime has the function.
module _ (l : ArtSymbolList) where
  abbrev pub switched : (f : ℕ) → List Event → List Event
  switched f es = if l.suspend_vm != null && l.resume_vm != null then Event.called f [] ∷ es else es

  abbrev pub copied : (clone id : ℕ) → List Event → List Event
  copied clone id es =
      if l.method_copy_from != null
      then Event.called l.method_copy_from (clone ∷ id ∷ 8 ∷ []) ∷ es
      else es

  abbrev pub profiled : List Event → List Event
  profiled es =
      if l.force_process_profiles != null then Event.called l.force_process_profiles [] ∷ es else es

  abbrev pub hook_calls : (clone id : ℕ) → List Event → List Event
  hook_calls clone id es =
      switched l.resume_vm (profiled (copied clone id (switched l.suspend_vm es)))

module _ (api : ℕ) (modern : ltb api android_m ≡ false) (k : Runtime) where
  -- The calls so far, the symbols and the bridges.
  pub record Knows (l : ArtSymbolList) (es : List Event) (s : Statics) : Type 0 where
    pub level : s.api_level ≡ api
    pub bridges : s.bridge_inited ≡ true
    pub inited : s.symbol_inited ≡ true
    pub symbols : s.symbol_list ≡ l
    pub events : s.events ≡ es

  abbrev pub Traces : {A : Type 0} → ArtSymbolList → List Event → Res (A × Statics) → Type 0
  Traces {A} l es r = Ensures {A = A × Statics} (λ p n. Knows l es p.1) (λ n. Unit {0}) r

  pub Still-Traces :
      {A : Type 0} {l : ArtSymbolList} {es : List Event} {s : Statics} {r : Res (A × Statics)}
      → Knows l es s
      → Still s r
      → Traces l es r
  Still-Traces h still = weaken still (λ p n e. rw e h) (λ n u. u)

  pub known_symbols :
      (l : ArtSymbolList) (es : List Event) (s : Statics) (m : Mem)
      → Knows l es s
      → Ensures (λ p n. (p.0 ≡ l) × Knows l es p.1) (λ n. Unit {0}) (get_symbol k s m)
  unfolding get_symbol
  known_symbols l es s m h =
      fork s.symbol_inited _ _ s m (λ _. returns (h.symbols, h))
        (λ unknown. absurd (ground (arith, h.inited, unknown)))

  pub call-Traces :
      (l : ArtSymbolList) (es : List Event) (f : ℕ) (args : List ℕ) (s : Statics) (m : Mem)
      → Knows l es s
      → Traces l (Event.called f args ∷ es) (call k f args s m)
  unfolding call
  call-Traces l es f args s m h = bind (seen (k.call f args m)) λ a n e. returns (record {
    level = h.level;
    bridges = h.bridges;
    inited = h.inited;
    symbols = h.symbols;
    events = ap (λ x. Event.called f args ∷ x) h.events;
  })

  -- A call that is made where the runtime has the function.
  pub optional-Traces :
      (l : ArtSymbolList) (es : List Event) (b : Bool) (f : ℕ) (args : List ℕ) (s : Statics)
      (m : Mem)
      → Knows l es s
      → Traces l
          (if b then Event.called f args ∷ es else es)
          ((if b then (do call k f args; ret tt) else ret tt) s m)
  optional-Traces l es b f args s m h =
      fork b _ _ s m (λ on. rw on (bind (call-Traces l es f args s m h) (λ p n h'. returns h')))
        (λ off. rw off (returns h))

  pub resume-Traces :
      (l : ArtSymbolList) (es : List Event) (s : Statics) (m : Mem)
      → Knows l es s
      → Traces l (switched l l.resume_vm es) (manual_control k false s m)
  unfolding manual_control
  resume-Traces l es s m h = bind (known_symbols l es s m h) λ list m1 h1. rw h1.0 (
      optional-Traces l es (l.suspend_vm != null && l.resume_vm != null) l.resume_vm [] list.1 m1
        h1.1)

  pub profiles-Traces :
      (l : ArtSymbolList) (es : List Event) (s : Statics) (m : Mem)
      → Knows l es s
      → Traces l (profiled l es) (force_profiles k s m)
  unfolding force_profiles
  profiles-Traces l es s m h = bind (known_symbols l es s m h) λ list m1 h1. rw h1.0 (
      optional-Traces l es (l.force_process_profiles != null) l.force_process_profiles [] list.1 m1
        h1.1)

-- ===== src/Art/Hook/Examples.antt =====
-- `ArtMethod::Hook` of cpp/art/ArtMethod.cpp on a method in memory, where `malloc` has memory.
use art_hook.Base.{ℕ, ◌+◌, ◌≡◌, refl, inl, inr, some, arith, [], ◌∷◌, ltb, leb, ◌&&◌, if◌then◌else◌}
use art_hook.Machine.{Mem, Res, load8, store8, load_le, store_le}
use art_hook.Machine.Laws.{returns}
use art_hook.Machine.Total.{total, Opens, Usable, lives, usable, usable-Usable}
use art_hook.Art.State.{Event, Runtime, Statics, call}
use art_hook.Art.Device.{id, size, process, device, offsets, bridges, before, fields, state, memory}
use art_hook.Art.Examples.{
  before-Ready, profile-Clear, replace, moved_key, hooked_before, hooked_before-Ready,
}
use art_hook.Art.Hook.{find_key, hook_method, deal_gc_root, invoke_original}
use art_hook.Art.Hook.Roots.{Followed}
use art_hook.Art.Hook.Roots.Total.{deal_gc_root-returns}
use art_hook.Art.Hook.Invoke.{Calls}
use art_hook.Art.Hook.Invoke.Total.{JniLives, invoke_original-returns}
use art_hook.Art.Hook.Trace.{hook_calls}
use art_hook.Art.Hook.Trace.Laws.{hook_method-calls}
use art_hook.Art.Hook.Invariant.{IsPolite}
use art_hook.Art.Hook.Live.{IsLive}
use art_hook.Art.Hook.Steps.{hooked}
use art_hook.Art.Hook.Laws.{BackedUp}
use art_hook.Art.Hook.Total.{hook_method-returns}

-- All pages are open, and the `n` bytes from 8192 on are mapped.
abbrev grown : ℕ → Mem → Mem
grown n m = record {
  cell = λ x. if leb 8192 x && ltb x (8192 + n) then some 0 else m.cell x;
  prot = λ p. 3;
}

abbrev allocator : Runtime
allocator = record device { malloc = λ n m. Res.done 8192 (grown n m) }

allocator-IsPolite : IsPolite allocator id size
allocator-IsPolite = record {
  dl_open_leaves = λ name m. returns (λ x w. refl);
  dl_sym_leaves = λ lib name m. returns (λ x w. refl);
  malloc_hands = λ n m. returns ((omega arith, inr (omega arith)), λ x w. ground (arith, w));
  call_hands = λ f args m. returns ((omega arith, inl (omega arith)), λ x w. refl);
  jni_leaves = λ env c m. returns (λ x w. refl);
  tls_leaves = λ m. returns (λ x w. refl);
}

grown-Opens : (n : ℕ) (m : Mem) → Opens m (grown n m)
grown-Opens n m = record {
  carry = λ x h. record {
    byte = if leb 8192 x && ltb x (8192 + n) then 0 else h.byte;
    mapped = ground (arith, h.mapped);
    can_read = refl;
    can_write = refl;
  };
}

grown-Usable : (n : ℕ) (m : Mem) → Usable (grown n m) n 8192
grown-Usable n m = record {
  place = λ x from to. record {
    byte = 0;
    mapped = ground (arith, from, to);
    can_read = refl;
    can_write = refl;
  };
}

allocator-IsLive : IsLive allocator size
allocator-IsLive = record {
  dl_open_lives = λ name m. lives;
  dl_sym_lives = λ lib name m. lives;
  malloc_gives = λ m. total (grown-Opens size m, grown-Usable size m);
  call_lives = λ f args m. lives;
}

method-Usable : Usable process size id
method-Usable = usable-Usable size id process (unfold usable in refl)

profile-Usable : Usable process 20 12288
profile-Usable = usable-Usable 20 12288 process (unfold usable in refl)

hook_method-returns_example :
    (s' : Statics) × (m' : Mem) × (hook_method allocator id replace before process
      ≡ Res.done (tt, s') m')
    × BackedUp 28 size id offsets bridges []
        (omega arith)
        allocator
        allocator-IsPolite
        fields
        (hooked 28 bridges replace fields)
        s'
        m'
hook_method-returns_example =
    hook_method-returns 28 size id offsets bridges [] (omega arith) allocator allocator-IsPolite
      allocator-IsLive refl refl (omega arith) fields replace before process profile-Clear
      (omega arith, omega arith) (omega arith) before-Ready (inr profile-Usable) method-Usable

-- A runtime that has the functions, all at one address.
abbrev provided : Runtime
provided = record device { dl_sym = λ lib name m. Res.done 0x900 m }

traced_run : Res (Unit {0} × Statics)
traced_run = hook_method provided id replace before process

traced_returns :
    hook_method provided id replace before process
    ≡ Res.done (tt, state traced_run) (memory traced_run)
unfolding traced_run hook_method load_le store_le load8 store8 call
traced_returns = refl

hook_method-calls_example :
    (clone : ℕ) × ((state traced_run).events
      ≡ hook_calls (state traced_run).symbol_list clone id before.events)
hook_method-calls_example =
    hook_method-calls provided id replace before (state traced_run) process (memory traced_run) refl
      refl traced_returns

four_calls :
    (state traced_run).events
    ≡ Event.called 0x900 []
      ∷ Event.called 0x900 []
      ∷ Event.called 0x900 (8192 ∷ 4096 ∷ 8 ∷ [])
      ∷ Event.called 0x900 []
      ∷ []
unfolding traced_run hook_method load_le store_le load8 store8 call
four_calls = refl

deal_gc_root-returns_example :
    (s' : Statics) × (m' : Mem) × (deal_gc_root allocator id hooked_before process
      ≡ Res.done (tt, s') m')
    × Followed 28 size id offsets bridges fields
        (omega arith)
        allocator
        allocator-IsPolite
        moved_key
        s'
        m'
unfolding find_key
deal_gc_root-returns_example =
    deal_gc_root-returns 28 size id offsets bridges fields (omega arith) allocator
      allocator-IsPolite allocator-IsLive refl refl profile-Clear ((id, moved_key) ∷ []) moved_key
      hooked_before process refl (inr profile-Usable) hooked_before-Ready method-Usable

allocator-JniLives : JniLives allocator 1
allocator-JniLives = record { given = λ null_env. omega arith; jni_lives = λ c m. lives }

invoke_original-returns_example :
    (r : ℕ) × (s' : Statics) × (m' : Mem) × (invoke_original allocator id 1 0x10 0x20 hooked_before
        process
      ≡ Res.done (r, s') m')
    × Calls 28 size id offsets bridges fields
        (omega arith)
        allocator
        allocator-IsPolite
        1
        moved_key
        0x10
        0x20
        r
        s'
unfolding find_key
invoke_original-returns_example =
    invoke_original-returns 28 size id offsets bridges fields (omega arith) allocator
      allocator-IsPolite allocator-IsLive refl refl profile-Clear 1 allocator-JniLives
      ((id, moved_key) ∷ []) moved_key 0x10 0x20 hooked_before process refl (inr profile-Usable)
      hooked_before-Ready method-Usable

-- ===== src/Core/Refresh/Laws.antt =====
-- What a refresh of cpp/xhook/xh_core.c guarantees.
use art_hook.Base.{
  ℕ, ◌≡◌, ◌≢◌, refl, sym, ◌⊎◌, inl, inr, true, Option, none, some, List, [], ◌∷◌, arith, Text,
}
use art_hook.Machine.{Mem, Res}
use art_hook.Machine.Laws.{Ensures, returns, bind, at_return, at_fault}
use art_hook.Maps.{lines}
use art_hook.Core.State.{Env, Core}
use art_hook.Core.Select.{wanted}
use art_hook.Core.Guard.Laws.{Frame, Unguarded}
use art_hook.Core.Refresh.Lines.{Stands, candidate-Stands}
use art_hook.Core.Refresh.{Refreshing, refresh_lines, refresh_impl}
use art_hook.Core.Refresh.Invariant.{Inv, Allows, refresh_lines-Inv}

-- Some line of the file is a private, readable mapping of `pathname` from its start, at `base`.
abbrev pub Lists : List Text → (pathname : Text) (base : ℕ) → Type 0
Lists [] pathname base = ⊥
Lists (line ∷ rest) pathname base = Stands line pathname base ⊎ Lists rest pathname base

module _ (env : Env) where
  -- What the map may hold after a refresh from the state `c` over the lines `ls`.
  abbrev pub Image : Core env → List Text → Text → ℕ → Type 0
  Image c ls p b = Lists ls p b × (wanted env c.hook_info c.ignore_info p ≡ true)

  Allows-widen :
      (c : Core env) (t : env.tree.Tree) (P Q : Text → ℕ → Type 0) (ls : List Text)
      → ((p : Text) (b : ℕ) → P p b → Q p b)
      → Allows env c t P ls
      → Allows env c t Q ls
  Allows-widen c t P Q [] h a = tt
  Allows-widen c t P Q (line ∷ rest) h a =
      (λ b p e w. h p b (a.0 b p e w), Allows-widen c t P Q rest h a.1)

  Allows-Image :
      (c : Core env) (t : env.tree.Tree) (ls : List Text) → Allows env c t (Image c ls) ls
  Allows-Image c t [] = tt
  Allows-Image c t (line ∷ rest) = (
    λ b p e w. (inl (candidate-Stands line p b e), w),
    Allows-widen c t (Image c rest) (Image c (line ∷ rest)) rest (λ p b i. (inr i.0, i.1))
        (Allows-Image c t rest),
  )

  start-Inv :
      (c : Core env) (ls : List Text)
      → Inv env c env.tree.empty (Image c ls) (record { core = c; refreshed = env.tree.empty })
  start-Inv c ls = record {
    frame = ground arith;
    images = λ p b e. ground (arith, env.tree.find-empty p);
    first = λ p b e. e;
    apart = λ p b e. ground (arith, env.tree.find-empty p);
  }

  -- What `d`, the state after a refresh of `c` from memory `m`, satisfies.
  abbrev pub Refreshed : Core env → Mem → Core env → Type 0
  Refreshed c m d =
      Frame env c d
      × ((content : Text)
          → env.kernel.self_maps m ≡ some content
          → (p : Text) (b : ℕ) → env.tree.find p d.map_info ≡ some b
          → Image c (lines content) p b)

  refresh_impl-Ensures :
      (c : Core env) (m : Mem) (o : Option Text)
      → env.kernel.self_maps m ≡ o
      → Ensures (λ d n. Refreshed c m d) (Unguarded env c) (refresh_impl env c m)
  unfolding refresh_impl
  refresh_impl-Ensures c m none e =
      rw (e, refresh_impl) (returns (ground arith, λ content e'. ground arith))
  refresh_impl-Ensures c m (some content) e =
      rw (e, refresh_impl)
        (bind
          (refresh_lines-Inv env c env.tree.empty (Image c (lines content)) (lines content) _ m
            (start-Inv c (lines content)) (Allows-Image c env.tree.empty (lines content)))
          (λ s n v. returns (
            ground (arith, v.frame),
            λ content' e' p b f.
                let same : content' ≡ content = ground arith in rw same (v.images p b f),
          )))

  run_Ensures :
      (c : Core env) (m : Mem) (r : Res (Core env))
      → refresh_impl env c m ≡ r
      → Ensures (λ d n. Refreshed c m d) (Unguarded env c) r
  run_Ensures c m r e = rw (sym e) (refresh_impl-Ensures c m (env.kernel.self_maps m) refl)

  pub refresh_impl-ne-segv :
      (c : Core env) (m n : Mem)
      → c.sigsegv_enable ≡ true
      → c.handler ≡ true
      → refresh_impl env c m ≢ Res.segv n
  refresh_impl-ne-segv c m n on installed e =
      ground (arith, at_fault (run_Ensures c m (Res.segv n) e))

  pub refresh_impl-Image :
      (c d : Core env) (m n : Mem) (content p : Text) (b : ℕ)
      → env.kernel.self_maps m ≡ some content
      → refresh_impl env c m ≡ Res.done d n
      → env.tree.find p d.map_info ≡ some b
      → Frame env c d × Image c (lines content) p b
  refresh_impl-Image c d m n content p b read e found =
      let r = at_return (run_Ensures c m (Res.done d n) e) in (r.0, r.1 content read p b found)

  -- Of the lines of one file that list a path, the first whose image enters the new map decides its
  -- base: no later line changes it.
  refresh_lines-first :
      (front back : List Text) (c : Core env) (s s' : Refreshing env) (m n n' : Mem) (p : Text)
      (b : ℕ)
      → refresh_lines env front (record { core = c; refreshed = env.tree.empty }) m ≡ Res.done s n
      → refresh_lines env back s n ≡ Res.done s' n'
      → env.tree.find p s.refreshed ≡ some b
      → env.tree.find p s'.refreshed ≡ some b
  refresh_lines-first front back c s s' m n n' p b e e' f = after.first p b f
    where
      open env.tree use {empty}

      before : Inv env c empty (Image c front) s
      before = at_return (
          rw e at (
            refresh_lines-Inv env c empty (Image c front) front _ m (start-Inv c front)
              (Allows-Image c empty front)))

      both : Text → ℕ → Type 0
      both p b = Image c front p b ⊎ Image c back p b

      here : Inv env c s.refreshed both s
      here = record {
        frame = before.frame;
        images = λ p b e. inl (before.images p b e);
        first = λ p b e. e;
        apart = before.apart;
      }

      after : Inv env c s.refreshed both s'
      after = at_return (
          rw e' at (
            refresh_lines-Inv env c s.refreshed both back s n here (
              Allows-widen c s.refreshed (Image c back) both back (λ p b i. inr i)
                (Allows-Image c s.refreshed back))))

  pub refresh_impl-Frame :
      (c d : Core env) (m n : Mem) → refresh_impl env c m ≡ Res.done d n → Frame env c d
  refresh_impl-Frame c d m n e = (at_return (run_Ensures c m (Res.done d n) e)).0

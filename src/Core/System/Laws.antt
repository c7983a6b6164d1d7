-- ===== src/Core/System/Laws.antt =====
-- At most one refresh thread is there, whatever the order of the steps.
use art_hook.Base.{
  ℕ, ◌≡◌, ◌≢◌, refl, sym, ap, ◌∙◌, ◌⊎◌, inl, inr, true, false, Option, arith, Text, Bool-cases,
}
use art_hook.Machine.{Mem, Res}
use art_hook.Machine.Laws.{Ensures, returns, bind, seen, at_return}
use art_hook.Core.State.{Env, Core}
use art_hook.Core.Registry.Laws.{Registers, Ignores, accepted, refused}
use art_hook.Core.Refresh.{refresh_impl}
use art_hook.Core.Refresh.Laws.{refresh_impl-Frame}
use art_hook.Core.Lifecycle.{init_once, refresh_async}
use art_hook.Core.Lifecycle.Laws.{Refreshes, uninitialised, requested, refreshed}
use art_hook.Core.Thread.{Place, testing, waiting, refreshing, over, woken, thread_step}
use art_hook.Core.System.{free, joining, System, place_after}

module _ (env : Env) where
  -- A refresh thread is there only while the asynchronous part is ready; between two calls it is told
  -- to run exactly then, and it is not over while it is told to run; while a call waits for it to
  -- end it is told to end.
  pub record Single (x : System env) : Type 0 where
    pub ready : x.core.async_init_ok ≡ true → x.core.async_inited ≡ true
    pub absent : x.core.async_init_ok ≡ false → x.place ≡ over
    pub running_free : x.caller ≡ free → x.core.refresh_thread_running ≡ x.core.async_init_ok
    pub running_joining : x.caller ≡ joining → x.core.refresh_thread_running ≡ false
    pub present : x.core.refresh_thread_running ≡ true → x.place ≢ over

  -- The state of the thread is the same.
  abbrev pub SameThread : Core env → Core env → Type 0
  SameThread c d =
      (d.async_init_ok ≡ c.async_init_ok)
      × (d.refresh_thread_running ≡ c.refresh_thread_running)
      × (c.async_inited ≡ true → d.async_inited ≡ true)

  pub Single-core :
      (x : System env) (d : Core env)
      → SameThread x.core d
      → Single x
      → Single (record x { core = d })
  Single-core x d same v = record {
    ready = ground (arith, same, v);
    absent = ground (arith, same, v);
    running_free = ground (arith, same, v);
    running_joining = ground (arith, same, v);
    present = λ on. v.present (sym same.1 ∙ on);
  }

  pub Registers-SameThread :
      (c : Core env) (regex_str symbol : Option Text) (new_func old_func : ℕ) (out : ℕ × Core env)
      → Registers env c regex_str symbol new_func old_func out
      → SameThread c out.1
  Registers-SameThread c regex_str symbol new_func old_func out (accepted _ _ _ _ _ _ _ _ _ _ e) =
      rw e (refl, refl, λ h. h)
  Registers-SameThread c regex_str symbol new_func old_func out (refused _ _ _ e) =
      rw e (refl, refl, λ h. h)

  pub Ignores-SameThread :
      (c : Core env) (regex_str symbol : Option Text) (out : ℕ × Core env)
      → Ignores env c regex_str symbol out
      → SameThread c out.1
  Ignores-SameThread c regex_str symbol out (accepted _ _ _ _ _ _ _ e) = rw e (refl, refl, λ h. h)
  Ignores-SameThread c regex_str symbol out (refused _ _ _ e) = rw e (refl, refl, λ h. h)

  init_once-SameThread : (c : Core env) → SameThread c (init_once env c)
  unfolding init_once
  init_once-SameThread c = (ground arith, ground arith, ground arith)

  -- What a refresh leaves: the same thread, or a new one where there was none.
  abbrev pub Starts : Core env → Core env → Type 0
  Starts c d =
      SameThread c d
      ⊎ ((c.async_init_ok ≡ false)
          × (d.async_init_ok ≡ true)
          × (d.refresh_thread_running ≡ true)
          × (d.async_inited ≡ true))

  refresh_async-Starts :
      (c : Core env)
      → c.refresh_thread_running ≡ c.async_init_ok
      → (c.async_init_ok ≡ true → c.async_inited ≡ true)
      → Starts c (refresh_async env c).1
  unfolding refresh_async
  refresh_async-Starts c idle ready = elim (Bool-cases c.async_inited) [
    | inl old ↦ inl (ground (arith, old), ground (arith, old), ground (arith, old))
    | inr first ↦
        let off : c.async_init_ok ≡ false = ground (arith, first, ready) in
        elim (Bool-cases (env.pthread_create c.calls)) [
          | inl made ↦ inr (
            off,
            ground (arith, first, made),
            ground (arith, first, made),
            ground (arith, first, made),
          )
          | inr failed ↦ inl (
            ground (arith, first, failed, off),
            ground (arith, first, failed, off, idle),
            ground (arith, first, failed),
          )
        ]
  ]

  Starts-after : (c c1 d : Core env) → SameThread c c1 → Starts c1 d → Starts c d
  Starts-after c c1 d same (inl same') =
      inl (same'.0 ∙ same.0, same'.1 ∙ same.1, λ h. same'.2 (same.2 h))
  Starts-after c c1 d same (inr new) = inr (sym same.0 ∙ new.0, new.1, new.2, new.3)

  pub Refreshes-Starts :
      (c d : Core env) (m n : Mem) (r : ℕ)
      → c.refresh_thread_running ≡ c.async_init_ok
      → (c.async_init_ok ≡ true → c.async_inited ≡ true)
      → Refreshes env c m r d n
      → Starts c d
  Refreshes-Starts c d m n r idle ready (uninitialised off _ e) =
      rw e (inl (init_once-SameThread c))
  Refreshes-Starts c d m n r idle ready (requested on e) =
      let d_is : d ≡ (refresh_async env (init_once env c)).1 = ap (λ out. out.1) e in
      let same = init_once-SameThread c in
      rw d_is (
        Starts-after c (init_once env c) (refresh_async env (init_once env c)).1 same (
          refresh_async-Starts (init_once env c) (same.1 ∙ idle ∙ sym same.0)
            (λ h. same.2 (ready (sym same.0 ∙ h)))))
  Refreshes-Starts c d m n r idle ready (refreshed on _ e) =
      let f = refresh_impl-Frame env (init_once env c) d m n e in
      let same = init_once-SameThread c in
      inl (ground (arith, f, same), ground (arith, f, same), ground (arith, f, same))

  testing-ne-over : testing ≢ over
  testing-ne-over = λ e. ground arith

  pub Single-refresh :
      (x : System env) (d : Core env)
      → x.caller ≡ free
      → Starts x.core d
      → Single x
      → Single (record x { core = d; place = place_after env x.core d x.place })
  Single-refresh x d idle starts v = cases starts
    where
      cases :
          Starts x.core d → Single (record x { core = d; place = place_after env x.core d x.place })
      cases (inl same) =
          let stay : place_after env x.core d x.place ≡ x.place = ground (arith, same.0) in
          rw stay (Single-core x d same v)
      cases (inr (was_off, on, runs, known)) =
          let fresh : place_after env x.core d x.place ≡ testing = ground (arith, was_off, on) in
          rw fresh (record {
            ready = λ _. known;
            absent = λ off. ground (arith, off, on);
            running_free = λ _. runs ∙ sym on;
            running_joining = λ waits. ground (arith, idle, waits);
            present = λ _. testing-ne-over;
          })

  -- A step of the thread does not start or stop a thread, and it ends only where it is told to.
  abbrev Moved : Place → Core env → Place × Core env → Mem → Type 0
  Moved place c q n =
      SameThread c q.1
      × (q.0 ≡ over → (place ≡ over) ⊎ (c.refresh_thread_running ≡ false))
      × (place ≡ over → q.0 ≡ over)

  stays_put : (c : Core env) → SameThread c c
  stays_put c = (refl, refl, λ h. h)

  woken-Moved : (c : Core env) (m : Mem) → Moved waiting c (woken env c) m
  unfolding woken
  woken-Moved c m =
      ((ground arith, ground arith, ground arith), λ e. inr (ground arith), λ e. ground arith)

  thread_step-Moved :
      (place : Place) (c : Core env) (m : Mem)
      → Ensures (Moved place c) (λ n. Unit {0}) (thread_step env place c m)
  unfolding thread_step
  thread_step-Moved testing c m =
      returns
        ((ground arith, ground arith, ground arith), λ e. inr (ground arith), λ e. ground arith)
  thread_step-Moved waiting c m = returns (woken-Moved c m)
  thread_step-Moved refreshing c m = bind (seen (refresh_impl env c m)) λ d n e.
      let f = refresh_impl-Frame env c d m n e in
      returns (
        (ground (arith, f), ground (arith, f), ground (arith, f)),
        λ e. ground arith,
        λ e. ground arith,
      )
  thread_step-Moved over c m = returns (stays_put c, λ e. inl refl, λ e. refl)

  pub Single-thread :
      (x : System env) (p : Place) (d : Core env) (m n : Mem)
      → Single x
      → thread_step env x.place x.core m ≡ Res.done (p, d) n
      → Single (record x { core = d; place = p })
  Single-thread x p d m n v run =
      let moved = at_return (rw run at (thread_step-Moved x.place x.core m)) in
      let (same, ends, gone) = moved in
      record {
        ready = ground (arith, same, v);
        absent = λ off. gone (v.absent (sym same.0 ∙ off));
        running_free = ground (arith, same, v);
        running_joining = ground (arith, same, v);
        present = λ on e. elim (ends e) [
          | inl was_over ↦ v.present (sym same.1 ∙ on) was_over
          | inr told ↦ ground (arith, told, on, same.1)
        ];
      }

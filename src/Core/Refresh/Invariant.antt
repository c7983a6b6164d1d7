-- ===== src/Core/Refresh/Invariant.antt =====
-- What the loop of `xh_core_refresh_impl` keeps from line to line.
use art_hook.Base.{
  ℕ, ◌≡◌, refl, sym, inl, inr, true, false, not, none, some, List, [], ◌∷◌, ◌!=◌, ◌==◌, arith, Text,
  strcmp_eq, strcmp_eq_iff, strcmp_eq_refl, ◌+◌, Bool-cases, Option-cases,
}
use art_hook.Machine.{Mem, Res, pure}
use art_hook.Machine.Laws.{Ensures, returns, undefined, bind, branch, weaken}
use art_hook.Elf.Image.{err_segverr}
use art_hook.Elf.Header.{check_elfheader}
use art_hook.Core.State.{Env, Core}
use art_hook.Core.Tree.{find-insert}
use art_hook.Core.Select.{wanted, hook_impl}
use art_hook.Core.Guard.{check_elf_header, hook}
use art_hook.Core.Guard.Laws.{Frame, Kept, Unguarded, protected-Ensures}
use art_hook.Core.Refresh.{
  Candidate, pass, region, unset, candidate, Refreshing, hook_then, update_image, create_image,
  place_image, visit, refresh_line, refresh_lines,
}

module _ (env : Env) (c : Core env) (t : env.tree.Tree) (Image : Text → ℕ → Type 0) where
  -- `c` and `t` are the state and the new tree at the start, and `Image` what may enter the tree.
  pub record Inv (s : Refreshing env) : Type 0 where
    pub frame : Frame env c s.core
    pub images : (p : Text) (b : ℕ) → env.tree.find p s.refreshed ≡ some b → Image p b
    pub first :
        (p : Text) (b : ℕ) → env.tree.find p t ≡ some b → env.tree.find p s.refreshed ≡ some b
    pub apart :
        (p : Text) (b : ℕ)
        → env.tree.find p s.refreshed ≡ some b
        → env.tree.find p s.core.map_info ≡ none

  abbrev Goes : Res (Refreshing env) → Type 0
  Goes r = Ensures (λ s n. Inv s) (Unguarded env c) r

  Inv-Kept :
      (s : Refreshing env) (d : Core env) → Inv s → Kept env s.core d → Inv (record s { core = d })
  Inv-Kept s d v k = record {
    frame = ground (arith, v.frame, k.0);
    images = v.images;
    first = v.first;
    apart = λ p b e. rw k.1 (v.apart p b e);
  }

  hook_then-Inv :
      (s : Refreshing env) (p : Text) (b : ℕ) (m : Mem) → Inv s → Goes (hook_then env s p b m)
  unfolding hook_then hook
  hook_then-Inv s p b m v =
      bind
        (weaken
          (protected-Ensures env s.core (hook_impl env s.core.hook_info s.core.ignore_info p b) tt
            m)
          (λ out n k. k) (λ n f. ground (arith, v.frame)))
        (λ out n k. returns (Inv-Kept s out.1 v k))

  -- A path that was not in the new tree, and no longer in the old one, is added to the new one.
  Inv-insert :
      (s : Refreshing env) (d : Core env) (p : Text) (b : ℕ)
      → Inv s
      → Frame env s.core d
      → Image p b
      → (env.tree.insert p b s.refreshed).0 ≡ none
      → env.tree.find p d.map_info ≡ none
      → ((q : Text)
          → strcmp_eq p q ≡ false
          → env.tree.find q d.map_info ≡ env.tree.find q s.core.map_info)
      → Inv (record { core = d; refreshed = (env.tree.insert p b s.refreshed).1 })
  Inv-insert s d p b v k image fresh gone rest = record {
    frame = ground (arith, v.frame, k);
    images = λ q w e. elim (Bool-cases (strcmp_eq p q)) [
      | inl same ↦
          let e1 : q ≡ p = sym ((strcmp_eq_iff p q).0 same) in
          let e2 : w ≡ b = ground (arith, find-insert env.tree p q b s.refreshed fresh) in
          rw (e1, e2) image
      | inr other ↦ v.images q w (ground (arith, find-insert env.tree p q b s.refreshed fresh))
    ];
    first = λ q w e. elim (Bool-cases (strcmp_eq p q)) [
      | inl same ↦
          let e1 : q ≡ p = sym ((strcmp_eq_iff p q).0 same) in
          let old : env.tree.find p s.refreshed ≡ some w = rw (← e1) (v.first q w e) in
          ground (arith, env.tree.insert_lem p q b s.refreshed)
      | inr other ↦ ground (arith, find-insert env.tree p q b s.refreshed fresh, v.first q w e)
    ];
    apart = λ q w e. elim (Bool-cases (strcmp_eq p q)) [
      | inl same ↦ rw (sym ((strcmp_eq_iff p q).0 same)) gone
      | inr other ↦
          let old : env.tree.find q s.refreshed ≡ some w =
            ground (arith, find-insert env.tree p q b s.refreshed fresh) in
          ground (arith, rest q other, v.apart q w old)
    ];
  }

  without : Core env → Text → Core env
  without d p = record d { map_info = env.tree.remove p d.map_info }

  Inv-remove : (s : Refreshing env) (p : Text) → Inv s → Inv (record s { core = without s.core p })
  unfolding without
  Inv-remove s p v = record {
    frame = ground (arith, v.frame);
    images = v.images;
    first = v.first;
    apart = λ q w e. ground (arith, env.tree.find-remove p q s.core.map_info, v.apart q w e);
  }

  update_image-Inv :
      (s : Refreshing env) (p : Text) (b old : ℕ) (m : Mem)
      → Inv s
      → Image p b
      → Goes (update_image env s p b old m)
  unfolding update_image without
  update_image-Inv s p b old m v image = elim (Option-cases (env.tree.insert p b s.refreshed).0) [
    | inr (w, e) ↦ rw (e, update_image) (returns (Inv-remove s p v))
    | inl fresh ↦
        let moved : Inv _ =
          Inv-insert s (without s.core p) p b v (ground arith) image fresh
            (ground (arith, env.tree.find-remove p p s.core.map_info, strcmp_eq_refl p))
            (λ q other. ground (arith, env.tree.find-remove p q s.core.map_info)) in
        rw (fresh, update_image)
          (branch (old != b) (hook_then env _ p b) (pure _) m (λ _. hook_then-Inv _ p b m moved)
            (λ _. returns moved))
  ]

  create_image-Inv :
      (s : Refreshing env) (p : Text) (b : ℕ) (m : Mem)
      → Inv s
      → Image p b
      → env.tree.find p s.core.map_info ≡ none
      → Goes (create_image env s p b m)
  unfolding create_image
  create_image-Inv s p b m v image new =
      branch (not (env.malloc s.core.calls)) (pure _) _ m
        (λ _. returns (Inv-Kept s _ v (ground arith)))
        (λ _.
          branch (not (env.malloc (s.core.calls + 1))) (pure _) _ m
            (λ _. returns (Inv-Kept s _ v (ground arith)))
            (λ _. elim (Option-cases (env.tree.insert p b s.refreshed).0) [
              | inr (w, e) ↦ rw (e, create_image) (returns (Inv-Kept s _ v (ground arith)))
              | inl fresh ↦
                  rw (fresh, create_image)
                    (hook_then-Inv _ p b m
                      (Inv-insert s _ p b v (ground arith) image fresh new (λ q other. refl)))
            ]))

  place_image-Inv :
      (s : Refreshing env) (p : Text) (b : ℕ) (m : Mem)
      → Inv s
      → Image p b
      → Goes (place_image env s p b m)
  unfolding place_image
  place_image-Inv s p b m v image = elim (Option-cases (env.tree.find p s.core.map_info)) [
    | inl new ↦ rw (new, place_image) (create_image-Inv s p b m v image new)
    | inr (old, e) ↦ rw (e, place_image) (update_image-Inv s p b old m v image)
  ]

  abbrev IsWanted : Text → Type 0
  IsWanted p = wanted env c.hook_info c.ignore_info p ≡ true

  visit-Inv :
      (s : Refreshing env) (p : Text) (b : ℕ) (m : Mem)
      → Inv s
      → (IsWanted p → Image p b)
      → Goes (visit env s p b m)
  unfolding visit check_elf_header
  visit-Inv s p b m v image =
      branch (wanted env s.core.hook_info s.core.ignore_info p) _ (pure s) m
        (λ on.
          bind
            (weaken (protected-Ensures env s.core (check_elfheader b) err_segverr m) (λ out n k. k)
              (λ n f. ground (arith, v.frame)))
            (λ out n k.
              let v' : Inv (record s { core = out.1 }) = Inv-Kept s out.1 v k in
              branch (out.0 == 0) (place_image env _ p b) (pure _) n
                (λ _. place_image-Inv _ p b n v' (image (ground (arith, v.frame))))
                (λ _. returns v')))
        (λ off. returns v)

  -- What the lines may bring into the tree.
  abbrev pub Allows : List Text → Type 0
  Allows [] = Unit {0}
  Allows (line ∷ rest) =
      ((b : ℕ) (p : Text) → candidate line ≡ region b p → IsWanted p → Image p b) × Allows rest

  refresh_line-Inv :
      (s : Refreshing env) (line : Text) (m : Mem) (k : Candidate)
      → candidate line ≡ k
      → Inv s
      → ((b : ℕ) (p : Text) → candidate line ≡ region b p → IsWanted p → Image p b)
      → Goes (refresh_line env s line m)
  unfolding refresh_line
  refresh_line-Inv s line m pass e v allow = rw (e, refresh_line) (returns v)
  refresh_line-Inv s line m (region b p) e v allow =
      rw (e, refresh_line) (visit-Inv s p b m v (allow b p e))
  refresh_line-Inv s line m unset e v allow = rw (e, refresh_line) undefined

  pub refresh_lines-Inv :
      (ls : List Text) (s : Refreshing env) (m : Mem)
      → Inv s
      → Allows ls
      → Goes (refresh_lines env ls s m)
  unfolding refresh_lines
  refresh_lines-Inv [] s m v allow = returns v
  refresh_lines-Inv (line ∷ rest) s m v allow =
      bind (refresh_line-Inv s line m (candidate line) refl v allow.0)
        (λ s' n v'. refresh_lines-Inv rest s' n v' allow.1)

-- ===== src/Elf/Replace/Laws.antt =====
-- What `xh_elf_replace_function` does to memory, on every way it can end.
use art_hook.Base.{
  ℕ, ◌+◌, ◌^◌, ◌≤◌, ◌<◌, ◌≡◌, ◌≢◌, refl, ◌∙◌, ◌⊎◌, inl, inr, Option, some, arith, ◌==◌, ◌!=◌,
  if◌then◌else◌, Text, Bool-cases,
}
use art_hook.Machine.{Mem, Res, pure, null, store64}
use art_hook.Machine.Laws.{
  Ensures, returns, bind, branch, weaken, both, Keeps, Keeps-load_le, at_return, forget,
}
use art_hook.Machine.Stores.{
  peek, Same, Outside, Spares, Spares-bind, Spares-Keeps, Spares-store_le, peek-store_le,
  peek-load_le, peek-Same,
}
use art_hook.Maps.Protect.{Kernel, get_addr_protect, set_addr_protect}
use art_hook.Elf.Replace.{swap_function, unlock, protect, replace_function}

-- `mprotect` changes no byte.
pub record KeepsBytes (k : Kernel) : Type 0 where
  pub bytes :
      (addr len prot : ℕ) (m : Mem) (x : ℕ) → (k.mprotect addr len prot m).1.cell x ≡ m.cell x

-- The bytes that the call may write are those of the slot at `addr`, and of `old_func` if it is
-- given.
abbrev pub Elsewhere : (addr old_func : ℕ) → ℕ → Type 0
Elsewhere addr old_func x = Outside 8 addr x × ((old_func ≡ null) ⊎ Outside 8 old_func x)

module _ (k : Kernel) (laws : KeepsBytes k) where
  pub set_addr_protect-Same :
      (addr prot : ℕ) (m : Mem)
      → Ensures (λ r n. Same (λ x. Unit {0}) m n) (λ n. ⊥) (set_addr_protect k addr prot m)
  unfolding set_addr_protect
  set_addr_protect-Same addr prot m = returns (λ x _. laws.bytes _ _ prot m x)

  pub Keeps-get_addr_protect :
      (addr : ℕ) (pathname : Option Text) (m : Mem) → Keeps m (get_addr_protect k addr pathname m)
  unfolding get_addr_protect
  Keeps-get_addr_protect addr pathname m = returns refl

  Spares-set_addr_protect :
      (S : ℕ → Type 0) (addr prot : ℕ) (m : Mem) → Spares S m (set_addr_protect k addr prot m)
  Spares-set_addr_protect S addr prot m =
      weaken (set_addr_protect-Same addr prot m) (λ r n same x _. same x tt) (λ n f. absurd f)

  module _ (addr new_func old_func : ℕ) where
    abbrev Spared : ℕ → Type 0
    Spared = Elsewhere addr old_func

    Spares-swap_function :
        (old_prot : ℕ) (m : Mem)
        → Spares Spared m (swap_function k addr new_func old_func old_prot m)
    unfolding swap_function
    Spares-swap_function old_prot m =
        Spares-bind Spared m _ _ (Spares-Keeps Spared m _ (Keeps-load_le 8 addr m)) λ old_addr m1.
          Spares-bind Spared m1 _ _
            (branch (old_func != null) (store64 old_func old_addr) (pure tt) m1
              (λ given. Spares-store_le Spared 8 old_func old_addr m1 (λ x s. ground (arith, s.1)))
              (λ _. returns (λ x s. refl)))
            λ _ m2.
              Spares-bind Spared m2 _ _ (Spares-store_le Spared 8 addr new_func m2 (λ x s. s.0))
                λ _ m3.
                  Spares-bind Spared m3 _ _
                    (branch _ (set_addr_protect k addr old_prot) (pure 0) m3
                      (λ _. Spares-set_addr_protect Spared addr old_prot m3)
                      (λ _. returns (λ x s. refl)))
                    (λ _ m4. returns (λ x s. refl))

    Spares-unlock :
        (old_prot : ℕ) (m : Mem) → Spares Spared m (unlock k addr new_func old_func old_prot m)
    unfolding unlock
    Spares-unlock old_prot m =
        Spares-bind Spared m _ _
          (branch _ (set_addr_protect k addr 3) (pure 0) m
            (λ _. Spares-set_addr_protect Spared addr 3 m) (λ _. returns (λ x s. refl)))
          λ r m1.
            branch (r == 0) (swap_function k addr new_func old_func old_prot) (pure r) m1
              (λ _. Spares-swap_function old_prot m1) (λ _. returns (λ x s. refl))

    pub Spares-replace_function :
        (pathname : Option Text) (m : Mem)
        → Spares Spared m (replace_function k pathname addr new_func old_func m)
    unfolding replace_function protect
    Spares-replace_function pathname m =
        Spares-bind Spared m _ _ (Spares-Keeps Spared m _ (Keeps-load_le 8 addr m)) λ now m1.
          branch (now == new_func) (pure 0) (protect k pathname addr new_func old_func) m1
            (λ _. returns (λ x s. refl))
            (λ _.
              Spares-bind Spared m1 _ _
                (Spares-Keeps Spared m1 _ (Keeps-get_addr_protect addr pathname m1))
                λ out m2.
                  branch (out.0 == 0) (unlock k addr new_func old_func out.1) (pure out.0) m2
                    (λ _. Spares-unlock out.1 m2) (λ _. returns (λ x s. refl)))

    -- However the call ends, by a code or by SIGSEGV half way, a byte is as before unless it is one of
    -- the eight of the slot or one of the eight of an `old_func` that was given. It is supposed that
    -- `mprotect` changes no byte.
    pub replace_function-Elsewhere :
        (pathname : Option Text) (m : Mem) (x : ℕ)
        → Elsewhere addr old_func x
        → Ensures
            (λ r n. n.cell x ≡ m.cell x)
            (λ n. n.cell x ≡ m.cell x)
            (replace_function k pathname addr new_func old_func m)
    replace_function-Elsewhere pathname m x out =
        weaken (Spares-replace_function pathname m) (λ r n same. same x out) (λ n same. same x out)

  -- The slot and the place for the old function do not overlap.
  abbrev pub Apart : (addr old_func : ℕ) → Type 0
  Apart addr old_func = (old_func ≡ null) ⊎ ((old_func + 8 ≤ addr) ⊎ (addr + 8 ≤ old_func))

  module _ (addr new_func old_func v : ℕ) (fits : new_func < 2 ^ 64) (old_fits : v < 2 ^ 64)
      (apart : Apart addr old_func) where
    abbrev Saved : Mem → Type 0
    Saved m = (old_func ≡ null) ⊎ (peek 8 old_func m ≡ some v)

    -- The slot holds the new function, and the old one is saved where it was asked for.
    abbrev pub Swapped : Mem → Type 0
    Swapped m = (peek 8 addr m ≡ some new_func) × Saved m

    Swapped-Same : (m n : Mem) → Same (λ x. Unit {0}) m n → Swapped m → Swapped n
    Swapped-Same m n same h =
        let at_slot = peek-Same 8 addr m n (λ x _. same x tt) in
        let at_old = peek-Same 8 old_func m n (λ x _. same x tt) in
        ground (arith, at_slot, at_old, h)

    save-Saved :
        (m : Mem)
        → Ensures
            (λ _ n. Saved n)
            (λ n. Unit {0})
            ((if old_func != null then store64 old_func v else pure tt) m)
    save-Saved m =
        branch (old_func != null) (store64 old_func v) (pure tt) m
          (λ given. weaken (peek-store_le 8 old_func v m old_fits) (λ _ n e. inr e) (λ n f. f))
          (λ absent. returns (inl (ground arith)))

    install-Swapped :
        (m : Mem) → Saved m → Ensures (λ _ n. Swapped n) (λ n. Unit {0}) (store64 addr new_func m)
    install-Swapped m saved =
        weaken
          (both (peek-store_le 8 addr new_func m fits) (
            Spares-store_le (λ x. (old_func ≢ null) × (old_func ≤ x) × (x < old_func + 8)) 8 addr
              new_func m (λ x s. ground (arith, apart))))
          (λ _ n h. (h.0, keep n h.1 saved)) (λ n f. tt)
      where
        keep :
            (n : Mem)
            → Same (λ x. (old_func ≢ null) × (old_func ≤ x) × (x < old_func + 8)) m n
            → Saved m
            → Saved n
        keep n same (inl e) = inl e
        keep n same (inr e) = elim (Bool-cases (old_func == null)) [
          | inl absent ↦ inl (ground arith)
          | inr given ↦ inr (peek-Same 8 old_func m n (λ x s. same x (ground arith, s.0, s.1)) ∙ e)
        ]

    swap_function-Swapped :
        (old_prot : ℕ) (m : Mem)
        → peek 8 addr m ≡ some v
        → Ensures
            (λ r n. (r ≡ 0) × Swapped n)
            (λ n. Unit {0})
            (swap_function k addr new_func old_func old_prot m)
    unfolding swap_function
    swap_function-Swapped old_prot m e =
        bind (weaken (peek-load_le 8 addr m) (λ w n h. h) (λ n f. tt)) λ w m1 h.
          let same : w ≡ v = ground arith in
          rw same (
            bind (save-Saved m1) λ _ m2 saved. bind (install-Swapped m2 saved) λ _ m3 swapped.
              bind
                (branch _ (set_addr_protect k addr old_prot) (pure 0) m3
                  (λ _.
                    weaken (set_addr_protect-Same addr old_prot m3)
                      (λ r n s. Swapped-Same m3 n s swapped) (λ n f. tt))
                  (λ _. returns swapped))
                (λ r m4 s. returns (refl, s)))

    -- What a call that returns `r` from memory `m` has done.
    abbrev pub Outcome : Mem → ℕ → Mem → Type 0
    Outcome m r n =
        ((r ≡ 0) × (Swapped n ⊎ ((v ≡ new_func) × (n ≡ m)))) ⊎ ((r ≢ 0) × Same (λ x. Unit {0}) m n)

    unlock-Outcome :
        (old_prot : ℕ) (m : Mem)
        → peek 8 addr m ≡ some v
        → Ensures (Outcome m) (λ n. Unit {0}) (unlock k addr new_func old_func old_prot m)
    unfolding unlock
    unlock-Outcome old_prot m e =
        bind
          (branch _ (set_addr_protect k addr 3) (pure 0) m
            (λ _. weaken (set_addr_protect-Same addr 3 m) (λ r n s. s) (λ n f. tt))
            (λ _. returns (λ x _. refl)))
          λ r m1 same.
            branch (r == 0) (swap_function k addr new_func old_func old_prot) (pure r) m1
              (λ _.
                weaken
                  (swap_function-Swapped old_prot m1 (peek-Same 8 addr m m1 (λ x _. same x tt) ∙ e))
                  (λ r n h. inl (h.0, inl h.1)) (λ n f. f))
              (λ failed. returns (inr (ground arith, same)))

    protect-Outcome :
        (pathname : Option Text) (m : Mem)
        → peek 8 addr m ≡ some v
        → Ensures (Outcome m) (λ n. Unit {0}) (protect k pathname addr new_func old_func m)
    unfolding protect
    protect-Outcome pathname m e = bind (forget (Keeps-get_addr_protect addr pathname m)) step
      where
        step :
            (out : ℕ × ℕ) (m1 : Mem)
            → m1 ≡ m
            → Ensures
                (Outcome m)
                (λ n. Unit {0})
                ((if out.0 == 0 then unlock k addr new_func old_func out.1 else pure out.0) m1)
        step out m1 same =
            branch (out.0 == 0) (unlock k addr new_func old_func out.1) (pure out.0) m1
              (λ _. rw same (unlock-Outcome out.1 m e))
              (λ failed. returns (inr (ground arith, λ x _. rw same)))

    -- Where the slot is mapped and does not overlap the place for the old function, a call that
    -- returns 0 has put the new function into the slot and saved the old one where it was asked
    -- for, or the slot held the new function already and nothing has changed. A call that returns
    -- an error code has changed no byte. It is supposed that the functions are 64-bit addresses
    -- and that `mprotect` changes no byte.
    pub replace_function-Outcome :
        (pathname : Option Text) (m n : Mem) (r : ℕ)
        → peek 8 addr m ≡ some v
        → replace_function k pathname addr new_func old_func m ≡ Res.done r n
        → Outcome m r n
    unfolding replace_function
    replace_function-Outcome pathname m n r e run =
        at_return (rw run at (bind (forget (peek-load_le 8 addr m)) step))
      where
        step :
            (w : ℕ) (m1 : Mem)
            → (m1 ≡ m) × (peek 8 addr m ≡ some w)
            → Ensures
                (Outcome m)
                (λ n. Unit {0})
                ((if w == new_func then pure 0 else protect k pathname addr new_func old_func) m1)
        step w m1 h =
            branch (w == new_func) (pure 0) (protect k pathname addr new_func old_func) m1
              (λ hit. returns (inl (refl, inr (ground arith, h.0))))
              (λ _. rw h.0 (protect-Outcome pathname m e))

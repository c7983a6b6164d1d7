-- ===== src/Elf/Hook/Ends.antt =====
-- The loops of `xh_elf_hook` over .rel(a).plt and .rel(a).dyn end within the rounds they are given.
use art_hook.Base.{
  ℕ, zero, suc, ◌+◌, ◌-◌, ◌<◌, ◌≤◌, ◌^◌, ◌≡◌, ◌≢◌, ◌⊎◌, inl, inr, Bool, true, false, Option, none,
  some, arith, ◌&&◌, ◌==◌, ◌!=◌, ltb, if◌then◌else◌, Text,
}
use art_hook.Machine.{u32, u64, null, Mem, Res, pure, store64, ◌>>=◌}
use art_hook.Machine.Ends.{
  Ends, returns, Ends→≢, Ends-bind, Ends-branch, Ends-load_le, Ends-store_le,
}
use art_hook.Maps.Protect.{Kernel, get_addr_protect, set_addr_protect}
use art_hook.Reloc.Plain.{PlainIterator, plain_init, plain_next}
use art_hook.Elf.Image.{Elf, err_format}
use art_hook.Elf.Replace.{swap_function, unlock, protect, replace_function}
use art_hook.Elf.Hook.{
  RelCommon, at, unpacked, read_reloc, targets, find_and_replace_func, plain_loop, hook_plain,
}

module _ (k : Kernel) where
  Ends-set_addr_protect : (addr prot : ℕ) (m : Mem) → Ends (set_addr_protect k addr prot m)
  unfolding set_addr_protect
  Ends-set_addr_protect addr prot m = returns

  Ends-get_addr_protect :
      (addr : ℕ) (pathname : Option Text) (m : Mem) → Ends (get_addr_protect k addr pathname m)
  unfolding get_addr_protect
  Ends-get_addr_protect addr pathname m = returns

  Ends-swap_function :
      (addr new_func old_func old_prot : ℕ) (m : Mem)
      → Ends (swap_function k addr new_func old_func old_prot m)
  unfolding swap_function
  Ends-swap_function addr new_func old_func old_prot m =
      Ends-bind (Ends-load_le 8 addr m) λ old_addr m1.
        Ends-bind
          (Ends-branch (old_func != null) (store64 old_func old_addr) (pure tt) m1
            (Ends-store_le 8 old_func old_addr m1) returns)
          λ _ m2. Ends-bind (Ends-store_le 8 addr new_func m2) λ _ m3.
            Ends-bind
              (Ends-branch _ (set_addr_protect k addr old_prot) (pure 0) m3
                (Ends-set_addr_protect addr old_prot m3) returns)
              (λ _ m4. returns)

  Ends-unlock :
      (addr new_func old_func old_prot : ℕ) (m : Mem)
      → Ends (unlock k addr new_func old_func old_prot m)
  unfolding unlock
  Ends-unlock addr new_func old_func old_prot m =
      Ends-bind
        (Ends-branch _ (set_addr_protect k addr 3) (pure 0) m (Ends-set_addr_protect addr 3 m)
          returns)
        (λ r m1.
          Ends-branch (r == 0) (swap_function k addr new_func old_func old_prot) (pure r) m1
            (Ends-swap_function addr new_func old_func old_prot m1) returns)

  pub Ends-replace_function :
      (pathname : Option Text) (addr new_func old_func : ℕ) (m : Mem)
      → Ends (replace_function k pathname addr new_func old_func m)
  unfolding replace_function protect
  Ends-replace_function pathname addr new_func old_func m =
      Ends-bind (Ends-load_le 8 addr m) λ now m1.
        Ends-branch (now == new_func) (pure 0) _ m1 returns (
          Ends-bind (Ends-get_addr_protect addr pathname m1) λ e m2.
            Ends-branch (e.0 == 0) (unlock k addr new_func old_func e.1) (pure e.0) m2
              (Ends-unlock addr new_func old_func e.1 m2) returns)

Ends-read_reloc : (r : RelCommon) (m : Mem) → Ends (read_reloc r m)
unfolding read_reloc
Ends-read_reloc (at p) m =
    Ends-bind (Ends-load_le 8 (p + 8) m) (λ i m1. Ends-bind (Ends-load_le 8 p m1) (λ o m2. returns))
Ends-read_reloc (unpacked e) m = returns

-- An entry is taken before the end only, and moves the iterator on.
plain_next-advances :
    (iter : PlainIterator)
    → iter.end + 24 ≤ 2 ^ 64
    → ((plain_next iter).0 ≡ none)
      ⊎ ((iter.cur < iter.end)
          × (((plain_next iter).0 ≡ some iter.cur)
              × (((plain_next iter).1.end ≡ iter.end) × (iter.cur < (plain_next iter).1.cur))))
unfolding plain_next
plain_next-advances iter low = ground arith

module _ (k : Kernel) (self : Elf) (new_func old_func symidx : ℕ) where
  Ends-place :
      (addr : ℕ) (m : Mem)
      → Ends {A = ℕ × Bool} (
          (if ltb addr self.base_addr
              then pure (err_format, true)
              else (do r ← replace_function k self.pathname addr new_func old_func; pure (r, true)))
            m)
  Ends-place addr m = Ends-branch (ltb addr self.base_addr) (pure (err_format, true)) _ m returns (
      Ends-bind {k = λ r. pure (r, true)}
        (Ends-replace_function k self.pathname addr new_func old_func m) (λ r n. returns))

  pub Ends-find_and_replace_func :
      (is_plt : Bool) (rel : RelCommon) (m : Mem)
      → Ends (find_and_replace_func k self new_func old_func symidx is_plt rel m)
  unfolding find_and_replace_func
  Ends-find_and_replace_func is_plt rel m = Ends-bind (Ends-read_reloc rel m) λ e n.
      Ends-branch (targets is_plt symidx e.0) _ (pure (0, false)) n
        (Ends-place (u64 (self.bias_addr + e.1)) n) returns

  Ends-plain_loop :
      (rounds : ℕ) (is_plt : Bool) (iter : PlainIterator) (m : Mem)
      → iter.end + 24 ≤ 2 ^ 64
      → iter.end - iter.cur < rounds
      → Ends (plain_loop k self new_func old_func symidx rounds is_plt iter m)
  unfolding plain_loop
  Ends-plain_loop zero is_plt iter m low h = absurd (omega arith)
  Ends-plain_loop (suc rounds) is_plt iter m low h = elim (plain_next-advances iter low) [
    | inl over ↦ rw (over, plain_loop) returns
    | inr step ↦
        rw (step.1.0, plain_loop)
          (Ends-bind (Ends-find_and_replace_func is_plt (at iter.cur) m) λ f n.
            Ends-branch (f.0 != 0) (pure f.0) _ n returns (
              Ends-branch (is_plt && f.1) (pure 0) _ n returns (
                Ends-plain_loop rounds is_plt (plain_next iter).1 n (omega (arith, low, step))
                  (omega (arith, step)))))
  ]

  -- The loop over a plain table ends if the end of the table, modulo 2 ^ 64, is followed by 24 bytes
  -- more of the address space, so that no entry wraps around: one round for each byte of the size,
  -- and one more, are enough.
  pub hook_plain-ends :
      (is_plt : Bool) (table table_sz : ℕ) (m : Mem)
      → u64 (table + u32 table_sz) + 24 ≤ 2 ^ 64
      → hook_plain k self new_func old_func symidx is_plt table table_sz m ≢ Res.out_of_fuel
  unfolding hook_plain plain_init
  hook_plain-ends is_plt table table_sz m low = Ends→≢ _ (
      Ends-branch (table == 0) (pure 0) _ m returns (
        Ends-plain_loop (suc (u32 table_sz)) is_plt (plain_init table table_sz self.is_use_rela) m
          low (ground arith)))

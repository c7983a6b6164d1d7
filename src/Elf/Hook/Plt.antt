-- ===== src/Elf/Hook/Plt.antt =====
-- What the loop of `xh_elf_hook` over .rel(a).plt achieves when it returns 0.
use art_hook.Base.{
  ℕ, zero, suc, ◌+◌, ◌^◌, ◌≤◌, ◌<◌, ◌≡◌, ◌≢◌, refl, ◌∙◌, ◌⊎◌, inl, inr, Bool, true, false, Option,
  none, some, arith, ◌&&◌, ◌==◌, ◌!=◌, ltb, if◌then◌else◌, Text, bit_or,
}
use art_hook.Machine.{prot_read, prot_write, u32, u64, null, Mem, Res, pure, load64, store64, ◌>>=◌}
use art_hook.Machine.Laws.{
  Ensures, returns, faults, undefined, out_of_fuel, bind, branch, weaken, forget, at_return,
}
use art_hook.Machine.Stores.{peek, peek-load_le, peek-store_le, peek-Same}
use art_hook.Maps.Protect.{Kernel, get_addr_protect, set_addr_protect}
use art_hook.Reloc.Plain.{PlainIterator, plain_init, plain_next, entry_size}
use art_hook.Elf.Image.{Elf, err_format}
use art_hook.Elf.Replace.{swap_function, unlock, protect, replace_function}
use art_hook.Elf.Replace.Laws.{KeepsBytes, set_addr_protect-Same}
use art_hook.Elf.Hook.{at, read_reloc, targets, find_and_replace_func, plain_loop, hook_plain}

-- PROT_READ | PROT_WRITE.
abbrev need_prot : ℕ
need_prot = bit_or prot_read prot_write

abbrev Quiet : {A : Type 0} → (A → Mem → Type 0) → Res A → Type 0
Quiet {A} P r = Ensures {A = A} P (λ n. Unit {0}) r

any : {A : Type 0} (r : Res A) → Quiet (λ _ _. Unit {0}) r
any (Res.done a m) = returns tt
any (Res.segv m) = faults tt
any Res.undefined = undefined
any Res.out_of_fuel = out_of_fuel

module _ (k : Kernel) (laws : KeepsBytes k) (new_func old_func : ℕ) (fits : new_func < 2 ^ 64) where
  abbrev Holds : (addr r : ℕ) → Mem → Type 0
  Holds addr r n = r ≡ 0 → peek 8 addr n ≡ some new_func

  swap_function-Holds :
      (addr old_prot : ℕ) (m : Mem)
      → Quiet (Holds addr) (swap_function k addr new_func old_func old_prot m)
  unfolding swap_function
  swap_function-Holds addr old_prot m = bind (any (load64 addr m)) λ old_addr m1 _.
      bind (any ((if old_func != null then store64 old_func old_addr else pure tt) m1)) λ _ m2 _.
        bind (peek-store_le 8 addr new_func m2 fits) λ _ m3 held.
          bind {k = λ _. pure 0}
            (branch (old_prot != need_prot) (set_addr_protect k addr old_prot) (pure 0) m3
              (λ _.
                weaken (set_addr_protect-Same k laws addr old_prot m3)
                  (λ r n same. peek-Same 8 addr m3 n (λ x _. same x tt) ∙ held) (λ n f. tt))
              (λ _. returns held))
            (λ r n h. returns (λ _. h))

  unlock-Holds :
      (addr old_prot : ℕ) (m : Mem)
      → Quiet (Holds addr) (unlock k addr new_func old_func old_prot m)
  unfolding unlock
  unlock-Holds addr old_prot m =
      bind (any ((if old_prot != need_prot then set_addr_protect k addr need_prot else pure 0) m))
        λ r m1 _.
          branch (r == 0) (swap_function k addr new_func old_func old_prot) (pure r) m1
            (λ _. swap_function-Holds addr old_prot m1)
            (λ failed. returns (λ zero_code. ground arith))

  replace_function-Holds :
      (pathname : Option Text) (addr : ℕ) (m : Mem)
      → Quiet (Holds addr) (replace_function k pathname addr new_func old_func m)
  unfolding replace_function protect
  replace_function-Holds pathname addr m = bind (forget (peek-load_le 8 addr m)) λ now m1 h.
      branch (now == new_func) (pure 0) (protect k pathname addr new_func old_func) m1
        (λ hit. returns (λ _. ground (arith, h)))
        (λ _. bind (any (get_addr_protect k addr pathname m1)) λ e m2 _.
          branch (e.0 == 0) (unlock k addr new_func old_func e.1) (pure e.0) m2
            (λ _. unlock-Holds addr e.1 m2) (λ failed. returns (λ zero_code. ground arith)))

-- The entry at `p` has these `r_info` and `r_offset`.
abbrev pub Entry : ℕ → Mem → (info offset : ℕ) → Type 0
Entry p m info offset = (peek 8 (p + 8) m ≡ some info) × (peek 8 p m ≡ some offset)

module _ (k : Kernel) (laws : KeepsBytes k) (self : Elf) (new_func old_func symidx : ℕ)
    (fits : new_func < 2 ^ 64) where
  -- The entries from `p` on, read in memory `m` before any change: up to the end none is for the
  -- symbol, and nothing has changed; or the first that is has its slot patched in memory `n`.
  pub data Plt (m n : Mem) (end : ℕ) : ℕ → Type 0 where
    ended : {p : ℕ} → end ≤ p → n ≡ m → Plt m n end p
    passed :
        {p : ℕ} (info offset : ℕ)
        → p < end
        → Entry p m info offset
        → targets true symidx info ≡ false
        → Plt m n end (u64 (p + entry_size self.is_use_rela))
        → Plt m n end p
    patched :
        {p : ℕ} (info offset : ℕ)
        → p < end
        → Entry p m info offset
        → targets true symidx info ≡ true
        → self.base_addr ≤ u64 (self.bias_addr + offset)
        → peek 8 (u64 (self.bias_addr + offset)) n ≡ some new_func
        → Plt m n end p

  -- What one entry gives.
  abbrev Seen : (p : ℕ) (m : Mem) → ℕ × Bool → Mem → Type 0
  Seen p m out n =
      (info : ℕ) × ((offset : ℕ) × (Entry p m info offset
          × (((out.1 ≡ false) × ((targets true symidx info ≡ false) × (n ≡ m)))
              ⊎ ((targets true symidx info ≡ true)
                  × ((out.1 ≡ true)
                      × (out.0 ≡ 0
                          → (self.base_addr ≤ u64 (self.bias_addr + offset))
                            × (peek 8 (u64 (self.bias_addr + offset)) n ≡ some new_func)))))))

  reads-Entry : (p : ℕ) (m : Mem) → Quiet (λ e n. (n ≡ m) × Entry p m e.0 e.1) (read_reloc (at p) m)
  unfolding read_reloc
  reads-Entry p m = bind (forget (peek-load_le 8 (p + 8) m)) λ info n h.
      rw h.0 (bind (forget (peek-load_le 8 p m)) λ offset l h'. returns (h'.0, (h.1, h'.1)))

  Seen-place :
      (addr : ℕ) (m : Mem)
      → Quiet {A = ℕ × Bool}
          (λ out n.
            (out.1 ≡ true)
            × (out.0 ≡ 0 → (self.base_addr ≤ addr) × (peek 8 addr n ≡ some new_func)))
          ((if ltb addr self.base_addr
              then pure (err_format, true)
              else (do r ← replace_function k self.pathname addr new_func old_func; pure (r, true)))
            m)
  Seen-place addr m =
      branch (ltb addr self.base_addr) (pure (err_format, true)) _ m
        (λ _. returns (refl, λ e. absurd (omega arith)))
        λ inside.
          bind {k = λ r. pure (r, true)}
            (replace_function-Holds k laws new_func old_func fits self.pathname addr m)
            (λ r n held. returns (refl, λ e. (ground arith, held e)))

  Seen-find_and_replace_func :
      (p : ℕ) (m : Mem)
      → Quiet (Seen p m) (find_and_replace_func k self new_func old_func symidx true (at p) m)
  unfolding find_and_replace_func
  Seen-find_and_replace_func p m = bind (reads-Entry p m) λ e n h. rw h.0 (
      branch (targets true symidx e.0) _ (pure (0, false)) m
        (λ hit.
          weaken (Seen-place (u64 (self.bias_addr + e.1)) m)
            (λ out l held. (e.0, (e.1, (h.1, inr (hit, held))))) (λ l f. f))
        (λ other. returns (e.0, (e.1, (h.1, inl (refl, (other, refl)))))))

  abbrev after : PlainIterator → PlainIterator
  after iter = record iter { cur = u64 (iter.cur + entry_size iter.is_use_rela) }

  plain_next-cases :
      (iter : PlainIterator)
      → ((iter.end ≤ iter.cur) × ((plain_next iter).0 ≡ none))
        ⊎ ((iter.cur < iter.end)
            × (((plain_next iter).0 ≡ some iter.cur) × ((plain_next iter).1 ≡ after iter)))
  unfolding plain_next
  plain_next-cases iter = ground arith

  abbrev Patches : PlainIterator → Mem → ℕ → Mem → Type 0
  Patches iter m r n = r ≡ 0 → Plt m n iter.end iter.cur

  -- The end of a round: the loop stops at the entry, or has passed it.
  hit_patches :
      (iter : PlainIterator) (m n : Mem) (f : ℕ × Bool)
      → iter.cur < iter.end
      → Seen iter.cur m f n
      → f.0 ≡ 0
      → f.1 ≡ true
      → Plt m n iter.end iter.cur
  hit_patches iter m n f lt (info, (offset, (entry, inl (passed_by, _)))) e hit =
      absurd (ground arith)
  hit_patches iter m n f lt (info, (offset, (entry, inr (target, (_, held))))) e hit =
      patched info offset lt entry target (held e).0 (held e).1

  miss_passes :
      (iter : PlainIterator) (m n l : Mem) (f : ℕ × Bool)
      → iter.is_use_rela ≡ self.is_use_rela
      → iter.cur < iter.end
      → Seen iter.cur m f n
      → f.1 ≡ false
      → Plt n l iter.end (u64 (iter.cur + entry_size iter.is_use_rela))
      → Plt m l iter.end iter.cur
  miss_passes iter m n l f same lt (info, (offset, (entry, inl (_, (other, kept))))) miss rest =
      passed info offset lt entry other (rw (kept, same) at rest)
  miss_passes iter m n l f same lt (info, (offset, (entry, inr (_, (stopped, _))))) miss rest =
      absurd (ground arith)

  Patches-plain_loop :
      (rounds : ℕ) (iter : PlainIterator) (m : Mem)
      → iter.is_use_rela ≡ self.is_use_rela
      → Quiet (Patches iter m) (plain_loop k self new_func old_func symidx rounds true iter m)
  unfolding plain_loop
  Patches-plain_loop zero iter m same = out_of_fuel
  Patches-plain_loop (suc rounds) iter m same = elim (plain_next-cases iter) [
    | inl over ↦ rw (over.1, plain_loop) (returns (λ _. ended over.0 refl))
    | inr more ↦
        rw (more.1.0, plain_loop)
          (bind (Seen-find_and_replace_func iter.cur m) λ f n seen.
            branch (f.0 != 0) (pure f.0) _ n (λ failed. returns (λ e. absurd (ground arith)))
              λ fine.
                branch (true && f.1) (pure 0) _ n
                  (λ hit. returns (λ _. hit_patches iter m n f more.0 seen (ground arith) hit))
                  (λ miss.
                    weaken {P = Patches (after iter) n}
                      (rw more.1.1 (Patches-plain_loop rounds (after iter) n same))
                      (λ r l rest e. miss_passes iter m n l f same more.0 seen miss (rest e))
                      (λ l u. u)))
  ]

  pub hook_plain-Plt :
      (table table_sz : ℕ) (m n : Mem)
      → table ≢ 0
      → hook_plain k self new_func old_func symidx true table table_sz m ≡ Res.done 0 n
      → Plt m n (u64 (table + u32 table_sz)) table
  unfolding hook_plain plain_init
  hook_plain-Plt table table_sz m n given run = at_return (rw run at loops) refl
    where
      loops :
          Quiet
            (Patches (plain_init table table_sz self.is_use_rela) m)
            (hook_plain k self new_func old_func symidx true table table_sz m)
      loops =
          branch (table == 0) (pure 0) _ m (λ absent. absurd (ground arith))
            λ _.
              Patches-plain_loop (suc (u32 table_sz)) (plain_init table table_sz self.is_use_rela) m
                refl

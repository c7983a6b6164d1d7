-- ===== src/Reloc/Packed/Laws.antt =====
-- The packed iterator after an initialisation that failed, and what it leaves of memory.
use art_hook.Base.{
  ℕ, ◌+◌, ◌≤◌, ◌≡◌, ◌≢◌, refl, inl, inr, Bool, true, not, none, arith, Bool-cases, ◌&&◌, ◌==◌, leb,
}
use art_hook.Machine.{u64, Mem, Res, Cmd, pure}
use art_hook.Machine.Laws.{Ensures, returns, bind, branch, weaken, Keeps, Keeps-bind, at_return}
use art_hook.Reloc.Sleb128.{Decoder, Decoded, value, error, format}
use art_hook.Reloc.Sleb128.Laws.{Moved, Moves-decoder_next, decoder_next-at_end}
use art_hook.Reloc.Packed.{
  PackedIterator, decode, packed_zero, packed_init, read_group_addend, read_group_info,
  read_group_delta, read_group_fields, next_addend, next_info, next_offset, next_group, next_emit,
  packed_next, flagged, grouped_by_info, grouped_by_offset_delta, grouped_by_addend,
  group_has_addend,
}

-- What the decoded values are written to.
abbrev pub add_addend : ℕ → PackedIterator → PackedIterator
add_addend v s = record s { r_addend = u64 (s.r_addend + v) }

abbrev pub set_info : ℕ → PackedIterator → PackedIterator
set_info v s = record s { r_info = v }

abbrev pub set_delta : ℕ → PackedIterator → PackedIterator
set_delta v s = record s { group_r_offset_delta = v }

abbrev pub set_flags : ℕ → PackedIterator → PackedIterator
set_flags v s = record s { group_flags = v }

abbrev pub set_size : ℕ → PackedIterator → PackedIterator
set_size v s = record s { group_size = v }

abbrev pub add_offset : ℕ → PackedIterator → PackedIterator
add_offset v s = record s { r_offset = u64 (s.r_offset + v) }

abbrev pub set_count : ℕ → PackedIterator → PackedIterator
set_count v s = record s { relocation_count = v }

abbrev pub set_offset : ℕ → PackedIterator → PackedIterator
set_offset v s = record s { r_offset = v }

abbrev pub init_offset : PackedIterator → Cmd (ℕ × PackedIterator)
init_offset self = decode self set_offset (λ self. pure (0, self))

abbrev pub read_flags : PackedIterator → Cmd (ℕ × PackedIterator)
read_flags self = decode self set_flags read_group_delta

module _ (m : Mem) where
  Keeps-decode :
      (self : PackedIterator) (write : ℕ → PackedIterator → PackedIterator)
      (next : PackedIterator → Cmd (ℕ × PackedIterator))
      → ((s : PackedIterator) → Keeps m (next s m))
      → Keeps m (decode self write next m)
  unfolding decode
  Keeps-decode self write next h =
      bind (weaken (Moves-decoder_next self.decoder m) (λ x n p. p.0) (λ n f. f)) step
    where
      step :
          (d : Decoded) (n : Mem)
          → n ≡ m
          → Keeps m (
              (elim d as (λ _. Cmd (ℕ × PackedIterator)) [
                | value v dec ↦ next (write v (record self { decoder = dec }))
                | error r dec ↦ pure (r, record self { decoder = dec })
              ])
                n)
      step (value v dec) n e = rw e (h _)
      step (error r dec) n e = returns e

  Keeps-read_group_addend : (s : PackedIterator) → Keeps m (read_group_addend s m)
  unfolding read_group_addend
  Keeps-read_group_addend s =
      branch (flagged s group_has_addend && flagged s grouped_by_addend) _ _ m
        (λ _.
          branch (not s.is_use_rela) _ _ m (λ _. returns refl)
            (λ _.
              Keeps-decode s add_addend (λ t. pure (0, record t { relocation_group_index = 0 }))
                (λ t. returns refl)))
        (λ _. branch (flagged s group_has_addend) _ _ m (λ _. returns refl) (λ _. returns refl))

  Keeps-read_group_info : (s : PackedIterator) → Keeps m (read_group_info s m)
  unfolding read_group_info
  Keeps-read_group_info s =
      branch (flagged s grouped_by_info) _ _ m
        (λ _. Keeps-decode s set_info read_group_addend Keeps-read_group_addend)
        (λ _. Keeps-read_group_addend s)

  Keeps-read_group_delta : (s : PackedIterator) → Keeps m (read_group_delta s m)
  unfolding read_group_delta
  Keeps-read_group_delta s =
      branch (flagged s grouped_by_offset_delta) _ _ m
        (λ _. Keeps-decode s set_delta read_group_info Keeps-read_group_info)
        (λ _. Keeps-read_group_info s)

  Keeps-read_group_fields : (s : PackedIterator) → Keeps m (read_group_fields s m)
  unfolding read_group_fields
  Keeps-read_group_fields s =
      Keeps-decode s set_size read_flags
        (λ t. Keeps-decode t set_flags read_group_delta Keeps-read_group_delta)

  Keeps-next_addend : (s : PackedIterator) → Keeps m (next_addend s m)
  unfolding next_addend
  Keeps-next_addend s =
      branch (s.is_use_rela && (flagged s group_has_addend && not (flagged s grouped_by_addend))) _
        _ m (λ _. Keeps-decode s add_addend (λ t. pure (0, t)) (λ t. returns refl))
        (λ _. returns refl)

  Keeps-next_info : (s : PackedIterator) → Keeps m (next_info s m)
  unfolding next_info
  Keeps-next_info s =
      branch (flagged s grouped_by_info) _ _ m (λ _. Keeps-next_addend s)
        (λ _. Keeps-decode s set_info next_addend Keeps-next_addend)

  Keeps-next_offset : (s : PackedIterator) → Keeps m (next_offset s m)
  unfolding next_offset
  Keeps-next_offset s =
      branch (flagged s grouped_by_offset_delta) _ _ m
        (λ _. Keeps-next_info (add_offset s.group_r_offset_delta s))
        (λ _. Keeps-decode s add_offset next_info Keeps-next_info)

  Keeps-next_emit : (e : ℕ × PackedIterator) → Keeps m (next_emit e m)
  unfolding next_emit
  Keeps-next_emit (r, s) = branch (r == 0) _ _ m (λ _. returns refl) (λ _. returns refl)

  Keeps-next_group : (s : PackedIterator) → Keeps m (next_group s m)
  unfolding next_group
  Keeps-next_group s =
      branch (s.relocation_group_index == s.group_size) _ _ m (λ _. Keeps-read_group_fields s)
        (λ _. returns refl)

  pub Keeps-packed_next : (s : PackedIterator) → Keeps m (packed_next s m)
  unfolding packed_next
  Keeps-packed_next s =
      branch (leb s.relocation_count s.relocation_index) _ _ m (λ _. returns refl)
        (λ _. Keeps-bind m _ _ (Keeps-next_group s) λ g.
          branch (g.0 == 0) _ _ m (λ _. Keeps-bind m _ _ (Keeps-next_offset g.1) Keeps-next_emit)
            (λ _. returns refl))

  pub Keeps-packed_init :
      (rel rel_sz : ℕ) (is_use_rela : Bool) → Keeps m (packed_init rel rel_sz is_use_rela m)
  unfolding packed_init
  Keeps-packed_init rel rel_sz is_use_rela =
      Keeps-decode (packed_zero rel rel_sz is_use_rela) set_count init_offset
        (λ s. Keeps-decode s set_offset (λ t. pure (0, t)) (λ t. returns refl))

-- Nothing is left to decode, and the next call is to begin a group.
abbrev Spent : PackedIterator → Type 0
Spent s = (s.decoder.end ≤ s.decoder.cur) × (s.relocation_group_index ≡ s.group_size)

read_group_fields-Spent :
    (s : PackedIterator) (m : Mem) → Spent s → read_group_fields s m ≡ Res.done (format, s) m
unfolding read_group_fields decode
read_group_fields-Spent s m h = rw (decoder_next-at_end s.decoder m h.0)

next_group-Spent :
    (s : PackedIterator) (m : Mem) → Spent s → next_group s m ≡ Res.done (format, s) m
unfolding next_group
next_group-Spent s m h =
    let begins : (s.relocation_group_index == s.group_size) ≡ true = ground (arith, h.1) in
    rw begins (read_group_fields-Spent s m h)

packed_next-Spent :
    (s : PackedIterator) (m : Mem) → Spent s → packed_next s m ≡ Res.done (none, s) m
unfolding packed_next
packed_next-Spent s m h = elim (Bool-cases (leb s.relocation_count s.relocation_index)) [
  | inl over ↦ rw over
  | inr more ↦ rw (more, next_group-Spent s m h)
]

decode-Spent :
    (s : PackedIterator) (write : ℕ → PackedIterator → PackedIterator)
    (next : PackedIterator → Cmd (ℕ × PackedIterator)) (m : Mem)
    → s.relocation_group_index ≡ s.group_size
    → ((v : ℕ) (d : Decoder)
        → Ensures
            (λ x n. (n ≡ m) × (x.0 ≢ 0 → Spent x.1))
            (λ n. n ≡ m)
            (next (write v (record s { decoder = d })) m))
    → Ensures (λ x n. (n ≡ m) × (x.0 ≢ 0 → Spent x.1)) (λ n. n ≡ m) (decode s write next m)
unfolding decode
decode-Spent s write next m fresh h = bind (Moves-decoder_next s.decoder m) step
  where
    step :
        (d : Decoded) (n : Mem)
        → (n ≡ m) × Moved s.decoder d
        → Ensures
            (λ x n. (n ≡ m) × (x.0 ≢ 0 → Spent x.1))
            (λ n. n ≡ m)
            ((elim d as (λ _. Cmd (ℕ × PackedIterator)) [
              | value v dec ↦ next (write v (record s { decoder = dec }))
              | error r dec ↦ pure (r, record s { decoder = dec })
            ])
              n)
    step (value v dec) n e = rw e.0 (h v dec)
    step (error r dec) n e = returns (e.0, λ _. (e.1.1.1, fresh))

-- After an initialisation that failed the iterator gives no entry, whatever the count of entries that
-- was read.
pub packed_init-failed :
    (rel rel_sz r : ℕ) (is_use_rela : Bool) (self : PackedIterator) (m n : Mem)
    → packed_init rel rel_sz is_use_rela m ≡ Res.done (r, self) n
    → r ≢ 0
    → packed_next self n ≡ Res.done (none, self) n
unfolding packed_init packed_zero
packed_init-failed rel rel_sz r is_use_rela self m n run failed =
    packed_next-Spent self n ((at_return (rw run at inits)).1 failed)
  where
    inits :
        Ensures
          (λ x n. (n ≡ m) × (x.0 ≢ 0 → Spent x.1))
          (λ n. n ≡ m)
          (packed_init rel rel_sz is_use_rela m)
    inits = decode-Spent (packed_zero rel rel_sz is_use_rela) set_count init_offset m refl λ v d.
        decode-Spent (set_count v (record (packed_zero rel rel_sz is_use_rela) { decoder = d }))
          set_offset (λ self. pure (0, self)) m refl
          λ v d. returns (refl, λ absent. absurd (absent refl))

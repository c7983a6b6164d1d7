-- ===== src/Reloc/Packed/Ends.antt =====
-- `xh_elf_packed_reloc_iterator_next` of cpp/xhook/xh_elf.c ends, and counts the entries that it
-- hands out.
use art_hook.Base.{
  ℕ, zero, suc, ◌+◌, ◌-◌, ◌*◌, ◌^◌, ◌<◌, ◌≡◌, refl, ◌⊎◌, inl, inr, Bool, not, Option, none, arith,
  ◌&&◌, ◌==◌, ◌!=◌, leb, ltb, bit_and, bit_or,
}
use art_hook.Base.Digits.{bit_or_lt}
use art_hook.Machine.{u64, Mem, Res, Cmd, pure, undef}
use art_hook.Machine.Ends.{
  EndsWith, gives, stray, EndsWith-bind, EndsWith-branch, EndsWith-Ends, Ends-load8,
}
use art_hook.Reloc.Sleb128.{
  Decoder, Decoded, value, error, extend_sign, decode_loop, decoder_next, size,
}
use art_hook.Reloc.Packed.{
  PackedIterator, Rela, decode, packed_zero, packed_init, read_group_addend, read_group_info,
  read_group_delta, read_group_fields, next_addend, next_info, next_offset, next_group, next_emit,
  packed_next, flagged, grouped_by_info, grouped_by_offset_delta, grouped_by_addend,
  group_has_addend,
}
use art_hook.Reloc.Packed.Laws.{
  add_addend, set_info, set_delta, set_flags, set_size, add_offset, set_count, set_offset,
  init_offset, read_flags,
}

-- A value that is decoded fits a `size_t`.
abbrev Fits : Decoded → Type 0
Fits (value v d) = v < 2 ^ 64
Fits (error r d) = Unit {0}

extend_sign_fits : (byte shift v : ℕ) → v < 2 ^ 64 → extend_sign byte shift v < 2 ^ 64
unfolding extend_sign
extend_sign_fits byte shift v h =
    let filled = bit_or_lt 64 v (u64 (2 ^ 64 - 2 ^ shift)) h (omega arith) in ground (arith, filled)

decode_loop-Fits :
    (left cur end shift v : ℕ) (m : Mem)
    → v < 2 ^ 64
    → EndsWith Fits (decode_loop left cur end shift v m)
unfolding decode_loop
decode_loop-Fits zero cur end shift v m h = gives tt
decode_loop-Fits (suc left) cur end shift v m h =
    EndsWith-bind (EndsWith-Ends (Ends-load8 cur m)) λ byte m1 _.
      let v' = bit_or v (u64 (bit_and byte 127 * 2 ^ shift)) in
      let fits : v' < 2 ^ 64 = bit_or_lt 64 v _ h (omega arith) in
      EndsWith-branch (ltb shift size) _ undef m1
        (λ _.
          EndsWith-branch (bit_and byte 128 != 0) _ _ m1
            (λ _. decode_loop-Fits left (cur + 1) end (shift + 7) v' m1 fits)
            (λ _. gives (extend_sign_fits byte (shift + 7) v' fits)))
        (λ _. stray)

decode-Fits :
    {P : ℕ × PackedIterator → Type 0} (self : PackedIterator)
    (write : ℕ → PackedIterator → PackedIterator) (next : PackedIterator → Cmd (ℕ × PackedIterator))
    (m : Mem)
    → ((r : ℕ) (d : Decoder) → P (r, record self { decoder = d }))
    → ((v : ℕ) (d : Decoder) (n : Mem)
        → v < 2 ^ 64
        → EndsWith P (next (write v (record self { decoder = d })) n))
    → EndsWith P (decode self write next m)
unfolding decode decoder_next
decode-Fits {P} self write next m on_error on_value =
    EndsWith-bind (decode_loop-Fits (self.decoder.end - self.decoder.cur) _ _ 0 0 m (omega arith))
      step
  where
    step :
        (d : Decoded) (n : Mem)
        → Fits d
        → EndsWith P (
            (elim d as (λ _. Cmd (ℕ × PackedIterator)) [
              | value v dec ↦ next (write v (record self { decoder = dec }))
              | error r dec ↦ pure (r, record self { decoder = dec })
            ])
              n)
    step (value v dec) n h = on_value v dec n h
    step (error r dec) n h = gives (on_error r dec)

-- The count of entries and the index of the next one, which the decoding leaves as they are.
module _ (count index : ℕ) where
  abbrev At : PackedIterator → Type 0
  At s = (s.relocation_count ≡ count) × (s.relocation_index ≡ index)

  abbrev Stays : Res (ℕ × PackedIterator) → Type 0
  Stays r = EndsWith (λ x. At x.1) r

  decode-At :
      (s : PackedIterator) (write : ℕ → PackedIterator → PackedIterator)
      (next : PackedIterator → Cmd (ℕ × PackedIterator)) (m : Mem)
      → At s
      → ((v : ℕ) (t : PackedIterator) → At t → At (write v t))
      → ((t : PackedIterator) (n : Mem) → At t → Stays (next t n))
      → Stays (decode s write next m)
  decode-At s write next m h keeps rest =
      decode-Fits s write next m (λ r d. h)
        (λ v d n f.
          rest (write v (record s { decoder = d })) n (keeps v (record s { decoder = d }) h))

  read_group_addend-At : (s : PackedIterator) (m : Mem) → At s → Stays (read_group_addend s m)
  unfolding read_group_addend
  read_group_addend-At s m h =
      EndsWith-branch (flagged s group_has_addend && flagged s grouped_by_addend) _ _ m
        (λ _.
          EndsWith-branch (not s.is_use_rela) _ _ m (λ _. gives h)
            (λ _.
              decode-At s add_addend (λ t. pure (0, record t { relocation_group_index = 0 })) m h
                (λ v t k. k) (λ t n k. gives k)))
        (λ _. EndsWith-branch (flagged s group_has_addend) _ _ m (λ _. gives h) (λ _. gives h))

  read_group_info-At : (s : PackedIterator) (m : Mem) → At s → Stays (read_group_info s m)
  unfolding read_group_info
  read_group_info-At s m h =
      EndsWith-branch (flagged s grouped_by_info) _ _ m
        (λ _. decode-At s set_info read_group_addend m h (λ v t k. k) read_group_addend-At)
        (λ _. read_group_addend-At s m h)

  read_group_delta-At : (s : PackedIterator) (m : Mem) → At s → Stays (read_group_delta s m)
  unfolding read_group_delta
  read_group_delta-At s m h =
      EndsWith-branch (flagged s grouped_by_offset_delta) _ _ m
        (λ _. decode-At s set_delta read_group_info m h (λ v t k. k) read_group_info-At)
        (λ _. read_group_info-At s m h)

  read_group_fields-At : (s : PackedIterator) (m : Mem) → At s → Stays (read_group_fields s m)
  unfolding read_group_fields
  read_group_fields-At s m h =
      decode-At s set_size read_flags m h (λ v t k. k)
        (λ t n k. decode-At t set_flags read_group_delta n k (λ v u l. l) read_group_delta-At)

  next_addend-At : (s : PackedIterator) (m : Mem) → At s → Stays (next_addend s m)
  unfolding next_addend
  next_addend-At s m h =
      EndsWith-branch
        (s.is_use_rela && (flagged s group_has_addend && not (flagged s grouped_by_addend))) _ _ m
        (λ _. decode-At s add_addend (λ t. pure (0, t)) m h (λ v t k. k) (λ t n k. gives k))
        (λ _. gives h)

  next_info-At : (s : PackedIterator) (m : Mem) → At s → Stays (next_info s m)
  unfolding next_info
  next_info-At s m h =
      EndsWith-branch (flagged s grouped_by_info) _ _ m (λ _. next_addend-At s m h)
        (λ _. decode-At s set_info next_addend m h (λ v t k. k) next_addend-At)

  next_offset-At : (s : PackedIterator) (m : Mem) → At s → Stays (next_offset s m)
  unfolding next_offset
  next_offset-At s m h =
      EndsWith-branch (flagged s grouped_by_offset_delta) _ _ m
        (λ _. next_info-At (add_offset s.group_r_offset_delta s) m h)
        (λ _. decode-At s add_offset next_info m h (λ v t k. k) next_info-At)

  next_group-At : (s : PackedIterator) (m : Mem) → At s → Stays (next_group s m)
  unfolding next_group
  next_group-At s m h =
      EndsWith-branch (s.relocation_group_index == s.group_size) _ _ m
        (λ _. read_group_fields-At s m h) (λ _. gives h)

-- What a call gives: no entry, or one that is counted.
abbrev pub Counted : PackedIterator → Option Rela × PackedIterator → Type 0
Counted s x =
    (x.0 ≡ none)
    ⊎ ((s.relocation_index < s.relocation_count)
        × (x.1.relocation_count ≡ s.relocation_count)
        × (x.1.relocation_index ≡ s.relocation_index + 1))

next_emit-Counted :
    (s : PackedIterator) (e : ℕ × PackedIterator) (m : Mem)
    → s.relocation_count < 2 ^ 64
    → s.relocation_index < s.relocation_count
    → At s.relocation_count s.relocation_index e.1
    → EndsWith (Counted s) (next_emit e m)
unfolding next_emit
next_emit-Counted s (r, t) m fits more h =
    EndsWith-branch (r == 0) _ _ m (λ _. gives (inr (more, h.0, ground (arith, h.1))))
      (λ _. gives (inl refl))

pub packed_next-Counted :
    (s : PackedIterator) (m : Mem)
    → s.relocation_count < 2 ^ 64
    → EndsWith (Counted s) (packed_next s m)
unfolding packed_next
packed_next-Counted s m fits =
    let c = s.relocation_count in
    let i = s.relocation_index in
    EndsWith-branch (leb c i) _ _ m (λ _. gives (inl refl))
      λ more. EndsWith-bind (next_group-At c i s m (refl, refl)) λ g m1 h1.
        EndsWith-branch (g.0 == 0) _ _ m1
          (λ _.
            EndsWith-bind (next_offset-At c i g.1 m1 h1)
              λ e m2 h2. next_emit-Counted s e m2 fits (ground (arith, more)) h2)
          (λ _. gives (inl refl))

-- The count of entries is a `size_t`, and none is handed out yet.
pub packed_init-Fits :
    (rel rel_sz : ℕ) (is_use_rela : Bool) (m : Mem)
    → EndsWith
        (λ x. (x.1.relocation_count < 2 ^ 64) × (x.1.relocation_index ≡ 0))
        (packed_init rel rel_sz is_use_rela m)
unfolding packed_init packed_zero
packed_init-Fits rel rel_sz is_use_rela m =
    decode-Fits (packed_zero rel rel_sz is_use_rela) set_count init_offset m
      (λ r d. (omega arith, refl))
      λ v d n f.
        decode-Fits (set_count v (record (packed_zero rel rel_sz is_use_rela) { decoder = d }))
          set_offset (λ t. pure (0, t)) n (λ r d. (f, refl)) (λ w d n' f'. gives (f, refl))

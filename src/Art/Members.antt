-- ===== src/Art/Members.antt =====
-- cpp/base/cxx_helper.h: members of an object at an offset, and the search for an offset.
pub mod Laws
use art_hook.Base.{ℕ, zero, suc, ◌+◌, ◌-◌, ◌*◌, Bool, ◌==◌, if◌then◌else◌, ltb}
use art_hook.Machine.{Cmd, pure, u64, load_le, store_le, load8, store8, ◌>>=◌, ◌>>◌}
use art_hook.Art.State.{Act, lift}

-- sizeof(ptr_t), sizeof(u4) and sizeof(u2).
abbrev pub sizeof_ptr : ℕ
sizeof_ptr = 8

abbrev pub sizeof_u4 : ℕ
sizeof_u4 = 4

abbrev pub sizeof_u2 : ℕ
sizeof_u2 = 2

abbrev pub offset_of : ℕ → ℕ → ℕ
offset_of ptr offset = u64 (ptr + offset)

-- `size` is sizeof(T).
unfoldable pub member_of : (size ptr offset : ℕ) → Act ℕ
member_of size ptr offset = lift (load_le size (offset_of ptr offset))

unfoldable pub assign_offset : (size ptr offset member : ℕ) → Act (Unit {0})
assign_offset size ptr offset member = lift (store_le size (offset_of ptr offset) member)

abbrev pub distance_of : ℕ → ℕ → ℕ
distance_of a b = if ltb a b then b - a else a - b

-- `n` slots are left, from `offset` on.
unfoldable pub offset_by_value_from : (n size obj expected_value offset : ℕ) → Cmd ℕ
offset_by_value_from zero size obj expected_value offset = pure 0
offset_by_value_from (suc n) size obj expected_value offset = do
  v ← load_le size (offset_of obj offset)
  let rest = offset_by_value_from n size obj expected_value (offset + size)
  if v == expected_value then pure offset else rest

unfoldable pub get_offset_by_value : (size obj expected_value : ℕ) → Cmd ℕ
unfolding offset_by_value_from
get_offset_by_value size obj expected_value = offset_by_value_from 24 size obj expected_value 0

-- `memcpy`, byte by byte.
unfoldable pub memcpy : (n dst src : ℕ) → Cmd (Unit {0})
memcpy zero dst src = pure tt
memcpy (suc n) dst src = do b ← load8 src; store8 dst b; memcpy n (dst + 1) (src + 1)

-- ===== src/Maps/Protect.antt =====
-- cpp/xhook/xh_util.c: the protection of an address range, read from /proc/self/maps.
pub mod Laws
use art_hook.Base.{
  ℕ, ◌+◌, ◌-◌, ◌*◌, ◌/◌, ◌^◌, Bool, true, false, Option, none, some, List, [], ◌∷◌, ◌&&◌, ◌||◌,
  ◌==◌, ◌!=◌, ltb, leb, bit_and, bit_or, if◌then◌else◌, Text,
}
use art_hook.Machine.{u64, page_size, Mem, Cmd, done, prot_read, prot_write, prot_exec}
use art_hook.Maps.{lines, scan_region, Region, char_at}
use art_hook.Elf.Image.{err_badmaps, err_segverr, err_unknown}

-- What the C code asks of the kernel: the text of /proc/self/maps, where `fopen` succeeds, and
-- `mprotect`, which returns `errno` where it fails.
pub record Kernel : Type 0 where
  pub self_maps : Mem → Option Text
  pub mprotect : (addr len prot : ℕ) → Mem → Option ℕ × Mem

unfoldable pub starts_with : Text → Text → Bool
starts_with [] s = true
starts_with (c ∷ t) [] = false
starts_with (c ∷ t) (d ∷ s) = (c == d) && starts_with t s

-- `NULL != strstr(s, t)`.
unfoldable pub contains : Text → Text → Bool
unfolding starts_with
contains t [] = starts_with t []
contains t (c ∷ s) = starts_with t (c ∷ s) || contains t s

-- The variables of the loop of `xh_util_get_mem_protect`.
pub record Scan : Type 0 where
  pub start_addr : ℕ
  pub load0 : Bool
  pub prot : ℕ

abbrev flag : Bool → ℕ → ℕ
flag on bit = if on then bit else 0

-- `if(perm[0] == 'r') *prot |= PROT_READ;` and so on.
unfoldable pub add_perm : Text → ℕ → ℕ
add_perm perm prot =
    bit_or
      (bit_or (bit_or prot (flag (char_at perm 0 == b'r') prot_read))
        (flag (char_at perm 1 == b'w') prot_write))
      (flag (char_at perm 2 == b'x') prot_exec)

-- `if(perm[0] != 'r') *prot &= ~PROT_READ;` and so on, with `~bit` over the three bits in use.
unfoldable pub drop_perm : Text → ℕ → ℕ
drop_perm perm prot =
    bit_and
      (bit_and (bit_and prot (7 - flag (char_at perm 0 != b'r') prot_read))
        (7 - flag (char_at perm 1 != b'w') prot_write))
      (7 - flag (char_at perm 2 != b'x') prot_exec)

-- The region of a line that the loop looks at: it names `pathname`, scans, and is private.
unfoldable pub relevant : Option Text → Text → Option Region
unfolding scan_region contains
relevant pathname line =
    let named : Bool = elim pathname [ none ↦ true | some p ↦ contains p line ] in
    let private : Option Region = elim (scan_region line) [
      | none ↦ none
      | some r ↦ if char_at r.perm 3 == b'p' then some r else none
    ] in
    if named then private else none

-- The loop: `found_all`, and `*prot` behind it.
unfoldable pub protect_loop : (pathname : Option Text) (end_addr : ℕ) → List Text → Scan → Bool × ℕ
unfolding relevant add_perm drop_perm
protect_loop pathname end_addr [] s = (false, s.prot)
protect_loop pathname end_addr (line ∷ rest) s = elim (relevant pathname line) [
  | none ↦ protect_loop pathname end_addr rest s
  | some r ↦
      let inside = leb r.start s.start_addr && ltb s.start_addr r.end in
      let prot = if s.load0 then add_perm r.perm s.prot else drop_perm r.perm s.prot in
      let after : Scan = record { start_addr = r.end; load0 = false; prot = prot } in
      let next = protect_loop pathname end_addr rest (if inside then after else s) in
      if inside && leb end_addr r.end then (true, prot) else next
]

-- The code that is returned, and `*prot`.
module _ (k : Kernel) where
  unfoldable pub get_mem_protect : (addr len : ℕ) → Option Text → Cmd (ℕ × ℕ)
  unfolding protect_loop lines
  get_mem_protect addr len pathname m =
      let start : Scan = record { start_addr = addr; load0 = true; prot = 0 } in
      let scan : Text → ℕ × ℕ = λ content.
        let (found_all, prot) = protect_loop pathname (u64 (addr + len)) (lines content) start in
        (if found_all then 0 else err_segverr, prot) in
      let out : ℕ × ℕ = elim (k.self_maps m) [
        | none ↦ (err_badmaps, 0)
        | some content ↦ scan content
      ] in
      done out m

  -- `sizeof(addr)` is 8.
  unfoldable pub get_addr_protect : ℕ → Option Text → Cmd (ℕ × ℕ)
  unfolding get_mem_protect
  get_addr_protect addr pathname = get_mem_protect addr 8 pathname

  abbrev pub page_start : ℕ → ℕ
  page_start addr = addr / page_size * page_size

  abbrev pub page_end : ℕ → ℕ
  page_end addr = u64 (page_start (u64 (addr + 7)) + page_size)

  -- PAGE_START and PAGE_COVER are the range of pages that the 8 bytes at `addr` lie on.
  unfoldable pub set_addr_protect : ℕ → ℕ → Cmd ℕ
  set_addr_protect addr prot m =
      let cover = u64 (page_end addr + 2 ^ 64 - page_start addr) in
      let (failed, m') = k.mprotect (page_start addr) cover prot m in
      let code : ℕ = elim failed [
        | none ↦ 0
        | some errno ↦ if errno == 0 then err_unknown else errno
      ] in
      done code m'

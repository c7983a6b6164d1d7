-- ===== src/Maps/Protect/Laws.antt =====
-- What a return of 0 from `xh_util_get_mem_protect` says of /proc/self/maps.
use art_hook.Base.{
  ℕ, ◌+◌, ◌≤◌, ◌<◌, ◌≡◌, refl, ◌⊎◌, inl, inr, Bool, true, false, Option, some, arith, List, [], ◌∷◌,
  ◌&&◌, ltb, leb, if◌then◌else◌, Text, Bool-cases, Option-cases, ltb→lt, ap, none, ◌∙◌, ◌++◌, ◌==◌,
}
use art_hook.Machine.{u64, Mem, Res}
use art_hook.Maps.{lines, scan_region, char_at, Region}
use art_hook.Elf.Image.{err_segverr}
use art_hook.Maps.Protect.{
  Kernel, Scan, starts_with, contains, relevant, protect_loop, get_mem_protect,
}

-- The path stands somewhere on the line, if one is given.
abbrev pub Occurs : Option Text → Text → Type 0
Occurs none line = Unit {0}
Occurs (some path) line = (before : Text) × (after : Text) × (line ≡ before ++ (path ++ after))

-- The line gives the region of a private mapping, on a line with the path.
pub record Gives (pathname : Option Text) (line : Text) (r : Region) : Type 0 where
  pub scanned : scan_region line ≡ some r
  pub private : char_at r.perm 3 ≡ b'p'
  pub named : Occurs pathname line

starts_with-prefix : (t s : Text) → starts_with t s ≡ true → (after : Text) × (s ≡ t ++ after)
unfolding starts_with
starts_with-prefix [] s h = (s, refl)
starts_with-prefix (c ∷ t) [] h = absurd (ground arith)
starts_with-prefix (c ∷ t) (d ∷ s) h =
    let (after, e) = starts_with-prefix t s (ground (arith, h)) in
    let same : d ≡ c = ground (arith, h) in (after, ap (λ x. x ∷ s) same ∙ ap (λ x. c ∷ x) e)

contains-Occurs : (t s : Text) → contains t s ≡ true → Occurs (some t) s
unfolding contains
contains-Occurs t [] h = let (after, e) = starts_with-prefix t [] h in ([], after, e)
contains-Occurs t (c ∷ s) h = elim (Bool-cases (starts_with t (c ∷ s))) [
  | inl here ↦ let (after, e) = starts_with-prefix t (c ∷ s) here in ([], after, e)
  | inr further ↦
      let (before, after, e) = contains-Occurs t s (ground (arith, h, further)) in
      (c ∷ before, after, ap (λ x. c ∷ x) e)
]

private-scanned :
    (line : Text) (r : Region)
    → (elim (scan_region line) as (λ _. Option Region) [
      | none ↦ none
      | some r ↦ if char_at r.perm 3 == b'p' then some r else none
    ])
      ≡ some r
    → (scan_region line ≡ some r) × (char_at r.perm 3 ≡ b'p')
private-scanned line r h = elim (Option-cases (scan_region line)) [
  | inl e ↦ absurd (ground (arith, rw e at h))
  | inr (q, e) ↦ elim (Bool-cases (char_at q.perm 3 == b'p')) [
    | inl on ↦
        let same : some q ≡ some r = rw (e, on) at h in
        let letter : char_at q.perm 3 ≡ b'p' = ground (arith, on) in
        let it : q ≡ r = ap (λ o. elim o [ none ↦ q | some x ↦ x ]) same in
        (e ∙ same, rw it at letter)
    | inr off ↦ absurd (ground (arith, rw (e, off) at h))
  ]
]

relevant-Gives :
    (pathname : Option Text) (line : Text) (r : Region)
    → relevant pathname line ≡ some r
    → Gives pathname line r
unfolding relevant
relevant-Gives none line r h =
    let (scanned, private) = private-scanned line r h in
    record { scanned = scanned; private = private; named = tt }
relevant-Gives (some path) line r h = elim (Bool-cases (contains path line)) [
  | inl on ↦
      let (scanned, private) = private-scanned line r (rw on at h) in
      record { scanned = scanned; private = private; named = contains-Occurs path line on }
  | inr off ↦ absurd (ground (arith, rw off at h))
]

-- Some line gives the region of a private mapping that contains the address `x`, on a line with the
-- path.
abbrev pub Mapped : (pathname : Option Text) → List Text → (x : ℕ) → Type 0
Mapped pathname [] x = ⊥
Mapped pathname (line ∷ rest) x =
    ((r : Region) × (Gives pathname line r × ((r.start ≤ x) × (x < r.end))))
    ⊎ Mapped pathname rest x

within : (a b c : ℕ) → (leb a b && ltb b c) ≡ true → (a ≤ b) × (b < c)
within a b c h = ground arith

not_below : (x b : ℕ) → ltb x b ≡ false → b ≤ x
not_below x b h = ground arith

not_reached : (e b x : ℕ) → x < e → b ≤ x → leb e b ≡ false
not_reached e b x h h' = ground arith

-- The code of a run that returned.
abbrev code_of : Res (ℕ × ℕ) → ℕ
code_of (Res.done (r, p) m) = r
code_of (Res.segv m) = 0
code_of Res.undefined = 0
code_of Res.out_of_fuel = 0

all_found : (b : Bool) → (if b then 0 else err_segverr) ≡ 0 → b ≡ true
all_found true h = refl
all_found false h = absurd (omega arith)

module _ (pathname : Option Text) (end_addr x : ℕ) (below : x < end_addr) where
  protect_loop-Mapped :
      (ls : List Text) (s : Scan)
      → (protect_loop pathname end_addr ls s).0 ≡ true
      → s.start_addr ≤ x
      → Mapped pathname ls x
  unfolding protect_loop
  protect_loop-Mapped [] s found above = absurd (ground arith)
  protect_loop-Mapped (line ∷ rest) s found above = elim (Option-cases (relevant pathname line)) [
    | inl e ↦ inr (protect_loop-Mapped rest s (rw (protect_loop, e) at found) above)
    | inr (r, e) ↦ elim (Bool-cases (leb r.start s.start_addr && ltb s.start_addr r.end)) [
      | inr off ↦ inr (protect_loop-Mapped rest s (rw (protect_loop, e, off) at found) above)
      | inl inside ↦ elim (Bool-cases (ltb x r.end)) [
        | inl here ↦
            let low : r.start ≤ s.start_addr = (within r.start s.start_addr r.end inside).0 in
            inl (r, (relevant-Gives pathname line r e, (omega arith, ltb→lt x r.end here)))
        | inr beyond ↦
            let past : r.end ≤ x = not_below x r.end beyond in
            let further : leb end_addr r.end ≡ false = not_reached end_addr r.end x below past in
            inr (protect_loop-Mapped rest _ (rw (protect_loop, e, inside, further) at found) past)
      ]
    ]
  ]

-- A return of 0 means that every address from `addr` on and below `addr + len`, modulo 2 ^ 64,
-- lies in the region of some line of /proc/self/maps that scans, has the letter of a private mapping
-- and, where a path is given, has the path somewhere on it.
pub get_mem_protect-Mapped :
    (k : Kernel) (addr len : ℕ) (pathname : Option Text) (m n : Mem) (prot : ℕ) (content : Text)
    (x : ℕ)
    → k.self_maps m ≡ some content
    → get_mem_protect k addr len pathname m ≡ Res.done (0, prot) n
    → addr ≤ x
    → x < u64 (addr + len)
    → Mapped pathname (lines content) x
unfolding get_mem_protect
get_mem_protect-Mapped k addr len pathname m n prot content x read run above below =
    protect_loop-Mapped pathname (u64 (addr + len)) x below (lines content)
      (record { start_addr = addr; load0 = true; prot = 0 }) (all_found _ codes) above
  where
    codes :
        (if (protect_loop pathname
            (u64 (addr + len))
            (lines content)
            (record { start_addr = addr; load0 = true; prot = 0 })).0
          then 0
          else err_segverr)
        ≡ 0
    codes = ap code_of (rw read at run)

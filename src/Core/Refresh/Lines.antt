-- ===== src/Core/Refresh/Lines.antt =====
-- The lines of /proc/self/maps that `xh_core_refresh_impl` of cpp/xhook/xh_core.c looks at.
use art_hook.Base.{
  ℕ, ◌≡◌, ◌≢◌, refl, ap, sym, ◌∙◌, ◌⊎◌, inl, inr, Option, none, some, [], ◌∷◌, ◌++◌, ◌||◌, ◌==◌,
  ◌!=◌, if◌then◌else◌, Text, arith, Bool-cases,
}
use art_hook.Maps.{scan_mapping, Mapping, char_at, skip_spaces, is_space}
use art_hook.Core.Refresh.{Candidate, pass, region, unset, chomp, path_of, candidate}

-- The rest of the line is blanks, the path and at most a newline; the path is there and does not
-- begin with a bracket.
pub record Names (tail pathname : Text) : Type 0 where
  pub blanks : Text
  pub newline : Text
  pub parts : tail ≡ blanks ++ (pathname ++ newline)
  pub at_most_newline : (newline ≡ []) ⊎ (newline ≡ 0x0a ∷ [])
  pub given : pathname ≢ []
  pub no_bracket : char_at pathname 0 ≢ b'['

-- The line has this base and path, and is for a private readable mapping from offset 0.
pub record Stands (line pathname : Text) (base : ℕ) : Type 0 where
  pub mapping : Mapping
  pub scanned : scan_mapping line ≡ some mapping
  pub based : mapping.base_addr ≡ base
  pub readable : char_at mapping.perm 0 ≡ b'r'
  pub private : char_at mapping.perm 3 ≡ b'p'
  pub from_start : mapping.offset ≡ 0
  pub tail : Text
  pub tail_here : mapping.tail ≡ some tail
  pub named : Names tail pathname

skip_spaces-rest : (s : Text) → (blanks : Text) × (s ≡ blanks ++ skip_spaces s)
unfolding skip_spaces
skip_spaces-rest [] = ([], refl)
skip_spaces-rest (c ∷ s) = elim (Bool-cases (is_space c)) [
  | inl blank ↦ let (blanks, e) = skip_spaces-rest s in (c ∷ blanks, rw blank (ap (λ x. c ∷ x) e))
  | inr other ↦ ([], rw other refl)
]

chomp-rest :
    (s : Text)
    → (newline : Text) × (s ≡ chomp s ++ newline) × ((newline ≡ []) ⊎ (newline ≡ 0x0a ∷ []))
unfolding chomp
chomp-rest [] = ([], refl, inl refl)
chomp-rest (c ∷ []) = elim (Bool-cases (c == 0x0a)) [
  | inl line_end ↦
      let same : c ≡ 0x0a = ground arith in
      (0x0a ∷ [], rw line_end (ap (λ x. x ∷ []) same), inr refl)
  | inr other ↦ ([], rw other refl, inl refl)
]
chomp-rest (c ∷ d ∷ s) =
    let (newline, e, short) = chomp-rest (d ∷ s) in (newline, ap (λ x. c ∷ x) e, short)

path_of-Names : (tail pathname : Text) → path_of tail ≡ some pathname → Names tail pathname
unfolding path_of
path_of-Names tail pathname h =
    let (blanks, e) = skip_spaces-rest tail in
    let (newline, e', short) = chomp-rest (skip_spaces tail) in
    go (chomp (skip_spaces tail)) h blanks newline (e ∙ ap (λ x. blanks ++ x) e') short
  where
    go :
        (s : Text)
        → (elim s as (λ _. Option Text) [
          | [] ↦ none
          | c ∷ s ↦ if c == b'[' then none else some (c ∷ s)
        ])
          ≡ some pathname
        → (blanks newline : Text) → tail ≡ blanks ++ (s ++ newline)
        → (newline ≡ []) ⊎ (newline ≡ 0x0a ∷ [])
        → Names tail pathname
    go [] h blanks newline e short = absurd (ground (arith, h))
    go (c ∷ s) h blanks newline e short = elim (Bool-cases (c == b'[')) [
      | inl bracket ↦ absurd (ground (arith, rw bracket at h))
      | inr other ↦
          let same : c ∷ s ≡ pathname =
            ap (λ o. elim o [ none ↦ c ∷ s | some x ↦ x ]) (rw other at h) in
          rw (sym same) (record {
            blanks = blanks;
            newline = newline;
            parts = e;
            at_most_newline = short;
            given = λ (gone : c ∷ s ≡ []). ground (arith, gone);
            no_bracket = λ (bracket : c ≡ b'['). ground (arith, bracket, other);
          })
    ]

-- What a candidate asks to look at.
abbrev asked : Candidate → Option (ℕ × Text)
asked pass = none
asked unset = none
asked (region base pathname) = some (base, pathname)

-- What a path, and what a line behind its numbers, asks for.
abbrev asks_path : Option Text → ℕ → Candidate
asks_path q base = elim q as (λ _. Candidate) [ none ↦ pass | some p ↦ region base p ]

abbrev asks_tail : Option Text → ℕ → Candidate
asks_tail t base = elim t as (λ _. Candidate) [
  | none ↦ unset
  | some tail ↦ asks_path (path_of tail) base
]

abbrev asks : Mapping → Candidate
asks r =
    if (char_at r.perm 0 != b'r') || (char_at r.perm 3 != b'p') || (r.offset != 0)
    then pass
    else asks_tail r.tail r.base_addr

module _ (pathname : Text) (base : ℕ) where
  from_path :
      (tail : Text) (q : Option Text) (b : ℕ)
      → path_of tail ≡ q
      → asks_path q b ≡ region base pathname
      → (b ≡ base) × Names tail pathname
  from_path tail none b e h = absurd (ground (arith, ap asked h))
  from_path tail (some p) b e h =
      let pair : ◌≡◌ {A = ℕ × Text} (b, p) (base, pathname) =
        ap (λ o. elim o [ none ↦ (base, pathname) | some x ↦ x ]) (ap asked h) in
      (ap (λ x. x.0) pair, path_of-Names tail pathname (e ∙ ap (λ x. some x.1) pair))

  from_tail :
      (t : Option Text) (b : ℕ)
      → asks_tail t b ≡ region base pathname
      → (b ≡ base) × (tail : Text) × (t ≡ some tail) × Names tail pathname
  from_tail none b h = absurd (ground (arith, ap asked h))
  from_tail (some tail) b h =
      let (based, named) = from_path tail (path_of tail) b refl h in (based, tail, refl, named)

  from_scan :
      (line : Text) (r : Mapping)
      → scan_mapping line ≡ some r
      → asks r ≡ region base pathname
      → Stands line pathname base
  from_scan line r scanned h =
      elim (Bool-cases
        ((char_at r.perm 0 != b'r') || (char_at r.perm 3 != b'p') || (r.offset != 0))) [
          | inl out ↦ absurd (ground (arith, ap asked (rw out at h)))
          | inr fits ↦
              let (based, tail, here, named) = from_tail r.tail r.base_addr (rw fits at h) in
              record {
                mapping = r;
                scanned = scanned;
                based = based;
                readable = ground (arith, fits);
                private = ground (arith, fits);
                from_start = ground (arith, fits);
                tail = tail;
                tail_here = here;
                named = named;
              }
        ]

  from_line :
      (line : Text) (q : Option Mapping)
      → scan_mapping line ≡ q
      → (elim q as (λ _. Candidate) [ none ↦ pass | some r ↦ asks r ]) ≡ region base pathname
      → Stands line pathname base
  from_line line none e h = absurd (ground (arith, ap asked h))
  from_line line (some r) e h = from_scan line r e h

pub candidate-Stands :
    (line pathname : Text) (base : ℕ)
    → candidate line ≡ region base pathname
    → Stands line pathname base
unfolding candidate
candidate-Stands line pathname base h = from_line pathname base line (scan_mapping line) refl h

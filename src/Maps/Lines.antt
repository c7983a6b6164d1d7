-- ===== src/Maps/Lines.antt =====
-- The chunks that `fgets` gives the scans: nothing of the text is lost, and each fits the buffer.
use art_hook.Base.{
  ℕ, ◌-◌, ◌≤◌, ◌≡◌, refl, ap, ◌∙◌, arith, List, [], ◌∷◌, ◌++◌, length, ◌||◌, ◌==◌, leb, Text,
  Bool-cases, inl, inr,
}
use art_hook.Maps.{prepend, fgets_from, lines}

abbrev pub joined : List Text → Text
joined [] = []
joined (line ∷ rest) = line ++ joined rest

-- The first chunk has at most `left` bytes, and the others at most `cap`.
abbrev pub Fit : (cap left : ℕ) → List Text → Type 0
Fit cap left [] = Unit {0}
Fit cap left (line ∷ rest) = (length line ≤ left) × Fit cap cap rest

joined-prepend : (c : ℕ) (chunks : List Text) → joined (prepend c chunks) ≡ c ∷ joined chunks
joined-prepend c [] = refl
joined-prepend c (line ∷ rest) = refl

Fit-prepend :
    (cap left c : ℕ) (chunks : List Text)
    → 1 ≤ left
    → Fit cap (left - 1) chunks
    → Fit cap left (prepend c chunks)
Fit-prepend cap left c [] h fit = (h, tt)
Fit-prepend cap left c (line ∷ rest) h fit = (omega (arith, fit.0), fit.1)

fgets_from-joined :
    (cap left : ℕ) (s : Text)
    → 1 ≤ cap
    → 1 ≤ left
    → (joined (fgets_from cap left s) ≡ s) × Fit cap left (fgets_from cap left s)
unfolding fgets_from
fgets_from-joined cap left [] h h' = (refl, tt)
fgets_from-joined cap left (c ∷ s) h h' = elim (Bool-cases ((c == 0x0a) || leb left 1)) [
  | inl full ↦
      let ih = fgets_from-joined cap cap s h h in
      rw (full, fgets_from) (ap (λ t. c ∷ t) ih.0, (h', ih.1))
  | inr fits ↦
      let room : 1 ≤ left - 1 = ground arith in
      let ih = fgets_from-joined cap (left - 1) s h room in
      rw (fits, fgets_from)
        (joined-prepend c _ ∙ ap (λ t. c ∷ t) ih.0, Fit-prepend cap left c _ h' ih.1)
]

-- The lines that `fgets` returns one after the other make up the whole text of the file, and none is
-- longer than the 511 bytes that the buffer takes.
pub lines-joined :
    (content : Text) → (joined (lines content) ≡ content) × Fit 511 511 (lines content)
unfolding lines
lines-joined content = fgets_from-joined 511 511 content (omega arith) (omega arith)

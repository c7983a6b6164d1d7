-- ===== src/Art/Runs.antt =====
-- Tests in code that works on the static variables.
use art_hook.Base.{Bool, true, false, ◌≡◌, refl, if◌then◌else◌}
use art_hook.Machine.{Mem, Res}
use art_hook.Machine.Laws.{Ensures}
use art_hook.Art.State.{Statics, Act}

module _ {A : Type 0} {P : A × Statics → Mem → Type 0} {F : Mem → Type 0} where
  pub fork :
      (b : Bool) (c d : Act A) (s : Statics) (m : Mem)
      → (b ≡ true → Ensures P F (c s m))
      → (b ≡ false → Ensures P F (d s m))
      → Ensures P F ((if b then c else d) s m)
  fork true c d s m yes_case no_case = yes_case refl
  fork false c d s m yes_case no_case = no_case refl

module _ {A : Type 0} where
  pub either :
      (b : Bool) (c d : Act A) (s : Statics) (m : Mem) {r : Res (A × Statics)}
      → c s m ≡ r
      → d s m ≡ r
      → (if b then c else d) s m ≡ r
  either true c d s m p q = p
  either false c d s m p q = q

  pub taken :
      (b : Bool) (c d : Act A) (s : Statics) (m : Mem) → b ≡ true → (if b then c else d) s m ≡ c s m
  taken b c d s m e = rw e refl

  pub passed :
      (b : Bool) (c d : Act A) (s : Statics) (m : Mem)
      → b ≡ false
      → (if b then c else d) s m ≡ d s m
  passed b c d s m e = rw e refl

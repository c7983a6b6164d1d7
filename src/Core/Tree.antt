-- ===== src/Core/Tree.antt =====
-- The red-black tree of cpp/xhook/tree.h is a copy of the BSD header: the code has it as a map
-- from path names through the calls below, with the laws that the header documents.
use art_hook.Base.{ℕ, ◌≡◌, Option, none, some, arith, if◌then◌else◌, Text, strcmp_eq}

-- An item that `RB_INSERT` finds in the way of a new one stays, and is handed back.
pub record PathTree : Type 1 where
  pub Tree : Type 0
  pub empty : Tree
  pub find : Text → Tree → Option ℕ
  pub insert : Text → ℕ → Tree → Option ℕ × Tree
  pub remove : Text → Tree → Tree
  pub find-empty : (p : Text) → find p empty ≡ none
  pub insert_lem :
      (p q : Text) (v : ℕ) (t : Tree)
      → ((insert p v t).0 ≡ find p t)
        × (find q (insert p v t).1 ≡ (
            if strcmp_eq p q
            then (elim (find p t) [ none ↦ some v | some w ↦ some w ])
            else find q t))
  pub find-remove :
      (p q : Text) (t : Tree) → find q (remove p t) ≡ (if strcmp_eq p q then none else find q t)

module _ (tree : PathTree) where
  -- Where nothing was in the way, the new item is there and the others are as before.
  pub find-insert :
      (p q : Text) (v : ℕ) (t : tree.Tree)
      → (tree.insert p v t).0 ≡ none
      → tree.find q (tree.insert p v t).1 ≡ (if strcmp_eq p q then some v else tree.find q t)
  find-insert p q v t fresh = ground (arith, tree.insert_lem p q v t)

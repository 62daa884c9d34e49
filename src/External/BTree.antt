-- ===== src/External/BTree.antt =====
-- github.com/google/btree, as multiversion/data_structure.go uses it. Items are compared by their
-- `Less` method alone; two items of which neither is less than the other are equal to the tree.
use go_pevm.Shared.{◌≡◌, Bool, true, not, ◌&&◌, Option, none, some, List, [], ◌∷◌, if◌then◌else◌}

module _ {A : Type 0} (less : A → A → Bool) where
  -- The package's own notion of equal items: `!a.Less(b) && !b.Less(a)`.
  abbrev pub same : A → A → Bool
  same a b = not (less a b) && not (less b a)

  abbrev pub find : A → List A → Option A
  find q [] = none
  find q (x ∷ l) = if same x q then some x else find q l

  -- Each item is less than those before it.
  abbrev pub IsBelow : A → List A → Type 0
  IsBelow a [] = Unit
  IsBelow a (x ∷ l) = (less x a ≡ true) × IsBelow a l

  abbrev pub IsDescending : List A → Type 0
  IsDescending [] = Unit
  IsDescending (x ∷ l) = IsBelow x l × IsDescending l

  -- The items at most the pivot.
  abbrev pub at_most : A → List A → List A
  at_most p [] = []
  at_most p (x ∷ l) = let rest = at_most p l in if not (less p x) then x ∷ rest else rest

abbrev pub first : {A : Type 0} → List A → Option A
first [] = none
first (x ∷ l) = some x

-- `descend t` are the items that `Descend` hands to its callback as long as that returns true, in
-- this order; so for `descend_less_or_equal`.
pub record BTree {A : Type 0} (less : A → A → Bool) : Type 1 where
  pub Tree : Type 0
  pub new : Tree
  pub replace_or_insert : A → Tree → Tree
  pub delete : A → Tree → Tree
  pub max : Tree → Option A
  pub descend : Tree → List A
  pub descend_less_or_equal : A → Tree → List A
  pub descend-new : descend new ≡ []
  pub descend-IsDescending : (t : Tree) → IsDescending less (descend t)
  pub find-replace_or_insert :
      (x q : A) (t : Tree)
      → find less q (descend (replace_or_insert x t))
        ≡ (if same less x q then some x else find less q (descend t))
  pub find-delete :
      (x q : A) (t : Tree)
      → find less q (descend (delete x t))
        ≡ (if same less x q then none else find less q (descend t))
  pub max-eq-first : (t : Tree) → max t ≡ first (descend t)
  pub descend_less_or_equal_lem :
      (p : A) (t : Tree) → descend_less_or_equal p t ≡ at_most less p (descend t)

-- ===== src/Examples/Trees.antt =====
-- A B-tree as the descending list of its items.
use go_pevm.Shared.{
  ◌≡◌, refl, sym, true, none, some, List, [], ◌∷◌, arith, ℤ_eq, lt_int, lt_int_irrefl, lt_int_trans,
  eq_of_not_lt_int, if◌then◌else◌, Bool-cases, inl, inr,
}
use go_pevm.External.Kaia.{Kaia}
use go_pevm.External.BTree.{BTree, same, find, first, at_most, IsBelow, IsDescending}
use go_pevm.Versions.{ValueItem, less}
use go_pevm.Versions.Order.{same_refl, eq_of_same}

module _ ⦃k : Kaia⦄ where
  abbrev pub put_item : ValueItem → List ValueItem → List ValueItem
  put_item x [] = x ∷ []
  put_item x (y ∷ l) =
      if lt_int y.index x.index
      then x ∷ y ∷ l
      else if lt_int x.index y.index
      then y ∷ put_item x l
      else x ∷ l

  abbrev pub drop_item : ValueItem → List ValueItem → List ValueItem
  drop_item x [] = []
  drop_item x (y ∷ l) = if same less x y then l else y ∷ drop_item x l

  IsBelow-trans :
      (a c : ValueItem) (l : List ValueItem)
      → lt_int a.index c.index ≡ true
      → IsBelow less a l
      → IsBelow less c l
  IsBelow-trans a c [] h g = tt
  IsBelow-trans a c (y ∷ l) h g =
      (lt_int_trans y.index a.index c.index g.0 h, IsBelow-trans a c l h g.1)

  put_item-IsBelow :
      (a x : ValueItem) (l : List ValueItem)
      → lt_int x.index a.index ≡ true
      → IsBelow less a l
      → IsBelow less a (put_item x l)
  put_item-IsBelow a x [] h g = (h, tt)
  put_item-IsBelow a x (y ∷ l) h g = ground (arith, put_item-IsBelow a x l h g.1)

  same-IsBelow :
      (x y : ValueItem) (l : List ValueItem)
      → y.index ≡ x.index
      → IsBelow less y l
      → IsBelow less x l
  same-IsBelow x y [] e g = tt
  same-IsBelow x y (z ∷ l) e g = (rw (sym e) (g.0), same-IsBelow x y l e g.1)

  pub put_item-IsDescending :
      (x : ValueItem) (l : List ValueItem) → IsDescending less l → IsDescending less (put_item x l)
  put_item-IsDescending x [] h = (tt, tt)
  put_item-IsDescending x (y ∷ l) h = elim (Bool-cases (lt_int y.index x.index)) [
    | inl p ↦ rw p ((p, IsBelow-trans y x l p h.0), h)
    | inr p ↦ elim (Bool-cases (lt_int x.index y.index)) [
      | inl q ↦ rw (p, q) (put_item-IsBelow y x l q h.0, put_item-IsDescending x l h.1)
      | inr q ↦ rw (p, q) (same-IsBelow x y l (eq_of_not_lt_int y.index x.index p q) h.0, h.1)
    ]
  ]

  drop_item-IsBelow :
      (a x : ValueItem) (l : List ValueItem) → IsBelow less a l → IsBelow less a (drop_item x l)
  drop_item-IsBelow a x [] g = tt
  drop_item-IsBelow a x (y ∷ l) g = ground (arith, drop_item-IsBelow a x l g.1)

  pub drop_item-IsDescending :
      (x : ValueItem) (l : List ValueItem) → IsDescending less l → IsDescending less (drop_item x l)
  drop_item-IsDescending x [] h = tt
  drop_item-IsDescending x (y ∷ l) h = elim (Bool-cases (same less x y)) [
    | inl p ↦ rw p (h.1)
    | inr p ↦ rw p (drop_item-IsBelow y x l h.0, drop_item-IsDescending x l h.1)
  ]

  pub find-put_item :
      (x q : ValueItem) (l : List ValueItem)
      → find less q (put_item x l) ≡ (if same less x q then some x else find less q l)
  find-put_item x q [] = refl
  find-put_item x q (y ∷ l) = elim (Bool-cases (lt_int y.index x.index)) [
    | inl p ↦ rw p
    | inr p ↦ elim (Bool-cases (lt_int x.index y.index)) [
      | inl r ↦
          rw (p, r)
            (ground (
              arith,
              find-put_item x q l,
              eq_of_same x q,
              eq_of_same y q,
              lt_int_irrefl q.index,
              p,
              r,
            ))
      | inr r ↦
          rw (p, r)
            (ground (arith, same_refl x q, eq_of_same y q, eq_of_not_lt_int x.index y.index, p, r))
    ]
  ]

  pub find-drop_item :
      (x q : ValueItem) (l : List ValueItem)
      → IsDescending less l
      → find less q (drop_item x l) ≡ (if same less x q then none else find less q l)
  find-drop_item x q [] h = ground arith
  find-drop_item x q (y ∷ l) h = elim (Bool-cases (same less x y)) [
    | inl p ↦ rw p (
        ground (
          arith,
          eq_of_same x y p,
          same_refl x q,
          eq_of_same x q,
          eq_of_same y q,
          same_refl y q,
          absent q l,
        ))
    | inr p ↦
        rw p
          (ground (arith, find-drop_item x q l h.1, eq_of_same x q, eq_of_same y q, same_refl x y))
  ]
    where
      absent :
          (r : ValueItem) (m : List ValueItem)
          → r.index ≡ y.index
          → IsBelow less y m
          → find less r m ≡ none
      absent r [] i g = refl
      absent r (z ∷ m) i g = ground (arith, absent r m i g.1, eq_of_same z r, lt_int_irrefl y.index)

  -- The tree carries the proof that its items descend.
  abbrev pub Items : Type 0
  Items = (l : List ValueItem) × IsDescending less l

  instance abbrev pub list_tree : BTree less
  list_tree = record {
    Tree = Items;
    new = ([], tt);
    replace_or_insert = λ x t. (put_item x t.0, put_item-IsDescending x t.0 t.1);
    delete = λ x t. (drop_item x t.0, drop_item-IsDescending x t.0 t.1);
    max = λ t. first t.0;
    descend = λ t. t.0;
    descend_less_or_equal = λ p t. at_most less p t.0;
    descend-new = refl;
    descend-IsDescending = λ t. t.1;
    find-replace_or_insert = λ x q t. find-put_item x q t.0;
    find-delete = λ x q t. find-drop_item x q t.0 t.1;
    max-eq-first = λ t. refl;
    descend_less_or_equal_lem = λ p t. refl;
  }

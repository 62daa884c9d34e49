-- ===== src/Versions/Order.antt =====
-- Lists of versions in the order of `Descend`, for the reads of multiversion/data_structure.go.
use go_pevm.Shared.{
  ℤ, ◌≡◌, refl, ◌∙◌, Bool-cases, inl, inr, lt_int_asymm, true, false, not, Option, none, some, List,
  [], ◌∷◌, arith, lt_int, lt_int_irrefl, eq_of_not_lt_int, ℤ_eq, ◌=?◌, ite,
}
use go_pevm.External.Kaia.{Kaia}
use go_pevm.External.BTree.{find, first, same, at_most, IsBelow, IsDescending}
use go_pevm.Versions.{ValueItem, less, pivot, first_non_estimate}

module _ ⦃k : Kaia⦄ where
  abbrev pub find_at : ℤ → List ValueItem → Option ValueItem
  find_at i l = find less (pivot i) l

  -- Two items are the same to the tree exactly if their indices are equal.
  pub same_refl : (v w : ValueItem) → v.index ≡ w.index → same less v w ≡ true
  same_refl v w e = ground (arith, e, lt_int_irrefl w.index)

  pub eq_of_same : (v w : ValueItem) → same less v w ≡ true → v.index ≡ w.index
  eq_of_same v w h = ground (arith, eq_of_not_lt_int v.index w.index)

  pub same_iff :
      {R : Type 0} (v w : ValueItem) (x y : R)
      → (elim (same less v w) [ true ↦ x | false ↦ y ]) ≡ ite (v.index =? w.index) x y
  same_iff v w x y = ground (arith, same_refl v w, eq_of_same v w)

  -- What is found at an index has that index.
  pub index-find_at :
      (i : ℤ) (l : List ValueItem) (v : ValueItem) → find_at i l ≡ some v → v.index ≡ i
  index-find_at i [] v h = ground arith
  index-find_at i (w ∷ l) v h = ground (arith, eq_of_same w (pivot i), index-find_at i l v)

  -- An index that is not below the head of a descending list and not its index is not in it.
  absent_of_below :
      (v : ValueItem) (j : ℤ) (l : List ValueItem)
      → IsBelow less v l
      → lt_int j v.index ≡ false
      → find_at j l ≡ none
  absent_of_below v j [] h n = refl
  absent_of_below v j (w ∷ l) h n =
      ground (arith, eq_of_same w (pivot j), lt_int_irrefl j, absent_of_below v j l h.1 n)

  -- `o` is the version with the greatest index below `i`.
  abbrev pub IsLatestBelow : (ℤ → Option ValueItem) → ℤ → Option ValueItem → Type 0
  IsLatestBelow view i none = (j : ℤ) → lt_int j i ≡ true → view j ≡ none
  IsLatestBelow view i (some v) =
      (view v.index ≡ some v)
      × (lt_int v.index i ≡ true)
      × ((j : ℤ) → lt_int v.index j ≡ true → lt_int j i ≡ true → view j ≡ none)

  -- A head that is not below `i` is not seen below `i`.
  skip_head :
      (i j : ℤ) (v : ValueItem) (l : List ValueItem)
      → lt_int v.index i ≡ false
      → lt_int j i ≡ true
      → find_at j (v ∷ l) ≡ find_at j l
  skip_head i j v l h g = ground (arith, eq_of_same v (pivot j))

  skip_head-IsLatestBelow :
      (i : ℤ) (v : ValueItem) (l : List ValueItem) (o : Option ValueItem)
      → lt_int v.index i ≡ false
      → IsLatestBelow (λ j. find_at j l) i o
      → IsLatestBelow (λ j. find_at j (v ∷ l)) i o
  skip_head-IsLatestBelow i v l none h s = λ j g. skip_head i j v l h g ∙ s j g
  skip_head-IsLatestBelow i v l (some w) h s =
      (skip_head i w.index v l h s.1 ∙ s.0, s.1, λ j g g'. skip_head i j v l h g' ∙ s.2 j g g')

  take_head-IsLatestBelow :
      (i : ℤ) (v : ValueItem) (l : List ValueItem)
      → IsBelow less v l
      → lt_int v.index i ≡ true
      → IsLatestBelow (λ j. find_at j (v ∷ l)) i (some v)
  take_head-IsLatestBelow i v l below h = (
    rw (same_refl v (pivot v.index) refl),
    h,
    λ j g g'. ground (arith, absent_of_below v j l, lt_int_asymm v.index j),
  )

  -- The first item at most a pivot is the latest version below the index that the pivot stands for.
  pub first-at_most-IsLatestBelow :
      (p : ValueItem) (i : ℤ) (l : List ValueItem)
      → ((j : ℤ) → not (lt_int p.index j) ≡ lt_int j i)
      → IsDescending less l
      → IsLatestBelow (λ j. find_at j l) i (first (at_most less p l))
  first-at_most-IsLatestBelow p i [] cut d = λ j h. refl
  first-at_most-IsLatestBelow p i (v ∷ l) cut d = elim (Bool-cases (lt_int v.index i)) [
    | inl h ↦ rw (cut v.index ∙ h, first) (take_head-IsLatestBelow i v l d.0 h)
    | inr h ↦
        rw (cut v.index ∙ h)
          (skip_head-IsLatestBelow i v l _ h (first-at_most-IsLatestBelow p i l cut d.1))
  ]

  -- `o` is the version with the greatest index that is no estimate.
  abbrev pub IsLatestNonEstimate : (ℤ → Option ValueItem) → Option ValueItem → Type 0
  IsLatestNonEstimate view none = (j : ℤ) (w : ValueItem) → view j ≡ some w → w.estimate ≡ true
  IsLatestNonEstimate view (some v) =
      (view v.index ≡ some v)
      × (v.estimate ≡ false)
      × ((j : ℤ) (w : ValueItem) → lt_int v.index j ≡ true → view j ≡ some w → w.estimate ≡ true)

  skip_estimate :
      (v : ValueItem) (l : List ValueItem) (o : Option ValueItem)
      → IsBelow less v l
      → v.estimate ≡ true
      → IsLatestNonEstimate (λ j. find_at j l) o
      → IsLatestNonEstimate (λ j. find_at j (v ∷ l)) o
  skip_estimate v l none below e s = λ j w h. ground (arith, s j w)
  skip_estimate v l (some u) below e s = (
    ground (
      arith,
      s.0,
      eq_of_same v (pivot u.index),
      absent_of_below v u.index l,
      lt_int_irrefl u.index,
    ),
    s.1,
    λ j w g h. ground (arith, s.2 j w),
  )

  pub first_non_estimate-IsLatest :
      (l : List ValueItem)
      → IsDescending less l
      → IsLatestNonEstimate (λ j. find_at j l) (first_non_estimate l)
  unfolding first_non_estimate
  first_non_estimate-IsLatest [] d = λ j w h. ground arith
  first_non_estimate-IsLatest (v ∷ l) d = elim (Bool-cases v.estimate) [
    | inl e ↦ simp e (skip_estimate v l _ d.0 e (first_non_estimate-IsLatest l d.1))
    | inr e ↦ simp e (
      rw (same_refl v (pivot v.index) refl),
      refl,
      λ j w g h. ground (
        arith,
        eq_of_same v (pivot j),
        lt_int_irrefl j,
        absent_of_below v j l,
        lt_int_asymm v.index j,
      ),
    )
  ]

  -- The head of a descending list has the greatest index.
  pub absent_above_first :
      (v : ValueItem) (l : List ValueItem) (j : ℤ)
      → IsDescending less l
      → first l ≡ some v
      → lt_int v.index j ≡ true
      → find_at j l ≡ none
  absent_above_first v [] j d h g = refl
  absent_above_first v (w ∷ l) j d h g = ground (
    arith,
    eq_of_same w (pivot j),
    lt_int_irrefl j,
    absent_of_below w j l d.0,
    lt_int_asymm v.index j,
  )

  pub find_at-first :
      (v : ValueItem) (l : List ValueItem) → first l ≡ some v → find_at v.index l ≡ some v
  find_at-first v [] h = cc
  find_at-first v (w ∷ l) h = ground (arith, same_refl w (pivot v.index))

-- ===== src/Versions/Reads.antt =====
-- What the reads of multiversion/data_structure.go return, in terms of the versions that the tree
-- holds: GetLatest, GetLatestBeforeIndex, GetLatestNonEstimate.
use go_pevm.Shared.{
  ℕ, ℤ, pos, ◌≡◌, refl, sym, ◌∙◌, true, Option, none, some, arith, lt_int, eq_of_not_lt_int,
  dec_int, not-lt_int-dec_int,
}
use go_pevm.External.Kaia.{Kaia}
use go_pevm.External.BTree.{BTree}
use go_pevm.Versions.{
  ValueItem, less, pivot, version_at, get_latest, get_latest_before_index, get_latest_non_estimate,
}
use go_pevm.Versions.Order.{
  IsLatestBelow, IsLatestNonEstimate, first-at_most-IsLatestBelow, first_non_estimate-IsLatest,
  absent_above_first, find_at-first, index-find_at,
}

module _ ⦃k : Kaia⦄ ⦃b : BTree less⦄ where
  open b use {Tree}

  pub index-version_at : (i : ℤ) (t : Tree) (v : ValueItem) → version_at i t ≡ some v → v.index ≡ i
  unfolding version_at
  index-version_at i t v h = index-find_at i (b.descend t) v h

  -- A read by the transaction at position `n` returns the version that the nearest transaction
  -- before it has written, and nothing exactly if none before it has written one.
  pub get_latest_before_index-IsLatestBelow :
      (n : ℕ) (t : Tree)
      → IsLatestBelow (λ j. version_at j t) (pos n) (get_latest_before_index (pos n) t)
  unfolding get_latest_before_index version_at
  get_latest_before_index-IsLatestBelow n t =
      rw (b.descend_less_or_equal_lem (pivot (dec_int (pos n))) t) (
        first-at_most-IsLatestBelow (pivot (dec_int (pos n))) (pos n) (b.descend t)
          (not-lt_int-dec_int n) (b.descend-IsDescending t))

  -- The versions below an index determine the latest of them.
  pub IsLatestBelow-unique :
      (f g : ℤ → Option ValueItem) (i : ℤ) (o q : Option ValueItem)
      → ((j : ℤ) → lt_int j i ≡ true → f j ≡ g j)
      → IsLatestBelow f i o
      → IsLatestBelow g i q
      → o ≡ q
  IsLatestBelow-unique f g i none none e s r = refl
  IsLatestBelow-unique f g i none (some w) e s r = ground (arith, e w.index, s w.index, r.0, r.1)
  IsLatestBelow-unique f g i (some v) none e s r = ground (arith, e v.index, r v.index, s.0, s.1)
  IsLatestBelow-unique f g i (some v) (some w) e s r = ground (
    arith,
    e v.index,
    e w.index,
    s.0,
    s.1,
    r.0,
    r.1,
    s.2 w.index,
    r.2 v.index,
    eq_of_not_lt_int v.index w.index,
  )

  -- Two trees that agree on the versions before position `n` give the same read at `n`: what the
  -- transaction itself and those after it write does not matter.
  pub get_latest_before_index_local :
      (n : ℕ) (t u : Tree)
      → ((j : ℤ) → lt_int j (pos n) ≡ true → version_at j t ≡ version_at j u)
      → get_latest_before_index (pos n) t ≡ get_latest_before_index (pos n) u
  get_latest_before_index_local n t u e =
      IsLatestBelow-unique (λ j. version_at j t) (λ j. version_at j u) (pos n) _ _ e
        (get_latest_before_index-IsLatestBelow n t) (get_latest_before_index-IsLatestBelow n u)

  -- The flush reads the version with the greatest index among those that are no estimates.
  pub get_latest_non_estimate-IsLatest :
      (t : Tree) → IsLatestNonEstimate (λ j. version_at j t) (get_latest_non_estimate t)
  unfolding get_latest_non_estimate version_at
  get_latest_non_estimate-IsLatest t =
      first_non_estimate-IsLatest (b.descend t) (b.descend-IsDescending t)

  -- GetLatest returns the version with the greatest index.
  pub get_latest-IsGreatest :
      (t : Tree) (v : ValueItem)
      → get_latest t ≡ some v
      → (version_at v.index t ≡ some v)
        × ((j : ℤ) → lt_int v.index j ≡ true → version_at j t ≡ none)
  unfolding get_latest version_at
  get_latest-IsGreatest t v h =
      let e = sym (b.max-eq-first t) ∙ h in
      (
        find_at-first v (b.descend t) e,
        λ j g. absent_above_first v (b.descend t) j (b.descend-IsDescending t) e g,
      )

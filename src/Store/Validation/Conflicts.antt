-- ===== src/Store/Validation/Conflicts.antt =====
-- The conflicts that ValidateTransactionState of multiversion/store.go reports.
use go_pevm.Shared.{
  ℕ, ℤ, pos, ◌≡◌, refl, sym, ◌∙◌, true, false, Option, none, some, List, [], ◌∷◌, arith, has, get,
  ℤ_eq, bytes_eq, inl, inr, Bool-cases, Option-cases, lt_int, lt_int_trans, eq_of_not_lt_int,
}
use go_pevm.External.Kaia.{Kaia}
use go_pevm.External.BTree.{BTree}
use go_pevm.Versions.{ValueItem, less}
use go_pevm.Keys.{StorageKey}
use go_pevm.Store.{Store, ReadSet, get_latest_before_index, add_conflict, sort_ints, insert_int}
use go_pevm.Store.Reads.{read-IsLatestBelow}
use go_pevm.Store.Validation.{
  Verdict, check_version, check_value, check_entry, check_entries, validate_transaction_state,
}
use go_pevm.Store.Validation.Verdicts.{
  IsCurrent, readset_of, blames, blames_any, validate_valid_iff, has-validate_conflicts,
  has-sort_ints,
}

abbrev pub IsAbove : ℤ → List ℤ → Type 0
IsAbove x [] = Unit
IsAbove x (y ∷ l) = (lt_int x y ≡ true) × IsAbove x l

-- Each index is less than those after it, so none stands twice.
abbrev pub IsAscending : List ℤ → Type 0
IsAscending [] = Unit
IsAscending (x ∷ l) = IsAbove x l × IsAscending l

abbrev IsDistinct : List ℤ → Type 0
IsDistinct [] = Unit
IsDistinct (x ∷ l) = (has x l ≡ false) × IsDistinct l

IsAbove-trans : (x y : ℤ) (l : List ℤ) → lt_int x y ≡ true → IsAbove y l → IsAbove x l
IsAbove-trans x y [] h a = tt
IsAbove-trans x y (z ∷ l) h a = (lt_int_trans x y z h a.0, IsAbove-trans x y l h a.1)

insert_int-IsAbove :
    (x y : ℤ) (l : List ℤ) → lt_int y x ≡ true → IsAbove y l → IsAbove y (insert_int x l)
unfolding insert_int
insert_int-IsAbove x y [] h a = (h, tt)
insert_int-IsAbove x y (z ∷ l) h a = ground (arith, insert_int-IsAbove x y l h a.1)

insert_int-IsAscending :
    (x : ℤ) (l : List ℤ) → has x l ≡ false → IsAscending l → IsAscending (insert_int x l)
unfolding insert_int
insert_int-IsAscending x [] n a = (tt, tt)
insert_int-IsAscending x (y ∷ l) n a = elim (Bool-cases (lt_int y x)) [
  | inl h ↦ ground (arith, insert_int-IsAbove x y l h a.0, insert_int-IsAscending x l)
  | inr h ↦ ground (arith, eq_of_not_lt_int x y, IsAbove-trans x y l)
]

module _ ⦃k : Kaia⦄ ⦃b : BTree less⦄ where
  open k use {Hash, hash_discrete}

  current-blames_any :
      (i j : ℤ) (s : Store) (rs : ReadSet) → IsCurrent i s rs → blames_any i s j rs ≡ false
  current-blames_any i j s [] h = refl
  current-blames_any i j s ((key, vs) ∷ rs) ((v, p, q), h) =
      rw (p, blames_any, blames) (ground (arith, current-blames_any i j s rs h))

  no_member : (l : List ℤ) → ((j : ℤ) → has j l ≡ false) → l ≡ []
  no_member [] h = refl
  no_member (x ∷ l) h = ground (arith, h x)

  -- A transaction that validates has no conflicts, so the branch of shouldRerun for one that is
  -- valid with conflicts is never taken.
  pub validate_valid_no_conflicts :
      (i : ℤ) (s : Store)
      → (validate_transaction_state i s).0 ≡ true
      → (validate_transaction_state i s).1 ≡ []
  validate_valid_no_conflicts i s h = no_member _ λ j.
      has-validate_conflicts i j s
      ∙ current-blames_any i j s (readset_of i s) ((validate_valid_iff i s).0 h)

  latest_below :
      (n : ℕ) (key : StorageKey) (s : Store) (w : ValueItem)
      → get_latest_before_index (pos n) key s ≡ some w
      → lt_int w.index (pos n) ≡ true
  latest_below n key s w e = (rw e at (read-IsLatestBelow n key s)).1

  blames_below :
      (n : ℕ) (j : ℤ) (s : Store) (key : StorageKey) (vs : List Hash)
      → blames (pos n) s j key vs ≡ true
      → lt_int j (pos n) ≡ true
  blames_below n j s key [] h = cc
  blames_below n j s key (v ∷ []) h = elim (Option-cases (get_latest_before_index (pos n) key s)) [
    | inl e ↦ ground arith
    | inr (w, e) ↦ ground (arith, latest_below n key s w e)
  ]
  blames_below n j s key (v ∷ w ∷ vs) h = cc

  blames_any_below :
      (n : ℕ) (j : ℤ) (s : Store) (rs : ReadSet)
      → blames_any (pos n) s j rs ≡ true
      → lt_int j (pos n) ≡ true
  blames_any_below n j s [] h = cc
  blames_any_below n j s ((key, vs) ∷ rs) h = elim (Bool-cases (blames (pos n) s j key vs)) [
    | inl e ↦ blames_below n j s key vs e
    | inr e ↦ blames_any_below n j s rs (ground arith)
  ]

  -- Conflicts are transactions before the one that is validated: a dependency points backwards.
  pub validate_conflicts_before :
      (n : ℕ) (j : ℤ) (s : Store)
      → has j (validate_transaction_state (pos n) s).1 ≡ true
      → lt_int j (pos n) ≡ true
  validate_conflicts_before n j s h =
      blames_any_below n j s (readset_of (pos n) s) (sym (has-validate_conflicts (pos n) j s) ∙ h)

  add_conflict-IsDistinct : (i : ℤ) (l : List ℤ) → IsDistinct l → IsDistinct (add_conflict i l)
  unfolding add_conflict
  add_conflict-IsDistinct i l h = ground arith

  check_value-IsDistinct :
      (i : ℤ) (key : StorageKey) (v : Hash) (s : Store) (acc : Verdict)
      → IsDistinct acc.1
      → IsDistinct (check_value i key v s acc).1
  unfolding check_value check_version
  check_value-IsDistinct i key v s acc h = elim (Option-cases (get_latest_before_index i key s)) [
    | inl e ↦ ground arith
    | inr (w, e) ↦ ground (arith, add_conflict-IsDistinct w.index acc.1 h)
  ]

  check_entries-IsDistinct :
      (i : ℤ) (rs : ReadSet) (s : Store) (acc : Verdict)
      → IsDistinct acc.1
      → IsDistinct (check_entries i rs s acc).1
  unfolding check_entries check_entry
  check_entries-IsDistinct i [] s acc h = h
  check_entries-IsDistinct i ((key, []) ∷ rs) s acc h =
      check_entries-IsDistinct i rs s (false, acc.1) h
  check_entries-IsDistinct i ((key, v ∷ []) ∷ rs) s acc h =
      check_entries-IsDistinct i rs s (check_value i key v s acc)
        (check_value-IsDistinct i key v s acc h)
  check_entries-IsDistinct i ((key, v ∷ w ∷ vs) ∷ rs) s acc h =
      check_entries-IsDistinct i rs s (false, acc.1) h

  sort_ints-IsAscending : (l : List ℤ) → IsDistinct l → IsAscending (sort_ints l)
  unfolding sort_ints
  sort_ints-IsAscending [] h = tt
  sort_ints-IsAscending (x ∷ l) h =
      insert_int-IsAscending x (sort_ints l) (has-sort_ints x l ∙ h.0) (sort_ints-IsAscending l h.1)

  -- The conflicts are reported in ascending order, each once.
  pub validate_conflicts-IsAscending :
      (i : ℤ) (s : Store) → IsAscending (validate_transaction_state i s).1
  unfolding validate_transaction_state
  validate_conflicts-IsAscending i s = item (get i s.tx_read_sets)
    where
      item :
          (o : Option ReadSet)
          → IsAscending
              (elim o as (λ _. Verdict) [
                | none ↦ (true, [])
                | some rs ↦
                    let (valid, conflicts) = check_entries i rs s (true, []) in
                    (valid, sort_ints conflicts)
              ]).1
      item none = tt
      item (some rs) =
          sort_ints-IsAscending (check_entries i rs s (true, [])).1
            (check_entries-IsDistinct i rs s (true, []) tt)

-- ===== src/Store/Validation/Verdicts.antt =====
-- When multiversion/store.go accepts a readset, and which conflicts it reports.
use go_pevm.Shared.{
  ℤ, ◌≡◌, refl, ◌↔◌, Bool, true, false, not, Option, none, some, List, [], ◌∷◌, arith, is, ◌=?◌,
  ◌&&◌, ◌||◌, has, get, if◌then◌else◌, ℤ_eq, bytes_eq, inl, inr, Option-cases,
}
use go_pevm.External.Kaia.{Kaia}
use go_pevm.External.BTree.{BTree}
use go_pevm.Versions.{less, is_deleted}
use go_pevm.Keys.{StorageKey, get_value}
use go_pevm.Store.{Store, ReadSet, get_latest_before_index, add_conflict, sort_ints, insert_int}
use go_pevm.Store.Validation.{
  Verdict, check_version, check_value, check_entry, check_entries, validate_transaction_state,
}

pub has-add_conflict : (i j : ℤ) (l : List ℤ) → has j (add_conflict i l) ≡ (is (i =? j) || has j l)
unfolding add_conflict
has-add_conflict i j l = ground arith

has-insert_int : (j x : ℤ) (l : List ℤ) → has j (insert_int x l) ≡ has j (x ∷ l)
unfolding insert_int
has-insert_int j x [] = refl
has-insert_int j x (y ∷ l) = ground (arith, has-insert_int j x l)

pub has-sort_ints : (j : ℤ) (l : List ℤ) → has j (sort_ints l) ≡ has j l
unfolding sort_ints
has-sort_ints j [] = refl
has-sort_ints j (x ∷ l) = ground (arith, has-insert_int j x (sort_ints l), has-sort_ints j l)

module _ ⦃k : Kaia⦄ ⦃b : BTree less⦄ where
  open k use {Hash, zero_hash, hash_discrete}

  -- What transaction `i` would see of a key now: the value of the latest version before it, or of
  -- the parent state; nothing if the version is an estimate.
  abbrev pub expected : ℤ → StorageKey → Store → Option Hash
  expected i key s = elim (get_latest_before_index i key s) [
    | none ↦ some (get_value key s.parent_store)
    | some v ↦ if v.estimate then none else some v.value
  ]

  -- Every key was read once, with the value that the transaction would see now.
  abbrev pub IsCurrent : ℤ → Store → ReadSet → Type 0
  IsCurrent i s [] = Unit
  IsCurrent i s ((key, values) ∷ rs) =
      ((v : Hash) × (values ≡ v ∷ []) × (expected i key s ≡ some v)) × IsCurrent i s rs

  check_value_valid :
      (i : ℤ) (key : StorageKey) (v : Hash) (s : Store) (valid : Bool) (cs : List ℤ)
      → ((check_value i key v s (valid, cs)).0 ≡ true)
        ↔ ((valid ≡ true) × (expected i key s ≡ some v))
  unfolding check_value check_version is_deleted
  check_value_valid i key v s valid cs = (λ h. ground arith, λ h. ground arith)

  abbrev ReadOnce : ℤ → Store → StorageKey → List Hash → Type 0
  ReadOnce i s key values = (v : Hash) × (values ≡ v ∷ []) × (expected i key s ≡ some v)

  check_entry_valid :
      (i : ℤ) (key : StorageKey) (vs : List Hash) (s : Store) (acc : Verdict)
      → (check_entry i key vs s acc).0 ≡ true
      → (acc.0 ≡ true) × ReadOnce i s key vs
  unfolding check_entry
  check_entry_valid i key [] s acc h = cc
  check_entry_valid i key (v ∷ []) s acc h =
      let both = (check_value_valid i key v s acc.0 acc.1).0 h in (both.0, (v, refl, both.1))
  check_entry_valid i key (v ∷ w ∷ vs) s acc h = cc

  check_entry_current :
      (i : ℤ) (key : StorageKey) (vs : List Hash) (s : Store) (acc : Verdict)
      → acc.0 ≡ true
      → ReadOnce i s key vs
      → (check_entry i key vs s acc).0 ≡ true
  unfolding check_entry
  check_entry_current i key vs s acc e (v, p, q) =
      rw (p, check_entry) ((check_value_valid i key v s acc.0 acc.1).1 (e, q))

  check_entries_valid :
      (i : ℤ) (rs : ReadSet) (s : Store) (acc : Verdict)
      → (check_entries i rs s acc).0 ≡ true
      → (acc.0 ≡ true) × IsCurrent i s rs
  unfolding check_entries
  check_entries_valid i [] s acc h = (h, tt)
  check_entries_valid i ((key, vs) ∷ rs) s acc h =
      let rest = check_entries_valid i rs s (check_entry i key vs s acc) h in
      let here = check_entry_valid i key vs s acc rest.0 in (here.0, (here.1, rest.1))

  check_entries_current :
      (i : ℤ) (rs : ReadSet) (s : Store) (acc : Verdict)
      → acc.0 ≡ true
      → IsCurrent i s rs
      → (check_entries i rs s acc).0 ≡ true
  unfolding check_entries
  check_entries_current i [] s acc e h = e
  check_entries_current i ((key, vs) ∷ rs) s acc e h =
      check_entries_current i rs s (check_entry i key vs s acc)
        (check_entry_current i key vs s acc e h.0) h.1

  -- The readset of a transaction; a missing one has no entries.
  abbrev pub readset_of : ℤ → Store → ReadSet
  readset_of i s = elim (get i s.tx_read_sets) [ none ↦ [] | some rs ↦ rs ]

  abbrev verdict_of : ℤ → Store → Option ReadSet → Verdict
  verdict_of i s o = elim o [
    | none ↦ (true, [])
    | some rs ↦
        let (valid, conflicts) = check_entries i rs s (true, []) in (valid, sort_ints conflicts)
  ]

  valid_item :
      (i : ℤ) (s : Store) (o : Option ReadSet)
      → ((verdict_of i s o).0 ≡ true) ↔ IsCurrent i s (elim o [ none ↦ [] | some rs ↦ rs ])
  valid_item i s none = (λ h. tt, λ h. refl)
  valid_item i s (some rs) = (
    λ h. (check_entries_valid i rs s (true, []) h).1,
    λ h. check_entries_current i rs s (true, []) refl h,
  )

  -- A transaction validates exactly if every key that it has read was read with one value, the one
  -- that it would see now: the value of the latest version before it, no estimate, or of the parent
  -- state where there is no such version.
  pub validate_valid_iff :
      (i : ℤ) (s : Store)
      → ((validate_transaction_state i s).0 ≡ true) ↔ IsCurrent i s (readset_of i s)
  unfolding validate_transaction_state
  validate_valid_iff i s = valid_item i s (get i s.tx_read_sets)

  -- Whether an entry of the readset was made with a value that the version before `i` of its key,
  -- that of transaction `j`, does not have.
  abbrev pub blames : ℤ → Store → ℤ → StorageKey → List Hash → Bool
  blames i s j key [] = false
  blames i s j key (v ∷ []) = elim (get_latest_before_index i key s) [
    | none ↦ false
    | some w ↦ is (w.index =? j) && (w.estimate || not (is (hash_discrete w.value v)))
  ]
  blames i s j key (v ∷ w ∷ vs) = false

  abbrev pub blames_any : ℤ → Store → ℤ → ReadSet → Bool
  blames_any i s j [] = false
  blames_any i s j ((key, vs) ∷ rs) = blames i s j key vs || blames_any i s j rs

  has-check_value :
      (i j : ℤ) (key : StorageKey) (v : Hash) (s : Store) (acc : Verdict)
      → has j (check_value i key v s acc).1 ≡ (blames i s j key (v ∷ []) || has j acc.1)
  unfolding check_value check_version is_deleted
  has-check_value i j key v s acc = elim (Option-cases (get_latest_before_index i key s)) [
    | inl e ↦ ground arith
    | inr (w, e) ↦ ground (arith, has-add_conflict w.index j acc.1)
  ]

  has-check_entries :
      (i j : ℤ) (rs : ReadSet) (s : Store) (acc : Verdict)
      → has j (check_entries i rs s acc).1 ≡ (has j acc.1 || blames_any i s j rs)
  unfolding check_entries check_entry
  has-check_entries i j [] s acc = ground arith
  has-check_entries i j ((key, []) ∷ rs) s acc =
      ground (arith, has-check_entries i j rs s (false, acc.1))
  has-check_entries i j ((key, v ∷ []) ∷ rs) s acc = ground (
    arith,
    has-check_entries i j rs s (check_value i key v s acc),
    has-check_value i j key v s acc,
  )
  has-check_entries i j ((key, v ∷ w ∷ vs) ∷ rs) s acc =
      ground (arith, has-check_entries i j rs s (false, acc.1))

  blame_item :
      (i j : ℤ) (s : Store) (o : Option ReadSet)
      → has j (verdict_of i s o).1 ≡ blames_any i s j (elim o [ none ↦ [] | some rs ↦ rs ])
  blame_item i j s none = refl
  blame_item i j s (some rs) = ground (
    arith,
    has-sort_ints j (check_entries i rs s (true, [])).1,
    has-check_entries i j rs s (true, []),
  )

  -- A transaction is reported as a conflict exactly if the version that it has of a key, the latest
  -- before `i`, is an estimate or has another value than the single one that was read.
  pub has-validate_conflicts :
      (i j : ℤ) (s : Store)
      → has j (validate_transaction_state i s).1 ≡ blames_any i s j (readset_of i s)
  unfolding validate_transaction_state
  has-validate_conflicts i j s = blame_item i j s (get i s.tx_read_sets)

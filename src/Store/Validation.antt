-- ===== src/Store/Validation.antt =====
-- multiversion/store.go: checkReadsetAtIndex and ValidateTransactionState.
pub mod Verdicts
pub mod Conflicts
use go_pevm.Shared.{
  ℕ, ℤ, pos, ◌≡◌, Bool, true, false, not, Option, none, some, List, [], ◌∷◌, is, get, if◌then◌else◌,
  ℤ_eq, bytes_eq, Map,
}
use go_pevm.External.Kaia.{Kaia}
use go_pevm.External.BTree.{BTree}
use go_pevm.Versions.{ValueItem, less, is_deleted}
use go_pevm.Keys.{StorageKey, get_value}
use go_pevm.Store.{Store, ReadSet, get_latest_before_index, add_conflict, sort_ints}

-- `valid`, and the keys of `conflictSet`
abbrev pub Verdict : Type 0
Verdict = Bool × List ℤ

module _ ⦃k : Kaia⦄ where
  open k use {Hash, zero_hash, hash_discrete}

  -- The branch for a key that a transaction before has a version of.
  unfoldable pub check_version : ValueItem → Hash → Verdict → Verdict
  check_version v value (valid, conflicts) =
      if v.estimate
      then (false, add_conflict v.index conflicts)
      else if is_deleted v
      then (if not (is (hash_discrete value zero_hash))
          then (false, add_conflict v.index conflicts)
          else (valid, conflicts))
      else if not (is (hash_discrete v.value value))
      then (false, add_conflict v.index conflicts)
      else (valid, conflicts)

module _ ⦃k : Kaia⦄ ⦃b : BTree less⦄ where
  open k use {Hash, hash_discrete}

  unfoldable pub check_value : ℤ → StorageKey → Hash → Store → Verdict → Verdict
  check_value i key value s (valid, conflicts) = elim (get_latest_before_index i key s) [
    | none ↦
        if not (is (hash_discrete (get_value key s.parent_store) value))
        then (false, conflicts)
        else (valid, conflicts)
    | some v ↦ check_version v value (valid, conflicts)
  ]

  -- Anything but one value makes the entry invalid.
  unfoldable pub check_entry : ℤ → StorageKey → List Hash → Store → Verdict → Verdict
  check_entry i key [] s (valid, conflicts) = (false, conflicts)
  check_entry i key (value ∷ []) s acc = check_value i key value s acc
  check_entry i key (value ∷ w ∷ more) s (valid, conflicts) = (false, conflicts)

  -- The loop over the readset.
  unfoldable pub check_entries : ℤ → ReadSet → Store → Verdict → Verdict
  check_entries i [] s acc = acc
  check_entries i ((key, values) ∷ rs) s acc = check_entries i rs s (check_entry i key values s acc)

  unfoldable pub check_readset_at_index : ℤ → Store → Verdict
  check_readset_at_index i s = elim (get i s.tx_read_sets) [
    | none ↦ (true, [])
    | some rs ↦
        let (valid, conflicts) = check_entries i rs s (true, []) in (valid, sort_ints conflicts)
  ]

  unfoldable pub validate_transaction_state : ℤ → Store → Verdict
  unfolding check_readset_at_index
  validate_transaction_state i s = check_readset_at_index i s

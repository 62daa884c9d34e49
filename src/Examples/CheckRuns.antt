-- ===== src/Examples/CheckRuns.antt =====
-- The theorems on validation and on flushes at concrete inputs.
use go_pevm.Shared.{
  Option, false, ◌≡◌, ◌↔◌, refl, ℤ, pos, lt_int, lt_bytes, dec_int, true, none, some, [], ◌∷◌,
  arith, ℕ_discrete, ℤ_eq, bytes_eq, ℤ-discrete, Bytes-discrete, get, put, has, keys,
  set_bytes_from,
}
use mathlib.Core.Path.{subst}
use go_pevm.Versions
use go_pevm.Versions.{ValueItem, less, new_value_item, is_deleted, first_non_estimate}
use go_pevm.Keys.{StorageKey, to_storage_key, address, slot}
use go_pevm.Store
use go_pevm.Store.{
  Store, WriteSet, ReadSet, new_multi_version_store, set_writeset, set_readset, sort_keys,
  add_conflict, sort_ints,
}
use go_pevm.Store.Versioned.{written}
use go_pevm.Store.Invariant.{version, version-set_writeset}
use go_pevm.Store.Validation.{
  check_entries, check_entry, check_value, check_version, validate_transaction_state,
}
use go_pevm.Store.Validation.Verdicts.{
  IsCurrent, readset_of, blames_any, validate_valid_iff, has-validate_conflicts,
}
use go_pevm.Store.Validation.Conflicts.{validate_conflicts_before}
use go_pevm.Store.Flush.{flush_key_until, write_latest_to_store_until}
use go_pevm.Store.Flush.Windows.{IsWithin, flush_until_skips}
use go_pevm.Store.Flush.States.{write_latest_to_store_until_state}
use go_pevm.Versions.Order.{IsLatestNonEstimate}
use go_pevm.Store.Flush.Windows.{left_by}
use go_pevm.Examples.Trees.{list_tree}
use go_pevm.Examples.Packages.{Cells, small, small_texts, small_cells, cells}
use go_pevm.Examples.StoreRuns.{key, empty, empty-IsTracked, writes, writes-IsMap, one_written}

-- What a run of the store computes with.
unfoldable pub opened : Unit {0}
unfolding Store.get_latest_before_index Versions.get_latest_before_index dec_int set_writeset
    Store.remove_old_writeset Store.sort_keys Store.write_all Store.update_item Store.write_version
    Versions.delete Versions.set new_multi_version_store get put ℤ-discrete Bytes-discrete
    ℕ_discrete lt_bytes
opened = tt

-- Transaction 1 has read the value that transaction 0 has written, or another one.
abbrev pub current : Store
current = set_readset (pos 1) ((key, 6 ∷ []) ∷ []) one_written

abbrev pub stale : Store
stale = set_readset (pos 1) ((key, 4 ∷ []) ∷ []) one_written

validate_valid_iff_example :
    ((validate_transaction_state (pos 1) current).0 ≡ true)
    ↔ IsCurrent (pos 1) current (readset_of (pos 1) current)
validate_valid_iff_example = validate_valid_iff (pos 1) current

has-validate_conflicts_example :
    has (pos 0) (validate_transaction_state (pos 1) stale).1
    ≡ blames_any (pos 1) stale (pos 0) (readset_of (pos 1) stale)
has-validate_conflicts_example = has-validate_conflicts (pos 1) (pos 0) stale

pub current_valid : (validate_transaction_state (pos 1) current).0 ≡ true
unfolding validate_transaction_state opened check_entries check_entry check_value check_version
    is_deleted set_readset sort_ints
current_valid = refl

stale_conflict : has (pos 0) (validate_transaction_state (pos 1) stale).1 ≡ true
unfolding validate_transaction_state opened check_entries check_entry check_value check_version
    is_deleted set_readset sort_ints add_conflict
stale_conflict = refl

validate_conflicts_before_example : lt_int (pos 0) (pos 1) ≡ true
validate_conflicts_before_example = validate_conflicts_before 1 (pos 0) stale stale_conflict

-- Transactions 0 and 5 have written the key; the window ends at 3.
abbrev two_written : Store
two_written = set_writeset (pos 5) 0 ((key, 9) ∷ []) one_written

later_version : version key (pos 5) two_written ≡ some (new_value_item (pos 5) 0 9)
unfolding opened Versions.version_at Store.version_in
later_version = refl

flush_until_skips_example : flush_key_until (pos 0) (pos 3) key two_written cells ≡ some cells
flush_until_skips_example =
    flush_until_skips (pos 0) (pos 3) (pos 5) key two_written (new_value_item (pos 5) 0 9) cells
      later_version refl refl

abbrev from_key : StorageKey
from_key = to_storage_key 7 3

abbrev slot_written : Store
slot_written = set_writeset (pos 0) 0 ((from_key, 6) ∷ []) empty

slot_written-keys : keys slot_written.multi_version_map ≡ from_key ∷ []
unfolding opened
slot_written-keys = refl

only_from_key : (q : StorageKey) → has q (from_key ∷ []) ≡ true → from_key ≡ q
only_from_key q h = ground arith

from_key_made : from_key ≡ to_storage_key (address from_key) (slot from_key)
unfolding to_storage_key address slot ℕ_discrete
from_key_made = refl

write_latest_to_store_until_state_example :
    (st : Cells) × (o : Option ValueItem) × (write_latest_to_store_until
        (pos 0)
        (pos 1)
        slot_written
        cells
      ≡ some (small.finalise true false st))
    × IsLatestNonEstimate (λ j. version from_key j slot_written) o
    × (st.slots 7 3 ≡ left_by (pos 0) (pos 1) o 4)
unfolding set_bytes_from ℕ_discrete
write_latest_to_store_until_state_example =
    write_latest_to_store_until_state small_texts small_cells (pos 0) (pos 1) 7 3 slot_written cells
      (λ p. omega arith) (λ p. omega arith)
      (λ q h.
        subst (λ r. r ≡ to_storage_key (address r) (slot r))
          (only_from_key q (rw slot_written-keys at h)) from_key_made)

-- Every version of this store is that of transaction 0.
no_version : (q : StorageKey) (j : ℤ) → version q j empty ≡ none
unfolding new_multi_version_store Store.version_in get
no_version q j = refl

one_version :
    (q : StorageKey) (j : ℤ) (v : ValueItem) → version q j one_written ≡ some v → v.index ≡ pos 0
unfolding written
one_version q j v h = ground (
  arith,
  version-set_writeset (pos 0) j 0 writes q empty empty-IsTracked writes-IsMap,
  no_version q j,
)

one_written-IsWithin : IsWithin (pos 0) (pos 1) one_written
one_written-IsWithin = record { within = λ q j v h. rw (one_version q j v h) }

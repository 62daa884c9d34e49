-- ===== src/Examples/StoreRuns.antt =====
-- The theorems on versions, keys and the store at concrete inputs.
use go_pevm.Shared.{
  lt_bytes, ◌≡◌, refl, ◌∙◌, pos, some, [], ◌∷◌, ite, ◌=?◌, ℕ_discrete, ℤ_eq, bytes_eq, ℤ-discrete,
  Bytes-discrete, get, put, IsMap,
}
use go_pevm.Versions
use go_pevm.Versions.{
  ValueItem, less, new_value_item, new_estimate_item, version_at, get_latest_before_index,
  get_latest_non_estimate,
}
use go_pevm.Versions.Order.{IsLatestBelow}
use go_pevm.Versions.Reads.{get_latest_before_index-IsLatestBelow}
use go_pevm.Keys.{StorageKey, to_storage_key, address, slot}
use go_pevm.Keys.RoundTrip.{address-slot-to_storage_key}
use go_pevm.Store
use go_pevm.Store.{
  Store, WriteSet, ReadSet, new_multi_version_store, set_writeset, set_estimated_writeset,
  invalidate_writeset, set_readset,
}
use go_pevm.Store.Versioned.{written, fresh}
use go_pevm.Store.Invariant.{
  IsTracked, version, new_multi_version_store-IsTracked, version-set_writeset,
  set_writeset-IsTracked, version-invalidate_writeset,
}
use go_pevm.Store.Reads.{read-set_writeset_after}
use go_pevm.Examples.Trees.{list_tree}
use go_pevm.Examples.Packages.{small, small_texts, cells}

tree : (list_tree ⦃k = small⦄).Tree
tree = Versions.set_estimate (pos 2) 1 (Versions.set (pos 0) 0 9 list_tree.new)

get_latest_before_index-IsLatestBelow_example :
    IsLatestBelow (λ j. version_at j tree) (pos 2) (get_latest_before_index (pos 2) tree)
get_latest_before_index-IsLatestBelow_example = get_latest_before_index-IsLatestBelow 2 tree

address-slot-to_storage_key_example :
    (address (to_storage_key 7 3) ≡ 7) × (slot (to_storage_key 7 3) ≡ 3)
address-slot-to_storage_key_example = address-slot-to_storage_key small_texts 7 3

abbrev pub key : StorageKey
key = 66 ∷ 58 ∷ 62 ∷ []

abbrev pub other_key : StorageKey
other_key = 66 ∷ 58 ∷ 63 ∷ []

abbrev pub empty : Store
empty = new_multi_version_store cells

abbrev pub writes : WriteSet
writes = (key, 6) ∷ (other_key, 0) ∷ []

pub empty-IsTracked : IsTracked empty
empty-IsTracked = new_multi_version_store-IsTracked cells

abbrev estimates : WriteSet
estimates = (other_key, 3) ∷ []

pub writes-IsMap : IsMap writes
unfolding get Bytes-discrete ℕ_discrete
writes-IsMap = (refl, (refl, tt))

abbrev pub one_written : Store
one_written = set_writeset (pos 0) 0 writes empty

pub one_written-IsTracked : IsTracked one_written
one_written-IsTracked = set_writeset-IsTracked (pos 0) 0 writes empty empty-IsTracked writes-IsMap

version-set_writeset_example :
    version other_key (pos 0) (set_writeset (pos 0) 0 writes empty)
    ≡ ite
        (pos 0 =? pos 0)
        (fresh (pos 0) 0 (get other_key writes))
        (version other_key (pos 0) empty)
version-set_writeset_example =
    version-set_writeset (pos 0) (pos 0) 0 writes other_key empty empty-IsTracked writes-IsMap

key_written : get key writes ≡ some 6
unfolding get Bytes-discrete ℕ_discrete
key_written = refl

read-set_writeset_after_example :
    Store.get_latest_before_index (pos 1) key one_written ≡ some (written (pos 0) 0 6)
read-set_writeset_after_example =
    read-set_writeset_after 1 (pos 0) 0 writes key empty 6 empty-IsTracked writes-IsMap key_written
      refl (λ j p q. unfold new_multi_version_store Store.version_in get in refl)

key_estimate :
    version key (pos 0) (invalidate_writeset (pos 0) 3 one_written)
    ≡ some (new_estimate_item (pos 0) 3)
unfolding set_writeset Store.remove_old_writeset Store.sort_keys new_multi_version_store get put
    ℤ-discrete Bytes-discrete ℕ_discrete lt_bytes
key_estimate = version-invalidate_writeset (pos 0) (pos 0) 3 key one_written ∙ refl

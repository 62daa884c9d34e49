-- ===== src/Versions.antt =====
-- multiversion/data_structure.go: the versions of one key, in a B-tree ordered by transaction
-- index. A method of `*multiversionItem` that writes returns the new tree. Its lock makes each
-- method one atomic step.
pub mod Order
pub mod Reads
pub mod Writes
use go_pevm.Shared.{
  ℕ, ℤ, Bool, true, false, not, ◌&&◌, Option, none, some, List, [], ◌∷◌, is, lt_int, dec_int,
  if◌then◌else◌,
}
use go_pevm.External.Kaia.{Kaia}
use go_pevm.External.BTree.{BTree, find, first}

module _ ⦃k : Kaia⦄ where
  open k use {Hash, zero_hash, hash_discrete}

  -- `type valueItem struct`
  pub record ValueItem : Type 0 where
    pub index : ℤ
    pub incarnation : ℕ
    pub value : Hash
    pub estimate : Bool

  -- (*valueItem).IsDeleted
  unfoldable pub is_deleted : ValueItem → Bool
  is_deleted v = is (hash_discrete v.value zero_hash) && not v.estimate

  -- (*valueItem).Less
  abbrev pub less : ValueItem → ValueItem → Bool
  less v w = lt_int v.index w.index

  abbrev pub new_value_item : ℤ → ℕ → Hash → ValueItem
  new_value_item i n v = record { index = i; incarnation = n; value = v; estimate = false }

  abbrev pub new_estimate_item : ℤ → ℕ → ValueItem
  new_estimate_item i n = record { index = i; incarnation = n; value = zero_hash; estimate = true }

  abbrev pub new_deleted_item : ℤ → ℕ → ValueItem
  new_deleted_item i n = record { index = i; incarnation = n; value = zero_hash; estimate = false }

  -- `&valueItem{index: i}`, the other fields at their zero values
  abbrev pub pivot : ℤ → ValueItem
  pivot i = record { index = i; incarnation = 0; value = zero_hash; estimate = false }

  -- The callback of GetLatestNonEstimate: it asks for the next item as long as it sees estimates.
  unfoldable pub first_non_estimate : List ValueItem → Option ValueItem
  first_non_estimate [] = none
  first_non_estimate (v ∷ l) =
      let rest = first_non_estimate l in if v.estimate then rest else some v

module _ ⦃k : Kaia⦄ ⦃b : BTree less⦄ where
  open k use {Hash, zero_hash, hash_discrete}
  open b use {Tree}

  -- (*multiVersionItem).GetLatest
  unfoldable pub get_latest : Tree → Option ValueItem
  get_latest t = b.max t

  -- (*multiVersionItem).GetLatestNonEstimate
  unfoldable pub get_latest_non_estimate : Tree → Option ValueItem
  unfolding first_non_estimate
  get_latest_non_estimate t = first_non_estimate (b.descend t)

  -- (*multiVersionItem).GetLatestBeforeIndex; the callback stops at the first item
  unfoldable pub get_latest_before_index : ℤ → Tree → Option ValueItem
  get_latest_before_index i t = first (b.descend_less_or_equal (pivot (dec_int i)) t)

  -- (*multiVersionItem).Set
  unfoldable pub set : ℤ → ℕ → Hash → Tree → Tree
  set i n v t =
      if is (hash_discrete v zero_hash) then t else b.replace_or_insert (new_value_item i n v) t

  -- (*multiVersionItem).Delete
  unfoldable pub delete : ℤ → ℕ → Tree → Tree
  delete i n t = b.replace_or_insert (new_deleted_item i n) t

  -- (*multiVersionItem).Remove
  unfoldable pub remove : ℤ → Tree → Tree
  remove i t = b.delete (pivot i) t

  -- (*multiVersionItem).SetEstimate
  unfoldable pub set_estimate : ℤ → ℕ → Tree → Tree
  set_estimate i n t = b.replace_or_insert (new_estimate_item i n) t

  -- The abstract view of a tree: the version that each transaction has written, if any.
  unfoldable pub version_at : ℤ → Tree → Option ValueItem
  version_at i t = find less (pivot i) (b.descend t)

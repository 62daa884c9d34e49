-- ===== src/Store.antt =====
-- multiversion/store.go: the versions of every key, and the keys that each transaction has written
-- and read. A method that writes returns the new store. `txIterateSets` is never used, and is left
-- out; `parentStore` is the scheduler's own state, so a flush is followed by an update of the field.
pub mod Versioned
pub mod Invariant
pub mod Listings
pub mod Refinement
pub mod Orders
pub mod Reads
pub mod Validation
pub mod Flush
use go_pevm.Shared.{
  ℕ, ℤ, ◌≡◌, Bool, true, false, not, ◌&&◌, Option, none, some, List, [], ◌∷◌, ite, is, Map, keys,
  has, get, put, drop_key, lt_bytes, lt_int, is_some, if◌then◌else◌, ℤ_eq, bytes_eq,
}
use go_pevm.External.Kaia.{Kaia}
use go_pevm.External.BTree.{BTree}
use go_pevm.Versions
use go_pevm.Versions.{ValueItem, less, is_deleted}
use go_pevm.Keys.{StorageKey, get_value, set_value}

module _ ⦃k : Kaia⦄ where
  abbrev pub WriteSet : Type 0
  WriteSet = Map StorageKey k.Hash

  abbrev pub ReadSet : Type 0
  ReadSet = Map StorageKey (List k.Hash)

-- sort.Slice by `String() <` and sort.Ints: the sorted order of a slice
unfoldable pub insert_key : StorageKey → List StorageKey → List StorageKey
insert_key x [] = x ∷ []
insert_key x (y ∷ l) = if lt_bytes y x then y ∷ insert_key x l else x ∷ y ∷ l

unfoldable pub sort_keys : List StorageKey → List StorageKey
unfolding insert_key
sort_keys [] = []
sort_keys (x ∷ l) = insert_key x (sort_keys l)

unfoldable pub insert_int : ℤ → List ℤ → List ℤ
insert_int x [] = x ∷ []
insert_int x (y ∷ l) = if lt_int y x then y ∷ insert_int x l else x ∷ y ∷ l

unfoldable pub sort_ints : List ℤ → List ℤ
unfolding insert_int
sort_ints [] = []
sort_ints (x ∷ l) = insert_int x (sort_ints l)

-- conflictSet[i] = struct{}{}, on the keys of the map
unfoldable pub add_conflict : ℤ → List ℤ → List ℤ
add_conflict i l = if has i l then l else i ∷ l

module _ ⦃k : Kaia⦄ ⦃b : BTree less⦄ where
  open k use {Hash, StateDb, zero_hash, hash_discrete}
  open b use {Tree}

  pub record Store : Type 0 where
    pub multi_version_map : Map StorageKey Tree
    pub tx_writeset_keys : Map ℤ (List StorageKey)
    pub tx_read_sets : Map ℤ ReadSet
    pub parent_store : StateDb

  unfoldable pub new_multi_version_store : StateDb → Store
  new_multi_version_store st = record {
    multi_version_map = [];
    tx_writeset_keys = [];
    tx_read_sets = [];
    parent_store = st;
  }

  -- multiVersionMap.LoadOrStore(key, NewMultiVersionItem()), the tree that it returns
  abbrev pub or_new : Option Tree → Tree
  or_new none = b.new
  or_new (some t) = t

  -- A method of the item behind a key writes through the pointer in the map.
  unfoldable pub update_item :
      StorageKey → (Tree → Tree) → Map StorageKey Tree → Map StorageKey Tree
  update_item key f m = put key (f (or_new (get key m))) m

  unfoldable pub get_latest : StorageKey → Store → Option ValueItem
  get_latest key s = elim (get key s.multi_version_map) [
    | none ↦ none
    | some t ↦ Versions.get_latest t
  ]

  unfoldable pub get_latest_before_index : ℤ → StorageKey → Store → Option ValueItem
  get_latest_before_index i key s = elim (get key s.multi_version_map) [
    | none ↦ none
    | some t ↦ Versions.get_latest_before_index i t
  ]

  -- (*Store).Has
  unfoldable pub has_before_index : ℤ → StorageKey → Store → Bool
  has_before_index i key s = elim (get key s.multi_version_map) [
    | none ↦ false
    | some t ↦ is_some (Versions.get_latest_before_index i t)
  ]

  -- The loop of removeOldWriteset over the keys of the old writeset.
  unfoldable pub remove_item : ℤ → StorageKey → Map StorageKey Tree → Map StorageKey Tree
  remove_item i key m = elim (get key m) [ none ↦ m | some t ↦ put key (Versions.remove i t) m ]

  unfoldable pub remove_keys :
      ℤ → WriteSet → List StorageKey → Map StorageKey Tree → Map StorageKey Tree
  remove_keys i ws [] m = m
  remove_keys i ws (key ∷ old) m =
      remove_keys i ws old (if is_some (get key ws) then m else remove_item i key m)

  -- LoadAndDelete takes the old keys out of txWritesetKeys before they are removed.
  unfoldable pub remove_old_writeset : ℤ → WriteSet → Store → Store
  remove_old_writeset i ws s = elim (get i s.tx_writeset_keys) [
    | none ↦ s
    | some old ↦ record s {
      multi_version_map = remove_keys i ws old s.multi_version_map;
      tx_writeset_keys = drop_key i s.tx_writeset_keys;
    }
  ]

  unfoldable pub write_version : ℤ → ℕ → Hash → Tree → Tree
  write_version i n v t =
      if is (hash_discrete v zero_hash) then Versions.delete i n t else Versions.set i n v t

  unfoldable pub write_all : ℤ → ℕ → WriteSet → Map StorageKey Tree → Map StorageKey Tree
  write_all i n [] m = m
  write_all i n ((key, v) ∷ ws) m = write_all i n ws (update_item key (write_version i n v) m)

  unfoldable pub set_writeset : ℤ → ℕ → WriteSet → Store → Store
  set_writeset i n ws s =
      let s' = remove_old_writeset i ws s in
      record s' {
        multi_version_map = write_all i n ws s'.multi_version_map;
        tx_writeset_keys = put i (sort_keys (keys ws)) s'.tx_writeset_keys;
      }

  unfoldable pub estimate_all : ℤ → ℕ → List StorageKey → Map StorageKey Tree → Map StorageKey Tree
  estimate_all i n [] m = m
  estimate_all i n (key ∷ l) m = estimate_all i n l (update_item key (Versions.set_estimate i n) m)

  unfoldable pub invalidate_writeset : ℤ → ℕ → Store → Store
  invalidate_writeset i n s = elim (get i s.tx_writeset_keys) [
    | none ↦ s
    | some l ↦ record s { multi_version_map = estimate_all i n l s.multi_version_map }
  ]

  unfoldable pub set_estimated_writeset : ℤ → ℕ → WriteSet → Store → Store
  set_estimated_writeset i n ws s =
      let s' = remove_old_writeset i ws s in
      record s' {
        multi_version_map = estimate_all i n (keys ws) s'.multi_version_map;
        tx_writeset_keys = put i (sort_keys (keys ws)) s'.tx_writeset_keys;
      }

  unfoldable pub set_readset : ℤ → ReadSet → Store → Store
  set_readset i rs s = record s { tx_read_sets = put i rs s.tx_read_sets }

  -- `none` is the nil map.
  unfoldable pub get_readset : ℤ → Store → Option ReadSet
  get_readset i s = get i s.tx_read_sets

  unfoldable pub clear_readset : ℤ → Store → Store
  clear_readset i s = record s { tx_read_sets = drop_key i s.tx_read_sets }

  -- The abstract view of a store: the version that transaction `i` has of a key.
  unfoldable pub version_in : StorageKey → ℤ → Map StorageKey Tree → Option ValueItem
  version_in key i m = elim (get key m) [ none ↦ none | some t ↦ Versions.version_at i t ]

-- ===== src/Store/Flush.antt =====
-- multiversion/store.go: WriteLatestToStore and WriteLatestToStoreUntil, which write the versions
-- into the state. `none` stands for the panic on an estimate.
pub mod Windows
pub mod Parts
pub mod States
pub mod Accounts
pub mod Views
use go_pevm.Shared.{
  ℤ, Bool, true, false, not, ◌||◌, Option, none, some, List, [], ◌∷◌, Map, keys, get, is, lt_int,
  bytes_eq, if◌then◌else◌,
}
use go_pevm.External.Kaia.{Kaia}
use go_pevm.External.BTree.{BTree}
use go_pevm.Versions
use go_pevm.Versions.{ValueItem, less, is_deleted}
use go_pevm.Keys.{StorageKey, set_value}
use go_pevm.Store.{Store, sort_keys}

infixl 5 ◌>>=◌
abbrev pub ◌>>=◌ : {A B : Type 0} → Option A → (A → Option B) → Option B
none >>= f = none
some a >>= f = f a

module _ ⦃k : Kaia⦄ where
  open k use {StateDb, zero_hash, hash_discrete}

  -- The end of both loop bodies: a deletion writes the zero hash.
  unfoldable pub store_version : StorageKey → ValueItem → StateDb → StateDb
  store_version key v st =
      if is_deleted v
      then set_value key zero_hash st
      else if not (is (hash_discrete v.value zero_hash))
      then set_value key v.value st
      else st

  unfoldable pub flush_version : StorageKey → ValueItem → StateDb → Option StateDb
  unfolding store_version
  flush_version key v st = if v.estimate then none else some (store_version key v st)

  unfoldable pub flush_version_until : ℤ → ℤ → StorageKey → ValueItem → StateDb → Option StateDb
  unfolding store_version
  flush_version_until last start key v st =
      if v.estimate
      then none
      else if lt_int v.index last || not (lt_int v.index start)
      then some st
      else some (store_version key v st)

module _ ⦃k : Kaia⦄ ⦃b : BTree less⦄ where
  open k use {StateDb}

  -- Load and GetLatestNonEstimate; `none` is one of the two `continue`s.
  unfoldable pub latest_non_estimate : StorageKey → Store → Option ValueItem
  latest_non_estimate key s = elim (get key s.multi_version_map) [
    | none ↦ none
    | some t ↦ Versions.get_latest_non_estimate t
  ]

  unfoldable pub flush_key : StorageKey → Store → StateDb → Option StateDb
  unfolding flush_version
  flush_key key s st = elim (latest_non_estimate key s) [
    | none ↦ some st
    | some v ↦ flush_version key v st
  ]

  unfoldable pub flush_key_until : ℤ → ℤ → StorageKey → Store → StateDb → Option StateDb
  unfolding flush_version_until
  flush_key_until last start key s st = elim (latest_non_estimate key s) [
    | none ↦ some st
    | some v ↦ flush_version_until last start key v st
  ]

  unfoldable pub flush_keys : List StorageKey → Store → StateDb → Option StateDb
  flush_keys [] s st = some st
  flush_keys (key ∷ l) s st = do st' ← flush_key key s st; flush_keys l s st'

  unfoldable pub flush_keys_until : ℤ → ℤ → List StorageKey → Store → StateDb → Option StateDb
  flush_keys_until last start [] s st = some st
  flush_keys_until last start (key ∷ l) s st = do
    st' ← flush_key_until last start key s st
    flush_keys_until last start l s st'

  -- Both methods go through the keys in their sorted order, and end with Finalise(true, false).
  unfoldable pub write_latest_to_store : Store → StateDb → Option StateDb
  unfolding flush_keys flush_key
  write_latest_to_store s st = do
    st' ← flush_keys (sort_keys (keys s.multi_version_map)) s st
    some (k.finalise true false st')

  unfoldable pub write_latest_to_store_until : ℤ → ℤ → Store → StateDb → Option StateDb
  unfolding flush_keys_until flush_key_until
  write_latest_to_store_until last start s st = do
    st' ← flush_keys_until last start (sort_keys (keys s.multi_version_map)) s st
    some (k.finalise true false st')

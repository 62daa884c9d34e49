-- ===== src/Store/Flush/Windows.antt =====
-- Which versions the flushes of multiversion/store.go write.
use go_pevm.Shared.{
  ℤ, ◌≡◌, refl, ◌∙◌, Bool, true, false, not, ◌&&◌, Option, none, some, List, [], ◌∷◌, arith, keys,
  get, lt_int, lt_int_trans, eq_of_not_lt_int, ℤ_eq, bytes_eq, if◌then◌else◌, inl, inr,
  Option-cases,
}
use go_pevm.External.Kaia.{Kaia}
use go_pevm.External.BTree.{BTree}
use go_pevm.Versions
use go_pevm.Versions.{ValueItem, less, is_deleted}
use go_pevm.Versions.Order.{IsLatestNonEstimate}
use go_pevm.Versions.Reads.{get_latest_non_estimate-IsLatest, index-version_at}
use go_pevm.Keys.{StorageKey, set_value}
use go_pevm.Store.{Store, sort_keys, version_in}
use go_pevm.Store.Invariant.{version}
use go_pevm.Store.Flush.{
  store_version, latest_non_estimate, flush_key, flush_key_until, flush_keys, flush_keys_until,
  write_latest_to_store, write_latest_to_store_until,
}

module _ ⦃k : Kaia⦄ where
  open k use {StateDb, Hash, zero_hash, hash_discrete}

  store_version_lem :
      (key : StorageKey) (v : ValueItem) (st : StateDb)
      → v.estimate ≡ false
      → store_version key v st ≡ set_value key v.value st
  unfolding store_version is_deleted
  store_version_lem key v st e = ground arith

module _ ⦃k : Kaia⦄ ⦃b : BTree less⦄ where
  open k use {StateDb, Hash, zero_hash}
  open b use {Tree}

  latest_item :
      (o : Option Tree)
      → IsLatestNonEstimate
          (λ j. elim o [ none ↦ none | some t ↦ Versions.version_at j t ])
          (elim o [ none ↦ none | some t ↦ Versions.get_latest_non_estimate t ])
  latest_item none = λ j w e. cc
  latest_item (some t) = get_latest_non_estimate-IsLatest t

  pub latest_non_estimate-IsLatest :
      (key : StorageKey) (s : Store)
      → IsLatestNonEstimate (λ j. version key j s) (latest_non_estimate key s)
  unfolding latest_non_estimate version_in
  latest_non_estimate-IsLatest key s = latest_item (get key s.multi_version_map)

  finished :
      (key : StorageKey) (s : Store) (v : ValueItem)
      → latest_non_estimate key s ≡ some v
      → v.estimate ≡ false
  finished key s v e = (rw e at (latest_non_estimate-IsLatest key s)).1

  abbrev pub in_window : ℤ → ℤ → ValueItem → Bool
  in_window last start v = not (lt_int v.index last) && lt_int v.index start

  -- The value that a flush of the window writes to a key, if it writes the key.
  abbrev pub due : ℤ → ℤ → StorageKey → Store → Option Hash
  due last start key s = elim (latest_non_estimate key s) [
    | none ↦ none
    | some v ↦ if in_window last start v then some v.value else none
  ]

  -- What a window leaves of a value, if `o` is the latest version that is no estimate.
  abbrev pub left_by : ℤ → ℤ → Option ValueItem → Hash → Hash
  left_by last start none old = old
  left_by last start (some v) old = if in_window last start v then v.value else old

  abbrev pub write_due : StorageKey → Option Hash → StateDb → StateDb
  write_due key none st = st
  write_due key (some v) st = set_value key v st

  abbrev pub write_all_due : ℤ → ℤ → List StorageKey → Store → StateDb → StateDb
  write_all_due last start [] s st = st
  write_all_due last start (key ∷ l) s st =
      write_all_due last start l s (write_due key (due last start key s) st)

  -- The state that WriteLatestToStoreUntil has when it calls Finalise.
  abbrev pub written_state : ℤ → ℤ → Store → StateDb → StateDb
  written_state last start s st =
      write_all_due last start (sort_keys (keys s.multi_version_map)) s st

  flush_key_until_lem :
      (last start : ℤ) (key : StorageKey) (s : Store) (st : StateDb)
      → flush_key_until last start key s st ≡ some (write_due key (due last start key s) st)
  unfolding flush_key_until
  flush_key_until_lem last start key s st = elim (Option-cases (latest_non_estimate key s)) [
    | inl e ↦ ground arith
    | inr (v, e) ↦ ground (arith, finished key s v e, store_version_lem key v st)
  ]

  flush_keys_until_lem :
      (last start : ℤ) (l : List StorageKey) (s : Store) (st : StateDb)
      → flush_keys_until last start l s st ≡ some (write_all_due last start l s st)
  unfolding flush_keys_until
  flush_keys_until_lem last start [] s st = refl
  flush_keys_until_lem last start (key ∷ l) s st =
      rw (flush_key_until_lem last start key s st)
        (flush_keys_until_lem last start l s (write_due key (due last start key s) st))

  -- WriteLatestToStoreUntil never panics. It writes each key whose latest version that is no
  -- estimate lies in the window, with the value of that version, and then finalises the state.
  pub write_latest_to_store_until_lem :
      (last start : ℤ) (s : Store) (st : StateDb)
      → write_latest_to_store_until last start s st
        ≡ some (k.finalise true false (written_state last start s st))
  unfolding write_latest_to_store_until
  write_latest_to_store_until_lem last start s st =
      rw (flush_keys_until_lem last start (sort_keys (keys s.multi_version_map)) s st)

  version-index :
      (key : StorageKey) (j : ℤ) (s : Store) (v : ValueItem)
      → version key j s ≡ some v
      → v.index ≡ j
  unfolding version_in
  version-index key j s v e = elim (Option-cases (get key s.multi_version_map)) [
    | inl p ↦ ground arith
    | inr (t, p) ↦ ground (arith, index-version_at j t v)
  ]

  after_start :
      (start j : ℤ) (key : StorageKey) (s : Store) (w : ValueItem) (o : Option ValueItem)
      → version key j s ≡ some w
      → w.estimate ≡ false
      → lt_int j start ≡ false
      → IsLatestNonEstimate (λ i. version key i s) o
      → (v : ValueItem) × (o ≡ some v) × (lt_int v.index start ≡ false)
  after_start start j key s w none e f g h = cc (h j w e)
  after_start start j key s w (some v) e f g h =
      (v, refl, ground (arith, h.2 j w, lt_int_trans v.index start j, eq_of_not_lt_int start j))

  -- A key of which some transaction at or after the end of the window has a finished version is not
  -- written, also if a transaction in the window has a version of it.
  pub flush_until_skips :
      (last start j : ℤ) (key : StorageKey) (s : Store) (w : ValueItem) (st : StateDb)
      → version key j s ≡ some w
      → w.estimate ≡ false
      → lt_int j start ≡ false
      → flush_key_until last start key s st ≡ some st
  flush_until_skips last start j key s w st e f g =
      let (v, p, q) = after_start start j key s w _ e f g (latest_non_estimate-IsLatest key s) in
      flush_key_until_lem last start key s st ∙ ground arith

  -- Every version of the store lies in the window.
  pub record IsWithin (last start : ℤ) (s : Store) : Type 0 where
    pub within :
        (key : StorageKey) (j : ℤ) (v : ValueItem)
        → version key j s ≡ some v
        → in_window last start v ≡ true

  flush_key-eq-until :
      (last start : ℤ) (key : StorageKey) (s : Store) (st : StateDb)
      → IsWithin last start s
      → flush_key key s st ≡ flush_key_until last start key s st
  unfolding flush_key flush_key_until
  flush_key-eq-until last start key s st h = elim (Option-cases (latest_non_estimate key s)) [
    | inl e ↦ ground arith
    | inr (v, e) ↦
        ground (arith, h.within key v.index v (rw e at (latest_non_estimate-IsLatest key s)).0)
  ]

  flush_keys-eq-until :
      (last start : ℤ) (l : List StorageKey) (s : Store) (st : StateDb)
      → IsWithin last start s
      → flush_keys l s st ≡ flush_keys_until last start l s st
  unfolding flush_keys flush_keys_until
  flush_keys-eq-until last start [] s st h = refl
  flush_keys-eq-until last start (key ∷ l) s st h =
      rw (flush_key-eq-until last start key s st h, flush_key_until_lem last start key s st)
        (flush_keys-eq-until last start l s (write_due key (due last start key s) st) h)

  -- Where every version lies in the window, the two flushes agree.
  pub write_latest_to_store-eq-until :
      (last start : ℤ) (s : Store) (st : StateDb)
      → IsWithin last start s
      → write_latest_to_store s st ≡ write_latest_to_store_until last start s st
  unfolding write_latest_to_store write_latest_to_store_until
  write_latest_to_store-eq-until last start s st h =
      rw (flush_keys-eq-until last start (sort_keys (keys s.multi_version_map)) s st h)

  flush_key_total :
      (key : StorageKey) (s : Store) (st : StateDb)
      → (st' : StateDb) × (flush_key key s st ≡ some st')
  unfolding flush_key
  flush_key_total key s st = elim (Option-cases (latest_non_estimate key s)) [
    | inl e ↦ (st, ground arith)
    | inr (v, e) ↦ (store_version key v st, ground (arith, finished key s v e))
  ]

  flush_keys_total :
      (l : List StorageKey) (s : Store) (st : StateDb)
      → (st' : StateDb) × (flush_keys l s st ≡ some st')
  unfolding flush_keys
  flush_keys_total [] s st = (st, refl)
  flush_keys_total (key ∷ l) s st =
      let (st', p) = flush_key_total key s st in
      let (st'', q) = flush_keys_total l s st' in (st'', rw p q)

  -- WriteLatestToStore never panics.
  pub write_latest_to_store_total :
      (s : Store) (st : StateDb) → (st' : StateDb) × (write_latest_to_store s st ≡ some st')
  unfolding write_latest_to_store
  write_latest_to_store_total s st =
      let (st', p) = flush_keys_total (sort_keys (keys s.multi_version_map)) s st in
      (k.finalise true false st', rw p)

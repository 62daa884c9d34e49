-- ===== src/Store/Invariant.antt =====
-- multiversion/store.go: txWritesetKeys and the versions, across the operations that write.
use go_pevm.Shared.{
  ℕ, ℤ, ◌≡◌, refl, Bool, true, false, Option, none, some, List, [], ◌∷◌, arith, ite, ◌=?◌, Map,
  keys, has, get, put, get-put, get-drop_key, IsMap, is_some, if◌then◌else◌, ℤ_eq, bytes_eq, inl,
  inr, Option-cases, has-keys,
}
use go_pevm.External.Kaia.{Kaia}
use go_pevm.External.BTree.{BTree}
use go_pevm.Versions.{ValueItem, less, new_estimate_item}
use go_pevm.Keys.{StorageKey}
use go_pevm.Store.{
  Store, WriteSet, ReadSet, insert_key, sort_keys, version_in, remove_old_writeset, set_writeset,
  invalidate_writeset, set_estimated_writeset, set_readset, clear_readset, new_multi_version_store,
}
use go_pevm.Store.Versioned.{
  fresh, version_in-write_all, version_in-estimate_all, version_in-remove_keys,
}

has-insert_key : (q x : StorageKey) (l : List StorageKey) → has q (insert_key x l) ≡ has q (x ∷ l)
unfolding insert_key
has-insert_key q x [] = refl
has-insert_key q x (y ∷ l) = ground (arith, has-insert_key q x l)

-- Sorting keeps the keys.
pub has-sort_keys : (q : StorageKey) (l : List StorageKey) → has q (sort_keys l) ≡ has q l
unfolding sort_keys
has-sort_keys q [] = refl
has-sort_keys q (x ∷ l) = ground (arith, has-insert_key q x (sort_keys l), has-sort_keys q l)

module _ ⦃k : Kaia⦄ ⦃b : BTree less⦄ where
  open b use {Tree}

  abbrev pub version : StorageKey → ℤ → Store → Option ValueItem
  version key i s = version_in key i s.multi_version_map

  abbrev pub lists : StorageKey → ℤ → Map ℤ (List StorageKey) → Bool
  lists key i m = elim (get i m) [ none ↦ false | some l ↦ has key l ]

  -- Every key at which a transaction has a version is listed for it, so removeOldWriteset finds it.
  pub record IsTracked (s : Store) : Type 0 where
    pub listed :
        (key : StorageKey) (i : ℤ) (v : ValueItem)
        → version key i s ≡ some v
        → lists key i s.tx_writeset_keys ≡ true

  unlisted :
      (s : Store) (key : StorageKey) (i : ℤ)
      → IsTracked s
      → lists key i s.tx_writeset_keys ≡ false
      → version key i s ≡ none
  unlisted s key i h e = elim (Option-cases (version key i s)) [
    | inl p ↦ p
    | inr (v, p) ↦ ground (arith, h.listed key i v)
  ]

  -- Once the old writeset of `i` is removed, `i` has versions only of keys that the new one has.
  pub version-remove_old_writeset :
      (i j : ℤ) (ws : WriteSet) (q : StorageKey) (s : Store)
      → IsTracked s
      → version q j (remove_old_writeset i ws s)
        ≡ ite (i =? j) (if is_some (get q ws) then version q j s else none) (version q j s)
  unfolding remove_old_writeset
  version-remove_old_writeset i j ws q s h = elim (Option-cases (get i s.tx_writeset_keys)) [
    | inl e ↦ ground (arith, unlisted s q j h)
    | inr (l, e) ↦
        ground (arith, unlisted s q j h, version_in-remove_keys i j ws l q s.multi_version_map)
  ]

  pub keys-remove_old_writeset :
      (i j : ℤ) (ws : WriteSet) (s : Store)
      → get j (remove_old_writeset i ws s).tx_writeset_keys
        ≡ ite (i =? j) none (get j s.tx_writeset_keys)
  unfolding remove_old_writeset
  keys-remove_old_writeset i j ws s = ground (arith, get-drop_key i j s.tx_writeset_keys)

  -- After SetWriteset on a tracked store, with a writeset that holds each key once, transaction `i`
  -- has a version of a key exactly if the writeset has the key: the value of the writeset, as a
  -- deletion if it is zero. No other transaction's version changes.
  pub version-set_writeset :
      (i j : ℤ) (n : ℕ) (ws : WriteSet) (q : StorageKey) (s : Store)
      → IsTracked s
      → IsMap ws
      → version q j (set_writeset i n ws s) ≡ ite (i =? j) (fresh i n (get q ws)) (version q j s)
  unfolding set_writeset
  version-set_writeset i j n ws q s h u = ground (
    arith,
    version_in-write_all i j n ws q (remove_old_writeset i ws s).multi_version_map u,
    version-remove_old_writeset i j ws q s h,
  )

  pub lists-put :
      (key : StorageKey) (i j : ℤ) (l : List StorageKey) (m : Map ℤ (List StorageKey))
      → lists key j (put i l m) ≡ ite (i =? j) (has key l) (lists key j m)
  lists-put key i j l m = ground (arith, get-put i j l m)

  -- SetWriteset, with a writeset that holds each key once, keeps the store tracked: every key at which
  -- a transaction has a version is among the keys listed for it.
  pub set_writeset-IsTracked :
      (i : ℤ) (n : ℕ) (ws : WriteSet) (s : Store)
      → IsTracked s
      → IsMap ws
      → IsTracked (set_writeset i n ws s)
  set_writeset-IsTracked i n ws s h u = record {
    listed = λ q j v e.
        unfold set_writeset in
        ground (
          arith,
          version-set_writeset i j n ws q s h u,
          h.listed q j v,
          lists-put q i j (sort_keys (keys ws)) (remove_old_writeset i ws s).tx_writeset_keys,
          keys-remove_old_writeset i j ws s,
          has-sort_keys q (keys ws),
          has-keys q ws,
        );
  }

  -- After SetEstimatedWriteset on a tracked store, transaction `i` has an estimate of each key of the writeset and no
  -- other version.
  pub version-set_estimated_writeset :
      (i j : ℤ) (n : ℕ) (ws : WriteSet) (q : StorageKey) (s : Store)
      → IsTracked s
      → version q j (set_estimated_writeset i n ws s)
        ≡ ite
            (i =? j)
            (if is_some (get q ws) then some (new_estimate_item i n) else none)
            (version q j s)
  unfolding set_estimated_writeset
  version-set_estimated_writeset i j n ws q s h = ground (
    arith,
    version_in-estimate_all i j n (keys ws) q (remove_old_writeset i ws s).multi_version_map,
    version-remove_old_writeset i j ws q s h,
    has-keys q ws,
  )

  pub set_estimated_writeset-IsTracked :
      (i : ℤ) (n : ℕ) (ws : WriteSet) (s : Store)
      → IsTracked s
      → IsTracked (set_estimated_writeset i n ws s)
  set_estimated_writeset-IsTracked i n ws s h = record {
    listed = λ q j v e.
        unfold set_estimated_writeset in
        ground (
          arith,
          version-set_estimated_writeset i j n ws q s h,
          h.listed q j v,
          lists-put q i j (sort_keys (keys ws)) (remove_old_writeset i ws s).tx_writeset_keys,
          keys-remove_old_writeset i j ws s,
          has-sort_keys q (keys ws),
          has-keys q ws,
        );
  }

  -- InvalidateWriteset turns the listed versions of transaction `i` into estimates.
  pub version-invalidate_writeset :
      (i j : ℤ) (n : ℕ) (q : StorageKey) (s : Store)
      → version q j (invalidate_writeset i n s)
        ≡ ite
            (i =? j)
            (if lists q i s.tx_writeset_keys then some (new_estimate_item i n) else version q j s)
            (version q j s)
  unfolding invalidate_writeset
  version-invalidate_writeset i j n q s = elim (Option-cases (get i s.tx_writeset_keys)) [
    | inl e ↦ ground arith
    | inr (l, e) ↦ ground (arith, version_in-estimate_all i j n l q s.multi_version_map)
  ]

  pub keys-invalidate_writeset :
      (i : ℤ) (n : ℕ) (s : Store)
      → (invalidate_writeset i n s).tx_writeset_keys ≡ s.tx_writeset_keys
  unfolding invalidate_writeset
  keys-invalidate_writeset i n s = ground arith

  pub invalidate_writeset-IsTracked :
      (i : ℤ) (n : ℕ) (s : Store) → IsTracked s → IsTracked (invalidate_writeset i n s)
  invalidate_writeset-IsTracked i n s h = record {
    listed = λ q j v e.
        rw (keys-invalidate_writeset i n s)
          (ground (arith, version-invalidate_writeset i j n q s, h.listed q j v));
  }

  -- Once invalidated in a tracked store, no version of transaction `i` is more than an estimate.
  pub estimate-invalidate_writeset :
      (i : ℤ) (n : ℕ) (q : StorageKey) (s : Store) (v : ValueItem)
      → IsTracked s
      → version q i (invalidate_writeset i n s) ≡ some v
      → v ≡ new_estimate_item i n
  estimate-invalidate_writeset i n q s v h e =
      ground (arith, version-invalidate_writeset i i n q s, h.listed q i v)

  pub new_multi_version_store-IsTracked : (st : k.StateDb) → IsTracked (new_multi_version_store st)
  unfolding new_multi_version_store version_in get
  new_multi_version_store-IsTracked st = record { listed = λ q j v e. cc }

  pub set_readset-IsTracked :
      (i : ℤ) (rs : ReadSet) (s : Store) → IsTracked s → IsTracked (set_readset i rs s)
  unfolding set_readset
  set_readset-IsTracked i rs s h = record { listed = h.listed }

  pub clear_readset-IsTracked : (i : ℤ) (s : Store) → IsTracked s → IsTracked (clear_readset i s)
  unfolding clear_readset
  clear_readset-IsTracked i s h = record { listed = h.listed }

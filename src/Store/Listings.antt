-- ===== src/Store/Listings.antt =====
-- multiversion/store.go: what the operations that write do to the readsets and to the keys listed.
use go_pevm.Shared.{ℕ, ℤ, ◌≡◌, arith, ite, ◌=?◌, keys, get, put, is_some, ℤ_eq, bytes_eq, has-keys}
use go_pevm.External.Kaia.{Kaia}
use go_pevm.External.BTree.{BTree}
use go_pevm.Versions.{less}
use go_pevm.Keys.{StorageKey}
use go_pevm.Store.{
  Store, WriteSet, sort_keys, remove_old_writeset, set_writeset, invalidate_writeset,
  set_estimated_writeset, get_readset,
}
use go_pevm.Store.Invariant.{lists, has-sort_keys, lists-put, keys-remove_old_writeset}

module _ ⦃k : Kaia⦄ ⦃b : BTree less⦄ where
  reads-remove_old_writeset :
      (i : ℤ) (ws : WriteSet) (s : Store) (j : ℤ)
      → get_readset j (remove_old_writeset i ws s) ≡ get_readset j s
  unfolding remove_old_writeset get_readset
  reads-remove_old_writeset i ws s j = ground arith

  pub reads-set_writeset :
      (i : ℤ) (n : ℕ) (ws : WriteSet) (s : Store) (j : ℤ)
      → get_readset j (set_writeset i n ws s) ≡ get_readset j s
  unfolding set_writeset get_readset
  reads-set_writeset i n ws s j = unfold get_readset in reads-remove_old_writeset i ws s j

  pub reads-set_estimated_writeset :
      (i : ℤ) (n : ℕ) (ws : WriteSet) (s : Store) (j : ℤ)
      → get_readset j (set_estimated_writeset i n ws s) ≡ get_readset j s
  unfolding set_estimated_writeset get_readset
  reads-set_estimated_writeset i n ws s j = unfold get_readset in reads-remove_old_writeset i ws s j

  pub reads-invalidate_writeset :
      (i : ℤ) (n : ℕ) (s : Store) (j : ℤ)
      → get_readset j (invalidate_writeset i n s) ≡ get_readset j s
  unfolding invalidate_writeset get_readset
  reads-invalidate_writeset i n s j = ground arith

  -- Both methods that set a writeset list its keys, in their sorted order.
  lists-new :
      (i j : ℤ) (ws : WriteSet) (q : StorageKey) (s : Store)
      → lists q j (put i (sort_keys (keys ws)) (remove_old_writeset i ws s).tx_writeset_keys)
        ≡ ite (i =? j) (is_some (get q ws)) (lists q j s.tx_writeset_keys)
  lists-new i j ws q s = ground (
    arith,
    lists-put q i j (sort_keys (keys ws)) (remove_old_writeset i ws s).tx_writeset_keys,
    keys-remove_old_writeset i j ws s,
    has-sort_keys q (keys ws),
    has-keys q ws,
  )

  pub lists-set_writeset :
      (i j : ℤ) (n : ℕ) (ws : WriteSet) (q : StorageKey) (s : Store)
      → lists q j (set_writeset i n ws s).tx_writeset_keys
        ≡ ite (i =? j) (is_some (get q ws)) (lists q j s.tx_writeset_keys)
  unfolding set_writeset
  lists-set_writeset i j n ws q s = lists-new i j ws q s

  pub lists-set_estimated_writeset :
      (i j : ℤ) (n : ℕ) (ws : WriteSet) (q : StorageKey) (s : Store)
      → lists q j (set_estimated_writeset i n ws s).tx_writeset_keys
        ≡ ite (i =? j) (is_some (get q ws)) (lists q j s.tx_writeset_keys)
  unfolding set_estimated_writeset
  lists-set_estimated_writeset i j n ws q s = lists-new i j ws q s

-- ===== src/Store/Flush/States.antt =====
-- What a flush of multiversion/store.go leaves in the state, before the call of Finalise.
use go_pevm.Shared.{
  Bool, false, Bool-cases, if◌then◌else◌, inl, inr, ℕ, ℤ, ◌≡◌, ◌≢◌, refl, sym, ◌∙◌, true, false,
  Option, none, some, arith, ite, ◌=?◌, keys, has, bytes_eq, set_bytes,
}
use go_pevm.External.Kaia.{Kaia}
use go_pevm.External.BTree.{BTree}
use go_pevm.Versions.{ValueItem, less}
use go_pevm.Versions.Order.{IsLatestNonEstimate}
use go_pevm.Keys.{
  StorageKey, to_storage_key, address, slot, balance_key, nonce_key, set_value, set_value_in,
}
use go_pevm.Keys.RoundTrip.{HasTexts, address-slot-to_storage_key}
use go_pevm.Store.{Store}
use go_pevm.Store.Flush.{latest_non_estimate, write_latest_to_store_until}
use go_pevm.Store.Invariant.{version}
use go_pevm.Store.Flush.Windows.{
  due, in_window, left_by, written_state, latest_non_estimate-IsLatest,
  write_latest_to_store_until_lem,
}
use go_pevm.Store.Flush.Parts.{or_old, or_kept, AreDueMade, not_due, flushed_read}

-- The documented behaviour of the accessors of *StateDB that a flush relies on: a write is read
-- back, and changes nothing else.
pub record HasCells (k : Kaia) : Type 0 where
  pub get_state-set_state :
      (st : k.StateDb) (a a' : k.Address) (s s' v : k.Hash)
      → k.get_state (k.set_state a s v st) a' s'
        ≡ ite
            (k.address_discrete a a')
            (ite (k.hash_discrete s s') v (k.get_state st a' s'))
            (k.get_state st a' s')
  pub get_state-set_balance :
      (st : k.StateDb) (a a' : k.Address) (s' : k.Hash) (n : ℤ)
      → k.get_state (k.set_balance a n st) a' s' ≡ k.get_state st a' s'
  pub get_state-set_nonce :
      (st : k.StateDb) (a a' : k.Address) (s' : k.Hash) (n : ℕ)
      → k.get_state (k.set_nonce a n st) a' s' ≡ k.get_state st a' s'
  pub get_balance-set_balance :
      (st : k.StateDb) (a a' : k.Address) (n : ℤ)
      → k.get_balance (k.set_balance a n st) a'
        ≡ ite (k.address_discrete a a') n (k.get_balance st a')
  pub get_balance-set_state :
      (st : k.StateDb) (a a' : k.Address) (s v : k.Hash)
      → k.get_balance (k.set_state a s v st) a' ≡ k.get_balance st a'
  pub get_balance-set_nonce :
      (st : k.StateDb) (a a' : k.Address) (n : ℕ)
      → k.get_balance (k.set_nonce a n st) a' ≡ k.get_balance st a'

module _ ⦃k : Kaia⦄ where
  same_slot : (o : Option k.Hash) (old : k.Hash) → or_kept (λ v. v) o old ≡ or_old o old
  same_slot none old = refl
  same_slot (some v) old = refl

module _ ⦃k : Kaia⦄ ⦃b : BTree less⦄ where
  open k use {Hash}

  or_old-left_by :
      (last start : ℤ) (q : StorageKey) (u : Store) (old : Hash)
      → or_old (due last start q u) old ≡ left_by last start (latest_non_estimate q u) old
  or_old-left_by last start q u old = by_latest (latest_non_estimate q u)
    where
      by_window :
          (x : Bool) (h : Hash) → or_old (if x then some h else none) old ≡ (if x then h else old)
      by_window true h = refl
      by_window false h = refl

      by_latest :
          (o : Option ValueItem)
          → or_old
              (elim o [
                | none ↦ none
                | some v ↦ if in_window last start v then some v.value else none
              ])
              old
            ≡ left_by last start o old
      by_latest none = refl
      by_latest (some v) = by_window (in_window last start v) v.value

module _ ⦃k : Kaia⦄ ⦃b : BTree less⦄ (texts : HasTexts k) (cells : HasCells k) where
  open k use {StateDb, Hash, Address, hash_discrete, address_discrete}

  not_slot :
      (a a' : Address) (s s' v old : Hash)
      → s' ≢ s
      → old ≡ ite (address_discrete a' a) (ite (hash_discrete s' s) v old) old
  not_slot a a' s s' v old h = ground arith

  by_slot :
      (a a' : Address) (s s' v : Hash) (n : ℤ) (m : ℕ) (st : StateDb) (d : Dec (s' ≡ balance_key))
      (e : Dec (s' ≡ nonce_key))
      → s ≢ balance_key
      → s ≢ nonce_key
      → k.get_state
          (ite d (k.set_balance a' n st) (ite e (k.set_nonce a' m st) (k.set_state a' s' v st)))
          a
          s
        ≡ ite
            (address_discrete a' a)
            (ite (hash_discrete s' s) v (k.get_state st a s))
            (k.get_state st a s)
  by_slot a a' s s' v n m st (yes p) e nb nn =
      cells.get_state-set_balance st a' a s n
      ∙ not_slot a a' s s' v (k.get_state st a s) (λ q. nb (sym q ∙ p))
  by_slot a a' s s' v n m st (no p) (yes q) nb nn =
      cells.get_state-set_nonce st a' a s m
      ∙ not_slot a a' s s' v (k.get_state st a s) (λ r. nn (sym r ∙ q))
  by_slot a a' s s' v n m st (no p) (no q) nb nn = cells.get_state-set_state st a' a s' s v

  -- Two keys that were made are equal exactly if their addresses and slots are.
  by_key :
      (a : Address) (s v old : Hash) (q : StorageKey)
      → q ≡ to_storage_key (address q) (slot q)
      → ite (address_discrete (address q) a) (ite (hash_discrete (slot q) s) v old) old
        ≡ ite (q =? to_storage_key a s) v old
  by_key a s v old q made = ground (arith, address-slot-to_storage_key texts a s)

  get_state-set_value :
      (a : Address) (s : Hash) (q : StorageKey) (v : Hash) (st : StateDb)
      → s ≢ balance_key
      → s ≢ nonce_key
      → q ≡ to_storage_key (address q) (slot q)
      → k.get_state (set_value q v st) a s ≡ ite (q =? to_storage_key a s) v (k.get_state st a s)
  unfolding set_value set_value_in
  get_state-set_value a s q v st nb nn made =
      by_slot a (address q) s (slot q) v _ _ st _ _ nb nn ∙ by_key a s v (k.get_state st a s) q made

  by_balance :
      (a a' : Address) (s' v : Hash) (n : ℤ) (m : ℕ) (st : StateDb) (d : Dec (s' ≡ balance_key))
      (e : Dec (s' ≡ nonce_key))
      → k.get_balance
          (ite d (k.set_balance a' n st) (ite e (k.set_nonce a' m st) (k.set_state a' s' v st)))
          a
        ≡ ite d (ite (address_discrete a' a) n (k.get_balance st a)) (k.get_balance st a)
  by_balance a a' s' v n m st (yes p) e = cells.get_balance-set_balance st a' a n
  by_balance a a' s' v n m st (no p) (yes q) = cells.get_balance-set_nonce st a' a m
  by_balance a a' s' v n m st (no p) (no q) = cells.get_balance-set_state st a' a s' v

  by_balance_key :
      (a : Address) (n old : ℤ) (q : StorageKey)
      → q ≡ to_storage_key (address q) (slot q)
      → ite (hash_discrete (slot q) balance_key) (ite (address_discrete (address q) a) n old) old
        ≡ ite (q =? to_storage_key a balance_key) n old
  by_balance_key a n old q made = ground (arith, address-slot-to_storage_key texts a balance_key)

  get_balance-set_value :
      (a : Address) (q : StorageKey) (v : Hash) (st : StateDb)
      → q ≡ to_storage_key (address q) (slot q)
      → k.get_balance (set_value q v st) a
        ≡ ite (q =? to_storage_key a balance_key) (set_bytes (k.hash_bytes v)) (k.get_balance st a)
  unfolding set_value set_value_in
  get_balance-set_value a q v st made =
      by_balance a (address q) (slot q) v _ _ st _ _
      ∙ by_balance_key a _ (k.get_balance st a) q made

  -- What a flush leaves in a balance, before it finalises the state.
  pub flushed_balance :
      (last start : ℤ) (a : Address) (u : Store) (st : StateDb)
      → AreDueMade last start u
      → k.get_balance (written_state last start u st) a
        ≡ or_kept
            (λ v. set_bytes (k.hash_bytes v))
            (due last start (to_storage_key a balance_key) u)
            (k.get_balance st a)
  flushed_balance last start a u st made =
      flushed_read (λ z. k.get_balance z a) (λ v. set_bytes (k.hash_bytes v))
        (to_storage_key a balance_key) (λ q v z m. get_balance-set_value a q v z m) last start u st
        made

  -- What a flush leaves in a storage slot, before it finalises the state.
  pub flushed_slot :
      (last start : ℤ) (a : Address) (s : Hash) (u : Store) (st : StateDb)
      → s ≢ balance_key
      → s ≢ nonce_key
      → AreDueMade last start u
      → k.get_state (written_state last start u st) a s
        ≡ or_old (due last start (to_storage_key a s) u) (k.get_state st a s)
  flushed_slot last start a s u st nb nn made =
      flushed_read (λ z. k.get_state z a s) (λ v. v) (to_storage_key a s)
        (λ q v z m. get_state-set_value a s q v z nb nn m) last start u st made
      ∙ same_slot (due last start (to_storage_key a s) u) (k.get_state st a s)

  -- WriteLatestToStoreUntil leaves in a storage slot the value of the latest version of its key that
  -- is no estimate, if that version lies in the window, and what was there otherwise; then it
  -- finalises the state. The latest version is one that the store has, is no estimate, and every
  -- later version of the key is one; if there is none, every version is an estimate. The order of the
  -- keys does not matter. The slots meant are all but the two that stand for the balance and the
  -- nonce, every key of the store was made by ToStorageKey, the texts of addresses and hashes are
  -- plain, and the state keeps each slot apart.
  pub write_latest_to_store_until_state :
      (last start : ℤ) (a : Address) (s : Hash) (u : Store) (st : StateDb)
      → s ≢ balance_key
      → s ≢ nonce_key
      → ((q : StorageKey)
          → has q (keys u.multi_version_map) ≡ true
          → q ≡ to_storage_key (address q) (slot q))
      → (st' : StateDb) × (o : Option ValueItem) × (write_latest_to_store_until last start u st
          ≡ some (k.finalise true false st'))
        × IsLatestNonEstimate (λ j. version (to_storage_key a s) j u) o
        × (k.get_state st' a s ≡ left_by last start o (k.get_state st a s))
  write_latest_to_store_until_state last start a s u st nb nn made = (
    written_state last start u st,
    latest_non_estimate (to_storage_key a s) u,
    write_latest_to_store_until_lem last start u st,
    latest_non_estimate-IsLatest (to_storage_key a s) u,
    flushed_slot last start a s u st nb nn due_made
        ∙ or_old-left_by last start (to_storage_key a s) u (k.get_state st a s),
  )
    where
      due_made : AreDueMade last start u
      due_made = λ q v e. elim (Bool-cases (has q (keys u.multi_version_map))) [
        | inl g ↦ made q g
        | inr g ↦ absurd (cc (not_due last start q u g, e))
      ]

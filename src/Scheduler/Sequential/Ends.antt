-- ===== src/Scheduler/Sequential/Ends.antt =====
-- scheduler/scheduler.go: what the last flush of a parallel block leaves in slots and balances.
use go_pevm.Shared.{
  ℕ, ℤ, pos, ◌<◌, ◌≡◌, ◌≢◌, refl, sym, ap, ◌∙◌, inl, inr, arith, true, false, Option, none, some,
  ℤ_eq, bytes_eq, lt_int, Option-cases, set_bytes, keys, not, ◌&&◌,
}
use go_pevm.External.Kaia.{Kaia}
use go_pevm.External.BTree.{BTree}
use go_pevm.External.Evm.{Evm}
use go_pevm.Versions.{ValueItem, less}
use go_pevm.Versions.Order.{IsLatestBelow, IsLatestNonEstimate}
use go_pevm.Versions.Reads.{IsLatestBelow-unique}
use go_pevm.Keys.{
  StorageKey, to_storage_key, get_value, value_in, balance_key, nonce_key, code_copy_key,
  code_hash_key, code_size_key, self_destruct_key,
}
use go_pevm.Keys.RoundTrip.{HasTexts, address-slot-to_storage_key}
use go_pevm.Store.{Store, sort_keys, get_latest_before_index}
use go_pevm.Store.Invariant.{version}
use go_pevm.Store.Reads.{read-IsLatestBelow}
use go_pevm.Store.Flush.{latest_non_estimate, write_latest_to_store}
use go_pevm.Store.Flush.Windows.{
  due, in_window, written_state, write_latest_to_store_until_lem, IsWithin,
  latest_non_estimate-IsLatest, write_latest_to_store-eq-until,
}
use go_pevm.Store.Flush.States.{flushed_slot, flushed_balance}
use go_pevm.Store.Flush.Parts.{or_old, or_kept}
use go_pevm.Store.Flush.Accounts.{HasViews, IsSteady, IsHeld, sound-finalise-state}
use go_pevm.Store.Flush.Views.{IsMade, IsValueKey, write_all_due-IsSteady}
use go_pevm.Tracer.Uses.{to_storage_key-IsValueKey, IsNoCode, HasOwnKeys}
use go_pevm.Scheduler.Serial.{serial_value}
use go_pevm.Tracer.Reference.{View}
use go_pevm.Scheduler.Sequential.Views.{Shows}

module _ ⦃k : Kaia⦄ where
  -- A slot that stands for nothing but itself.
  pub record IsPlainSlot (s : k.Hash) : Type 0 where
    pub no_copy : s ≢ code_copy_key
    pub no_hash : s ≢ code_hash_key
    pub no_size : s ≢ code_size_key
    pub no_balance : s ≢ balance_key
    pub no_nonce : s ≢ nonce_key
    pub no_self_destruct : s ≢ self_destruct_key

  pub get_value-slot :
      HasTexts k
      → (a : k.Address) (s : k.Hash) (st : k.StateDb) → IsPlainSlot s
      → get_value (to_storage_key a s) st ≡ k.get_state st a s
  unfolding get_value value_in
  get_value-slot texts a s st h =
      let (x, y) = address-slot-to_storage_key texts a s in
      ground
        (arith, x, y, h.no_copy, h.no_hash, h.no_size, h.no_balance, h.no_nonce, h.no_self_destruct)

  pub slot-IsValueKey :
      HasTexts k → (a : k.Address) (s : k.Hash) → IsPlainSlot s → IsValueKey (to_storage_key a s)
  slot-IsValueKey texts a s h =
      to_storage_key-IsValueKey texts a s
        (record { no_copy = h.no_copy; no_hash = h.no_hash; no_size = h.no_size })

  get_value-balance :
      HasTexts k
      → (a : k.Address) (st : k.StateDb) → IsNoCode balance_key
      → get_value (to_storage_key a balance_key) st ≡ k.big_to_hash (k.get_balance st a)
  unfolding get_value value_in
  get_value-balance texts a st h =
      let (x, y) = address-slot-to_storage_key texts a balance_key in
      ground (arith, x, y, h.no_copy, h.no_hash, h.no_size)

  -- A hash is read back from the number that it stands for.
  pub record HasHashes : Type 0 where
    pub hash_back : (h : k.Hash) → k.big_to_hash (set_bytes (k.hash_bytes h)) ≡ h

  -- A state that has the values of a view in its slots and balances.
  pub record HoldsValues (f : View) (st : k.StateDb) : Type 0 where
    pub slots :
        (a : k.Address) (s : k.Hash) → IsPlainSlot s → k.get_state st a s ≡ f (to_storage_key a s)
    pub balances :
        (a : k.Address) → k.big_to_hash (k.get_balance st a) ≡ f (to_storage_key a balance_key)

  pub get_value-HoldsValues :
      HasTexts k → (st : k.StateDb) → IsNoCode balance_key → HoldsValues (λ q. get_value q st) st
  get_value-HoldsValues texts st h = record {
    slots = λ a s plain. sym (get_value-slot texts a s st plain);
    balances = λ a. sym (get_value-balance texts a st h);
  }

module _ ⦃k : Kaia⦄ ⦃b : BTree less⦄ where
  -- The versions of a block of `n` transactions that have all been validated.
  pub record IsFull (n : ℕ) (st : k.StateDb) (u : Store) : Type 0 where
    pub bounded :
        (q : StorageKey) (j : ℤ) (v : ValueItem)
        → version q j u ≡ some v
        → (d : ℕ) × (v.index ≡ pos d) × (d < n) × (v.estimate ≡ false)
    pub made : (q : StorageKey) (j : ℤ) (v : ValueItem) → version q j u ≡ some v → IsMade q
    pub steady : IsSteady st u.parent_store
    pub held : (q : StorageKey) (j : ℤ) (v : ValueItem) → version q j u ≡ some v → IsHeld st q
    pub unwritten :
        (q : StorageKey)
        → IsValueKey q
        → ((j : ℤ) → version q j u ≡ none)
        → get_value q u.parent_store ≡ get_value q st

  latest_of_all :
      (n : ℕ) (st : k.StateDb) (q : StorageKey) (u : Store)
      → IsFull n st u
      → get_latest_before_index (pos n) q u ≡ latest_non_estimate q u
  latest_of_all n st q u h =
      IsLatestBelow-unique (λ j. version q j u) (λ j. version q j u) (pos n) _ _ (λ j p. refl)
        (read-IsLatestBelow n q u)
        (by_latest (latest_non_estimate q u) (latest_non_estimate-IsLatest q u))
    where
      no_estimate :
          (j : ℤ)
          → ((v : ValueItem) → version q j u ≡ some v → v.estimate ≡ true)
          → version q j u ≡ none
      no_estimate j g = elim (Option-cases (version q j u)) [
        | inl e ↦ e
        | inr (v, e) ↦ let (d, i, below, done) = h.bounded q j v e in absurd (cc (g v e, done))
      ]

      by_latest :
          (o : Option ValueItem)
          → IsLatestNonEstimate (λ j. version q j u) o
          → IsLatestBelow (λ j. version q j u) (pos n) o
      by_latest none g = λ j p. no_estimate j (λ v e. g j v e)
      by_latest (some v) g =
          let (d, i, below, done) = h.bounded q v.index v g.0 in
          (
            g.0,
            ap (λ x. lt_int x (pos n)) i ∙ ground (arith, below),
            λ j p r. no_estimate j (λ x e. g.2 j x p e),
          )

  full-IsWithin : (n : ℕ) (st : k.StateDb) (u : Store) → IsFull n st u → IsWithin (pos 0) (pos n) u
  full-IsWithin n st u h = record {
    within = λ q j v e.
        let (d, i, below, done) = h.bounded q j v e in
        ap (λ x. not (lt_int x (pos 0)) && lt_int x (pos n)) i ∙ ground (arith, below);
  }

  full-made :
      (n : ℕ) (st : k.StateDb) (u : Store) (q : StorageKey) (v : k.Hash)
      → IsFull n st u
      → due (pos 0) (pos n) q u ≡ some v
      → IsMade q
  full-made n st u q v h e = elim (Option-cases (latest_non_estimate q u)) [
    | inl g ↦ absurd (cc (rw (due, g) at e))
    | inr (w, g) ↦ h.made q w.index w (rw g at (latest_non_estimate-IsLatest q u)).0
  ]

module _ ⦃k : Kaia⦄ ⦃e : Evm k⦄ ⦃b : BTree less⦄ (texts : HasTexts k) (views : HasViews k)
    (hashes : HasHashes) (own : HasOwnKeys) (n : ℕ) (st : k.StateDb) (u : Store) (f : View)
    (full : IsFull n st u) (shows : Shows st n u f) where
  -- What the window of the whole block has for a key, beside what the store shows.
  abbrev IsDueOf : StorageKey → Option k.Hash → Type 0
  IsDueOf q none = get_value q u.parent_store ≡ f q
  IsDueOf q (some v) = v ≡ f q

  due-IsDueOf : (q : StorageKey) → IsValueKey q → IsDueOf q (due (pos 0) (pos n) q u)
  due-IsDueOf q valued = elim (Option-cases (latest_non_estimate q u)) [
    | inl g ↦
        let found : get_latest_before_index (pos n) q u ≡ none = latest_of_all n st q u full ∙ g in
        let shown : some (get_value q st) ≡ some (f q) = rw (serial_value, found) at (shows q) in
        let shown' : get_value q st ≡ f q = cc in
        let kept : get_value q u.parent_store ≡ get_value q st =
          full.unwritten q valued (no_version g) in
        rw (due, g) (kept ∙ shown')
    | inr (v, g) ↦
        let at : version q v.index u ≡ some v = (rw g at (latest_non_estimate-IsLatest q u)).0 in
        let inside : in_window (pos 0) (pos n) v ≡ true =
          (full-IsWithin n st u full).within q v.index v at in
        let (d, i, below, done) = full.bounded q v.index v at in
        let found : get_latest_before_index (pos n) q u ≡ some v =
          latest_of_all n st q u full ∙ g in
        let shown : some v.value ≡ some (f q) = rw (serial_value, found, done) at (shows q) in
        let shown' : v.value ≡ f q = cc in rw (due, g, inside) shown'
  ]
    where
      no_version : latest_non_estimate q u ≡ none → (j : ℤ) → version q j u ≡ none
      no_version g j = elim (Option-cases (version q j u)) [
        | inl e ↦ e
        | inr (v, e) ↦
            let (d, i, below, done) = full.bounded q j v e in
            let estimated : v.estimate ≡ true =
              (rw g at (latest_non_estimate-IsLatest q u)) j v e in
            absurd (cc (estimated, done))
      ]

  slot_due :
      (a : k.Address) (s : k.Hash) (o : Option k.Hash)
      → IsPlainSlot s
      → IsDueOf (to_storage_key a s) o
      → or_old o (k.get_state u.parent_store a s) ≡ f (to_storage_key a s)
  slot_due a s none plain h = sym (get_value-slot texts a s u.parent_store plain) ∙ h
  slot_due a s (some v) plain h = h

  balance_due :
      (a : k.Address) (o : Option k.Hash)
      → IsDueOf (to_storage_key a balance_key) o
      → k.big_to_hash (or_kept (λ v. set_bytes (k.hash_bytes v)) o (k.get_balance u.parent_store a))
        ≡ f (to_storage_key a balance_key)
  balance_due a none h = sym (get_value-balance texts a u.parent_store own.balances) ∙ h
  balance_due a (some v) h = hashes.hash_back v ∙ h

  -- The state that a flush of all leaves is the one that the window of the block leaves.
  same_flush :
      (st' : k.StateDb)
      → write_latest_to_store u u.parent_store ≡ some st'
      → st' ≡ k.finalise true false (written_state (pos 0) (pos n) u u.parent_store)
  same_flush st' x =
      let same : some st'
          ≡ some (k.finalise true false (written_state (pos 0) (pos n) u u.parent_store)) =
        sym x
        ∙ write_latest_to_store-eq-until (pos 0) (pos n) u u.parent_store
            (full-IsWithin n st u full)
        ∙ write_latest_to_store_until_lem (pos 0) (pos n) u u.parent_store in
      cc

  written-IsSteady : IsSteady st (written_state (pos 0) (pos n) u u.parent_store)
  written-IsSteady =
      write_all_due-IsSteady views (pos 0) (pos n) st (sort_keys (keys u.multi_version_map)) u
        u.parent_store (λ q f. full.held q f.0.index f.0 f.1) full.steady

  -- The last flush leaves the values that the store shows after all transactions.
  pub flushed-HoldsValues :
      (st' : k.StateDb) → write_latest_to_store u u.parent_store ≡ some st' → HoldsValues f st'
  flushed-HoldsValues st' x = record {
    slots = λ a s plain.
        let valued = slot-IsValueKey texts a s plain in
        ap (λ z. k.get_state z a s) (same_flush st' x)
        ∙ sound-finalise-state views _ a s written-IsSteady.sound
        ∙ flushed_slot texts views.accounts.cells (pos 0) (pos n) a s u u.parent_store
            plain.no_balance plain.no_nonce (λ q v e. full-made n st u q v full e)
        ∙ slot_due a s _ plain (due-IsDueOf (to_storage_key a s) valued);
    balances = λ a.
        let valued = to_storage_key-IsValueKey texts a balance_key own.balances in
        ap (λ z. k.big_to_hash (k.get_balance z a)) (same_flush st' x)
        ∙ ap k.big_to_hash (
            views.get_balance-finalise _ a (written-IsSteady.sound.alive a)
            ∙ flushed_balance texts views.accounts.cells (pos 0) (pos n) a u u.parent_store
                (λ q v e. full-made n st u q v full e))
        ∙ balance_due a _ (due-IsDueOf (to_storage_key a balance_key) valued);
  }

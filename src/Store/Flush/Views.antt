-- ===== src/Store/Flush/Views.antt =====
-- What a flush of multiversion/store.go leaves of the values that a transaction reads.
use mathlib.Core.Path.{subst}
use go_pevm.Shared.{
  ℕ, ℤ, ◌≡◌, ◌≢◌, refl, sym, ap, ◌∙◌, ◌⊎◌, inl, inr, true, false, set_bytes, uint64_of_int64,
  int64_of_big, some, List, [], ◌∷◌, arith, ◌=?◌, bytes_eq, ℤ_eq, keys, Option-cases,
}
use go_pevm.External.Kaia.{Kaia}
use go_pevm.External.BTree.{BTree}
use go_pevm.Versions.{ValueItem, less}
use go_pevm.Keys.{
  StorageKey, to_storage_key, address, slot, code_copy_key, code_hash_key, code_size_key, value_in,
  get_value, set_value_in, set_value,
}
use go_pevm.Store.{Store, sort_keys}
use go_pevm.Store.Invariant.{version}
use go_pevm.Store.Flush.{latest_non_estimate, write_latest_to_store_until}
use go_pevm.Store.Flush.Windows.{
  due, in_window, write_due, write_all_due, latest_non_estimate-IsLatest,
  write_latest_to_store_until_lem,
}
use go_pevm.Store.Flush.Accounts.{
  HasAccounts, HasViews, IsSound, IsSteady, IsHeld, sound-finalise-state, finalise-IsSteady,
  set_value-IsSteady,
}

module _ ⦃k : Kaia⦄ where
  open k use {Hash, Address, StateDb, hash_discrete, address_discrete}

  -- The key was made by ToStorageKey.
  abbrev pub IsMade : StorageKey → Type 0
  IsMade q = q ≡ to_storage_key (address q) (slot q)

  -- A key of a balance, a nonce or a slot, not of an account's code.
  pub record IsValueKey (q : StorageKey) : Type 0 where
    pub made : IsMade q
    pub no_copy : slot q ≢ code_copy_key
    pub no_hash : slot q ≢ code_hash_key
    pub no_size : slot q ≢ code_size_key

  module _ (accounts : HasAccounts k) where
    -- A write to another account, or to another slot of the account.
    value_in-set_value_in :
        (a a' : Address) (s s' v : Hash) (st : StateDb)
        → s ≢ code_copy_key
        → s ≢ code_hash_key
        → s ≢ code_size_key
        → (a' ≢ a) ⊎ (s' ≢ s)
        → value_in (set_value_in a' s' v st) a s ≡ value_in st a s
    unfolding value_in set_value_in
    value_in-set_value_in a a' s s' v st n1 n2 n3 d =
        let n : ℤ = set_bytes (k.hash_bytes v) in
        let m : ℕ = uint64_of_int64 (int64_of_big (k.hash_big v)) in
        let c = accounts.cells in
        ground (
          arith,
          n1,
          n2,
          n3,
          d,
          c.get_balance-set_balance st a' a n,
          c.get_balance-set_state st a' a s' v,
          c.get_balance-set_nonce st a' a m,
          c.get_state-set_balance st a' a s n,
          c.get_state-set_nonce st a' a s m,
          c.get_state-set_state st a' a s' s v,
          accounts.get_nonce-set_nonce st a' a m,
          accounts.get_nonce-set_balance st a' a n,
          accounts.get_nonce-set_state st a' a s' v,
        )

    get_value-set_value :
        (q key : StorageKey) (v : Hash) (st : StateDb)
        → IsValueKey q
        → IsMade key
        → key ≢ q
        → get_value q (set_value key v st) ≡ get_value q st
    unfolding get_value set_value
    get_value-set_value q key v st h m d =
        value_in-set_value_in (address q) (address key) (slot q) (slot key) v st h.no_copy h.no_hash
          h.no_size
          (apart (address_discrete (address key) (address q)) (hash_discrete (slot key) (slot q)))
      where
        apart :
            Dec (address key ≡ address q)
            → Dec (slot key ≡ slot q)
            → (address key ≢ address q) ⊎ (slot key ≢ slot q)
        apart (no p) y = inl p
        apart (yes p) (no y) = inr y
        apart (yes p) (yes y) = absurd (
            d (
              m
              ∙ ap (λ a. to_storage_key a (slot key)) p
              ∙ ap (to_storage_key (address q)) y
              ∙ sym h.made))

  get_value-finalise :
      (q : StorageKey) (st : StateDb)
      → HasViews k
      → IsValueKey q
      → IsSound st
      → get_value q (k.finalise true false st) ≡ get_value q st
  unfolding get_value value_in
  get_value-finalise q st views h sound = ground (
    arith,
    h.no_copy,
    h.no_hash,
    h.no_size,
    views.get_balance-finalise st (address q) (sound.alive (address q)),
    views.get_nonce-finalise st (address q) (sound.alive (address q)),
    sound-finalise-state views st (address q) (slot q) sound,
  )

module _ ⦃k : Kaia⦄ ⦃b : BTree less⦄ where
  -- Every key with a version was made by ToStorageKey.
  abbrev pub HasMadeKeys : Store → Type 0
  HasMadeKeys s = (q : StorageKey) (j : ℤ) (v : ValueItem) → version q j s ≡ some v → IsMade q

  -- A transaction of the window has a version of the key.
  abbrev pub IsFlushed : ℤ → ℤ → StorageKey → Store → Type 0
  IsFlushed last start q s =
      (v : ValueItem) × (version q v.index s ≡ some v) × (in_window last start v ≡ true)

  due_version :
      (last start : ℤ) (q : StorageKey) (s : Store) (h : k.Hash)
      → due last start q s ≡ some h
      → IsFlushed last start q s
  due_version last start q s h e = elim (Option-cases (latest_non_estimate q s)) [
    | inl p ↦ absurd (ground arith)
    | inr (v, p) ↦ (v, (rw p at (latest_non_estimate-IsLatest q s)).0, ground arith)
  ]

  module _ (views : HasViews k) where
    write_due_view :
        (last start : ℤ) (q key : StorageKey) (s : Store) (st : k.StateDb)
        → IsValueKey q
        → HasMadeKeys s
        → (get_value q (write_due key (due last start key s) st) ≡ get_value q st)
          ⊎ IsFlushed last start q s
    write_due_view last start q key s st h m = elim (Option-cases (due last start key s)) [
      | inl p ↦ inl (rw p)
      | inr (v, p) ↦
          let f = due_version last start key s v p in
          elim (key =? q) [
            | yes e ↦ inr (rw e at f)
            | no d ↦
                inl (
                  rw p
                    (get_value-set_value views.accounts q key v st h (m key f.0.index f.0 f.1) d))
          ]
    ]

    write_all_due_view :
        (last start : ℤ) (q : StorageKey) (l : List StorageKey) (s : Store) (st : k.StateDb)
        → IsValueKey q
        → HasMadeKeys s
        → (get_value q (write_all_due last start l s st) ≡ get_value q st)
          ⊎ IsFlushed last start q s
    write_all_due_view last start q [] s st h m = inl refl
    write_all_due_view last start q (key ∷ l) s st h m =
        elim (write_all_due_view last start q l s (write_due key (due last start key s) st) h m) [
          | inr f ↦ inr f
          | inl p ↦ elim (write_due_view last start q key s st h m) [
            | inr f ↦ inr f
            | inl p' ↦ inl (p ∙ p')
          ]
        ]

    pub write_all_due-IsSteady :
        (last start : ℤ) (st : k.StateDb) (l : List StorageKey) (s : Store) (st' : k.StateDb)
        → ((q : StorageKey) → IsFlushed last start q s → IsHeld st q)
        → IsSteady st st'
        → IsSteady st (write_all_due last start l s st')
    write_all_due-IsSteady last start st [] s st' held h = h
    write_all_due-IsSteady last start st (key ∷ l) s st' held h =
        write_all_due-IsSteady last start st l s (write_due key (due last start key s) st') held
          (elim (Option-cases (due last start key s)) [
            | inl p ↦ rw p h
            | inr (v, p) ↦ rw p (
                set_value-IsSteady views key v st st' (held key (due_version last start key s v p))
                  h)
          ])

    -- WriteLatestToStoreUntil leaves the value of a key as it was, unless a transaction of the
    -- window has a version of the key, and leaves a sound state with the same code. The state is
    -- sound, and slots in the window are of accounts that have code.
    pub flush_view :
        (last start : ℤ) (s : Store) (st0 st st' : k.StateDb)
        → IsSteady st0 st
        → ((q : StorageKey) → IsFlushed last start q s → IsHeld st0 q)
        → HasMadeKeys s
        → write_latest_to_store_until last start s st ≡ some st'
        → IsSteady st0 st'
          × ((q : StorageKey)
              → IsValueKey q
              → (get_value q st' ≡ get_value q st) ⊎ IsFlushed last start q s)
    flush_view last start s st0 st st' steady held m e =
        let l = sort_keys (keys s.multi_version_map) in
        let same : some (k.finalise true false (write_all_due last start l s st)) ≡ some st' =
          sym (write_latest_to_store_until_lem last start s st) ∙ e in
        let same' : k.finalise true false (write_all_due last start l s st) ≡ st' = cc in
        let written = write_all_due-IsSteady last start st0 l s st held steady in
        (
          subst (IsSteady st0) same' (finalise-IsSteady views st0 _ written),
          λ q h. elim (write_all_due_view last start q l s st h m) [
            | inr f ↦ inr f
            | inl p ↦
                inl
                  (ap (get_value q) (sym same') ∙ get_value-finalise q _ views h written.sound ∙ p)
          ],
        )

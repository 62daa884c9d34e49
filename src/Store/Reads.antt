-- ===== src/Store/Reads.antt =====
-- multiversion/store.go: GetLatestBeforeIndex and Has, and what they return after SetWriteset.
use go_pevm.Shared.{
  ℕ, ℤ, pos, ◌≡◌, refl, ap, ◌∙◌, true, false, Option, none, some, arith, get, IsMap, is_some, ℤ_eq,
  bytes_eq, lt_int, lt_int_irrefl,
}
use go_pevm.External.Kaia.{Kaia}
use go_pevm.External.BTree.{BTree}
use go_pevm.Versions
use go_pevm.Versions.{ValueItem, less, new_estimate_item}
use go_pevm.Versions.Order.{IsLatestBelow}
use go_pevm.Versions.Reads.{get_latest_before_index-IsLatestBelow, IsLatestBelow-unique}
use go_pevm.Keys.{StorageKey}
use go_pevm.Store.{
  Store, WriteSet, version_in, get_latest_before_index, has_before_index, set_writeset,
}
use go_pevm.Store.Versioned.{written}
use go_pevm.Store.Invariant.{IsTracked, version, version-set_writeset}

module _ ⦃k : Kaia⦄ ⦃b : BTree less⦄ where
  open b use {Tree}

  read_item :
      (n : ℕ) (o : Option Tree)
      → IsLatestBelow
          (λ j. elim o [ none ↦ none | some t ↦ Versions.version_at j t ])
          (pos n)
          (elim o [ none ↦ none | some t ↦ Versions.get_latest_before_index (pos n) t ])
  read_item n none = λ j h. refl
  read_item n (some t) = get_latest_before_index-IsLatestBelow n t

  -- A read of a key by the transaction at position `n` returns the version that the nearest
  -- transaction before it has of the key, and nothing exactly if none before it has one.
  pub read-IsLatestBelow :
      (n : ℕ) (key : StorageKey) (s : Store)
      → IsLatestBelow (λ j. version key j s) (pos n) (get_latest_before_index (pos n) key s)
  unfolding get_latest_before_index version_in
  read-IsLatestBelow n key s = read_item n (get key s.multi_version_map)

  -- What the transaction itself and those after it have written does not show in its reads.
  pub read_local :
      (n : ℕ) (key : StorageKey) (s u : Store)
      → ((j : ℤ) → lt_int j (pos n) ≡ true → version key j s ≡ version key j u)
      → get_latest_before_index (pos n) key s ≡ get_latest_before_index (pos n) key u
  read_local n key s u e =
      IsLatestBelow-unique (λ j. version key j s) (λ j. version key j u) (pos n) _ _ e
        (read-IsLatestBelow n key s) (read-IsLatestBelow n key u)

  -- A writeset of transaction `i` that holds each key once, set in a tracked store, leaves
  -- GetLatestBeforeIndex alone for every transaction at or before `i`.
  pub read-set_writeset_before :
      (n : ℕ) (i : ℤ) (inc : ℕ) (ws : WriteSet) (key : StorageKey) (s : Store)
      → IsTracked s
      → IsMap ws
      → lt_int i (pos n) ≡ false
      → get_latest_before_index (pos n) key (set_writeset i inc ws s)
        ≡ get_latest_before_index (pos n) key s
  read-set_writeset_before n i inc ws key s h u g =
      read_local n key (set_writeset i inc ws s) s
        λ j p. ground (arith, version-set_writeset i j inc ws key s h u)

  pub written-index : (i : ℤ) (n : ℕ) (v : k.Hash) → (written i n v).index ≡ i
  unfolding written
  written-index i n v = ground arith

  -- GetLatestBeforeIndex for a later transaction returns what `i` has just written with SetWriteset,
  -- if no transaction between them has a version of the key. The store is tracked, and the writeset
  -- holds each key once.
  pub read-set_writeset_after :
      (n : ℕ) (i : ℤ) (inc : ℕ) (ws : WriteSet) (key : StorageKey) (s : Store) (v : k.Hash)
      → IsTracked s
      → IsMap ws
      → get key ws ≡ some v
      → lt_int i (pos n) ≡ true
      → ((j : ℤ) → lt_int i j ≡ true → lt_int j (pos n) ≡ true → version key j s ≡ none)
      → get_latest_before_index (pos n) key (set_writeset i inc ws s) ≡ some (written i inc v)
  read-set_writeset_after n i inc ws key s v h u e g between =
      let s' = set_writeset i inc ws s in
      let here : version key i s' ≡ some (written i inc v) =
        ground (arith, version-set_writeset i i inc ws key s h u) in
      let ix : (written i inc v).index ≡ i = written-index i inc v in
      IsLatestBelow-unique (λ j. version key j s') (λ j. version key j s') (pos n) _
        (some (written i inc v)) (λ j p. refl) (read-IsLatestBelow n key s')
        (
          ap (λ j. version key j s') ix ∙ here,
          ap (λ j. lt_int j (pos n)) ix ∙ g,
          λ j p q.
              ground
                (arith, ix, version-set_writeset i j inc ws key s h u, between j, lt_int_irrefl i),
        )

  -- Has is whether GetLatestBeforeIndex finds a version.
  pub has_before_index-eq-is_some :
      (i : ℤ) (key : StorageKey) (s : Store)
      → has_before_index i key s ≡ is_some (get_latest_before_index i key s)
  unfolding has_before_index get_latest_before_index
  has_before_index-eq-is_some i key s = ground arith

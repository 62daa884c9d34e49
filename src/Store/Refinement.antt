-- ===== src/Store/Refinement.antt =====
-- multiversion/store.go: any sequence of the operations that write, beside a map of versions.
use go_pevm.Shared.{
  ℕ, ℤ, pos, ◌≡◌, refl, ◌∙◌, ap, Option, none, some, List, [], ◌∷◌, arith, ite, ◌=?◌, get, get-put,
  get-drop_key, IsMap, is_some, if◌then◌else◌, ℤ_eq, bytes_eq,
}
use mathlib.Core.Path.{subst, fun_ext}
use go_pevm.External.Kaia.{Kaia}
use go_pevm.External.BTree.{BTree}
use go_pevm.Versions.{ValueItem, less, new_estimate_item}
use go_pevm.Versions.Order.{IsLatestBelow}
use go_pevm.Keys.{StorageKey}
use go_pevm.Store.{
  Store, WriteSet, ReadSet, version_in, set_writeset, get_latest_before_index, invalidate_writeset,
  set_estimated_writeset, set_readset, get_readset, clear_readset, new_multi_version_store,
}
use go_pevm.Store.Invariant.{
  version, lists, IsTracked, keys-invalidate_writeset, version-set_writeset,
  version-set_estimated_writeset, version-invalidate_writeset,
}
use go_pevm.Store.Versioned.{fresh}
use go_pevm.Store.Reads.{read-IsLatestBelow}
use go_pevm.Store.Listings.{
  reads-set_writeset, reads-set_estimated_writeset, reads-invalidate_writeset, lists-set_writeset,
  lists-set_estimated_writeset,
}

module _ ⦃k : Kaia⦄ where
  -- A call of a method of the store that writes.
  pub data Op : Type 0 where
    write : ℤ → ℕ → WriteSet → Op
    estimate : ℤ → ℕ → WriteSet → Op
    invalidate : ℤ → ℕ → Op
    record_reads : ℤ → ReadSet → Op
    forget_reads : ℤ → Op

  -- The writeset of a call of SetWriteset is a map.
  abbrev pub HasMap : Op → Type 0
  HasMap (write i n ws) = IsMap ws
  HasMap _ = Unit

  abbrev pub HaveMaps : List Op → Type 0
  HaveMaps [] = Unit
  HaveMaps (op ∷ ops) = HasMap op × HaveMaps ops

  -- What the store stands for: a version for each key and transaction, and a readset for each
  -- transaction.
  pub record Spec : Type 0 where
    pub versions : StorageKey → ℤ → Option ValueItem
    pub readsets : ℤ → Option ReadSet

  abbrev pub empty_spec : Spec
  empty_spec = record { versions = λ q j. none; readsets = λ j. none }

  abbrev at : {A : Type 0} → ℤ → A → (ℤ → A) → ℤ → A
  at i a f j = ite (i =? j) a (f j)

  unfoldable pub replay_op : Op → Spec → Spec
  replay_op (write i n ws) c = record c {
    versions = λ q. at i (fresh i n (get q ws)) (c.versions q);
  }
  replay_op (estimate i n ws) c = record c {
    versions = λ q.
        at i (if is_some (get q ws) then some (new_estimate_item i n) else none) (c.versions q);
  }
  replay_op (invalidate i n) c = record c {
    versions = λ q.
        at i (if is_some (c.versions q i) then some (new_estimate_item i n) else none)
          (c.versions q);
  }
  replay_op (record_reads i rs) c = record c { readsets = at i (some rs) c.readsets }
  replay_op (forget_reads i) c = record c { readsets = at i none c.readsets }

  -- The same calls, on the specification.
  unfoldable pub replay : List Op → Spec → Spec
  unfolding replay_op
  replay [] c = c
  replay (op ∷ ops) c = replay ops (replay_op op c)

module _ ⦃k : Kaia⦄ ⦃b : BTree less⦄ where
  unfoldable pub run_op : Op → Store → Store
  run_op (write i n ws) s = set_writeset i n ws s
  run_op (estimate i n ws) s = set_estimated_writeset i n ws s
  run_op (invalidate i n) s = invalidate_writeset i n s
  run_op (record_reads i rs) s = set_readset i rs s
  run_op (forget_reads i) s = clear_readset i s

  unfoldable pub run : List Op → Store → Store
  unfolding run_op
  run [] s = s
  run (op ∷ ops) s = run ops (run_op op s)

  -- The store holds what the specification says, and lists for each transaction exactly the keys of
  -- its versions.
  pub record Refines (s : Store) (c : Spec) : Type 0 where
    pub same_versions : (q : StorageKey) (j : ℤ) → version q j s ≡ c.versions q j
    pub same_lists :
        (q : StorageKey) (j : ℤ) → lists q j s.tx_writeset_keys ≡ is_some (c.versions q j)
    pub same_readsets : (j : ℤ) → get_readset j s ≡ c.readsets j

  pub Refines-IsTracked : (s : Store) (c : Spec) → Refines s c → IsTracked s
  Refines-IsTracked s c h = record {
    listed = λ q j v p. ground (arith, h.same_lists q j, h.same_versions q j);
  }

  is_some-fresh : (i : ℤ) (n : ℕ) (o : Option k.Hash) → is_some (fresh i n o) ≡ is_some o
  is_some-fresh i n none = refl
  is_some-fresh i n (some v) = refl

  run_op-Refines :
      (op : Op) (s : Store) (c : Spec)
      → HasMap op
      → Refines s c
      → Refines (run_op op s) (replay_op op c)
  unfolding run_op replay_op
  run_op-Refines (write i n ws) s c m h =
      let t = Refines-IsTracked s c h in
      record {
        same_versions = λ q j.
            version-set_writeset i j n ws q s t m
            ∙ ap (λ o. ite (i =? j) (fresh i n (get q ws)) o) (h.same_versions q j);
        same_lists = λ q j.
            lists-set_writeset i j n ws q s
            ∙ ground (arith, h.same_lists q j, is_some-fresh i n (get q ws));
        same_readsets = λ j. reads-set_writeset i n ws s j ∙ h.same_readsets j;
      }
  run_op-Refines (estimate i n ws) s c m h =
      let t = Refines-IsTracked s c h in
      record {
        same_versions = λ q j.
            version-set_estimated_writeset i j n ws q s t
            ∙ ap
                (λ o.
                  ite (i =? j) (if is_some (get q ws) then some (new_estimate_item i n) else none)
                    o)
                (h.same_versions q j);
        same_lists =
            λ q j. lists-set_estimated_writeset i j n ws q s ∙ ground (arith, h.same_lists q j);
        same_readsets = λ j. reads-set_estimated_writeset i n ws s j ∙ h.same_readsets j;
      }
  run_op-Refines (invalidate i n) s c m h = record {
    same_versions = λ q j.
        ground
          (arith, version-invalidate_writeset i j n q s, h.same_versions q j, h.same_lists q i);
    same_lists = λ q j. rw (keys-invalidate_writeset i n s) (ground (arith, h.same_lists q j));
    same_readsets = λ j. reads-invalidate_writeset i n s j ∙ h.same_readsets j;
  }
  run_op-Refines (record_reads i rs) s c m h = record {
    same_versions = λ q j. unfold set_readset in h.same_versions q j;
    same_lists = λ q j. unfold set_readset in h.same_lists q j;
    same_readsets = λ j.
        unfold set_readset get_readset in
        (get-put i j rs s.tx_read_sets ∙ ground (arith, h.same_readsets j));
  }
  run_op-Refines (forget_reads i) s c m h = record {
    same_versions = λ q j. unfold clear_readset in h.same_versions q j;
    same_lists = λ q j. unfold clear_readset in h.same_lists q j;
    same_readsets = λ j.
        unfold clear_readset get_readset in
        (get-drop_key i j s.tx_read_sets ∙ ground (arith, h.same_readsets j));
  }

  pub new_multi_version_store-Refines :
      (st : k.StateDb) → Refines (new_multi_version_store st) empty_spec
  unfolding new_multi_version_store version_in get_readset get
  new_multi_version_store-Refines st = record {
    same_versions = λ q j. refl;
    same_lists = λ q j. refl;
    same_readsets = λ j. refl;
  }

  reads_latest :
      (n : ℕ) (q : StorageKey) (s : Store) (c : Spec)
      → Refines s c
      → IsLatestBelow (c.versions q) (pos n) (get_latest_before_index (pos n) q s)
  reads_latest n q s c h =
      subst (λ f. IsLatestBelow f (pos n) (get_latest_before_index (pos n) q s))
        (fun_ext (λ j. h.same_versions q j)) (read-IsLatestBelow n q s)

  pub run-Refines :
      (ops : List Op) (s : Store) (c : Spec)
      → HaveMaps ops
      → Refines s c
      → Refines (run ops s) (replay ops c)
  unfolding run replay
  run-Refines [] s c m h = h
  run-Refines (op ∷ ops) s c m h =
      run-Refines ops (run_op op s) (replay_op op c) m.1 (run_op-Refines op s c m.0 h)

  -- After any sequence of calls of SetWriteset, SetEstimatedWriteset, InvalidateWriteset, SetReadset
  -- and ClearReadset on a new store, where each writeset holds a key once, the store holds the
  -- versions and the readsets of the specification, which is a function from keys and transactions
  -- that each call changes at its own transaction. It lists for each transaction exactly the keys of
  -- its versions, and GetLatestBeforeIndex returns the version of the nearest transaction before.
  pub run-new-Refines :
      (ops : List Op) (st : k.StateDb)
      → HaveMaps ops
      → Refines (run ops (new_multi_version_store st)) (replay ops empty_spec)
        × ((n : ℕ) (q : StorageKey)
            → IsLatestBelow
                ((replay ops empty_spec).versions q)
                (pos n)
                (get_latest_before_index (pos n) q (run ops (new_multi_version_store st))))
  run-new-Refines ops st m =
      let h =
        run-Refines ops (new_multi_version_store st) empty_spec m
          (new_multi_version_store-Refines st) in
      (h, λ n q. reads_latest n q (run ops (new_multi_version_store st)) (replay ops empty_spec) h)

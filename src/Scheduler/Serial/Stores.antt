-- ===== src/Scheduler/Serial/Stores.antt =====
-- The writes of multiversion/store.go at one index, as steps of a task of scheduler/scheduler.go.
use go_pevm.Shared.{
  ℕ, ℤ, ◌≡◌, sym, ap, ◌∙◌, arith, Bool, true, Option, none, some, List, [], get, get-put,
  get-drop_key, is_some, ite, ◌=?◌, ℤ_eq, bytes_eq, IsMap, inl, inr, Option-cases,
}
use go_pevm.External.Kaia.{Kaia}
use go_pevm.External.BTree.{BTree}
use go_pevm.External.Evm.{Evm}
use go_pevm.Versions.{less}
use go_pevm.Keys.{StorageKey}
use go_pevm.Store.{
  Store, WriteSet, ReadSet, get_readset, set_writeset, set_estimated_writeset, set_readset,
  clear_readset, invalidate_writeset,
}
use go_pevm.Store.Invariant.{
  IsTracked, lists, version-set_writeset, version-set_estimated_writeset,
  version-invalidate_writeset, keys-invalidate_writeset, set_writeset-IsTracked,
  set_estimated_writeset-IsTracked, invalidate_writeset-IsTracked, set_readset-IsTracked,
  clear_readset-IsTracked,
}
use go_pevm.Store.Refinement.{write, estimate, invalidate, run_op}
use go_pevm.Store.Listings.{
  lists-set_writeset, lists-set_estimated_writeset, reads-set_writeset,
  reads-set_estimated_writeset, reads-invalidate_writeset,
}
use go_pevm.Store.Orders.{parent-run_op}
use go_pevm.Store.Validation.Verdicts.{readset_of}
use go_pevm.Store.Flush.Views.{IsMade, IsValueKey}
use go_pevm.Scheduler.Serial.{IsRegular}
use go_pevm.Scheduler.Serial.Local.{IsLocal}

module _ ⦃k : Kaia⦄ ⦃e : Evm k⦄ ⦃b : BTree less⦄ where
  abbrev or_nil : Option ReadSet → ReadSet
  or_nil o = elim o [ none ↦ [] | some rs ↦ rs ]

  pub readset_of-set_readset :
      (i j : ℤ) (rs : ReadSet) (s : Store)
      → readset_of j (set_readset i rs s) ≡ ite (i =? j) rs (readset_of j s)
  unfolding set_readset
  readset_of-set_readset i j rs s = ground (arith, get-put i j rs s.tx_read_sets)

  readset_of-clear_readset :
      (i j : ℤ) (s : Store) → readset_of j (clear_readset i s) ≡ ite (i =? j) [] (readset_of j s)
  unfolding clear_readset
  readset_of-clear_readset i j s = ground (arith, get-drop_key i j s.tx_read_sets)

  same_reads :
      (j : ℤ) (s u : Store) → get_readset j s ≡ get_readset j u → readset_of j s ≡ readset_of j u
  unfolding get_readset
  same_reads j s u h = ap or_nil h

  -- SetWriteset and SetReadset, as at the end of executeTask.
  pub set_sets-IsLocal :
      (i : ℤ) (n : ℕ) (ws : WriteSet) (rs : ReadSet) (s : Store)
      → IsTracked s
      → IsMap ws
      → IsLocal i s (set_readset i rs (set_writeset i n ws s))
  set_sets-IsLocal i n ws rs s h u = record {
    versions =
        λ q j d. unfold set_readset in ground (arith, d, version-set_writeset i j n ws q s h u);
    readsets = λ j d.
        readset_of-set_readset i j rs (set_writeset i n ws s)
        ∙ ground (arith, d)
        ∙ same_reads j _ s (reads-set_writeset i n ws s j);
    parent = unfold set_readset run_op in parent-run_op (write i n ws) s;
  }

  module _ (i : ℤ) (n : ℕ) (ws : WriteSet) (rs : ReadSet) (s : Store) (h : IsRegular s) where
    -- The keys that are listed after a new writeset.
    new_keys :
        (q : StorageKey) (j : ℤ) (c : Bool)
        → ((q : StorageKey) (v : k.Hash) → get q ws ≡ some v → IsMade q)
        → c ≡ ite (i =? j) (is_some (get q ws)) (lists q j s.tx_writeset_keys)
        → c ≡ true
        → IsMade q
    new_keys q j c m e p =
        elim (i =? j)
            as (λ d. c ≡ ite d (is_some (get q ws)) (lists q j s.tx_writeset_keys) → IsMade q) [
              | yes d ↦ λ e. elim (Option-cases (get q ws)) [
                | inl o ↦ absurd (ground (arith, e, p, o))
                | inr (v, o) ↦ m q v o
              ]
              | no d ↦ λ e. h.made q j (sym e ∙ p)
            ]
          e

    new_values :
        (j : ℤ) (q : StorageKey) (vs : List k.Hash)
        → ((q : StorageKey) (vs : List k.Hash) → get q rs ≡ some vs → IsValueKey q)
        → get q (ite (i =? j) rs (readset_of j s)) ≡ some vs
        → IsValueKey q
    new_values j q vs g e =
        elim (i =? j) as (λ d. get q (ite d rs (readset_of j s)) ≡ some vs → IsValueKey q) [
          | yes d ↦ λ e. g q vs e
          | no d ↦ λ e. h.values j q vs e
        ]
          e

    pub set_sets-IsRegular :
        IsMap ws
        → ((q : StorageKey) (v : k.Hash) → get q ws ≡ some v → IsMade q)
        → ((q : StorageKey) (vs : List k.Hash) → get q rs ≡ some vs → IsValueKey q)
        → IsRegular (set_readset i rs (set_writeset i n ws s))
    set_sets-IsRegular u m g = record {
      tracked = set_readset-IsTracked i rs _ (set_writeset-IsTracked i n ws s h.tracked u);
      made = λ q j p. unfold set_readset in new_keys q j _ m (lists-set_writeset i j n ws q s) p;
      values = λ j q vs p.
          let kept : readset_of j (set_writeset i n ws s) ≡ readset_of j s =
            same_reads j _ s (reads-set_writeset i n ws s j) in
          let e : readset_of j (set_readset i rs (set_writeset i n ws s))
              ≡ ite (i =? j) rs (readset_of j s) =
            readset_of-set_readset i j rs _ ∙ ap (λ r. ite (i =? j) rs r) kept in
          new_values j q vs g (ap (get q) (sym e) ∙ p);
    }

    -- SetEstimatedWriteset, as for an aborted task.
    pub set_estimates-IsLocal : IsLocal i s (set_estimated_writeset i n ws s)
    set_estimates-IsLocal = record {
      versions = λ q j d. ground (arith, d, version-set_estimated_writeset i j n ws q s h.tracked);
      readsets = λ j d. same_reads j _ s (reads-set_estimated_writeset i n ws s j);
      parent = unfold run_op in parent-run_op (estimate i n ws) s;
    }

    pub set_estimates-IsRegular :
        ((q : StorageKey) (v : k.Hash) → get q ws ≡ some v → IsMade q)
        → IsRegular (set_estimated_writeset i n ws s)
    set_estimates-IsRegular m = record {
      tracked = set_estimated_writeset-IsTracked i n ws s h.tracked;
      made = λ q j p. new_keys q j _ m (lists-set_estimated_writeset i j n ws q s) p;
      values = λ j q vs p.
          h.values j q vs
            (ap (get q) (sym (same_reads j _ s (reads-set_estimated_writeset i n ws s j))) ∙ p);
    }

  module _ (i : ℤ) (n : ℕ) (s : Store) (h : IsRegular s) where
    -- InvalidateWriteset and ClearReadset.
    pub invalidate-IsLocal : IsLocal i s (clear_readset i (invalidate_writeset i n s))
    invalidate-IsLocal = record {
      versions =
          λ q j d. unfold clear_readset in ground (arith, d, version-invalidate_writeset i j n q s);
      readsets = λ j d.
          readset_of-clear_readset i j (invalidate_writeset i n s)
          ∙ ground (arith, d)
          ∙ same_reads j _ s (reads-invalidate_writeset i n s j);
      parent = unfold clear_readset run_op in parent-run_op (invalidate i n) s;
    }

    pub invalidate-IsRegular : IsRegular (clear_readset i (invalidate_writeset i n s))
    invalidate-IsRegular = record {
      tracked = clear_readset-IsTracked i _ (invalidate_writeset-IsTracked i n s h.tracked);
      made = λ q j p.
          h.made q j
            (ap (lists q j) (sym (keys-invalidate_writeset i n s)) ∙ unfold clear_readset in p);
      values = λ j q vs p.
          let e : readset_of j (clear_readset i (invalidate_writeset i n s))
              ≡ ite (i =? j) [] (readset_of j s) =
            readset_of-clear_readset i j _
            ∙ ap (λ r. ite (i =? j) [] r) (same_reads j _ s (reads-invalidate_writeset i n s j)) in
          by_index j q vs (i =? j) (ap (get q) (sym e) ∙ p);
    }
      where
        by_index :
            (j : ℤ) (q : StorageKey) (vs : List k.Hash) (d : Dec (i ≡ j))
            → get q (ite d [] (readset_of j s)) ≡ some vs
            → IsValueKey q
        by_index j q vs (yes d) g = unfold get in absurd (cc g)
        by_index j q vs (no d) g = h.values j q vs g

-- ===== src/Scheduler/Statuses.antt =====
-- scheduler/scheduler.go: what shouldRerun and executeTask do to a task that was executed.
use go_pevm.Shared.{
  ◌≡◌, refl, ap, ◌∙◌, Bool, true, false, Bool-cases, inl, inr, ◌≢◌, ℕ, ℤ, none, get, get-drop_key,
  bytes_eq, if◌then◌else◌, some, List, [], arith, ℤ_eq,
}
use go_pevm.External.Kaia.{Kaia}
use go_pevm.External.BTree.{BTree}
use go_pevm.External.Evm.{Evm}
use go_pevm.Versions.{ValueItem, new_estimate_item, less}
use go_pevm.Keys.{StorageKey}
use go_pevm.Store.{Store, invalidate_writeset, clear_readset, sort_ints}
use go_pevm.Store.Invariant.{
  IsTracked, version, estimate-invalidate_writeset, keys-invalidate_writeset,
  version-invalidate_writeset,
}
use go_pevm.Store.Validation.{validate_transaction_state}
use go_pevm.Store.Validation.Verdicts.{IsCurrent, readset_of, validate_valid_iff}
use go_pevm.Store.Validation.Conflicts.{validate_valid_no_conflicts}
use go_pevm.Scheduler.{
  Status, pending, executed, aborted, validated, waiting, DeliverTxTask, add_all, unique_from,
  append_dependencies, is_validated, dependencies_validated, find_conflicts, invalidate_task,
  wait_unless, recheck, should_rerun, should_rerun_from,
}
use go_pevm.Scheduler.Rounds.{DeliverTxFunc, execute_sync}

-- A task that has run and was not aborted.
abbrev pub has_run : Status → Bool
has_run executed = true
has_run validated = true
has_run _ = false

module _ ⦃k : Kaia⦄ ⦃e : Evm k⦄ ⦃b : BTree less⦄ where
  should_rerun-eq-recheck :
      (tasks : List DeliverTxTask) (t : DeliverTxTask) (s : Store)
      → has_run t.status ≡ true
      → should_rerun tasks t s ≡ recheck tasks t s
  unfolding should_rerun
  should_rerun-eq-recheck tasks t s h = by_status t.status h
    where
      by_status :
          (x : Status) → has_run x ≡ true → should_rerun_from x tasks t s ≡ recheck tasks t s
      by_status executed g = refl
      by_status validated g = refl
      by_status pending g = cc
      by_status aborted g = cc
      by_status waiting g = cc

  no_conflicts :
      (t : DeliverTxTask) (s : Store)
      → (validate_transaction_state t.absolute_index s).0 ≡ true
      → find_conflicts t s ≡ (true, [])
  unfolding find_conflicts unique_from sort_ints
  no_conflicts t s h = ground (arith, h, validate_valid_no_conflicts t.absolute_index s h)

  -- A task that has run is marked as validated, and nothing else changes, if every key that it has
  -- read was read with the value that it would see now.
  pub should_rerun_current :
      (tasks : List DeliverTxTask) (t : DeliverTxTask) (s : Store)
      → has_run t.status ≡ true
      → IsCurrent t.absolute_index s (readset_of t.absolute_index s)
      → should_rerun tasks t s
        ≡ some (record { rerun = false; task = record t { status = validated }; store = s })
  should_rerun_current tasks t s h c =
      should_rerun-eq-recheck tasks t s h
      ∙ unfold recheck in rw (no_conflicts t s ((validate_valid_iff t.absolute_index s).1 c))

  -- What is left of transaction `i` in a store: estimates where it had versions, and no reads. The
  -- versions and reads of the others are as before.
  pub record IsInvalidated (i : ℤ) (n : ℕ) (s s' : Store) : Type 0 where
    pub estimated :
        (q : StorageKey) (v : ValueItem)
        → version q i s ≡ some v
        → version q i s' ≡ some (new_estimate_item i n)
    pub only_estimates :
        (q : StorageKey) (v : ValueItem) → version q i s' ≡ some v → v ≡ new_estimate_item i n
    pub others : (q : StorageKey) (j : ℤ) → j ≢ i → version q j s' ≡ version q j s
    pub forgotten : get i s'.tx_read_sets ≡ none
    pub same_parent : s'.parent_store ≡ s.parent_store
    pub same_lists : s'.tx_writeset_keys ≡ s.tx_writeset_keys
    pub other_reads : (j : ℤ) → j ≢ i → get j s'.tx_read_sets ≡ get j s.tx_read_sets

  reads-invalidate_writeset :
      (i : ℤ) (n : ℕ) (s : Store) → (invalidate_writeset i n s).tx_read_sets ≡ s.tx_read_sets
  unfolding invalidate_writeset
  reads-invalidate_writeset i n s = ground arith

  parent-invalidate_writeset :
      (i : ℤ) (n : ℕ) (s : Store) → (invalidate_writeset i n s).parent_store ≡ s.parent_store
  unfolding invalidate_writeset
  parent-invalidate_writeset i n s = ground arith

  invalidate_task-IsInvalidated :
      (t : DeliverTxTask) (s : Store)
      → IsTracked s
      → IsInvalidated t.absolute_index t.incarnation s (invalidate_task t s)
  unfolding invalidate_task clear_readset
  invalidate_task-IsInvalidated t s h =
      let i = t.absolute_index in
      let n = t.incarnation in
      record {
        estimated =
            λ q v e. ground (arith, version-invalidate_writeset i i n q s, h.listed q i v e);
        only_estimates = λ q v e. estimate-invalidate_writeset i n q s v h e;
        others = λ q j d. ground (arith, version-invalidate_writeset i j n q s, d);
        forgotten = get-drop_key i i (invalidate_writeset i n s).tx_read_sets ∙ ground arith;
        same_parent = parent-invalidate_writeset i n s;
        same_lists = keys-invalidate_writeset i n s;
        other_reads = λ j d.
            get-drop_key i j (invalidate_writeset i n s).tx_read_sets
            ∙ ground (arith, d, reads-invalidate_writeset i n s);
      }

  not_current :
      (t : DeliverTxTask) (s : Store)
      → ¬ IsCurrent t.absolute_index s (readset_of t.absolute_index s)
      → (find_conflicts t s).0 ≡ false
  unfolding find_conflicts
  not_current t s h = elim (Bool-cases (validate_transaction_state t.absolute_index s).0) [
    | inl v ↦ absurd (h ((validate_valid_iff t.absolute_index s).0 v))
    | inr v ↦ v
  ]

  rechecked :
      (tasks : List DeliverTxTask) (t : DeliverTxTask) (s : Store) (ready : Bool)
      → (find_conflicts t s).0 ≡ false
      → dependencies_validated tasks (add_all (find_conflicts t s).1 t.dependencies) ≡ some ready
      → recheck tasks t s
        ≡ some
            (wait_unless ready (append_dependencies (find_conflicts t s).1 t) (invalidate_task t s))
  unfolding recheck
  rechecked tasks t s ready c d = ground (arith, c, d)

  by_ready :
      (ready : Bool) (t : DeliverTxTask) (l : List ℤ) (s : Store)
      → wait_unless ready (append_dependencies l t) s ≡ record {
        rerun = ready;
        task = record t {
          dependencies = add_all l t.dependencies;
          status = if ready then t.status else waiting;
        };
        store = s;
      }
  unfolding append_dependencies
  by_ready true t l s = refl
  by_ready false t l s = refl

  -- A task that has run, and has read a value that it would not see now, is invalidated: all its
  -- versions become estimates, its reads are forgotten, and nothing else in the store changes. Its
  -- conflicts become dependencies; it is to be run again at once, with its status as it was, if all
  -- its dependencies are validated, and waits if not. The store lists the versions that it has.
  pub should_rerun_stale :
      (tasks : List DeliverTxTask) (t : DeliverTxTask) (s : Store) (ready : Bool)
      → IsTracked s
      → has_run t.status ≡ true
      → ¬ IsCurrent t.absolute_index s (readset_of t.absolute_index s)
      → dependencies_validated tasks (add_all (find_conflicts t s).1 t.dependencies) ≡ some ready
      → (s' : Store) × (should_rerun tasks t s
          ≡ some (record {
            rerun = ready;
            task = record t {
              dependencies = add_all (find_conflicts t s).1 t.dependencies;
              status = if ready then t.status else waiting;
            };
            store = s';
          }))
        × IsInvalidated t.absolute_index t.incarnation s s'
  should_rerun_stale tasks t s ready g h c d = (
    invalidate_task t s,
    should_rerun-eq-recheck tasks t s h
        ∙ rechecked tasks t s ready (not_current t s c) d
        ∙ ap some (by_ready ready t (find_conflicts t s).1 (invalidate_task t s)),
    invalidate_task-IsInvalidated t s g,
  )

  -- In the synchronous mode a validated task that has become stale, and whose dependencies are all
  -- validated, is invalidated and not run again: no delivery takes place, the task stays marked as
  -- validated, all its versions are left as estimates, its reads are forgotten, and nothing else in
  -- the store changes. The store lists the versions that it has.
  pub execute_sync_stale :
      (deliver : DeliverTxFunc) (tasks : List DeliverTxTask) (t : DeliverTxTask) (s : Store)
      → IsTracked s
      → t.status ≡ validated
      → ¬ IsCurrent t.absolute_index s (readset_of t.absolute_index s)
      → dependencies_validated tasks (add_all (find_conflicts t s).1 t.dependencies) ≡ some true
      → (s' : Store) × (execute_sync deliver tasks t s
          ≡ some (record t { dependencies = add_all (find_conflicts t s).1 t.dependencies }, s'))
        × IsInvalidated t.absolute_index t.incarnation s s'
  unfolding execute_sync is_validated
  execute_sync_stale deliver tasks t s g v c d =
      let (s', x, inv) = should_rerun_stale tasks t s true g (ap has_run v) c d in
      (s', ground (arith, v, x), inv)

-- ===== src/Scheduler/Runs.antt =====
-- scheduler/scheduler.go: executeTask and the invariant.
use go_pevm.Shared.{
  ℕ, ℤ, ◌≡◌, refl, ◌∙◌, ◌⊎◌, inl, inr, Bool, true, false, Option, none, some, List, [], ◌∷◌, arith,
  has, ℤ_eq, bytes_eq, IsMap, if◌then◌else◌,
}
use go_pevm.External.Kaia.{Kaia}
use go_pevm.External.BTree.{BTree}
use go_pevm.External.Evm.{Evm}
use go_pevm.Versions.{ValueItem, less}
use go_pevm.Keys.{StorageKey}
use go_pevm.Store.{Store, WriteSet, ReadSet, set_writeset, set_estimated_writeset, set_readset}
use go_pevm.Store.Invariant.{
  version, version-set_writeset, version-set_estimated_writeset, set_writeset-IsTracked,
  set_estimated_writeset-IsTracked, set_readset-IsTracked,
}
use go_pevm.Tracer.{
  Abort, AccessListTracer, ◌>>=◌, write_to_multi_version_store,
  write_estimates_to_multi_version_store,
}
use go_pevm.Scheduler.{
  Response, DeliverTxTask, append_dependencies, is_validated, is_pending, reset, increment, Rerun,
  should_rerun,
}
use go_pevm.Scheduler.Invariant.{add_all-AllKnown, indexes, IsSound, IsKept}
use go_pevm.Scheduler.Rounds.{
  DeliverTxFunc, prepare_task, finish_task, run_task, restart_unless_pending, execute_sync,
  execute_one,
}
use go_pevm.Scheduler.Steps.{IsHonest, IsPrepared, Leaves, should_rerun-Checked}

module _ ⦃k : Kaia⦄ ⦃e : Evm k⦄ ⦃b : BTree less⦄ (ixs : List ℤ) where
  set_writeset-IsKept :
      (i : ℤ) (n : ℕ) (ws : WriteSet) (rs : ReadSet) (s : Store)
      → has i ixs ≡ true
      → IsMap ws
      → IsKept ixs s
      → IsKept ixs (set_readset i rs (set_writeset i n ws s))
  set_writeset-IsKept i n ws rs s own u h = record {
    tracked = set_readset-IsTracked i rs _ (set_writeset-IsTracked i n ws s h.tracked u);
    known = λ key j v p.
        unfold set_readset in
        ground (arith, own, version-set_writeset i j n ws key s h.tracked u, h.known key j v);
  }

  set_estimated_writeset-IsKept :
      (i : ℤ) (n : ℕ) (ws : WriteSet) (s : Store)
      → has i ixs ≡ true
      → IsKept ixs s
      → IsKept ixs (set_estimated_writeset i n ws s)
  set_estimated_writeset-IsKept i n ws s own h = record {
    tracked = set_estimated_writeset-IsTracked i n ws s h.tracked;
    known = λ key j v p.
        ground
          (arith, own, version-set_estimated_writeset i j n ws key s h.tracked, h.known key j v);
  }

  module _ (t : DeliverTxTask) (s : Store) (g : IsSound ixs t) (h : IsKept ixs s) where
    abort_known :
        (a : Abort)
        → (a.dependent_tx_idx ≡ t.absolute_index)
          ⊎ ((key : StorageKey) × (v : ValueItem) × (version key a.dependent_tx_idx s ≡ some v))
        → has a.dependent_tx_idx ixs ≡ true
    abort_known a (inl p) = rw p (g.own)
    abort_known a (inr (key, v, p)) = h.known key a.dependent_tx_idx v p

    finish_task-Leaves :
        (l : List Abort) (r : Response) (tracer : AccessListTracer) (u : DeliverTxTask)
        → tracer.transaction_index ≡ t.absolute_index
        → IsMap tracer.writeset
        → ((a : Abort) (l' : List Abort) → l ≡ a ∷ l' → has a.dependent_tx_idx ixs ≡ true)
        → u.dependencies ≡ t.dependencies
        → u.absolute_index ≡ t.absolute_index
        → Leaves ixs t (finish_task l r tracer u s)
    unfolding finish_task append_dependencies
    finish_task-Leaves [] r tracer u i m a d ix = record {
      sound = record {
        deps_known = rw d (g.deps_known);
        own = rw ix (g.own);
        place = (g.place.0, ix ∙ g.place.1);
        answered = λ q. refl;
      };
      kept =
          unfold write_to_multi_version_store in
          set_writeset-IsKept tracer.transaction_index tracer.incarnation tracer.writeset
            tracer.readset s (rw i (g.own)) m h;
      same_index = ix;
    }
    finish_task-Leaves (c ∷ l) r tracer u i m a d ix = record {
      sound = record {
        deps_known =
            add_all-AllKnown ixs (c.dependent_tx_idx ∷ []) u.dependencies (a c l refl, tt)
              (rw d (g.deps_known));
        own = rw ix (g.own);
        place = (g.place.0, ix ∙ g.place.1);
        answered = λ q. cc;
      };
      kept =
          unfold write_estimates_to_multi_version_store in
          set_estimated_writeset-IsKept tracer.transaction_index tracer.incarnation tracer.writeset
            s (rw i (g.own)) h;
      same_index = ix;
    }

  module _ (deliver : DeliverTxFunc) (honest : IsHonest deliver) where
    run_task-Leaves :
        (t : DeliverTxTask) (s : Store)
        → IsSound ixs t
        → IsKept ixs s
        → Leaves ixs t (run_task deliver t s)
    unfolding run_task prepare_task
    run_task-Leaves t s g h = by_result (deliver asked s).result
      where
        asked : DeliverTxTask
        asked = record (prepare_task t) { state = some s.parent_store }

        prepared : IsPrepared asked s
        prepared = record { tracer = refl; position = g.place; copied = refl }

        left : DeliverTxTask
        left = record t {
          version_stores = some (deliver asked s).traced;
          state = some (deliver asked s).left_state;
          used_gas = (deliver asked s).gas_used;
        }

        by_result :
            (o : Option Response)
            → Leaves ixs t (elim o [
              | none ↦ (left, s)
              | some r ↦
                  finish_task
                    (deliver asked s).traced.aborted_channel.buffered
                    r
                    (deliver asked s).traced
                    left
                    s
            ])
        by_result none = record {
          sound = record {
            deps_known = g.deps_known;
            own = g.own;
            place = g.place;
            answered = g.answered;
          };
          kept = h;
          same_index = refl;
        }
        by_result (some r) =
            finish_task-Leaves t s g h _ r (deliver asked s).traced left
              (honest.own_index asked s prepared) (honest.writes asked s prepared)
              (λ a l p. abort_known t s g h a (honest.aborts asked s a l prepared p)) refl refl

    restart-IsSound : (t : DeliverTxTask) → IsSound ixs t → IsSound ixs (restart_unless_pending t)
    unfolding reset increment
    restart-IsSound t g = by_test (is_pending t.status)
      where
        by_test : (p : Bool) → IsSound ixs (if p then t else increment (reset t))
        by_test true = g
        by_test false = record {
          deps_known = g.deps_known;
          own = g.own;
          place = g.place;
          answered = λ q. cc;
        }

    restart-index :
        (t : DeliverTxTask) → (restart_unless_pending t).absolute_index ≡ t.absolute_index
    unfolding reset increment
    restart-index t = ground arith

    rerun-Leaves :
        (t u : DeliverTxTask) (s : Store)
        → IsSound ixs u
        → u.absolute_index ≡ t.absolute_index
        → IsKept ixs s
        → Leaves ixs t (run_task deliver (restart_unless_pending u) s)
    rerun-Leaves t u s g i h =
        let l = run_task-Leaves (restart_unless_pending u) s (restart-IsSound u g) h in
        record { sound = l.sound; kept = l.kept; same_index = l.same_index ∙ restart-index u ∙ i }

module _ ⦃k : Kaia⦄ ⦃e : Evm k⦄ ⦃b : BTree less⦄ (deliver : DeliverTxFunc)
    (honest : IsHonest deliver) where
  -- With an honest delivery executeTask returns in both modes, and keeps the invariant: what it
  -- leaves of a sound task and a kept store is sound and kept again.
  pub execute_one-Leaves :
      (sync : Bool) (tasks : List DeliverTxTask) (t : DeliverTxTask) (s : Store)
      → IsSound (indexes tasks) t
      → IsKept (indexes tasks) s
      → (p : DeliverTxTask × Store) × (execute_one deliver sync tasks t s ≡ some p)
        × Leaves (indexes tasks) t p
  unfolding execute_one execute_sync
  execute_one-Leaves false tasks t s g h =
      (run_task deliver t s, refl, run_task-Leaves (indexes tasks) deliver honest t s g h)
  execute_one-Leaves true tasks t s g h = by_test (is_validated t)
    where
      after : Rerun → Bool → DeliverTxTask × Store
      after r q =
          if q then (r.task, r.store) else run_task deliver (restart_unless_pending r.task) r.store

      choose :
          (r : Rerun) (q : Bool)
          → Leaves (indexes tasks) t (r.task, r.store)
          → Leaves (indexes tasks) t (after r q)
      choose r true l = l
      choose r false l =
          rerun-Leaves (indexes tasks) deliver honest t r.task r.store l.sound l.same_index l.kept

      by_test :
          (v : Bool)
          → (p : DeliverTxTask × Store) × ((if v
                then (should_rerun tasks t s >>= λ r. some (after r (is_validated r.task)))
                else some (run_task deliver (restart_unless_pending t) s))
              ≡ some p)
            × Leaves (indexes tasks) t p
      by_test true =
          let (r, p, l) = should_rerun-Checked tasks t s g h in
          (after r (is_validated r.task), rw p, choose r (is_validated r.task) l)
      by_test false = (
        run_task deliver (restart_unless_pending t) s,
        refl,
        rerun-Leaves (indexes tasks) deliver honest t t s g refl h,
      )

-- ===== src/Scheduler/Steps.antt =====
-- scheduler/scheduler.go: the steps of a task and the invariant.
use go_pevm.Tracer.{new_access_list_tracer}
use go_pevm.Tracer.Runs.{new_channel}
use go_pevm.Shared.{
  ℕ, pos, ℤ, ◌≡◌, refl, ap, ◌⊎◌, Bool, true, false, not, Option, some, List, ◌∷◌, ℤ_eq, bytes_eq,
  IsMap, if◌then◌else◌,
}
use go_pevm.External.Kaia.{Kaia}
use go_pevm.External.BTree.{BTree}
use go_pevm.External.Evm.{Evm}
use go_pevm.Versions.{ValueItem, less}
use go_pevm.Keys.{StorageKey}
use go_pevm.Store.{Store}
use go_pevm.Store.Invariant.{version}
use go_pevm.Tracer.{Abort, ◌>>=◌}
use go_pevm.Scheduler.{
  Status, pending, executed, aborted, validated, waiting, DeliverTxTask, append_dependencies,
  dependencies_validated, find_conflicts, invalidate_task, Rerun, wait_unless, is_empty, recheck,
  should_rerun_from, should_rerun,
}
use go_pevm.Scheduler.Statuses.{has_run}
use go_pevm.Scheduler.Invariant.{
  add_all-AllKnown, indexes, dependencies_total, IsSound, IsKept, invalidate_task-IsKept,
  conflicts_known,
}
use go_pevm.Scheduler.Rounds.{DeliverTxFunc}

module _ ⦃k : Kaia⦄ ⦃e : Evm k⦄ ⦃b : BTree less⦄ where
  -- A task as executeTask hands it to a delivery: with a new tracer of its own, and a copy of the
  -- state.
  pub record IsPrepared (t : DeliverTxTask) (s : Store) : Type 0 where
    pub tracer :
        t.version_stores
        ≡ some (new_access_list_tracer t.tx t.absolute_index t.incarnation new_channel)
    pub position : (n : ℕ) × (t.absolute_index ≡ pos n)
    pub copied : t.state ≡ some s.parent_store

  -- What the scheduler relies on of a delivery of a prepared task: its tracer is the task's own, writes a map, and
  -- aborts only for the transaction itself or for one that has a version of some key.
  pub record IsHonest (deliver : DeliverTxFunc) : Type 0 where
    pub own_index :
        (t : DeliverTxTask) (s : Store)
        → IsPrepared t s
        → (deliver t s).traced.transaction_index ≡ t.absolute_index
    pub writes :
        (t : DeliverTxTask) (s : Store) → IsPrepared t s → IsMap (deliver t s).traced.writeset
    pub aborts :
        (t : DeliverTxTask) (s : Store) (a : Abort) (l : List Abort)
        → IsPrepared t s
        → (deliver t s).traced.aborted_channel.buffered ≡ a ∷ l
        → (a.dependent_tx_idx ≡ t.absolute_index)
          ⊎ ((key : StorageKey) × (v : ValueItem) × (version key a.dependent_tx_idx s ≡ some v))

  -- A task and a store that a step leaves.
  pub record Leaves (ixs : List ℤ) (t : DeliverTxTask) (p : DeliverTxTask × Store) : Type 0 where
    pub sound : IsSound ixs p.0
    pub kept : IsKept ixs p.1
    pub same_index : p.0.absolute_index ≡ t.absolute_index

  module _ (tasks : List DeliverTxTask) (t : DeliverTxTask) (s : Store)
      (g : IsSound (indexes tasks) t) (h : IsKept (indexes tasks) s) where
    wait_unless-Leaves :
        (p : Bool) (t' : DeliverTxTask) (s' : Store)
        → Leaves (indexes tasks) t (t', s')
        → Leaves (indexes tasks) t ((wait_unless p t' s').task, (wait_unless p t' s').store)
    wait_unless-Leaves true t' s' l = l
    wait_unless-Leaves false t' s' l = record {
      sound = record {
        deps_known = l.sound.deps_known;
        own = l.sound.own;
        place = l.sound.place;
        answered = λ q. cc;
      };
      kept = l.kept;
      same_index = l.same_index;
    }

    unchanged : Leaves (indexes tasks) t (t, s)
    unchanged = record { sound = g; kept = h; same_index = refl }

    blocked :
        Leaves (indexes tasks) t (append_dependencies (find_conflicts t s).1 t, invalidate_task t s)
    unfolding append_dependencies
    blocked = record {
      sound = record {
        deps_known =
            add_all-AllKnown (indexes tasks) _ t.dependencies
              (conflicts_known (indexes tasks) t s g h) g.deps_known;
        own = g.own;
        place = g.place;
        answered = g.answered;
      };
      kept = invalidate_task-IsKept (indexes tasks) t s g.own h;
      same_index = refl;
    }

    abbrev Checked : Option Rerun → Type 0
    Checked m = (r : Rerun) × (m ≡ some r) × Leaves (indexes tasks) t (r.task, r.store)

    recheck-Checked : has_run t.status ≡ true → Checked (recheck tasks t s)
    unfolding recheck
    recheck-Checked run = by_test (find_conflicts t s).0 (is_empty (find_conflicts t s).1)
      where
        marked : Leaves (indexes tasks) t (record t { status = validated }, s)
        marked = record {
          sound = record {
            deps_known = g.deps_known;
            own = g.own;
            place = g.place;
            answered = λ q. g.answered run;
          };
          kept = h;
          same_index = refl;
        }

        by_test :
            (valid none_left : Bool)
            → Checked (
                if not valid
                then (dependencies_validated tasks
                      (append_dependencies (find_conflicts t s).1 t).dependencies
                    >>= λ ready. some (
                        wait_unless ready
                          (append_dependencies (find_conflicts t s).1 t)
                          (invalidate_task t s)))
                else if none_left
                then some
                    (record { rerun = false; task = record t { status = validated }; store = s })
                else some (record { rerun = false; task = t; store = s }))
        by_test true true = (
          record { rerun = false; task = record t { status = validated }; store = s },
          refl,
          marked,
        )
        by_test true false = (record { rerun = false; task = t; store = s }, refl, unchanged)
        by_test false _ =
            let (ready, p) = dependencies_total tasks _ blocked.sound.deps_known in
            (
              wait_unless ready (append_dependencies (find_conflicts t s).1 t)
                  (invalidate_task t s),
              rw p,
              wait_unless-Leaves ready _ _ blocked,
            )

    -- shouldRerun returns on every status, and keeps the invariant.
    pub should_rerun-Checked : Checked (should_rerun tasks t s)
    unfolding should_rerun
    should_rerun-Checked = by_status t.status refl
      where
        by_status : (x : Status) → t.status ≡ x → Checked (should_rerun_from x tasks t s)
        by_status pending p = (record { rerun = true; task = t; store = s }, refl, unchanged)
        by_status aborted p = (record { rerun = true; task = t; store = s }, refl, unchanged)
        by_status executed p = recheck-Checked (ap has_run p)
        by_status validated p = recheck-Checked (ap has_run p)
        by_status waiting p =
            let (ready, q) = dependencies_total tasks t.dependencies g.deps_known in
            (record { rerun = ready; task = t; store = s }, rw q, unchanged)

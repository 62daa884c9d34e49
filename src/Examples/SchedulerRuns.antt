-- ===== src/Examples/SchedulerRuns.antt =====
-- The theorems on the scheduler at concrete inputs.
use go_pevm.Shared.{
  ℕ, ◌≡◌, refl, ap, pos, true, false, Option, none, some, List, [], ◌∷◌, ℕ_discrete, ℤ_eq, bytes_eq,
  ℤ-discrete, get,
}
use go_pevm.Versions.{is_deleted}
use go_pevm.Store.{Store, new_multi_version_store, set_readset, add_conflict, sort_ints}
use go_pevm.Store.Validation.{
  check_entries, check_entry, check_value, check_version, validate_transaction_state,
}
use go_pevm.Store.Validation.Verdicts.{IsCurrent, readset_of, validate_valid_iff}
use go_pevm.Tracer.{new_access_list_tracer}
use go_pevm.Scheduler.{
  Status, executed, validated, Response, DeliverTxEntry, DeliverTxTask, to_task, to_tasks, add_all,
  unique_from, task_of, dependencies_validated, all_validated, find_conflicts, should_rerun,
}
use go_pevm.Scheduler.Statuses.{
  IsInvalidated, should_rerun_current, should_rerun_stale, execute_sync_stale,
}
use go_pevm.Scheduler.Invariant.{indexes}
use go_pevm.Scheduler.Rounds.{DeliverTxFunc, World, execute_one, execute_sync}
use go_pevm.Scheduler.Processing.{Schedule, process_all, start_world}
use go_pevm.Scheduler.Steps.{IsHonest, Leaves}
use go_pevm.Scheduler.Runs.{execute_one-Leaves}
use go_pevm.Scheduler.Positions.{size}
use go_pevm.Scheduler.Completion.{Inv}
use go_pevm.Scheduler.Results.{IsOrder, AreEntries, all_answered, start-Inv, process_all_returns}
use go_pevm.Examples.Trees.{list_tree}
use go_pevm.Examples.Packages.{small, small_evm, cells}
use go_pevm.Store.Invariant.{IsTracked, set_readset-IsTracked}
use go_pevm.Examples.StoreRuns.{key, one_written, one_written-IsTracked}
use go_pevm.Examples.CheckRuns.{opened, current, current_valid, stale}

-- A delivery that writes the number of the transaction to one key, and does not abort.
abbrev pub deliver : DeliverTxFunc
deliver t s = record {
  traced =
      record (new_access_list_tracer t.tx t.absolute_index t.incarnation
        (record { buffered = []; capacity = 1 })) { writeset = (key, t.tx) ∷ [] };
  left_state = s.parent_store;
  gas_used = 21000;
  result = some (record { receipt = t.tx; trace = 0 });
}

pub deliver-IsHonest : IsHonest deliver
unfolding new_access_list_tracer get
deliver-IsHonest = record {
  own_index = λ t s h. refl;
  writes = λ t s h. (refl, tt);
  aborts = λ t s a l h p. cc;
}

-- The goroutines take their steps in the order of the tasks.
abbrev pub in_order : Schedule
in_order = record { executions = λ n l. l; validations = λ n l. l }

in_order-IsOrder : IsOrder in_order
in_order-IsOrder = record { executes = λ n m l h. h; validates = λ n m l h. h }

abbrev pub entries : List DeliverTxEntry
entries =
    record { entry_tx = 7; entry_index = pos 0 } ∷ record { entry_tx = 8; entry_index = pos 1 } ∷ []

entries-AreEntries : AreEntries entries
entries-AreEntries = ((0, refl), ((1, refl), tt))

process_all_returns_example :
    (rs : List (Option Response)) × (w : World) × (process_all deliver in_order entries cells
      ≡ some (rs, w))
    × (size rs ≡ 2)
    × (indexes w.tasks ≡ indexes (to_tasks entries))
    × (all_validated w.tasks ≡ true → all_answered rs ≡ true)
process_all_returns_example =
    process_all_returns deliver deliver-IsHonest in_order in_order-IsOrder entries cells
      entries-AreEntries

abbrev first_task : DeliverTxTask
first_task = to_task (record { entry_tx = 7; entry_index = pos 0 })

start : Inv (indexes (to_tasks entries)) (start_world entries (new_multi_version_store cells))
start =
    start-Inv deliver deliver-IsHonest in_order in_order-IsOrder entries cells entries-AreEntries

execute_one-Leaves_example :
    (p : DeliverTxTask × Store) × (execute_one deliver true
        (to_tasks entries)
        first_task
        (new_multi_version_store cells)
      ≡ some p)
    × Leaves (indexes (to_tasks entries)) first_task p
unfolding start_world to_tasks
execute_one-Leaves_example =
    execute_one-Leaves deliver deliver-IsHonest true (to_tasks entries) first_task
      (new_multi_version_store cells) start.sound.0 start.kept

-- Transaction 0 is validated; transaction 1 has run.
abbrev task_in : Status → ℕ → DeliverTxTask
task_in st n = record {
  state = none;
  status = st;
  dependencies = [];
  abort = none;
  incarnation = 0;
  tx = 7;
  absolute_index = pos n;
  response = some (record { receipt = 1; trace = 0 });
  used_gas = 0;
  version_stores = none;
}

abbrev pair : Status → List DeliverTxTask
pair st = task_in validated 0 ∷ task_in st 1 ∷ []

should_rerun_current_example :
    should_rerun (pair executed) (task_in executed 1) current
    ≡ some (record { rerun = false; task = task_in validated 1; store = current })
should_rerun_current_example =
    should_rerun_current (pair executed) (task_in executed 1) current refl
      ((validate_valid_iff (pos 1) current).0 current_valid)

stale_found : (st : Status) → find_conflicts (task_in st 1) stale ≡ (false, pos 0 ∷ [])
unfolding find_conflicts unique_from validate_transaction_state opened check_entries check_entry
    check_value check_version is_deleted set_readset sort_ints add_conflict
stale_found st = refl

dependency_ready :
    (st : Status)
    → dependencies_validated (pair st) (add_all (find_conflicts (task_in st 1) stale).1 [])
      ≡ some true
unfolding dependencies_validated task_of add_all ℤ-discrete ℕ_discrete
dependency_ready st = rw (stale_found st)

stale-IsTracked : IsTracked stale
stale-IsTracked =
    set_readset-IsTracked (pos 1) ((key, 4 ∷ []) ∷ []) one_written one_written-IsTracked

stale_now : ¬ IsCurrent (pos 1) stale (readset_of (pos 1) stale)
unfolding find_conflicts
stale_now h =
    let valid = (validate_valid_iff (pos 1) stale).1 h in
    absurd (cc (valid, ap (λ v. v.0) (stale_found executed)))

should_rerun_stale_example :
    (s : Store) × (should_rerun (pair executed) (task_in executed 1) stale
      ≡ some (record {
        rerun = true;
        task = record (task_in executed 1) {
          dependencies = add_all (find_conflicts (task_in executed 1) stale).1 [];
          status = executed;
        };
        store = s;
      }))
    × IsInvalidated (pos 1) 0 stale s
should_rerun_stale_example =
    should_rerun_stale (pair executed) (task_in executed 1) stale true stale-IsTracked refl
      stale_now (dependency_ready executed)

execute_sync_stale_example :
    (s : Store) × (execute_sync deliver (pair validated) (task_in validated 1) stale
      ≡ some (
        record (task_in validated 1) {
          dependencies = add_all (find_conflicts (task_in validated 1) stale).1 [];
        },
        s,
      ))
    × IsInvalidated (pos 1) 0 stale s
execute_sync_stale_example =
    execute_sync_stale deliver (pair validated) (task_in validated 1) stale stale-IsTracked refl
      stale_now (dependency_ready validated)

-- ===== src/Scheduler.antt =====
-- scheduler/scheduler.go: the tasks and their validation. A task is a record; where the code holds
-- pointers to tasks in several places, the model has one list of tasks and positions in it.
-- `AbortCh` is the channel of the tracer, and the locks are left out. `none` is a panic.
pub mod Rounds
pub mod Processing
pub mod Statuses
pub mod Invariant
pub mod Steps
pub mod Runs
pub mod Positions
pub mod Completion
pub mod Executions
pub mod Results
pub mod Serial
pub mod Sequential
pub mod Pool
pub mod Setup
pub mod Disjoint
use go_pevm.Shared.{
  ℕ, zero, suc, ◌+◌, ℤ, pos, Bool, true, false, not, ◌&&◌, ◌||◌, Option, none, some, List, [], ◌∷◌,
  ◌++◌, ite, ◌=?◌, has, ltb, ℤ_eq, if◌then◌else◌,
}
use go_pevm.External.Kaia.{Kaia}
use go_pevm.External.BTree.{BTree}
use go_pevm.External.Evm.{Evm}
use go_pevm.Versions.{less}
use go_pevm.Store.{Store, sort_ints, new_multi_version_store, invalidate_writeset, clear_readset}
use go_pevm.Store.Validation.{validate_transaction_state}
use go_pevm.Tracer.{
  Abort, AbortChannel, AccessListTracer, ◌>>=◌, new_access_list_tracer,
  write_estimates_to_multi_version_store, write_to_multi_version_store,
}

pub data Status : Type 0 where
  pending executed aborted validated waiting : Status

abbrev pub is_validated_status : Status → Bool
is_validated_status validated = true
is_validated_status _ = false

abbrev pub is_pending : Status → Bool
is_pending pending = true
is_pending _ = false

abbrev pub maximum_iterations : ℕ
maximum_iterations = 10

abbrev pub is_empty : List ℤ → Bool
is_empty [] = true
is_empty (i ∷ l) = false

-- The loop of findConflicts that drops what `uniq` has.
unfoldable pub unique_from : List ℤ → List ℤ → List ℤ
unique_from seen [] = []
unique_from seen (c ∷ l) = if has c seen then unique_from seen l else c ∷ unique_from (c ∷ seen) l

-- The keys of `Dependencies`, a map to empty structs.
unfoldable pub add_all : List ℤ → List ℤ → List ℤ
add_all [] deps = deps
add_all (i ∷ l) deps = add_all l (if has i deps then deps else i ∷ deps)

module _ ⦃k : Kaia⦄ ⦃e : Evm k⦄ where
  open e use {Message, Receipt, Trace}

  pub record Response : Type 0 where
    pub receipt : Receipt
    pub trace : Trace

  pub record DeliverTxEntry : Type 0 where
    pub entry_tx : Message
    pub entry_index : ℤ

  pub record DeliverTxTask : Type 0 where
    pub state : Option k.StateDb
    pub status : Status
    pub dependencies : List ℤ
    pub abort : Option Abort
    pub incarnation : ℕ
    pub tx : Message
    pub absolute_index : ℤ
    pub response : Option Response
    pub used_gas : ℕ
    pub version_stores : Option AccessListTracer

  unfoldable pub append_dependencies : List ℤ → DeliverTxTask → DeliverTxTask
  append_dependencies deps t = record t { dependencies = add_all deps t.dependencies }

  unfoldable pub set_status : Status → DeliverTxTask → DeliverTxTask
  set_status st t = record t { status = st }

  unfoldable pub is_validated : DeliverTxTask → Bool
  is_validated t = is_validated_status t.status

  -- Reset keeps the dependencies and the incarnation.
  unfoldable pub reset : DeliverTxTask → DeliverTxTask
  reset t = record t {
    status = pending;
    response = none;
    abort = none;
    version_stores = none;
    used_gas = 0;
  }

  unfoldable pub increment : DeliverTxTask → DeliverTxTask
  increment t = record t { incarnation = suc t.incarnation }

  unfoldable pub to_task : DeliverTxEntry → DeliverTxTask
  to_task r = record {
    state = none;
    status = pending;
    dependencies = [];
    abort = none;
    incarnation = 0;
    tx = r.entry_tx;
    absolute_index = r.entry_index;
    response = none;
    used_gas = 0;
    version_stores = none;
  }

  unfoldable pub to_tasks : List DeliverTxEntry → List DeliverTxTask
  unfolding to_task
  to_tasks [] = []
  to_tasks (r ∷ l) = to_task r ∷ to_tasks l

  -- tasksMap[i]: of two tasks with one index the later stands in the map.
  unfoldable pub task_of : ℤ → List DeliverTxTask → Option DeliverTxTask
  task_of i [] = none
  task_of i (t ∷ l) = elim (task_of i l) [
    | some u ↦ some u
    | none ↦ ite (t.absolute_index =? i) (some t) none
  ]

  -- A missing task is a nil pointer.
  unfoldable pub dependencies_validated : List DeliverTxTask → List ℤ → Option Bool
  unfolding is_validated
  dependencies_validated tasks [] = some true
  dependencies_validated tasks (i ∷ deps) = elim (task_of i tasks) [
    | none ↦ none
    | some t ↦
        let rest = dependencies_validated tasks deps in if is_validated t then rest else some false
  ]

  unfoldable pub filter_tasks : (DeliverTxTask → Bool) → List DeliverTxTask → List DeliverTxTask
  filter_tasks f [] = []
  filter_tasks f (t ∷ l) = let rest = filter_tasks f l in if f t then t ∷ rest else rest

  unfoldable pub all_validated : List DeliverTxTask → Bool
  unfolding is_validated
  all_validated [] = true
  all_validated (t ∷ l) = is_validated t && all_validated l

  -- The position of the first task that is not validated; `none` is `0, false`.
  unfoldable pub find_first_non_validated : ℕ → List DeliverTxTask → Option ℕ
  unfolding is_validated
  find_first_non_validated n [] = none
  find_first_non_validated n (t ∷ l) =
      let rest = find_first_non_validated (suc n) l in if is_validated t then rest else some n

  unfoldable pub collect_responses : List DeliverTxTask → List (Option Response)
  collect_responses [] = []
  collect_responses (t ∷ l) = t.response ∷ collect_responses l

module _ ⦃k : Kaia⦄ ⦃e : Evm k⦄ ⦃b : BTree less⦄ where
  unfoldable pub find_conflicts : DeliverTxTask → Store → Bool × List ℤ
  find_conflicts t s =
      let (ok, conflicts) = validate_transaction_state t.absolute_index s in
      (ok, sort_ints (unique_from [] conflicts))

  unfoldable pub invalidate_task : DeliverTxTask → Store → Store
  invalidate_task t s =
      clear_readset t.absolute_index (invalidate_writeset t.absolute_index t.incarnation s)

  -- What shouldRerun does to its task and to the store.
  pub record Rerun : Type 0 where
    pub rerun : Bool
    pub task : DeliverTxTask
    pub store : Store

  abbrev pub wait_unless : Bool → DeliverTxTask → Store → Rerun
  wait_unless true t s = record { rerun = true; task = t; store = s }
  wait_unless false t s = record { rerun = false; task = record t { status = waiting }; store = s }

  -- The case of an executed or validated task.
  unfoldable pub recheck : List DeliverTxTask → DeliverTxTask → Store → Option Rerun
  unfolding append_dependencies
  recheck tasks t s =
      let (valid, conflicts) = find_conflicts t s in
      if not valid
      then (do
        let t' = append_dependencies conflicts t
        ready ← dependencies_validated tasks t'.dependencies
        some (wait_unless ready t' (invalidate_task t s)))
      else if is_empty conflicts
      then some (record { rerun = false; task = record t { status = validated }; store = s })
      else some (record { rerun = false; task = t; store = s })

  unfoldable pub should_rerun_from :
      Status → List DeliverTxTask → DeliverTxTask → Store → Option Rerun
  unfolding recheck
  should_rerun_from aborted tasks t s = some (record { rerun = true; task = t; store = s })
  should_rerun_from pending tasks t s = some (record { rerun = true; task = t; store = s })
  should_rerun_from executed tasks t s = recheck tasks t s
  should_rerun_from validated tasks t s = recheck tasks t s
  should_rerun_from waiting tasks t s = do
    ready ← dependencies_validated tasks t.dependencies
    some (record { rerun = ready; task = t; store = s })

  unfoldable pub should_rerun : List DeliverTxTask → DeliverTxTask → Store → Option Rerun
  unfolding should_rerun_from
  should_rerun tasks t s = should_rerun_from t.status tasks t s

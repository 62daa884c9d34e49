-- ===== src/Scheduler/Rounds.antt =====
-- scheduler/scheduler.go: executing and validating tasks. The scheduler's state is
-- the parent state of its store, one object in the code. The body of one task, executed or
-- validated, is one atomic step; a schedule gives the order in which the goroutines of a round take
-- their steps. The delivery of a transaction is a parameter.
use go_pevm.Shared.{ℕ, zero, suc, Bool, Option, none, some, List, [], ◌∷◌, ltb, if◌then◌else◌}
use go_pevm.External.Kaia.{Kaia}
use go_pevm.External.BTree.{BTree}
use go_pevm.External.Evm.{Evm}
use go_pevm.Versions.{less}
use go_pevm.Store.{Store}
use go_pevm.Tracer.{
  Abort, AccessListTracer, ◌>>=◌, new_access_list_tracer, write_estimates_to_multi_version_store,
  write_to_multi_version_store,
}
use go_pevm.Scheduler.{
  Status, Response, DeliverTxTask, append_dependencies, is_validated, is_pending, reset, increment,
  should_rerun,
}

abbrev pub task_at : {A : Type 0} → ℕ → List A → Option A
task_at p [] = none
task_at zero (t ∷ l) = some t
task_at (suc p) (t ∷ l) = task_at p l

abbrev pub put_at : {A : Type 0} → ℕ → A → List A → List A
put_at p u [] = []
put_at zero u (t ∷ l) = u ∷ l
put_at (suc p) u (t ∷ l) = t ∷ put_at p u l

-- The positions from `n` on.
abbrev pub positions : {A : Type 0} → ℕ → List A → List ℕ
positions n [] = []
positions n (t ∷ l) = n ∷ positions (suc n) l

abbrev pub from_position : ℕ → List ℕ → List ℕ
from_position n [] = []
from_position n (p ∷ l) = let rest = from_position n l in if ltb p n then rest else p ∷ rest

module _ ⦃k : Kaia⦄ ⦃e : Evm k⦄ where
  -- What a delivery leaves: the tracer, the copied state, the gas, and no result for an error.
  pub record Delivery : Type 0 where
    pub traced : AccessListTracer
    pub left_state : k.StateDb
    pub gas_used : ℕ
    pub result : Option Response

module _ ⦃k : Kaia⦄ ⦃e : Evm k⦄ ⦃b : BTree less⦄ where
  abbrev pub DeliverTxFunc : Type 0
  DeliverTxFunc = DeliverTxTask → Store → Delivery

  pub record World : Type 0 where
    pub store : Store
    pub tasks : List DeliverTxTask
    pub synchronous : Bool
    pub max_incarnation : ℕ

  -- prepareTask: a new tracer, and a channel that takes one abort
  unfoldable pub prepare_task : DeliverTxTask → DeliverTxTask
  prepare_task t = record t {
    version_stores = some (
        new_access_list_tracer t.tx t.absolute_index t.incarnation
          (record { buffered = []; capacity = 1 }));
  }

  abbrev pub abort_task : Abort → DeliverTxTask → DeliverTxTask
  abort_task a t =
      append_dependencies (a.dependent_tx_idx ∷ [])
        (record t { status = Status.aborted; abort = some a })

  -- The end of executeTask: what the abort channel holds decides.
  unfoldable pub finish_task :
      List Abort → Response → AccessListTracer → DeliverTxTask → Store → DeliverTxTask × Store
  finish_task (a ∷ l) r tracer t s =
      (abort_task a t, write_estimates_to_multi_version_store tracer s)
  finish_task [] r tracer t s = (
    record t { status = Status.executed; response = some r },
    write_to_multi_version_store tracer s,
  )

  unfoldable pub run_task : DeliverTxFunc → DeliverTxTask → Store → DeliverTxTask × Store
  unfolding prepare_task finish_task
  run_task deliver t s =
      let d = deliver (record (prepare_task t) { state = some s.parent_store }) s in
      let t' = record t {
        version_stores = some d.traced;
        state = some d.left_state;
        used_gas = d.gas_used;
      } in
      elim d.result [
        | none ↦ (t', s)
        | some r ↦ finish_task d.traced.aborted_channel.buffered r d.traced t' s
      ]

  abbrev pub restart_unless_pending : DeliverTxTask → DeliverTxTask
  restart_unless_pending t = if is_pending t.status then t else increment (reset t)

  -- The part of executeTask for the synchronous mode: a validated task is validated once more, and
  -- is left alone if it is still marked as validated after that.
  unfoldable pub execute_sync :
      DeliverTxFunc → List DeliverTxTask → DeliverTxTask → Store → Option (DeliverTxTask × Store)
  unfolding run_task
  execute_sync deliver tasks t s =
      if is_validated t
      then (do
        r ← should_rerun tasks t s
        some (
            if is_validated r.task
            then (r.task, r.store)
            else run_task deliver (restart_unless_pending r.task) r.store))
      else some (run_task deliver (restart_unless_pending t) s)

  unfoldable pub execute_one :
      DeliverTxFunc
      → Bool
      → List DeliverTxTask
      → DeliverTxTask
      → Store
      → Option (DeliverTxTask × Store)
  unfolding execute_sync run_task
  execute_one deliver sync tasks t s =
      if sync then execute_sync deliver tasks t s else some (run_task deliver t s)

  unfoldable pub execute_task : DeliverTxFunc → ℕ → World → Option World
  unfolding execute_one
  execute_task deliver p w = do
    t ← task_at p w.tasks
    (t', s') ← execute_one deliver w.synchronous w.tasks t w.store
    some (record w { store = s'; tasks = put_at p t' w.tasks })

  -- executeAll, in the order in which the workers take the tasks
  unfoldable pub execute_all : DeliverTxFunc → List ℕ → World → Option World
  execute_all deliver [] w = some w
  execute_all deliver (p ∷ l) w = execute_task deliver p w >>= λ w'. execute_all deliver l w'

  abbrev pub larger : ℕ → ℕ → ℕ
  larger n m = if ltb m n then n else m

  -- The closure of validateAll; `true` is a task that is sent to `resChan`.
  unfoldable pub validate_one : ℕ → World → Option (Bool × World)
  validate_one p w = do
    t ← task_at p w.tasks
    r ← should_rerun w.tasks t w.store
    let t' = if r.rerun then increment (reset r.task) else r.task
    some (
      r.rerun,
      record w {
        store = r.store;
        tasks = put_at p t' w.tasks;
        max_incarnation =
            if r.rerun then larger t'.incarnation w.max_incarnation else w.max_incarnation;
      },
    )

  unfoldable pub validate_positions : List ℕ → World → Option (List ℕ × World)
  validate_positions [] w = some ([], w)
  validate_positions (p ∷ l) w = do
    (again, w') ← validate_one p w
    (rest, w'') ← validate_positions l w'
    some (if again then p ∷ rest else rest, w'')

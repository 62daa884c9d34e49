-- ===== src/Scheduler/Processing.antt =====
-- scheduler/scheduler.go: validateAll and the loop of ProcessAll.
use go_pevm.Shared.{
  ℕ, zero, suc, ℤ, pos, true, false, Option, none, some, List, [], ◌∷◌, ltb, if◌then◌else◌,
}
use go_pevm.External.Kaia.{Kaia}
use go_pevm.External.BTree.{BTree}
use go_pevm.External.Evm.{Evm}
use go_pevm.Versions.{less}
use go_pevm.Store.{Store, new_multi_version_store}
use go_pevm.Store.Flush.{write_latest_to_store, write_latest_to_store_until}
use go_pevm.Tracer.{◌>>=◌}
use go_pevm.Scheduler.{
  Response, DeliverTxEntry, to_tasks, all_validated, find_first_non_validated, collect_responses,
  maximum_iterations,
}
use go_pevm.Scheduler.Rounds.{
  DeliverTxFunc, World, task_at, positions, from_position, execute_task, execute_all,
  validate_positions,
}

module _ ⦃k : Kaia⦄ ⦃e : Evm k⦄ ⦃b : BTree less⦄ where
  -- A schedule orders the tasks of an execution or of a validation in the given round.
  pub record Schedule : Type 0 where
    pub executions : ℕ → List ℕ → List ℕ
    pub validations : ℕ → List ℕ → List ℕ

  unfoldable pub validate_all : (List ℕ → List ℕ) → World → Option (List ℕ × World)
  validate_all order w = elim (find_first_non_validated 0 w.tasks) [
    | none ↦ some ([], w)
    | some start ↦ validate_positions (order (from_position start (positions 0 w.tasks))) w
  ]

  abbrev pub with_state : k.StateDb → World → World
  with_state st w = record w { store = record w.store { parent_store = st } }

  -- WriteLatestToStoreUntil and WriteLatestToStore on `s.state`
  unfoldable pub flush_until : ℤ → ℤ → World → Option World
  flush_until last start w = do
    st ← write_latest_to_store_until last start w.store w.store.parent_store
    some (with_state st w)

  unfoldable pub flush : World → Option World
  flush w = do st ← write_latest_to_store w.store w.store.parent_store; some (with_state st w)

  unfoldable pub process_all_sync : DeliverTxFunc → ℤ → List ℕ → World → Option World
  unfolding flush_until
  process_all_sync deliver last [] w = some w
  process_all_sync deliver last (p ∷ l) w = do
    t ← task_at p w.tasks
    w1 ← flush_until last t.absolute_index w
    w2 ← execute_task deliver p w1
    process_all_sync deliver t.absolute_index l w2

  -- `if startIdx > lastStoreIdx`
  unfoldable pub flush_validated : ℕ → ℕ → World → Option World
  unfolding flush_until
  flush_validated last start w =
      if ltb last start then flush_until (pos last) (pos start) w else some w

  abbrev pub or_zero : Option ℕ → ℕ
  or_zero none = 0
  or_zero (some n) = n

  abbrev pub go_synchronous : World → World
  go_synchronous w = record w { synchronous = true }

  -- The loop of ProcessAll with `left` rounds before it turns synchronous.
  unfoldable pub process_rounds : DeliverTxFunc → Schedule → ℕ → ℕ → List ℕ → World → Option World
  unfolding process_all_sync
  process_rounds deliver sched zero last to_execute w =
      if all_validated w.tasks then some w else elim (find_first_non_validated 0 w.tasks) [
        | none ↦ some (go_synchronous w)
        | some start ↦
            process_all_sync deliver (pos 0) (from_position start (positions 0 w.tasks))
              (go_synchronous w)
      ]
  process_rounds deliver sched (suc left) last to_execute w =
      let start = or_zero (find_first_non_validated 0 w.tasks) in
      let next = λ (p : List ℕ × World).
        process_rounds deliver sched left (if ltb last start then start else last) p.0 p.1 in
      elim (all_validated w.tasks) [
        | true ↦ some w
        | false ↦ (do
          w1 ← flush_validated last start w
          w2 ← execute_all deliver (sched.executions left to_execute) w1
          p ← validate_all (sched.validations left) w2
          next p)
      ]

  unfoldable pub start_world : List DeliverTxEntry → Store → World
  start_world reqs s = record {
    store = s;
    tasks = to_tasks reqs;
    synchronous = false;
    max_incarnation = 0;
  }

  -- The scheduler after the loop, and the responses of ProcessAll; its error is always nil.
  unfoldable pub process_tasks :
      DeliverTxFunc → Schedule → List DeliverTxEntry → k.StateDb → Option World
  process_tasks deliver sched reqs st =
      let w = start_world reqs (new_multi_version_store st) in
      do w' ← process_rounds deliver sched maximum_iterations 0 (positions 0 w.tasks) w; flush w'

  unfoldable pub process_all :
      DeliverTxFunc
      → Schedule
      → List DeliverTxEntry
      → k.StateDb
      → Option (List (Option Response) × World)
  unfolding process_tasks
  process_all deliver sched reqs st = do
    w ← process_tasks deliver sched reqs st
    some (collect_responses w.tasks, w)

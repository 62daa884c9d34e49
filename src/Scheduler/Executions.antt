-- ===== src/Scheduler/Executions.antt =====
-- scheduler/scheduler.go: executeAll and ProcessAllSync, and the invariant.
use go_pevm.Shared.{ℕ, ◌<◌, ℤ, List, [], ◌∷◌, ℤ_eq, bytes_eq}
use go_pevm.External.Kaia.{Kaia}
use go_pevm.External.BTree.{BTree}
use go_pevm.External.Evm.{Evm}
use go_pevm.Versions.{less}
use go_pevm.Scheduler.Rounds.{DeliverTxFunc, World, put_at, execute_task, execute_all}
use go_pevm.Scheduler.Processing.{process_all_sync}
use go_pevm.Scheduler.Steps.{IsHonest}
use go_pevm.Scheduler.Runs.{execute_one-Leaves}
use go_pevm.Scheduler.Positions.{size, AllBelow, task_at_total}
use go_pevm.Scheduler.Completion.{
  Inv, Reaches, Reaches-bind, Reaches-some, in_tasks, store_step, flush_until-Reaches,
}

module _ ⦃k : Kaia⦄ ⦃e : Evm k⦄ ⦃b : BTree less⦄ (deliver : DeliverTxFunc)
    (honest : IsHonest deliver) (ixs : List ℤ) where
  execute_task-Reaches :
      (p : ℕ) (w : World) → Inv ixs w → p < size ixs → Reaches ixs (execute_task deliver p w)
  unfolding execute_task
  execute_task-Reaches p w h g =
      let (t, at, sound) = task_at_total p ixs w.tasks h.sound (in_tasks ixs p w h g) in
      let (q, run, l) =
        execute_one-Leaves deliver honest w.synchronous w.tasks t w.store (rw (h.same) sound)
          (rw (h.same) (h.kept)) in
      record {
        after = record w { store = q.1; tasks = put_at p q.0 w.tasks };
        returned = rw (at, run);
        inv = store_step ixs p w t q.0 q.1 w.max_incarnation h at (rw (h.same) at l);
      }

  pub execute_all-Reaches :
      (l : List ℕ) (w : World)
      → Inv ixs w
      → AllBelow (size ixs) l
      → Reaches ixs (execute_all deliver l w)
  unfolding execute_all
  execute_all-Reaches [] w h g = Reaches-some ixs w h
  execute_all-Reaches (p ∷ l) w h g =
      Reaches-bind ixs _ _ (execute_task-Reaches p w h g.0) (λ u i. execute_all-Reaches l u i g.1)

  pub process_all_sync-Reaches :
      (last : ℤ) (l : List ℕ) (w : World)
      → Inv ixs w
      → AllBelow (size ixs) l
      → Reaches ixs (process_all_sync deliver last l w)
  unfolding process_all_sync
  process_all_sync-Reaches last [] w h g = Reaches-some ixs w h
  process_all_sync-Reaches last (p ∷ l) w h g =
      let (t, at, sound) = task_at_total p ixs w.tasks h.sound (in_tasks ixs p w h g.0) in
      rw at (
        Reaches-bind ixs _ _ (flush_until-Reaches ixs last t.absolute_index w h) λ u i.
          Reaches-bind ixs _ _ (execute_task-Reaches p u i g.0)
            λ v j. process_all_sync-Reaches t.absolute_index l v j g.1)

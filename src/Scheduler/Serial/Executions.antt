-- ===== src/Scheduler/Serial/Executions.antt =====
-- scheduler/scheduler.go: executeAll in the parallel mode, as a list of steps.
use go_pevm.Shared.{
  ℕ, ◌≡◌, sym, ◌∙◌, inl, inr, arith, false, some, List, [], ◌∷◌, ℤ_eq, bytes_eq, Option-cases, ◌<◌,
  ◌≤◌,
}
use mathlib.Core.Path.{subst}
use go_pevm.External.Kaia.{Kaia}
use go_pevm.External.BTree.{BTree}
use go_pevm.External.Evm.{Evm}
use go_pevm.Versions.{less}
use go_pevm.Scheduler.{DeliverTxTask}
use go_pevm.Scheduler.Rounds.{
  DeliverTxFunc, World, task_at, put_at, run_task, execute_one, execute_task, execute_all,
}
use go_pevm.Scheduler.Steps.{IsHonest}
use go_pevm.Scheduler.Serial.{UsesValues, IsAt}
use go_pevm.Scheduler.Serial.Local.{IsStep, step-IsSerial}
use go_pevm.Scheduler.Serial.Steps.{run_task-IsStep, run_task_not_validated}
use go_pevm.Scheduler.Serial.Phases.{AllOf, IsPhase, IsStopped, step-IsPhase, put-IsStopped}

module _ ⦃k : Kaia⦄ ⦃e : Evm k⦄ ⦃b : BTree less⦄ (deliver : DeliverTxFunc) where
  pub execute_parallel :
      (p : ℕ) (t : DeliverTxTask) (w : World)
      → IsAt p w t
      → w.synchronous ≡ false
      → let q = run_task deliver t w.store in
        execute_task deliver p w ≡ some (record w { store = q.1; tasks = put_at p q.0 w.tasks })
  unfolding execute_task execute_one
  execute_parallel p t w at par = rw (at, par)

module _ ⦃k : Kaia⦄ ⦃e : Evm k⦄ ⦃b : BTree less⦄ (deliver : DeliverTxFunc) (st : k.StateDb)
    (txs : List e.Message) where
  module _ (honest : IsHonest deliver) (uses : UsesValues deliver) where
    execute-IsPhase :
        (m p : ℕ) (w w' : World)
        → IsPhase deliver st txs m (λ q. q < m) w
        → IsStopped deliver st txs m w
        → m ≤ p
        → execute_task deliver p w ≡ some w'
        → IsPhase deliver st txs m (λ q. q < m) w' × IsStopped deliver st txs m w'
    execute-IsPhase m p w w' h stop le x = elim (Option-cases (task_at p w.tasks)) [
      | inl at ↦ absurd (unfold execute_task in cc (rw at at x))
      | inr (t, at) ↦
          let r = run_task deliver t w.store in
          let step : IsStep deliver p t r.0 w.store r.1 =
            run_task-IsStep deliver honest uses p t w.store (h.serial.placed p t at)
              h.serial.regular (h.serial.delivered p t at) in
          let w1 : World = record w { store = r.1; tasks = put_at p r.0 w.tasks } in
          let same : some w1 ≡ some w' = sym (execute_parallel deliver p t w at h.parallel) ∙ x in
          let same' : w1 ≡ w' = cc in
          subst (λ y. IsPhase deliver st txs m (λ q. q < m) y × IsStopped deliver st txs m y) same'
            (
              step-IsPhase deliver st txs m (λ q. q < m) (λ q. q < m) p t r.0 r.1 w.max_incarnation
                  w h at le step.same_tx
                  (step-IsSerial deliver st m (λ q. q < m) (λ q. q < m) p t r.0 r.1
                    w.max_incarnation w h.serial at le step (λ q _ c. c)
                    (λ c _. absurd (omega arith)) (λ q above c g. absurd (omega arith))),
              put-IsStopped deliver st txs p t r.0 r.1 m w at stop (
                  run_task_not_validated deliver honest uses p t w.store (h.serial.placed p t at)
                    h.serial.regular),
            )
    ]

    pub execute_all-IsPhase :
        (m : ℕ) (l : List ℕ) (w w' : World)
        → IsPhase deliver st txs m (λ q. q < m) w
        → IsStopped deliver st txs m w
        → AllOf (λ p. m ≤ p) l
        → execute_all deliver l w ≡ some w'
        → IsPhase deliver st txs m (λ q. q < m) w' × IsStopped deliver st txs m w'
    unfolding execute_all
    execute_all-IsPhase m [] w w' h stop le x =
        let same : w ≡ w' = cc in
        subst (λ y. IsPhase deliver st txs m (λ q. q < m) y × IsStopped deliver st txs m y) same
          (h, stop)
    execute_all-IsPhase m (p ∷ l) w w' h stop le x =
        elim (Option-cases (execute_task deliver p w)) [
          | inl g ↦ absurd (cc (rw g at x))
          | inr (w1, g) ↦
              let (h1, stop1) = execute-IsPhase m p w w1 h stop le.0 g in
              execute_all-IsPhase m l w1 w' h1 stop1 le.1 (rw g at x)
        ]

-- ===== src/Scheduler/Serial/Ends.antt =====
-- scheduler/scheduler.go: the end of a block in the parallel mode, before and after the last flush.
use go_pevm.Shared.{
  ℕ, ◌+◌, ◌≡◌, refl, sym, ◌∙◌, inl, inr, arith, true, false, some, List, ℤ_eq, bytes_eq,
  Option-cases,
}
use mathlib.Core.Path.{subst}
use go_pevm.External.Kaia.{Kaia}
use go_pevm.External.BTree.{BTree}
use go_pevm.External.Evm.{Evm}
use go_pevm.Versions.{less}
use go_pevm.Store.{new_multi_version_store}
use go_pevm.Store.Flush.{write_latest_to_store}
use go_pevm.Store.Flush.Accounts.{HasViews, IsSound}
use go_pevm.Scheduler.{DeliverTxEntry, all_validated, maximum_iterations}
use go_pevm.Scheduler.Rounds.{DeliverTxFunc, World, positions}
use go_pevm.Scheduler.Processing.{
  Schedule, with_state, flush, process_rounds, start_world, process_tasks,
}
use go_pevm.Scheduler.Steps.{IsHonest}
use go_pevm.Scheduler.Serial.{UsesValues, WritesHeld}
use go_pevm.Scheduler.Serial.Phases.{AllOf, transactions, IsPhase, IsPending, IsShuffle, Always}
use go_pevm.Scheduler.Serial.Rounds.{process_rounds-IsPhase}
use go_pevm.Scheduler.Serial.Entries.{
  shuffle-IsOrder, AreCounted, entry_txs, AreCounted-AreEntries, all_pending, start-IsPhase,
}
use go_pevm.Scheduler.{to_tasks}
use go_pevm.Scheduler.Invariant.{indexes}
use go_pevm.Scheduler.Completion.{Inv, Reaches}
use go_pevm.Scheduler.Results.{rounds_return}

module _ ⦃k : Kaia⦄ ⦃e : Evm k⦄ ⦃b : BTree less⦄ (deliver : DeliverTxFunc) (st : k.StateDb) where
  kept_txs :
      (txs : List e.Message) (w w' : World)
      → transactions w.tasks ≡ txs
      → flush w ≡ some w'
      → (transactions w'.tasks ≡ txs) × (w'.synchronous ≡ w.synchronous)
  unfolding flush
  kept_txs txs w w' h x = elim (Option-cases (write_latest_to_store w.store w.store.parent_store)) [
    | inl g ↦ absurd (cc (rw g at x))
    | inr (st', g) ↦
        let same : with_state st' w ≡ w' = cc (rw g at x) in
        subst (λ y. (transactions y.tasks ≡ txs) × (y.synchronous ≡ w.synchronous)) same (h, refl)
  ]

  -- The world `w` that the loop leaves, and `w'` after the last flush.
  pub record IsEnded (reqs : List DeliverTxEntry) (w w' : World) : Type 0 where
    pub final : ℕ
    pub phase : IsPhase deliver st (entry_txs reqs) final Always w
    pub validated : all_validated w.tasks ≡ true
    pub flushed : flush w ≡ some w'
    pub inv : Inv (indexes (to_tasks reqs)) w
    pub same_txs : transactions w'.tasks ≡ entry_txs reqs

  module _ (honest : IsHonest deliver) (uses : UsesValues deliver) (views : HasViews k)
      (sound : IsSound st) (held : WritesHeld st deliver) (sched : Schedule)
      (shuffle : IsShuffle sched) where
    pub process_tasks-IsEnded :
        (reqs : List DeliverTxEntry) (w' : World)
        → AreCounted 0 reqs
        → process_tasks deliver sched reqs st ≡ some w'
        → w'.synchronous ≡ false
        → (w : World) × IsEnded reqs w w'
    unfolding process_tasks
    process_tasks-IsEnded reqs w' h x par =
        let done : Reaches (indexes (to_tasks reqs))
            (process_rounds deliver sched maximum_iterations 0 (positions 0 w0.tasks) w0) =
          rounds_return deliver honest sched (shuffle-IsOrder sched shuffle) reqs st
            (AreCounted-AreEntries 0 reqs h) in
        let w = done.after in
        let g = done.returned in
        let flushed : flush w ≡ some w' = rw g at x in
        let par' : w.synchronous ≡ false =
          sym (kept_txs (transactions w.tasks) w w' refl flushed).1 ∙ par in
        let (v, (final, phase)) =
          process_rounds-IsPhase deliver st (entry_txs reqs) views held honest uses sched shuffle
            maximum_iterations 0 (positions 0 w0.tasks) w0 w (start-IsPhase deliver st reqs h sound)
            idle g par' in
        (
          w,
          record {
            final = final;
            phase = phase;
            validated = v;
            flushed = flushed;
            inv = done.inv;
            same_txs = (kept_txs (entry_txs reqs) w w' phase.same_txs flushed).0;
          },
        )
      where
        w0 : World
        w0 = start_world reqs (new_multi_version_store st)

        idle : AllOf (λ q. IsPending deliver st (entry_txs reqs) q w0) (positions 0 w0.tasks)
        idle =
            unfold start_world in
            all_pending 0 reqs _ (λ p t i s.
              let e : p ≡ 0 + p = omega arith in
              subst (λ q. IsPending deliver st (entry_txs reqs) q w0) e
                (t, unfold start_world in i, s))

-- ===== src/Scheduler/Serial/Results.antt =====
-- scheduler/scheduler.go: a block that ProcessAll ends in the parallel mode.
use go_pevm.Shared.{
  ℕ, pos, ◌≡◌, refl, ◌⊎◌, inl, inr, true, Option, some, List, ℤ_eq, bytes_eq, Bool-cases,
  Option-cases,
}
use mathlib.Core.Path.{subst}
use go_pevm.External.Kaia.{Kaia}
use go_pevm.External.BTree.{BTree}
use go_pevm.External.Evm.{Evm}
use go_pevm.Versions.{less}
use go_pevm.Store.{get_latest_before_index}
use go_pevm.Store.Flush.{write_latest_to_store}
use go_pevm.Store.Validation.Verdicts.{readset_of}
use go_pevm.Store.Flush.Accounts.{HasViews, IsSound}
use go_pevm.Scheduler.{Response, DeliverTxEntry, DeliverTxTask, all_validated, collect_responses}
use go_pevm.Scheduler.Statuses.{has_run}
use go_pevm.Scheduler.Rounds.{DeliverTxFunc, World, task_at}
use go_pevm.Scheduler.Processing.{Schedule, with_state, flush, process_tasks, process_all}
use go_pevm.Scheduler.Steps.{IsHonest}
use go_pevm.Scheduler.Results.{process_all_returns}
use go_pevm.Scheduler.Serial.{ReadsSerially, IsDelivered, UsesValues, WritesHeld, IsAt}
use go_pevm.Scheduler.Serial.Phases.{transactions, IsPhase, IsShuffle, Always}
use go_pevm.Scheduler.Serial.Fronts.{validated_ran, all_validated_at}
use go_pevm.Scheduler.Serial.Entries.{
  shuffle-IsOrder, AreCounted, entry_txs, AreCounted-AreEntries, at-collect_responses,
}
use go_pevm.Scheduler.Serial.Ends.{process_tasks-IsEnded}

module _ ⦃k : Kaia⦄ ⦃e : Evm k⦄ ⦃b : BTree less⦄ (deliver : DeliverTxFunc) (st : k.StateDb) where
  -- What holds of the task at position `p` of a block that was processed in parallel.
  pub record IsProcessed (rs : List (Option Response)) (w : World) (p : ℕ) (t : DeliverTxTask)
      : Type 0 where
    pub answer : task_at p rs ≡ some t.response
    pub delivered : IsDelivered deliver t w.store
    pub serial : ReadsSerially st (pos p) (readset_of (pos p) w.store) w.store

  -- The flush after the loop leaves the versions, the readsets and the tasks alone.
  processed :
      (txs : List e.Message) (final : ℕ) (w w' : World)
      → IsPhase deliver st txs final Always w
      → all_validated w.tasks ≡ true
      → flush w ≡ some w'
      → (p : ℕ) (t : DeliverTxTask) → IsAt p w' t
      → IsProcessed (collect_responses w'.tasks) w' p t
  unfolding flush get_latest_before_index
  processed txs final w w' h v x =
      elim (Option-cases (write_latest_to_store w.store w.store.parent_store)) [
        | inl g ↦ absurd (cc (rw g at x))
        | inr (st', g) ↦
            let same : with_state st' w ≡ w' = cc (rw g at x) in
            subst
              (λ y.
                (p : ℕ) (t : DeliverTxTask)
                → IsAt p y t
                → IsProcessed (collect_responses y.tasks) y p t)
              same (λ p t i. here st' p t i)
      ]
    where
      ran : (p : ℕ) (t : DeliverTxTask) → IsAt p w t → has_run t.status ≡ true
      ran p t i = validated_ran t.status (all_validated_at w.tasks p t v i)

      here :
          (st' : k.StateDb) (p : ℕ) (t : DeliverTxTask)
          → IsAt p w t
          → IsProcessed (collect_responses w.tasks) (with_state st' w) p t
      here st' p t i =
          let d = h.serial.delivered p t i (ran p t i) in
          record {
            answer = at-collect_responses p t w.tasks i;
            delivered = record {
              asked = d.asked;
              seen = d.seen;
              prepared = d.prepared;
              same_tx = d.same_tx;
              same_index = d.same_index;
              responded = d.responded;
              response = d.response;
              reads = d.reads;
              writes = d.writes;
            };
            serial =
                h.serial.serial p t tt i (all_validated_at w.tasks p t v i) (λ j u _ y. ran j u y);
          }

  module _ (honest : IsHonest deliver) (uses : UsesValues deliver) (views : HasViews k)
      (sound : IsSound st) (held : WritesHeld st deliver) (sched : Schedule)
      (shuffle : IsShuffle sched) where
    -- ProcessAll returns, and either it has turned synchronous, or the block is serialisable: each
    -- transaction has the response, the versions and the readset of one of its deliveries, in which
    -- every key was read with one value, that of the nearest transaction before it that has written
    -- the key, or the value in the state before the block if none has. The entries have their
    -- positions as indices; deliveries are honest, use balances, nonces and slots only, and write
    -- slots only of accounts that have code in the state before the block; in that state no account
    -- is marked as self-destructed, and accounts with no code have nothing in their slots; the
    -- schedule of a round orders what it was given; and the state keeps apart what is written to it,
    -- and of accounts with code all of it when it is finalised.
    pub process_all_serial :
        (reqs : List DeliverTxEntry)
        → AreCounted 0 reqs
        → (rs : List (Option Response)) × (w : World) × (process_all deliver sched reqs st
            ≡ some (rs, w))
          × ((w.synchronous ≡ true)
              ⊎ ((transactions w.tasks ≡ entry_txs reqs)
                  × ((p : ℕ) (t : DeliverTxTask) → IsAt p w t → IsProcessed rs w p t)))
    unfolding process_all
    process_all_serial reqs h =
        let (rs, w, x, _, _, _) =
          process_all_returns deliver honest sched (shuffle-IsOrder sched shuffle) reqs st
            (AreCounted-AreEntries 0 reqs h) in
        elim (Option-cases (process_tasks deliver sched reqs st)) [
          | inl g ↦ absurd (cc (rw g at x))
          | inr (w', g) ↦ (
            collect_responses w'.tasks,
            w',
            rw g refl,
            elim (Bool-cases w'.synchronous) [
              | inl par ↦ inl par
              | inr par ↦
                  let (w, d) =
                    process_tasks-IsEnded deliver st honest uses views sound held sched shuffle reqs
                      w' h g par in
                  inr (
                    d.same_txs,
                    processed (entry_txs reqs) d.final w w' d.phase d.validated d.flushed,
                  )
            ],
          )
        ]

-- ===== src/Scheduler/Disjoint/Blocks.antt =====
-- scheduler/scheduler.go: ProcessAll of a block with disjoint transactions.
use go_pevm.Shared.{
  ℕ, pos, ◌≡◌, refl, ap, ◌∙◌, inl, inr, arith, true, false, List, Option, some, get, bytes_eq, ℤ_eq,
  Option-cases,
}
use mathlib.Core.Path.{subst}
use go_pevm.External.Kaia.{Kaia}
use go_pevm.External.BTree.{BTree}
use go_pevm.External.Evm.{Evm}
use go_pevm.Versions.{less}
use go_pevm.Keys.{StorageKey}
use go_pevm.Store.{new_multi_version_store, version_in}
use go_pevm.Store.Flush.{write_latest_to_store}
use go_pevm.Store.Invariant.{new_multi_version_store-IsTracked}
use go_pevm.Scheduler.{
  Response, is_validated_status, DeliverTxEntry, DeliverTxTask, to_tasks, collect_responses,
}
use go_pevm.Scheduler.Rounds.{DeliverTxFunc, World}
use go_pevm.Scheduler.Processing.{
  Schedule, with_state, flush, start_world, process_tasks, process_all,
}
use go_pevm.Scheduler.Positions.{size}
use go_pevm.Scheduler.Steps.{IsHonest}
use go_pevm.Scheduler.Results.{all_answered, process_all_returns}
use go_pevm.Scheduler.Serial.{IsAt}
use go_pevm.Scheduler.Serial.Entries.{AreCounted, AreCounted-AreEntries, at_first, shuffle-IsOrder}
use go_pevm.Scheduler.Disjoint.{IsDisjoint, IsFirst}
use go_pevm.Scheduler.Disjoint.Executions.{Never}
use go_pevm.Scheduler.Disjoint.Rounds.{IsComplete, IsOnce, IsOneRoundAtMost, process_rounds-IsOnce}

module _ ⦃k : Kaia⦄ ⦃e : Evm k⦄ ⦃b : BTree less⦄ where
  -- What a block leaves that takes one round at most: the world after the round is flushed.
  pub record IsOneRoundOf (deliver : DeliverTxFunc) (sched : Schedule) (reqs : List DeliverTxEntry)
      (st : k.StateDb) (w : World) : Type 0 where
    pub looped : World
    pub round :
        IsOneRoundAtMost deliver sched 9 (start_world reqs (new_multi_version_store st)) looped
    pub flushed : flush looped ≡ some w

module _ ⦃k : Kaia⦄ ⦃e : Evm k⦄ ⦃b : BTree less⦄ (Writes : ℕ → StorageKey → Type 0)
    (deliver : DeliverTxFunc) (honest : IsHonest deliver) (disjoint : IsDisjoint Writes deliver)
    (sched : Schedule) (complete : IsComplete sched) (st : k.StateDb) where
  start-IsFirst :
      (reqs : List DeliverTxEntry)
      → AreCounted 0 reqs
      → IsFirst Writes st
          (size (to_tasks reqs))
          Never
          Never
          (start_world reqs (new_multi_version_store st))
  unfolding start_world new_multi_version_store version_in get
  start-IsFirst reqs h = record {
    parallel = refl;
    once = refl;
    placed = λ p t i. (at_first 0 p reqs t h i).1 ∙ ap pos (omega arith);
    same_size = refl;
    tracked = new_multi_version_store-IsTracked st;
    clear = λ q j v p. cc;
    parent = refl;
    ran = λ p t d i. absurd d;
    checked = λ p t d i. absurd d;
  }

  process_tasks-IsOnce :
      (reqs : List DeliverTxEntry) (w : World)
      → AreCounted 0 reqs
      → process_tasks deliver sched reqs st ≡ some w
      → IsOnce w × IsOneRoundOf deliver sched reqs st w
  unfolding process_tasks flush
  process_tasks-IsOnce reqs w' h x =
      let (w, run, done, round) =
        process_rounds-IsOnce Writes deliver honest disjoint sched complete st 9 w0 first fresh in
      elim (Option-cases (write_latest_to_store w.store w.store.parent_store)) [
        | inl g ↦ absurd (cc (rw (run, g) at x))
        | inr (st', g) ↦
            let same : with_state st' w ≡ w' = cc (rw (run, g) at x) in
            (
              subst IsOnce same (record {
                parallel = done.parallel;
                once = done.once;
                validated = done.validated;
              }),
              record { looped = w; round = round; flushed = rw g (ap some same) },
            )
      ]
    where
      w0 : World
      w0 = start_world reqs (new_multi_version_store st)

      first : IsFirst Writes st (size w0.tasks) Never Never w0
      first = unfold start_world in start-IsFirst reqs h

      fresh : (p : ℕ) (t : DeliverTxTask) → IsAt p w0 t → is_validated_status t.status ≡ false
      fresh p t i =
          let (idle, _) = at_first 0 p reqs t h (unfold start_world in i) in
          ap is_validated_status idle

  -- A block in which no transaction reads what an earlier one may write is done after one round in
  -- the parallel mode: ProcessAll returns, has not turned synchronous, no task has a second
  -- incarnation, all tasks are validated, and no response is nil. What it leaves is what one
  -- executeAll of all tasks, one validateAll and the last flush leave, or, if there is nothing to
  -- execute, the last flush alone. The entries have their positions as indices, the
  -- deliveries are honest, answer and do not abort, read each key once and from the state, and write
  -- only what their transactions may write; the schedule of a round leaves out no task and adds none.
  pub process_all-IsOnce :
      (reqs : List DeliverTxEntry)
      → AreCounted 0 reqs
      → (rs : List (Option Response)) × (w : World) × (process_all deliver sched reqs st
          ≡ some (rs, w))
        × IsOnce w
        × (all_answered rs ≡ true)
        × IsOneRoundOf deliver sched reqs st w
  unfolding process_all
  process_all-IsOnce reqs h =
      let (rs, w, x, _, _, answered) =
        process_all_returns deliver honest sched (shuffle-IsOrder sched complete.shuffle) reqs st
          (AreCounted-AreEntries 0 reqs h) in
      elim (Option-cases (process_tasks deliver sched reqs st)) [
        | inl g ↦ absurd (cc (rw g at x))
        | inr (w', g) ↦
            let same : some (collect_responses w'.tasks, w') ≡ some (rs, w) = rw g at x in
            let same' : w' ≡ w = cc same in
            let (done, round) = process_tasks-IsOnce reqs w' h g in
            let done' = subst IsOnce same' done in
            (
              rs,
              w,
              x,
              done',
              answered done'.validated,
              record {
                looped = round.looped;
                round = round.round;
                flushed = round.flushed ∙ ap some same';
              },
            )
      ]

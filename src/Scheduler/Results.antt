-- ===== src/Scheduler/Results.antt =====
-- scheduler/scheduler.go: what ProcessAll returns.
use go_pevm.Shared.{
  ℕ, zero, suc, ◌+◌, ℤ, pos, ◌≡◌, refl, sym, ap, ◌∙◌, Bool, true, false, ◌&&◌, Option, none, some,
  List, [], ◌∷◌, arith, has, is_some, ℤ_eq, bytes_eq, if◌then◌else◌, ltb, get,
}
use go_pevm.External.Kaia.{Kaia}
use go_pevm.External.BTree.{BTree}
use go_pevm.External.Evm.{Evm}
use go_pevm.Versions.{less}
use go_pevm.Store.{new_multi_version_store, version_in}
use go_pevm.Store.Invariant.{new_multi_version_store-IsTracked}
use go_pevm.Tracer.{◌>>=◌}
use go_pevm.Scheduler.{
  Status, Response, DeliverTxEntry, DeliverTxTask, is_validated_status, to_tasks, all_validated,
  find_first_non_validated, collect_responses, maximum_iterations,
}
use go_pevm.Scheduler.Statuses.{has_run}
use go_pevm.Scheduler.Invariant.{indexes, AllSound}
use go_pevm.Scheduler.Rounds.{DeliverTxFunc, World, positions, from_position, execute_all}
use go_pevm.Scheduler.Processing.{
  Schedule, validate_all, process_all_sync, flush_validated, or_zero, go_synchronous,
  process_rounds, start_world, process_tasks, process_all,
}
use go_pevm.Scheduler.Steps.{IsHonest}
use go_pevm.Scheduler.Positions.{size, AllBelow, positions-AllBelow, size-indexes}
use go_pevm.Scheduler.Completion.{
  Inv, Reaches, Reaches-bind, Reaches-some, flush-Reaches, flush_validated-Reaches, all_positions,
  validate_all-Validates,
}
use go_pevm.Scheduler.Executions.{execute_all-Reaches, process_all_sync-Reaches}

module _ ⦃k : Kaia⦄ ⦃e : Evm k⦄ ⦃b : BTree less⦄ where
  -- A schedule only orders: it names no position that it was not given.
  pub record IsOrder (sched : Schedule) : Type 0 where
    pub executes : (n m : ℕ) (l : List ℕ) → AllBelow m l → AllBelow m (sched.executions n l)
    pub validates : (n m : ℕ) (l : List ℕ) → AllBelow m l → AllBelow m (sched.validations n l)

module _ ⦃k : Kaia⦄ ⦃e : Evm k⦄ ⦃b : BTree less⦄ (deliver : DeliverTxFunc)
    (honest : IsHonest deliver) (sched : Schedule) (order : IsOrder sched) (ixs : List ℤ) where
  sync-Inv : (w : World) → Inv ixs w → Inv ixs (go_synchronous w)
  sync-Inv w h = record { same = h.same; sound = h.sound; kept = h.kept }

  process_rounds-Reaches :
      (left last : ℕ) (to_execute : List ℕ) (w : World)
      → Inv ixs w
      → AllBelow (size ixs) to_execute
      → Reaches ixs (process_rounds deliver sched left last to_execute w)
  unfolding process_rounds
  process_rounds-Reaches zero last to_execute w h g =
      by_test (all_validated w.tasks) (find_first_non_validated 0 w.tasks)
    where
      by_test :
          (p : Bool) (o : Option ℕ)
          → Reaches ixs (
              if p then some w else elim o [
                | none ↦ some (go_synchronous w)
                | some start ↦
                    process_all_sync deliver
                      (pos 0)
                      (from_position start (positions 0 w.tasks))
                      (go_synchronous w)
              ])
      by_test true o = Reaches-some ixs w h
      by_test false none = Reaches-some ixs _ (sync-Inv w h)
      by_test false (some start) =
          process_all_sync-Reaches deliver honest ixs (pos 0) _ _ (sync-Inv w h)
            (all_positions ixs start w h)
  process_rounds-Reaches (suc left) last to_execute w h g =
      by_test (all_validated w.tasks)
        (process_rounds-Reaches left (if ltb last start then start else last))
    where
      start : ℕ
      start = or_zero (find_first_non_validated 0 w.tasks)

      by_test :
          (p : Bool)
          → ((l : List ℕ) (u : World)
              → Inv ixs u
              → AllBelow (size ixs) l
              → Reaches ixs
                  (process_rounds deliver sched left (if ltb last start then start else last) l u))
          → Reaches ixs (elim p [
            | true ↦ some w
            | false ↦ flush_validated last start w >>= λ w1.
                execute_all deliver (sched.executions left to_execute) w1 >>= λ w2.
                validate_all (sched.validations left) w2 >>= λ q.
                process_rounds deliver sched left (if ltb last start then start else last) q.0 q.1
          ])
      by_test true next = Reaches-some ixs w h
      by_test false next = Reaches-bind ixs _ _ (flush_validated-Reaches ixs last start w h) λ w1 i.
          Reaches-bind ixs _ _
            (execute_all-Reaches deliver honest ixs _ w1 i (order.executes left _ to_execute g))
            λ w2 j.
              let v =
                validate_all-Validates ixs (sched.validations left) w2
                  (order.validates left (size ixs)) j in
              let rest = next v.again v.world v.inv v.below in
              record {
                after = rest.after;
                returned = rw (v.returned) (rest.returned);
                inv = rest.inv;
              }

module _ ⦃k : Kaia⦄ ⦃e : Evm k⦄ where
  -- Every entry has a position of the block as its index.
  abbrev pub AreEntries : List DeliverTxEntry → Type 0
  AreEntries [] = Unit
  AreEntries (r ∷ l) = ((n : ℕ) × (r.entry_index ≡ pos n)) × AreEntries l

  abbrev pub all_answered : List (Option Response) → Bool
  all_answered [] = true
  all_answered (r ∷ l) = is_some r && all_answered l

  to_tasks-AllSound :
      (ixs : List ℤ) (l : List DeliverTxEntry)
      → AreEntries l
      → ((j : ℤ) → has j (indexes (to_tasks l)) ≡ true → has j ixs ≡ true)
      → AllSound ixs (to_tasks l)
  unfolding to_tasks
  to_tasks-AllSound ixs [] h among = tt
  to_tasks-AllSound ixs (r ∷ l) h among = (
    record {
      deps_known = tt;
      own = among r.entry_index (ground arith);
      place = h.0;
      answered = λ q. cc;
    },
    to_tasks-AllSound ixs l h.1 (λ j p. among j (ground arith)),
  )

  size-collect_responses : (l : List DeliverTxTask) → size (collect_responses l) ≡ size l
  unfolding collect_responses
  size-collect_responses [] = refl
  size-collect_responses (t ∷ l) = ap suc (size-collect_responses l)

  pub indexes-to_tasks : (l : List DeliverTxEntry) → size (indexes (to_tasks l)) ≡ size l
  unfolding to_tasks
  indexes-to_tasks [] = refl
  indexes-to_tasks (r ∷ l) = ap suc (indexes-to_tasks l)

  validated_answered :
      (ixs : List ℤ) (l : List DeliverTxTask)
      → AllSound ixs l
      → all_validated l ≡ true
      → all_answered (collect_responses l) ≡ true
  unfolding all_validated collect_responses
  validated_answered ixs [] h v = refl
  validated_answered ixs (t ∷ l) h v =
      let here : is_validated_status t.status ≡ true = ground arith in
      let there : all_validated l ≡ true = ground arith in
      rw (h.0.answered (run t.status here)) (validated_answered ixs l h.1 there)
    where
      run : (x : Status) → is_validated_status x ≡ true → has_run x ≡ true
      run Status.validated p = refl
      run _ p = cc

module _ ⦃k : Kaia⦄ ⦃e : Evm k⦄ ⦃b : BTree less⦄ (deliver : DeliverTxFunc)
    (honest : IsHonest deliver) (sched : Schedule) (order : IsOrder sched) where
  pub start-Inv :
      (reqs : List DeliverTxEntry) (st : k.StateDb)
      → AreEntries reqs
      → Inv (indexes (to_tasks reqs)) (start_world reqs (new_multi_version_store st))
  unfolding start_world
  start-Inv reqs st h = record {
    same = refl;
    sound = to_tasks-AllSound (indexes (to_tasks reqs)) reqs h (λ j p. p);
    kept = record {
      tracked = new_multi_version_store-IsTracked st;
      known = λ key i v p. unfold new_multi_version_store version_in get in cc;
    };
  }

  pub rounds_return :
      (reqs : List DeliverTxEntry) (st : k.StateDb)
      → AreEntries reqs
      → let w0 = start_world reqs (new_multi_version_store st) in
        Reaches
          (indexes (to_tasks reqs))
          (process_rounds deliver sched maximum_iterations 0 (positions 0 w0.tasks) w0)
  unfolding start_world
  rounds_return reqs st h =
      let ixs : List ℤ = indexes (to_tasks reqs) in
      let w0 : World = start_world reqs (new_multi_version_store st) in
      let enough : size (to_tasks reqs) ≡ size ixs = sym (size-indexes (to_tasks reqs)) in
      let same : 0 + size (to_tasks reqs) ≡ size ixs = omega arith in
      process_rounds-Reaches deliver honest sched order ixs maximum_iterations 0
        (positions 0 w0.tasks) w0 (start-Inv reqs st h)
        (rw same at (positions-AllBelow 0 (to_tasks reqs)))

  -- ProcessAll returns, and does not panic, whatever the transactions and the order in which the
  -- goroutines of a round take the tasks, if the indices of the entries are not negative and each
  -- delivery is honest: its tracer is the task's own, writes a map, and aborts only for the
  -- transaction itself or for one that has a version of some key. It returns one response for each
  -- entry, and the tasks keep the indices of the entries. If all tasks are validated in the end, no
  -- response is nil.
  pub process_all_returns :
      (reqs : List DeliverTxEntry) (st : k.StateDb)
      → AreEntries reqs
      → (rs : List (Option Response)) × (w : World) × (process_all deliver sched reqs st
          ≡ some (rs, w))
        × (size rs ≡ size reqs)
        × (indexes w.tasks ≡ indexes (to_tasks reqs))
        × (all_validated w.tasks ≡ true → all_answered rs ≡ true)
  unfolding process_all process_tasks start_world
  process_all_returns reqs st h =
      let ixs : List ℤ = indexes (to_tasks reqs) in
      let done = Reaches-bind ixs _ _ (rounds_return reqs st h) (λ w i. flush-Reaches ixs w i) in
      (
        collect_responses done.after.tasks,
        done.after,
        rw (done.returned),
        size-collect_responses done.after.tasks
            ∙ sym (size-indexes done.after.tasks)
            ∙ ap size done.inv.same
            ∙ indexes-to_tasks reqs,
        done.inv.same,
        validated_answered ixs done.after.tasks done.inv.sound,
      )

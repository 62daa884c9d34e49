-- ===== src/Scheduler/Sequential/Results.antt =====
-- scheduler/scheduler.go: a block that ProcessAll ends in the parallel mode, beside its transactions
-- in order.
use go_pevm.Shared.{
  ℕ, ◌+◌, ℤ, pos, ◌<◌, ◌≡◌, refl, sym, ap, ◌∙◌, ◌⊎◌, inl, inr, arith, true, false, Option, none,
  some, List, ℤ_eq, bytes_eq, lt_int, Option-cases, Bool-cases,
}
use mathlib.Core.Path.{subst}
use go_pevm.External.Kaia.{Kaia}
use go_pevm.External.BTree.{BTree}
use go_pevm.External.Evm.{Evm}
use go_pevm.Versions.{ValueItem, less}
use go_pevm.Versions.Order.{IsLatestBelow}
use go_pevm.Keys.{StorageKey, get_value}
use go_pevm.Keys.RoundTrip.{HasTexts}
use go_pevm.Store.{get_latest_before_index}
use go_pevm.Store.Versioned.{written, fresh}
use go_pevm.Store.Invariant.{version}
use go_pevm.Store.Reads.{read-IsLatestBelow, written-index}
use go_pevm.Store.Flush.{write_latest_to_store}
use go_pevm.Store.Flush.Accounts.{HasViews, IsSound, IsHeld}
use go_pevm.Scheduler.{Response, DeliverTxEntry, DeliverTxTask, collect_responses}
use go_pevm.Scheduler.Statuses.{has_run}
use go_pevm.Scheduler.Rounds.{DeliverTxFunc, World, task_at}
use go_pevm.Scheduler.Processing.{Schedule, with_state, flush, process_tasks, process_all}
use go_pevm.Scheduler.Positions.{size, size-indexes, task_below}
use go_pevm.Scheduler.Steps.{IsHonest}
use go_pevm.Scheduler.Results.{process_all_returns, indexes-to_tasks}
use go_pevm.Scheduler.Serial.{serial_value, UsesValues, WritesHeld, IsAt}
use go_pevm.Scheduler.Serial.Flushes.{delivered-IsHeld}
use go_pevm.Scheduler.Serial.Phases.{transactions, IsShuffle}
use go_pevm.Scheduler.Serial.Fronts.{validated_ran, all_validated_at}
use go_pevm.Scheduler.Serial.Entries.{
  AreCounted, entry_txs, AreCounted-AreEntries, shuffle-IsOrder, has-counted,
}
use go_pevm.Scheduler.Serial.Ends.{IsEnded, process_tasks-IsEnded}
use go_pevm.Tracer.Reference.{View}
use go_pevm.Scheduler.Sequential.{Meaning, answers_in_order, view_in_order, HasMeaning}
use go_pevm.Scheduler.Sequential.Views.{Shows, IsSettled, settled_in_order, written-value}
use go_pevm.Tracer.Uses.{HasOwnKeys}
use go_pevm.Scheduler.Sequential.Ends.{IsFull, HasHashes, HoldsValues, flushed-HoldsValues}

module _ ⦃k : Kaia⦄ ⦃e : Evm k⦄ ⦃b : BTree less⦄ (deliver : DeliverTxFunc) (st : k.StateDb)
    (reqs : List DeliverTxEntry) (counted : AreCounted 0 reqs) (w w' : World)
    (ended : IsEnded deliver st reqs w w') where
  settled :
      (p : ℕ) (t : DeliverTxTask) → task_at p w.tasks ≡ some t → IsSettled deliver st w.store p t
  settled p t i =
      let h = ended.phase.serial in
      let v = all_validated_at w.tasks p t ended.validated i in
      let ran : (j : ℕ) (u : DeliverTxTask) → IsAt j w u → has_run u.status ≡ true =
        λ j u y. validated_ran u.status (all_validated_at w.tasks j u ended.validated y) in
      record {
        placed = h.placed p t i;
        delivered = h.delivered p t i (ran p t i);
        serial = h.serial p t tt i v (λ j u _ y. ran j u y);
      }

  same_size : size w.tasks ≡ size reqs
  same_size = sym (size-indexes w.tasks) ∙ ap size ended.inv.same ∙ indexes-to_tasks reqs

  fresh_done :
      (i : ℤ) (n : ℕ) (o : Option k.Hash) (v : ValueItem)
      → fresh i n o ≡ some v
      → (v.index ≡ i) × (v.estimate ≡ false)
  fresh_done i n none v h = cc
  fresh_done i n (some x) v h =
      let same : written i n x ≡ v = cc in
      (
        ap (λ y. y.index) (sym same) ∙ written-index i n x,
        ap (λ y. y.estimate) (sym same) ∙ (written-value i n x).0,
      )

  -- The task that has left a version.
  owner :
      (q : StorageKey) (j : ℤ) (v : ValueItem)
      → version q j w.store ≡ some v
      → (d : ℕ) × (t : DeliverTxTask) × IsSettled deliver st w.store d t
        × (d < size w.tasks)
        × (j ≡ t.absolute_index)
  owner q j v h =
      let (d, i, below) = has-counted 0 reqs j counted (ended.inv.kept.known q j v h) in
      let here : d < size w.tasks = omega (arith, below, same_size) in
      let (t, at) = task_below d w.tasks here in
      let x = settled d t at in
      let own : j ≡ t.absolute_index = i ∙ ap pos (omega arith) ∙ sym x.placed in
      (d, t, x, here, own)

  -- Every version is one that a transaction of the block has left.
  bounded :
      (q : StorageKey) (j : ℤ) (v : ValueItem)
      → version q j w.store ≡ some v
      → (d : ℕ) × (v.index ≡ pos d) × (d < size w.tasks) × (v.estimate ≡ false)
  bounded q j v h =
      let (d, t, x, here, own) = owner q j v h in
      let (ix, done) =
        fresh_done _ _ _ v
          (sym (x.delivered.writes q) ∙ ap (λ y. version q y w.store) (sym own) ∙ h) in
      (d, ix ∙ x.placed, here, done)

  version-IsHeld :
      WritesHeld st deliver
      → (q : StorageKey) (j : ℤ) (v : ValueItem) → version q j w.store ≡ some v
      → IsHeld st q
  version-IsHeld held q j v h =
      let (d, t, x, here, own) = owner q j v h in
      delivered-IsHeld deliver st held q t w.store v x.delivered
        (ap (λ y. version q y w.store) (sym own) ∙ h)

  full : WritesHeld st deliver → IsFull (size w.tasks) st w.store
  full held =
      let r = ended.phase.serial.regular in
      record {
        bounded = bounded;
        made = λ q j v h. r.made q j (r.tracked.listed q j v h);
        steady = ended.phase.serial.steady;
        held = version-IsHeld held;
        unwritten = λ q x none_of. elim (ended.phase.serial.flushed q x) [
          | inl y ↦ y
          | inr (j, v, _, at) ↦ absurd (cc (none_of (pos j), at))
        ];
      }

  -- The first transaction finds the values of the state.
  first_Shows : Shows st 0 w.store (λ q. get_value q st)
  first_Shows q =
      by_read (get_latest_before_index (pos 0) q w.store) refl (read-IsLatestBelow 0 q w.store)
    where
      by_read :
          (o : Option ValueItem)
          → get_latest_before_index (pos 0) q w.store ≡ o
          → IsLatestBelow (λ j. version q j w.store) (pos 0) o
          → serial_value st (pos 0) q w.store ≡ some (get_value q st)
      by_read none x h = rw (serial_value, x) refl
      by_read (some v) x h =
          let (d, i, _, _) = bounded q v.index v h.0 in
          let low : lt_int (pos d) (pos 0) ≡ true = ap (λ y. lt_int y (pos 0)) (sym i) ∙ h.1 in
          absurd (ground (arith, low))

  abbrev before : View
  before q = get_value q st

  in_order :
      (meaning : Meaning)
      → HasMeaning deliver meaning
      → (collect_responses w.tasks ≡ answers_in_order meaning (entry_txs reqs) before)
        × Shows st (size w.tasks) w.store (view_in_order meaning (entry_txs reqs) before)
  in_order meaning means =
      let (answers, shown) =
        settled_in_order deliver meaning means st w.store 0 w.tasks before facts first_Shows in
      subst
        (λ txs.
          (collect_responses w.tasks ≡ answers_in_order meaning txs before)
          × Shows st (size w.tasks) w.store (view_in_order meaning txs before))
        ended.phase.same_txs
        (
          answers,
          subst (λ n. Shows st n w.store (view_in_order meaning (transactions w.tasks) before))
              from_zero shown,
        )
    where
      facts :
          (p : ℕ) (t : DeliverTxTask)
          → task_at p w.tasks ≡ some t
          → IsSettled deliver st w.store (0 + p) t
      facts p t i =
          let e : p ≡ 0 + p = omega arith in
          subst (λ j. IsSettled deliver st w.store j t) e (settled p t i)

      from_zero : 0 + size w.tasks ≡ size w.tasks
      from_zero = omega arith

  -- The responses, and the state after the last flush.
  ended_in_order :
      (texts : HasTexts k) (views : HasViews k) (hashes : HasHashes) (own : HasOwnKeys)
      (held : WritesHeld st deliver) (meaning : Meaning)
      → HasMeaning deliver meaning
      → (collect_responses w'.tasks ≡ answers_in_order meaning (entry_txs reqs) before)
        × HoldsValues (view_in_order meaning (entry_txs reqs) before) w'.store.parent_store
  unfolding flush
  ended_in_order texts views hashes own held meaning means =
      let (answers, shows) = in_order meaning means in
      let x = ended.flushed in
      let left = view_in_order meaning (entry_txs reqs) before in
      elim (Option-cases (write_latest_to_store w.store w.store.parent_store)) [
        | inl g ↦ absurd (cc (rw g at x))
        | inr (st', g) ↦
            let same : with_state st' w ≡ w' = cc (rw g at x) in
            subst
              (λ y.
                (collect_responses y.tasks ≡ answers_in_order meaning (entry_txs reqs) before)
                × HoldsValues left y.store.parent_store)
              same
              (
                answers,
                flushed-HoldsValues texts views hashes own (size w.tasks) st w.store left
                    (full held) shows st' g,
              )
      ]

module _ ⦃k : Kaia⦄ ⦃e : Evm k⦄ ⦃b : BTree less⦄ (deliver : DeliverTxFunc)
    (honest : IsHonest deliver) (uses : UsesValues deliver) (meaning : Meaning)
    (means : HasMeaning deliver meaning) (texts : HasTexts k) (views : HasViews k)
    (hashes : HasHashes) (own : HasOwnKeys) (sched : Schedule) (shuffle : IsShuffle sched)
    (st : k.StateDb) (sound : IsSound st) (held : WritesHeld st deliver) where
  -- ProcessAll returns, and unless it has turned synchronous, it does what the transactions do one
  -- after the other: the responses are those of the transactions in order, and every storage slot and
  -- every balance of the state that it leaves has the value that they leave, whatever the schedule of
  -- the rounds. A transaction in order finds the values in the state before the block, with what the
  -- transactions before it have written. The entries have their positions as indices; deliveries are
  -- honest, use balances, nonces and slots only, and those with a response do what their transactions
  -- mean as functions of the values that they read, and write slots only of accounts that have code in
  -- the state before the block; in that state no account is marked as self-destructed, and accounts
  -- with no code have nothing in their slots; the schedule of a round orders what it was given;
  -- the state keeps apart what is written to it, and of accounts with code all of it when it is
  -- finalised; texts and numbers of hashes and addresses can be read
  -- back; the constants for balances and nonces are none of those for code; and the slot is none of
  -- those that stand for a balance, a nonce, code or self-destruction.
  pub process_all_in_order :
      (reqs : List DeliverTxEntry)
      → AreCounted 0 reqs
      → (rs : List (Option Response)) × (w : World) × (process_all deliver sched reqs st
          ≡ some (rs, w))
        × ((w.synchronous ≡ true)
            ⊎ ((rs ≡ answers_in_order meaning (entry_txs reqs) (λ q. get_value q st))
                × HoldsValues
                    (view_in_order meaning (entry_txs reqs) (λ q. get_value q st))
                    w.store.parent_store))
  unfolding process_all
  process_all_in_order reqs h =
      let (rs, w, x, _, _, _) =
        process_all_returns deliver honest sched (shuffle-IsOrder sched shuffle) reqs st
          (AreCounted-AreEntries 0 reqs h) in
      elim (Option-cases (process_tasks deliver sched reqs st)) [
        | inl g ↦ absurd (cc (rw g at x))
        | inr (w', g) ↦ (
          collect_responses w'.tasks,
          w',
          rw g refl,
          elim (Bool-cases w'.synchronous) [
            | inl par ↦ inl par
            | inr par ↦
                let (w0, d) =
                  process_tasks-IsEnded deliver st honest uses views sound held sched shuffle reqs
                    w' h g par in
                inr (
                  ended_in_order deliver st reqs h w0 w' d texts views hashes own held meaning
                    means)
          ],
        )
      ]

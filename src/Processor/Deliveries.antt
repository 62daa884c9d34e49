-- ===== src/Processor/Deliveries.antt =====
-- processor/processor.go: deliverTx, and the responses of Execute.
use go_pevm.Shared.{
  ℕ, suc, ℤ, pos, ◌≡◌, refl, sym, ap, ◌∙◌, inl, inr, none, Option, Option-cases, some, List, [],
  ◌∷◌, bytes_eq, ℤ_eq,
}
use mathlib.Core.Path.{subst}
use go_pevm.External.Kaia.{Kaia}
use go_pevm.External.BTree.{BTree}
use go_pevm.External.Evm.{Evm}
use go_pevm.External.Chain.{Chain, Calls, not_started, started}
use go_pevm.Versions.{less}
use go_pevm.Store.{Store}
use go_pevm.Tracer.{AccessListTracer, Abort, new_access_list_tracer}
use go_pevm.Tracer.Views.{IsFaithful, IsFounded, AreFounded}
use go_pevm.Tracer.Unstarted.{
  HasNoEnd, make_calls-Succeeds_unstarted, make_calls-none, make_calls-IsFaithful,
}
use go_pevm.Tracer.Runs.{new_channel, new-IsFaithful, run_transaction-IsFaithful}
use go_pevm.Scheduler.{DeliverTxTask}
use go_pevm.Scheduler.Rounds.{Delivery, DeliverTxFunc}
use go_pevm.Scheduler.Steps.{IsPrepared, IsHonest}
use go_pevm.Processor.{
  Processor, trace_calls, left_unless_failed, response_of, applied, deliver_tx, IsDeliveryOf,
  entries_from, process_txs, execute,
}
use go_pevm.Scheduler.{Response}
use go_pevm.Scheduler.Processing.{Schedule}
use go_pevm.Scheduler.Positions.{size}
use go_pevm.Scheduler.Results.{IsOrder, AreEntries, process_all_returns}

module _ ⦃k : Kaia⦄ ⦃e : Evm k⦄ ⦃b : BTree less⦄ ⦃c : Chain⦄ where
  -- CaptureTxEnd is not called before CaptureStart.
  abbrev pub StartsFirst : Calls → Type 0
  StartsFirst (not_started cs) = HasNoEnd cs
  StartsFirst (started env from to create v cs) = Unit

  trace_calls-returns :
      (cs : Calls) (m : e.Message) (i n : ℕ) (s : Store)
      → StartsFirst cs
      → (t : AccessListTracer) × (trace_calls cs s (new_access_list_tracer m (pos i) n new_channel)
          ≡ some t)
  unfolding trace_calls
  trace_calls-returns (not_started cs) m i n s h =
      let done = make_calls-Succeeds_unstarted cs s _ h (new-IsFaithful m i n s) in
      (done.after, done.returned)
  trace_calls-returns (started env from to create v cs) m i n s h =
      let (t, p, _, _, _) = run_transaction-IsFaithful m i n env from to create v cs s in (t, p)

  trace_calls-none :
      (cs : Calls) (m : e.Message) (i n : ℕ) (s : Store)
      → ¬ StartsFirst cs
      → trace_calls cs s (new_access_list_tracer m (pos i) n new_channel) ≡ none
  unfolding trace_calls
  trace_calls-none (not_started cs) m i n s h =
      make_calls-none cs s _ h (new-IsFaithful m i n s) (unfold new_access_list_tracer in refl)
  trace_calls-none (started env from to create v cs) m i n s h = absurd (h tt)

  trace_calls-IsFaithful :
      (cs : Calls) (m : e.Message) (i n : ℕ) (s : Store) (t : AccessListTracer)
      → trace_calls cs s (new_access_list_tracer m (pos i) n new_channel) ≡ some t
      → IsFaithful s t × (t.transaction_index ≡ pos i)
  unfolding trace_calls
  trace_calls-IsFaithful (not_started cs) m i n s t x =
      let (f, j) = make_calls-IsFaithful cs s _ t (new-IsFaithful m i n s) x in
      (f, j ∙ (unfold new_access_list_tracer in refl))
  trace_calls-IsFaithful (started env from to create v cs) m i n s t x =
      let (u, p, f, j, _) = run_transaction-IsFaithful m i n env from to create v cs s in
      let same : u ≡ t = cc (p, x) in
      (subst (IsFaithful s) same f, ap (λ y. y.transaction_index) (sym same) ∙ j)

  -- deliverTx on a prepared task, by what the calls of its tracer leave.
  module _ (p : Processor) (t : DeliverTxTask) (s : Store) (h : IsPrepared t s) where
    abbrev traced : Option AccessListTracer
    traced =
        trace_calls (applied p s.parent_store t.tx t.used_gas).tracer_calls s
          (new_access_list_tracer t.tx t.absolute_index t.incarnation new_channel)

    deliver_tx-none : traced ≡ none → deliver_tx p t s ≡ none
    unfolding deliver_tx
    deliver_tx-none x = rw (h.copied, h.tracer, x) refl

    deliver_tx-some :
        (u : AccessListTracer)
        → traced ≡ some u
        → (d : Delivery) × (p' : Processor) × (deliver_tx p t s ≡ some (d, p'))
          × (d.traced ≡ u)
          × (d.result ≡ response_of (applied p s.parent_store t.tx t.used_gas).outcome)
    unfolding deliver_tx
    deliver_tx-some u x =
        let a = applied p s.parent_store t.tx t.used_gas in
        (
          record {
            traced = u;
            left_state = left_unless_failed (c.snapshot s.parent_store) a.left a.outcome;
            gas_used = a.gas;
            result = response_of a.outcome;
          },
          record p {
            own_state =
                c.set_tx_context (c.tx_hash t.tx) (c.header_hash p.header) t.absolute_index
                  p.own_state;
          },
          rw (h.copied, h.tracer, x),
          refl,
          refl,
        )

    -- If CaptureTxEnd is called with no CaptureStart before it, deliverTx panics for a prepared task.
    pub deliver_tx_panics :
        ¬ StartsFirst (applied p s.parent_store t.tx t.used_gas).tracer_calls
        → deliver_tx p t s ≡ none
    deliver_tx_panics n =
        let (i, e) = h.position in
        deliver_tx-none (
          subst
            (λ z.
              trace_calls (applied p s.parent_store t.tx t.used_gas).tracer_calls s
                (new_access_list_tracer t.tx z t.incarnation new_channel)
              ≡ none)
            (sym e)
            (trace_calls-none (applied p s.parent_store t.tx t.used_gas).tracer_calls t.tx i
              t.incarnation s n))

    -- What a delivery has traced.
    pub by_calls :
        (d : Delivery) (p' : Processor) → deliver_tx p t s ≡ some (d, p') → traced ≡ some d.traced
    by_calls d p' x = elim (Option-cases traced) [
      | inl y ↦ absurd (cc (deliver_tx-none y, x))
      | inr (u, y) ↦
          let (d', q, x', same, _) = deliver_tx-some u y in
          let both : some (d', q) ≡ some (d, p') = sym x' ∙ x in
          let both' : d' ≡ d = cc both in y ∙ ap some (sym same ∙ ap (λ z. z.traced) both')
    ]

    pub by_tracer :
        (u : AccessListTracer)
        → traced ≡ some u
        → IsFaithful s u × (u.transaction_index ≡ t.absolute_index)
    by_tracer u x =
        let (i, e) = h.position in
        let y =
          subst
            (λ z.
              trace_calls (applied p s.parent_store t.tx t.used_gas).tracer_calls s
                (new_access_list_tracer t.tx z t.incarnation new_channel)
              ≡ some u)
            e x in
        let (f, j) = trace_calls-IsFaithful _ t.tx i t.incarnation s u y in (f, j ∙ sym e)

    -- If CaptureTxEnd is not called before CaptureStart, deliverTx does not panic for a prepared
    -- task. The tracer that it leaves has one value for each key read, the parent state's, aborts
    -- only for the task itself or for a transaction that has a version of some key, and has the
    -- task's index.
    pub deliver_tx_returns :
        StartsFirst (applied p s.parent_store t.tx t.used_gas).tracer_calls
        → (d : Delivery) × (p' : Processor) × (deliver_tx p t s ≡ some (d, p'))
          × IsFaithful s d.traced
          × (d.traced.transaction_index ≡ t.absolute_index)
    deliver_tx_returns first =
        let (i, e) = h.position in
        let (u, x) =
          trace_calls-returns (applied p s.parent_store t.tx t.used_gas).tracer_calls t.tx i
            t.incarnation s first in
        let y : traced ≡ some u =
          subst
            (λ z.
              trace_calls (applied p s.parent_store t.tx t.used_gas).tracer_calls s
                (new_access_list_tracer t.tx z t.incarnation new_channel)
              ≡ some u)
            (sym e) x in
        let (d, p', z, same, _) = deliver_tx-some u y in
        let (f, j) = by_tracer d.traced (y ∙ ap some (sym same)) in (d, p', z, f, j)

  head-IsFounded :
      (s : Store) (i : ℤ) (l m : List Abort) (a : Abort)
      → AreFounded s i l
      → l ≡ a ∷ m
      → IsFounded s i a
  head-IsFounded s i l m a h p = (rw p at h).0

  delivered :
      (p : Processor) (deliver : DeliverTxFunc) (t : DeliverTxTask) (s : Store)
      → IsDeliveryOf p deliver
      → IsPrepared t s
      → IsFaithful s (deliver t s).traced
        × ((deliver t s).traced.transaction_index ≡ t.absolute_index)
  delivered p deliver t s h g =
      let (p', x) = h.delivers t s g in
      by_tracer p t s g (deliver t s).traced (by_calls p t s g (deliver t s) p' x)

  -- The deliveries of a processor are ones that the scheduler can rely on: the tracer of a prepared
  -- task is the task's own, writes a map, and aborts only for the task itself or for a transaction
  -- that has a version of some key. They are what deliverTx returns, which does not panic.
  pub delivery-IsHonest :
      (p : Processor) (deliver : DeliverTxFunc) → IsDeliveryOf p deliver → IsHonest deliver
  delivery-IsHonest p deliver h = record {
    own_index = λ t s g. (delivered p deliver t s h g).1;
    writes = λ t s g. (delivered p deliver t s h g).0.writes;
    aborts = λ t s a l g q.
        let (f, i) = delivered p deliver t s h g in rw i at (head-IsFounded s _ _ l a f.founded q);
  }

  entries-AreEntries : (n : ℕ) (l : List e.Message) → AreEntries (entries_from n l)
  unfolding entries_from
  entries-AreEntries n [] = tt
  entries-AreEntries n (tx ∷ l) = ((n, refl), entries-AreEntries (suc n) l)

  size-entries_from : (n : ℕ) (l : List e.Message) → size (entries_from n l) ≡ size l
  unfolding entries_from
  size-entries_from n [] = refl
  size-entries_from n (tx ∷ l) = ap suc (size-entries_from (suc n) l)

  process_txs_returns :
      (p : Processor) (deliver : DeliverTxFunc) (sched : Schedule) (l : List e.Message)
      → IsDeliveryOf p deliver
      → IsOrder sched
      → (rs : List (Option Response)) × (p' : Processor) × (process_txs p deliver sched l
          ≡ some (rs, p'))
        × (size rs ≡ size l)
  unfolding process_txs
  process_txs_returns p deliver sched [] h o = ([], p, refl, refl)
  process_txs_returns p deliver sched (tx ∷ l) h o =
      let (rs, w, r, n, _, _) =
        process_all_returns deliver (delivery-IsHonest p deliver h) sched o
          (entries_from 0 (tx ∷ l)) p.own_state (entries-AreEntries 0 (tx ∷ l)) in
      (rs, record p { own_state = w.store.parent_store }, rw r, n ∙ size-entries_from 0 (tx ∷ l))

  -- What a delivery is for tasks that are not prepared.
  unfoldable no_delivery : Processor → DeliverTxTask → Option (Delivery × Processor) → Delivery
  no_delivery p t (some d) = d.0
  no_delivery p t none = record {
    traced = new_access_list_tracer t.tx t.absolute_index t.incarnation new_channel;
    left_state = p.own_state;
    gas_used = t.used_gas;
    result = none;
  }

  abbrev pub AllStartFirst : Processor → Type 0
  AllStartFirst p =
      (st : k.StateDb) (tx : e.Message) (gas : ℕ) → StartsFirst (applied p st tx gas).tracer_calls

  pub delivery_of :
      (p : Processor) → AllStartFirst p → (deliver : DeliverTxFunc) × IsDeliveryOf p deliver
  unfolding no_delivery
  delivery_of p first = (
    λ t s. no_delivery p t (deliver_tx p t s),
    record {
      delivers = λ t s g.
          let (d, p', x, _, _) =
            deliver_tx_returns p t s g (first s.parent_store t.tx t.used_gas) in
          (p', x ∙ ap (λ z. some (no_delivery p t z, p')) (sym x));
    },
  )

  -- If CaptureTxEnd is never called before CaptureStart, deliverTx does not panic for tasks that are
  -- prepared; and with its deliveries Execute returns, and does not panic, whatever the order in
  -- which the goroutines of a round take the tasks. It returns one response for each transaction.
  pub execute_returns :
      (p : Processor) (sched : Schedule)
      → AllStartFirst p
      → IsOrder sched
      → (deliver : DeliverTxFunc) × IsDeliveryOf p deliver
        × (rs : List (Option Response)) × (p' : Processor) × (execute p deliver sched
            ≡ some (rs, p'))
        × (size rs ≡ size p.txs)
  unfolding execute
  execute_returns p sched first o =
      let (deliver, h) = delivery_of p first in
      let (rs, p', x, n) = process_txs_returns p deliver sched p.txs h o in
      (deliver, h, rs, p', x, n)

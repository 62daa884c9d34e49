-- ===== src/Processor.antt =====
-- processor/processor.go: the delivery of one transaction, and the processing of a block. The
-- chain's configuration is part of the interface of the chain. `none` is a panic.
pub mod Deliveries
pub mod Values
pub mod InOrder
use go_pevm.Shared.{ℕ, suc, ℤ, pos, Bool, true, false, ◌≡◌, Option, none, some, List, [], ◌∷◌}
use go_pevm.External.Kaia.{Kaia}
use go_pevm.External.BTree.{BTree}
use go_pevm.External.Evm.{Evm}
use go_pevm.External.Chain.{Chain, Applied, Calls, not_started, started}
use go_pevm.Versions.{less}
use go_pevm.Store.{Store}
use go_pevm.Tracer.{AccessListTracer, ◌>>=◌, new_access_list_tracer}
use go_pevm.Tracer.Runs.{make_calls, run_transaction}
use go_pevm.Scheduler.{Response, DeliverTxEntry, DeliverTxTask}
use go_pevm.Scheduler.Rounds.{Delivery, DeliverTxFunc, World}
use go_pevm.Scheduler.Steps.{IsPrepared}
use go_pevm.Scheduler.Processing.{Schedule, process_all}

module _ ⦃k : Kaia⦄ ⦃e : Evm k⦄ ⦃b : BTree less⦄ ⦃c : Chain⦄ where
  -- `bc` and `workers` stand in the interface of the chain and in the schedule.
  pub record Processor : Type 0 where
    pub txs : List e.Message
    pub header : c.Header
    pub own_state : k.StateDb

  -- NewProcessor, where `none` is a nil argument; the result is `none` for ErrNilArgument.
  unfoldable pub new_processor :
      Option (List e.Message) → Bool → Option c.Header → k.StateDb → Option Processor
  new_processor (some txs) true (some header) st =
      some (record { txs = txs; header = header; own_state = st })
  new_processor _ _ _ st = none

  -- What the tracer goes through while the transaction is applied.
  unfoldable pub trace_calls : Calls → Store → AccessListTracer → Option AccessListTracer
  trace_calls (not_started cs) s t = make_calls cs s t
  trace_calls (started env from to create v cs) s t = run_transaction env from to create v cs s t

  abbrev pub left_unless_failed : c.Snapshot → k.StateDb → Option (e.Receipt × e.Trace) → k.StateDb
  left_unless_failed snap st none = c.revert_to_snapshot snap st
  left_unless_failed snap st (some r) = st

  abbrev pub response_of : Option (e.Receipt × e.Trace) → Option Response
  response_of none = none
  response_of (some r) = some (record { receipt = r.0; trace = r.1 })

  -- What ApplyTransaction does when deliverTx calls it.
  abbrev pub applied : Processor → k.StateDb → e.Message → ℕ → Applied
  applied p st tx gas = c.apply_transaction (c.author p.header) st p.header tx gas

  -- deliverTx; the context of logs is set on the processor's own state, not on the task's.
  unfoldable pub deliver_tx : Processor → DeliverTxTask → Store → Option (Delivery × Processor)
  unfolding trace_calls
  deliver_tx p t s = do
    st ← t.state
    tracer ← t.version_stores
    let snap = c.snapshot st
    let a = applied p st t.tx t.used_gas
    tracer' ← trace_calls a.tracer_calls s tracer
    some (
      record {
        traced = tracer';
        left_state = left_unless_failed snap a.left a.outcome;
        gas_used = a.gas;
        result = response_of a.outcome;
      },
      record p {
        own_state =
            c.set_tx_context (c.tx_hash t.tx) (c.header_hash p.header) t.absolute_index p.own_state;
      },
    )

  -- `deliver` is `p.deliverTx` as the scheduler calls it: for a task that the scheduler has prepared,
  -- deliverTx does not panic, and returns what `deliver` does. The context of logs is not passed on,
  -- since nothing that the scheduler does looks at it.
  pub record IsDeliveryOf (p : Processor) (deliver : DeliverTxFunc) : Type 0 where
    pub delivers :
        (t : DeliverTxTask) (s : Store)
        → IsPrepared t s
        → (p' : Processor) × (deliver_tx p t s ≡ some (deliver t s, p'))

  -- The entries of Execute, counted from `n`.
  unfoldable pub entries_from : ℕ → List e.Message → List DeliverTxEntry
  entries_from n [] = []
  entries_from n (tx ∷ l) = record { entry_tx = tx; entry_index = pos n } ∷ entries_from (suc n) l

  -- The body of Execute, on the transactions of the processor, where `deliver` stands for
  -- p.deliverTx: the responses, and the processor with
  -- its state as ProcessAll leaves it.
  unfoldable pub process_txs :
      Processor
      → DeliverTxFunc
      → Schedule
      → List e.Message
      → Option (List (Option Response) × Processor)
  unfolding process_all
  process_txs p deliver sched [] = some ([], p)
  process_txs p deliver sched (tx ∷ l) = do
    r ← process_all deliver sched (entries_from 0 (tx ∷ l)) p.own_state
    some (r.0, record p { own_state = r.1.store.parent_store })

  unfoldable pub execute :
      Processor → DeliverTxFunc → Schedule → Option (List (Option Response) × Processor)
  unfolding process_txs
  execute p deliver sched = process_txs p deliver sched p.txs

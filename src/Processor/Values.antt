-- ===== src/Processor/Values.antt =====
-- processor/processor.go: the keys that the deliveries of a processor read and write.
use go_pevm.Shared.{ℕ, ℤ, ◌≡◌, some}
use go_pevm.External.Kaia.{Kaia}
use go_pevm.External.BTree.{BTree}
use go_pevm.External.Evm.{Evm}
use go_pevm.External.Chain.{Chain, Calls, not_started, started}
use go_pevm.Versions.{less}
use go_pevm.Keys.RoundTrip.{HasTexts}
use go_pevm.Store.{Store}
use go_pevm.Tracer.{AccessListTracer, new_access_list_tracer}
use go_pevm.Tracer.Runs.{new_channel}
use go_pevm.Tracer.Uses.{HasOwnKeys, ArePlainCalls, HasValueKeys}
use go_pevm.Tracer.Uses.Runs.{
  new-HasValueKeys, make_calls-LeavesValueKeys, run_transaction-HasValueKeys,
}
use go_pevm.Scheduler.{DeliverTxTask}
use go_pevm.Scheduler.Rounds.{DeliverTxFunc}
use go_pevm.Scheduler.Steps.{IsPrepared}
use go_pevm.Scheduler.Serial.{UsesValues}
use go_pevm.Processor.{Processor, applied, trace_calls, IsDeliveryOf}
use go_pevm.Processor.Deliveries.{by_calls}

module _ ⦃k : Kaia⦄ ⦃e : Evm k⦄ ⦃b : BTree less⦄ ⦃c : Chain⦄ where
  abbrev LookAtNoCode : Calls → Type 0
  LookAtNoCode (not_started cs) = ArePlainCalls cs
  LookAtNoCode (started env from to create v cs) = ArePlainCalls cs

  -- Whatever the processor applies looks at no code of an account: no EXTCODECOPY, EXTCODEHASH or
  -- EXTCODESIZE, and no load of a slot that stands for code.
  pub record ReadsNoCode (p : Processor) : Type 0 where
    pub plain :
        (st : k.StateDb) (tx : e.Message) (gas : ℕ)
        → LookAtNoCode (applied p st tx gas).tracer_calls

  module _ (texts : HasTexts k) (own : HasOwnKeys) where
    trace_calls-HasValueKeys :
        (cs : Calls) (m : e.Message) (i : ℤ) (n : ℕ) (s : Store) (t : AccessListTracer)
        → LookAtNoCode cs
        → trace_calls cs s (new_access_list_tracer m i n new_channel) ≡ some t
        → HasValueKeys t
    unfolding trace_calls
    trace_calls-HasValueKeys (not_started cs) m i n s t h x =
        make_calls-LeavesValueKeys texts own cs s _ h (new-HasValueKeys m i n) t x
    trace_calls-HasValueKeys (started env from to create v cs) m i n s t h x =
        run_transaction-HasValueKeys texts own m i n env from to create v cs s t h x

    -- The deliveries of a processor read keys of balances, nonces and slots only, and write keys that
    -- ToStorageKey makes, if no transaction looks at the code of an account, the texts of addresses
    -- and hashes can be read back, and the constants for balances and nonces are none of those for
    -- code. They are what deliverTx returns, which does not panic.
    pub delivery-UsesValues :
        (p : Processor) (deliver : DeliverTxFunc)
        → IsDeliveryOf p deliver
        → ReadsNoCode p
        → UsesValues deliver
    delivery-UsesValues p deliver d h = record {
      reads = λ t s q vs g x. (keys t s g).reads q vs x;
      writes = λ t s q v g x. (keys t s g).writes q v x;
    }
      where
        keys : (t : DeliverTxTask) (s : Store) → IsPrepared t s → HasValueKeys (deliver t s).traced
        keys t s g =
            let (p', x) = d.delivers t s g in
            trace_calls-HasValueKeys _ t.tx t.absolute_index t.incarnation s _
              (h.plain s.parent_store t.tx t.used_gas) (by_calls p t s g (deliver t s) p' x)

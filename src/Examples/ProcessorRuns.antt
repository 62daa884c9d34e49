-- ===== src/Examples/ProcessorRuns.antt =====
-- The theorems on the processor at concrete inputs.
use go_pevm.Shared.{
  none, ℕ, arith, ℤ, lt_int, get, put, Bool-cases, inl, inr, sym, ap, ◌∙◌, ◌≡◌, refl, pos, false,
  Option, some, List, [], ◌∷◌, ℤ_eq, bytes_eq,
}
use mathlib.Core.Path.{subst}
use go_pevm.External.Evm.{Env, Scope, Call, op_executed, tx_ended, sload, sstore}
use go_pevm.External.Chain.{not_started, Chain, Applied, started}
use go_pevm.Store.{WriteSet, new_multi_version_store}
use go_pevm.Tracer.Views.{IsFaithful}
use go_pevm.Scheduler.{DeliverTxTask, Response, to_task}
use go_pevm.Scheduler.Rounds.{Delivery, DeliverTxFunc, prepare_task}
use go_pevm.Scheduler.Steps.{IsPrepared, IsHonest}
use go_pevm.Scheduler.Positions.{size}
use go_pevm.Scheduler.Results.{IsOrder}
use go_pevm.Processor.{Processor, IsDeliveryOf, trace_calls, deliver_tx, execute}
use go_pevm.Processor.Deliveries.{
  AllStartFirst, by_calls, by_tracer, delivery_of, deliver_tx_returns, deliver_tx_panics,
  delivery-IsHonest, execute_returns,
}
use go_pevm.Keys.{StorageKey, to_storage_key, balance_key, nonce_key, get_value}
use go_pevm.Keys.RoundTrip.{address-slot-to_storage_key}
use go_pevm.Store.Flush.Accounts.{IsHeld}
use go_pevm.Tracer.Uses.{IsNoCode, put-found}
use go_pevm.Tracer.Reference.{View, paid, nonce_counted, calls_written, transaction_written}
use go_pevm.Tracer.Reference.Runs.{run_transaction_written}
use go_pevm.Scheduler.Serial.{UsesValues, WritesHeld}
use go_pevm.Processor.Values.{ReadsNoCode, delivery-UsesValues}
use go_pevm.Processor.InOrder.{IsSerialBlock, execute_serial}
use go_pevm.Examples.SequentialRuns.{slot_three, own_keys}
use go_pevm.Examples.SerialRuns.{in_order-IsShuffle}
use go_pevm.Examples.SchedulerRuns.{in_order}
use go_pevm.Examples.Trees.{list_tree}
use go_pevm.Examples.Packages.{
  small, small_evm, small_texts, small_views, cells, cells-IsSound, Cells,
}

abbrev frame : List ℕ → Scope
frame l = record { stack = l; contract_address = 8; caller_address = 7; contract_value = pos 0 }

abbrev environment : Cells → Env
environment st = record { gas_price = pos 2; state_db = st }

abbrev calls : ℕ → List Call
calls tx =
    op_executed sload (frame (3 ∷ [])) ∷ op_executed sstore (frame (3 ∷ tx ∷ [])) ∷ tx_ended 1 ∷ []

-- Every transaction calls account 8, which loads slot 3 and stores the number of the transaction.
abbrev applied : Cells → ℕ → Applied
applied st tx = record {
  tracer_calls = started (environment st) 7 8 false (pos 30) (calls tx);
  left = st;
  gas = 21000;
  outcome = some (tx, 0);
}

instance abbrev chain : Chain
chain = record {
  Header = ℕ;
  Snapshot = ℕ;
  author = λ h. h;
  header_hash = λ h. h;
  tx_hash = λ tx. tx;
  snapshot = λ st. 0;
  revert_to_snapshot = λ n st. st;
  set_tx_context = λ h g i st. st;
  apply_transaction = λ a st h tx n. applied st tx;
}

abbrev processor : Processor
processor = record { txs = 7 ∷ 9 ∷ []; header = 1; own_state = cells }

abbrev task : DeliverTxTask
task = record (prepare_task (to_task (record { entry_tx = 7; entry_index = pos 0 }))) {
  state = some cells;
}

task-IsPrepared : IsPrepared task (new_multi_version_store cells)
unfolding prepare_task to_task new_multi_version_store
task-IsPrepared = record { tracer = refl; position = (0, refl); copied = refl }

all_start_first : AllStartFirst processor
all_start_first = λ st tx gas. tt

deliver_tx_returns_example :
    (d : Delivery) × (p : Processor) × (deliver_tx processor task (new_multi_version_store cells)
      ≡ some (d, p))
    × IsFaithful (new_multi_version_store cells) d.traced
    × (d.traced.transaction_index ≡ task.absolute_index)
deliver_tx_returns_example =
    deliver_tx_returns processor task (new_multi_version_store cells) task-IsPrepared tt

-- A chain that ends a transaction that it has not started.
abbrev ending_chain : Chain
ending_chain = record chain {
  apply_transaction =
      λ a st h tx n. record (applied st tx) { tracer_calls = not_started (tx_ended 1 ∷ []) };
}

deliver_tx_panics_example :
    deliver_tx ⦃c = ending_chain⦄
      (record { txs = 7 ∷ []; header = 1; own_state = cells })
      task
      (new_multi_version_store cells)
    ≡ none
deliver_tx_panics_example =
    deliver_tx_panics ⦃c = ending_chain⦄ (record { txs = 7 ∷ []; header = 1; own_state = cells })
      task (new_multi_version_store cells) task-IsPrepared (λ n. n)

deliver : DeliverTxFunc
deliver = (delivery_of processor all_start_first).0

deliver-IsDeliveryOf : IsDeliveryOf processor deliver
unfolding deliver
deliver-IsDeliveryOf = (delivery_of processor all_start_first).1

delivery-IsHonest_example : IsHonest deliver
delivery-IsHonest_example = delivery-IsHonest processor deliver deliver-IsDeliveryOf

in_order-IsOrder : IsOrder in_order
in_order-IsOrder = record { executes = λ n m l h. h; validates = λ n m l h. h }

execute_returns_example :
    (f : DeliverTxFunc) × IsDeliveryOf processor f
    × (rs : List (Option Response)) × (p : Processor) × (execute processor f in_order
        ≡ some (rs, p))
    × (size rs ≡ 2)
execute_returns_example = execute_returns processor in_order all_start_first in_order-IsOrder

slot_three-IsNoCode : IsNoCode 3
slot_three-IsNoCode =
    let h = slot_three in record { no_copy = h.no_copy; no_hash = h.no_hash; no_size = h.no_size }

processor-ReadsNoCode : ReadsNoCode processor
processor-ReadsNoCode = record { plain = λ st tx gas. (slot_three-IsNoCode, (tt, (tt, tt))) }

delivery-UsesValues_example : UsesValues deliver
delivery-UsesValues_example =
    delivery-UsesValues small_texts own_keys processor deliver deliver-IsDeliveryOf
      processor-ReadsNoCode

-- What the calls write is written to balances, nonces, or slots of account 8, which has code.
AreHeld : WriteSet → Type 0
AreHeld ws = (q : StorageKey) (v : ℕ) → get q ws ≡ some v → IsHeld cells q

put-AreHeld :
    (key : StorageKey) (v : ℕ) (ws : WriteSet)
    → IsHeld cells key
    → AreHeld ws
    → AreHeld (put key v ws)
unfolding AreHeld
put-AreHeld key v ws h g q x e = elim (put-found key q v x ws e) [
  | inl d ↦ subst (IsHeld cells) d h
  | inr f ↦ g q x f
]

balance-IsHeld : (a : ℕ) → IsHeld cells (to_storage_key a balance_key)
balance-IsHeld a = inl (address-slot-to_storage_key small_texts a balance_key).1

nonce-IsHeld : (a : ℕ) → IsHeld cells (to_storage_key a nonce_key)
nonce-IsHeld a = inr (inl (address-slot-to_storage_key small_texts a nonce_key).1)

slot-IsHeld : IsHeld cells (to_storage_key 8 3)
slot-IsHeld =
    let there = (address-slot-to_storage_key small_texts 8 3).0 in
    inr (inr (λ h. ground (arith, h, there)))

paid-AreHeld : (f : View) (a : ℕ) (v : ℤ) (ws : WriteSet) → AreHeld ws → AreHeld (paid f a v ws)
paid-AreHeld f a v ws = put-AreHeld (to_storage_key a balance_key) _ ws (balance-IsHeld a)

counted-AreHeld :
    (f : View) (tx : ℕ) (st : Cells) (ws : WriteSet)
    → AreHeld ws
    → AreHeld (nonce_counted f tx (environment st) false ws)
counted-AreHeld f tx st ws h = elim (Bool-cases (lt_int (pos 0) (st.codes tx))) [
  | inl g ↦ rw g h
  | inr g ↦ rw g (put-AreHeld (to_storage_key tx nonce_key) _ ws (nonce-IsHeld tx) h)
]

none-AreHeld : AreHeld []
unfolding AreHeld get
none-AreHeld q v e = cc

transaction-AreHeld :
    (f : View) (tx : ℕ) (st : Cells)
    → AreHeld (transaction_written f tx (environment st) 7 8 false (pos 30) (calls tx))
unfolding transaction_written calls_written
transaction-AreHeld f tx st = paid-AreHeld f tx _ _ (
    put-AreHeld (to_storage_key 8 3) _ _ slot-IsHeld (
      paid-AreHeld f 8 _ _
        (paid-AreHeld f 7 _ _ (counted-AreHeld f tx st _ (paid-AreHeld f tx _ [] none-AreHeld)))))

deliver-WritesHeld : WritesHeld cells deliver
unfolding trace_calls AreHeld
deliver-WritesHeld = record {
  held = λ t s q v g x.
      let (p', y) = deliver-IsDeliveryOf.delivers t s g in
      let z = by_calls processor t s g (deliver t s) p' y in
      let faithful = (by_tracer processor t s g (deliver t s).traced z).0 in
      let written =
        run_transaction_written (λ r. get_value r s.parent_store) t.tx t.absolute_index
          t.incarnation (environment s.parent_store) 7 8 false (pos 30) (calls t.tx) s
          (deliver t s).traced z faithful.single in
      transaction-AreHeld (λ r. get_value r s.parent_store) t.tx s.parent_store q v
        (ap (get q) (sym written) ∙ x);
}

execute_serial_example :
    (rs : List (Option Response)) × (p : Processor) × (execute processor deliver in_order
      ≡ some (rs, p))
    × IsSerialBlock processor deliver in_order rs p
execute_serial_example =
    execute_serial small_texts small_views own_keys processor deliver deliver-IsDeliveryOf
      processor-ReadsNoCode cells-IsSound deliver-WritesHeld in_order in_order-IsShuffle

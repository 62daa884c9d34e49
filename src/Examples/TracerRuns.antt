-- ===== src/Examples/TracerRuns.antt =====
-- The theorems on the tracer at concrete inputs.
use go_pevm.Shared.{
  ◌⊎◌, ℕ, ◌+◌, ◌-◌, ◌≤◌, Bytes, int64_of_uint64, ◌≡◌, ◌≢◌, refl, pos, false, none, some, List, [],
  ◌∷◌, arith, ℕ_discrete, ℤ_eq, bytes_eq, get, set_bytes_from, set_bytes, ◌+ℤ◌, ◌-ℤ◌,
}
use go_pevm.External.Evm.{Call, op_executed, tx_ended, Env, Scope, OpCode, sload, sstore}
use go_pevm.Keys
use go_pevm.Keys.{
  StorageKey, to_storage_key, address, slot, split, balance_key, get_value, value_in,
}
use go_pevm.Store
use go_pevm.Store.{Store, new_multi_version_store}
use go_pevm.Tracer.{
  AccessListTracer, AbortChannel, new_access_list_tracer, get_key, hash_to_big, validate_readset,
}
use go_pevm.Tracer.Callbacks.{capture_call, capture_state, get_data, byte_count, take, skip}
use go_pevm.Tracer.Views.{IsFaithful, SameRun, seen, get_key_lem}
use go_pevm.Tracer.Runs.{run_transaction, new-IsFaithful, run_transaction-IsFaithful}
use go_pevm.Tracer.Reference.{transaction_written}
use go_pevm.Tracer.Reference.Runs.{run_transaction_written}
use go_pevm.Tracer.Transfers.{balance_of, capture_call_transfers, sstore_overwrites_balance}
use go_pevm.Tracer.Validation.{validate_readset_panics}
use go_pevm.Tracer.Data.{get_data_in_range}
use go_pevm.Examples.Trees.{list_tree}
use go_pevm.Examples.Packages.{small, small_evm, small_texts, small_cells, small_amounts, cells}
use go_pevm.Examples.StoreRuns.{empty}

abbrev channel : AbortChannel
channel = record { buffered = []; capacity = 1 }

abbrev tracer : AccessListTracer
tracer = new_access_list_tracer 7 (pos 1) 0 channel

tracer-IsFaithful : IsFaithful empty tracer
tracer-IsFaithful = new-IsFaithful 7 1 0 empty

-- A frame that account 7 has called with the value 30.
abbrev frame : List ℕ → Scope
frame l = record { stack = l; contract_address = 8; caller_address = 7; contract_value = pos 30 }

abbrev env : Env
env = record { gas_price = pos 2; state_db = cells }

abbrev calls : List Call
calls =
    op_executed sload (frame (3 ∷ [])) ∷ op_executed sstore (frame (3 ∷ 5 ∷ [])) ∷ tx_ended 1 ∷ []

run_transaction-IsFaithful_example :
    (t : AccessListTracer) × (run_transaction env 7 8 false (pos 30) calls empty tracer ≡ some t)
    × IsFaithful empty t
    × (t.transaction_index ≡ pos 1)
    × (t.incarnation ≡ 0)
run_transaction-IsFaithful_example =
    run_transaction-IsFaithful 7 1 0 env 7 8 false (pos 30) calls empty

run_transaction_written_example :
    (t : AccessListTracer) × (run_transaction env 7 8 false (pos 30) calls empty tracer ≡ some t)
    × (t.writeset
        ≡ transaction_written (λ q. get_value q empty.parent_store) 7 env 7 8 false (pos 30) calls)
run_transaction_written_example =
    let (t, x, h, _, _) = run_transaction-IsFaithful 7 1 0 env 7 8 false (pos 30) calls empty in
    (
      t,
      x,
      run_transaction_written (λ q. get_value q empty.parent_store) 7 (pos 1) 0 env 7 8 false
          (pos 30) calls empty t x h.single,
    )

get_key_lem_example :
    (t : AccessListTracer) × (get_key (to_storage_key 7 3) empty tracer
      ≡ some (seen (to_storage_key 7 3) empty tracer, t))
    × IsFaithful empty t
    × (t.writeset ≡ tracer.writeset)
    × SameRun tracer t
get_key_lem_example = get_key_lem (to_storage_key 7 3) empty tracer tracer-IsFaithful

-- What the balances of a run compute with.
opened : Unit {0}
unfolding hash_to_big new_access_list_tracer get get_value value_in address slot to_storage_key
    new_multi_version_store ℕ_discrete ◌-ℤ◌ set_bytes
opened = tt

capture_call_transfers_example :
    (t : AccessListTracer) × (capture_call 8 (frame (8 ∷ [])) empty tracer ≡ some t)
    × (balance_of 7 empty t ≡ pos 70)
    × (balance_of 8 empty t ≡ pos 35)
    × (pos 70 +ℤ pos 35 ≡ balance_of 7 empty tracer +ℤ balance_of 8 empty tracer)
    × ((q : StorageKey)
        → q ≢ to_storage_key 7 balance_key
        → q ≢ to_storage_key 8 balance_key
        → seen q empty t ≡ seen q empty tracer)
unfolding opened
capture_call_transfers_example =
    capture_call_transfers small_texts small_amounts 8 (frame (8 ∷ [])) empty tracer 70 35
      tracer-IsFaithful refl (λ p. omega arith) refl refl (omega arith) (omega arith)

sstore_overwrites_balance_example :
    (t : AccessListTracer) × (capture_state OpCode.sstore
        (frame (balance_key ∷ 1000 ∷ []))
        empty
        tracer
      ≡ some t)
    × (balance_of 8 empty t ≡ hash_to_big (set_bytes_from 0 (1000 ∷ [])))
    × ((Keys.set_value (to_storage_key 8 balance_key) (set_bytes_from 0 (1000 ∷ [])) cells).balances
          8
        ≡ hash_to_big (set_bytes_from 0 (1000 ∷ [])))
sstore_overwrites_balance_example =
    sstore_overwrites_balance small_texts small_cells balance_key 1000 []
      (frame (balance_key ∷ 1000 ∷ [])) empty tracer cells refl refl

abbrev balance_slot : StorageKey
balance_slot = to_storage_key 7 balance_key

validate_readset_panics_example :
    (t : AccessListTracer) × (get_key balance_slot empty tracer
      ≡ some (get_value balance_slot empty.parent_store, t))
    × (validate_readset empty t ≡ none)
unfolding opened Store.get_latest_before_index
validate_readset_panics_example =
    validate_readset_panics balance_slot empty tracer refl refl refl (λ p. omega arith)

abbrev bytes : Bytes
bytes = 1 ∷ 2 ∷ 3 ∷ []

get_data_in_range_example :
    (end : ℕ) × (get_data bytes 1 5
      ≡ some (small_evm.right_pad_bytes (take (end - 1) (skip 1 bytes)) (int64_of_uint64 5)))
    × (end ≤ 1 + 5)
    × (end ≤ byte_count bytes)
    × ((end ≡ 1 + 5) ⊎ (end ≡ byte_count bytes))
get_data_in_range_example = get_data_in_range bytes 1 5 (omega arith) (omega arith)

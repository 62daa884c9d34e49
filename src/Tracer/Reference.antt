-- ===== src/Tracer/Reference.antt =====
-- multiversion/tracer.go: what a transaction writes, as a function of the values of keys and of the
-- calls of its tracer, as the reference for the tracer. The children relate a run to it.
pub mod Steps
pub mod Runs
use go_pevm.Shared.{
  ℕ, ℤ, pos, Bool, true, false, not, ◌&&◌, Option, none, some, List, [], ◌∷◌, is, get, put, lt_int,
  bytes_eq, if◌then◌else◌, ◌+ℤ◌, ◌-ℤ◌, ◌*ℤ◌, neg_int,
}
use go_pevm.External.Kaia.{Kaia}
use go_pevm.External.Evm.{
  Evm, Env, Scope, OpCode, sload, sstore, extcodecopy, extcodehash, extcodesize, balance, call,
  callcode, selfdestruct, Call, op_executed, tx_ended,
}
use go_pevm.Keys.{StorageKey, to_storage_key, balance_key, nonce_key}
use go_pevm.Store.{WriteSet}
use go_pevm.Tracer.{hash_to_big}

module _ ⦃k : Kaia⦄ where
  -- A value for every key.
  abbrev pub View : Type 0
  View = StorageKey → k.Hash

  unfoldable pub updated : WriteSet → View → View
  updated ws f q = elim (get q ws) [ none ↦ f q | some v ↦ v ]

module _ ⦃k : Kaia⦄ ⦃e : Evm k⦄ (f : View) where
  open k use {Address, Hash}
  open e use {Word, Message}

  -- A key gets a value that is computed from the one it has.
  abbrev pub changed : StorageKey → (Hash → Hash) → WriteSet → WriteSet
  changed q g ws = put q (g (updated ws f q)) ws

  abbrev pub paid : Address → ℤ → WriteSet → WriteSet
  paid a v ws = changed (to_storage_key a balance_key) (λ h. k.big_to_hash (hash_to_big h -ℤ v)) ws

  abbrev pub counted : Address → WriteSet → WriteSet
  counted a ws =
      changed (to_storage_key a nonce_key) (λ h. k.big_to_hash (hash_to_big h +ℤ pos 1)) ws

  -- The fee, whole or in the parts of the fee payer and the sender.
  abbrev pub charged : Message → ℤ → WriteSet → WriteSet
  charged m price ws =
      let fee = pos (e.gas m) *ℤ price in
      if (e.fee_ratio m).1
      then paid (e.validated_sender m) (e.calc_fee_with_ratio (e.fee_ratio m).0 fee).1
          (paid (e.validated_fee_payer m) (e.calc_fee_with_ratio (e.fee_ratio m).0 fee).0 ws)
      else paid (e.validated_fee_payer m) fee ws

  abbrev pub nonce_counted : Message → Env → Bool → WriteSet → WriteSet
  nonce_counted m env create ws =
      if lt_int (pos 0) (k.get_code_size env.state_db (e.validated_sender m))
      then (if create then counted (e.validated_sender m) ws else ws)
      else counted (e.validated_sender m) ws

  abbrev pub moved : Address → Address → ℤ → WriteSet → WriteSet
  moved from to v ws = paid to (neg_int v) (paid from v ws)

  abbrev pub started : Message → Env → Address → Address → Bool → ℤ → WriteSet → WriteSet
  started m env from to create v ws =
      moved from to v (nonce_counted m env create (charged m env.gas_price ws))

  abbrev pub called : Word → Scope → WriteSet → WriteSet
  called w scope ws =
      if lt_int (pos 0) scope.contract_value
        && not (is (k.address_discrete scope.caller_address (e.bytes20 w)))
      then moved scope.caller_address (e.bytes20 w) scope.contract_value ws
      else ws

  abbrev pub operated : OpCode → List Word → Scope → WriteSet → WriteSet
  operated sstore (w ∷ v ∷ l) scope ws =
      put (to_storage_key scope.contract_address (e.bytes32 w)) (k.bytes_to_hash (e.word_bytes v))
        ws
  operated call (w ∷ l) scope ws = called w scope ws
  operated callcode (w ∷ l) scope ws = called w scope ws
  operated _ l scope ws = ws

  abbrev pub refunded : Message → ℤ → WriteSet → WriteSet
  refunded m amount ws =
      if (e.fee_ratio m).1
      then paid (e.validated_sender m) (neg_int (e.calc_fee_with_ratio (e.fee_ratio m).0 amount).1)
          (paid (e.validated_fee_payer m)
            (neg_int (e.calc_fee_with_ratio (e.fee_ratio m).0 amount).0) ws)
      else paid (e.validated_fee_payer m) (neg_int amount) ws

  unfoldable pub calls_written : Message → ℤ → List Call → WriteSet → WriteSet
  calls_written m price [] ws = ws
  calls_written m price (op_executed op scope ∷ cs) ws =
      calls_written m price cs (operated op scope.stack scope ws)
  calls_written m price (tx_ended rest ∷ cs) ws =
      calls_written m price cs (refunded m (pos rest *ℤ price) ws)

  -- All that a transaction writes.
  unfoldable pub transaction_written :
      Message → Env → Address → Address → Bool → ℤ → List Call → WriteSet
  unfolding calls_written
  transaction_written m env from to create v cs =
      calls_written m env.gas_price cs (started m env from to create v [])

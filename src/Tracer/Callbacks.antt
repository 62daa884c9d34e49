-- ===== src/Tracer/Callbacks.antt =====
-- multiversion/tracer.go: the callbacks of the EVM that record accesses, and getData. The others
-- (CaptureFault, CaptureEnd, CaptureEnter, CaptureExit, CaptureTxStart) do nothing.
use go_pevm.Shared.{
  ℕ, ◌+◌, ◌^◌, ◌%◌, ◌-◌, zero, suc, ℤ, pos, Bool, not, ◌&&◌, Option, none, some, List, [], ◌∷◌, is,
  ltb, lt_int, Bytes, if◌then◌else◌, ◌*ℤ◌, neg_int, int64_of_uint64,
}
use go_pevm.External.Kaia.{Kaia}
use go_pevm.External.BTree.{BTree}
use go_pevm.External.Evm.{
  Evm, Env, Scope, OpCode, sload, sstore, extcodecopy, extcodehash, extcodesize, balance, call,
  callcode, selfdestruct,
}
use go_pevm.Versions.{less}
use go_pevm.Keys.{to_storage_key, code_copy_key, code_hash_key, code_size_key, balance_key}
use go_pevm.Store.{Store}
use go_pevm.Tracer.{
  AccessListTracer, AbortError, ◌>>=◌, set, write_abort, get_key, update_and_set_balance,
  update_and_set_nonce,
}

module _ ⦃k : Kaia⦄ ⦃e : Evm k⦄ ⦃b : BTree less⦄ where
  open k use {Address, Hash}
  open e use {Word, FeeRatio}

  unfoldable pub handle_ratio_transaction :
      Address → Address → FeeRatio → ℤ → Store → AccessListTracer → Option AccessListTracer
  handle_ratio_transaction fee_payer sender ratio fee s t = do
    let (payer_part, sender_part) = e.calc_fee_with_ratio ratio fee
    t' ← update_and_set_balance fee_payer payer_part s t
    update_and_set_balance sender sender_part s t'

  unfoldable pub handle_regular_transaction :
      Address → ℤ → Store → AccessListTracer → Option AccessListTracer
  handle_regular_transaction fee_payer fee s t = update_and_set_balance fee_payer fee s t

  abbrev pub price_or : Option ℤ → ℤ → ℤ
  price_or none p = p
  price_or (some q) p = q

  unfoldable pub charge_gas : ℤ → Store → AccessListTracer → Option AccessListTracer
  unfolding handle_ratio_transaction handle_regular_transaction
  charge_gas price s t =
      let payer = e.validated_fee_payer t.msg in
      let (ratio, has_ratio) = e.fee_ratio t.msg in
      let fee = pos (e.gas t.msg) *ℤ price in
      if has_ratio
      then handle_ratio_transaction payer (e.validated_sender t.msg) ratio fee s t
      else handle_regular_transaction payer fee s t

  -- The sender's nonce counts up here, unless a contract sends a call.
  unfoldable pub count_nonce : Env → Bool → Store → AccessListTracer → Option AccessListTracer
  count_nonce env create s t =
      let sender = e.validated_sender t.msg in
      if lt_int (pos 0) (k.get_code_size env.state_db sender)
      then (if create then update_and_set_nonce sender s t else some t)
      else update_and_set_nonce sender s t

  unfoldable pub capture_start :
      Env → Address → Address → Bool → ℤ → Store → AccessListTracer → Option AccessListTracer
  unfolding charge_gas count_nonce
  capture_start env from to create value s t = do
    let price = price_or t.gas_price env.gas_price
    t1 ← charge_gas price s (record t { gas_price = some price })
    t2 ← count_nonce env create s t1
    t3 ← update_and_set_balance from value s t2
    update_and_set_balance to (neg_int value) s t3

  abbrev pub read_only : Option (Hash × AccessListTracer) → Option AccessListTracer
  read_only none = none
  read_only (some (v, t)) = some t

  -- A read of a slot of the account on top of the stack.
  unfoldable pub read_account : Word → Hash → Store → AccessListTracer → Option AccessListTracer
  read_account w slot s t = read_only (get_key (to_storage_key (e.bytes20 w) slot) s t)

  unfoldable pub capture_call : Word → Scope → Store → AccessListTracer → Option AccessListTracer
  capture_call w scope s t =
      let from = scope.caller_address in
      let to = e.bytes20 w in
      let value = scope.contract_value in
      if lt_int (pos 0) value && not (is (k.address_discrete from to))
      then (do
        t' ← update_and_set_balance from value s t
        update_and_set_balance to (neg_int value) s t')
      else some t

  -- The switch of CaptureState, on the opcode and the stack from its top; the last clause is for a
  -- stack that is too short.
  unfoldable pub capture_op :
      OpCode → List Word → Scope → Store → AccessListTracer → Option AccessListTracer
  unfolding read_account capture_call
  capture_op sload (w ∷ l) scope s t =
      read_only (get_key (to_storage_key scope.contract_address (e.bytes32 w)) s t)
  capture_op sstore (w ∷ v ∷ l) scope s t = some (
      set (to_storage_key scope.contract_address (e.bytes32 w)) (k.bytes_to_hash (e.word_bytes v))
        t)
  capture_op extcodecopy (w ∷ l) scope s t = read_account w code_copy_key s t
  capture_op extcodehash (w ∷ l) scope s t = read_account w code_hash_key s t
  capture_op extcodesize (w ∷ l) scope s t = read_account w code_size_key s t
  capture_op balance (w ∷ l) scope s t = read_account w balance_key s t
  capture_op call (w ∷ l) scope s t = capture_call w scope s t
  capture_op callcode (w ∷ l) scope s t = capture_call w scope s t
  capture_op selfdestruct l scope s t = some (
      write_abort
        (record {
          dependent_tx_idx = t.transaction_index;
          err = AbortError.need_sequential_execution;
        })
        t)
  capture_op _ l scope s t = some t

  unfoldable pub capture_state : OpCode → Scope → Store → AccessListTracer → Option AccessListTracer
  unfolding capture_op
  capture_state op scope s t = capture_op op scope.stack scope s t

  -- The refund; a nil gas price is a nil pointer.
  unfoldable pub refund_gas : ℤ → Store → AccessListTracer → Option AccessListTracer
  refund_gas remaining s t =
      let payer = e.validated_fee_payer t.msg in
      let (ratio, has_ratio) = e.fee_ratio t.msg in
      let (payer_part, sender_part) = e.calc_fee_with_ratio ratio remaining in
      if has_ratio
      then (do
        t' ← update_and_set_balance payer (neg_int payer_part) s t
        update_and_set_balance (e.validated_sender t.msg) (neg_int sender_part) s t')
      else update_and_set_balance payer (neg_int remaining) s t

  unfoldable pub capture_tx_end : ℕ → Store → AccessListTracer → Option AccessListTracer
  unfolding refund_gas
  capture_tx_end rest s t = do price ← t.gas_price; refund_gas (pos rest *ℤ price) s t

abbrev pub byte_count : Bytes → ℕ
byte_count [] = 0
byte_count (x ∷ l) = suc (byte_count l)

abbrev pub skip : ℕ → Bytes → Bytes
skip zero l = l
skip (suc n) [] = []
skip (suc n) (x ∷ l) = skip n l

abbrev pub take : ℕ → Bytes → Bytes
take zero l = []
take (suc n) [] = []
take (suc n) (x ∷ l) = x ∷ take n l

-- data[start:end], which panics unless start ≤ end ≤ len(data)
abbrev pub slice : Bytes → ℕ → ℕ → Option Bytes
slice l start end =
    if ltb end start
    then none
    else if ltb (byte_count l) end
    then none
    else some (take (end - start) (skip start l))

module _ ⦃k : Kaia⦄ ⦃e : Evm k⦄ where
  -- getData; `start` and `size` are uint64, and their sum wraps.
  unfoldable pub get_data : Bytes → ℕ → ℕ → Option Bytes
  get_data bytes start size =
      let start' = if ltb (byte_count bytes) start then byte_count bytes else start in
      let end = (start' + size) % 2 ^ 64 in
      let end' = if ltb (byte_count bytes) end then byte_count bytes else end in
      do piece ← slice bytes start' end'; some (e.right_pad_bytes piece (int64_of_uint64 size))

-- ===== src/Tracer/Runs.antt =====
-- Whole runs of the callbacks of multiversion/tracer.go over one transaction.
use go_pevm.Shared.{
  inl, refl, get, ℕ, ℤ, pos, ◌≡◌, sym, ◌∙◌, Bool, true, false, Option, some, List, [], ◌∷◌,
  if◌then◌else◌, ◌*ℤ◌, neg_int,
}
use mathlib.Core.Path.{subst}
use go_pevm.External.Kaia.{Kaia}
use go_pevm.External.BTree.{BTree}
use go_pevm.External.Evm.{
  Evm, Env, Scope, OpCode, sload, sstore, extcodecopy, extcodehash, extcodesize, balance, call,
  callcode, selfdestruct, Call, op_executed, tx_ended,
}
use go_pevm.Versions.{less}
use go_pevm.Keys.{StorageKey}
use go_pevm.Store.{Store}
use go_pevm.Tracer.{
  AccessListTracer, AbortChannel, ◌>>=◌, new_access_list_tracer, get_key, update_and_set_balance,
}
use go_pevm.Tracer.Callbacks.{
  read_only, charge_gas, count_nonce, price_or, capture_start, read_account, capture_call,
  capture_op, capture_state, refund_gas, capture_tx_end,
}
use go_pevm.Tracer.Views.{IsFaithful, get_key_lem}
use go_pevm.Tracer.Changes.{
  Succeeds, Succeeds-some, Succeeds-bind, set-Succeeds, write_abort-Succeeds,
  update_and_set_balance_lem, update_and_set_nonce_lem,
}

module _ ⦃k : Kaia⦄ ⦃e : Evm k⦄ ⦃b : BTree less⦄ where
  open k use {Address, Hash}
  open e use {Word}

  read-Succeeds :
      (key : StorageKey) (s : Store) (t : AccessListTracer)
      → IsFaithful s t
      → Succeeds s t (read_only (get_key key s t))
  read-Succeeds key s t h =
      let (t', p, h', _, same) = get_key_lem key s t h in
      record { after = t'; returned = rw p; faithful = h'; same = same }

  if-Succeeds :
      (p : Bool) (s : Store) (t : AccessListTracer) (m n : Option AccessListTracer)
      → Succeeds s t m
      → Succeeds s t n
      → Succeeds s t (if p then m else n)
  if-Succeeds true s t m n h g = h
  if-Succeeds false s t m n h g = g

  pay :
      (a : Address) (v : ℤ) (s : Store) (t : AccessListTracer)
      → IsFaithful s t
      → Succeeds s t (update_and_set_balance a v s t)
  pay a v s t h = (update_and_set_balance_lem a v s t h).0

  pay_two :
      (a c : Address) (v w : ℤ) (s : Store) (t : AccessListTracer)
      → IsFaithful s t
      → Succeeds s t (update_and_set_balance a v s t >>= λ u. update_and_set_balance c w s u)
  pay_two a c v w s t h = Succeeds-bind s t _ _ (pay a v s t h) (λ u g _. pay c w s u g)

  charge_gas-Succeeds :
      (price : ℤ) (s : Store) (t : AccessListTracer)
      → IsFaithful s t
      → Succeeds s t (charge_gas price s t)
  unfolding charge_gas
  charge_gas-Succeeds price s t h = if-Succeeds _ s t _ _ (pay_two _ _ _ _ s t h) (pay _ _ s t h)

  count_nonce-Succeeds :
      (env : Env) (create : Bool) (s : Store) (t : AccessListTracer)
      → IsFaithful s t
      → Succeeds s t (count_nonce env create s t)
  unfolding count_nonce
  count_nonce-Succeeds env create s t h =
      let one = (update_and_set_nonce_lem (e.validated_sender t.msg) s t h).0 in
      if-Succeeds _ s t _ _ (if-Succeeds create s t _ _ one (Succeeds-some s t h)) one

  abbrev priced : ℤ → AccessListTracer → AccessListTracer
  priced p t = record t { gas_price = some p }

  capture_start-Succeeds :
      (env : Env) (from to : Address) (create : Bool) (v : ℤ) (s : Store) (t : AccessListTracer)
      → IsFaithful s t
      → Succeeds s
          (priced (price_or t.gas_price env.gas_price) t)
          (capture_start env from to create v s t)
  unfolding capture_start
  capture_start-Succeeds env from to create v s t h =
      let price = price_or t.gas_price env.gas_price in
      let t0 : AccessListTracer = priced price t in
      let h0 : IsFaithful s t0 = record {
        writes = h.writes;
        reads = h.reads;
        single = h.single;
        place = h.place;
        founded = h.founded;
      } in
      Succeeds-bind s t0 _ _ (charge_gas-Succeeds price s t0 h0) λ u g _.
        Succeeds-bind s u _ _ (count_nonce-Succeeds env create s u g)
          λ w i _. pay_two from to v (neg_int v) s w i

  account-Succeeds :
      (w : Word) (x : Hash) (s : Store) (t : AccessListTracer)
      → IsFaithful s t
      → Succeeds s t (read_account w x s t)
  unfolding read_account
  account-Succeeds w x s t h = read-Succeeds _ s t h

  capture_call-Succeeds :
      (w : Word) (scope : Scope) (s : Store) (t : AccessListTracer)
      → IsFaithful s t
      → Succeeds s t (capture_call w scope s t)
  unfolding capture_call
  capture_call-Succeeds w scope s t h =
      if-Succeeds _ s t _ _ (pay_two _ _ _ _ s t h) (Succeeds-some s t h)

  capture_op-Succeeds :
      (op : OpCode) (l : List Word) (scope : Scope) (s : Store) (t : AccessListTracer)
      → IsFaithful s t
      → Succeeds s t (capture_op op l scope s t)
  unfolding capture_op
  capture_op-Succeeds sload (w ∷ l) scope s t h = read-Succeeds _ s t h
  capture_op-Succeeds sstore (w ∷ v ∷ l) scope s t h = set-Succeeds _ _ s t h
  capture_op-Succeeds extcodecopy (w ∷ l) scope s t h = account-Succeeds w _ s t h
  capture_op-Succeeds extcodehash (w ∷ l) scope s t h = account-Succeeds w _ s t h
  capture_op-Succeeds extcodesize (w ∷ l) scope s t h = account-Succeeds w _ s t h
  capture_op-Succeeds balance (w ∷ l) scope s t h = account-Succeeds w _ s t h
  capture_op-Succeeds call (w ∷ l) scope s t h = capture_call-Succeeds w scope s t h
  capture_op-Succeeds callcode (w ∷ l) scope s t h = capture_call-Succeeds w scope s t h
  capture_op-Succeeds selfdestruct l scope s t h = write_abort-Succeeds _ s t h (inl refl)
  capture_op-Succeeds _ l scope s t h = Succeeds-some s t h

  refund_gas-Succeeds :
      (v : ℤ) (s : Store) (t : AccessListTracer) → IsFaithful s t → Succeeds s t (refund_gas v s t)
  unfolding refund_gas
  refund_gas-Succeeds v s t h = if-Succeeds _ s t _ _ (pay_two _ _ _ _ s t h) (pay _ _ s t h)

  unfoldable pub make_call : Call → Store → AccessListTracer → Option AccessListTracer
  make_call (op_executed op scope) s t = capture_state op scope s t
  make_call (tx_ended rest) s t = capture_tx_end rest s t

  unfoldable pub make_calls : List Call → Store → AccessListTracer → Option AccessListTracer
  unfolding make_call
  make_calls [] s t = some t
  make_calls (c ∷ cs) s t = make_call c s t >>= λ u. make_calls cs s u

  pub operation-Succeeds :
      (op : OpCode) (scope : Scope) (s : Store) (t : AccessListTracer)
      → IsFaithful s t
      → Succeeds s t (make_call (op_executed op scope) s t)
  unfolding make_call capture_state
  operation-Succeeds op scope s t h = capture_op-Succeeds op scope.stack scope s t h

  pub make_call-Succeeds :
      (c : Call) (s : Store) (t : AccessListTracer) (p : ℤ)
      → IsFaithful s t
      → t.gas_price ≡ some p
      → Succeeds s t (make_call c s t)
  unfolding make_call capture_tx_end
  make_call-Succeeds (op_executed op scope) s t p h g = operation-Succeeds op scope s t h
  make_call-Succeeds (tx_ended rest) s t p h g =
      subst (λ o. Succeeds s t (o >>= λ price. refund_gas (pos rest *ℤ price) s t)) (sym g)
        (refund_gas-Succeeds (pos rest *ℤ p) s t h)

  make_calls-Succeeds :
      (cs : List Call) (s : Store) (t : AccessListTracer) (p : ℤ)
      → IsFaithful s t
      → t.gas_price ≡ some p
      → Succeeds s t (make_calls cs s t)
  unfolding make_calls
  make_calls-Succeeds [] s t p h g = Succeeds-some s t h
  make_calls-Succeeds (c ∷ cs) s t p h g =
      Succeeds-bind s t _ _ (make_call-Succeeds c s t p h g)
        λ u i same. make_calls-Succeeds cs s u p i (same.same_price ∙ g)

  -- CaptureStart and the calls after it, on a new tracer.
  unfoldable pub run_transaction :
      Env
      → Address
      → Address
      → Bool
      → ℤ
      → List Call
      → Store
      → AccessListTracer
      → Option AccessListTracer
  run_transaction env from to create v cs s t =
      capture_start env from to create v s t >>= λ u. make_calls cs s u

  -- make(chan multiversion.Abort, 1), as prepareTask has it
  abbrev pub new_channel : AbortChannel
  new_channel = record { buffered = []; capacity = 1 }

  pub new-IsFaithful :
      (m : e.Message) (i n : ℕ) (s : Store)
      → IsFaithful s (new_access_list_tracer m (pos i) n new_channel)
  unfolding new_access_list_tracer get
  new-IsFaithful m i n s = record {
    writes = tt;
    reads = tt;
    single = λ key vs p. cc;
    place = (i, refl);
    founded = tt;
  }

  -- Whatever calls the EVM makes after CaptureStart, the tracer of a transaction does not panic, if
  -- its index is not negative and its channel is new. It ends with one value for each key that was
  -- read, the parent state's, with aborts only for itself or for a transaction that has a version of
  -- some key, and with its own index and incarnation.
  pub run_transaction-IsFaithful :
      (m : e.Message) (i n : ℕ) (env : Env) (from to : Address) (create : Bool) (v : ℤ)
      (cs : List Call) (s : Store)
      → (t : AccessListTracer) × (run_transaction env from to create v cs s
            (new_access_list_tracer m (pos i) n new_channel)
          ≡ some t)
        × IsFaithful s t
        × (t.transaction_index ≡ pos i)
        × (t.incarnation ≡ n)
  unfolding run_transaction
  run_transaction-IsFaithful m i n env from to create v cs s =
      let t0 : AccessListTracer = new_access_list_tracer m (pos i) n new_channel in
      let p : ℤ = price_or t0.gas_price env.gas_price in
      let done =
        Succeeds-bind s (priced p t0) _ _
          (capture_start-Succeeds env from to create v s t0 (new-IsFaithful m i n s))
          (λ u h same. make_calls-Succeeds cs s u p h same.same_price) in
      (
        done.after,
        done.returned,
        done.faithful,
        unfold new_access_list_tracer in done.same.same_index,
        unfold new_access_list_tracer in done.same.same_incarnation,
      )

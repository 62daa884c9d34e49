-- ===== src/Tracer/Uses/Runs.antt =====
-- The keys that the callbacks of multiversion/tracer.go read and write over one transaction.
use go_pevm.Shared.{
  pos, ℕ, ℤ, ◌≡◌, refl, Bool, Option, none, some, List, [], ◌∷◌, get, bytes_eq, neg_int,
}
use go_pevm.External.Kaia.{Kaia}
use go_pevm.External.BTree.{BTree}
use go_pevm.External.Evm.{
  Evm, Env, Scope, OpCode, sload, sstore, extcodecopy, extcodehash, extcodesize, balance, call,
  callcode, selfdestruct, Call, op_executed, tx_ended,
}
use go_pevm.Versions.{less}
use go_pevm.Keys.{StorageKey, to_storage_key, balance_key, nonce_key}
use go_pevm.Keys.RoundTrip.{HasTexts}
use go_pevm.Store.{Store}
use go_pevm.Store.Flush.Views.{IsValueKey}
use go_pevm.Tracer.{
  AccessListTracer, ◌>>=◌, set, get_key, update_and_set_balance, update_and_set_nonce,
  new_access_list_tracer,
}
use go_pevm.Shared.{◌*ℤ◌}
use go_pevm.Tracer.Callbacks.{
  read_only, charge_gas, count_nonce, price_or, capture_start, read_account, capture_call,
  capture_op, capture_state, refund_gas, capture_tx_end,
}
use go_pevm.Tracer.Views.{write_abort_keeps}
use go_pevm.Tracer.Runs.{make_call, make_calls, run_transaction, new_channel}
use go_pevm.Tracer.Uses.{
  to_storage_key-IsMade, to_storage_key-IsValueKey, HasOwnKeys, IsPlainOp, IsPlainCall,
  ArePlainCalls, HasValueKeys, LeavesValueKeys, some-LeavesValueKeys, bind-LeavesValueKeys,
  if-LeavesValueKeys, set-HasValueKeys, SameSets-HasValueKeys, get_key-HasValueKeys,
}

module _ ⦃k : Kaia⦄ ⦃e : Evm k⦄ ⦃b : BTree less⦄ where
  open k use {Address, Hash}
  open e use {Word}

  pub new-HasValueKeys :
      (m : e.Message) (i : ℤ) (n : ℕ) → HasValueKeys (new_access_list_tracer m i n new_channel)
  unfolding new_access_list_tracer get
  new-HasValueKeys m i n = record { reads = λ q vs x. cc; writes = λ q v x. cc }

  module _ (texts : HasTexts k) (own : HasOwnKeys) where
    -- The change of a key that has a value.
    change-LeavesValueKeys :
        (key : StorageKey) (f : Hash → Hash) (s : Store) (t : AccessListTracer)
        → IsValueKey key
        → HasValueKeys t
        → LeavesValueKeys (get_key key s t >>= λ p. some (set key (f p.0) p.1))
    change-LeavesValueKeys key f s t valued h = by_read (get_key key s t) refl
      where
        by_read :
            (m : Option (Hash × AccessListTracer))
            → get_key key s t ≡ m
            → LeavesValueKeys (m >>= λ p. some (set key (f p.0) p.1))
        by_read none x u y = cc
        by_read (some (v, t')) x u y =
            some-LeavesValueKeys (set key (f v) t')
              (set-HasValueKeys key (f v) t' valued.made
                (get_key-HasValueKeys key s t t' v valued h x))
              u y

    balance-IsValueKey : (a : Address) → IsValueKey (to_storage_key a balance_key)
    balance-IsValueKey a = to_storage_key-IsValueKey texts a balance_key own.balances

    pay-LeavesValueKeys :
        (a : Address) (v : ℤ) (s : Store) (t : AccessListTracer)
        → HasValueKeys t
        → LeavesValueKeys (update_and_set_balance a v s t)
    unfolding update_and_set_balance
    pay-LeavesValueKeys a v s t h = change-LeavesValueKeys _ _ s t (balance-IsValueKey a) h

    pay_two-LeavesValueKeys :
        (a c : Address) (v w : ℤ) (s : Store) (t : AccessListTracer)
        → HasValueKeys t
        → LeavesValueKeys (update_and_set_balance a v s t >>= λ u. update_and_set_balance c w s u)
    pay_two-LeavesValueKeys a c v w s t h =
        bind-LeavesValueKeys _ _ (pay-LeavesValueKeys a v s t h)
          (λ u g. pay-LeavesValueKeys c w s u g)

    count-LeavesValueKeys :
        (a : Address) (s : Store) (t : AccessListTracer)
        → HasValueKeys t
        → LeavesValueKeys (update_and_set_nonce a s t)
    unfolding update_and_set_nonce
    count-LeavesValueKeys a s t h =
        change-LeavesValueKeys _ _ s t (to_storage_key-IsValueKey texts a nonce_key own.nonces) h

    read-LeavesValueKeys :
        (key : StorageKey) (s : Store) (t : AccessListTracer)
        → IsValueKey key
        → HasValueKeys t
        → LeavesValueKeys (read_only (get_key key s t))
    read-LeavesValueKeys key s t valued h = by_read (get_key key s t) refl
      where
        by_read :
            (m : Option (Hash × AccessListTracer))
            → get_key key s t ≡ m
            → LeavesValueKeys (read_only m)
        by_read none x u y = cc
        by_read (some (v, t')) x u y =
            some-LeavesValueKeys t' (get_key-HasValueKeys key s t t' v valued h x) u y

    capture_start-LeavesValueKeys :
        (env : Env) (from to : Address) (create : Bool) (v : ℤ) (s : Store) (t : AccessListTracer)
        → HasValueKeys t
        → LeavesValueKeys (capture_start env from to create v s t)
    unfolding capture_start charge_gas count_nonce
    capture_start-LeavesValueKeys env from to create v s t h =
        let price = price_or t.gas_price env.gas_price in
        let t0 : AccessListTracer = record t { gas_price = some price } in
        let h0 : HasValueKeys t0 = record { reads = h.reads; writes = h.writes } in
        bind-LeavesValueKeys _ _
          (if-LeavesValueKeys _ _ _ (pay_two-LeavesValueKeys _ _ _ _ s t0 h0)
            (pay-LeavesValueKeys _ _ s t0 h0))
          λ u g.
            let one = count-LeavesValueKeys (e.validated_sender u.msg) s u g in
            bind-LeavesValueKeys _ _
              (if-LeavesValueKeys _ _ _
                (if-LeavesValueKeys create _ _ one (some-LeavesValueKeys u g)) one)
              λ w i. pay_two-LeavesValueKeys from to v (neg_int v) s w i

    capture_call-LeavesValueKeys :
        (w : Word) (scope : Scope) (s : Store) (t : AccessListTracer)
        → HasValueKeys t
        → LeavesValueKeys (capture_call w scope s t)
    unfolding capture_call
    capture_call-LeavesValueKeys w scope s t h =
        if-LeavesValueKeys _ _ _ (pay_two-LeavesValueKeys _ _ _ _ s t h) (some-LeavesValueKeys t h)

    capture_op-LeavesValueKeys :
        (op : OpCode) (l : List Word) (scope : Scope) (s : Store) (t : AccessListTracer)
        → IsPlainOp op l
        → HasValueKeys t
        → LeavesValueKeys (capture_op op l scope s t)
    unfolding capture_op read_account
    capture_op-LeavesValueKeys sload (w ∷ l) scope s t p h =
        read-LeavesValueKeys _ s t (to_storage_key-IsValueKey texts _ _ p) h
    capture_op-LeavesValueKeys sstore (w ∷ v ∷ l) scope s t p h =
        some-LeavesValueKeys _ (set-HasValueKeys _ _ t (to_storage_key-IsMade texts _ _) h)
    capture_op-LeavesValueKeys extcodecopy (w ∷ l) scope s t p h = absurd p
    capture_op-LeavesValueKeys extcodehash (w ∷ l) scope s t p h = absurd p
    capture_op-LeavesValueKeys extcodesize (w ∷ l) scope s t p h = absurd p
    capture_op-LeavesValueKeys balance (w ∷ l) scope s t p h =
        read-LeavesValueKeys _ s t (balance-IsValueKey _) h
    capture_op-LeavesValueKeys call (w ∷ l) scope s t p h =
        capture_call-LeavesValueKeys w scope s t h
    capture_op-LeavesValueKeys callcode (w ∷ l) scope s t p h =
        capture_call-LeavesValueKeys w scope s t h
    capture_op-LeavesValueKeys selfdestruct l scope s t p h =
        some-LeavesValueKeys _ (SameSets-HasValueKeys t _ (write_abort_keeps _ t) h)
    capture_op-LeavesValueKeys _ l scope s t p h = some-LeavesValueKeys t h

    make_call-LeavesValueKeys :
        (c : Call) (s : Store) (t : AccessListTracer)
        → IsPlainCall c
        → HasValueKeys t
        → LeavesValueKeys (make_call c s t)
    unfolding make_call capture_state capture_tx_end refund_gas
    make_call-LeavesValueKeys (op_executed op scope) s t p h u x =
        capture_op-LeavesValueKeys op scope.stack scope s t p h u x
    make_call-LeavesValueKeys (tx_ended rest) s t p h u x = by_price t.gas_price x
      where
        by_price :
            (o : Option ℤ)
            → (o >>= λ price. refund_gas (pos rest *ℤ price) s t) ≡ some u
            → HasValueKeys u
        by_price none y = cc
        by_price (some price) y =
            if-LeavesValueKeys _ _ _ (pay_two-LeavesValueKeys _ _ _ _ s t h)
              (pay-LeavesValueKeys _ _ s t h) u y

    pub make_calls-LeavesValueKeys :
        (cs : List Call) (s : Store) (t : AccessListTracer)
        → ArePlainCalls cs
        → HasValueKeys t
        → LeavesValueKeys (make_calls cs s t)
    unfolding make_calls
    make_calls-LeavesValueKeys [] s t p h = some-LeavesValueKeys t h
    make_calls-LeavesValueKeys (c ∷ cs) s t p h =
        bind-LeavesValueKeys _ _ (make_call-LeavesValueKeys c s t (p.0) h)
          (λ u g. make_calls-LeavesValueKeys cs s u (p.1) g)

    -- A transaction whose calls look at no code reads keys of balances, nonces and slots only, and
    -- writes keys that ToStorageKey makes.
    pub run_transaction-HasValueKeys :
        (m : e.Message) (i : ℤ) (n : ℕ) (env : Env) (from to : Address) (create : Bool) (v : ℤ)
        (cs : List Call) (s : Store) (t : AccessListTracer)
        → ArePlainCalls cs
        → run_transaction env from to create v cs s (new_access_list_tracer m i n new_channel)
          ≡ some t
        → HasValueKeys t
    unfolding run_transaction
    run_transaction-HasValueKeys m i n env from to create v cs s t p =
        bind-LeavesValueKeys _ _
          (capture_start-LeavesValueKeys env from to create v s _ (new-HasValueKeys m i n))
          (λ u g. make_calls-LeavesValueKeys cs s u p g) t

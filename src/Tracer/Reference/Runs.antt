-- ===== src/Tracer/Reference/Runs.antt =====
-- The callbacks of multiversion/tracer.go over one transaction, beside the reference.
use go_pevm.Shared.{
  ℕ, ℤ, pos, ◌≡◌, refl, sym, ◌∙◌, Bool, none, some, List, [], ◌∷◌, put, bytes_eq, ◌*ℤ◌, neg_int,
}
use mathlib.Core.Path.{subst}
use go_pevm.External.Kaia.{Kaia}
use go_pevm.External.BTree.{BTree}
use go_pevm.External.Evm.{
  Evm, Env, Scope, OpCode, sload, sstore, extcodecopy, extcodehash, extcodesize, balance, call,
  callcode, selfdestruct, Call, op_executed, tx_ended,
}
use go_pevm.Versions.{less}
use go_pevm.Keys.{StorageKey}
use go_pevm.Store.{Store}
use go_pevm.Tracer.{
  AccessListTracer, ◌>>=◌, set, update_and_set_balance, update_and_set_nonce,
  new_access_list_tracer,
}
use go_pevm.Tracer.Callbacks.{
  charge_gas, count_nonce, price_or, capture_start, read_account, capture_call, capture_op,
  capture_state, refund_gas, capture_tx_end,
}
use go_pevm.Tracer.Views.{SameSets-refl, write_abort_keeps}
use go_pevm.Tracer.Runs.{make_call, make_calls, run_transaction, new_channel}
use go_pevm.Tracer.Reference.{
  View, paid, counted, charged, nonce_counted, moved, started, called, operated, refunded,
  calls_written, transaction_written,
}
use go_pevm.Tracer.Reference.Steps.{
  Matches, IsFollowed, Follows, same_Follows, bind-Follows, if-Follows, change_Follows,
  read_Follows,
}

module _ ⦃k : Kaia⦄ ⦃e : Evm k⦄ ⦃b : BTree less⦄ (f : View) where
  open k use {Address, Hash}
  open e use {Word, Message}

  pay_Follows :
      (a : Address) (v : ℤ) (s : Store) (t : AccessListTracer)
      → Follows f (paid f a v) t (update_and_set_balance a v s t)
  unfolding update_and_set_balance
  pay_Follows a v s t = change_Follows f _ _ s t

  count_Follows :
      (a : Address) (s : Store) (t : AccessListTracer)
      → Follows f (counted f a) t (update_and_set_nonce a s t)
  unfolding update_and_set_nonce
  count_Follows a s t = change_Follows f _ _ s t

  pay_two_Follows :
      (a c : Address) (v w : ℤ) (s : Store) (t : AccessListTracer)
      → Follows f
          (λ ws. paid f c w (paid f a v ws))
          t
          (update_and_set_balance a v s t >>= λ u. update_and_set_balance c w s u)
  pay_two_Follows a c v w s t =
      bind-Follows f (paid f a v) (paid f c w) t _ _ (pay_Follows a v s t)
        (λ u _ _. pay_Follows c w s u)

  charge_Follows :
      (price : ℤ) (s : Store) (t : AccessListTracer)
      → Follows f (charged f t.msg price) t (charge_gas price s t)
  unfolding charge_gas
  charge_Follows price s t =
      if-Follows f _ _ _ t _ _ (pay_two_Follows _ _ _ _ s t) (pay_Follows _ _ s t)

  nonce_Follows :
      (env : Env) (create : Bool) (s : Store) (t : AccessListTracer)
      → Follows f (nonce_counted f t.msg env create) t (count_nonce env create s t)
  unfolding count_nonce
  nonce_Follows env create s t =
      let one = count_Follows (e.validated_sender t.msg) s t in
      if-Follows f _ _ _ t _ _
        (if-Follows f create _ _ t _ _ one (same_Follows f t t (SameSets-refl t))) one

  move_Follows :
      (from to : Address) (v : ℤ) (s : Store) (t : AccessListTracer)
      → Follows f
          (moved f from to v)
          t
          (update_and_set_balance from v s t >>= λ u. update_and_set_balance to (neg_int v) s u)
  move_Follows from to v s t = pay_two_Follows from to v (neg_int v) s t

  call_Follows :
      (w : Word) (scope : Scope) (s : Store) (t : AccessListTracer)
      → Follows f (called f w scope) t (capture_call w scope s t)
  unfolding capture_call
  call_Follows w scope s t =
      if-Follows f _ _ _ t _ _ (move_Follows _ _ _ s t) (same_Follows f t t (SameSets-refl t))

  set-Follows :
      (q : StorageKey) (v : Hash) (t : AccessListTracer) → Follows f (put q v) t (some (set q v t))
  unfolding set
  set-Follows q v t u x =
      let same : set q v t ≡ u = cc in
      let done : IsFollowed f (put q v) t (set q v t) = record {
        matched = λ h. h;
        writes = λ h. refl;
        msg = refl;
        price = refl;
      } in
      subst (IsFollowed f (put q v) t) same done

  op_Follows :
      (op : OpCode) (l : List Word) (scope : Scope) (s : Store) (t : AccessListTracer)
      → Follows f (operated f op l scope) t (capture_op op l scope s t)
  unfolding capture_op read_account
  op_Follows sload (w ∷ l) scope s t = read_Follows f _ s t
  op_Follows sstore (w ∷ v ∷ l) scope s t = set-Follows _ _ t
  op_Follows extcodecopy (w ∷ l) scope s t = read_Follows f _ s t
  op_Follows extcodehash (w ∷ l) scope s t = read_Follows f _ s t
  op_Follows extcodesize (w ∷ l) scope s t = read_Follows f _ s t
  op_Follows balance (w ∷ l) scope s t = read_Follows f _ s t
  op_Follows call (w ∷ l) scope s t = call_Follows w scope s t
  op_Follows callcode (w ∷ l) scope s t = call_Follows w scope s t
  op_Follows selfdestruct l scope s t = same_Follows f t _ (write_abort_keeps _ t)
  op_Follows _ l scope s t = same_Follows f t t (SameSets-refl t)

  refund_Follows :
      (amount : ℤ) (s : Store) (t : AccessListTracer)
      → Follows f (refunded f t.msg amount) t (refund_gas amount s t)
  unfolding refund_gas
  refund_Follows amount s t =
      if-Follows f _ _ _ t _ _ (pay_two_Follows _ _ _ _ s t) (pay_Follows _ _ s t)

  calls_Follows :
      (cs : List Call) (m : Message) (price : ℤ) (s : Store) (t : AccessListTracer)
      → t.msg ≡ m
      → t.gas_price ≡ some price
      → Follows f (calls_written f m price cs) t (make_calls cs s t)
  unfolding make_calls make_call calls_written capture_state capture_tx_end
  calls_Follows [] m price s t x y = same_Follows f t t (SameSets-refl t)
  calls_Follows (op_executed op scope ∷ cs) m price s t x y =
      bind-Follows f _ (calls_written f m price cs) t _ _ (op_Follows op scope.stack scope s t)
        (λ u a c. calls_Follows cs m price s u (a ∙ x) (c ∙ y))
  calls_Follows (tx_ended rest ∷ cs) m price s t x y =
      let amount = pos rest *ℤ price in
      subst
        (λ o.
          Follows f (λ ws. calls_written f m price cs (refunded f m amount ws)) t
            ((o >>= λ p. refund_gas (pos rest *ℤ p) s t) >>= λ u. make_calls cs s u))
        (sym y)
        (bind-Follows f _ (calls_written f m price cs) t _ _
          (subst (λ n. Follows f (refunded f n amount) t (refund_gas amount s t)) x
            (refund_Follows amount s t))
          (λ u a c. calls_Follows cs m price s u (a ∙ x) (c ∙ y)))

  start_Follows :
      (env : Env) (from to : Address) (create : Bool) (v : ℤ) (s : Store) (t : AccessListTracer)
      → t.gas_price ≡ none
      → Follows f
          (started f t.msg env from to create v)
          (record t { gas_price = some env.gas_price })
          (capture_start env from to create v s t)
  unfolding capture_start
  start_Follows env from to create v s t unset =
      let p = env.gas_price in
      let t0 : AccessListTracer = record t { gas_price = some p } in
      subst
        (λ o. Follows f (started f t.msg env from to create v) t0 (
          charge_gas (price_or o p) s (record t { gas_price = some (price_or o p) }) >>= λ u.
          count_nonce env create s u >>= λ w.
          update_and_set_balance from v s w >>= λ x. update_and_set_balance to (neg_int v) s x))
        (sym unset)
        (bind-Follows f (charged f t.msg p) _ t0 _ _ (charge_Follows p s t0) λ u same _.
          bind-Follows f (nonce_counted f t.msg env create) (moved f from to v) u _ _
            (subst (λ n. Follows f (nonce_counted f n env create) u (count_nonce env create s u))
              same (nonce_Follows env create s u))
            λ w _ _. move_Follows from to v s w)

  -- What a transaction writes is what the reference says: if every key that its tracer has read in
  -- the end was read with the value that the view has for it, its writeset is the one that its calls
  -- make from these values. The tracer is new.
  pub run_transaction_written :
      (m : Message) (i : ℤ) (n : ℕ) (env : Env) (from to : Address) (create : Bool) (v : ℤ)
      (cs : List Call) (s : Store) (t : AccessListTracer)
      → run_transaction env from to create v cs s (new_access_list_tracer m i n new_channel)
        ≡ some t
      → Matches f t
      → t.writeset ≡ transaction_written f m env from to create v cs
  unfolding run_transaction transaction_written new_access_list_tracer
  run_transaction_written m i n env from to create v cs s t x h =
      let t0 : AccessListTracer = new_access_list_tracer m i n new_channel in
      (bind-Follows f (started f m env from to create v) (calls_written f m env.gas_price cs)
          (record t0 { gas_price = some env.gas_price }) _ _
          (start_Follows env from to create v s t0 refl)
          (λ u a c. calls_Follows cs m env.gas_price s u a c) t x).writes
        h

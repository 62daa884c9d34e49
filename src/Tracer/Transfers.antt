-- ===== src/Tracer/Transfers.antt =====
-- The writes of multiversion/tracer.go: value transfers between two accounts, and SSTORE.
use go_pevm.Shared.{
  ℕ, ◌<◌, ◌^◌, ℤ, pos, ◌≡◌, ◌≢◌, sym, ap, ◌∙◌, true, some, List, ◌∷◌, arith, ite, ◌=?◌, get-put,
  bytes_eq, lt_int, ◌+ℤ◌, ◌-ℤ◌, neg_int, transfer_sum, set_bytes,
}
use mathlib.Core.Path.{ap₂}
use go_pevm.External.Kaia.{Kaia}
use go_pevm.External.BTree.{BTree}
use go_pevm.External.Evm.{Evm, Scope, OpCode}
use go_pevm.Versions.{less}
use go_pevm.Keys.{StorageKey, to_storage_key, address, slot, balance_key, nonce_key, set_value_in}
use go_pevm.Keys
use go_pevm.Keys.RoundTrip.{HasTexts, address-slot-to_storage_key}
use go_pevm.Store.{Store}
use go_pevm.Store.Flush.States.{HasCells}
use go_pevm.Tracer.{AccessListTracer, ◌>>=◌, set, hash_to_big, update_and_set_balance}
use go_pevm.Tracer.Callbacks.{capture_call, capture_op, capture_state}
use go_pevm.Tracer.Views.{IsFaithful, seen}
use go_pevm.Tracer.Changes.{update_and_set_balance_lem}

-- What the program relies on of BigToHash: an amount of 256 bits is read back.
pub record HasAmounts (k : Kaia) : Type 0 where
  pub amount_back : (n : ℕ) → n < 2 ^ 256 → set_bytes (k.hash_bytes (k.big_to_hash (pos n))) ≡ pos n

module _ ⦃k : Kaia⦄ ⦃e : Evm k⦄ ⦃b : BTree less⦄ where
  open k use {Address, Hash}
  open e use {Word}

  abbrev pub balance_of : Address → Store → AccessListTracer → ℤ
  balance_of a s t = hash_to_big (seen (to_storage_key a balance_key) s t)

module _ ⦃k : Kaia⦄ ⦃e : Evm k⦄ ⦃b : BTree less⦄ (texts : HasTexts k) (amounts : HasAmounts k) where
  open k use {Address, Hash}
  open e use {Word}

  different_keys :
      (a c : Address) → a ≢ c → to_storage_key a balance_key ≢ to_storage_key c balance_key
  different_keys a c h p = h (
      sym (address-slot-to_storage_key texts a balance_key).0
      ∙ ap address p
      ∙ (address-slot-to_storage_key texts c balance_key).0)

  module _ (a c : Address) (v : ℤ) (s : Store) (t : AccessListTracer) (different : a ≢ c) where
    apart : (q r : StorageKey) (x y : Hash) → q ≢ r → ite (q =? r) x y ≡ y
    apart q r x y h = ground arith

    at_key : (q : StorageKey) (x y : Hash) → ite (q =? q) x y ≡ x
    at_key q x y = ground arith

    pay_pair :
        (x y : ℕ)
        → IsFaithful s t
        → balance_of a s t -ℤ v ≡ pos x
        → balance_of c s t -ℤ neg_int v ≡ pos y
        → x < 2 ^ 256
        → y < 2 ^ 256
        → (t' : AccessListTracer) × ((update_and_set_balance a v s t >>= λ u.
              update_and_set_balance c (neg_int v) s u)
            ≡ some t')
          × (balance_of a s t' ≡ pos x)
          × (balance_of c s t' ≡ pos y)
          × ((q : StorageKey)
              → q ≢ to_storage_key a balance_key
              → q ≢ to_storage_key c balance_key
              → seen q s t' ≡ seen q s t)
    pay_pair x y h px py hx hy =
        let ka : StorageKey = to_storage_key a balance_key in
        let kc : StorageKey = to_storage_key c balance_key in
        let ne : ka ≢ kc = different_keys a c different in
        let first = update_and_set_balance_lem a v s t h in
        let u : AccessListTracer = first.0.after in
        let second = update_and_set_balance_lem c (neg_int v) s u first.0.faithful in
        let c_kept : seen kc s u ≡ seen kc s t = first.1 kc ∙ apart ka kc _ _ ne in
        let a_kept : seen ka s second.0.after ≡ seen ka s u =
          second.1 ka ∙ apart kc ka _ _ (λ p. ne (sym p)) in
        (
          second.0.after,
          rw (first.0.returned) (second.0.returned),
          ap hash_to_big (a_kept ∙ first.1 ka ∙ at_key ka _ _ ∙ ap k.big_to_hash px)
              ∙ unfold hash_to_big in amounts.amount_back x hx,
          ap hash_to_big (
                second.1 kc
                ∙ at_key kc _ _
                ∙ ap k.big_to_hash (ap (λ z. hash_to_big z -ℤ neg_int v) c_kept ∙ py))
              ∙ unfold hash_to_big in amounts.amount_back y hy,
          λ q na nc.
              second.1 q
              ∙ apart kc q _ _ (λ p. nc (sym p))
              ∙ first.1 q
              ∙ apart ka q _ _ (λ p. na (sym p)),
        )

  -- A CALL with value takes it from the caller's balance and adds it to that of the account whose
  -- address is read from the top of the stack, if the two are different and both new balances are
  -- amounts of 256 bits. Their sum stays, and the transaction sees no other key change.
  pub capture_call_transfers :
      (w : Word) (scope : Scope) (s : Store) (t : AccessListTracer) (x y : ℕ)
      → IsFaithful s t
      → lt_int (pos 0) scope.contract_value ≡ true
      → scope.caller_address ≢ e.bytes20 w
      → balance_of scope.caller_address s t -ℤ scope.contract_value ≡ pos x
      → balance_of (e.bytes20 w) s t -ℤ neg_int scope.contract_value ≡ pos y
      → x < 2 ^ 256
      → y < 2 ^ 256
      → (t' : AccessListTracer) × (capture_call w scope s t ≡ some t')
        × (balance_of scope.caller_address s t' ≡ pos x)
        × (balance_of (e.bytes20 w) s t' ≡ pos y)
        × (pos x +ℤ pos y ≡ balance_of scope.caller_address s t +ℤ balance_of (e.bytes20 w) s t)
        × ((q : StorageKey)
            → q ≢ to_storage_key scope.caller_address balance_key
            → q ≢ to_storage_key (e.bytes20 w) balance_key
            → seen q s t' ≡ seen q s t)
  unfolding capture_call
  capture_call_transfers w scope s t x y h positive different px py hx hy =
      let a : Address = scope.caller_address in
      let c : Address = e.bytes20 w in
      let v : ℤ = scope.contract_value in
      let (t', run, bal_a, bal_c, others) = pay_pair a c v s t different x y h px py hx hy in
      (
        t',
        ground (arith, run),
        bal_a,
        bal_c,
        ap₂ ◌+ℤ◌ (sym px) (sym py) ∙ transfer_sum (balance_of a s t) (balance_of c s t) v,
        others,
      )

module _ ⦃k : Kaia⦄ ⦃e : Evm k⦄ ⦃b : BTree less⦄ (texts : HasTexts k) (cells : HasCells k) where
  open k use {Address, Hash, StateDb}
  open e use {Word}

  balance_cell :
      (a : Address) (x : Hash) (v : Hash) (st : StateDb)
      → x ≡ balance_key
      → k.get_balance (Keys.set_value (to_storage_key a x) v st) a ≡ set_bytes (k.hash_bytes v)
  unfolding Keys.set_value set_value_in
  balance_cell a x v st h =
      let (pa, ps) = address-slot-to_storage_key texts a x in
      ground (
        arith,
        pa,
        ps,
        cells.get_balance-set_balance st (address (to_storage_key a x)) a
            (set_bytes (k.hash_bytes v)),
      )

  -- An SSTORE to the slot that stands for the balance changes the balance: the transaction sees the
  -- stored word as the contract's balance from then on, and the flush of the written key sets the
  -- balance of the account to it. The texts of keys are taken to be plain, and a balance that was set
  -- to be read back.
  pub sstore_overwrites_balance :
      (w v : Word) (l : List Word) (scope : Scope) (s : Store) (t : AccessListTracer) (st : StateDb)
      → scope.stack ≡ w ∷ v ∷ l
      → e.bytes32 w ≡ balance_key
      → let stored = k.bytes_to_hash (e.word_bytes v) in
        (t' : AccessListTracer) × (capture_state OpCode.sstore scope s t ≡ some t')
        × (balance_of scope.contract_address s t' ≡ hash_to_big stored)
        × (k.get_balance
              (Keys.set_value (to_storage_key scope.contract_address (e.bytes32 w)) stored st)
              scope.contract_address
            ≡ hash_to_big stored)
  unfolding capture_state
  sstore_overwrites_balance w v l scope s t st top h =
      let stored : Hash = k.bytes_to_hash (e.word_bytes v) in
      let key : StorageKey = to_storage_key scope.contract_address (e.bytes32 w) in
      (
        set key stored t,
        rw (top, capture_op),
        ap hash_to_big (
            unfold set in
            ground (
              arith,
              h,
              get-put key (to_storage_key scope.contract_address balance_key) stored t.writeset,
            )),
        unfold hash_to_big in balance_cell scope.contract_address (e.bytes32 w) stored st h,
      )

-- ===== src/Chain.antt =====
-- chain/chain.go: the executor of transactions in sequence.
use go_pevm.Shared.{◌≡◌, refl, ap, true, Option, none, some, ◌⊎◌, inl, inr, ite, is_some}
use go_pevm.External.Kaia.{Kaia}
use go_pevm.External.Evm.{Evm}
use go_pevm.External.Chain.{Chain}
use go_pevm.External.Ledger.{Attempt, Ledger}

module _ ⦃k : Kaia⦄ ⦃e : Evm k⦄ ⦃c : Chain⦄ ⦃g : Ledger c⦄ where
  pub record Executor : Type 0 where
    pub config : g.Config
    pub own_state : k.StateDb
    pub header : c.Header

  unfoldable pub new_executor : g.Config → k.StateDb → c.Header → Executor
  new_executor config st header = record { config = config; own_state = st; header = header }

  -- What CommitTransaction leaves and returns.
  pub record Committed : Type 0 where
    pub executor : Executor
    pub transaction : e.Message
    pub error : Option g.TxError
    pub receipt : Option e.Receipt

  -- `if err != vm.ErrInsufficientBalance && err != vm.ErrTotalTimeLimitReached`
  unfoldable mark_unless_retried : g.TxError → e.Message → e.Message
  mark_unless_retried err tx =
      ite (g.error_discrete err g.insufficient_balance) tx
        (ite (g.error_discrete err g.total_time_limit_reached) tx (g.mark_unexecutable true tx))

  unfoldable finish_commit :
      Executor → c.Snapshot → e.Message → k.StateDb → g.TxError ⊎ e.Receipt → Committed
  unfolding mark_unless_retried
  finish_commit env snap tx left (inl err) = record {
    executor = record env { own_state = c.revert_to_snapshot snap left };
    transaction = mark_unless_retried err tx;
    error = some err;
    receipt = none;
  }
  finish_commit env snap tx left (inr receipt) = record {
    executor = record env { own_state = left };
    transaction = tx;
    error = none;
    receipt = some receipt;
  }

  -- CommitTransaction; the chain is in the interface.
  unfoldable pub commit_transaction : Executor → e.Message → k.Address → g.VmConfig → Committed
  unfolding finish_commit
  commit_transaction env tx rewardbase cfg =
      let snap = c.snapshot env.own_state in
      let a = g.apply_transaction env.config rewardbase env.own_state env.header tx cfg in
      finish_commit (record env { header = g.set_gas_used a.gas env.header }) snap tx a.left
        a.outcome

  -- Two states in which the accounts are the same.
  pub record SameAccounts (st st' : k.StateDb) : Type 0 where
    pub balances : (a : k.Address) → k.get_balance st a ≡ k.get_balance st' a
    pub nonces : (a : k.Address) → k.get_nonce st a ≡ k.get_nonce st' a
    pub slots : (a : k.Address) (s : k.Hash) → k.get_state st a s ≡ k.get_state st' a s

  -- The documented behaviour of RevertToSnapshot: it takes back what ApplyTransaction has done to
  -- the state since the snapshot.
  abbrev pub IsReverting : Type 0
  IsReverting =
      (config : g.Config) (a : k.Address) (st : k.StateDb) (h : c.Header) (tx : e.Message)
      (cfg : g.VmConfig)
      → SameAccounts
          (c.revert_to_snapshot (c.snapshot st) (g.apply_transaction config a st h tx cfg).left) st

  -- The gas of the header is what ApplyTransaction has counted. If CommitTransaction returns an
  -- error, it returns no receipt, every balance, nonce and slot is as before, and the transaction is
  -- marked as not executable exactly if the error is neither ErrInsufficientBalance nor
  -- ErrTotalTimeLimitReached. If it returns no error, it returns a receipt, keeps the state that
  -- ApplyTransaction has left, and does not mark the transaction.
  pub commit_transaction_lem :
      IsReverting
      → (env : Executor) (tx : e.Message) (rewardbase : k.Address) (cfg : g.VmConfig)
      → let r = commit_transaction env tx rewardbase cfg in
        let a = g.apply_transaction env.config rewardbase env.own_state env.header tx cfg in
        (r.executor.header ≡ g.set_gas_used a.gas env.header)
        × ((err : g.TxError)
            → r.error ≡ some err
            → (r.receipt ≡ none)
              × SameAccounts r.executor.own_state env.own_state
              × (r.transaction
                  ≡ ite (g.error_discrete err g.insufficient_balance) tx (
                      ite
                        (g.error_discrete err g.total_time_limit_reached)
                        tx
                        (g.mark_unexecutable true tx))))
        × (r.error ≡ none
            → (is_some r.receipt ≡ true) × (r.executor.own_state ≡ a.left) × (r.transaction ≡ tx))
  unfolding commit_transaction
  commit_transaction_lem reverting env tx rewardbase cfg =
      by_outcome a.outcome (reverting env.config rewardbase env.own_state env.header tx cfg)
    where
      a : Attempt g.TxError
      a = g.apply_transaction env.config rewardbase env.own_state env.header tx cfg

      env' : Executor
      env' = record env { header = g.set_gas_used a.gas env.header }

      by_outcome :
          (o : g.TxError ⊎ e.Receipt)
          → SameAccounts (c.revert_to_snapshot (c.snapshot env.own_state) a.left) env.own_state
          → let r = finish_commit env' (c.snapshot env.own_state) tx a.left o in
            (r.executor.header ≡ g.set_gas_used a.gas env.header)
            × ((err : g.TxError)
                → r.error ≡ some err
                → (r.receipt ≡ none)
                  × SameAccounts r.executor.own_state env.own_state
                  × (r.transaction
                      ≡ ite (g.error_discrete err g.insufficient_balance) tx (
                          ite
                            (g.error_discrete err g.total_time_limit_reached)
                            tx
                            (g.mark_unexecutable true tx))))
            × (r.error ≡ none
                → (is_some r.receipt ≡ true)
                  × (r.executor.own_state ≡ a.left)
                  × (r.transaction ≡ tx))
      by_outcome (inl x) same = (
        refl,
        λ err p.
            let same_error : x ≡ err = cc in
            (refl, same, ap (λ y. mark_unless_retried y tx) same_error),
        λ p. cc,
      )
      by_outcome (inr x) same = (refl, λ err p. cc, λ p. (refl, refl, refl))

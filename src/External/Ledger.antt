-- ===== src/External/Ledger.antt =====
-- github.com/kaiachain/kaia, as the packages chain and storage use it: the errors and the gas of
-- ApplyTransaction, the encoding of hexadecimal texts, and Commit of `state.StateDB`.
use go_pevm.Shared.{ℕ, Bytes, Bool, ◌⊎◌}
use go_pevm.External.Kaia.{Kaia}
use go_pevm.External.Evm.{Evm}
use go_pevm.External.Chain.{Chain}

pub record Database (k : Kaia) : Type 1 where
  -- common.FromHex
  pub from_hex : Bytes → Bytes
  -- (*StateDB).Commit(true): the root, and the state that it leaves
  pub commit : k.StateDb → k.Hash × k.StateDb
  -- the entries of the journal of a *StateDB
  pub Change : Type 0

module _ ⦃k : Kaia⦄ ⦃e : Evm k⦄ where
  -- What ApplyTransaction leaves: the state, the gas used of the header, and an error or a receipt.
  pub record Attempt (TxError : Type 0) : Type 0 where
    pub left : k.StateDb
    pub gas : ℕ
    pub outcome : TxError ⊎ e.Receipt

  pub record Ledger (c : Chain) : Type 1 where
    pub Config : Type 0
    pub VmConfig : Type 0
    pub TxError : Type 0
    pub error_discrete : Discrete TxError
    -- vm.ErrInsufficientBalance and vm.ErrTotalTimeLimitReached
    pub insufficient_balance : TxError
    pub total_time_limit_reached : TxError
    -- the field GasUsed of a header
    pub set_gas_used : ℕ → c.Header → c.Header
    -- (*Transaction).MarkUnexecutable
    pub mark_unexecutable : Bool → e.Message → e.Message
    -- bc.ApplyTransaction; it counts the gas in the header that it is given
    pub apply_transaction :
        Config → k.Address → k.StateDb → c.Header → e.Message → VmConfig → Attempt TxError

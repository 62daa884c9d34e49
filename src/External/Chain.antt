-- ===== src/External/Chain.antt =====
-- github.com/kaiachain/kaia, as the processor uses it: `blockchain.BlockChain`, headers, and the
-- methods of `state.StateDB` for snapshots and the context of logs.
use go_pevm.Shared.{ℕ, ℤ, Bool, Option, List}
use go_pevm.External.Kaia.{Kaia}
use go_pevm.External.Evm.{Evm, Env, Call}

module _ ⦃k : Kaia⦄ ⦃e : Evm k⦄ where
  -- The calls of the tracer while a transaction is applied: calls with no CaptureStart before them,
  -- none if the EVM is not entered, or CaptureStart with its arguments, and the calls after it.
  pub data Calls : Type 0 where
    not_started : List Call → Calls
    started : Env → k.Address → k.Address → Bool → ℤ → List Call → Calls

  -- What ApplyTransaction does: the tracer is called, the state is left, the gas that is used in the
  -- end, and no result for an error. The callbacks return nothing, so the calls do not depend on
  -- the tracer.
  pub record Applied : Type 0 where
    pub tracer_calls : Calls
    pub left : k.StateDb
    pub gas : ℕ
    pub outcome : Option (e.Receipt × e.Trace)

  pub record Chain : Type 1 where
    pub Header : Type 0
    pub Snapshot : Type 0
    -- bc.Engine().Author(header), without its error, and header.Hash()
    pub author : Header → k.Address
    pub header_hash : Header → k.Hash
    -- (*Transaction).Hash
    pub tx_hash : e.Message → k.Hash
    -- methods of *StateDB
    pub snapshot : k.StateDb → Snapshot
    pub revert_to_snapshot : Snapshot → k.StateDb → k.StateDb
    pub set_tx_context : k.Hash → k.Hash → ℤ → k.StateDb → k.StateDb
    -- bc.ApplyTransaction with the chain's own configuration
    pub apply_transaction : k.Address → k.StateDb → Header → e.Message → ℕ → Applied

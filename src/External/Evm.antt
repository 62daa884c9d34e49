-- ===== src/External/Evm.antt =====
-- github.com/kaiachain/kaia, as the tracer uses it: messages, fees, words of the EVM's stack, and
-- the parts of `vm.EVM` and `vm.ScopeContext` that the callbacks look at.
use go_pevm.Shared.{ℕ, ℤ, Bool, List, Bytes}
use go_pevm.External.Kaia.{Kaia}

-- `vm.OpCode`, as far as the switch of CaptureState tells opcodes apart.
pub data OpCode : Type 0 where
  sload sstore extcodecopy extcodehash extcodesize balance call callcode selfdestruct : OpCode
  other : ℕ → OpCode

pub record Evm (k : Kaia) : Type 1 where
  pub Message : Type 0
  pub FeeRatio : Type 0
  pub Word : Type 0
  -- types.Receipt and vm.InternalTxTrace
  pub Receipt : Type 0
  pub Trace : Type 0
  -- methods of blockchain.Message; FeeRatio returns the ratio and whether there is one
  pub validated_fee_payer : Message → k.Address
  pub validated_sender : Message → k.Address
  pub fee_ratio : Message → FeeRatio × Bool
  pub gas : Message → ℕ
  -- types.CalcFeeWithRatio, the fee payer's part first
  pub calc_fee_with_ratio : FeeRatio → ℤ → ℤ × ℤ
  -- methods of uint256.Int
  pub bytes32 : Word → k.Hash
  pub bytes20 : Word → k.Address
  pub word_bytes : Word → Bytes
  -- vm.PrecompiledAddressCancun
  pub precompiled : List k.Address
  -- common.RightPadBytes
  pub right_pad_bytes : Bytes → ℤ → Bytes

module _ ⦃k : Kaia⦄ ⦃e : Evm k⦄ where
  -- `stack` is `scope.Stack.Data()` from its last element on, the top of the stack.
  pub record Scope : Type 0 where
    pub stack : List e.Word
    pub contract_address : k.Address
    pub caller_address : k.Address
    pub contract_value : ℤ

  -- The calls that the EVM makes of a tracer after CaptureStart: CaptureState and CaptureTxEnd.
  pub data Call : Type 0 where
    op_executed : OpCode → Scope → Call
    tx_ended : ℕ → Call

module _ ⦃k : Kaia⦄ where
  -- `env.GasPrice` and `env.StateDB`
  pub record Env : Type 0 where
    pub gas_price : ℤ
    pub state_db : k.StateDb

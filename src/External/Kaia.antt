-- ===== src/External/Kaia.antt =====
-- github.com/kaiachain/kaia, as the multiversion package uses it: `common.Hash`, `common.Address`
-- and `state.StateDB`. Texts are lists of bytes, and a `*big.Int` is an integer.
use go_pevm.Shared.{ℕ, ℤ, List, Bool}

pub record Kaia : Type 1 where
  pub Hash : Type 0
  pub Address : Type 0
  pub StateDb : Type 0
  pub hash_discrete : Discrete Hash
  pub address_discrete : Discrete Address
  -- common.Hash{} and common.Address{}
  pub zero_hash : Hash
  pub zero_address : Address
  -- (Hash).String, (Address).String, HexToHash, HexToAddress
  pub hash_string : Hash → List ℕ
  pub address_string : Address → List ℕ
  pub hex_to_hash : List ℕ → Hash
  pub hex_to_address : List ℕ → Address
  -- BytesToHash, BigToHash, (Hash).Bytes, (Hash).Big
  pub bytes_to_hash : List ℕ → Hash
  pub big_to_hash : ℤ → Hash
  pub hash_bytes : Hash → List ℕ
  pub hash_big : Hash → ℤ
  -- methods of *StateDB; the second group returns the state that the method leaves
  pub get_code_hash : StateDb → Address → Hash
  pub get_code_size : StateDb → Address → ℤ
  pub get_balance : StateDb → Address → ℤ
  pub get_nonce : StateDb → Address → ℕ
  -- no code under src/ calls it; the laws of Finalise are stated with it
  pub has_self_destructed : StateDb → Address → Bool
  pub get_state : StateDb → Address → Hash → Hash
  pub set_balance : Address → ℤ → StateDb → StateDb
  pub set_nonce : Address → ℕ → StateDb → StateDb
  pub set_state : Address → Hash → Hash → StateDb → StateDb
  pub finalise : Bool → Bool → StateDb → StateDb

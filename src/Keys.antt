-- ===== src/Keys.antt =====
-- multiversion/storage_key.go: a storage key is the text `address:slot`.
pub mod RoundTrip
use go_pevm.Shared.{
  ℕ, ℤ, pos, Bytes, codes, List, [], ◌∷◌, ◌++◌, ite, ℕ_discrete, set_bytes, int64_of_uint64,
  uint64_of_int64, int64_of_big,
}
use go_pevm.External.Kaia.{Kaia}

-- `type StorageKey string`
abbrev pub StorageKey : Type 0
StorageKey = Bytes

abbrev pub colon : ℕ
colon = 58

-- strings.Split(s, ":"), which returns at least one piece
abbrev pub onto_first : ℕ → List Bytes → List Bytes
onto_first c [] = (c ∷ []) ∷ []
onto_first c (piece ∷ rest) = (c ∷ piece) ∷ rest

unfoldable pub split : Bytes → List Bytes
split [] = [] ∷ []
split (c ∷ s) = let rest = split s in ite (ℕ_discrete c colon) ([] ∷ rest) (onto_first c rest)

module _ ⦃k : Kaia⦄ where
  open k use {Hash, Address, StateDb, hash_discrete}

  abbrev pub code_copy_key : Hash
  code_copy_key = k.bytes_to_hash (codes "codecopy")

  abbrev pub code_hash_key : Hash
  code_hash_key = k.bytes_to_hash (codes "codehash")

  abbrev pub code_size_key : Hash
  code_size_key = k.bytes_to_hash (codes "codesize")

  abbrev pub balance_key : Hash
  balance_key = k.bytes_to_hash (codes "balance")

  abbrev pub self_destruct_key : Hash
  self_destruct_key = k.bytes_to_hash (codes "selfdestruct")

  abbrev pub nonce_key : Hash
  nonce_key = k.bytes_to_hash (codes "nonce")

  unfoldable pub to_storage_key : Address → Hash → StorageKey
  to_storage_key a s = k.address_string a ++ colon ∷ k.hash_string s

  -- (StorageKey).Address and (StorageKey).Slot
  abbrev pub address_of_pieces : List Bytes → Address
  address_of_pieces [] = k.zero_address
  address_of_pieces (a ∷ rest) = k.hex_to_address a

  abbrev pub slot_of_pieces : List Bytes → Hash
  slot_of_pieces [] = k.zero_hash
  slot_of_pieces (a ∷ []) = k.zero_hash
  slot_of_pieces (a ∷ s ∷ rest) = k.hex_to_hash s

  unfoldable pub address : StorageKey → Address
  unfolding split
  address key = address_of_pieces (split key)

  unfoldable pub slot : StorageKey → Hash
  unfolding split
  slot key = slot_of_pieces (split key)

  -- The switch of GetValue on the slot; the first case that is equal is taken.
  unfoldable pub value_in : StateDb → Address → Hash → Hash
  value_in st a s = ite (hash_discrete s code_copy_key) (k.get_code_hash st a) (
      ite (hash_discrete s code_hash_key) (k.get_code_hash st a) (
        ite (hash_discrete s code_size_key) (k.big_to_hash (k.get_code_size st a)) (
          ite (hash_discrete s balance_key) (k.big_to_hash (k.get_balance st a)) (
            ite (hash_discrete s nonce_key) (k.big_to_hash (int64_of_uint64 (k.get_nonce st a)))
              (ite (hash_discrete s self_destruct_key) k.zero_hash (k.get_state st a s))))))

  -- (StorageKey).GetValue
  unfoldable pub get_value : StorageKey → StateDb → Hash
  get_value key st = value_in st (address key) (slot key)

  -- The switch of SetValue.
  unfoldable pub set_value_in : Address → Hash → Hash → StateDb → StateDb
  set_value_in a s v st =
      ite (hash_discrete s balance_key) (k.set_balance a (set_bytes (k.hash_bytes v)) st) (
        ite (hash_discrete s nonce_key)
          (k.set_nonce a (uint64_of_int64 (int64_of_big (k.hash_big v))) st) (k.set_state a s v st))

  -- (StorageKey).SetValue
  unfoldable pub set_value : StorageKey → Hash → StateDb → StateDb
  set_value key v st = set_value_in (address key) (slot key) v st

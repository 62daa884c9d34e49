-- ===== src/Storage.antt =====
-- storage/storage.go: Has, and the accounts that CommitPreState writes to a state. The file and its
-- decoding are left out: the accounts are what the decoder has put into `accounts`.
pub mod Journal
pub mod Slots
pub mod Prestate
use go_pevm.Shared.{
  ℤ, Bool, true, false, ite, List, [], ◌∷◌, Bytes, Map, set_bytes, uint64_of_int64,
}
use go_pevm.External.Kaia.{Kaia}
use go_pevm.External.Ledger.{Database}

-- A `Balance`, and the keys and values of `Storage`, are hexadecimal texts.
pub record Account : Type 0 where
  pub balance : Bytes
  pub nonce : ℤ
  pub slots : Map Bytes Bytes

-- The accounts in the order of a `range`.
abbrev pub Accounts : Type 0
Accounts = Map Bytes Account

module _ ⦃k : Kaia⦄ where
  unfoldable pub has : k.StateDb → k.Address → k.Hash → Bool
  has st a s = ite (k.hash_discrete (k.get_state st a s) k.zero_hash) false true

  -- `for key, value := range account.Storage`
  unfoldable pub set_slots : k.Address → Map Bytes Bytes → k.StateDb → k.StateDb
  set_slots a [] st = st
  set_slots a ((key, value) ∷ l) st =
      set_slots a l (k.set_state a (k.hex_to_hash key) (k.hex_to_hash value) st)

  module _ ⦃d : Database k⦄ where
    -- The body of `for addr, account := range accounts`.
    unfoldable pub set_account : Bytes → Account → k.StateDb → k.StateDb
    unfolding set_slots
    set_account addr account st =
        let a = k.hex_to_address addr in
        let st1 = k.set_balance a (set_bytes (d.from_hex account.balance)) st in
        let st2 = k.set_nonce a (uint64_of_int64 account.nonce) st1 in set_slots a account.slots st2

    unfoldable pub set_accounts : Accounts → k.StateDb → k.StateDb
    unfolding set_account
    set_accounts [] st = st
    set_accounts ((addr, account) ∷ l) st = set_accounts l (set_account addr account st)

    -- CommitPreState; the root comes first.
    unfoldable pub commit_pre_state : Accounts → k.StateDb → k.Hash × k.StateDb
    unfolding set_accounts
    commit_pre_state accounts st = d.commit (set_accounts accounts st)

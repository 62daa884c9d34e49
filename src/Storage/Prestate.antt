-- ===== src/Storage/Prestate.antt =====
-- storage/storage.go: the accounts that CommitPreState leaves in the state that it commits.
use go_pevm.Shared.{
  ◌≡◌, ◌≢◌, refl, sym, ap, ◌∙◌, arith, true, false, ite, some, [], ◌∷◌, Bytes, set_bytes,
  uint64_of_int64, get, bytes_eq, ◌=?◌,
}
use go_pevm.External.Kaia.{Kaia}
use go_pevm.External.Ledger.{Database}
use go_pevm.Store.Flush.Accounts.{HasAccounts}
use go_pevm.Storage.{Account, Accounts, has, set_account, set_accounts, commit_pre_state}
use go_pevm.Storage.Slots.{
  IsSlotFree, AreSlotsApart, balance-set_slots, nonce-set_slots, state-set_slots-other,
  state-set_slots-free, state-set_slots-get,
}

module _ ⦃k : Kaia⦄ where
  abbrev pub IsFree : k.Address → Accounts → Type 0
  IsFree a [] = Unit
  IsFree a ((addr, account) ∷ l) = (k.hex_to_address addr ≢ a) × IsFree a l

  -- The texts stand for addresses that are all different, and so do the slots of each account.
  abbrev pub AreApart : Accounts → Type 0
  AreApart [] = Unit
  AreApart ((addr, account) ∷ l) =
      IsFree (k.hex_to_address addr) l × AreSlotsApart account.slots × AreApart l

module _ ⦃k : Kaia⦄ ⦃d : Database k⦄ where
  -- The balance, the nonce and the slots of an account are those of the file.
  pub record IsWrittenDown (a : k.Address) (account : Account) (before st : k.StateDb)
      : Type 0 where
    pub same_balance : k.get_balance st a ≡ set_bytes (d.from_hex account.balance)
    pub same_nonce : k.get_nonce st a ≡ uint64_of_int64 account.nonce
    pub same_slots :
        (key value : Bytes)
        → get key account.slots ≡ some value
        → (k.get_state st a (k.hex_to_hash key) ≡ k.hex_to_hash value)
          × (has st a (k.hex_to_hash key)
              ≡ ite (k.hash_discrete (k.hex_to_hash value) k.zero_hash) false true)
    pub other_slots :
        (s : k.Hash) → IsSlotFree s account.slots → k.get_state st a s ≡ k.get_state before a s

  pub record IsKept (a : k.Address) (before st : k.StateDb) : Type 0 where
    pub same_balance : k.get_balance st a ≡ k.get_balance before a
    pub same_nonce : k.get_nonce st a ≡ k.get_nonce before a
    pub same_slots : (s : k.Hash) → k.get_state st a s ≡ k.get_state before a s

  module _ (accounts : HasAccounts k) where
    set_account-IsKept :
        (a : k.Address) (addr : Bytes) (account : Account) (st : k.StateDb)
        → k.hex_to_address addr ≢ a
        → IsKept a st (set_account addr account st)
    unfolding set_account
    set_account-IsKept a addr account st h =
        let x = k.hex_to_address addr in
        let n = set_bytes (d.from_hex account.balance) in
        let m = uint64_of_int64 account.nonce in
        let st1 = k.set_balance x n st in
        let c = accounts.cells in
        record {
          same_balance =
              balance-set_slots accounts x a account.slots _
              ∙ c.get_balance-set_nonce st1 x a m
              ∙ c.get_balance-set_balance st x a n
              ∙ ground (arith, h);
          same_nonce =
              nonce-set_slots accounts x a account.slots _
              ∙ accounts.get_nonce-set_nonce st1 x a m
              ∙ ground (arith, h, accounts.get_nonce-set_balance st x a n);
          same_slots = λ s.
              state-set_slots-other accounts x a s account.slots _ h
              ∙ c.get_state-set_nonce st1 x a s m
              ∙ c.get_state-set_balance st x a s n;
        }

    set_accounts-IsKept :
        (a : k.Address) (l : Accounts) (st : k.StateDb)
        → IsFree a l
        → IsKept a st (set_accounts l st)
    unfolding set_accounts
    set_accounts-IsKept a [] st h = record {
      same_balance = refl;
      same_nonce = refl;
      same_slots = λ s. refl;
    }
    set_accounts-IsKept a ((addr, account) ∷ l) st h =
        let rest = set_accounts-IsKept a l (set_account addr account st) h.1 in
        let one = set_account-IsKept a addr account st h.0 in
        record {
          same_balance = rest.same_balance ∙ one.same_balance;
          same_nonce = rest.same_nonce ∙ one.same_nonce;
          same_slots = λ s. rest.same_slots s ∙ one.same_slots s;
        }

    set_account-IsWrittenDown :
        (addr : Bytes) (account : Account) (st st' : k.StateDb)
        → AreSlotsApart account.slots
        → IsKept (k.hex_to_address addr) (set_account addr account st) st'
        → IsWrittenDown (k.hex_to_address addr) account st st'
    unfolding set_account has
    set_account-IsWrittenDown addr account st st' h kept =
        let x = k.hex_to_address addr in
        let n = set_bytes (d.from_hex account.balance) in
        let m = uint64_of_int64 account.nonce in
        let st1 = k.set_balance x n st in
        let c = accounts.cells in
        record {
          same_balance =
              kept.same_balance
              ∙ balance-set_slots accounts x x account.slots _
              ∙ c.get_balance-set_nonce st1 x x m
              ∙ c.get_balance-set_balance st x x n
              ∙ ground arith;
          same_nonce =
              kept.same_nonce
              ∙ nonce-set_slots accounts x x account.slots _
              ∙ accounts.get_nonce-set_nonce st1 x x m
              ∙ ground arith;
          same_slots = λ key value g.
              let there =
                kept.same_slots (k.hex_to_hash key)
                ∙ state-set_slots-get accounts x key value account.slots _ h g in
              (there, ap (λ y. ite (k.hash_discrete y k.zero_hash) false true) there);
          other_slots = λ s f.
              kept.same_slots s
              ∙ state-set_slots-free accounts x s account.slots _ f
              ∙ c.get_state-set_nonce st1 x x s m
              ∙ c.get_state-set_balance st x x s n;
        }

    from_kept :
        (addr : Bytes) (account : Account) (st before st' : k.StateDb)
        → IsKept (k.hex_to_address addr) st before
        → IsWrittenDown (k.hex_to_address addr) account before st'
        → IsWrittenDown (k.hex_to_address addr) account st st'
    from_kept addr account st before st' kept h = record {
      same_balance = h.same_balance;
      same_nonce = h.same_nonce;
      same_slots = h.same_slots;
      other_slots = λ s f. h.other_slots s f ∙ kept.same_slots s;
    }

    apart :
        (addr : Bytes) (account : Account) (x : k.Address) (l : Accounts)
        → IsFree x l
        → get addr l ≡ some account
        → x ≢ k.hex_to_address addr
    unfolding get
    apart addr account x [] h g = cc
    apart addr account x ((y, z) ∷ l) h g = elim (addr =? y) [
      | yes e ↦ λ p. h.0 (ap k.hex_to_address (sym e) ∙ sym p)
      | no n ↦ apart addr account x l h.1 (ground (arith, n, g))
    ]

    -- The accounts of CommitPreState, where no two texts stand for one address or for one slot of an
    -- account, whatever their order: in the state just before Commit, each account has the balance, the
    -- nonce and the slots of the file, Has finds of these slots those whose value is not zero, and its
    -- other slots are as before; every account that is not in the file is as before.
    pub commit_pre_state_lem :
        (accounts : Accounts) (st : k.StateDb)
        → AreApart accounts
        → (st' : k.StateDb) × (commit_pre_state accounts st ≡ d.commit st')
          × ((addr : Bytes) (account : Account)
              → get addr accounts ≡ some account
              → IsWrittenDown (k.hex_to_address addr) account st st')
          × ((a : k.Address) → IsFree a accounts → IsKept a st st')
    unfolding commit_pre_state
    commit_pre_state_lem accounts st h = (
      set_accounts accounts st,
      refl,
      λ addr account g. all_set accounts st h addr account g,
      λ a f. set_accounts-IsKept a accounts st f,
    )
      where
        all_set :
            (l : Accounts) (st : k.StateDb)
            → AreApart l
            → (addr : Bytes) (account : Account) → get addr l ≡ some account
            → IsWrittenDown (k.hex_to_address addr) account st (set_accounts l st)
        all_set [] st h addr account g = absurd (unfold get in cc)
        all_set ((y, z) ∷ l) st h addr account g = elim (addr =? y) [
          | yes e ↦ let same : z ≡ account = unfold get in ground (arith, e, g) in here e same
          | no n ↦
              let g' : get addr l ≡ some account = unfold get in ground (arith, n, g) in
              from_kept addr account st (set_account y z st) _
                (set_account-IsKept (k.hex_to_address addr) y z st
                  (apart addr account (k.hex_to_address y) l h.0 g'))
                (all_set l (set_account y z st) h.2 addr account g')
        ]
          where
            here :
                addr ≡ y
                → z ≡ account
                → IsWrittenDown
                    (k.hex_to_address addr)
                    account
                    st
                    (set_accounts l (set_account y z st))
            here e same =
                rw (e, sym same)
                  (set_account-IsWrittenDown y z st (set_accounts l (set_account y z st)) h.1
                    (set_accounts-IsKept (k.hex_to_address y) l (set_account y z st) h.0))

-- ===== src/Examples/StorageRuns.antt =====
-- The theorems on the accounts of a block's first state, on sequential execution, and on the
-- scheduler's goroutines at concrete inputs.
use go_pevm.Shared.{
  ◌≡◌, refl, pos, true, none, some, List, [], ◌∷◌, arith, ite, inl, is_some, ◌+◌, get, bytes_eq,
  ℕ_discrete, ℕ,
}
use go_pevm.External.Ledger.{Database, Ledger}
use go_pevm.External.Chain.{Chain, not_started}
use go_pevm.Storage.{Account, Accounts, commit_pre_state}
use go_pevm.Storage.Prestate.{IsFree, IsWrittenDown, IsKept, AreApart, commit_pre_state_lem}
use go_pevm.Chain.{Executor, SameAccounts, IsReverting, commit_transaction, commit_transaction_lem}
use go_pevm.Examples.Packages.{Cells, small, small_evm, small_accounts, cells}

instance abbrev small_database : Database small
small_database = record { from_hex = λ b. b; commit = λ st. (0, st); Change = ℕ }

abbrev accounts : Accounts
accounts =
    (
      60 ∷ [],
      record {
        balance = 9 ∷ [];
        nonce = pos 2;
        slots = (61 ∷ [], 70 ∷ []) ∷ (62 ∷ [], 59 ∷ []) ∷ [];
      },
    )
    ∷ (66 ∷ [], record { balance = []; nonce = pos 0; slots = [] })
    ∷ []

accounts-AreApart : AreApart accounts
accounts-AreApart = ((λ p. omega arith, tt), ((λ p. omega arith, tt), (tt, tt)), (tt, tt, tt))

commit_pre_state_lem_example :
    (st' : Cells) × (commit_pre_state accounts cells ≡ small_database.commit st')
    × ((addr : List ℕ) (account : Account)
        → get addr accounts ≡ some account
        → IsWrittenDown (small.hex_to_address addr) account cells st')
    × ((a : ℕ) → IsFree a accounts → IsKept a cells st')
commit_pre_state_lem_example = commit_pre_state_lem small_accounts accounts cells accounts-AreApart

-- A snapshot is the whole state.
instance abbrev chain : Chain
chain = record {
  Header = ℕ;
  Snapshot = Cells;
  author = λ h. h;
  header_hash = λ h. h;
  tx_hash = λ tx. tx;
  snapshot = λ st. st;
  revert_to_snapshot = λ old st. old;
  set_tx_context = λ h g i st. st;
  apply_transaction =
      λ a st h tx n. record { tracer_calls = not_started []; left = st; gas = n; outcome = none };
}

-- Every transaction takes the balance of account 7, and fails with the error of its number.
instance abbrev ledger : Ledger chain
ledger = record {
  Config = ℕ;
  VmConfig = ℕ;
  TxError = ℕ;
  error_discrete = ℕ_discrete;
  insufficient_balance = 1;
  total_time_limit_reached = 2;
  set_gas_used = λ n h. n;
  mark_unexecutable = λ b tx. tx + 100;
  apply_transaction = λ config a st h tx cfg. record {
    left = small.set_balance 7 (pos 0) st;
    gas = h + 5;
    outcome = inl tx;
  };
}

abbrev executor : Executor
executor = record { config = 0; own_state = cells; header = 10 }

ledger-IsReverting : IsReverting
ledger-IsReverting config a st h tx cfg = record {
  balances = λ x. refl;
  nonces = λ x. refl;
  slots = λ x y. refl;
}

commit_transaction_lem_example :
    ((commit_transaction executor 3 0 0).executor.header ≡ 15)
    × ((err : ℕ)
        → (commit_transaction executor 3 0 0).error ≡ some err
        → ((commit_transaction executor 3 0 0).receipt ≡ none)
          × SameAccounts (commit_transaction executor 3 0 0).executor.own_state cells
          × ((commit_transaction executor 3 0 0).transaction
              ≡ ite (ℕ_discrete err 1) 3 (ite (ℕ_discrete err 2) 3 103)))
    × ((commit_transaction executor 3 0 0).error ≡ none
        → (is_some (commit_transaction executor 3 0 0).receipt ≡ true)
          × ((commit_transaction executor 3 0 0).executor.own_state
              ≡ small.set_balance 7 (pos 0) cells)
          × ((commit_transaction executor 3 0 0).transaction ≡ 3))
commit_transaction_lem_example = commit_transaction_lem ledger-IsReverting executor 3 0 0

-- ===== src/Scheduler/Serial.antt =====
-- scheduler/scheduler.go: what a run has to do with one in which the transactions take turns. This
-- file has the statements; the children follow the steps of ProcessAll.
pub mod Local
pub mod Stores
pub mod Steps
pub mod Checks
pub mod Phases
pub mod Executions
pub mod Validations
pub mod Fronts
pub mod Flushes
pub mod Rounds
pub mod Entries
pub mod Ends
pub mod Results
use go_pevm.Shared.{
  ℕ, ℤ, pos, ◌<◌, ◌≤◌, ◌≡◌, ◌≢◌, ◌⊎◌, Bool, true, false, Option, none, some, List, [], ◌∷◌, get,
  is_some, ite, ◌=?◌, ℤ_eq, bytes_eq, if◌then◌else◌,
}
use go_pevm.External.Kaia.{Kaia}
use go_pevm.External.BTree.{BTree}
use go_pevm.External.Evm.{Evm}
use go_pevm.Versions.{ValueItem, less}
use go_pevm.Keys.{StorageKey, get_value}
use go_pevm.Store.{Store, ReadSet, get_readset, get_latest_before_index}
use go_pevm.Store.Versioned.{fresh}
use go_pevm.Store.Invariant.{IsTracked, version, lists}
use go_pevm.Store.Validation.Verdicts.{readset_of}
use go_pevm.Store.Flush.Accounts.{IsSteady, IsHeld}
use go_pevm.Store.Flush.Views.{IsMade, IsValueKey}
use go_pevm.Scheduler.{DeliverTxTask, is_validated_status}
use go_pevm.Scheduler.Statuses.{has_run}
use go_pevm.Scheduler.Rounds.{DeliverTxFunc, World, task_at}
use go_pevm.Scheduler.Steps.{IsPrepared}

module _ ⦃k : Kaia⦄ ⦃e : Evm k⦄ ⦃b : BTree less⦄ where
  open k use {Hash, StateDb}

  -- The value that transaction `i` has to read of a key, if the transactions before it are those
  -- that wrote the versions of the store, and `st` is the state before the block: the version of the
  -- nearest transaction before, or the value in `st`; nothing if the version is an estimate.
  abbrev pub serial_value : StateDb → ℤ → StorageKey → Store → Option Hash
  serial_value st i q s = elim (get_latest_before_index i q s) [
    | none ↦ some (get_value q st)
    | some v ↦ if v.estimate then none else some v.value
  ]

  -- Every key of the readset was read with one value, the one that it had to be.
  abbrev pub ReadsSerially : StateDb → ℤ → ReadSet → Store → Type 0
  ReadsSerially st i rs s =
      (q : StorageKey) (vs : List Hash)
      → get q rs ≡ some vs
      → (v : Hash) × (vs ≡ v ∷ []) × (serial_value st i q s ≡ some v)

  -- One delivery of the task's transaction gave its response, its versions and its readset.
  pub record IsDelivered (deliver : DeliverTxFunc) (t : DeliverTxTask) (s : Store) : Type 0 where
    pub asked : DeliverTxTask
    pub seen : Store
    pub prepared : IsPrepared asked seen
    pub same_tx : asked.tx ≡ t.tx
    pub same_index : asked.absolute_index ≡ t.absolute_index
    pub responded : is_some t.response ≡ true
    pub response : (deliver asked seen).result ≡ t.response
    pub reads : readset_of t.absolute_index s ≡ (deliver asked seen).traced.readset
    pub writes :
        (q : StorageKey)
        → version q t.absolute_index s
          ≡ fresh t.absolute_index
              (deliver asked seen).traced.incarnation
              (get q (deliver asked seen).traced.writeset)

  -- A delivery reads only balances, nonces and slots, and every key that it writes was made by
  -- ToStorageKey.
  pub record UsesValues (deliver : DeliverTxFunc) : Type 0 where
    pub reads :
        (t : DeliverTxTask) (s : Store) (q : StorageKey) (vs : List Hash)
        → IsPrepared t s
        → get q (deliver t s).traced.readset ≡ some vs
        → IsValueKey q
    pub writes :
        (t : DeliverTxTask) (s : Store) (q : StorageKey) (v : Hash)
        → IsPrepared t s
        → get q (deliver t s).traced.writeset ≡ some v
        → IsMade q

  -- A delivery writes only balances, nonces, and slots of accounts that have code in the state.
  pub record WritesHeld (st : StateDb) (deliver : DeliverTxFunc) : Type 0 where
    pub held :
        (t : DeliverTxTask) (s : Store) (q : StorageKey) (v : Hash)
        → IsPrepared t s
        → get q (deliver t s).traced.writeset ≡ some v
        → IsHeld st q

  abbrev pub IsAt : ℕ → World → DeliverTxTask → Type 0
  IsAt p w t = task_at p w.tasks ≡ some t

  -- What holds of the store between two steps.
  pub record IsRegular (s : Store) : Type 0 where
    pub tracked : IsTracked s
    pub made : (q : StorageKey) (j : ℤ) → lists q j s.tx_writeset_keys ≡ true → IsMade q
    pub values :
        (j : ℤ) (q : StorageKey) (vs : List Hash) → get q (readset_of j s) ≡ some vs → IsValueKey q

  -- A transaction before position `last` has a version of the key.
  abbrev pub IsWritten : ℕ → StorageKey → Store → Type 0
  IsWritten last q s = (j : ℕ) × (v : ValueItem) × (j < last) × (version q (pos j) s ≡ some v)

  abbrev pub AllRan : ℕ → World → Type 0
  AllRan p w = (j : ℕ) (u : DeliverTxTask) → j < p → IsAt j w u → has_run u.status ≡ true

  -- The invariant of the parallel mode. `st` is the state before the block, `last` is lastStoreIdx,
  -- and `Checked` says of which positions it is known that, if they are validated and all before
  -- them have run, then they have read serially.
  pub record IsSerial (deliver : DeliverTxFunc) (st : StateDb) (last : ℕ) (Checked : ℕ → Type 0)
      (w : World) : Type 0 where
    pub placed : (p : ℕ) (t : DeliverTxTask) → IsAt p w t → t.absolute_index ≡ pos p
    pub regular : IsRegular w.store
    pub delivered :
        (p : ℕ) (t : DeliverTxTask)
        → IsAt p w t
        → has_run t.status ≡ true
        → IsDelivered deliver t w.store
    pub steady : IsSteady st w.store.parent_store
    pub flushed :
        (q : StorageKey)
        → IsValueKey q
        → (get_value q w.store.parent_store ≡ get_value q st) ⊎ IsWritten last q w.store
    pub serial :
        (p : ℕ) (t : DeliverTxTask)
        → Checked p
        → IsAt p w t
        → is_validated_status t.status ≡ true
        → AllRan p w
        → ReadsSerially st (pos p) (readset_of (pos p) w.store) w.store

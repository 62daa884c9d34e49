-- ===== src/Scheduler/Disjoint.antt =====
-- scheduler/scheduler.go: blocks whose transactions read nothing that an earlier one writes. This file
-- has the statements; the children follow the first round of ProcessAll.
pub mod Deliveries
pub mod Executions
pub mod Validations
pub mod Rounds
pub mod Blocks
use go_pevm.Shared.{
  ℕ, ℤ, pos, ◌<◌, ◌≡◌, Bool, true, false, List, [], ◌∷◌, Option, none, some, get, is_some, bytes_eq,
  IsMap, ℤ_eq,
}
use go_pevm.External.Kaia.{Kaia}
use go_pevm.External.BTree.{BTree}
use go_pevm.External.Evm.{Evm}
use go_pevm.Versions.{ValueItem, less}
use go_pevm.Keys.{StorageKey, get_value}
use go_pevm.Store.{Store, ReadSet}
use go_pevm.Store.Invariant.{IsTracked, version}
use go_pevm.Store.Validation.Verdicts.{readset_of}
use go_pevm.Scheduler.{DeliverTxTask, is_validated_status}
use go_pevm.Scheduler.Statuses.{has_run}
use go_pevm.Scheduler.Rounds.{Delivery, DeliverTxFunc, World}
use go_pevm.Scheduler.Positions.{size}
use go_pevm.Scheduler.Steps.{IsPrepared}
use go_pevm.Scheduler.Serial.{IsAt}

module _ ⦃k : Kaia⦄ ⦃e : Evm k⦄ ⦃b : BTree less⦄ (Writes : ℕ → StorageKey → Type 0) where
  -- Each version is of a key that its transaction may write.
  abbrev pub IsClear : Store → Type 0
  IsClear s =
      (q : StorageKey) (j : ℤ) (v : ValueItem)
      → version q j s ≡ some v
      → (n : ℕ) × (j ≡ pos n) × Writes n q

  -- A readset with the values of the state, of keys that no transaction before `i` may write.
  pub record IsApart (i : ℕ) (st : k.StateDb) (rs : ReadSet) : Type 0 where
    pub is_map : IsMap rs
    pub single : (q : StorageKey) (vs : List k.Hash) → get q rs ≡ some vs → vs ≡ get_value q st ∷ []
    pub free :
        (q : StorageKey) (vs : List k.Hash) (j : ℕ) → get q rs ≡ some vs → j < i → Writes j q → ⊥

  -- If no transaction has written but what it may write, a delivery has a response, does not abort,
  -- writes only what its transaction may write, and reads, each key once and from the state, only
  -- what no transaction before it may write.
  pub record IsDisjoint (deliver : DeliverTxFunc) : Type 0 where
    pub answers :
        (i : ℕ) (t : DeliverTxTask) (s : Store)
        → IsPrepared t s
        → t.absolute_index ≡ pos i
        → IsClear s
        → is_some (deliver t s).result ≡ true
    pub no_abort :
        (i : ℕ) (t : DeliverTxTask) (s : Store)
        → IsPrepared t s
        → t.absolute_index ≡ pos i
        → IsClear s
        → (deliver t s).traced.aborted_channel.buffered ≡ []
    pub writes :
        (i : ℕ) (t : DeliverTxTask) (s : Store) (q : StorageKey) (v : k.Hash)
        → IsPrepared t s
        → t.absolute_index ≡ pos i
        → IsClear s
        → get q (deliver t s).traced.writeset ≡ some v
        → Writes i q
    pub reads :
        (i : ℕ) (t : DeliverTxTask) (s : Store)
        → IsPrepared t s
        → t.absolute_index ≡ pos i
        → IsClear s
        → IsApart i s.parent_store (deliver t s).traced.readset

  -- The first round in the parallel mode: the tasks of `Done` have run, those of `Checked` are
  -- validated, and no task has been run again.
  pub record IsFirst (st : k.StateDb) (n : ℕ) (Done Checked : ℕ → Type 0) (w : World) : Type 0 where
    pub parallel : w.synchronous ≡ false
    pub once : w.max_incarnation ≡ 0
    pub placed : (p : ℕ) (t : DeliverTxTask) → IsAt p w t → t.absolute_index ≡ pos p
    pub same_size : size w.tasks ≡ n
    pub tracked : IsTracked w.store
    pub clear : IsClear w.store
    pub parent : w.store.parent_store ≡ st
    pub ran :
        (p : ℕ) (t : DeliverTxTask)
        → Done p
        → IsAt p w t
        → (has_run t.status ≡ true) × IsApart p st (readset_of (pos p) w.store)
    pub checked :
        (p : ℕ) (t : DeliverTxTask) → Checked p → IsAt p w t → is_validated_status t.status ≡ true

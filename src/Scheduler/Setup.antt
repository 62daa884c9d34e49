-- ===== src/Scheduler/Setup.antt =====
-- scheduler/scheduler.go: NewScheduler, the store that ProcessAll starts with, and the number of
-- goroutines that execute.
use go_pevm.Shared.{ℕ, ℤ, pos, negsuc, ◌≤◌, arith, ◌||◌, Option, none, some, lt_int, if◌then◌else◌}
use go_pevm.External.Kaia.{Kaia}
use go_pevm.External.BTree.{BTree}
use go_pevm.External.Evm.{Evm}
use go_pevm.Versions.{less}
use go_pevm.Store.{Store, new_multi_version_store}
use go_pevm.Scheduler.Rounds.{DeliverTxFunc}

-- A negative number stands for none.
abbrev magnitude : ℤ → ℕ
magnitude (pos n) = n
magnitude (negsuc n) = 0

-- `workers` of ProcessAll, for a number of tasks.
unfoldable pub worker_count : ℤ → ℕ → ℕ
worker_count workers n =
    if lt_int workers (pos 1) || lt_int (pos n) workers then n else magnitude workers

module _ ⦃k : Kaia⦄ ⦃e : Evm k⦄ ⦃b : BTree less⦄ where
  -- The scheduler before ProcessAll; `none` is a nil store.
  pub record Setup : Type 0 where
    pub deliver_tx : DeliverTxFunc
    pub workers : ℤ
    pub multi_version_stores : Option Store
    pub own_state : k.StateDb

  unfoldable pub new_scheduler : k.StateDb → ℤ → DeliverTxFunc → Setup
  new_scheduler st workers deliver = record {
    deliver_tx = deliver;
    workers = workers;
    multi_version_stores = none;
    own_state = st;
  }

  unfoldable pub init_multi_version_stores : Setup → Setup
  init_multi_version_stores s = elim s.multi_version_stores [
    | none ↦ record s { multi_version_stores = some (new_multi_version_store s.own_state) }
    | some store ↦ s
  ]

-- There is a goroutine that executes whenever there is a task, and there are no more than tasks, also
-- if the number that was asked for is zero, negative or larger.
pub worker_count_between :
    (workers : ℤ) (n : ℕ) → (worker_count workers n ≤ n) × (1 ≤ n → 1 ≤ worker_count workers n)
unfolding worker_count
worker_count_between (pos m) n = (ground arith, λ h. ground (arith, h))
worker_count_between (negsuc m) n = (ground arith, λ h. ground (arith, h))

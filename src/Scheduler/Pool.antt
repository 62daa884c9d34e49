-- ===== src/Scheduler/Pool.antt =====
-- scheduler/scheduler.go: the goroutines and the channel behind executeAll. The tasks of
-- a round are sent to a channel, workers take them from it, and a WaitGroup counts those that are
-- left. A task is run between the step that takes it and the step that finishes it.
pub mod Runs
pub mod Results
use go_pevm.Shared.{
  ℕ, zero, suc, ◌+◌, ◌-◌, ℤ, ◌≡◌, Option, none, some, List, [], ◌∷◌, ◌++◌, ltb, if◌then◌else◌,
}
use go_pevm.Scheduler.Positions.{size}
use go_pevm.Scheduler.Setup.{worker_count}

pub record Pool : Type 0 where
  -- what is still to be sent
  pub unsent : List ℕ
  -- what the channel holds, the oldest first, and how many it takes
  pub channel : List ℕ
  pub capacity : ℕ
  -- the workers at their select
  pub idle : ℕ
  -- what workers run
  pub busy : List ℕ
  -- what was run, the first one first
  pub finished : List ℕ
  -- the counter of the WaitGroup
  pub waited : ℕ

-- What ProcessAll sets up for `n` tasks, and wg.Add.
unfoldable pub new_pool : ℤ → ℕ → List ℕ → Pool
unfolding worker_count
new_pool workers n tasks = record {
  unsent = tasks;
  channel = [];
  capacity = n;
  idle = worker_count workers n;
  busy = [];
  finished = [];
  waited = size tasks;
}

-- `s.executeCh <- work`, which waits while the channel is full
unfoldable pub send_work : Pool → Option Pool
send_work w = elim w.unsent [
  | [] ↦ none
  | p ∷ l ↦
      if ltb (size w.channel) w.capacity
      then some (record w { unsent = l; channel = w.channel ++ p ∷ [] })
      else none
]

abbrev pub one_less : ℕ → Option ℕ
one_less zero = none
one_less (suc n) = some n

-- `case work := <-ch` of a worker
unfoldable pub take_work : Pool → Option Pool
take_work w = elim w.channel [
  | [] ↦ none
  | p ∷ l ↦ elim (one_less w.idle) [
    | none ↦ none
    | some n ↦ some (record w { channel = l; idle = n; busy = p ∷ w.busy })
  ]
]

-- The work at a position among those that are run, and the others.
unfoldable pub taken_out : ℕ → List ℕ → Option (ℕ × List ℕ)
taken_out i [] = none
taken_out zero (p ∷ l) = some (p, l)
taken_out (suc i) (p ∷ l) =
    let rest = taken_out i l in elim rest [ none ↦ none | some r ↦ some (r.0, p ∷ r.1) ]

-- The end of a work, with wg.Done; the worker is back at its select.
unfoldable pub finish_work : ℕ → Pool → Option Pool
unfolding taken_out
finish_work i w = elim (taken_out i w.busy) [
  | none ↦ none
  | some r ↦ some (record w {
    busy = r.1;
    idle = suc w.idle;
    finished = w.finished ++ r.0 ∷ [];
    waited = w.waited - 1;
  })
]

pub data Step : Pool → Pool → Type 0 where
  sends : (w w' : Pool) → send_work w ≡ some w' → Step w w'
  takes : (w w' : Pool) → take_work w ≡ some w' → Step w w'
  finishes : (i : ℕ) (w w' : Pool) → finish_work i w ≡ some w' → Step w w'

-- `n` steps, in whatever order.
pub data Steps : ℕ → Pool → Pool → Type 0 where
  none_yet : (w : Pool) → Steps 0 w w
  then_step : (n : ℕ) (w v u : Pool) → Steps n w v → Step v u → Steps (suc n) w u

-- ===== src/Examples/PoolRuns.antt =====
-- The theorems on the workers of a round at concrete inputs.
use go_pevm.Shared.{ℕ, ◌*◌, ◌≤◌, ◌≡◌, refl, ◌⊎◌, pos, List, [], ◌∷◌, arith}
use go_pevm.Scheduler.Serial.Phases.{AllOf}
use go_pevm.Scheduler.Pool.{
  Pool, new_pool, Step, sends, takes, finishes, Steps, none_yet, then_step, send_work, take_work,
  finish_work, taken_out,
}
use go_pevm.Examples.Packages.{small, small_evm}
use go_pevm.Examples.Trees.{list_tree}
use go_pevm.Scheduler.Pool.Results.{count, pool_goes_on, pool_runs_all}
use go_pevm.Scheduler.Setup.{worker_count}

-- Two workers run the tasks 4 and 5 of a block of six, and the later one is finished first.
abbrev started : Pool
started = new_pool (pos 2) 6 (4 ∷ 5 ∷ [])

abbrev pool : List ℕ → List ℕ → ℕ → List ℕ → List ℕ → ℕ → Pool
pool unsent channel idle busy finished waited = record {
  unsent = unsent;
  channel = channel;
  capacity = 6;
  idle = idle;
  busy = busy;
  finished = finished;
  waited = waited;
}

abbrev one_sent : Pool
one_sent = pool (5 ∷ []) (4 ∷ []) 2 [] [] 2

abbrev one_taken : Pool
one_taken = pool (5 ∷ []) [] 1 (4 ∷ []) [] 2

abbrev both_sent : Pool
both_sent = pool [] (5 ∷ []) 1 (4 ∷ []) [] 2

abbrev both_taken : Pool
both_taken = pool [] [] 0 (5 ∷ 4 ∷ []) [] 2

abbrev one_finished : Pool
one_finished = pool [] [] 1 (4 ∷ []) (5 ∷ []) 1

abbrev ended : Pool
ended = pool [] [] 2 [] (5 ∷ 4 ∷ []) 0

half_run : Steps 4 started both_taken
unfolding new_pool worker_count send_work take_work
half_run =
    then_step 3 started both_sent both_taken
      (then_step 2 started one_taken both_sent
        (then_step 1 started one_sent one_taken
          (then_step 0 started started one_sent (none_yet started) (sends started one_sent refl))
          (takes one_sent one_taken refl))
        (sends one_taken both_sent refl))
      (takes both_sent both_taken refl)

whole_run : Steps 6 started ended
unfolding finish_work taken_out
whole_run =
    then_step 5 started one_finished ended
      (then_step 4 started both_taken one_finished half_run
        (finishes 0 both_taken one_finished refl))
      (finishes 0 one_finished ended refl)

pool_goes_on_example : (4 ≤ 3 * 2) × ((both_taken.waited ≡ 0) ⊎ ((w : Pool) × Step both_taken w))
pool_goes_on_example = pool_goes_on (pos 2) 6 (4 ∷ 5 ∷ []) 4 both_taken (omega arith) half_run

pool_runs_all_example :
    ((q : ℕ) → count q (5 ∷ 4 ∷ []) ≡ count q (4 ∷ 5 ∷ []))
    × ((P : ℕ → Type 0) → AllOf P (4 ∷ 5 ∷ []) → AllOf P (5 ∷ 4 ∷ []))
    × ((P : ℕ → Type 0) → AllOf P (5 ∷ 4 ∷ []) → AllOf P (4 ∷ 5 ∷ []))
pool_runs_all_example = pool_runs_all (pos 2) 6 (4 ∷ 5 ∷ []) 6 ended whole_run refl

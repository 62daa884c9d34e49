-- ===== src/Scheduler/Pool/Results.antt =====
-- scheduler/scheduler.go: the runs of the workers of a round.
use go_pevm.Shared.{
  ℕ, zero, suc, ◌+◌, ◌-◌, ◌*◌, ◌<◌, ◌≤◌, ℤ, ◌≡◌, refl, sym, ◌∙◌, ◌⊎◌, inl, inr, arith, true, List,
  [], ◌∷◌, ◌++◌, ltb, ite, ℕ_discrete,
}
use mathlib.Core.Path.{subst}
use go_pevm.Scheduler.Positions.{size}
use go_pevm.Scheduler.Setup.{worker_count, worker_count_between}
use go_pevm.Scheduler.Serial.Phases.{AllOf}
use go_pevm.Scheduler.Pool.{
  Pool, new_pool, send_work, take_work, taken_out, finish_work, Step, sends, takes, finishes, Steps,
  none_yet, then_step,
}
use go_pevm.Scheduler.Pool.Runs.{weigh, one, total, steps_left, left, Step-Moves}

-- How often a task stands in a list.
abbrev pub hit : ℕ → ℕ → ℕ
hit q p = ite (ℕ_discrete q p) 1 0

abbrev pub count : ℕ → List ℕ → ℕ
count q l = weigh (hit q) l

weigh-size : (l : List ℕ) → weigh one l ≡ size l
unfolding weigh
weigh-size [] = refl
weigh-size (p ∷ l) = let h = weigh-size l in omega (arith, h)

none_weighs : (c : ℕ → ℕ) (l : List ℕ) → weigh one l ≡ 0 → weigh c l ≡ 0
unfolding weigh
none_weighs c [] h = refl
none_weighs c (p ∷ l) h = absurd (omega (arith, h))

counted-AllOf : (P : ℕ → Type 0) (l : List ℕ) → ((q : ℕ) → 0 < count q l → P q) → AllOf P l
unfolding weigh
counted-AllOf P [] f = tt
counted-AllOf P (p ∷ l) f = (f p (ground arith), counted-AllOf P l (λ q h. f q (ground (arith, h))))

AllOf-counted : (P : ℕ → Type 0) (l : List ℕ) (q : ℕ) → AllOf P l → 0 < count q l → P q
unfolding weigh
AllOf-counted P [] q h g = absurd (omega (arith, g))
AllOf-counted P (p ∷ l) q h g = elim (ℕ_discrete q p) [
  | yes d ↦ subst P (sym d) (h.0)
  | no d ↦ AllOf-counted P l q (h.1) (ground (arith, d, g))
]

module _ (workers : ℤ) (n : ℕ) (tasks : List ℕ) where
  record IsPooled (w : Pool) : Type 0 where
    same_total : (c : ℕ → ℕ) → total c w ≡ weigh c tasks
    counted : w.waited ≡ left w
    hands : w.idle + weigh one w.busy ≡ worker_count workers n
    room : w.capacity ≡ n

  new_pool-IsPooled : IsPooled (new_pool workers n tasks)
  unfolding new_pool weigh
  new_pool-IsPooled = record {
    same_total = λ c. omega arith;
    counted = let h = weigh-size tasks in omega (arith, h);
    hands = omega arith;
    room = refl;
  }

  start_left : 0 + steps_left (new_pool workers n tasks) ≡ 3 * size tasks
  unfolding new_pool weigh
  start_left = let h = weigh-size tasks in omega (arith, h)

  Steps-IsPooled :
      (m : ℕ) (w : Pool)
      → Steps m (new_pool workers n tasks) w
      → IsPooled w × (m + steps_left w ≡ 3 * size tasks)
  Steps-IsPooled m w (none_yet _) = (new_pool-IsPooled, start_left)
  Steps-IsPooled m w (then_step k _ v _ before step) =
      let (h, k_left) = Steps-IsPooled k v before in
      let x = Step-Moves v w step in
      (
        record {
          same_total = λ c. x.same_total c ∙ h.same_total c;
          counted = x.counted h.counted;
          hands = x.hands ∙ h.hands;
          room = x.room ∙ h.room;
        },
        let f = x.fewer in omega (arith, k_left, f),
      )

  next-Step : (w : Pool) → IsPooled w → 1 ≤ n → (w.waited ≡ 0) ⊎ ((w' : Pool) × Step w w')
  unfolding finish_work taken_out take_work send_work weigh
  next-Step w h some_task = by_lists w.busy w.channel w.unsent w.idle refl refl refl refl
    where
      by_lists :
          (busy channel unsent : List ℕ) (idle : ℕ)
          → w.busy ≡ busy
          → w.channel ≡ channel
          → w.unsent ≡ unsent
          → w.idle ≡ idle
          → (w.waited ≡ 0) ⊎ ((w' : Pool) × Step w w')
      by_lists (p ∷ l) channel unsent idle a b c d =
          let w' : Pool = record w {
            busy = l;
            idle = suc w.idle;
            finished = w.finished ++ p ∷ [];
            waited = w.waited - 1;
          } in
          inr (w', finishes 0 w w' (rw (a, finish_work) refl))
      by_lists [] (p ∷ l) unsent (suc i) a b c d =
          let w' : Pool = record w { channel = l; idle = i; busy = p ∷ w.busy } in
          inr (w', takes w w' (rw (b, d, take_work) refl))
      by_lists [] channel unsent zero a b c d =
          let g = (worker_count_between workers n).1 some_task in
          let hands = h.hands in absurd (ground (arith, a, d, g, hands))
      by_lists [] [] (p ∷ l) idle a b c d =
          let open_channel : ltb (size w.channel) w.capacity ≡ true =
            let r = h.room in ground (arith, b, r, some_task) in
          let w' : Pool = record w { unsent = l; channel = w.channel ++ p ∷ [] } in
          inr (w', sends w w' (rw (c, open_channel, send_work) refl))
      by_lists [] [] [] idle a b c d = let g = h.counted in inl (ground (arith, a, b, c, g))

  -- The workers of a round do not get stuck, and do not go on forever. After any number of steps, in
  -- any order, no more than three steps have been taken for each task, and WaitGroup.Wait returns or
  -- some goroutine has a step. ProcessAll has a task, and the tasks of the round are any of them.
  pub pool_goes_on :
      (m : ℕ) (w : Pool)
      → 1 ≤ n
      → Steps m (new_pool workers n tasks) w
      → (m ≤ 3 * size tasks) × ((w.waited ≡ 0) ⊎ ((w' : Pool) × Step w w'))
  pool_goes_on m w some_task steps =
      let (h, all) = Steps-IsPooled m w steps in (omega (arith, all), next-Step w h some_task)

  all_finished :
      (w : Pool) → IsPooled w → w.waited ≡ 0 → (q : ℕ) → count q w.finished ≡ count q tasks
  all_finished w h x q =
      let c = h.counted in
      let a = none_weighs (hit q) w.unsent (omega (arith, c, x)) in
      let b = none_weighs (hit q) w.channel (omega (arith, c, x)) in
      let d = none_weighs (hit q) w.busy (omega (arith, c, x)) in
      let t = h.same_total (hit q) in omega (arith, a, b, d, t)

  -- When WaitGroup.Wait returns, the workers have run each task of the round as often as it was given
  -- to them, and no other. So what holds of the tasks holds of those that were run, and the other way
  -- round.
  pub pool_runs_all :
      (m : ℕ) (w : Pool)
      → Steps m (new_pool workers n tasks) w
      → w.waited ≡ 0
      → ((q : ℕ) → count q w.finished ≡ count q tasks)
        × ((P : ℕ → Type 0) → AllOf P tasks → AllOf P w.finished)
        × ((P : ℕ → Type 0) → AllOf P w.finished → AllOf P tasks)
  pool_runs_all m w steps x =
      let (h, _) = Steps-IsPooled m w steps in
      let same = all_finished w h x in
      (
        same,
        λ P all.
            counted-AllOf P w.finished
              (λ q g. AllOf-counted P tasks q all (subst (λ i. 0 < i) (same q) g)),
        λ P all.
            counted-AllOf P tasks
              (λ q g. AllOf-counted P w.finished q all (subst (λ i. 0 < i) (sym (same q)) g)),
      )

-- ===== src/Scheduler/Disjoint/Rounds.antt =====
-- scheduler/scheduler.go: the first round of ProcessAll for a block with disjoint transactions.
use go_pevm.Shared.{
  ℕ, zero, suc, ◌+◌, ◌<◌, ◌≡◌, refl, sym, ◌⊎◌, inl, inr, arith, true, false, List, [], ◌∷◌, some,
  bytes_eq, ℤ_eq, ltb, Option-cases, Bool-cases,
}
use mathlib.Core.Path.{subst}
use go_pevm.External.Kaia.{Kaia}
use go_pevm.External.BTree.{BTree}
use go_pevm.External.Evm.{Evm}
use go_pevm.Versions.{less}
use go_pevm.Keys.{StorageKey}
use go_pevm.Scheduler.{
  is_validated, is_validated_status, DeliverTxTask, all_validated, find_first_non_validated,
}
use go_pevm.Scheduler.Rounds.{DeliverTxFunc, World, task_at, positions, from_position, execute_all}
use go_pevm.Scheduler.Processing.{Schedule, validate_all, flush_validated, process_rounds}
use go_pevm.Scheduler.Positions.{size, task_below}
use go_pevm.Scheduler.Steps.{IsHonest}
use go_pevm.Scheduler.Serial.{IsAt}
use go_pevm.Scheduler.Serial.Phases.{AllOf, AllOf-map, all-IsAmong, IsAmong, Always, IsShuffle}
use go_pevm.Scheduler.Serial.Fronts.{first_non_validated, none_left, at_position, task_at_below}
use go_pevm.Scheduler.Disjoint.{IsDisjoint, IsFirst}
use go_pevm.Scheduler.Disjoint.Executions.{Never, regroup, execute_all-IsFirst}
use go_pevm.Scheduler.Disjoint.Validations.{validate_positions-IsFirst}

positions-AllOf : {A : Type 0} (i : ℕ) (l : List A) → AllOf (λ p. p < i + size l) (positions i l)
positions-AllOf i [] = tt
positions-AllOf i (x ∷ l) = (
  omega arith,
  AllOf-map _ _ (positions (suc i) l) (λ q h. omega (arith, h)) (positions-AllOf (suc i) l),
)

positions-below : {A : Type 0} (l : List A) → AllOf (λ p. p < size l) (positions 0 l)
positions-below l = AllOf-map _ _ (positions 0 l) (λ q h. omega (arith, h)) (positions-AllOf 0 l)

from_position-keeps :
    (P : ℕ → Type 0) (m : ℕ) (l : List ℕ) → AllOf P l → AllOf P (from_position m l)
from_position-keeps P m [] h = tt
from_position-keeps P m (p ∷ l) h = elim (Bool-cases (ltb p m)) [
  | inl g ↦ rw g (from_position-keeps P m l h.1)
  | inr g ↦ rw g ((h.0, from_position-keeps P m l h.1))
]

from_zero : (l : List ℕ) → from_position 0 l ≡ l
from_zero [] = refl
from_zero (p ∷ l) = ground (arith, from_zero l)

module _ ⦃k : Kaia⦄ ⦃e : Evm k⦄ where
  -- A list of tasks that are validated wherever one looks.
  all_validated_everywhere :
      (l : List DeliverTxTask)
      → ((p : ℕ) (t : DeliverTxTask) → task_at p l ≡ some t → is_validated_status t.status ≡ true)
      → all_validated l ≡ true
  unfolding all_validated is_validated
  all_validated_everywhere [] h = refl
  all_validated_everywhere (t ∷ l) h =
      let rest = all_validated_everywhere l (λ p u g. h (suc p) u g) in
      ground (arith, h 0 t refl, rest)

module _ ⦃k : Kaia⦄ ⦃e : Evm k⦄ ⦃b : BTree less⦄ where
  -- A schedule that leaves no task out.
  pub record IsComplete (sched : Schedule) : Type 1 where
    pub shuffle : IsShuffle sched
    pub executes_all :
        (n : ℕ) (P : ℕ → Type 0) (l : List ℕ) → AllOf P (sched.executions n l) → AllOf P l

  rounds_done :
      (deliver : DeliverTxFunc) (sched : Schedule) (left last : ℕ) (l : List ℕ) (w : World)
      → all_validated w.tasks ≡ true
      → process_rounds deliver sched left last l w ≡ some w
  unfolding process_rounds
  rounds_done deliver sched zero last l w v = rw (v, process_rounds) refl
  rounds_done deliver sched (suc left) last l w v = rw (v, process_rounds) refl

  -- The outcome of a block without a second round.
  pub record IsOnce (w : World) : Type 0 where
    pub parallel : w.synchronous ≡ false
    pub once : w.max_incarnation ≡ 0
    pub validated : all_validated w.tasks ≡ true

  -- From `w` to `w'` by one executeAll of all tasks and one validateAll.
  pub record IsOneRound (deliver : DeliverTxFunc) (sched : Schedule) (left : ℕ) (w w' : World)
      : Type 0 where
    pub ran : World
    pub again : List ℕ
    pub executed : execute_all deliver (sched.executions left (positions 0 w.tasks)) w ≡ some ran
    pub checked : validate_all (sched.validations left) ran ≡ some (again, w')

  -- No round, if there is nothing to do, or one.
  abbrev pub IsOneRoundAtMost : DeliverTxFunc → Schedule → ℕ → World → World → Type 0
  IsOneRoundAtMost deliver sched left w w' =
      ((all_validated w.tasks ≡ true) × (w ≡ w')) ⊎ IsOneRound deliver sched left w w'

module _ ⦃k : Kaia⦄ ⦃e : Evm k⦄ ⦃b : BTree less⦄ (Writes : ℕ → StorageKey → Type 0)
    (deliver : DeliverTxFunc) (honest : IsHonest deliver) (disjoint : IsDisjoint Writes deliver)
    (sched : Schedule) (complete : IsComplete sched) (st : k.StateDb) where
  validate_all-IsOnce :
      (n left : ℕ) (w : World)
      → IsFirst Writes st n Always Never w
      → (again : List ℕ) × (w' : World) × (validate_all (sched.validations left) w
          ≡ some (again, w'))
        × IsOnce w'
  unfolding validate_all
  validate_all-IsOnce n left w h = elim (Option-cases (find_first_non_validated 0 w.tasks)) [
    | inl f ↦ (
      [],
      w,
      rw (f, validate_all) refl,
      record { parallel = h.parallel; once = h.once; validated = none_left 0 w.tasks f },
    )
    | inr (start, f) ↦
        let (d, i, _, before) = first_non_validated 0 start w.tasks f in
        let h1 : IsFirst Writes st n Always (λ q. q < d) w =
          regroup Writes st n Always Always Never _ w (λ q t a i. a) before h in
        let l = sched.validations left (from_position start (positions 0 w.tasks)) in
        let below : AllOf (λ p. p < n) l =
          complete.shuffle.validates left (λ p. p < n) _
            (from_position-keeps (λ p. p < n) start (positions 0 w.tasks)
              (rw (sym h.same_size) (positions-below w.tasks))) in
        let (w', x, h2) = validate_positions-IsFirst Writes st n (λ q. q < d) l w h1 below in
        (
          [],
          w',
          rw (f, validate_all) x,
          record {
            parallel = h2.parallel;
            once = h2.once;
            validated = all_validated_everywhere w'.tasks (λ p t at.
                h2.checked p t
                  (covered d start l p t w' i h2.same_size at
                    (complete.shuffle.validates_all left (λ y. IsAmong y l) _ (all-IsAmong l)))
                  at);
          },
        )
  ]
    where
      covered :
          (d start : ℕ) (l : List ℕ) (p : ℕ) (t : DeliverTxTask) (w' : World)
          → start ≡ 0 + d
          → size w'.tasks ≡ n
          → IsAt p w' t
          → AllOf (λ y. IsAmong y l) (from_position start (positions 0 w.tasks))
          → (p < d) ⊎ IsAmong p l
      covered d start l p t w' i same at all = elim (Bool-cases (ltb p d)) [
        | inl g ↦ inl (ground (arith, g))
        | inr g ↦
            let below = task_at_below p t w'.tasks at in
            let e : 0 + p ≡ p = omega arith in
            inr (
              subst (λ y. IsAmong y l) e
                (at_position (λ y. IsAmong y l) start 0 p w.tasks all (ground (arith, g, i))
                  (ground (arith, below, same, h.same_size))))
      ]

  -- The first round, and the end of the loop.
  pub process_rounds-IsOnce :
      (left : ℕ) (w : World)
      → IsFirst Writes st (size w.tasks) Never Never w
      → ((p : ℕ) (t : DeliverTxTask) → IsAt p w t → is_validated_status t.status ≡ false)
      → (w' : World) × (process_rounds deliver sched (suc left) 0 (positions 0 w.tasks) w ≡ some w')
        × IsOnce w'
        × IsOneRoundAtMost deliver sched left w w'
  process_rounds-IsOnce left w h fresh = elim (Bool-cases (all_validated w.tasks)) [
    | inl v ↦ (
      w,
      rounds_done deliver sched (suc left) 0 _ w v,
      record { parallel = h.parallel; once = h.once; validated = v },
      inl (v, refl),
    )
    | inr v ↦ elim (Option-cases (find_first_non_validated 0 w.tasks)) [
      | inl f ↦ absurd (cc (none_left 0 w.tasks f, v))
      | inr (start, f) ↦
          let n = size w.tasks in
          let l = sched.executions left (positions 0 w.tasks) in
          let e : start ≡ 0 = at_start start f in
          let (w2, x2, h2) =
            execute_all-IsFirst Writes deliver honest disjoint st n Never l w h
              (complete.shuffle.executes left (λ p. p < n) _ (positions-below w.tasks)) in
          let h3 : IsFirst Writes st n Always Never w2 =
            regroup Writes st n _ Always Never Never w2 (λ q t a i. inr (ran q t w2 h2.same_size i))
              (λ q t c i. absurd c) h2 in
          let (again, w3, x3, done) = validate_all-IsOnce n left w2 h3 in
          (
            w3,
            unfold process_rounds flush_validated in
                rw (v, f, e, x2, x3, process_rounds)
                  (rounds_done deliver sched left _ again w3 done.validated),
            done,
            inr (record { ran = w2; again = again; executed = x2; checked = x3 }),
          )
    ]
  ]
    where
      at_start : (start : ℕ) → find_first_non_validated 0 w.tasks ≡ some start → start ≡ 0
      at_start start f =
          let (d, i, (u, here, _), before) = first_non_validated 0 start w.tasks f in
          let below = task_at_below d u w.tasks here in
          let (t, at) = task_below 0 w.tasks (omega (arith, below)) in
          elim (Bool-cases (ltb 0 d)) [
            | inl g ↦ absurd (cc (before 0 t (ground (arith, g)) at, fresh 0 t at))
            | inr g ↦ ground (arith, g, i)
          ]

      ran :
          (q : ℕ) (t : DeliverTxTask) (w2 : World)
          → size w2.tasks ≡ size w.tasks
          → IsAt q w2 t
          → IsAmong q (sched.executions left (positions 0 w.tasks))
      ran q t w2 same at =
          let l = sched.executions left (positions 0 w.tasks) in
          let all = complete.executes_all left (λ y. IsAmong y l) _ (all-IsAmong l) in
          let below = task_at_below q t w2.tasks at in
          let e : 0 + q ≡ q = omega arith in
          subst (λ y. IsAmong y l) e
            (at_position (λ y. IsAmong y l) 0 0 q w.tasks (rw (from_zero (positions 0 w.tasks)) all)
              (omega arith) (ground (arith, below, same)))

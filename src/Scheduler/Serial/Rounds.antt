-- ===== src/Scheduler/Serial/Rounds.antt =====
-- scheduler/scheduler.go: the rounds of ProcessAll in the parallel mode.
use go_pevm.Shared.{
  ℕ, zero, suc, ◌+◌, pos, ◌≡◌, refl, sym, ap, ◌∙◌, ◌⊎◌, inl, inr, arith, true, false, Option, none,
  some, List, [], ℤ_eq, bytes_eq, if◌then◌else◌, ltb, Bool-cases, Option-cases, ◌<◌, ◌≤◌,
}
use mathlib.Core.Path.{subst}
use go_pevm.External.Kaia.{Kaia}
use go_pevm.External.BTree.{BTree}
use go_pevm.External.Evm.{Evm}
use go_pevm.Versions.{less}
use go_pevm.Store.Flush.Accounts.{HasViews}
use go_pevm.Scheduler.{is_validated_status, DeliverTxTask, all_validated, find_first_non_validated}
use go_pevm.Scheduler.Rounds.{
  DeliverTxFunc, World, task_at, positions, from_position, execute_all, validate_positions,
}
use go_pevm.Scheduler.Processing.{
  Schedule, validate_all, flush_validated, go_synchronous, process_rounds,
}
use go_pevm.Scheduler.Positions.{size}
use go_pevm.Scheduler.Steps.{IsHonest}
use go_pevm.Scheduler.Serial.{UsesValues, WritesHeld, IsAt}
use go_pevm.Scheduler.Serial.Phases.{
  AllOf, IsAmong, AllOf-map, all-IsAmong, transactions, IsPhase, IsStopped, IsPending, weaken,
  IsShuffle, Always,
}
use go_pevm.Scheduler.Serial.Fronts.{
  first_non_validated, none_left, all_validated_at, task_at_below, size-transactions,
  from_position-AllOf, at_position,
}
use go_pevm.Scheduler.Serial.Flushes.{sync_stays, flush-IsPhase}
use go_pevm.Scheduler.Serial.Executions.{execute_all-IsPhase}
use go_pevm.Scheduler.Serial.Validations.{validate_positions_phase}

module _ ⦃k : Kaia⦄ ⦃e : Evm k⦄ ⦃b : BTree less⦄ (deliver : DeliverTxFunc) (st : k.StateDb)
    (txs : List e.Message) (views : HasViews k) (held : WritesHeld st deliver) where
  module _ (honest : IsHonest deliver) (uses : UsesValues deliver) (sched : Schedule)
      (shuffle : IsShuffle sched) where
    -- validateAll, if the first task that is not validated is at position `m`.
    validate_all-IsPhase :
        (m left : ℕ) (w : World) (o : List ℕ × World)
        → IsPhase deliver st txs m (λ q. q < m) w
        → IsStopped deliver st txs m w
        → validate_all (sched.validations left) w ≡ some o
        → IsPhase deliver st txs m Always o.1 × AllOf (λ q. IsPending deliver st txs q o.1) o.0
    unfolding validate_all
    validate_all-IsPhase m left w o h (t, at, v) x =
        by_first (find_first_non_validated 0 w.tasks) refl x
      where
        l : List ℕ
        l = sched.validations left (from_position m (positions 0 w.tasks))

        covered :
            (q : ℕ) (u : DeliverTxTask)
            → transactions o.1.tasks ≡ txs
            → IsAt q o.1 u
            → (q < m) ⊎ IsAmong q l
        covered q u same i = elim (Bool-cases (ltb q m)) [
          | inl g ↦ inl (ground (arith, g))
          | inr g ↦
              let sizes : size o.1.tasks ≡ size w.tasks =
                sym (size-transactions o.1.tasks)
                ∙ ap size (same ∙ sym h.same_txs)
                ∙ size-transactions w.tasks in
              let below : q < size w.tasks =
                let b1 = task_at_below q u o.1.tasks i in omega arith in
              let from : m ≤ 0 + q = ground (arith, g) in
              let e : 0 + q ≡ q = omega arith in
              inr (
                subst (λ y. IsAmong y l) e
                  (at_position (λ y. IsAmong y l) m 0 q w.tasks
                    (shuffle.validates_all left (λ y. IsAmong y l) _ (all-IsAmong l)) from below))
        ]

        at_start : (start : ℕ) → find_first_non_validated 0 w.tasks ≡ some start → start ≡ m
        at_start start f =
            let (d, i, (u, here, not_valid), before) = first_non_validated 0 start w.tasks f in
            elim (Bool-cases (ltb d m)) [
              | inl g ↦ absurd (cc (h.front d u (ground (arith, g)) here, not_valid))
              | inr g ↦ elim (Bool-cases (ltb m d)) [
                | inl g' ↦ absurd (cc (before m t (ground (arith, g')) at, v))
                | inr g' ↦ ground (arith, g, g', i)
              ]
            ]

        by_first :
            (f : Option ℕ)
            → find_first_non_validated 0 w.tasks ≡ f
            → (elim f [
              | none ↦ some ([], w)
              | some start ↦
                  validate_positions
                    (sched.validations left (from_position start (positions 0 w.tasks)))
                    w
            ])
              ≡ some o
            → IsPhase deliver st txs m Always o.1 × AllOf (λ q. IsPending deliver st txs q o.1) o.0
        by_first none f x = absurd (cc (all_validated_at w.tasks m t (none_left 0 w.tasks f) at, v))
        by_first (some start) f x =
            let same = at_start start f in
            let pass =
              validate_positions_phase deliver st txs m l (λ q. q < m) w o h
                (shuffle.validates left (λ p. m ≤ p) _ (from_position-AllOf m _)) (rw same at x) in
            (
              weaken deliver st txs m Always _ o.1 (λ q u i _. covered q u pass.phase.same_txs i)
                  pass.phase,
              pass.again,
            )

    -- Where a round begins.
    round_start :
        (last : ℕ) (w : World)
        → IsPhase deliver st txs last Always w
        → all_validated w.tasks ≡ false
        → (m : ℕ) × (find_first_non_validated 0 w.tasks ≡ some m)
          × (last ≤ m)
          × IsStopped deliver st txs m w
          × ((p : ℕ) (t : DeliverTxTask) → p < m → IsAt p w t → is_validated_status t.status ≡ true)
    round_start last w h v = elim (Option-cases (find_first_non_validated 0 w.tasks)) [
      | inl f ↦ absurd (cc (none_left 0 w.tasks f, v))
      | inr (start, f) ↦
          let (d, i, (u, here, not_valid), before) = first_non_validated 0 start w.tasks f in
          let e : d ≡ start = omega (arith, i) in
          let low : last ≤ d = elim (Bool-cases (ltb d last)) [
            | inl g ↦ absurd (cc (h.front d u (ground (arith, g)) here, not_valid))
            | inr g ↦ ground (arith, g)
          ] in
          (d, f ∙ ap some (sym e), low, (u, here, not_valid), before)
    ]

    -- Tasks that are executed stand at or after the first that is not validated.
    pending_from :
        (m : ℕ) (w : World) (l : List ℕ)
        → ((p : ℕ) (t : DeliverTxTask) → p < m → IsAt p w t → is_validated_status t.status ≡ true)
        → AllOf (λ q. IsPending deliver st txs q w) l
        → AllOf (λ q. m ≤ q) l
    pending_from m w l front h = AllOf-map _ _ l (λ q y. from q y) h
      where
        from : (q : ℕ) → IsPending deliver st txs q w → m ≤ q
        from q (t, i, g) = elim (Bool-cases (ltb q m)) [
          | inl f ↦ absurd (cc (front q t (ground (arith, f)) i, g))
          | inr f ↦ ground (arith, f)
        ]

    -- A round of the loop of ProcessAll.
    round-IsPhase :
        (last m left : ℕ) (to_execute : List ℕ) (w w1 w2 : World) (o : List ℕ × World)
        → IsPhase deliver st txs last Always w
        → last ≤ m
        → IsStopped deliver st txs m w
        → ((p : ℕ) (t : DeliverTxTask) → p < m → IsAt p w t → is_validated_status t.status ≡ true)
        → AllOf (λ q. IsPending deliver st txs q w) to_execute
        → flush_validated last m w ≡ some w1
        → execute_all deliver (sched.executions left to_execute) w1 ≡ some w2
        → validate_all (sched.validations left) w2 ≡ some o
        → IsPhase deliver st txs m Always o.1 × AllOf (λ q. IsPending deliver st txs q o.1) o.0
    round-IsPhase last m left to_execute w w1 w2 o h le (t, at, v) front idle f x g =
        let (h1, same) =
          flush-IsPhase deliver st txs views held last m Always w w1 h le
            (task_at_below m t w.tasks at) front f in
        let (h2, stop2) =
          execute_all-IsPhase deliver st txs honest uses m (sched.executions left to_execute) w1 w2
            (weaken deliver st txs m (λ q. q < m) Always w1 (λ q _ _ _. tt) h1)
            (t, ap (task_at m) same ∙ at, v)
            (shuffle.executes left (λ q. m ≤ q) to_execute (pending_from m w to_execute front idle))
            x in
        validate_all-IsPhase m left w2 o h2 stop2 g

    -- The loop of ProcessAll, if it ends in the parallel mode.
    pub process_rounds-IsPhase :
        (left last : ℕ) (to_execute : List ℕ) (w w' : World)
        → IsPhase deliver st txs last Always w
        → AllOf (λ q. IsPending deliver st txs q w) to_execute
        → process_rounds deliver sched left last to_execute w ≡ some w'
        → w'.synchronous ≡ false
        → (all_validated w'.tasks ≡ true) × ((final : ℕ) × IsPhase deliver st txs final Always w')
    unfolding process_rounds
    process_rounds-IsPhase zero last to_execute w w' h idle x par =
        elim (Bool-cases (all_validated w.tasks)) [
          | inl v ↦
              let same : w ≡ w' = cc (rw v at x) in
              subst
                (λ y.
                  (all_validated y.tasks ≡ true)
                  × ((final : ℕ) × IsPhase deliver st txs final Always y))
                same (v, (last, h))
          | inr v ↦ elim (Option-cases (find_first_non_validated 0 w.tasks)) [
            | inl f ↦
                let same : go_synchronous w ≡ w' = cc (rw (v, f) at x) in
                absurd (cc (ap (λ y. y.synchronous) same, par))
            | inr (start, f) ↦
                absurd (
                  cc
                    (sync_stays deliver (pos 0) _ (go_synchronous w) w' refl (rw (v, f) at x), par))
          ]
        ]
    process_rounds-IsPhase (suc left) last to_execute w w' h idle x par =
        elim (Bool-cases (all_validated w.tasks)) [
          | inl v ↦
              let same : w ≡ w' = cc (rw (v, process_rounds) at x) in
              subst
                (λ y.
                  (all_validated y.tasks ≡ true)
                  × ((final : ℕ) × IsPhase deliver st txs final Always y))
                same (v, (last, h))
          | inr v ↦
              let (m, f, le, stop, front) = round_start last w h v in
              elim (Option-cases (flush_validated last m w)) [
                | inl x1 ↦ absurd (cc (rw (v, f, x1, process_rounds) at x))
                | inr (w1, x1) ↦
                    elim (Option-cases
                      (execute_all deliver (sched.executions left to_execute) w1)) [
                        | inl x2 ↦ absurd (cc (rw (v, f, x1, x2, process_rounds) at x))
                        | inr (w2, x2) ↦
                            elim (Option-cases (validate_all (sched.validations left) w2)) [
                              | inl x3 ↦ absurd (cc (rw (v, f, x1, x2, x3, process_rounds) at x))
                              | inr (o, x3) ↦
                                  let (h', idle') =
                                    round-IsPhase last m left to_execute w w1 w2 o h le stop front
                                      idle x1 x2 x3 in
                                  let next : (if ltb last m then m else last) ≡ m =
                                    ground (arith, le) in
                                  process_rounds-IsPhase left m o.0 o.1 w' h' idle'
                                    (rw (v, f, x1, x2, x3, next, process_rounds) at x) par
                            ]
                      ]
              ]
        ]

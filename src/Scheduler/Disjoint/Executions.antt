-- ===== src/Scheduler/Disjoint/Executions.antt =====
-- scheduler/scheduler.go: executeAll in the first round of a block with disjoint transactions.
use go_pevm.Shared.{
  ℕ, zero, suc, pos, ◌<◌, ◌≡◌, refl, sym, ap, ◌∙◌, ◌⊎◌, inl, inr, arith, true, List, [], ◌∷◌, some,
  ite, bytes_eq, ℤ_eq, ℕ_discrete, Option-cases,
}
use mathlib.Core.Path.{subst}
use go_pevm.External.Kaia.{Kaia}
use go_pevm.External.BTree.{BTree}
use go_pevm.External.Evm.{Evm}
use go_pevm.Versions.{less}
use go_pevm.Keys.{StorageKey}
use go_pevm.Store.{Store}
use go_pevm.Store.Validation.Verdicts.{readset_of}
use go_pevm.Tracer.{write_to_multi_version_store}
use go_pevm.Scheduler.{is_validated_status, DeliverTxTask}
use go_pevm.Scheduler.Statuses.{has_run}
use go_pevm.Scheduler.Rounds.{DeliverTxFunc, World, task_at, put_at, execute_task, execute_all}
use go_pevm.Scheduler.Positions.{size, task_below}
use go_pevm.Scheduler.Steps.{IsHonest}
use go_pevm.Scheduler.Serial.{IsAt}
use go_pevm.Scheduler.Serial.Local.{at-put}
use go_pevm.Scheduler.Serial.Phases.{AllOf, IsAmong}
use go_pevm.Scheduler.Serial.Executions.{execute_parallel}
use go_pevm.Scheduler.Disjoint.{IsApart, IsDisjoint, IsFirst}
use go_pevm.Scheduler.Disjoint.Deliveries.{IsRun, done, left, answers, run_task-eq, write-IsRun}

pub size-put_at : {A : Type 0} (p : ℕ) (u : A) (l : List A) → size (put_at p u l) ≡ size l
size-put_at p u [] = refl
size-put_at zero u (x ∷ l) = refl
size-put_at (suc p) u (x ∷ l) = ap suc (size-put_at p u l)

abbrev pub Never : ℕ → Type 0
Never p = ⊥

module _ ⦃k : Kaia⦄ ⦃e : Evm k⦄ ⦃b : BTree less⦄ (Writes : ℕ → StorageKey → Type 0) where
  -- The tasks that have run and those that are validated, given in another way.
  pub regroup :
      (st : k.StateDb) (n : ℕ) (A B C D : ℕ → Type 0) (w : World)
      → ((p : ℕ) (t : DeliverTxTask) → B p → IsAt p w t → A p)
      → ((p : ℕ) (t : DeliverTxTask) → D p → IsAt p w t → is_validated_status t.status ≡ true)
      → IsFirst Writes st n A C w
      → IsFirst Writes st n B D w
  regroup st n A B C D w f g h = record {
    parallel = h.parallel;
    once = h.once;
    placed = h.placed;
    same_size = h.same_size;
    tracked = record { listed = h.tracked.listed };
    clear = h.clear;
    parent = h.parent;
    ran = λ p t d i. h.ran p t (f p t d i) i;
    checked = g;
  }

module _ ⦃k : Kaia⦄ ⦃e : Evm k⦄ ⦃b : BTree less⦄ (Writes : ℕ → StorageKey → Type 0)
    (deliver : DeliverTxFunc) (honest : IsHonest deliver)
    (disjoint : IsDisjoint Writes deliver) where
  module _ (st : k.StateDb) (n : ℕ) (Done : ℕ → Type 0) where
    run-IsFirst :
        (p : ℕ) (t u : DeliverTxTask) (s' : Store) (w : World)
        → IsFirst Writes st n Done Never w
        → IsAt p w t
        → IsRun Writes deliver honest disjoint p t u w.store s'
        → IsFirst Writes st n
            (λ q. Done q ⊎ (q ≡ p))
            Never
            (record w { store = s'; tasks = put_at p u w.tasks })
    run-IsFirst p t u s' w h at run = record {
      parallel = h.parallel;
      once = h.once;
      placed = λ q x g. by_place q x (ℕ_discrete p q) (at_either q x g);
      same_size = size-put_at p u w.tasks ∙ h.same_size;
      tracked = run.tracked;
      clear = run.clear;
      parent = run.local.parent ∙ h.parent;
      ran = λ q x d g. by_run q x d (ℕ_discrete p q) (at_either q x g);
      checked = λ q x c g. absurd c;
    }
      where
        at_either :
            (q : ℕ) (x : DeliverTxTask)
            → task_at q (put_at p u w.tasks) ≡ some x
            → ite (ℕ_discrete p q) (some u) (task_at q w.tasks) ≡ some x
        at_either q x g = sym (at-put p q t u w.tasks at) ∙ g

        by_place :
            (q : ℕ) (x : DeliverTxTask) (d : Dec (p ≡ q))
            → ite d (some u) (task_at q w.tasks) ≡ some x
            → x.absolute_index ≡ pos q
        by_place q x (yes d) g = ground (arith, run.same_index, h.placed p t at)
        by_place q x (no d) g = h.placed q x g

        here : IsApart Writes p st (readset_of (pos p) s')
        here = subst (λ y. IsApart Writes p y (readset_of (pos p) s')) h.parent run.apart

        by_run :
            (q : ℕ) (x : DeliverTxTask)
            → Done q ⊎ (q ≡ p)
            → (d : Dec (p ≡ q)) → ite d (some u) (task_at q w.tasks) ≡ some x
            → (has_run x.status ≡ true) × IsApart Writes q st (readset_of (pos q) s')
        by_run q x a (yes d) g =
            let same : u ≡ x = cc in
            (
              ap (λ y. has_run y.status) (sym same) ∙ run.ran,
              subst (λ y. IsApart Writes y st (readset_of (pos y) s')) d here,
            )
        by_run q x (inr e) (no d) g = absurd (d (sym e))
        by_run q x (inl a) (no d) g =
            let (r, y) = h.ran q x a g in
            let kept : readset_of (pos q) s' ≡ readset_of (pos q) w.store =
              run.local.readsets (pos q) (λ e. d (ground (arith, e))) in
            (r, subst (IsApart Writes q st) (sym kept) y)

    pub execute-IsFirst :
        (p : ℕ) (t : DeliverTxTask) (w : World)
        → IsFirst Writes st n Done Never w
        → IsAt p w t
        → (w' : World) × (execute_task deliver p w ≡ some w')
          × IsFirst Writes st n (λ q. Done q ⊎ (q ≡ p)) Never w'
    execute-IsFirst p t w h at =
        let here = h.placed p t at in
        elim (Option-cases
          (done Writes deliver honest disjoint p t w.store here h.tracked h.clear).result) [
            | inl g ↦
                absurd (
                  cc (answers Writes deliver honest disjoint p t w.store here h.tracked h.clear, g))
            | inr (r, g) ↦
                let d = done Writes deliver honest disjoint p t w.store here h.tracked h.clear in
                let u = left Writes deliver honest disjoint p t w.store here h.tracked h.clear r in
                let s' = write_to_multi_version_store d.traced w.store in
                (
                  record w { store = s'; tasks = put_at p u w.tasks },
                  execute_parallel deliver p t w at h.parallel
                      ∙ ap (λ q. some (record w { store = q.1; tasks = put_at p q.0 w.tasks }))
                          (run_task-eq Writes deliver honest disjoint p t w.store here h.tracked
                            h.clear r g),
                  run-IsFirst p t u s' w h at (
                      write-IsRun Writes deliver honest disjoint p t w.store here h.tracked h.clear
                        r),
                )
          ]

  pub execute_all-IsFirst :
      (st : k.StateDb) (n : ℕ) (Done : ℕ → Type 0) (l : List ℕ) (w : World)
      → IsFirst Writes st n Done Never w
      → AllOf (λ p. p < n) l
      → (w' : World) × (execute_all deliver l w ≡ some w')
        × IsFirst Writes st n (λ q. Done q ⊎ IsAmong q l) Never w'
  unfolding execute_all
  execute_all-IsFirst st n Done [] w h below = (
    w,
    refl,
    regroup Writes st n Done _ Never Never w (λ q t a i. none_among q a) (λ q t c i. absurd c) h,
  )
    where
      none_among : (q : ℕ) → Done q ⊎ ⊥ → Done q
      none_among q (inl a) = a
      none_among q (inr a) = absurd a
  execute_all-IsFirst st n Done (p ∷ l) w h below =
      let (t, at) = task_below p w.tasks (ground (arith, below.0, h.same_size)) in
      let (w1, x1, h1) = execute-IsFirst st n Done p t w h at in
      let (w2, x2, h2) = execute_all-IsFirst st n (λ q. Done q ⊎ (q ≡ p)) l w1 h1 below.1 in
      (
        w2,
        rw (x1, x2) refl,
        regroup Writes st n _ _ Never Never w2 (λ q t a i. first_too q a) (λ q t c i. absurd c) h2,
      )
    where
      first_too : (q : ℕ) → Done q ⊎ ((q ≡ p) ⊎ IsAmong q l) → (Done q ⊎ (q ≡ p)) ⊎ IsAmong q l
      first_too q (inl a) = inl (inl a)
      first_too q (inr (inl a)) = inl (inr a)
      first_too q (inr (inr a)) = inr a

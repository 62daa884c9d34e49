-- ===== src/Scheduler/Disjoint/Validations.antt =====
-- scheduler/scheduler.go: validateAll in the first round of a block with disjoint transactions.
use go_pevm.Shared.{
  ℕ, ℤ, pos, ◌<◌, ◌≡◌, refl, sym, ap, ◌∙◌, ◌⊎◌, inl, inr, arith, true, false, List, [], ◌∷◌, Option,
  none, some, get, ite, bytes_eq, ℤ_eq, ℕ_discrete, IsMap,
}
use mathlib.Core.Path.{subst}
use go_pevm.External.Kaia.{Kaia}
use go_pevm.External.BTree.{BTree}
use go_pevm.External.Evm.{Evm}
use go_pevm.Versions.{ValueItem, less}
use go_pevm.Versions.Order.{IsLatestBelow}
use go_pevm.Keys.{StorageKey, get_value}
use go_pevm.Store.{Store, ReadSet, get_latest_before_index}
use go_pevm.Store.Invariant.{version}
use go_pevm.Store.Reads.{read-IsLatestBelow}
use go_pevm.Store.Validation.Verdicts.{readset_of, expected, IsCurrent}
use go_pevm.Scheduler.{Status, DeliverTxTask, is_validated_status, should_rerun}
use go_pevm.Scheduler.Statuses.{has_run, should_rerun_current}
use go_pevm.Scheduler.Positions.{task_below}
use go_pevm.Scheduler.Rounds.{World, task_at, put_at, validate_one, validate_positions}
use go_pevm.Scheduler.Serial.{IsAt}
use go_pevm.Scheduler.Serial.Local.{at-put}
use go_pevm.Scheduler.Serial.Phases.{AllOf, IsAmong, Always}
use go_pevm.Scheduler.Disjoint.{IsClear, IsApart, IsFirst}
use go_pevm.Scheduler.Disjoint.Executions.{size-put_at, regroup}

module _ ⦃k : Kaia⦄ ⦃b : BTree less⦄ where
  current_entries :
      (i : ℤ) (s : Store) (rs : ReadSet)
      → IsMap rs
      → ((q : StorageKey) (vs : List k.Hash)
          → get q rs ≡ some vs
          → (v : k.Hash) × (vs ≡ v ∷ []) × (expected i q s ≡ some v))
      → IsCurrent i s rs
  unfolding get
  current_entries i s [] m h = tt
  current_entries i s ((key, vs) ∷ rs) m h = (
    h key vs (ground arith),
    current_entries i s rs m.1 (λ q us g. h q us (ground (arith, m.0, g))),
  )

module _ ⦃k : Kaia⦄ ⦃e : Evm k⦄ ⦃b : BTree less⦄ (Writes : ℕ → StorageKey → Type 0) where
  unwritten :
      (p : ℕ) (q : StorageKey) (s : Store)
      → IsClear Writes s
      → ((j : ℕ) → j < p → Writes j q → ⊥)
      → get_latest_before_index (pos p) q s ≡ none
  unwritten p q s clear free =
      by_read (get_latest_before_index (pos p) q s) refl (read-IsLatestBelow p q s)
    where
      by_read :
          (o : Option ValueItem)
          → get_latest_before_index (pos p) q s ≡ o
          → IsLatestBelow (λ j. version q j s) (pos p) o
          → get_latest_before_index (pos p) q s ≡ none
      by_read none e h = e
      by_read (some v) e h =
          let (j, i, w) = clear q v.index v h.0 in absurd (free j (ground (arith, i, h.1)) w)

  apart_current :
      (p : ℕ) (s : Store)
      → IsClear Writes s
      → IsApart Writes p s.parent_store (readset_of (pos p) s)
      → IsCurrent (pos p) s (readset_of (pos p) s)
  apart_current p s clear h = current_entries (pos p) s (readset_of (pos p) s) h.is_map (λ q vs g.
      let none_before = unwritten p q s clear (λ j below w. h.free q vs j g below w) in
      (get_value q s.parent_store, h.single q vs g, rw (expected, none_before) refl))

  validate-IsFirst :
      (st : k.StateDb) (n : ℕ) (Checked : ℕ → Type 0) (p : ℕ) (t : DeliverTxTask) (w : World)
      → IsFirst Writes st n Always Checked w
      → IsAt p w t
      → (w' : World) × (validate_one p w ≡ some (false, w'))
        × IsFirst Writes st n Always (λ q. Checked q ⊎ (q ≡ p)) w'
  unfolding validate_one
  validate-IsFirst st n Checked p t w h at = (w', rw (at, verdict) refl, first)
    where
      u : DeliverTxTask
      u = record t { status = Status.validated }

      w' : World
      w' = record w { tasks = put_at p u w.tasks }

      apart : IsApart Writes p w.store.parent_store (readset_of (pos p) w.store)
      apart =
          subst (λ y. IsApart Writes p y (readset_of (pos p) w.store)) (sym h.parent)
            (h.ran p t tt at).1

      current : IsCurrent t.absolute_index w.store (readset_of t.absolute_index w.store)
      current =
          subst (λ i. IsCurrent i w.store (readset_of i w.store)) (sym (h.placed p t at))
            (apart_current p w.store h.clear apart)

      verdict :
          should_rerun w.tasks t w.store
          ≡ some (record { rerun = false; task = u; store = w.store })
      verdict = should_rerun_current w.tasks t w.store (h.ran p t tt at).0 current

      at_either :
          (q : ℕ) (x : DeliverTxTask)
          → task_at q (put_at p u w.tasks) ≡ some x
          → ite (ℕ_discrete p q) (some u) (task_at q w.tasks) ≡ some x
      at_either q x g = sym (at-put p q t u w.tasks at) ∙ g

      by_place :
          (q : ℕ) (x : DeliverTxTask) (d : Dec (p ≡ q))
          → ite d (some u) (task_at q w.tasks) ≡ some x
          → x.absolute_index ≡ pos q
      by_place q x (yes d) g = ground (arith, h.placed p t at)
      by_place q x (no d) g = h.placed q x g

      by_run :
          (q : ℕ) (x : DeliverTxTask) (d : Dec (p ≡ q))
          → ite d (some u) (task_at q w.tasks) ≡ some x
          → (has_run x.status ≡ true) × IsApart Writes q st (readset_of (pos q) w.store)
      by_run q x (yes d) g =
          let same : u ≡ x = cc in
          (
            ap (λ y. has_run y.status) (sym same),
            subst (λ y. IsApart Writes y st (readset_of (pos y) w.store)) d (h.ran p t tt at).1,
          )
      by_run q x (no d) g = h.ran q x tt g

      by_check :
          (q : ℕ) (x : DeliverTxTask)
          → Checked q ⊎ (q ≡ p)
          → (d : Dec (p ≡ q)) → ite d (some u) (task_at q w.tasks) ≡ some x
          → is_validated_status x.status ≡ true
      by_check q x c (yes d) g =
          let same : u ≡ x = cc in ap (λ y. is_validated_status y.status) (sym same)
      by_check q x (inl c) (no d) g = h.checked q x c g
      by_check q x (inr c) (no d) g = absurd (d (sym c))

      first : IsFirst Writes st n Always (λ q. Checked q ⊎ (q ≡ p)) w'
      first = record {
        parallel = h.parallel;
        once = h.once;
        placed = λ q x g. by_place q x (ℕ_discrete p q) (at_either q x g);
        same_size = size-put_at p u w.tasks ∙ h.same_size;
        tracked = record { listed = h.tracked.listed };
        clear = h.clear;
        parent = h.parent;
        ran = λ q x d g. by_run q x (ℕ_discrete p q) (at_either q x g);
        checked = λ q x c g. by_check q x c (ℕ_discrete p q) (at_either q x g);
      }

  pub validate_positions-IsFirst :
      (st : k.StateDb) (n : ℕ) (Checked : ℕ → Type 0) (l : List ℕ) (w : World)
      → IsFirst Writes st n Always Checked w
      → AllOf (λ p. p < n) l
      → (w' : World) × (validate_positions l w ≡ some ([], w'))
        × IsFirst Writes st n Always (λ q. Checked q ⊎ IsAmong q l) w'
  unfolding validate_positions
  validate_positions-IsFirst st n Checked [] w h below = (
    w,
    refl,
    regroup Writes st n Always Always Checked _ w (λ q t a i. a)
        (λ q t a i. h.checked q t (none_among q a) i) h,
  )
    where
      none_among : (q : ℕ) → Checked q ⊎ ⊥ → Checked q
      none_among q (inl a) = a
      none_among q (inr a) = absurd a
  validate_positions-IsFirst st n Checked (p ∷ l) w h below =
      let (t, at) = task_below p w.tasks (ground (arith, below.0, h.same_size)) in
      let (w1, x1, h1) = validate-IsFirst st n Checked p t w h at in
      let (w2, x2, h2) =
        validate_positions-IsFirst st n (λ q. Checked q ⊎ (q ≡ p)) l w1 h1 below.1 in
      (
        w2,
        rw (x1, x2) refl,
        regroup Writes st n Always Always _ _ w2 (λ q t a i. a)
            (λ q t a i. h2.checked q t (first_too q a) i) h2,
      )
    where
      first_too :
          (q : ℕ) → Checked q ⊎ ((q ≡ p) ⊎ IsAmong q l) → (Checked q ⊎ (q ≡ p)) ⊎ IsAmong q l
      first_too q (inl a) = inl (inl a)
      first_too q (inr (inl a)) = inl (inr a)
      first_too q (inr (inr a)) = inr a

-- ===== src/Scheduler/Invariant.antt =====
-- scheduler/scheduler.go: the invariant between two steps. It is about the indices that the store
-- and the tasks name, which are looked up in `allTasksMap`, and about responses.
use go_pevm.Shared.{
  ℕ, ℤ, pos, ◌≡◌, refl, sym, ◌∙◌, inl, inr, Bool, true, false, some, List, [], ◌∷◌, arith, has,
  is_some, ℤ_eq, if◌then◌else◌, Bool-cases, Option-cases,
}
use go_pevm.External.Kaia.{Kaia}
use go_pevm.External.BTree.{BTree}
use go_pevm.External.Evm.{Evm}
use go_pevm.Versions.{ValueItem, less}
use go_pevm.Keys.{StorageKey}
use go_pevm.Store.{Store, ReadSet, get_latest_before_index, invalidate_writeset, clear_readset}
use go_pevm.Store.Invariant.{
  IsTracked, version, version-invalidate_writeset, invalidate_writeset-IsTracked,
}
use go_pevm.Store.Reads.{read-IsLatestBelow}
use go_pevm.Store.Validation.{validate_transaction_state}
use go_pevm.Store.Validation.Verdicts.{
  blames, blames_any, readset_of, has-validate_conflicts, has-sort_ints,
}
use go_pevm.Scheduler.{
  DeliverTxTask, add_all, unique_from, task_of, is_validated, dependencies_validated,
  find_conflicts, invalidate_task,
}
use go_pevm.Scheduler.Statuses.{has_run}

-- Every index of the list is among `ixs`.
abbrev pub AllKnown : List ℤ → List ℤ → Type 0
AllKnown ixs [] = Unit
AllKnown ixs (i ∷ l) = (has i ixs ≡ true) × AllKnown ixs l

pub add_all-AllKnown :
    (ixs l deps : List ℤ) → AllKnown ixs l → AllKnown ixs deps → AllKnown ixs (add_all l deps)
unfolding add_all
add_all-AllKnown ixs [] deps h g = g
add_all-AllKnown ixs (i ∷ l) deps h g = add_all-AllKnown ixs l _ h.1 (one (has i deps) (h.0, g) g)
  where
    one :
        (p : Bool)
        → AllKnown ixs (i ∷ deps)
        → AllKnown ixs deps
        → AllKnown ixs (if p then deps else i ∷ deps)
    one true x y = y
    one false x y = x

-- What is in a list of known indices is known.
pub AllKnown-of_has :
    (ixs l : List ℤ) → ((j : ℤ) → has j l ≡ true → has j ixs ≡ true) → AllKnown ixs l
AllKnown-of_has ixs [] h = tt
AllKnown-of_has ixs (i ∷ l) h =
    (h i (ground arith), AllKnown-of_has ixs l (λ j p. h j (ground arith)))

has-unique_from : (j : ℤ) (seen l : List ℤ) → has j (unique_from seen l) ≡ true → has j l ≡ true
unfolding unique_from
has-unique_from j seen [] h = h
has-unique_from j seen (c ∷ l) h = elim (Bool-cases (has c seen)) [
  | inl p ↦ ground (arith, has-unique_from j seen l)
  | inr p ↦ ground (arith, has-unique_from j (c ∷ seen) l)
]

module _ ⦃k : Kaia⦄ ⦃e : Evm k⦄ where
  abbrev pub indexes : List DeliverTxTask → List ℤ
  indexes [] = []
  indexes (t ∷ l) = t.absolute_index ∷ indexes l

  has-indexes : (i : ℤ) (l : List DeliverTxTask) → has i (indexes l) ≡ is_some (task_of i l)
  unfolding task_of
  has-indexes i [] = refl
  has-indexes i (t ∷ l) = ground (arith, has-indexes i l)

  -- The dependencies of a task can be looked up, so the test of them does not panic.
  pub dependencies_total :
      (tasks : List DeliverTxTask) (deps : List ℤ)
      → AllKnown (indexes tasks) deps
      → (ready : Bool) × (dependencies_validated tasks deps ≡ some ready)
  unfolding dependencies_validated
  dependencies_total tasks [] h = (true, refl)
  dependencies_total tasks (i ∷ deps) h =
      let (rest, p) = dependencies_total tasks deps h.1 in
      elim (Option-cases (task_of i tasks)) [
        | inl q ↦ absurd (cc (has-indexes i tasks))
        | inr (t, q) ↦ (if is_validated t then rest else false, ground (arith, p, q))
      ]

  -- What holds of each task.
  pub record IsSound (ixs : List ℤ) (t : DeliverTxTask) : Type 0 where
    pub deps_known : AllKnown ixs t.dependencies
    pub own : has t.absolute_index ixs ≡ true
    pub place : (n : ℕ) × (t.absolute_index ≡ pos n)
    pub answered : has_run t.status ≡ true → is_some t.response ≡ true

  abbrev pub AllSound : List ℤ → List DeliverTxTask → Type 0
  AllSound ixs [] = Unit
  AllSound ixs (t ∷ l) = IsSound ixs t × AllSound ixs l

module _ ⦃k : Kaia⦄ ⦃e : Evm k⦄ ⦃b : BTree less⦄ where
  -- What holds of the store.
  pub record IsKept (ixs : List ℤ) (s : Store) : Type 0 where
    pub tracked : IsTracked s
    pub known :
        (key : StorageKey) (i : ℤ) (v : ValueItem) → version key i s ≡ some v → has i ixs ≡ true

  pub invalidate_task-IsKept :
      (ixs : List ℤ) (t : DeliverTxTask) (s : Store)
      → has t.absolute_index ixs ≡ true
      → IsKept ixs s
      → IsKept ixs (invalidate_task t s)
  unfolding invalidate_task clear_readset
  invalidate_task-IsKept ixs t s own h =
      let i : ℤ = t.absolute_index in
      let s' : Store = invalidate_writeset i t.incarnation s in
      record {
        tracked = record {
          listed = (invalidate_writeset-IsTracked i t.incarnation s h.tracked).listed;
        };
        known = λ key j v p.
            ground
              (arith, own, version-invalidate_writeset i j t.incarnation key s, h.known key j v);
      }

  module _ (ixs : List ℤ) (n : ℕ) (s : Store) (h : IsKept ixs s) where
    latest_known :
        (key : StorageKey) (w : ValueItem)
        → get_latest_before_index (pos n) key s ≡ some w
        → has w.index ixs ≡ true
    latest_known key w p = h.known key w.index w (rw p at (read-IsLatestBelow n key s)).0

    blames_known :
        (j : ℤ) (key : StorageKey) (vs : List k.Hash)
        → blames (pos n) s j key vs ≡ true
        → has j ixs ≡ true
    blames_known j key [] g = cc
    blames_known j key (v ∷ []) g = elim (Option-cases (get_latest_before_index (pos n) key s)) [
      | inl p ↦ ground arith
      | inr (w, p) ↦ ground (arith, latest_known key w p)
    ]
    blames_known j key (v ∷ w ∷ vs) g = cc

    blames_any_known : (j : ℤ) (rs : ReadSet) → blames_any (pos n) s j rs ≡ true → has j ixs ≡ true
    blames_any_known j [] g = cc
    blames_any_known j ((key, vs) ∷ rs) g = elim (Bool-cases (blames (pos n) s j key vs)) [
      | inl p ↦ blames_known j key vs p
      | inr p ↦ blames_any_known j rs (ground arith)
    ]

  -- A conflict is the index of a task.
  pub conflicts_known :
      (ixs : List ℤ) (t : DeliverTxTask) (s : Store)
      → IsSound ixs t
      → IsKept ixs s
      → AllKnown ixs (find_conflicts t s).1
  unfolding find_conflicts
  conflicts_known ixs t s g h = AllKnown-of_has ixs _ λ j p.
      let (n, q) = g.place in
      let cs : List ℤ = (validate_transaction_state t.absolute_index s).1 in
      let among : has j cs ≡ true =
        has-unique_from j [] cs (sym (has-sort_ints j (unique_from [] cs)) ∙ p) in
      blames_any_known ixs n s h j (readset_of (pos n) s)
        (sym (has-validate_conflicts (pos n) j s) ∙ (rw q at among))

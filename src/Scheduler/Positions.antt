-- ===== src/Scheduler/Positions.antt =====
-- The positions of tasks in the lists of scheduler/scheduler.go.
use go_pevm.Shared.{
  ℕ, zero, suc, ◌+◌, ◌<◌, ℤ, ◌≡◌, refl, ap, some, List, [], ◌∷◌, arith, ℤ_eq, bytes_eq,
}
use go_pevm.External.Kaia.{Kaia}
use go_pevm.External.Evm.{Evm}
use go_pevm.Scheduler.{DeliverTxTask}
use go_pevm.Scheduler.Invariant.{indexes, IsSound, AllSound}
use go_pevm.Scheduler.Rounds.{task_at, put_at, positions, from_position}

abbrev pub size : {A : Type 0} → List A → ℕ
size [] = 0
size (x ∷ l) = suc (size l)

-- Every position of the list is one of a list of `m` tasks.
abbrev pub AllBelow : ℕ → List ℕ → Type 0
AllBelow m [] = Unit
AllBelow m (p ∷ l) = (p < m) × AllBelow m l

pub positions-AllBelow : {A : Type 0} (n : ℕ) (l : List A) → AllBelow (n + size l) (positions n l)
positions-AllBelow n [] = tt
positions-AllBelow n (x ∷ l) =
    let rest = positions-AllBelow (suc n) l in
    let e : suc n + size l ≡ n + suc (size l) = omega arith in (omega arith, rw e at rest)

pub from_position-AllBelow : (m n : ℕ) (l : List ℕ) → AllBelow m l → AllBelow m (from_position n l)
from_position-AllBelow m n [] h = tt
from_position-AllBelow m n (p ∷ l) h = ground (arith, from_position-AllBelow m n l h.1)

pub task_below : {A : Type 0} (p : ℕ) (l : List A) → p < size l → (t : A) × (task_at p l ≡ some t)
task_below p [] h = absurd (omega (arith, h))
task_below zero (x ∷ l) h = (x, refl)
task_below (suc p) (x ∷ l) h = task_below p l (omega (arith, h))

module _ ⦃k : Kaia⦄ ⦃e : Evm k⦄ where
  pub size-indexes : (l : List DeliverTxTask) → size (indexes l) ≡ size l
  size-indexes [] = refl
  size-indexes (t ∷ l) = ap suc (size-indexes l)

  pub task_at_total :
      (p : ℕ) (ixs : List ℤ) (l : List DeliverTxTask)
      → AllSound ixs l
      → p < size l
      → (t : DeliverTxTask) × (task_at p l ≡ some t) × IsSound ixs t
  task_at_total p ixs [] h g = absurd (omega arith)
  task_at_total zero ixs (t ∷ l) h g = (t, refl, h.0)
  task_at_total (suc p) ixs (t ∷ l) h g = task_at_total p ixs l h.1 (omega arith)

  pub put_at-AllSound :
      (p : ℕ) (ixs : List ℤ) (u : DeliverTxTask) (l : List DeliverTxTask)
      → AllSound ixs l
      → IsSound ixs u
      → AllSound ixs (put_at p u l)
  put_at-AllSound p ixs u [] h g = tt
  put_at-AllSound zero ixs u (t ∷ l) h g = (g, h.1)
  put_at-AllSound (suc p) ixs u (t ∷ l) h g = (h.0, put_at-AllSound p ixs u l h.1 g)

  pub indexes-put_at :
      (p : ℕ) (t u : DeliverTxTask) (l : List DeliverTxTask)
      → task_at p l ≡ some t
      → u.absolute_index ≡ t.absolute_index
      → indexes (put_at p u l) ≡ indexes l
  indexes-put_at p t u [] h i = refl
  indexes-put_at zero t u (x ∷ l) h i = ground arith
  indexes-put_at (suc p) t u (x ∷ l) h i = ground (arith, indexes-put_at p t u l h i)

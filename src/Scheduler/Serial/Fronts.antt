-- ===== src/Scheduler/Serial/Fronts.antt =====
-- scheduler/scheduler.go: the first task that is not validated, the tasks from a position on, and the
-- indices of a window.
use go_pevm.Shared.{
  ℕ, zero, suc, ℤ, pos, ◌≡◌, refl, sym, ap, ◌∙◌, inl, inr, arith, Bool, true, false, none, some,
  List, [], ◌∷◌, ℤ_eq, bytes_eq, if◌then◌else◌, Bool-cases, ◌<◌, ◌≤◌, ◌+◌, negsuc, ltb, lt_int, not,
  ◌&&◌,
}
use mathlib.Core.Path.{subst}
use go_pevm.External.Kaia.{Kaia}
use go_pevm.External.Evm.{Evm}
use go_pevm.Scheduler.{
  Status, is_validated_status, DeliverTxTask, is_validated, all_validated, find_first_non_validated,
}
use go_pevm.Scheduler.Statuses.{has_run}
use go_pevm.Scheduler.Rounds.{task_at, positions, from_position}
use go_pevm.Scheduler.Positions.{size}
use go_pevm.Scheduler.Serial.Phases.{AllOf, transactions}

pub validated_ran : (x : Status) → is_validated_status x ≡ true → has_run x ≡ true
validated_ran Status.validated h = refl
validated_ran _ h = cc

module _ ⦃k : Kaia⦄ ⦃e : Evm k⦄ where
  -- The position of the first task that is not validated.
  pub first_non_validated :
      (i m : ℕ) (l : List DeliverTxTask)
      → find_first_non_validated i l ≡ some m
      → (d : ℕ) × (m ≡ i + d)
        × ((t : DeliverTxTask) × (task_at d l ≡ some t) × (is_validated_status t.status ≡ false))
        × ((p : ℕ) (t : DeliverTxTask)
            → p < d
            → task_at p l ≡ some t
            → is_validated_status t.status ≡ true)
  unfolding find_first_non_validated is_validated
  first_non_validated i m [] h = cc
  first_non_validated i m (t ∷ l) h = elim (Bool-cases (is_validated_status t.status)) [
    | inr v ↦ (0, ground arith, (t, refl, v), λ p x g. absurd (omega (arith, g)))
    | inl v ↦
        let (d, at, (u, here, not_valid), before) = first_non_validated (suc i) m l (rw v at h) in
        (suc d, omega arith, (u, here, not_valid), λ p x g a. by_position d p x v before g a)
  ]
    where
      by_position :
          (d p : ℕ) (x : DeliverTxTask)
          → is_validated_status t.status ≡ true
          → ((p : ℕ) (u : DeliverTxTask)
              → p < d
              → task_at p l ≡ some u
              → is_validated_status u.status ≡ true)
          → p < suc d
          → task_at p (t ∷ l) ≡ some x
          → is_validated_status x.status ≡ true
      by_position d zero x v f g a =
          let same : t ≡ x = cc in ap (λ y. is_validated_status y.status) (sym same) ∙ v
      by_position d (suc p) x v f g a = f p x (omega (arith, g)) a

  pub none_left :
      (i : ℕ) (l : List DeliverTxTask)
      → find_first_non_validated i l ≡ none
      → all_validated l ≡ true
  unfolding find_first_non_validated all_validated is_validated
  none_left i [] h = refl
  none_left i (t ∷ l) h = ground (arith, none_left (suc i) l)

  pub all_validated_at :
      (l : List DeliverTxTask) (p : ℕ) (t : DeliverTxTask)
      → all_validated l ≡ true
      → task_at p l ≡ some t
      → is_validated_status t.status ≡ true
  unfolding all_validated is_validated
  all_validated_at [] p t v h = cc
  all_validated_at (x ∷ l) zero t v h = ground arith
  all_validated_at (x ∷ l) (suc p) t v h = all_validated_at l p t (ground arith) h

  pub task_at_below :
      (p : ℕ) (t : DeliverTxTask) (l : List DeliverTxTask) → task_at p l ≡ some t → p < size l
  task_at_below p t [] h = cc
  task_at_below zero t (x ∷ l) h = omega arith
  task_at_below (suc p) t (x ∷ l) h = let g = task_at_below p t l h in omega arith

  pub size-transactions : (l : List DeliverTxTask) → size (transactions l) ≡ size l
  size-transactions [] = refl
  size-transactions (t ∷ l) = ap suc (size-transactions l)

pub from_position-AllOf : (m : ℕ) (l : List ℕ) → AllOf (λ p. m ≤ p) (from_position m l)
from_position-AllOf m [] = tt
from_position-AllOf m (p ∷ l) = elim (Bool-cases (ltb p m)) [
  | inl g ↦ rw g (from_position-AllOf m l)
  | inr g ↦ rw g ((ground (arith, g), from_position-AllOf m l))
]

pub at_position :
    {A : Type 0} (P : ℕ → Type 0) (m i d : ℕ) (l : List A)
    → AllOf P (from_position m (positions i l))
    → m ≤ i + d
    → d < size l
    → P (i + d)
at_position P m i d [] h g f = absurd (omega (arith, f))
at_position P m i zero (x ∷ l) h g f =
    let from : ltb i m ≡ false = ground (arith, g) in
    let e : i ≡ i + 0 = omega arith in subst P e (rw from at h).0
at_position P m i (suc d) (x ∷ l) h g f =
    let e : suc i + d ≡ i + suc d = omega arith in
    subst P e (at_position P m (suc i) d l (rest (ltb i m) h) (omega (arith, g)) (omega (arith, f)))
  where
    rest :
        (v : Bool)
        → AllOf P (
            if v
            then from_position m (positions (suc i) l)
            else i ∷ from_position m (positions (suc i) l))
        → AllOf P (from_position m (positions (suc i) l))
    rest true h = h
    rest false h = h.1

-- An index of a window is a position.
pub window_position :
    (last m : ℕ) (i : ℤ)
    → not (lt_int i (pos last)) && lt_int i (pos m) ≡ true
    → (j : ℕ) × (i ≡ pos j) × (j < m)
window_position last m (pos j) h = (j, refl, ground arith)
window_position last m (negsuc j) h = cc

-- ===== src/Scheduler/Serial/Entries.antt =====
-- scheduler/scheduler.go: the entries of a block, and the world that ProcessAll starts from.
use go_pevm.Shared.{
  true, ℤ, has, ◌=?◌, ℤ_eq, ◌<◌, ℕ, zero, suc, ◌+◌, pos, ◌≡◌, refl, sym, ap, ◌∙◌, inl, arith, some,
  List, [], ◌∷◌, ℤ_eq, bytes_eq, get,
}
use mathlib.Core.Path.{subst}
use go_pevm.Scheduler.Processing.{Schedule}
use go_pevm.Scheduler.Invariant.{indexes}
use go_pevm.Scheduler.Results.{IsOrder}
use go_pevm.Scheduler.Positions.{AllBelow, size}
use go_pevm.Scheduler.Serial.Phases.{IsShuffle}
use go_pevm.Store.Flush.Accounts.{IsSound}
use go_pevm.External.Kaia.{Kaia}
use go_pevm.External.BTree.{BTree}
use go_pevm.External.Evm.{Evm}
use go_pevm.Versions.{less}
use go_pevm.Store.{new_multi_version_store}
use go_pevm.Store.Invariant.{new_multi_version_store-IsTracked}
use go_pevm.Scheduler.{pending, DeliverTxEntry, DeliverTxTask, to_task, to_tasks, collect_responses}
use go_pevm.Scheduler.Rounds.{DeliverTxFunc, task_at, positions}
use go_pevm.Scheduler.Processing.{start_world}
use go_pevm.Scheduler.Results.{AreEntries}
use go_pevm.Scheduler.Serial.Phases.{AllOf, transactions, IsPhase, Always}

module _ ⦃k : Kaia⦄ ⦃e : Evm k⦄ where
  -- The entries have their positions, from `i` on, as indices.
  abbrev pub AreCounted : ℕ → List DeliverTxEntry → Type 0
  AreCounted i [] = Unit
  AreCounted i (r ∷ l) = (r.entry_index ≡ pos i) × AreCounted (suc i) l

  abbrev pub entry_txs : List DeliverTxEntry → List e.Message
  entry_txs [] = []
  entry_txs (r ∷ l) = r.entry_tx ∷ entry_txs l

  pub AreCounted-AreEntries : (i : ℕ) (l : List DeliverTxEntry) → AreCounted i l → AreEntries l
  AreCounted-AreEntries i [] h = tt
  AreCounted-AreEntries i (r ∷ l) h = ((i, h.0), AreCounted-AreEntries (suc i) l h.1)

  transactions-to_tasks : (l : List DeliverTxEntry) → transactions (to_tasks l) ≡ entry_txs l
  unfolding to_tasks to_task
  transactions-to_tasks [] = refl
  transactions-to_tasks (r ∷ l) = ap (λ x. r.entry_tx ∷ x) (transactions-to_tasks l)

  pub at_first :
      (i p : ℕ) (l : List DeliverTxEntry) (t : DeliverTxTask)
      → AreCounted i l
      → task_at p (to_tasks l) ≡ some t
      → (t.status ≡ pending) × (t.absolute_index ≡ pos (i + p))
  unfolding to_tasks to_task
  at_first i p [] t h g = cc
  at_first i zero (r ∷ l) t h g =
      let same : to_task r ≡ t = cc in
      let e : i ≡ i + 0 = omega arith in
      (ap (λ y. y.status) (sym same), ap (λ y. y.absolute_index) (sym same) ∙ h.0 ∙ ap pos e)
  at_first i (suc p) (r ∷ l) t h g =
      let (a, x) = at_first (suc i) p l t h.1 g in
      let e : suc i + p ≡ i + suc p = omega arith in (a, x ∙ ap pos e)

  pub all_pending :
      (i : ℕ) (l : List DeliverTxEntry) (Q : ℕ → Type 0)
      → ((p : ℕ) (t : DeliverTxTask)
          → task_at p (to_tasks l) ≡ some t
          → t.status ≡ pending
          → Q (i + p))
      → AllOf Q (positions i (to_tasks l))
  unfolding to_tasks to_task
  all_pending i [] Q f = tt
  all_pending i (r ∷ l) Q f =
      let e0 : i + 0 ≡ i = omega arith in
      (
        subst Q e0 (f 0 (to_task r) refl refl),
        all_pending (suc i) l Q (λ p t g x.
            let e1 : i + suc p ≡ suc i + p = omega arith in subst Q e1 (f (suc p) t g x)),
      )

  -- The indices of the tasks are the positions of the entries.
  pub has-counted :
      (i : ℕ) (l : List DeliverTxEntry) (j : ℤ)
      → AreCounted i l
      → has j (indexes (to_tasks l)) ≡ true
      → (d : ℕ) × (j ≡ pos (i + d)) × (d < size l)
  unfolding to_tasks to_task
  has-counted i [] j h g = cc
  has-counted i (r ∷ l) j h g = elim (j =? r.entry_index) [
    | yes e ↦ let z : i ≡ i + 0 = omega arith in (0, e ∙ h.0 ∙ ap pos z, omega arith)
    | no n ↦
        let (d, e, b) = has-counted (suc i) l j h.1 (ground (arith, n, g)) in
        let z : suc i + d ≡ i + suc d = omega arith in (suc d, e ∙ ap pos z, omega (arith, b))
  ]

  pub at-collect_responses :
      (p : ℕ) (t : DeliverTxTask) (l : List DeliverTxTask)
      → task_at p l ≡ some t
      → task_at p (collect_responses l) ≡ some t.response
  unfolding collect_responses
  at-collect_responses p t [] h = cc
  at-collect_responses zero t (x ∷ l) h = let same : x ≡ t = cc in ap (λ y. some y.response) same
  at-collect_responses (suc p) t (x ∷ l) h = at-collect_responses p t l h

module _ ⦃k : Kaia⦄ ⦃e : Evm k⦄ ⦃b : BTree less⦄ (deliver : DeliverTxFunc) (st : k.StateDb) where
  pub start-IsPhase :
      (reqs : List DeliverTxEntry)
      → AreCounted 0 reqs
      → IsSound st
      → IsPhase deliver st (entry_txs reqs) 0 Always (start_world reqs (new_multi_version_store st))
  unfolding start_world new_multi_version_store get
  start-IsPhase reqs h sound = record {
    serial = record {
      placed = λ p t i. (at_first 0 p reqs t h i).1 ∙ ap pos (omega arith);
      regular = record {
        tracked = new_multi_version_store-IsTracked st;
        made = λ q j p. cc;
        values = λ j q vs p. cc;
      };
      delivered = λ p t i r. absurd (cc ((at_first 0 p reqs t h i).0, r));
      steady = record { sound = sound; same_code = λ a. refl };
      flushed = λ q v. inl refl;
      serial = λ p t c i v r. absurd (cc ((at_first 0 p reqs t h i).0, v));
    };
    parallel = refl;
    same_txs = transactions-to_tasks reqs;
    front = λ p t f i. absurd (omega (arith, f));
  }

module _ ⦃k : Kaia⦄ ⦃e : Evm k⦄ ⦃b : BTree less⦄ where
  pub shuffle-IsOrder : (sched : Schedule) → IsShuffle sched → IsOrder sched
  shuffle-IsOrder sched shuffle = record {
    executes = λ n m l h. to_below m _ (shuffle.executes n (λ p. p < m) l (from_below m l h));
    validates = λ n m l h. to_below m _ (shuffle.validates n (λ p. p < m) l (from_below m l h));
  }
    where
      to_below : (m : ℕ) (l : List ℕ) → AllOf (λ p. p < m) l → AllBelow m l
      to_below m [] h = tt
      to_below m (p ∷ l) h = (h.0, to_below m l h.1)

      from_below : (m : ℕ) (l : List ℕ) → AllBelow m l → AllOf (λ p. p < m) l
      from_below m [] h = tt
      from_below m (p ∷ l) h = (h.0, from_below m l h.1)

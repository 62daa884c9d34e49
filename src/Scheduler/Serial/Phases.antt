-- ===== src/Scheduler/Serial/Phases.antt =====
-- scheduler/scheduler.go: what holds of the parallel mode between two steps of ProcessAll, and how one
-- step keeps it.
use go_pevm.Shared.{
  ℕ, zero, suc, ◌≡◌, refl, sym, ap, ◌∙◌, ◌⊎◌, inl, inr, arith, true, false, some, List, [], ◌∷◌,
  ℤ_eq, bytes_eq, ℕ_discrete, ◌<◌, ◌≤◌,
}
use go_pevm.External.Kaia.{Kaia}
use go_pevm.External.BTree.{BTree}
use go_pevm.External.Evm.{Evm}
use go_pevm.Versions.{less}
use go_pevm.Store.{Store}
use go_pevm.Scheduler.{pending, is_validated_status, DeliverTxTask}
use go_pevm.Scheduler.Rounds.{DeliverTxFunc, World, task_at, put_at}
use go_pevm.Scheduler.Serial.{IsAt, IsSerial}
use go_pevm.Scheduler.Serial.Local.{at-put}
use go_pevm.Scheduler.Processing.{Schedule}

abbrev pub AllOf : (ℕ → Type 0) → List ℕ → Type 0
AllOf P [] = Unit
AllOf P (p ∷ l) = P p × AllOf P l

abbrev pub IsAmong : ℕ → List ℕ → Type 0
IsAmong q [] = ⊥
IsAmong q (p ∷ l) = (q ≡ p) ⊎ IsAmong q l

pub AllOf-map : (P Q : ℕ → Type 0) (l : List ℕ) → ((q : ℕ) → P q → Q q) → AllOf P l → AllOf Q l
AllOf-map P Q [] f h = tt
AllOf-map P Q (p ∷ l) f h = (f p h.0, AllOf-map P Q l f h.1)

pub all-IsAmong : (l : List ℕ) → AllOf (λ q. IsAmong q l) l
all-IsAmong [] = tt
all-IsAmong (p ∷ l) = (inl refl, AllOf-map _ _ l (λ q a. inr a) (all-IsAmong l))

module _ ⦃k : Kaia⦄ ⦃e : Evm k⦄ where
  abbrev pub transactions : List DeliverTxTask → List e.Message
  transactions [] = []
  transactions (t ∷ l) = t.tx ∷ transactions l

  pub transactions-put_at :
      (p : ℕ) (t u : DeliverTxTask) (l : List DeliverTxTask)
      → task_at p l ≡ some t
      → u.tx ≡ t.tx
      → transactions (put_at p u l) ≡ transactions l
  transactions-put_at p t u [] h i = refl
  transactions-put_at zero t u (x ∷ l) h i = ground arith
  transactions-put_at (suc p) t u (x ∷ l) h i = ground (arith, transactions-put_at p t u l h i)

module _ ⦃k : Kaia⦄ ⦃e : Evm k⦄ ⦃b : BTree less⦄ where
  -- A schedule gives each of the positions that it was given, and no other.
  pub record IsShuffle (sched : Schedule) : Type 1 where
    pub executes :
        (n : ℕ) (P : ℕ → Type 0) (l : List ℕ) → AllOf P l → AllOf P (sched.executions n l)
    pub validates :
        (n : ℕ) (P : ℕ → Type 0) (l : List ℕ) → AllOf P l → AllOf P (sched.validations n l)
    pub validates_all :
        (n : ℕ) (P : ℕ → Type 0) (l : List ℕ) → AllOf P (sched.validations n l) → AllOf P l

  abbrev pub Always : ℕ → Type 0
  Always p = Unit

module _ ⦃k : Kaia⦄ ⦃e : Evm k⦄ ⦃b : BTree less⦄ (deliver : DeliverTxFunc) (st : k.StateDb)
    (txs : List e.Message) where
  -- A world in the parallel mode with a task for each transaction, of which those before position `m` are validated.
  pub record IsPhase (m : ℕ) (Checked : ℕ → Type 0) (w : World) : Type 0 where
    pub serial : IsSerial deliver st m Checked w
    pub parallel : w.synchronous ≡ false
    pub same_txs : transactions w.tasks ≡ txs
    pub front :
        (p : ℕ) (t : DeliverTxTask) → p < m → IsAt p w t → is_validated_status t.status ≡ true

  -- The task at position `m` is not validated.
  abbrev pub IsStopped : ℕ → World → Type 0
  IsStopped m w = (t : DeliverTxTask) × IsAt m w t × (is_validated_status t.status ≡ false)

  abbrev pub IsPending : ℕ → World → Type 0
  IsPending p w = (t : DeliverTxTask) × IsAt p w t × (t.status ≡ pending)

  pub weaken :
      (m : ℕ) (A B : ℕ → Type 0) (w : World)
      → ((q : ℕ) (t : DeliverTxTask) → IsAt q w t → A q → B q)
      → IsPhase m B w
      → IsPhase m A w
  weaken m A B w f h = record {
    serial = record {
      placed = h.serial.placed;
      regular = h.serial.regular;
      delivered = h.serial.delivered;
      steady = h.serial.steady;
      flushed = h.serial.flushed;
      serial = λ p t c i. h.serial.serial p t (f p t i c) i;
    };
    parallel = h.parallel;
    same_txs = h.same_txs;
    front = h.front;
  }

  -- A step of a task at or after position `m`.
  pub step-IsPhase :
      (m : ℕ) (Before After : ℕ → Type 0) (p : ℕ) (t u : DeliverTxTask) (s' : Store) (c : ℕ)
      (w : World)
      → IsPhase m Before w
      → IsAt p w t
      → m ≤ p
      → u.tx ≡ t.tx
      → IsSerial deliver st m After
          (record w { store = s'; tasks = put_at p u w.tasks; max_incarnation = c })
      → IsPhase m After (record w { store = s'; tasks = put_at p u w.tasks; max_incarnation = c })
  step-IsPhase m Before After p t u s' c w h at le tx g = record {
    serial = g;
    parallel = h.parallel;
    same_txs = transactions-put_at p t u w.tasks at tx ∙ h.same_txs;
    front = λ q x f i. h.front q x f (ground (arith, sym (at-put p q t u w.tasks at) ∙ i, f, le));
  }

  pub put-IsStopped :
      (p : ℕ) (t u : DeliverTxTask) (s' : Store) (m : ℕ) (w : World)
      → IsAt p w t
      → IsStopped m w
      → (is_validated_status t.status ≡ false → is_validated_status u.status ≡ false)
      → IsStopped m (record w { store = s'; tasks = put_at p u w.tasks })
  put-IsStopped p t u s' m w at (x, i, g) f = elim (ℕ_discrete p m) [
    | yes d ↦
        let same : t ≡ x = cc (sym at ∙ (rw (sym d) at i)) in
        (
          u,
          at-put p m t u w.tasks at ∙ ground (arith, d),
          f (ap (λ y. is_validated_status y.status) same ∙ g),
        )
    | no d ↦ (x, at-put p m t u w.tasks at ∙ ground (arith, d, i), g)
  ]

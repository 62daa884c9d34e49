-- ===== src/Scheduler/Serial/Local.antt =====
-- scheduler/scheduler.go: steps that change the store at the index of one task alone.
use go_pevm.Shared.{
  ℕ, ℤ, pos, ◌<◌, ◌≤◌, ◌≡◌, ◌≢◌, ◌⊎◌, inl, inr, refl, sym, ap, ◌∙◌, arith, true, false, some, List,
  [], ◌∷◌, get, ite, ℤ_eq, bytes_eq, lt_int, suc, zero, ltb, ℕ_discrete, Bool-cases,
}
use mathlib.Core.Path.{subst}
use go_pevm.Store.Flush.Accounts.{IsSteady}
use go_pevm.External.Kaia.{Kaia}
use go_pevm.External.BTree.{BTree}
use go_pevm.External.Evm.{Evm}
use go_pevm.Versions.{less}
use go_pevm.Keys.{StorageKey, get_value}
use go_pevm.Store.{Store, get_latest_before_index}
use go_pevm.Store.Invariant.{version}
use go_pevm.Store.Reads.{read_local}
use go_pevm.Store.Validation.Verdicts.{readset_of}
use go_pevm.Scheduler.{DeliverTxTask, is_validated_status}
use go_pevm.Scheduler.Statuses.{has_run}
use go_pevm.Scheduler.Rounds.{DeliverTxFunc, World, task_at, put_at}
use go_pevm.Scheduler.Serial.{
  serial_value, ReadsSerially, IsDelivered, IsAt, IsRegular, IsWritten, AllRan, IsSerial,
}

module _ ⦃k : Kaia⦄ ⦃e : Evm k⦄ where
  pub at-put :
      (p q : ℕ) (t u : DeliverTxTask) (l : List DeliverTxTask)
      → task_at p l ≡ some t
      → task_at q (put_at p u l) ≡ ite (ℕ_discrete p q) (some u) (task_at q l)
  at-put p q t u [] h = cc
  at-put zero zero t u (x ∷ l) h = ground arith
  at-put zero (suc q) t u (x ∷ l) h = ground arith
  at-put (suc p) zero t u (x ∷ l) h = ground arith
  at-put (suc p) (suc q) t u (x ∷ l) h = ground (arith, at-put p q t u l h)

module _ ⦃k : Kaia⦄ ⦃e : Evm k⦄ ⦃b : BTree less⦄ where
  -- The store changes at one index alone.
  pub record IsLocal (i : ℤ) (s s' : Store) : Type 0 where
    pub versions : (q : StorageKey) (j : ℤ) → j ≢ i → version q j s' ≡ version q j s
    pub readsets : (j : ℤ) → j ≢ i → readset_of j s' ≡ readset_of j s
    pub parent : s'.parent_store ≡ s.parent_store

  pub IsLocal-refl : (i : ℤ) (s : Store) → IsLocal i s s
  IsLocal-refl i s = record { versions = λ q j d. refl; readsets = λ j d. refl; parent = refl }

  serial_value-IsLocal :
      (st : k.StateDb) (n : ℕ) (i : ℤ) (q : StorageKey) (s s' : Store)
      → IsLocal i s s'
      → lt_int i (pos n) ≡ false
      → serial_value st (pos n) q s' ≡ serial_value st (pos n) q s
  serial_value-IsLocal st n i q s s' h g =
      let same : get_latest_before_index (pos n) q s' ≡ get_latest_before_index (pos n) q s =
        read_local n q s' s (λ j below. h.versions q j (λ e. ground (arith, e, below, g))) in
      ground (arith, same)

  -- A change at or after position `n` leaves it with the values that it has to read; its readset is
  -- left by a change at another index.
  pub ReadsSerially-IsLocal :
      (st : k.StateDb) (n : ℕ) (i : ℤ) (s s' : Store)
      → IsLocal i s s'
      → lt_int i (pos n) ≡ false
      → pos n ≢ i
      → ReadsSerially st (pos n) (readset_of (pos n) s) s
      → ReadsSerially st (pos n) (readset_of (pos n) s') s'
  ReadsSerially-IsLocal st n i s s' h g d r q vs p =
      let (v, one, at) = r q vs (ap (get q) (sym (h.readsets (pos n) d)) ∙ p) in
      (v, one, serial_value-IsLocal st n i q s s' h g ∙ at)

  IsDelivered-IsLocal :
      (deliver : DeliverTxFunc) (t : DeliverTxTask) (i : ℤ) (s s' : Store)
      → IsLocal i s s'
      → t.absolute_index ≢ i
      → IsDelivered deliver t s
      → IsDelivered deliver t s'
  IsDelivered-IsLocal deliver t i s s' h d g = record {
    asked = g.asked;
    seen = g.seen;
    prepared = g.prepared;
    same_tx = g.same_tx;
    same_index = g.same_index;
    responded = g.responded;
    response = g.response;
    reads = h.readsets t.absolute_index d ∙ g.reads;
    writes = λ q. h.versions q t.absolute_index d ∙ g.writes q;
  }

  -- A step of the task at position `p`, from `t` and `s` to `u` and `s'`.
  pub record IsStep (deliver : DeliverTxFunc) (p : ℕ) (t u : DeliverTxTask) (s s' : Store)
      : Type 0 where
    pub local : IsLocal (pos p) s s'
    pub same_index : u.absolute_index ≡ t.absolute_index
    pub same_tx : u.tx ≡ t.tx
    pub regular : IsRegular s'
    pub delivered : has_run u.status ≡ true → IsDelivered deliver u s'

  pub step-IsSerial :
      (deliver : DeliverTxFunc) (st : k.StateDb) (last : ℕ) (Before After : ℕ → Type 0) (p : ℕ)
      (t u : DeliverTxTask) (s' : Store) (m : ℕ) (w : World)
      → IsSerial deliver st last Before w
      → IsAt p w t
      → last ≤ p
      → IsStep deliver p t u w.store s'
      → ((q : ℕ) → q ≢ p → After q → Before q)
      → (After p
          → is_validated_status u.status ≡ true
          → ReadsSerially st (pos p) (readset_of (pos p) s') s')
      → ((q : ℕ)
          → p < q
          → After q
          → has_run u.status ≡ true
          → (has_run t.status ≡ true) × (s' ≡ w.store))
      → IsSerial deliver st last After
          (record w { store = s'; tasks = put_at p u w.tasks; max_incarnation = m })
  step-IsSerial deliver st last Before After p t u s' m w h at le step other own late = record {
    placed = λ q x g. by_place q x (ℕ_discrete p q) (at_either q x g);
    regular = step.regular;
    delivered = λ q x g r. by_delivery q x (ℕ_discrete p q) (at_either q x g) r;
    steady = subst (IsSteady st) (sym step.local.parent) h.steady;
    flushed = λ q v. by_flush q (h.flushed q v);
    serial = λ q x c g v r. by_order q x c (ℕ_discrete p q) (at_either q x g) v r;
  }
    where
      w' : World
      w' = record w { store = s'; tasks = put_at p u w.tasks; max_incarnation = m }

      at_either :
          (q : ℕ) (x : DeliverTxTask)
          → IsAt q w' x
          → ite (ℕ_discrete p q) (some u) (task_at q w.tasks) ≡ some x
      at_either q x g = sym (at-put p q t u w.tasks at) ∙ g

      at_left : (q : ℕ) (x : DeliverTxTask) → q ≢ p → IsAt q w x → IsAt q w' x
      at_left q x d g = at-put p q t u w.tasks at ∙ ground (arith, d, g)

      at_here : IsAt p w' u
      at_here = at-put p p t u w.tasks at ∙ ground arith

      by_place :
          (q : ℕ) (x : DeliverTxTask) (d : Dec (p ≡ q))
          → ite d (some u) (task_at q w.tasks) ≡ some x
          → x.absolute_index ≡ pos q
      by_place q x (yes d) g = ground (arith, step.same_index, h.placed p t at)
      by_place q x (no d) g = h.placed q x g

      by_delivery :
          (q : ℕ) (x : DeliverTxTask) (d : Dec (p ≡ q))
          → ite d (some u) (task_at q w.tasks) ≡ some x
          → has_run x.status ≡ true
          → IsDelivered deliver x s'
      by_delivery q x (yes d) g r =
          let e : u ≡ x = cc in
          subst (λ y. IsDelivered deliver y s') e
            (step.delivered (ap (λ y. has_run y.status) e ∙ r))
      by_delivery q x (no d) g r =
          let i : x.absolute_index ≡ pos q = h.placed q x g in
          IsDelivered-IsLocal deliver x (pos p) w.store s' step.local (λ e. ground (arith, d, i, e))
            (h.delivered q x g r)

      by_flush :
          (q : StorageKey)
          → (get_value q w.store.parent_store ≡ get_value q st) ⊎ IsWritten last q w.store
          → (get_value q s'.parent_store ≡ get_value q st) ⊎ IsWritten last q s'
      by_flush q (inl e) = inl (ap (get_value q) step.local.parent ∙ e)
      by_flush q (inr (j, v, g, e)) =
          let d : pos j ≢ pos p = λ i. ground (arith, i, g, le) in
          inr (j, v, g, step.local.versions q (pos j) d ∙ e)

      ran_left : (q : ℕ) → q ≤ p → AllRan q w' → AllRan q w
      ran_left q g r j x f i = r j x f (at_left j x (omega arith) i)

      ran_right : (q : ℕ) → has_run t.status ≡ true → AllRan q w' → AllRan q w
      ran_right q g r j x f i = elim (ℕ_discrete j p) [
        | no d ↦ r j x f (at_left j x d i)
        | yes d ↦
            let e : some t ≡ some x = sym at ∙ (rw d at i) in
            let e' : t ≡ x = cc in ap (λ y. has_run y.status) (sym e') ∙ g
      ]

      by_order :
          (q : ℕ) (x : DeliverTxTask)
          → After q
          → (d : Dec (p ≡ q)) → ite d (some u) (task_at q w.tasks) ≡ some x
          → is_validated_status x.status ≡ true
          → AllRan q w'
          → ReadsSerially st (pos q) (readset_of (pos q) s') s'
      by_order q x c (yes d) g v r =
          let e : u ≡ x = cc in
          subst (λ n. ReadsSerially st (pos n) (readset_of (pos n) s') s') d
            (own (subst After (sym d) c) (ap (λ y. is_validated_status y.status) e ∙ v))
      by_order q x c (no d) g v r = elim (Bool-cases (ltb q p)) [
        | inl f ↦
            ReadsSerially-IsLocal st q (pos p) w.store s' step.local (ground (arith, f))
              (λ i. ground (arith, d, i))
              (h.serial q x (other q (λ i. d (sym i)) c) g v (ran_left q (ground (arith, f)) r))
        | inr f ↦
            let after : p < q = ground (arith, f, d) in
            let (ran, same) = late q after c (r p u after at_here) in
            subst (λ y. ReadsSerially st (pos q) (readset_of (pos q) y) y) (sym same)
              (h.serial q x (other q (λ i. d (sym i)) c) g v (ran_right q ran r))
      ]

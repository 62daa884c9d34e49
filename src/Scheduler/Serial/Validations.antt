-- ===== src/Scheduler/Serial/Validations.antt =====
-- scheduler/scheduler.go: validateAll in the parallel mode, as a list of steps.
use go_pevm.Shared.{
  ℕ, pos, ◌≡◌, ◌≢◌, refl, sym, ap, ◌∙◌, ◌⊎◌, inl, inr, arith, Bool, true, false, some, List, [],
  ◌∷◌, ℤ_eq, bytes_eq, ℕ_discrete, if◌then◌else◌, is_some, Option-cases, ◌≤◌,
}
use mathlib.Core.Path.{subst}
use go_pevm.External.Kaia.{Kaia}
use go_pevm.External.BTree.{BTree}
use go_pevm.External.Evm.{Evm}
use go_pevm.Versions.{less}
use go_pevm.Store.{Store}
use go_pevm.Store.Validation.Verdicts.{readset_of, IsCurrent}
use go_pevm.Scheduler.{DeliverTxTask, Rerun, invalidate_task, should_rerun}
use go_pevm.Scheduler.Statuses.{has_run}
use go_pevm.Scheduler.Rounds.{
  DeliverTxFunc, World, task_at, put_at, larger, validate_one, validate_positions,
}
use go_pevm.Scheduler.Serial.{ReadsSerially, IsDelivered, IsAt, IsRegular}
use go_pevm.Scheduler.Serial.Local.{at-put, IsLocal, IsLocal-refl, IsStep, step-IsSerial}
use go_pevm.Scheduler.Serial.Stores.{invalidate-IsLocal, invalidate-IsRegular}
use go_pevm.Scheduler.Serial.Checks.{restarted, IsChecked, current_serial, should_rerun-IsChecked}
use go_pevm.Scheduler.Serial.Phases.{AllOf, IsAmong, IsPhase, IsPending, weaken, step-IsPhase}
use go_pevm.Scheduler.Serial.Fronts.{validated_ran}

module _ ⦃k : Kaia⦄ ⦃e : Evm k⦄ ⦃b : BTree less⦄ (deliver : DeliverTxFunc) (st : k.StateDb)
    (txs : List e.Message) where
  checked-IsStep :
      (p : ℕ) (t : DeliverTxTask) (s : Store) (r : Rerun)
      → t.absolute_index ≡ pos p
      → IsRegular s
      → (has_run t.status ≡ true → IsDelivered deliver t s)
      → IsChecked t s r
      → IsStep deliver p t (restarted r) s r.store
  checked-IsStep p t s r here h g c = record {
    local = store_local c.left;
    same_index = c.same_index;
    same_tx = c.same_tx;
    regular = store_regular c.left;
    delivered = λ x.
        let (ran, same, response) = c.ran x in
        let d = g ran in
        record {
          asked = d.asked;
          seen = d.seen;
          prepared = d.prepared;
          same_tx = d.same_tx ∙ sym c.same_tx;
          same_index = d.same_index ∙ sym c.same_index;
          responded = ap is_some response ∙ d.responded;
          response = d.response ∙ sym response;
          reads = rw (same, c.same_index) d.reads;
          writes = rw (same, c.same_index) d.writes;
        };
  }
    where
      i_local : IsLocal (pos p) s (invalidate_task t s)
      i_local =
          subst (λ i. IsLocal i s (invalidate_task t s)) here
            (unfold invalidate_task in invalidate-IsLocal t.absolute_index t.incarnation s h)

      store_local : (r.store ≡ s) ⊎ (r.store ≡ invalidate_task t s) → IsLocal (pos p) s r.store
      store_local (inl e) = subst (λ y. IsLocal (pos p) s y) (sym e) (IsLocal-refl (pos p) s)
      store_local (inr e) = subst (λ y. IsLocal (pos p) s y) (sym e) i_local

      i_regular : IsRegular (invalidate_task t s)
      i_regular = unfold invalidate_task in invalidate-IsRegular t.absolute_index t.incarnation s h

      store_regular : (r.store ≡ s) ⊎ (r.store ≡ invalidate_task t s) → IsRegular r.store
      store_regular (inl e) = subst IsRegular (sym e) h
      store_regular (inr e) = subst IsRegular (sym e) i_regular

  -- The closure of validateAll, for a task at or after position `m`.
  check-IsPhase :
      (m p c : ℕ) (Checked : ℕ → Type 0) (t : DeliverTxTask) (r : Rerun) (w : World)
      → IsPhase deliver st txs m Checked w
      → m ≤ p
      → IsAt p w t
      → IsChecked t w.store r
      → IsPhase deliver st txs m
          (λ q. Checked q ⊎ (q ≡ p))
          (record w {
            store = r.store;
            tasks = put_at p (restarted r) w.tasks;
            max_incarnation = c;
          })
  check-IsPhase m p c Checked t r w h le at k =
      let here : t.absolute_index ≡ pos p = h.serial.placed p t at in
      step-IsPhase deliver st txs m Checked (λ q. Checked q ⊎ (q ≡ p)) p t (restarted r) r.store c w
        h at le k.same_tx
        (step-IsSerial deliver st m Checked (λ q. Checked q ⊎ (q ≡ p)) p t (restarted r) r.store c w
          h.serial at le
          (checked-IsStep p t w.store r here h.serial.regular (h.serial.delivered p t at) k)
          (λ q d a. before q d a)
          (λ a v.
            let same = (k.ran (validated_ran _ v)).1 in
            subst (λ y. ReadsSerially st (pos p) (readset_of (pos p) y) y) (sym same)
              (current_serial deliver st m p Checked w h.serial le
                (subst (λ i. IsCurrent i w.store (readset_of i w.store)) here (k.current v))))
          (λ q above a g. let (ran, same, _) = k.ran g in (ran, same)))
    where
      before : (q : ℕ) → q ≢ p → Checked q ⊎ (q ≡ p) → Checked q
      before q d (inl a) = a
      before q d (inr e) = absurd (d e)

  put-IsPending :
      (p q c : ℕ) (t : DeliverTxTask) (r : Rerun) (w : World)
      → IsAt p w t
      → IsChecked t w.store r
      → IsPending deliver st txs q w
      → IsPending deliver st txs q (record w {
        store = r.store;
        tasks = put_at p (restarted r) w.tasks;
        max_incarnation = c;
      })
  put-IsPending p q c t r w at k (x, i, g) = elim (ℕ_discrete p q) [
    | yes d ↦
        let same : t ≡ x = cc (sym at ∙ (rw (sym d) at i)) in
        (
          restarted r,
          at-put p q t (restarted r) w.tasks at ∙ ground (arith, d),
          k.idle (ap (λ y. y.status) same ∙ g),
        )
    | no d ↦ (x, at-put p q t (restarted r) w.tasks at ∙ ground (arith, d, i), g)
  ]

  -- What one call of the closure leaves.
  record Passes (m p : ℕ) (Checked : ℕ → Type 0) (w : World) (o : Bool × World) : Type 0 where
    phase : IsPhase deliver st txs m (λ q. Checked q ⊎ (q ≡ p)) o.1
    again : o.0 ≡ true → IsPending deliver st txs p o.1
    keeps : (q : ℕ) → IsPending deliver st txs q w → IsPending deliver st txs q o.1

  validate_one_phase :
      (m p : ℕ) (Checked : ℕ → Type 0) (w : World) (o : Bool × World)
      → IsPhase deliver st txs m Checked w
      → m ≤ p
      → validate_one p w ≡ some o
      → Passes m p Checked w o
  validate_one_phase m p Checked w o h le x = elim (Option-cases (task_at p w.tasks)) [
    | inl at ↦ absurd (unfold validate_one in cc (rw at at x))
    | inr (t, at) ↦ elim (Option-cases (should_rerun w.tasks t w.store)) [
      | inl g ↦ absurd (unfold validate_one in cc (rw (at, g) at x))
      | inr (r, g) ↦
          let k = should_rerun-IsChecked w.tasks t w.store r g in
          let c : ℕ =
            if r.rerun
            then larger (restarted r).incarnation w.max_incarnation
            else w.max_incarnation in
          let w1 : World = record w {
            store = r.store;
            tasks = put_at p (restarted r) w.tasks;
            max_incarnation = c;
          } in
          let done : validate_one p w ≡ some (r.rerun, w1) =
            unfold validate_one in rw (at, g) refl in
          let same : some (r.rerun, w1) ≡ some o = sym done ∙ x in
          let same' : (r.rerun, w1) ≡ o = cc in
          subst (λ y. Passes m p Checked w y) same'
            (record {
              phase = check-IsPhase m p c Checked t r w h le at k;
              again = λ a.
                  (restarted r, at-put p p t (restarted r) w.tasks at ∙ ground arith, k.again a);
              keeps = λ q y. put-IsPending p q c t r w at k y;
            })
    ]
  ]

  -- What validateAll leaves: the positions to execute again are pending.
  pub record AllPass (m : ℕ) (l : List ℕ) (Checked : ℕ → Type 0) (w : World) (o : List ℕ × World)
      : Type 0 where
    pub phase : IsPhase deliver st txs m (λ q. Checked q ⊎ IsAmong q l) o.1
    pub again : AllOf (λ q. IsPending deliver st txs q o.1) o.0
    pub keeps : (q : ℕ) → IsPending deliver st txs q w → IsPending deliver st txs q o.1

  pub validate_positions_phase :
      (m : ℕ) (l : List ℕ) (Checked : ℕ → Type 0) (w : World) (o : List ℕ × World)
      → IsPhase deliver st txs m Checked w
      → AllOf (λ p. m ≤ p) l
      → validate_positions l w ≡ some o
      → AllPass m l Checked w o
  unfolding validate_positions
  validate_positions_phase m [] Checked w o h le x =
      let same : ([], w) ≡ o = cc in
      subst (λ y. AllPass m [] Checked w y) same
        (record {
          phase = weaken deliver st txs m _ Checked w (λ q _ _ a. none_among q a) h;
          again = tt;
          keeps = λ q y. y;
        })
    where
      none_among : (q : ℕ) → Checked q ⊎ ⊥ → Checked q
      none_among q (inl a) = a
      none_among q (inr a) = absurd a
  validate_positions_phase m (p ∷ l) Checked w o h le x = elim (Option-cases (validate_one p w)) [
    | inl g ↦ absurd (cc (rw g at x))
    | inr (one, g) ↦ elim (Option-cases (validate_positions l one.1)) [
      | inl f ↦ absurd (cc (rw (g, f) at x))
      | inr (rest, f) ↦
          let first = validate_one_phase m p Checked w one h le.0 g in
          let others =
            validate_positions_phase m l (λ q. Checked q ⊎ (q ≡ p)) one.1 rest first.phase le.1 f in
          let same : some ((if one.0 then p ∷ rest.0 else rest.0), rest.1) ≡ some o =
            rw (g, f) at x in
          let same' : ((if one.0 then p ∷ rest.0 else rest.0), rest.1) ≡ o = cc in
          subst (λ y. AllPass m (p ∷ l) Checked w y) same'
            (record {
              phase = weaken deliver st txs m _ _ rest.1 (λ q _ _ a. regroup q a) others.phase;
              again = with_first one.0 rest (λ a. others.keeps p (first.again a)) others.again;
              keeps = λ q y. others.keeps q (first.keeps q y);
            })
    ]
  ]
    where
      regroup : (q : ℕ) → Checked q ⊎ ((q ≡ p) ⊎ IsAmong q l) → (Checked q ⊎ (q ≡ p)) ⊎ IsAmong q l
      regroup q (inl a) = inl (inl a)
      regroup q (inr (inl a)) = inl (inr a)
      regroup q (inr (inr a)) = inr a

      with_first :
          (a : Bool) (rest : List ℕ × World)
          → (a ≡ true → IsPending deliver st txs p rest.1)
          → AllOf (λ q. IsPending deliver st txs q rest.1) rest.0
          → AllOf (λ q. IsPending deliver st txs q rest.1) (if a then p ∷ rest.0 else rest.0)
      with_first true rest f g = (f refl, g)
      with_first false rest f g = g

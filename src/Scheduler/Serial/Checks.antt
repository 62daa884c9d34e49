-- ===== src/Scheduler/Serial/Checks.antt =====
-- scheduler/scheduler.go: what shouldRerun, called for a task by validateAll, leaves of it.
use go_pevm.Shared.{
  ℕ, ℤ, pos, ◌≡◌, refl, sym, ap, ◌∙◌, ◌⊎◌, inl, inr, arith, Bool, true, false, Option, none, some,
  List, [], ◌∷◌, get, ite, ◌=?◌, ℤ_eq, bytes_eq, if◌then◌else◌, Option-cases, Bool-cases, ◌≤◌,
  lt_int,
}
use mathlib.Core.Path.{subst}
use go_pevm.External.Kaia.{Kaia}
use go_pevm.External.BTree.{BTree}
use go_pevm.External.Evm.{Evm}
use go_pevm.Versions.{ValueItem, less}
use go_pevm.Versions.Order.{IsLatestBelow}
use go_pevm.Keys.{StorageKey, get_value}
use go_pevm.Store.{Store, ReadSet, get_latest_before_index}
use go_pevm.Store.Invariant.{version}
use go_pevm.Store.Reads.{read-IsLatestBelow}
use go_pevm.Store.Validation.Verdicts.{readset_of, expected, IsCurrent, validate_valid_iff}
use go_pevm.Scheduler.{
  Status, pending, executed, aborted, validated, waiting, is_validated_status, DeliverTxTask, Rerun,
  wait_unless, add_all, append_dependencies, reset, increment, find_conflicts, invalidate_task,
  recheck, should_rerun_from, should_rerun, is_empty, dependencies_validated,
}
use go_pevm.Scheduler.Statuses.{has_run}
use go_pevm.Scheduler.Rounds.{DeliverTxFunc, World}
use go_pevm.Scheduler.Serial.{serial_value, ReadsSerially, IsSerial, IsWritten}

module _ ⦃k : Kaia⦄ ⦃e : Evm k⦄ ⦃b : BTree less⦄ where
  -- A read that is current is serial: where no transaction before position `p` has a version of the
  -- key, the flushes have not changed it.
  current_value :
      (st : k.StateDb) (last p : ℕ) (q : StorageKey) (v : k.Hash) (s : Store)
      → last ≤ p
      → (get_value q s.parent_store ≡ get_value q st) ⊎ IsWritten last q s
      → expected (pos p) q s ≡ some v
      → serial_value st (pos p) q s ≡ some v
  current_value st last p q v s le f h =
      by_latest (get_latest_before_index (pos p) q s) (read-IsLatestBelow p q s) f h
    where
      by_latest :
          (o : Option ValueItem)
          → IsLatestBelow (λ j. version q j s) (pos p) o
          → (get_value q s.parent_store ≡ get_value q st) ⊎ IsWritten last q s
          → elim o [
            | none ↦ some (get_value q s.parent_store)
            | some w ↦ if w.estimate then none else some w.value
          ]
            ≡ some v
          → elim o [
            | none ↦ some (get_value q st)
            | some w ↦ if w.estimate then none else some w.value
          ]
            ≡ some v
      by_latest none l (inl g) x = ap some (sym g) ∙ x
      by_latest none l (inr (j, w, g, y)) x =
          let below : lt_int (pos j) (pos p) ≡ true = ground (arith, g, le) in
          absurd (cc (l (pos j) below, y))
      by_latest (some w) l g x = x

  current_entry :
      (i : ℤ) (s : Store) (rs : ReadSet) (q : StorageKey) (vs : List k.Hash)
      → IsCurrent i s rs
      → get q rs ≡ some vs
      → (v : k.Hash) × (vs ≡ v ∷ []) × (expected i q s ≡ some v)
  unfolding get
  current_entry i s [] q vs h g = cc
  current_entry i s ((key, ws) ∷ rs) q vs h g = by_key (key =? q) g (current_entry i s rs q vs h.1)
    where
      by_key :
          (d : Dec (key ≡ q))
          → ite d (some ws) (get q rs) ≡ some vs
          → (get q rs ≡ some vs → (v : k.Hash) × (vs ≡ v ∷ []) × (expected i q s ≡ some v))
          → (v : k.Hash) × (vs ≡ v ∷ []) × (expected i q s ≡ some v)
      by_key (yes d) g rest =
          let (v, one, now) = h.0 in
          let same : ws ≡ vs = cc in (v, sym same ∙ one, subst (λ x. expected i x s ≡ some v) d now)
      by_key (no d) g rest = rest g

  -- A task whose readset is current has read serially.
  pub current_serial :
      (deliver : DeliverTxFunc) (st : k.StateDb) (last p : ℕ) (Checked : ℕ → Type 0) (w : World)
      → IsSerial deliver st last Checked w
      → last ≤ p
      → IsCurrent (pos p) w.store (readset_of (pos p) w.store)
      → ReadsSerially st (pos p) (readset_of (pos p) w.store) w.store
  current_serial deliver st last p Checked w h le c q vs g =
      let (v, one, now) = current_entry (pos p) w.store _ q vs c g in
      (
        v,
        one,
        current_value st last p q v w.store le (h.flushed q (h.regular.values (pos p) q vs g)) now,
      )

  -- The task after the closure of validateAll.
  abbrev pub restarted : Rerun → DeliverTxTask
  restarted r = if r.rerun then increment (reset r.task) else r.task

  pub record IsChecked (t : DeliverTxTask) (s : Store) (r : Rerun) : Type 0 where
    pub left : (r.store ≡ s) ⊎ (r.store ≡ invalidate_task t s)
    pub same_index : (restarted r).absolute_index ≡ t.absolute_index
    pub same_tx : (restarted r).tx ≡ t.tx
    pub ran :
        has_run (restarted r).status ≡ true
        → (has_run t.status ≡ true) × (r.store ≡ s) × ((restarted r).response ≡ t.response)
    pub current :
        is_validated_status (restarted r).status ≡ true
        → IsCurrent t.absolute_index s (readset_of t.absolute_index s)
    pub idle : t.status ≡ pending → (restarted r).status ≡ pending
    pub again : r.rerun ≡ true → (restarted r).status ≡ pending

  again-IsChecked :
      (t : DeliverTxTask) (s : Store) → IsChecked t s (record { rerun = true; task = t; store = s })
  unfolding reset increment
  again-IsChecked t s = record {
    left = inl refl;
    same_index = refl;
    same_tx = refl;
    ran = λ h. cc;
    current = λ h. cc;
    idle = λ h. refl;
    again = λ h. refl;
  }

  waiting-IsChecked :
      (ready : Bool) (t : DeliverTxTask) (s : Store)
      → t.status ≡ waiting
      → IsChecked t s (record { rerun = ready; task = t; store = s })
  waiting-IsChecked true t s w = again-IsChecked t s
  waiting-IsChecked false t s w = record {
    left = inl refl;
    same_index = refl;
    same_tx = refl;
    ran = λ h. absurd (cc (w, h));
    current = λ h. absurd (cc (w, h));
    idle = λ h. h;
    again = λ h. cc;
  }

  stale-IsChecked :
      (ready : Bool) (t : DeliverTxTask) (s : Store)
      → has_run t.status ≡ true
      → IsChecked t s
          (wait_unless ready (append_dependencies (find_conflicts t s).1 t) (invalidate_task t s))
  unfolding reset increment append_dependencies
  stale-IsChecked true t s h = record {
    left = inr refl;
    same_index = refl;
    same_tx = refl;
    ran = λ g. cc;
    current = λ g. cc;
    idle = λ g. refl;
    again = λ g. refl;
  }
  stale-IsChecked false t s h = record {
    left = inr refl;
    same_index = refl;
    same_tx = refl;
    ran = λ g. cc;
    current = λ g. cc;
    idle = λ g. absurd (cc (g, h));
    again = λ g. cc;
  }

  valid-IsChecked :
      (x : Status) (t : DeliverTxTask) (s : Store)
      → has_run t.status ≡ true
      → (find_conflicts t s).0 ≡ true
      → IsChecked t s (record { rerun = false; task = record t { status = x }; store = s })
  unfolding find_conflicts
  valid-IsChecked x t s h v = record {
    left = inl refl;
    same_index = refl;
    same_tx = refl;
    ran = λ g. (h, refl, refl);
    current = λ g. (validate_valid_iff t.absolute_index s).0 v;
    idle = λ g. absurd (cc (g, h));
    again = λ g. cc;
  }

  recheck-IsChecked :
      (tasks : List DeliverTxTask) (t : DeliverTxTask) (s : Store) (r : Rerun)
      → has_run t.status ≡ true
      → recheck tasks t s ≡ some r
      → IsChecked t s r
  recheck-IsChecked tasks t s r h q = elim (Bool-cases (find_conflicts t s).0) [
    | inl v ↦ elim (Bool-cases (is_empty (find_conflicts t s).1)) [
      | inl z ↦ given _ (valid-IsChecked validated t s h v) (unfold recheck in ground (arith, v, z))
      | inr z ↦ given _ (valid-IsChecked t.status t s h v) (unfold recheck in ground (arith, v, z))
    ]
    | inr v ↦
        elim (Option-cases
          (dependencies_validated tasks (add_all (find_conflicts t s).1 t.dependencies))) [
            | inl d ↦
                let e : recheck tasks t s ≡ none =
                  unfold recheck append_dependencies in ground (arith, v, d) in
                absurd (cc (e, q))
            | inr (ready, d) ↦
                given _ (stale-IsChecked ready t s h)
                  (unfold recheck append_dependencies in ground (arith, v, d))
          ]
  ]
    where
      given : (x : Rerun) → IsChecked t s x → recheck tasks t s ≡ some x → IsChecked t s r
      given x g e =
          let same : some x ≡ some r = sym e ∙ q in
          let same' : x ≡ r = cc in subst (λ y. IsChecked t s y) same' g

  pub should_rerun-IsChecked :
      (tasks : List DeliverTxTask) (t : DeliverTxTask) (s : Store) (r : Rerun)
      → should_rerun tasks t s ≡ some r
      → IsChecked t s r
  unfolding should_rerun should_rerun_from
  should_rerun-IsChecked tasks t s r q = by_status t.status refl q
    where
      given : (x : Rerun) → some x ≡ some r → IsChecked t s x → IsChecked t s r
      given x e g = let same : x ≡ r = cc in subst (λ y. IsChecked t s y) same g

      by_status :
          (x : Status) → t.status ≡ x → should_rerun_from x tasks t s ≡ some r → IsChecked t s r
      by_status pending x e = given _ e (again-IsChecked t s)
      by_status aborted x e = given _ e (again-IsChecked t s)
      by_status executed x e = recheck-IsChecked tasks t s r (ap has_run x) e
      by_status validated x e = recheck-IsChecked tasks t s r (ap has_run x) e
      by_status waiting x e = elim (Option-cases (dependencies_validated tasks t.dependencies)) [
        | inl d ↦ absurd (cc (rw d at e))
        | inr (ready, d) ↦ given _ (rw d at e) (waiting-IsChecked ready t s x)
      ]

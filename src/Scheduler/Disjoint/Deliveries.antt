-- ===== src/Scheduler/Disjoint/Deliveries.antt =====
-- scheduler/scheduler.go: executeTask in the first round of a block with disjoint transactions.
use go_pevm.Shared.{
  ℕ, ℤ, pos, ◌≡◌, refl, sym, ap, ◌∙◌, inl, inr, arith, true, [], Option, none, some, get, is_some,
  ite, ◌=?◌, bytes_eq, ℤ_eq, Option-cases,
}
use mathlib.Core.Path.{subst}
use go_pevm.External.Kaia.{Kaia}
use go_pevm.External.BTree.{BTree}
use go_pevm.External.Evm.{Evm}
use go_pevm.Versions.{ValueItem, less}
use go_pevm.Keys.{StorageKey}
use go_pevm.Store.{Store, set_readset, set_writeset}
use go_pevm.Store.Versioned.{fresh}
use go_pevm.Store.Invariant.{
  IsTracked, version, version-set_writeset, set_writeset-IsTracked, set_readset-IsTracked,
}
use go_pevm.Store.Validation.Verdicts.{readset_of}
use go_pevm.Tracer.{AccessListTracer, write_to_multi_version_store}
use go_pevm.Scheduler.{Status, Response, DeliverTxTask}
use go_pevm.Scheduler.Statuses.{has_run}
use go_pevm.Scheduler.Rounds.{Delivery, DeliverTxFunc, prepare_task, finish_task, run_task}
use go_pevm.Scheduler.Steps.{IsPrepared, IsHonest}
use go_pevm.Scheduler.Serial.Local.{IsLocal}
use go_pevm.Scheduler.Serial.Stores.{readset_of-set_readset, set_sets-IsLocal}
use go_pevm.Scheduler.Disjoint.{IsClear, IsApart, IsDisjoint}

module _ ⦃k : Kaia⦄ ⦃e : Evm k⦄ ⦃b : BTree less⦄ (Writes : ℕ → StorageKey → Type 0)
    (deliver : DeliverTxFunc) (honest : IsHonest deliver)
    (disjoint : IsDisjoint Writes deliver) where
  -- What executeTask leaves of a task at position `p` and of a store.
  pub record IsRun (p : ℕ) (t u : DeliverTxTask) (s s' : Store) : Type 0 where
    pub ran : has_run u.status ≡ true
    pub same_index : u.absolute_index ≡ t.absolute_index
    pub local : IsLocal (pos p) s s'
    pub tracked : IsTracked s'
    pub clear : IsClear Writes s'
    pub apart : IsApart Writes p s.parent_store (readset_of (pos p) s')

  module _ (p : ℕ) (t : DeliverTxTask) (s : Store) (here : t.absolute_index ≡ pos p)
      (tracked : IsTracked s) (clear : IsClear Writes s) where
    pub asked : DeliverTxTask
    unfolding prepare_task
    asked = record (prepare_task t) { state = some s.parent_store }

    asked-IsPrepared : IsPrepared asked s
    unfolding asked prepare_task
    asked-IsPrepared = record { tracer = refl; position = (p, here); copied = refl }

    asked_index : asked.absolute_index ≡ pos p
    unfolding asked prepare_task
    asked_index = here

    abbrev pub done : Delivery
    done = deliver asked s

    own : done.traced.transaction_index ≡ pos p
    own = honest.own_index asked s asked-IsPrepared ∙ asked_index

    delivered_task : DeliverTxTask
    unfolding asked
    delivered_task = record t {
      version_stores = some (done.traced);
      state = some (done.left_state);
      used_gas = done.gas_used;
    }

    pub left : Response → DeliverTxTask
    unfolding delivered_task
    left r = record delivered_task { status = Status.executed; response = some r }

    abbrev outcome : Option Response → DeliverTxTask × Store
    outcome none = (delivered_task, s)
    outcome (some r) =
        finish_task done.traced.aborted_channel.buffered r done.traced delivered_task s

    run_task-outcome : run_task deliver t s ≡ outcome done.result
    unfolding run_task delivered_task asked prepare_task
    run_task-outcome = refl

    pub answers : is_some done.result ≡ true
    answers = disjoint.answers p asked s asked-IsPrepared asked_index clear

    pub run_task-eq :
        (r : Response)
        → done.result ≡ some r
        → run_task deliver t s ≡ (left r, write_to_multi_version_store done.traced s)
    unfolding finish_task left
    run_task-eq r q =
        let ended : done.traced.aborted_channel.buffered ≡ [] =
          disjoint.no_abort p asked s asked-IsPrepared asked_index clear in
        run_task-outcome
        ∙ ap outcome q
        ∙ ap (λ l. finish_task l r done.traced delivered_task s) ended

    written_by :
        (q : StorageKey) (j : ℤ) (v : ValueItem) (d : Dec (done.traced.transaction_index ≡ j))
        → ite d
            (fresh done.traced.transaction_index done.traced.incarnation
              (get q done.traced.writeset))
            (version q j s)
          ≡ some v
        → (n : ℕ) × (j ≡ pos n) × Writes n q
    written_by q j v (no d) h = clear q j v h
    written_by q j v (yes d) h = elim (Option-cases (get q done.traced.writeset)) [
      | inl g ↦ absurd (cc (rw g at h))
      | inr (x, g) ↦
          (p, sym d ∙ own, disjoint.writes p asked s q x asked-IsPrepared asked_index clear g)
    ]

    asked-IsApart : IsApart Writes p s.parent_store done.traced.readset
    unfolding asked prepare_task
    asked-IsApart = disjoint.reads p asked s asked-IsPrepared asked_index clear

    pub write-IsRun :
        (r : Response) → IsRun p t (left r) s (write_to_multi_version_store done.traced s)
    unfolding left delivered_task write_to_multi_version_store
    write-IsRun r =
        let d : AccessListTracer = done.traced in
        let i = d.transaction_index in
        let wmap = honest.writes asked s asked-IsPrepared in
        let s1 = set_writeset i d.incarnation d.writeset s in
        record {
          ran = refl;
          same_index = refl;
          local =
              subst (λ x. IsLocal x s (set_readset i d.readset s1)) own
                (set_sets-IsLocal i d.incarnation d.writeset d.readset s tracked wmap);
          tracked =
              set_readset-IsTracked i d.readset s1
                (set_writeset-IsTracked i d.incarnation d.writeset s tracked wmap);
          clear = λ q j v h. written_by q j v (i =? j) (
              sym (version-set_writeset i j d.incarnation d.writeset q s tracked wmap)
              ∙ unfold set_readset in h);
          apart =
              subst (IsApart Writes p s.parent_store)
                (sym (readset_of-set_readset i (pos p) d.readset s1 ∙ ground (arith, own)))
                asked-IsApart;
        }

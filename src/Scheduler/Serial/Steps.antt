-- ===== src/Scheduler/Serial/Steps.antt =====
-- scheduler/scheduler.go: executeTask in the parallel mode and the closure of validateAll, as steps
-- of one task.
use go_pevm.Shared.{
  ℕ, ℤ, pos, ◌≡◌, refl, sym, ap, ◌∙◌, arith, true, false, Option, none, some, List, [], ◌∷◌, get,
  ite, ◌=?◌, ℤ_eq, bytes_eq,
}
use mathlib.Core.Path.{subst}
use go_pevm.External.Kaia.{Kaia}
use go_pevm.External.BTree.{BTree}
use go_pevm.External.Evm.{Evm}
use go_pevm.Versions.{ValueItem, less}
use go_pevm.Keys.{StorageKey}
use go_pevm.Store.{Store, ReadSet, set_readset}
use go_pevm.Store.Versioned.{fresh}
use go_pevm.Store.Invariant.{version, version-set_writeset}
use go_pevm.Tracer.{
  AccessListTracer, Abort, write_to_multi_version_store, write_estimates_to_multi_version_store,
}
use go_pevm.Scheduler.{Status, Response, is_validated_status, DeliverTxTask, append_dependencies}
use go_pevm.Scheduler.Statuses.{has_run}
use go_pevm.Scheduler.Rounds.{DeliverTxFunc, Delivery, prepare_task, finish_task, run_task}
use go_pevm.Scheduler.Steps.{IsPrepared, IsHonest}
use go_pevm.Scheduler.Serial.{IsDelivered, UsesValues, IsRegular}
use go_pevm.Scheduler.Serial.Local.{IsLocal, IsLocal-refl, IsStep}
use go_pevm.Scheduler.Serial.Stores.{
  readset_of-set_readset, set_sets-IsLocal, set_sets-IsRegular, set_estimates-IsLocal,
  set_estimates-IsRegular,
}

module _ ⦃k : Kaia⦄ ⦃e : Evm k⦄ ⦃b : BTree less⦄ (deliver : DeliverTxFunc)
    (honest : IsHonest deliver) (uses : UsesValues deliver) (p : ℕ) (t : DeliverTxTask) (s : Store)
    (here : t.absolute_index ≡ pos p) (h : IsRegular s) where
  asked : DeliverTxTask
  unfolding prepare_task
  asked = record (prepare_task t) { state = some s.parent_store }

  asked-IsPrepared : IsPrepared asked s
  unfolding asked prepare_task
  asked-IsPrepared = record { tracer = refl; position = (p, here); copied = refl }

  abbrev done : Delivery
  done = deliver asked s

  left : DeliverTxTask
  unfolding asked
  left = record t {
    version_stores = some (done.traced);
    state = some (done.left_state);
    used_gas = done.gas_used;
  }

  own : done.traced.transaction_index ≡ pos p
  own = honest.own_index asked s asked-IsPrepared ∙ unfold asked prepare_task in here

  -- The task after a delivery that was not aborted.
  delivered :
      (r : Response)
      → done.result ≡ some r
      → IsDelivered deliver
          (record left { status = Status.executed; response = some r })
          (write_to_multi_version_store done.traced s)
  unfolding left asked prepare_task write_to_multi_version_store
  delivered r q = record {
    asked = asked;
    seen = s;
    prepared = asked-IsPrepared;
    same_tx = refl;
    same_index = refl;
    responded = refl;
    response = q;
    reads = readset_of-set_readset i t.absolute_index rs _ ∙ ground (arith, own_task);
    writes = λ key.
        unfold set_readset in
        (version-set_writeset i t.absolute_index d.incarnation d.writeset key s h.tracked
            (honest.writes asked s asked-IsPrepared)
          ∙ ap (fresh_at key) own_task
          ∙ ground arith);
  }
    where
      d : AccessListTracer
      d = done.traced

      i : ℤ
      i = d.transaction_index

      rs : ReadSet
      rs = d.readset

      own_task : i ≡ t.absolute_index
      own_task = own ∙ sym here

      fresh_at : StorageKey → ℤ → Option ValueItem
      fresh_at key j =
          ite (j =? t.absolute_index) (fresh j d.incarnation (get key d.writeset))
            (version key t.absolute_index s)

  -- What finishing a task leaves.
  finish-IsStep :
      (l : List Abort) (r : Response)
      → done.traced.aborted_channel.buffered ≡ l
      → done.result ≡ some r
      → let q = finish_task l r done.traced left s in IsStep deliver p t q.0 s q.1
  unfolding finish_task write_to_multi_version_store write_estimates_to_multi_version_store left
      asked prepare_task append_dependencies
  finish-IsStep [] r a q =
      let d = done.traced in
      record {
        local =
            subst (λ i. IsLocal i s (write_to_multi_version_store d s)) own
              (set_sets-IsLocal d.transaction_index d.incarnation d.writeset d.readset s h.tracked
                (honest.writes asked s asked-IsPrepared));
        same_index = refl;
        same_tx = refl;
        regular =
            set_sets-IsRegular _ _ _ _ s h (honest.writes asked s asked-IsPrepared)
              (λ key v g. uses.writes asked s key v asked-IsPrepared g)
              (λ key vs g. uses.reads asked s key vs asked-IsPrepared g);
        delivered = λ g. delivered r q;
      }
  finish-IsStep (c ∷ l) r a q =
      let d = done.traced in
      record {
        local =
            subst (λ i. IsLocal i s (write_estimates_to_multi_version_store d s)) own
              (set_estimates-IsLocal d.transaction_index d.incarnation d.writeset [] s h);
        same_index = refl;
        same_tx = refl;
        regular =
            set_estimates-IsRegular _ _ _ [] s h
              (λ key v g. uses.writes asked s key v asked-IsPrepared g);
        delivered = λ g. cc;
      }

  finish_not_validated :
      (l : List Abort) (r : Response)
      → is_validated_status (finish_task l r done.traced left s).0.status ≡ false
  unfolding finish_task append_dependencies
  finish_not_validated [] r = refl
  finish_not_validated (c ∷ l) r = refl

  abbrev outcome : Option Response → DeliverTxTask × Store
  outcome none = (left, s)
  outcome (some r) = finish_task done.traced.aborted_channel.buffered r done.traced left s

  -- executeTask in the parallel mode.
  pub run_task-IsStep :
      (has_run t.status ≡ true → IsDelivered deliver t s)
      → let q = run_task deliver t s in IsStep deliver p t q.0 s q.1
  unfolding run_task left asked prepare_task
  run_task-IsStep g = by_result done.result refl
    where
      by_result :
          (o : Option Response) → done.result ≡ o → IsStep deliver p t (outcome o).0 s (outcome o).1
      by_result none e = record {
        local = IsLocal-refl (pos p) s;
        same_index = refl;
        same_tx = refl;
        regular = h;
        delivered = λ r.
            let d = g r in
            record {
              asked = d.asked;
              seen = d.seen;
              prepared = d.prepared;
              same_tx = d.same_tx;
              same_index = d.same_index;
              responded = d.responded;
              response = d.response;
              reads = d.reads;
              writes = d.writes;
            };
      }
      by_result (some r) e = finish-IsStep done.traced.aborted_channel.buffered r refl e

  pub run_task_not_validated :
      is_validated_status t.status ≡ false
      → is_validated_status (run_task deliver t s).0.status ≡ false
  unfolding run_task left asked prepare_task
  run_task_not_validated g = by_result done.result
    where
      by_result : (o : Option Response) → is_validated_status (outcome o).0.status ≡ false
      by_result none = g
      by_result (some r) = finish_not_validated done.traced.aborted_channel.buffered r

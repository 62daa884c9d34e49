-- ===== src/Scheduler/Serial/Flushes.antt =====
-- scheduler/scheduler.go: the flush of a round, and the mode that the synchronous loop leaves.
use go_pevm.Shared.{
  ℕ, ℤ, pos, ◌≡◌, refl, sym, ap, ◌∙◌, ◌⊎◌, inl, inr, arith, true, some, List, [], ◌∷◌, ℤ_eq,
  bytes_eq, ltb, get, Bool-cases, Option-cases, ◌<◌, ◌≤◌,
}
use mathlib.Core.Path.{subst}
use go_pevm.External.Kaia.{Kaia}
use go_pevm.External.BTree.{BTree}
use go_pevm.External.Evm.{Evm}
use go_pevm.Versions.{ValueItem, less}
use go_pevm.Keys.{StorageKey, get_value}
use go_pevm.Store.{Store, get_latest_before_index}
use go_pevm.Store.Invariant.{version}
use go_pevm.Store.Flush.{write_latest_to_store_until}
use go_pevm.Store.Flush.Accounts.{HasViews, IsSteady, IsHeld}
use go_pevm.Store.Flush.Views.{IsValueKey, IsFlushed, flush_view}
use go_pevm.Scheduler.{is_validated_status, DeliverTxTask}
use go_pevm.Scheduler.Rounds.{DeliverTxFunc, World, task_at, put_at, execute_one, execute_task}
use go_pevm.Scheduler.Processing.{with_state, flush_until, process_all_sync, flush_validated}
use go_pevm.Scheduler.Positions.{size, task_below}
use go_pevm.Scheduler.Serial.{IsAt, IsWritten, IsDelivered, WritesHeld}
use go_pevm.Scheduler.Serial.Phases.{IsPhase}
use go_pevm.Scheduler.Serial.Fronts.{validated_ran, window_position}

module _ ⦃k : Kaia⦄ ⦃e : Evm k⦄ ⦃b : BTree less⦄ where
  flush_until_inv :
      (last start : ℤ) (w w' : World)
      → flush_until last start w ≡ some w'
      → (st : k.StateDb) × (write_latest_to_store_until last start w.store w.store.parent_store
          ≡ some st)
        × (with_state st w ≡ w')
  unfolding flush_until
  flush_until_inv last start w w' h =
      elim (Option-cases (write_latest_to_store_until last start w.store w.store.parent_store)) [
        | inl g ↦ absurd (cc (rw g at h))
        | inr (st, g) ↦
            let same : some (with_state st w) ≡ some w' = rw g at h in
            let same' : with_state st w ≡ w' = cc in (st, g, same')
      ]

  sync-execute_task :
      (deliver : DeliverTxFunc) (p : ℕ) (w w' : World)
      → execute_task deliver p w ≡ some w'
      → w'.synchronous ≡ w.synchronous
  unfolding execute_task
  sync-execute_task deliver p w w' h = elim (Option-cases (task_at p w.tasks)) [
    | inl g ↦ absurd (cc (rw g at h))
    | inr (t, g) ↦ elim (Option-cases (execute_one deliver w.synchronous w.tasks t w.store)) [
      | inl f ↦ absurd (cc (rw (g, f) at h))
      | inr (q, f) ↦
          let same : some (record w { store = q.1; tasks = put_at p q.0 w.tasks }) ≡ some w' =
            rw (g, f) at h in
          let same' : record w { store = q.1; tasks = put_at p q.0 w.tasks } ≡ w' = cc in
          ap (λ y. y.synchronous) (sym same')
    ]
  ]

  pub sync_stays :
      (deliver : DeliverTxFunc) (last : ℤ) (l : List ℕ) (w w' : World)
      → w.synchronous ≡ true
      → process_all_sync deliver last l w ≡ some w'
      → w'.synchronous ≡ true
  unfolding process_all_sync
  sync_stays deliver last [] w w' s h =
      let same : w ≡ w' = cc in ap (λ y. y.synchronous) (sym same) ∙ s
  sync_stays deliver last (p ∷ l) w w' s h = elim (Option-cases (task_at p w.tasks)) [
    | inl g ↦ absurd (cc (rw g at h))
    | inr (t, g) ↦ elim (Option-cases (flush_until last t.absolute_index w)) [
      | inl f ↦ absurd (cc (rw (g, f) at h))
      | inr (w1, f) ↦ elim (Option-cases (execute_task deliver p w1)) [
        | inl x ↦ absurd (cc (rw (g, f, x) at h))
        | inr (w2, x) ↦
            let kept =
              ap (λ y. y.synchronous) (sym (flush_until_inv last t.absolute_index w w1 f).2) in
            sync_stays deliver t.absolute_index l w2 w'
              (sync-execute_task deliver p w1 w2 x ∙ kept ∙ s) (rw (g, f, x) at h)
      ]
    ]
  ]

module _ ⦃k : Kaia⦄ ⦃e : Evm k⦄ ⦃b : BTree less⦄ (deliver : DeliverTxFunc) (st : k.StateDb)
    (held : WritesHeld st deliver) where
  -- A version that a delivery has left is of a key that it has written.
  pub delivered-IsHeld :
      (q : StorageKey) (t : DeliverTxTask) (s : Store) (v : ValueItem)
      → IsDelivered deliver t s
      → version q t.absolute_index s ≡ some v
      → IsHeld st q
  delivered-IsHeld q t s v d h =
      elim (Option-cases (get q (deliver d.asked d.seen).traced.writeset)) [
        | inl x ↦ absurd (cc (d.writes q, x, h))
        | inr (y, x) ↦ held.held d.asked d.seen q y d.prepared x
      ]

module _ ⦃k : Kaia⦄ ⦃e : Evm k⦄ ⦃b : BTree less⦄ (deliver : DeliverTxFunc) (st : k.StateDb)
    (txs : List e.Message) (views : HasViews k) (held : WritesHeld st deliver) where
  pub flush-IsPhase :
      (last m : ℕ) (Checked : ℕ → Type 0) (w w' : World)
      → IsPhase deliver st txs last Checked w
      → last ≤ m
      → m < size w.tasks
      → ((p : ℕ) (t : DeliverTxTask) → p < m → IsAt p w t → is_validated_status t.status ≡ true)
      → flush_validated last m w ≡ some w'
      → IsPhase deliver st txs m Checked w' × (w'.tasks ≡ w.tasks)
  unfolding flush_validated get_latest_before_index
  flush-IsPhase last m Checked w w' h le within front x = elim (Bool-cases (ltb last m)) [
    | inr g ↦
        let same : w ≡ w' = cc (rw g at x) in
        let here : last ≡ m = ground (arith, g, le) in
        subst (λ y. IsPhase deliver st txs m Checked y × (y.tasks ≡ w.tasks)) same
          (subst (λ i. IsPhase deliver st txs i Checked w) here h, refl)
    | inl g ↦
        let (st', wrote, same) = flush_until_inv (pos last) (pos m) w w' (rw g at x) in
        subst (λ y. IsPhase deliver st txs m Checked y × (y.tasks ≡ w.tasks)) same
          (flushed st' wrote, refl)
  ]
    where
      flushed :
          (st' : k.StateDb)
          → write_latest_to_store_until (pos last) (pos m) w.store w.store.parent_store ≡ some st'
          → IsPhase deliver st txs m Checked (with_state st' w)
      flushed st' wrote = record {
        serial = record {
          placed = h.serial.placed;
          regular = record {
            tracked = record { listed = h.serial.regular.tracked.listed };
            made = h.serial.regular.made;
            values = h.serial.regular.values;
          };
          delivered = λ p t i r.
              let d = h.serial.delivered p t i r in
              record {
                asked = d.asked;
                seen = d.seen;
                prepared = d.prepared;
                same_tx = d.same_tx;
                same_index = d.same_index;
                responded = d.responded;
                response = d.response;
                reads = d.reads;
                writes = d.writes;
              };
          steady = seen.0;
          flushed = λ q v. by_window q (h.serial.flushed q v) (seen.1 q v);
          serial = λ p t c i v r. h.serial.serial p t c i v r;
        };
        parallel = h.parallel;
        same_txs = h.same_txs;
        front = front;
      }
        where
          flushed-IsHeld : (q : StorageKey) → IsFlushed (pos last) (pos m) q w.store → IsHeld st q
          flushed-IsHeld q (v, at, g) =
              let (j, i, f) = window_position last m v.index g in
              let (u, here) = task_below j w.tasks (omega (arith, f, within)) in
              let d = h.serial.delivered j u here (validated_ran u.status (front j u f here)) in
              delivered-IsHeld deliver st held q u w.store v d
                (ap (λ y. version q y w.store) (h.serial.placed j u here ∙ sym i) ∙ at)

          seen :
              IsSteady st st'
              × ((q : StorageKey)
                  → IsValueKey q
                  → (get_value q st' ≡ get_value q w.store.parent_store)
                    ⊎ IsFlushed (pos last) (pos m) q w.store)
          seen =
              flush_view views (pos last) (pos m) w.store st w.store.parent_store st'
                h.serial.steady flushed-IsHeld
                (λ y j z i. h.serial.regular.made y j (h.serial.regular.tracked.listed y j z i))
                wrote

          by_window :
              (q : StorageKey)
              → (get_value q w.store.parent_store ≡ get_value q st) ⊎ IsWritten last q w.store
              → (get_value q st' ≡ get_value q w.store.parent_store)
                ⊎ IsFlushed (pos last) (pos m) q w.store
              → (get_value q st' ≡ get_value q st) ⊎ IsWritten m q (with_state st' w).store
          by_window q (inl f) (inl g) = inl (g ∙ f)
          by_window q (inr (j, v, f, at)) (inl g) = inr (j, v, omega (arith, f, le), at)
          by_window q o (inr (v, at, g)) =
              let (j, i, f) = window_position last m v.index g in
              inr (j, v, f, ap (λ y. version q y w.store) (sym i) ∙ at)

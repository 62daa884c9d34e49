-- ===== src/Scheduler/Completion.antt =====
-- scheduler/scheduler.go: validateAll and the flushes, and the invariant.
use go_pevm.Shared.{
  ℕ, ◌+◌, ◌<◌, ℤ, pos, ◌≡◌, refl, sym, ap, ◌∙◌, Bool, true, false, Option, none, some, List, [],
  ◌∷◌, arith, ℤ_eq, bytes_eq, if◌then◌else◌, ltb,
}
use go_pevm.External.Kaia.{Kaia}
use go_pevm.External.BTree.{BTree}
use go_pevm.External.Evm.{Evm}
use go_pevm.Versions.{less}
use go_pevm.Store.{Store}
use go_pevm.Store.Flush.{write_latest_to_store_until}
use go_pevm.Store.Flush.Windows.{write_latest_to_store_until_lem, write_latest_to_store_total}
use go_pevm.Tracer.{◌>>=◌}
use go_pevm.Scheduler.{DeliverTxTask, reset, increment, find_first_non_validated}
use go_pevm.Scheduler.Invariant.{indexes, AllSound, IsKept}
use go_pevm.Scheduler.Rounds.{
  World, task_at, put_at, positions, from_position, larger, validate_one, validate_positions,
}
use go_pevm.Scheduler.Processing.{validate_all, with_state, flush_until, flush, flush_validated}
use go_pevm.Scheduler.Steps.{Leaves, should_rerun-Checked}
use go_pevm.Scheduler.Positions.{
  size, AllBelow, positions-AllBelow, from_position-AllBelow, size-indexes, task_at_total,
  put_at-AllSound, indexes-put_at,
}

module _ ⦃k : Kaia⦄ ⦃e : Evm k⦄ ⦃b : BTree less⦄ (ixs : List ℤ) where
  pub record Inv (w : World) : Type 0 where
    pub same : indexes w.tasks ≡ ixs
    pub sound : AllSound ixs w.tasks
    pub kept : IsKept ixs w.store

  -- A computation that returns a world in which the invariant holds.
  pub record Reaches (m : Option World) : Type 0 where
    pub after : World
    pub returned : m ≡ some after
    pub inv : Inv after

  pub Reaches-bind :
      (m : Option World) (f : World → Option World)
      → Reaches m
      → ((w : World) → Inv w → Reaches (f w))
      → Reaches (m >>= f)
  Reaches-bind m f h g =
      let rest = g h.after h.inv in
      record { after = rest.after; returned = rw (h.returned) (rest.returned); inv = rest.inv }

  pub Reaches-some : (w : World) → Inv w → Reaches (some w)
  Reaches-some w h = record { after = w; returned = refl; inv = h }

  pub in_tasks : (p : ℕ) (w : World) → Inv w → p < size ixs → p < size w.tasks
  in_tasks p w h g =
      let q : size ixs ≡ size w.tasks = ap size (sym h.same) ∙ size-indexes w.tasks in omega arith

  pub store_step :
      (p : ℕ) (w : World) (t u : DeliverTxTask) (s : Store) (m : ℕ)
      → Inv w
      → task_at p w.tasks ≡ some t
      → Leaves ixs t (u, s)
      → Inv (record w { store = s; tasks = put_at p u w.tasks; max_incarnation = m })
  store_step p w t u s m h at l = record {
    same = indexes-put_at p t u w.tasks at l.same_index ∙ h.same;
    sound = put_at-AllSound p ixs u w.tasks h.sound l.sound;
    kept = l.kept;
  }

  -- An update of the parent state leaves the versions alone.
  with_state-Inv : (st : k.StateDb) (w : World) → Inv w → Inv (with_state st w)
  with_state-Inv st w h = record {
    same = h.same;
    sound = h.sound;
    kept = record { tracked = record { listed = h.kept.tracked.listed }; known = h.kept.known };
  }

  write_until_total :
      (last start : ℤ) (s : Store) (st : k.StateDb)
      → (st' : k.StateDb) × (write_latest_to_store_until last start s st ≡ some st')
  write_until_total last start s st = (_, write_latest_to_store_until_lem last start s st)

  pub flush_until-Reaches :
      (last start : ℤ) (w : World) → Inv w → Reaches (flush_until last start w)
  unfolding flush_until
  flush_until-Reaches last start w h =
      let (st, p) = write_until_total last start w.store w.store.parent_store in
      record { after = with_state st w; returned = rw p; inv = with_state-Inv st w h }

  pub flush-Reaches : (w : World) → Inv w → Reaches (flush w)
  unfolding flush
  flush-Reaches w h =
      let (st, p) = write_latest_to_store_total w.store w.store.parent_store in
      record { after = with_state st w; returned = rw p; inv = with_state-Inv st w h }

  pub flush_validated-Reaches :
      (last start : ℕ) (w : World) → Inv w → Reaches (flush_validated last start w)
  unfolding flush_validated
  flush_validated-Reaches last start w h = by_test (ltb last start)
    where
      by_test : (p : Bool) → Reaches (if p then flush_until (pos last) (pos start) w else some w)
      by_test true = flush_until-Reaches (pos last) (pos start) w h
      by_test false = Reaches-some w h

  -- A validation: the positions to run again, and the world.
  pub record Validates (m : Option (List ℕ × World)) : Type 0 where
    pub again : List ℕ
    pub world : World
    pub returned : m ≡ some (again, world)
    pub inv : Inv world
    pub below : AllBelow (size ixs) again

  restarted-Leaves :
      (q : Bool) (t u : DeliverTxTask) (s : Store)
      → Leaves ixs t (u, s)
      → Leaves ixs t ((if q then increment (reset u) else u), s)
  unfolding reset increment
  restarted-Leaves false t u s l = l
  restarted-Leaves true t u s l = record {
    sound = record {
      deps_known = l.sound.deps_known;
      own = l.sound.own;
      place = l.sound.place;
      answered = λ q. cc;
    };
    kept = l.kept;
    same_index = l.same_index;
  }

  validate_one-Inv :
      (p : ℕ) (w : World)
      → Inv w
      → p < size ixs
      → (q : Bool) × (w' : World) × (validate_one p w ≡ some (q, w')) × Inv w'
  unfolding validate_one
  validate_one-Inv p w h g =
      let (t, at, sound) = task_at_total p ixs w.tasks h.sound (in_tasks p w h g) in
      let (r, run, l) =
        should_rerun-Checked w.tasks t w.store (rw (h.same) sound) (rw (h.same) (h.kept)) in
      let l' : Leaves ixs t (r.task, r.store) = rw (h.same) at l in
      let u : DeliverTxTask = if r.rerun then increment (reset r.task) else r.task in
      let m : ℕ = if r.rerun then larger u.incarnation w.max_incarnation else w.max_incarnation in
      (
        r.rerun,
        record w { store = r.store; tasks = put_at p u w.tasks; max_incarnation = m },
        rw (at, run),
        store_step p w t u r.store m h at (restarted-Leaves r.rerun t r.task r.store l'),
      )

  validate_positions-Validates :
      (l : List ℕ) (w : World) → Inv w → AllBelow (size ixs) l → Validates (validate_positions l w)
  unfolding validate_positions
  validate_positions-Validates [] w h g = record {
    again = [];
    world = w;
    returned = refl;
    inv = h;
    below = tt;
  }
  validate_positions-Validates (p ∷ l) w h g =
      let (q, w', run, h') = validate_one-Inv p w h g.0 in
      let v = validate_positions-Validates l w' h' g.1 in
      record {
        again = if q then p ∷ v.again else v.again;
        world = v.world;
        returned = rw run (rw (v.returned));
        inv = v.inv;
        below = cons_if q p v.again g.0 v.below;
      }
    where
      cons_if :
          (q : Bool) (p : ℕ) (again : List ℕ)
          → p < size ixs
          → AllBelow (size ixs) again
          → AllBelow (size ixs) (if q then p ∷ again else again)
      cons_if true p again x y = (x, y)
      cons_if false p again x y = y

  pub all_positions :
      (n : ℕ) (w : World) → Inv w → AllBelow (size ixs) (from_position n (positions 0 w.tasks))
  all_positions n w h =
      let e : 0 + size w.tasks ≡ size ixs =
        let q : size ixs ≡ size w.tasks = ap size (sym h.same) ∙ size-indexes w.tasks in
        omega arith in
      from_position-AllBelow (size ixs) n (positions 0 w.tasks)
        (rw e at (positions-AllBelow 0 w.tasks))

  pub validate_all-Validates :
      (order : List ℕ → List ℕ) (w : World)
      → ((l : List ℕ) → AllBelow (size ixs) l → AllBelow (size ixs) (order l))
      → Inv w
      → Validates (validate_all order w)
  unfolding validate_all
  validate_all-Validates order w keeps h = by_start (find_first_non_validated 0 w.tasks)
    where
      by_start :
          (o : Option ℕ)
          → Validates (elim o [
            | none ↦ some ([], w)
            | some start ↦ validate_positions (order (from_position start (positions 0 w.tasks))) w
          ])
      by_start none = record { again = []; world = w; returned = refl; inv = h; below = tt }
      by_start (some start) = validate_positions-Validates _ w h (keeps _ (all_positions start w h))

-- ===== src/Tracer/Views.antt =====
-- The invariant of the tracer of multiversion/tracer.go while a transaction runs, and what Get
-- returns under it.
use go_pevm.Shared.{
  ℤ, pos, ◌∙◌, sym, ap, ℕ, ◌⊎◌, ◌++◌, ltb, Bool-cases, ◌≡◌, refl, Bool, true, false, Option, none,
  some, List, [], ◌∷◌, arith, ite, ◌=?◌, get, get-put, IsMap, put-IsMap, bytes_eq, if◌then◌else◌,
  inl, inr, Option-cases,
}
use go_pevm.External.Kaia.{Kaia}
use go_pevm.External.BTree.{BTree}
use go_pevm.External.Evm.{Evm}
use go_pevm.Versions.{ValueItem, less}
use go_pevm.Keys.{StorageKey, get_value}
use go_pevm.Store.{Store, get_latest_before_index}
use go_pevm.Store.Invariant.{version}
use go_pevm.Store.Reads.{read-IsLatestBelow}
use go_pevm.Tracer.{
  length, new_estimate_abort, AccessListTracer, Abort, write_abort, update_read_set, set,
  abort_on_estimate, get_key,
}

module _ ⦃k : Kaia⦄ ⦃e : Evm k⦄ ⦃b : BTree less⦄ where
  open k use {Hash, Address}

  -- An abort names the transaction itself, or one that has a version of some key.
  abbrev pub IsFounded : Store → ℤ → Abort → Type 0
  IsFounded s i a =
      (a.dependent_tx_idx ≡ i)
      ⊎ ((key : StorageKey) × (v : ValueItem) × (version key a.dependent_tx_idx s ≡ some v))

  -- The aborts that a channel holds.
  abbrev pub AreFounded : Store → ℤ → List Abort → Type 0
  AreFounded s i [] = Unit
  AreFounded s i (a ∷ l) = IsFounded s i a × AreFounded s i l

  AreFounded-append :
      (s : Store) (i : ℤ) (l : List Abort) (a : Abort)
      → AreFounded s i l
      → IsFounded s i a
      → AreFounded s i (l ++ a ∷ [])
  AreFounded-append s i [] a h g = (g, tt)
  AreFounded-append s i (c ∷ l) a h g = (h.0, AreFounded-append s i l a h.1 g)

  -- Each key was read with one value, the parent state's; the transaction has a position in the block;
  -- and every abort in the channel is founded.
  pub record IsFaithful (s : Store) (t : AccessListTracer) : Type 0 where
    pub writes : IsMap t.writeset
    pub reads : IsMap t.readset
    pub single :
        (key : StorageKey) (vs : List Hash)
        → get key t.readset ≡ some vs
        → vs ≡ get_value key s.parent_store ∷ []
    pub place : (n : ℕ) × (t.transaction_index ≡ pos n)
    pub founded : AreFounded s t.transaction_index t.aborted_channel.buffered

  -- The value of a key as the transaction sees it: its own write, or the parent state's value.
  abbrev pub seen : StorageKey → Store → AccessListTracer → Hash
  seen key s t = elim (get key t.writeset) [ none ↦ get_value key s.parent_store | some v ↦ v ]

  -- The parts that no callback but CaptureStart changes.
  pub record SameRun (t t' : AccessListTracer) : Type 0 where
    pub same_index : t'.transaction_index ≡ t.transaction_index
    pub same_incarnation : t'.incarnation ≡ t.incarnation
    pub same_price : t'.gas_price ≡ t.gas_price
    pub same_msg : t'.msg ≡ t.msg

  abbrev pub SameSets : AccessListTracer → AccessListTracer → Type 0
  SameSets t t' = (t'.readset ≡ t.readset) × (t'.writeset ≡ t.writeset) × SameRun t t'

  pub SameSets-refl : (t : AccessListTracer) → SameSets t t
  SameSets-refl t = ground arith

  pub write_abort_keeps : (a : Abort) (t : AccessListTracer) → SameSets t (write_abort a t)
  unfolding write_abort
  write_abort_keeps a t = ground arith

  either_keeps :
      (p : Bool) (t t' : AccessListTracer) → SameSets t t' → SameSets t (if p then t' else t)
  either_keeps true t t' h = h
  either_keeps false t t' h = SameSets-refl t

  pub abort_on_estimate_keeps :
      (o : Option ValueItem) (t : AccessListTracer) → SameSets t (abort_on_estimate o t)
  abort_on_estimate_keeps none t = SameSets-refl t
  abort_on_estimate_keeps (some v) t = either_keeps v.estimate t _ (write_abort_keeps _ t)

  write_abort-AreFounded :
      (a : Abort) (s : Store) (t : AccessListTracer)
      → AreFounded s t.transaction_index t.aborted_channel.buffered
      → IsFounded s t.transaction_index a
      → AreFounded s t.transaction_index (write_abort a t).aborted_channel.buffered
  unfolding write_abort
  write_abort-AreFounded a s t h g =
      elim (Bool-cases (ltb (length t.aborted_channel.buffered) t.aborted_channel.capacity)) [
        | inl p ↦ rw p (AreFounded-append s t.transaction_index t.aborted_channel.buffered a h g)
        | inr p ↦ rw p h
      ]

  abort_on_estimate-AreFounded :
      (o : Option ValueItem) (s : Store) (t : AccessListTracer)
      → AreFounded s t.transaction_index t.aborted_channel.buffered
      → ((v : ValueItem)
          → o ≡ some v
          → IsFounded s t.transaction_index (new_estimate_abort v.index))
      → AreFounded s t.transaction_index (abort_on_estimate o t).aborted_channel.buffered
  abort_on_estimate-AreFounded none s t h g = h
  abort_on_estimate-AreFounded (some v) s t h g = elim (Bool-cases v.estimate) [
    | inl p ↦ rw p (write_abort-AreFounded _ s t h (g v refl))
    | inr p ↦ rw p h
  ]

  -- What a read before position `n` finds is the version of its transaction.
  read-IsFounded :
      (key : StorageKey) (i : ℤ) (n : ℕ) (s : Store) (v : ValueItem)
      → i ≡ pos n
      → get_latest_before_index i key s ≡ some v
      → version key v.index s ≡ some v
  read-IsFounded key i n s v p h =
      let e : get_latest_before_index (pos n) key s ≡ some v =
        sym (ap (λ j. get_latest_before_index j key s) p) ∙ h in
      (rw e at (read-IsLatestBelow n key s)).0

  pub write_abort-IsFaithful :
      (a : Abort) (s : Store) (t : AccessListTracer)
      → IsFaithful s t
      → IsFounded s t.transaction_index a
      → IsFaithful s (write_abort a t)
  write_abort-IsFaithful a s t h f =
      let same = write_abort_keeps a t in
      record {
        writes = rw (same.1) h.writes;
        reads = rw (same.0) h.reads;
        single = rw (same.0) h.single;
        place = (h.place.0, same.2.same_index ∙ h.place.1);
        founded = rw (same.2.same_index) (write_abort-AreFounded a s t h.founded f);
      }

  -- A first read is recorded with the parent's value.
  record_read :
      (key : StorageKey) (s : Store) (t t' : AccessListTracer)
      → IsFaithful s t
      → SameSets t t'
      → AreFounded s t.transaction_index t'.aborted_channel.buffered
      → get key t.readset ≡ none
      → IsFaithful s (update_read_set key (get_value key s.parent_store) t')
  unfolding update_read_set
  record_read key s t t' h same f e =
      let v = get_value key s.parent_store in
      let absent : get key t'.readset ≡ none = rw (same.0) e in
      record {
        writes = rw (same.1) h.writes;
        reads = rw (same.0) (put-IsMap key _ t.readset h.reads);
        single = λ q vs p.
            ground (arith, same.0, absent, get-put key q (v ∷ []) t.readset, h.single q vs);
        place = (h.place.0, same.2.same_index ∙ h.place.1);
        founded = rw (same.2.same_index) f;
      }

  -- On a tracer that is faithful to the store, Get does not fail, also if it finds an estimate. It
  -- returns what the transaction sees of the key: its own write, or the value in the parent state. It
  -- leaves that alone, and the tracer stays faithful.
  pub get_key_lem :
      (key : StorageKey) (s : Store) (t : AccessListTracer)
      → IsFaithful s t
      → (t' : AccessListTracer) × (get_key key s t ≡ some (seen key s t, t'))
        × IsFaithful s t'
        × (t'.writeset ≡ t.writeset)
        × SameRun t t'
  unfolding get_key
  get_key_lem key s t h = elim (Option-cases (get key t.writeset)) [
    | inl e ↦ elim (Option-cases (get key t.readset)) [
      | inl f ↦
          let t' = abort_on_estimate (get_latest_before_index t.transaction_index key s) t in
          let same : SameSets t t' = abort_on_estimate_keeps _ t in
          (
            update_read_set key (get_value key s.parent_store) t',
            ground (arith, e, f),
            record_read key s t t' h same
                (abort_on_estimate-AreFounded _ s t h.founded (λ v p.
                  inr (key, v, read-IsFounded key t.transaction_index h.place.0 s v h.place.1 p)))
                f,
            unfold update_read_set in same.1,
            unfold update_read_set in ground (arith, same.2),
          )
      | inr (vs, f) ↦ (t, ground (arith, e, f, h.single key vs f), h, refl, (SameSets-refl t).2)
    ]
    | inr (v, e) ↦ (t, ground (arith, e), h, refl, (SameSets-refl t).2)
  ]

  pub set-IsFaithful :
      (key : StorageKey) (v : Hash) (s : Store) (t : AccessListTracer)
      → IsFaithful s t
      → IsFaithful s (set key v t)
  unfolding set
  set-IsFaithful key v s t h = record {
    writes = put-IsMap key v t.writeset h.writes;
    reads = h.reads;
    single = h.single;
    place = h.place;
    founded = h.founded;
  }

  pub seen-set :
      (key q : StorageKey) (v : Hash) (s : Store) (t : AccessListTracer)
      → seen q s (set key v t) ≡ ite (key =? q) v (seen q s t)
  unfolding set
  seen-set key q v s t = ground (arith, get-put key q v t.writeset)

-- ===== src/Scheduler/Sequential/Views.antt =====
-- scheduler/scheduler.go: the values that the transactions of a parallel block find, position by
-- position, beside those of the transactions in order.
use go_pevm.Shared.{
  inl, inr, ℕ, suc, ◌+◌, ℤ, pos, negsuc, ◌≡◌, ◌≢◌, refl, sym, ap, ◌∙◌, arith, true, false, Option,
  none, some, List, [], ◌∷◌, get, ℤ_eq, bytes_eq, lt_int, Option-cases,
}
use mathlib.Core.Path.{subst}
use go_pevm.External.Kaia.{Kaia}
use go_pevm.External.BTree.{BTree}
use go_pevm.External.Evm.{Evm}
use go_pevm.Versions.{ValueItem, less}
use go_pevm.Versions.Order.{IsLatestBelow}
use go_pevm.Versions.Reads.{IsLatestBelow-unique}
use go_pevm.Keys.{StorageKey}
use go_pevm.Store.{Store, get_latest_before_index}
use go_pevm.Store.Versioned.{written, fresh}
use go_pevm.Store.Invariant.{version}
use go_pevm.Store.Reads.{read-IsLatestBelow, written-index}
use go_pevm.Store.Validation.Verdicts.{readset_of}
use go_pevm.Scheduler.{Response, DeliverTxTask, collect_responses}
use go_pevm.Scheduler.Rounds.{DeliverTxFunc, task_at}
use go_pevm.Scheduler.Positions.{size}
use go_pevm.Scheduler.Serial.{serial_value, ReadsSerially, IsDelivered}
use go_pevm.Scheduler.Serial.Phases.{transactions}
use go_pevm.Tracer.Reference.{View, updated}
use go_pevm.Scheduler.Sequential.{Meaning, answers_in_order, view_in_order, HasMeaning}

below_next : (j : ℤ) (i : ℕ) → lt_int j (pos (suc i)) ≡ true → j ≢ pos i → lt_int j (pos i) ≡ true
below_next (pos j) i h d = let apart : j ≢ i = λ e. d (ap pos e) in ground (arith, h, apart)
below_next (negsuc j) i h d = ground arith

below_more : (j : ℤ) (i : ℕ) → lt_int j (pos i) ≡ true → lt_int j (pos (suc i)) ≡ true
below_more (pos j) i h = ground (arith, h)
below_more (negsuc j) i h = refl

none_between : (j : ℤ) (i : ℕ) → lt_int (pos i) j ≡ true → lt_int j (pos (suc i)) ≡ true → ⊥
none_between (pos j) i h g = ground (arith, h, g)
none_between (negsuc j) i h g = cc

module _ ⦃k : Kaia⦄ ⦃b : BTree less⦄ where
  -- The version of the next transaction comes before all others.
  latest_next :
      (i : ℕ) (q : StorageKey) (s : Store) (v : ValueItem)
      → version q (pos i) s ≡ some v
      → v.index ≡ pos i
      → get_latest_before_index (pos (suc i)) q s ≡ some v
  latest_next i q s v h e =
      IsLatestBelow-unique (λ j. version q j s) (λ j. version q j s) (pos (suc i)) _ (some v)
        (λ j p. refl) (read-IsLatestBelow (suc i) q s)
        (
          ap (λ j. version q j s) e ∙ h,
          ap (λ j. lt_int j (pos (suc i))) e ∙ ground arith,
          λ j p g. absurd (none_between j i (ap (λ x. lt_int x j) (sym e) ∙ p) g),
        )

  one_less :
      (i : ℕ) (view : ℤ → Option ValueItem) (o : Option ValueItem)
      → view (pos i) ≡ none
      → IsLatestBelow view (pos (suc i)) o
      → IsLatestBelow view (pos i) o
  one_less i view none h g = λ j p. g j (below_more j i p)
  one_less i view (some v) h g = (
    g.0,
    below_next v.index i g.1 (λ e. let x : some v ≡ none = sym g.0 ∙ ap view e ∙ h in cc),
    λ j p r. g.2 j p (below_more j i r),
  )

  latest_kept :
      (i : ℕ) (q : StorageKey) (s : Store)
      → version q (pos i) s ≡ none
      → get_latest_before_index (pos (suc i)) q s ≡ get_latest_before_index (pos i) q s
  latest_kept i q s h =
      IsLatestBelow-unique (λ j. version q j s) (λ j. version q j s) (pos i) _ _ (λ j p. refl)
        (one_less i (λ j. version q j s) _ h (read-IsLatestBelow (suc i) q s))
        (read-IsLatestBelow i q s)

module _ ⦃k : Kaia⦄ ⦃e : Evm k⦄ ⦃b : BTree less⦄ where
  pub written-value :
      (i : ℤ) (n : ℕ) (v : k.Hash)
      → ((written i n v).estimate ≡ false) × ((written i n v).value ≡ v)
  unfolding written
  written-value i n v = (ground arith, ground arith)

  written-serial :
      (st : k.StateDb) (i n : ℕ) (q : StorageKey) (v : k.Hash) (s : Store)
      → version q (pos i) s ≡ some (written (pos i) n v)
      → serial_value st (pos (suc i)) q s ≡ some v
  written-serial st i n q v s h =
      let found = latest_next i q s (written (pos i) n v) h (written-index (pos i) n v) in
      let (done, same) = written-value (pos i) n v in rw (serial_value, found, done, same) refl

  -- The store gives the transaction at position `i` the values of the view.
  abbrev pub Shows : k.StateDb → ℕ → Store → View → Type 0
  Shows st i s f = (q : StorageKey) → serial_value st (pos i) q s ≡ some (f q)

  -- What holds of the task at position `i` in the end.
  pub record IsSettled (deliver : DeliverTxFunc) (st : k.StateDb) (s : Store) (i : ℕ)
      (t : DeliverTxTask) : Type 0 where
    pub placed : t.absolute_index ≡ pos i
    pub delivered : IsDelivered deliver t s
    pub serial : ReadsSerially st (pos i) (readset_of (pos i) s) s

  module _ (deliver : DeliverTxFunc) (meaning : Meaning) (means : HasMeaning deliver meaning)
      (st : k.StateDb) (s : Store) where
    agrees :
        (i : ℕ) (t : DeliverTxTask) (f : View)
        → (h : IsSettled deliver st s i t) → Shows st i s f
        → (q : StorageKey) (vs : List k.Hash)
        → get q (deliver h.delivered.asked h.delivered.seen).traced.readset ≡ some vs
        → vs ≡ f q ∷ []
    agrees i t f h shows q vs g =
        let same : readset_of (pos i) s
            ≡ (deliver h.delivered.asked h.delivered.seen).traced.readset =
          ap (λ j. readset_of j s) (sym h.placed) ∙ h.delivered.reads in
        let (v, one, at) = h.serial q vs (ap (get q) same ∙ g) in
        let e : some v ≡ some (f q) = sym at ∙ shows q in
        let e' : v ≡ f q = cc in one ∙ ap (λ x. x ∷ []) e'

    shows_next :
        (i : ℕ) (t : DeliverTxTask) (f : View) (r : Response)
        → IsSettled deliver st s i t
        → Shows st i s f
        → t.response ≡ some r
        → Shows st (suc i) s (updated (meaning t.tx f).writes f)
    unfolding updated
    shows_next i t f r h shows g q =
        let d = h.delivered in
        let ws = (meaning t.tx f).writes in
        let made : get q (deliver d.asked d.seen).traced.writeset ≡ get q ws =
          means.writes d.asked d.seen f r q d.prepared (agrees i t f h shows) (d.response ∙ g)
          ∙ ap (λ tx. get q (meaning tx f).writes) d.same_tx in
        let n = (deliver d.asked d.seen).traced.incarnation in
        let found : version q (pos i) s ≡ fresh (pos i) n (get q ws) =
          ap (λ j. version q j s) (sym h.placed)
          ∙ d.writes q
          ∙ ap (λ j. fresh j n (get q (deliver d.asked d.seen).traced.writeset)) h.placed
          ∙ ap (fresh (pos i) n) made in
        elim (Option-cases (get q ws)) [
          | inl e ↦
              let kept = latest_kept i q s (rw e at found) in
              rw (e, updated) (rw (serial_value, kept) (shows q))
          | inr (v, e) ↦ rw (e, updated) (written-serial st i n q v s (rw e at found))
        ]

    -- One transaction, in a store that shows the view of the transactions before it.
    settled_step :
        (i : ℕ) (t : DeliverTxTask) (f : View)
        → IsSettled deliver st s i t
        → Shows st i s f
        → (t.response ≡ some (meaning t.tx f).answer)
          × Shows st (suc i) s (updated (meaning t.tx f).writes f)
    settled_step i t f h shows = elim (Option-cases t.response) [
      | inl g ↦ absurd (ground (arith, g, h.delivered.responded))
      | inr (r, g) ↦
          let d = h.delivered in
          let same : r ≡ (meaning t.tx f).answer =
            means.answers d.asked d.seen f r d.prepared (agrees i t f h shows) (d.response ∙ g)
            ∙ ap (λ tx. (meaning tx f).answer) d.same_tx in
          (g ∙ ap some same, shows_next i t f r h shows g)
    ]

    -- The tasks from position `i` on answer as their transactions do in order.
    pub settled_in_order :
        (i : ℕ) (l : List DeliverTxTask) (f : View)
        → ((p : ℕ) (t : DeliverTxTask) → task_at p l ≡ some t → IsSettled deliver st s (i + p) t)
        → Shows st i s f
        → (collect_responses l ≡ answers_in_order meaning (transactions l) f)
          × Shows st (i + size l) s (view_in_order meaning (transactions l) f)
    unfolding collect_responses answers_in_order view_in_order
    settled_in_order i [] f h shows =
        let e : i ≡ i + 0 = omega arith in (refl, subst (λ j. Shows st j s f) e shows)
    settled_in_order i (t ∷ l) f h shows =
        let e0 : i + 0 ≡ i = omega arith in
        let (answer, next) =
          settled_step i t f (subst (λ j. IsSettled deliver st s j t) e0 (h 0 t refl)) shows in
        let f' = updated (meaning t.tx f).writes f in
        let (answers, last) =
          settled_in_order (suc i) l f'
            (λ p u g.
              let e : i + suc p ≡ suc i + p = omega arith in
              subst (λ j. IsSettled deliver st s j u) e (h (suc p) u g))
            next in
        let e2 : suc i + size l ≡ i + suc (size l) = omega arith in
        (
          rw (answer, answers) refl,
          subst (λ j. Shows st j s (view_in_order meaning (transactions l) f')) e2 last,
        )

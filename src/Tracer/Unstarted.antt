-- ===== src/Tracer/Unstarted.antt =====
-- Callbacks of multiversion/tracer.go with no call of CaptureStart before them.
use mathlib.Core.Path.{subst}
use go_pevm.Shared.{none, pos, ◌≡◌, sym, ap, ◌∙◌, some, inl, inr, Option-cases, List, [], ◌∷◌, ◌*ℤ◌}
use go_pevm.External.Kaia.{Kaia}
use go_pevm.External.BTree.{BTree}
use go_pevm.External.Evm.{Evm, Call, op_executed, tx_ended}
use go_pevm.Versions.{less}
use go_pevm.Store.{Store}
use go_pevm.Tracer.{AccessListTracer, ◌>>=◌}
use go_pevm.Tracer.Callbacks.{refund_gas, capture_tx_end}
use go_pevm.Tracer.Views.{IsFaithful}
use go_pevm.Tracer.Changes.{Succeeds, Succeeds-some, Succeeds-bind}
use go_pevm.Tracer.Runs.{make_call, make_calls, make_call-Succeeds, operation-Succeeds}

module _ ⦃k : Kaia⦄ ⦃e : Evm k⦄ where
  -- No call of CaptureTxEnd is among the calls.
  abbrev pub HasNoEnd : List Call → Type 0
  HasNoEnd [] = Unit
  HasNoEnd (op_executed op scope ∷ cs) = HasNoEnd cs
  HasNoEnd (tx_ended rest ∷ cs) = ⊥

module _ ⦃k : Kaia⦄ ⦃e : Evm k⦄ ⦃b : BTree less⦄ where
  pub make_calls-Succeeds_unstarted :
      (cs : List Call) (s : Store) (t : AccessListTracer)
      → HasNoEnd cs
      → IsFaithful s t
      → Succeeds s t (make_calls cs s t)
  unfolding make_calls
  make_calls-Succeeds_unstarted [] s t n h = Succeeds-some s t h
  make_calls-Succeeds_unstarted (op_executed op scope ∷ cs) s t n h =
      Succeeds-bind s t _ _ (operation-Succeeds op scope s t h)
        λ u i same. make_calls-Succeeds_unstarted cs s u n i
  make_calls-Succeeds_unstarted (tx_ended rest ∷ cs) s t n h = absurd n

  -- CaptureTxEnd with no gas price panics, whatever is called before it.
  pub make_calls-none :
      (cs : List Call) (s : Store) (t : AccessListTracer)
      → ¬ HasNoEnd cs
      → IsFaithful s t
      → t.gas_price ≡ none
      → make_calls cs s t ≡ none
  unfolding make_calls make_call capture_tx_end
  make_calls-none [] s t n h g = absurd (n tt)
  make_calls-none (op_executed op scope ∷ cs) s t n h g =
      let one = operation-Succeeds op scope s t h in
      let rest = make_calls-none cs s one.after n one.faithful (one.same.same_price ∙ g) in
      ap (λ o. o >>= λ u. make_calls cs s u) one.returned ∙ rest
  make_calls-none (tx_ended rest ∷ cs) s t n h g =
      ap (λ o. (o >>= λ price. refund_gas (pos rest *ℤ price) s t) >>= λ u. make_calls cs s u) g

  -- A call that returns, with the gas price or without.
  returned-Succeeds :
      (c : Call) (s : Store) (t u : AccessListTracer)
      → IsFaithful s t
      → make_call c s t ≡ some u
      → Succeeds s t (make_call c s t)
  unfolding make_call capture_tx_end
  returned-Succeeds (op_executed op scope) s t u h x = operation-Succeeds op scope s t h
  returned-Succeeds (tx_ended rest) s t u h x = elim (Option-cases t.gas_price) [
    | inl g ↦ absurd (cc (ap (λ o. o >>= λ price. refund_gas (pos rest *ℤ price) s t) g, x))
    | inr (p, g) ↦ make_call-Succeeds (tx_ended rest) s t p h g
  ]

  -- Calls that return keep the tracer faithful, and its index.
  pub make_calls-IsFaithful :
      (cs : List Call) (s : Store) (t u : AccessListTracer)
      → IsFaithful s t
      → make_calls cs s t ≡ some u
      → IsFaithful s u × (u.transaction_index ≡ t.transaction_index)
  unfolding make_calls
  make_calls-IsFaithful [] s t u h x =
      let same : t ≡ u = cc in
      (subst (IsFaithful s) same h, ap (λ y. y.transaction_index) (sym same))
  make_calls-IsFaithful (c ∷ cs) s t u h x = elim (Option-cases (make_call c s t)) [
    | inl g ↦ absurd (cc (rw g at x))
    | inr (v, g) ↦
        let one = returned-Succeeds c s t v h g in
        let same : one.after ≡ v = cc (one.returned, g) in
        let (f, i) =
          make_calls-IsFaithful cs s v u (subst (IsFaithful s) same one.faithful) (rw g at x) in
        (f, i ∙ ap (λ y. y.transaction_index) (sym same) ∙ one.same.same_index)
  ]

-- ===== src/Tracer/Reads.antt =====
-- multiversion/tracer.go: the three ways in which Get finds a value.
use go_pevm.Shared.{
  ◌≡◌, sym, ◌∙◌, ◌⊎◌, inl, inr, none, some, Option-cases, List, [], ◌∷◌, arith, get, bytes_eq,
}
use go_pevm.External.Kaia.{Kaia}
use go_pevm.External.BTree.{BTree}
use go_pevm.External.Evm.{Evm}
use go_pevm.Versions.{less}
use go_pevm.Keys.{StorageKey, get_value}
use go_pevm.Store.{Store, get_latest_before_index}
use go_pevm.Tracer.{AccessListTracer, update_read_set, abort_on_estimate, first_value, get_key}

module _ ⦃k : Kaia⦄ ⦃e : Evm k⦄ ⦃b : BTree less⦄ where
  open k use {Hash}

  -- The tracer after the look at the store for an estimate.
  abbrev pub looked_up : StorageKey → Store → AccessListTracer → AccessListTracer
  looked_up q s t = abort_on_estimate (get_latest_before_index t.transaction_index q s) t

  -- The own write, or what was read before, or the parent's value, which is recorded.
  abbrev pub IsFoundBy : StorageKey → Store → AccessListTracer → Hash → AccessListTracer → Type 0
  IsFoundBy q s t v t' =
      ((get q t.writeset ≡ some v) × (t ≡ t'))
      ⊎ ((get q t.writeset ≡ none)
          × (((vs : List Hash) × (get q t.readset ≡ some (v ∷ vs)) × (t ≡ t'))
              ⊎ ((get q t.readset ≡ none)
                  × (v ≡ get_value q s.parent_store)
                  × (update_read_set q v (looked_up q s t) ≡ t'))))

  pub get_key-IsFoundBy :
      (q : StorageKey) (s : Store) (t t' : AccessListTracer) (v : Hash)
      → get_key q s t ≡ some (v, t')
      → IsFoundBy q s t v t'
  unfolding get_key
  get_key-IsFoundBy q s t t' v x = elim (Option-cases (get q t.writeset)) [
    | inr (w, f) ↦
        let p : get_key q s t ≡ some (w, t) = ground (arith, f) in inl (cc (p, x, f), cc (p, x))
    | inl f ↦ inr (
      f,
      elim (Option-cases (get q t.readset)) [
        | inr (vs, g) ↦ inl (first vs g (sym (read f g) ∙ x))
        | inl g ↦
            let value = get_value q s.parent_store in
            let p : get_key q s t ≡ some (value, update_read_set q value (looked_up q s t)) =
              ground (arith, f, g) in
            let same : value ≡ v = cc (p, x) in
            let same' : update_read_set q value (looked_up q s t) ≡ t' = cc (p, x) in
            inr (g, sym same, rw (sym same) same')
      ],
    )
  ]
    where
      read :
          {vs : List Hash}
          → get q t.writeset ≡ none
          → get q t.readset ≡ some vs
          → get_key q s t ≡ first_value vs t
      read f g = ground (arith, f, g)

      first :
          (vs : List Hash)
          → get q t.readset ≡ some vs
          → first_value vs t ≡ some (v, t')
          → (ws : List Hash) × (get q t.readset ≡ some (v ∷ ws)) × (t ≡ t')
      first [] g y = cc
      first (w ∷ l) g y = (l, cc, cc)

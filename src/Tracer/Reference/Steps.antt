-- ===== src/Tracer/Reference/Steps.antt =====
-- multiversion/tracer.go: steps of the tracer that change its writeset as the reference does.
use go_pevm.Shared.{
  ◌≡◌, refl, ap, ◌∙◌, Bool, true, false, Option, none, some, inl, inr, List, [], ◌∷◌, arith, get,
  get-put, bytes_eq, Bytes-discrete, if◌then◌else◌,
}
use mathlib.Core.Path.{subst}
use go_pevm.External.Kaia.{Kaia}
use go_pevm.External.BTree.{BTree}
use go_pevm.External.Evm.{Evm}
use go_pevm.Versions.{less}
use go_pevm.Keys.{StorageKey}
use go_pevm.Store.{Store, WriteSet}
use go_pevm.Tracer.{AccessListTracer, ◌>>=◌, set, update_read_set, get_key}
use go_pevm.Tracer.Callbacks.{read_only}
use go_pevm.Tracer.Reads.{looked_up, get_key-IsFoundBy}
use go_pevm.Tracer.Views.{SameSets, abort_on_estimate_keeps}
use go_pevm.Tracer.Reference.{View, updated, changed}

module _ ⦃k : Kaia⦄ ⦃e : Evm k⦄ ⦃b : BTree less⦄ (f : View) where
  open k use {Address, Hash}
  open e use {Word, Message}

  -- Every key that was read has its value in the view.
  abbrev pub Matches : AccessListTracer → Type 0
  Matches t = (q : StorageKey) (vs : List Hash) → get q t.readset ≡ some vs → vs ≡ f q ∷ []

  -- From `t` to `t'` the writeset has changed as `g` does, if all that was read in the end has its
  -- value in the view.
  pub record IsFollowed (g : WriteSet → WriteSet) (t t' : AccessListTracer) : Type 0 where
    pub matched : Matches t' → Matches t
    pub writes : Matches t' → t'.writeset ≡ g t.writeset
    pub msg : t'.msg ≡ t.msg
    pub price : t'.gas_price ≡ t.gas_price

  abbrev pub Follows : (WriteSet → WriteSet) → AccessListTracer → Option AccessListTracer → Type 0
  Follows g t m = (t' : AccessListTracer) → m ≡ some t' → IsFollowed g t t'

  pub same_Follows : (t u : AccessListTracer) → SameSets t u → Follows (λ ws. ws) t (some u)
  same_Follows t u x t' y =
      let same : u ≡ t' = cc in
      let done : IsFollowed (λ ws. ws) t u = record {
        matched = λ h q vs g. h q vs (rw (x.0) g);
        writes = λ h. x.1;
        msg = x.2.same_msg;
        price = x.2.same_price;
      } in
      subst (IsFollowed (λ ws. ws) t) same done

  pub bind-Follows :
      (g h : WriteSet → WriteSet) (t : AccessListTracer) (m : Option AccessListTracer)
      (next : AccessListTracer → Option AccessListTracer)
      → Follows g t m
      → ((u : AccessListTracer) → u.msg ≡ t.msg → u.gas_price ≡ t.gas_price → Follows h u (next u))
      → Follows (λ ws. h (g ws)) t (m >>= next)
  bind-Follows g h t none next x y t' z = cc
  bind-Follows g h t (some u) next x y t' z =
      let one = x u refl in
      let two = y u one.msg one.price t' z in
      record {
        matched = λ w. one.matched (two.matched w);
        writes = λ w. two.writes w ∙ ap h (one.writes (two.matched w));
        msg = two.msg ∙ one.msg;
        price = two.price ∙ one.price;
      }

  pub if-Follows :
      (p : Bool) (g h : WriteSet → WriteSet) (t : AccessListTracer) (m n : Option AccessListTracer)
      → Follows g t m
      → Follows h t n
      → Follows (λ ws. if p then g ws else h ws) t (if p then m else n)
  if-Follows true g h t m n x y = x
  if-Follows false g h t m n x y = y

  -- What Get has done when it returns: all that was read before matches if all that is read does, and
  -- then the value is the one that the writeset and the view give.
  record IsRead (q : StorageKey) (t : AccessListTracer) (v : Hash) (t' : AccessListTracer)
      : Type 0 where
    pub matched : Matches t' → Matches t
    pub value : Matches t' → v ≡ updated t.writeset f q
    pub writes : t'.writeset ≡ t.writeset
    pub msg : t'.msg ≡ t.msg
    pub price : t'.gas_price ≡ t.gas_price

  recorded :
      (q : StorageKey) (v : Hash) (t u : AccessListTracer)
      → get q t.writeset ≡ none
      → get q t.readset ≡ none
      → SameSets t u
      → IsRead q t v (update_read_set q v u)
  unfolding update_read_set updated
  recorded q v t u x y same =
      let absent : get q u.readset ≡ none = rw (same.0) y in
      let found : get q (update_read_set q v u).readset ≡ some (v ∷ []) =
        ground (arith, absent, get-put q q (v ∷ []) u.readset) in
      record {
        matched = λ h p vs g. elim (Bytes-discrete q p) [
          | yes d ↦ absurd (cc (d, y, g))
          | no d ↦ h p vs (ground (arith, d, absent, same.0, g, get-put q p (v ∷ []) u.readset))
        ];
        value = λ h. ground (arith, h q (v ∷ []) found, x);
        writes = same.1;
        msg = same.2.same_msg;
        price = same.2.same_price;
      }

  get_key-IsRead :
      (q : StorageKey) (s : Store) (t t' : AccessListTracer) (v : Hash)
      → get_key q s t ≡ some (v, t')
      → IsRead q t v t'
  unfolding updated
  get_key-IsRead q s t t' v x = elim (get_key-IsFoundBy q s t t' v x) [
    | inl (g, same) ↦ subst (IsRead q t v) same (record {
      matched = λ h. h;
      value = λ h. ground (arith, g);
      writes = refl;
      msg = refl;
      price = refl;
    })
    | inr (none_own, inl (vs, g, same)) ↦ subst (IsRead q t v) same (record {
      matched = λ h. h;
      value = λ h. let first = h q (v ∷ vs) g in ground (arith, none_own, first);
      writes = refl;
      msg = refl;
      price = refl;
    })
    | inr (none_own, inr (g, _, same)) ↦
        subst (IsRead q t v) same
          (recorded q v t (looked_up q s t) none_own g (abort_on_estimate_keeps _ t))
  ]

  pub change_Follows :
      (q : StorageKey) (g : Hash → Hash) (s : Store) (t : AccessListTracer)
      → Follows (changed f q g) t (get_key q s t >>= λ p. some (set q (g p.0) p.1))
  unfolding set
  change_Follows q g s t = by_read (get_key q s t) refl
    where
      by_read :
          (m : Option (Hash × AccessListTracer))
          → get_key q s t ≡ m
          → Follows (changed f q g) t (m >>= λ p. some (set q (g p.0) p.1))
      by_read none x u y = cc
      by_read (some (v, t')) x u y =
          let r = get_key-IsRead q s t t' v x in
          let same : set q (g v) t' ≡ u = cc in
          let done : IsFollowed (changed f q g) t (set q (g v) t') = record {
            matched = r.matched;
            writes = λ h. cc (r.value h, r.writes);
            msg = r.msg;
            price = r.price;
          } in
          subst (IsFollowed (changed f q g) t) same done

  pub read_Follows :
      (q : StorageKey) (s : Store) (t : AccessListTracer)
      → Follows (λ ws. ws) t (read_only (get_key q s t))
  read_Follows q s t = by_read (get_key q s t) refl
    where
      by_read :
          (m : Option (Hash × AccessListTracer))
          → get_key q s t ≡ m
          → Follows (λ ws. ws) t (read_only m)
      by_read none x u y = cc
      by_read (some (v, t')) x u y =
          let r = get_key-IsRead q s t t' v x in
          let same : t' ≡ u = cc in
          let done : IsFollowed (λ ws. ws) t t' = record {
            matched = r.matched;
            writes = λ h. r.writes;
            msg = r.msg;
            price = r.price;
          } in
          subst (IsFollowed (λ ws. ws) t) same done

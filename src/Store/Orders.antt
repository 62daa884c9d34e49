-- ===== src/Store/Orders.antt =====
-- multiversion/store.go: what the order of the calls of different transactions means for the store.
use go_pevm.Shared.{
  ℕ, ℤ, pos, ◌≡◌, ◌≢◌, refl, sym, ◌∙◌, ap, true, Option, none, some, List, [], ◌∷◌, ◌++◌, arith,
  ite, ◌=?◌, get, is_some, if◌then◌else◌, ℤ_eq, bytes_eq, sym,
}
use mathlib.Core.Path.{fun_ext}
use go_pevm.External.Kaia.{Kaia}
use go_pevm.External.BTree.{BTree}
use go_pevm.Versions.{ValueItem, less, new_estimate_item}
use go_pevm.Keys.{StorageKey, get_value}
use go_pevm.Store.{
  Store, WriteSet, ReadSet, remove_old_writeset, set_writeset, get_latest_before_index,
  invalidate_writeset, set_estimated_writeset, set_readset, get_readset, sort_ints, clear_readset,
  new_multi_version_store,
}
use go_pevm.Store.Invariant.{version}
use go_pevm.Store.Versioned.{fresh}
use go_pevm.Store.Reads.{read_local}
use go_pevm.Store.Validation.{
  Verdict, check_value, check_entry, check_entries, check_readset_at_index,
  validate_transaction_state,
}
use go_pevm.Store.Refinement.{
  Op, write, estimate, invalidate, record_reads, forget_reads, HaveMaps, Spec, empty_spec,
  replay_op, replay, run_op, run, Refines, run-Refines, new_multi_version_store-Refines,
}

module _ ⦃k : Kaia⦄ ⦃b : BTree less⦄ where
  -- Two stores that hold the same versions and readsets, over the same parent state.
  pub record SameView (s u : Store) : Type 0 where
    pub versions : (q : StorageKey) (j : ℤ) → version q j s ≡ version q j u
    pub readsets : (j : ℤ) → get_readset j s ≡ get_readset j u
    pub parent : s.parent_store ≡ u.parent_store

  check_value-SameView :
      (n : ℕ) (key : StorageKey) (v : k.Hash) (s u : Store) (acc : Verdict)
      → SameView s u
      → check_value (pos n) key v s acc ≡ check_value (pos n) key v u acc
  unfolding check_value
  check_value-SameView n key v s u (valid, cs) h =
      let same : get_value key s.parent_store ≡ get_value key u.parent_store =
        ap (get_value key) h.parent in
      ground (arith, read_local n key s u (λ j _. h.versions key j), same)

  check_entry-SameView :
      (n : ℕ) (key : StorageKey) (vs : List k.Hash) (s u : Store) (acc : Verdict)
      → SameView s u
      → check_entry (pos n) key vs s acc ≡ check_entry (pos n) key vs u acc
  unfolding check_entry
  check_entry-SameView n key [] s u acc h = refl
  check_entry-SameView n key (v ∷ []) s u acc h = check_value-SameView n key v s u acc h
  check_entry-SameView n key (v ∷ w ∷ l) s u acc h = refl

  check_entries-SameView :
      (n : ℕ) (rs : ReadSet) (s u : Store) (acc : Verdict)
      → SameView s u
      → check_entries (pos n) rs s acc ≡ check_entries (pos n) rs u acc
  unfolding check_entries
  check_entries-SameView n [] s u acc h = refl
  check_entries-SameView n ((key, vs) ∷ rs) s u acc h =
      ap (check_entries (pos n) rs s) (check_entry-SameView n key vs s u acc h)
      ∙ check_entries-SameView n rs s u (check_entry (pos n) key vs u acc) h

  abbrev verdict_of : ℕ → Store → Option ReadSet → Verdict
  verdict_of n s none = (true, [])
  verdict_of n s (some rs) =
      let (valid, conflicts) = check_entries (pos n) rs s (true, []) in (valid, sort_ints conflicts)

  verdict_of-SameView :
      (n : ℕ) (o : Option ReadSet) (s u : Store)
      → SameView s u
      → verdict_of n s o ≡ verdict_of n u o
  verdict_of-SameView n none s u h = refl
  verdict_of-SameView n (some rs) s u h =
      ap (λ (v : Verdict). (v.0, sort_ints v.1)) (check_entries-SameView n rs s u (true, []) h)

  pub validate-SameView :
      (n : ℕ) (s u : Store)
      → SameView s u
      → validate_transaction_state (pos n) s ≡ validate_transaction_state (pos n) u
  unfolding validate_transaction_state check_readset_at_index get_readset
  validate-SameView n s u h =
      ap (verdict_of n s) (h.readsets (pos n))
      ∙ verdict_of-SameView n (get (pos n) u.tx_read_sets) s u h

module _ ⦃k : Kaia⦄ where
  -- The transaction that makes the call.
  abbrev pub maker : Op → ℤ
  maker (write i n ws) = i
  maker (estimate i n ws) = i
  maker (invalidate i n) = i
  maker (record_reads i rs) = i
  maker (forget_reads i) = i

  abbrev new_version : Op → StorageKey → Option ValueItem → Option ValueItem
  new_version (write i n ws) q o = fresh i n (get q ws)
  new_version (estimate i n ws) q o =
      if is_some (get q ws) then some (new_estimate_item i n) else none
  new_version (invalidate i n) q o = if is_some o then some (new_estimate_item i n) else none
  new_version _ q o = o

  abbrev new_readset : Op → Option ReadSet → Option ReadSet
  new_readset (record_reads i rs) o = some rs
  new_readset (forget_reads i) o = none
  new_readset _ o = o

  versions-replay_op :
      (op : Op) (c : Spec) (q : StorageKey) (j : ℤ)
      → (replay_op op c).versions q j
        ≡ ite (maker op =? j) (new_version op q (c.versions q (maker op))) (c.versions q j)
  unfolding replay_op
  versions-replay_op (write i n ws) c q j = refl
  versions-replay_op (estimate i n ws) c q j = refl
  versions-replay_op (invalidate i n) c q j = refl
  versions-replay_op (record_reads i rs) c q j = ground arith
  versions-replay_op (forget_reads i) c q j = ground arith

  readsets-replay_op :
      (op : Op) (c : Spec) (j : ℤ)
      → (replay_op op c).readsets j
        ≡ ite (maker op =? j) (new_readset op (c.readsets (maker op))) (c.readsets j)
  unfolding replay_op
  readsets-replay_op (write i n ws) c j = ground arith
  readsets-replay_op (estimate i n ws) c j = ground arith
  readsets-replay_op (invalidate i n) c j = ground arith
  readsets-replay_op (record_reads i rs) c j = refl
  readsets-replay_op (forget_reads i) c j = refl

  Spec-path :
      (c d : Spec)
      → ((q : StorageKey) (j : ℤ) → c.versions q j ≡ d.versions q j)
      → ((j : ℤ) → c.readsets j ≡ d.readsets j)
      → c ≡ d
  Spec-path c d h g =
      ap (λ v. record { versions = v; readsets = c.readsets }) (fun_ext (λ q. fun_ext (λ j. h q j)))
      ∙ ap (λ r. record { versions = d.versions; readsets = r }) (fun_ext (λ j. g j))

  replay_op_comm :
      (a p : Op) (c : Spec)
      → maker a ≢ maker p
      → replay_op a (replay_op p c) ≡ replay_op p (replay_op a c)
  replay_op_comm a p c h =
      Spec-path _ _
        (λ q j. ground (
          arith,
          versions-replay_op a (replay_op p c) q j,
          versions-replay_op p (replay_op a c) q j,
          versions-replay_op a c q j,
          versions-replay_op p c q j,
          versions-replay_op a c q (maker p),
          versions-replay_op p c q (maker a),
        ))
        (λ j. ground (
          arith,
          readsets-replay_op a (replay_op p c) j,
          readsets-replay_op p (replay_op a c) j,
          readsets-replay_op a c j,
          readsets-replay_op p c j,
          readsets-replay_op a c (maker p),
          readsets-replay_op p c (maker a),
        ))

  replay-swap :
      (ops more : List Op) (a p : Op) (c : Spec)
      → maker a ≢ maker p
      → replay (ops ++ a ∷ p ∷ more) c ≡ replay (ops ++ p ∷ a ∷ more) c
  unfolding replay
  replay-swap [] more a p c h = ap (replay more) (replay_op_comm p a c (λ e. h (sym e)))
  replay-swap (op ∷ ops) more a p c h = replay-swap ops more a p (replay_op op c) h

  HaveMaps-swap :
      (ops more : List Op) (a p : Op)
      → HaveMaps (ops ++ a ∷ p ∷ more)
      → HaveMaps (ops ++ p ∷ a ∷ more)
  HaveMaps-swap [] more a p h = (h.1.0, (h.0, h.1.1))
  HaveMaps-swap (op ∷ ops) more a p h = (h.0, HaveMaps-swap ops more a p h.1)

module _ ⦃k : Kaia⦄ ⦃b : BTree less⦄ where
  parent-remove_old_writeset :
      (i : ℤ) (ws : WriteSet) (s : Store)
      → (remove_old_writeset i ws s).parent_store ≡ s.parent_store
  unfolding remove_old_writeset
  parent-remove_old_writeset i ws s = ground arith

  pub parent-run_op : (op : Op) (s : Store) → (run_op op s).parent_store ≡ s.parent_store
  unfolding run_op set_writeset set_estimated_writeset invalidate_writeset set_readset clear_readset
  parent-run_op (write i n ws) s = parent-remove_old_writeset i ws s
  parent-run_op (estimate i n ws) s = parent-remove_old_writeset i ws s
  parent-run_op (invalidate i n) s = ground arith
  parent-run_op (record_reads i rs) s = refl
  parent-run_op (forget_reads i) s = refl

  parent-run : (ops : List Op) (s : Store) → (run ops s).parent_store ≡ s.parent_store
  unfolding run
  parent-run [] s = refl
  parent-run (op ∷ ops) s = parent-run ops (run_op op s) ∙ parent-run_op op s

  Refines-SameView :
      (s u : Store) (c d : Spec)
      → Refines s c
      → Refines u d
      → c ≡ d
      → s.parent_store ≡ u.parent_store
      → SameView s u
  Refines-SameView s u c d h g e r = record {
    versions = λ q j. h.same_versions q j ∙ ap (λ x. x.versions q j) e ∙ sym (g.same_versions q j);
    readsets = λ j. h.same_readsets j ∙ ap (λ x. x.readsets j) e ∙ sym (g.same_readsets j);
    parent = r;
  }

  -- Two calls of different transactions may be made in either order, whatever calls come before and
  -- after them, where each writeset of SetWriteset holds a key once: GetLatestBeforeIndex and
  -- ValidateTransactionState return the same for every position.
  pub swapped_calls :
      (ops more : List Op) (a p : Op) (st : k.StateDb)
      → HaveMaps (ops ++ a ∷ p ∷ more)
      → maker a ≢ maker p
      → let s = run (ops ++ a ∷ p ∷ more) (new_multi_version_store st) in
        let u = run (ops ++ p ∷ a ∷ more) (new_multi_version_store st) in
        ((n : ℕ) (q : StorageKey)
          → get_latest_before_index (pos n) q s ≡ get_latest_before_index (pos n) q u)
        × ((n : ℕ) → validate_transaction_state (pos n) s ≡ validate_transaction_state (pos n) u)
  swapped_calls ops more a p st m h =
      let c0 : Spec = empty_spec in
      let s0 : Store = new_multi_version_store st in
      let one = ops ++ a ∷ p ∷ more in
      let two = ops ++ p ∷ a ∷ more in
      let m' = HaveMaps-swap ops more a p m in
      let same : SameView (run one s0) (run two s0) =
        Refines-SameView _ _ (replay one c0) (replay two c0)
          (run-Refines one s0 c0 m (new_multi_version_store-Refines st))
          (run-Refines two s0 c0 m' (new_multi_version_store-Refines st))
          (replay-swap ops more a p c0 h) (parent-run one s0 ∙ sym (parent-run two s0)) in
      (λ n q. read_local n q _ _ (λ j _. same.versions q j), λ n. validate-SameView n _ _ same)

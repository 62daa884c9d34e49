-- ===== src/Tracer/Uses.antt =====
-- multiversion/tracer.go: the keys that a transaction reads and writes, by the calls of its tracer.
-- This file has what is asked of the calls; the child goes through them.
pub mod Runs
use go_pevm.Shared.{
  ℕ, ℤ, ◌≡◌, ◌≢◌, ◌⊎◌, Map, refl, sym, ap, ◌∙◌, Bool, true, false, Option, none, some, Option-cases,
  inl, inr, List, [], ◌∷◌, arith, get, put, get-put, bytes_eq, Bytes-discrete, if◌then◌else◌,
  neg_int,
}
use go_pevm.External.Kaia.{Kaia}
use go_pevm.External.BTree.{BTree}
use go_pevm.External.Evm.{
  Evm, Env, Scope, OpCode, sload, sstore, extcodecopy, extcodehash, extcodesize, balance, call,
  callcode, selfdestruct, Call, op_executed, tx_ended,
}
use go_pevm.Versions.{less}
use go_pevm.Keys.{
  StorageKey, to_storage_key, slot, get_value, code_copy_key, code_hash_key, code_size_key,
  balance_key, nonce_key,
}
use go_pevm.Keys.RoundTrip.{HasTexts, address-slot-to_storage_key}
use go_pevm.Store.{Store, get_latest_before_index}
use go_pevm.Store.Flush.Views.{IsMade, IsValueKey}
use go_pevm.Tracer.{
  AccessListTracer, ◌>>=◌, update_read_set, set, abort_on_estimate, first_value, get_key,
  update_and_set_balance, update_and_set_nonce, new_access_list_tracer,
}
use go_pevm.Tracer.Callbacks.{
  read_only, charge_gas, count_nonce, price_or, capture_start, read_account, capture_call,
  capture_op, capture_state, refund_gas, capture_tx_end,
}
use go_pevm.Tracer.Reads.{looked_up, get_key-IsFoundBy}
use go_pevm.Tracer.Views.{SameSets, write_abort_keeps, abort_on_estimate_keeps}
use go_pevm.Tracer.Runs.{make_call, make_calls, run_transaction, new_channel}
use mathlib.Core.Path.{subst}

module _ ⦃k : Kaia⦄ where
  -- A slot that stands for no part of an account's code.
  pub record IsNoCode (s : k.Hash) : Type 0 where
    pub no_copy : s ≢ code_copy_key
    pub no_hash : s ≢ code_hash_key
    pub no_size : s ≢ code_size_key

  -- The constants for balances and nonces are none of those for code.
  pub record HasOwnKeys : Type 0 where
    pub balances : IsNoCode balance_key
    pub nonces : IsNoCode nonce_key

  pub to_storage_key-IsMade :
      HasTexts k → (a : k.Address) (s : k.Hash) → IsMade (to_storage_key a s)
  to_storage_key-IsMade texts a s =
      let (x, y) = address-slot-to_storage_key texts a s in
      sym (ap (λ i. to_storage_key i (slot (to_storage_key a s))) x ∙ ap (to_storage_key a) y)

  pub to_storage_key-IsValueKey :
      HasTexts k → (a : k.Address) (s : k.Hash) → IsNoCode s → IsValueKey (to_storage_key a s)
  to_storage_key-IsValueKey texts a s h =
      let (x, y) = address-slot-to_storage_key texts a s in
      record {
        made = to_storage_key-IsMade texts a s;
        no_copy = λ e. h.no_copy (sym y ∙ e);
        no_hash = λ e. h.no_hash (sym y ∙ e);
        no_size = λ e. h.no_size (sym y ∙ e);
      }

pub put-found :
    {V : Type 0} (key q : StorageKey) (x y : V) (m : Map StorageKey V)
    → get q (put key x m) ≡ some y
    → (key ≡ q) ⊎ (get q m ≡ some y)
put-found key q x y m h = elim (Bytes-discrete key q) [
  | yes d ↦ inl d
  | no d ↦ inr (ground (arith, d, get-put key q x m, h))
]

module _ ⦃k : Kaia⦄ ⦃e : Evm k⦄ where
  -- An opcode that looks at no code, and loads no slot that stands for code.
  abbrev pub IsPlainOp : OpCode → List e.Word → Type 0
  IsPlainOp sload (w ∷ l) = IsNoCode (e.bytes32 w)
  IsPlainOp extcodecopy (w ∷ l) = ⊥
  IsPlainOp extcodehash (w ∷ l) = ⊥
  IsPlainOp extcodesize (w ∷ l) = ⊥
  IsPlainOp _ l = Unit

  abbrev pub IsPlainCall : Call → Type 0
  IsPlainCall (op_executed op scope) = IsPlainOp op scope.stack
  IsPlainCall (tx_ended rest) = Unit

  abbrev pub ArePlainCalls : List Call → Type 0
  ArePlainCalls [] = Unit
  ArePlainCalls (c ∷ cs) = IsPlainCall c × ArePlainCalls cs

  -- Every key that was read is one of a balance, a nonce or a slot, and every key that is written was
  -- made by ToStorageKey.
  pub record HasValueKeys (t : AccessListTracer) : Type 0 where
    pub reads : (q : StorageKey) (vs : List k.Hash) → get q t.readset ≡ some vs → IsValueKey q
    pub writes : (q : StorageKey) (v : k.Hash) → get q t.writeset ≡ some v → IsMade q

  abbrev pub LeavesValueKeys : Option AccessListTracer → Type 0
  LeavesValueKeys m = (t : AccessListTracer) → m ≡ some t → HasValueKeys t

  some-LeavesValueKeys : (t : AccessListTracer) → HasValueKeys t → LeavesValueKeys (some t)
  some-LeavesValueKeys t h u x = let same : t ≡ u = cc in subst HasValueKeys same h

  pub bind-LeavesValueKeys :
      (m : Option AccessListTracer) (f : AccessListTracer → Option AccessListTracer)
      → LeavesValueKeys m
      → ((u : AccessListTracer) → HasValueKeys u → LeavesValueKeys (f u))
      → LeavesValueKeys (m >>= f)
  bind-LeavesValueKeys none f h g t x = cc
  bind-LeavesValueKeys (some u) f h g t x = g u (h u refl) t x

  pub if-LeavesValueKeys :
      (p : Bool) (m n : Option AccessListTracer)
      → LeavesValueKeys m
      → LeavesValueKeys n
      → LeavesValueKeys (if p then m else n)
  if-LeavesValueKeys true m n h g = h
  if-LeavesValueKeys false m n h g = g

  pub set-HasValueKeys :
      (key : StorageKey) (v : k.Hash) (t : AccessListTracer)
      → IsMade key
      → HasValueKeys t
      → HasValueKeys (set key v t)
  unfolding set
  set-HasValueKeys key v t made h = record {
    reads = h.reads;
    writes = λ q x g. elim (put-found key q v x t.writeset g) [
      | inl d ↦ subst IsMade d made
      | inr f ↦ h.writes q x f
    ];
  }

  pub update_read_set-HasValueKeys :
      (key : StorageKey) (v : k.Hash) (t : AccessListTracer)
      → IsValueKey key
      → HasValueKeys t
      → HasValueKeys (update_read_set key v t)
  unfolding update_read_set
  update_read_set-HasValueKeys key v t valued h = record {
    reads = λ q vs g. elim (put-found key q _ vs t.readset g) [
      | inl d ↦ subst IsValueKey d valued
      | inr f ↦ h.reads q vs f
    ];
    writes = h.writes;
  }

module _ ⦃k : Kaia⦄ ⦃e : Evm k⦄ ⦃b : BTree less⦄ where
  open k use {Address, Hash}
  open e use {Word}

  pub SameSets-HasValueKeys :
      (t t' : AccessListTracer) → SameSets t t' → HasValueKeys t → HasValueKeys t'
  SameSets-HasValueKeys t t' same h = record {
    reads = λ q vs x. h.reads q vs (rw (sym (same.0)) x);
    writes = λ q v x. h.writes q v (rw (sym (same.1)) x);
  }

  pub get_key-HasValueKeys :
      (key : StorageKey) (s : Store) (t t' : AccessListTracer) (v : Hash)
      → IsValueKey key
      → HasValueKeys t
      → get_key key s t ≡ some (v, t')
      → HasValueKeys t'
  get_key-HasValueKeys key s t t' v valued h x = elim (get_key-IsFoundBy key s t t' v x) [
    | inl (_, same) ↦ subst HasValueKeys same h
    | inr (_, inl (_, _, same)) ↦ subst HasValueKeys same h
    | inr (_, inr (_, _, same)) ↦
        let u = looked_up key s t in
        subst HasValueKeys same (
          update_read_set-HasValueKeys key v u valued
            (SameSets-HasValueKeys t u (abort_on_estimate_keeps _ t) h))
  ]

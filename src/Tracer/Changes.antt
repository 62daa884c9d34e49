-- ===== src/Tracer/Changes.antt =====
-- multiversion/tracer.go: the changes of balances, nonces and slots.
use go_pevm.Shared.{ℤ, pos, ◌≡◌, refl, ◌∙◌, Option, some, arith, ite, ◌=?◌, bytes_eq, ◌+ℤ◌, ◌-ℤ◌}
use go_pevm.External.Kaia.{Kaia}
use go_pevm.External.BTree.{BTree}
use go_pevm.External.Evm.{Evm}
use go_pevm.Versions.{less}
use go_pevm.Keys.{StorageKey, to_storage_key, balance_key, nonce_key}
use go_pevm.Store.{Store}
use go_pevm.Tracer.{
  AccessListTracer, Abort, ◌>>=◌, write_abort, set, hash_to_big, get_key, update_and_set_balance,
  update_and_set_nonce,
}
use go_pevm.Tracer.Views.{
  IsFounded, IsFaithful, SameRun, SameSets-refl, seen, seen-set, get_key_lem, set-IsFaithful,
  write_abort_keeps, write_abort-IsFaithful,
}

module _ ⦃k : Kaia⦄ ⦃e : Evm k⦄ ⦃b : BTree less⦄ where
  open k use {Hash, Address}

  -- An operation that does not fail, and leaves a tracer of the same run.
  pub record Succeeds (s : Store) (t : AccessListTracer) (m : Option AccessListTracer)
      : Type 0 where
    pub after : AccessListTracer
    pub returned : m ≡ some after
    pub faithful : IsFaithful s after
    pub same : SameRun t after

  SameRun-trans : (t u v : AccessListTracer) → SameRun t u → SameRun u v → SameRun t v
  SameRun-trans t u v h g = record {
    same_index = g.same_index ∙ h.same_index;
    same_incarnation = g.same_incarnation ∙ h.same_incarnation;
    same_price = g.same_price ∙ h.same_price;
    same_msg = g.same_msg ∙ h.same_msg;
  }

  pub Succeeds-some : (s : Store) (t : AccessListTracer) → IsFaithful s t → Succeeds s t (some t)
  Succeeds-some s t h = record {
    after = t;
    returned = refl;
    faithful = h;
    same = (SameSets-refl t).2;
  }

  pub Succeeds-bind :
      (s : Store) (t : AccessListTracer) (m : Option AccessListTracer)
      (f : AccessListTracer → Option AccessListTracer)
      → Succeeds s t m
      → ((u : AccessListTracer) → IsFaithful s u → SameRun t u → Succeeds s u (f u))
      → Succeeds s t (m >>= f)
  Succeeds-bind s t m f h g =
      let rest = g h.after h.faithful h.same in
      record {
        after = rest.after;
        returned = rw (h.returned) rest.returned;
        faithful = rest.faithful;
        same = SameRun-trans t h.after rest.after h.same rest.same;
      }

  -- The changes of a balance and of a nonce: the new value of the key is computed from the one that
  -- the transaction sees, and it sees no other key change.
  change_lem :
      (key : StorageKey) (f : Hash → Hash) (s : Store) (t : AccessListTracer)
      → IsFaithful s t
      → (done : Succeeds s t (get_key key s t >>= λ p. some (set key (f p.0) p.1)))
        × ((q : StorageKey) → seen q s done.after ≡ ite (key =? q) (f (seen key s t)) (seen q s t))
  change_lem key f s t h =
      let (t', e, h', same_writes, same) = get_key_lem key s t h in
      let v : Hash = f (seen key s t) in
      (
        record {
          after = set key v t';
          returned = rw e;
          faithful = set-IsFaithful key v s t' h';
          same = unfold set in ground (arith, same);
        },
        λ q. seen-set key q v s t' ∙ ground (arith, same_writes),
      )

  pub update_and_set_balance_lem :
      (a : Address) (value : ℤ) (s : Store) (t : AccessListTracer)
      → IsFaithful s t
      → (done : Succeeds s t (update_and_set_balance a value s t)) × ((q : StorageKey)
          → seen q s done.after
            ≡ ite
                (to_storage_key a balance_key =? q)
                (k.big_to_hash (hash_to_big (seen (to_storage_key a balance_key) s t) -ℤ value))
                (seen q s t))
  unfolding update_and_set_balance
  update_and_set_balance_lem a value s t h =
      change_lem (to_storage_key a balance_key) (λ v. k.big_to_hash (hash_to_big v -ℤ value)) s t h

  pub update_and_set_nonce_lem :
      (a : Address) (s : Store) (t : AccessListTracer)
      → IsFaithful s t
      → (done : Succeeds s t (update_and_set_nonce a s t)) × ((q : StorageKey)
          → seen q s done.after
            ≡ ite
                (to_storage_key a nonce_key =? q)
                (k.big_to_hash (hash_to_big (seen (to_storage_key a nonce_key) s t) +ℤ pos 1))
                (seen q s t))
  unfolding update_and_set_nonce
  update_and_set_nonce_lem a s t h =
      change_lem (to_storage_key a nonce_key) (λ v. k.big_to_hash (hash_to_big v +ℤ pos 1)) s t h

  pub set-Succeeds :
      (key : StorageKey) (v : Hash) (s : Store) (t : AccessListTracer)
      → IsFaithful s t
      → Succeeds s t (some (set key v t))
  unfolding set
  set-Succeeds key v s t h = record {
    after = set key v t;
    returned = refl;
    faithful = set-IsFaithful key v s t h;
    same = ground arith;
  }

  pub write_abort-Succeeds :
      (a : Abort) (s : Store) (t : AccessListTracer)
      → IsFaithful s t
      → IsFounded s t.transaction_index a
      → Succeeds s t (some (write_abort a t))
  write_abort-Succeeds a s t h f = record {
    after = write_abort a t;
    returned = refl;
    faithful = write_abort-IsFaithful a s t h f;
    same = (write_abort_keeps a t).2;
  }

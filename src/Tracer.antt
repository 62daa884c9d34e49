-- ===== src/Tracer.antt =====
-- multiversion/tracer.go: the tracer that records what a transaction reads and writes. A method
-- returns the new tracer; `none` is a panic. The store behind `multiVersionStore` is an argument.
-- The tests `key.Bytes() == nil` never hold, since the conversion of a string is not nil.
pub mod Callbacks
pub mod Views
pub mod Changes
pub mod Runs
pub mod Unstarted
pub mod Reads
pub mod Uses
pub mod Reference
pub mod Transfers
pub mod Validation
pub mod Data
use go_pevm.Shared.{
  ℕ, suc, ℤ, pos, Bool, true, false, not, ◌&&◌, Option, none, some, List, [], ◌∷◌, ◌++◌, is,
  is_some, Map, keys, get, put, ltb, lt_int, bytes_eq, Bytes, set_bytes, if◌then◌else◌, ◌+ℤ◌, ◌-ℤ◌,
  ◌*ℤ◌, neg_int,
}
use go_pevm.External.Kaia.{Kaia}
use go_pevm.External.BTree.{BTree}
use go_pevm.External.Evm.{Evm, Env, Scope, OpCode}
use go_pevm.Versions.{ValueItem, less, is_deleted}
use go_pevm.Keys.{
  StorageKey, to_storage_key, code_copy_key, code_hash_key, code_size_key, balance_key, nonce_key,
  get_value, address, slot,
}
use go_pevm.Store.{
  Store, WriteSet, ReadSet, sort_keys, get_latest_before_index, set_writeset,
  set_estimated_writeset, set_readset,
}

pub data AbortError : Type 0 where
  read_estimate need_sequential_execution : AbortError

pub record Abort : Type 0 where
  pub dependent_tx_idx : ℤ
  pub err : AbortError

abbrev pub new_estimate_abort : ℤ → Abort
new_estimate_abort i = record { dependent_tx_idx = i; err = AbortError.read_estimate }

-- `chan Abort`: what it holds, the oldest first, and how many it takes
pub record AbortChannel : Type 0 where
  pub buffered : List Abort
  pub capacity : ℕ

abbrev pub length : List Abort → ℕ
length [] = 0
length (a ∷ l) = suc (length l)

infixl 5 ◌>>=◌
abbrev pub ◌>>=◌ : {A B : Type 0} → Option A → (A → Option B) → Option B
none >>= f = none
some a >>= f = f a

module _ ⦃k : Kaia⦄ ⦃e : Evm k⦄ where
  open k use {Hash, Address, StateDb, zero_hash, hash_discrete}
  open e use {Message, Word}

  pub record AccessListTracer : Type 0 where
    pub excl : List Address
    pub readset : ReadSet
    pub writeset : WriteSet
    pub msg : Message
    pub gas_price : Option ℤ
    pub transaction_index : ℤ
    pub incarnation : ℕ
    pub aborted_channel : AbortChannel

  unfoldable pub new_access_list_tracer : Message → ℤ → ℕ → AbortChannel → AccessListTracer
  new_access_list_tracer msg i n ch = record {
    excl = e.precompiled;
    readset = [];
    writeset = [];
    msg = msg;
    gas_price = none;
    transaction_index = i;
    incarnation = n;
    aborted_channel = ch;
  }

  -- The select with a default: a full channel drops the abort.
  unfoldable pub write_abort : Abort → AccessListTracer → AccessListTracer
  write_abort a t =
      let ch = t.aborted_channel in
      if ltb (length ch.buffered) ch.capacity
      then record t { aborted_channel = record ch { buffered = ch.buffered ++ a ∷ [] } }
      else t

  abbrev pub contains : Hash → List Hash → Bool
  contains v [] = false
  contains v (w ∷ l) = if is (hash_discrete w v) then true else contains v l

  abbrev pub or_empty : Option (List Hash) → List Hash
  or_empty none = []
  or_empty (some l) = l

  unfoldable pub update_read_set : StorageKey → Hash → AccessListTracer → AccessListTracer
  update_read_set key v t =
      let vs = or_empty (get key t.readset) in
      record t { readset = put key (if contains v vs then vs else vs ++ v ∷ []) t.readset }

  -- setValue, Set and Delete
  unfoldable pub set_value : StorageKey → Hash → AccessListTracer → AccessListTracer
  set_value key v t = record t { writeset = put key v t.writeset }

  unfoldable pub set : StorageKey → Hash → AccessListTracer → AccessListTracer
  unfolding set_value
  set key v t = set_value key v t

  unfoldable pub delete : StorageKey → AccessListTracer → AccessListTracer
  unfolding set_value
  delete key t = set_value key zero_hash t

  unfoldable pub hash_to_big : Hash → ℤ
  hash_to_big h = set_bytes (k.hash_bytes h)

  -- readsetVal[0]
  abbrev pub first_value : List Hash → AccessListTracer → Option (Hash × AccessListTracer)
  first_value [] t = none
  first_value (v ∷ l) t = some (v, t)

module _ ⦃k : Kaia⦄ ⦃e : Evm k⦄ ⦃b : BTree less⦄ where
  open k use {Hash, Address, zero_hash, hash_discrete}

  abbrev pub abort_on_estimate : Option ValueItem → AccessListTracer → AccessListTracer
  abort_on_estimate none t = t
  abort_on_estimate (some v) t =
      if v.estimate then write_abort (new_estimate_abort v.index) t else t

  -- (*AccessListTracer).Get: the own write, else what was read before, else the parent's value,
  -- which is recorded as read.
  unfoldable pub get_key : StorageKey → Store → AccessListTracer → Option (Hash × AccessListTracer)
  get_key key s t = elim (get key t.writeset) [
    | some v ↦ some (v, t)
    | none ↦ elim (get key t.readset) [
      | some vs ↦ first_value vs t
      | none ↦
          let t' = abort_on_estimate (get_latest_before_index t.transaction_index key s) t in
          let v = get_value key s.parent_store in some (v, update_read_set key v t')
    ]
  ]

  -- (*AccessListTracer).Has
  unfoldable pub has_key : StorageKey → Store → AccessListTracer → Option (Bool × AccessListTracer)
  has_key key s t = do (v, t') ← get_key key s t; some (not (is (hash_discrete v zero_hash)), t')

  unfoldable pub valid_get : StorageKey → Store → AccessListTracer → Option AccessListTracer
  valid_get key s t = elim (get_latest_before_index t.transaction_index key s) [
    | none ↦ some t
    | some v ↦ if v.estimate then none else some t
  ]

  unfoldable pub parse_value_and_update_readset :
      StorageKey → ValueItem → AccessListTracer → Hash × AccessListTracer
  parse_value_and_update_readset key v t =
      let value = if is_deleted v then zero_hash else v.value in
      (value, update_read_set key value t)

  unfoldable pub update_and_set_balance :
      Address → ℤ → Store → AccessListTracer → Option AccessListTracer
  update_and_set_balance a value s t = do
    (h, t') ← get_key (to_storage_key a balance_key) s t
    some (set (to_storage_key a balance_key) (k.big_to_hash (hash_to_big h -ℤ value)) t')

  unfoldable pub update_and_set_nonce : Address → Store → AccessListTracer → Option AccessListTracer
  update_and_set_nonce a s t = do
    (h, t') ← get_key (to_storage_key a nonce_key) s t
    some (set (to_storage_key a nonce_key) (k.big_to_hash (hash_to_big h +ℤ pos 1)) t')

  unfoldable pub write_estimates_to_multi_version_store : AccessListTracer → Store → Store
  write_estimates_to_multi_version_store t s =
      set_estimated_writeset t.transaction_index t.incarnation t.writeset s

  unfoldable pub write_to_multi_version_store : AccessListTracer → Store → Store
  write_to_multi_version_store t s =
      set_readset t.transaction_index t.readset
        (set_writeset t.transaction_index t.incarnation t.writeset s)

  -- The loop of ValidateReadset over one key: `false` ends it, and `none` is the panic.
  unfoldable pub validate_value :
      StorageKey → Hash → Store → AccessListTracer → Option (Bool × AccessListTracer)
  validate_value key value s t = elim (get_latest_before_index t.transaction_index key s) [
    | some v ↦
        if v.estimate
        then some (false, write_abort (new_estimate_abort v.index) t)
        else if is_deleted v
        then some (is (hash_discrete value zero_hash), t)
        else some (is (hash_discrete value v.value), t)
    | none ↦
        if is (hash_discrete (k.get_state s.parent_store (address key) (slot key)) value)
        then some (true, t)
        else none
  ]

  unfoldable pub validate_keys :
      List StorageKey → Store → AccessListTracer → Option (Bool × AccessListTracer)
  validate_keys [] s t = some (true, t)
  validate_keys (key ∷ l) s t = elim (or_empty (get key t.readset)) [
    | [] ↦ some (false, t)
    | value ∷ more ↦ elim more [
      | w ∷ vs ↦ some (false, t)
      | [] ↦ elim (validate_value key value s t) [
        | none ↦ none
        | some (ok, t') ↦ elim ok [ true ↦ validate_keys l s t' | false ↦ some (false, t') ]
      ]
    ]
  ]

  unfoldable pub validate_readset : Store → AccessListTracer → Option (Bool × AccessListTracer)
  unfolding validate_keys validate_value
  validate_readset s t = validate_keys (sort_keys (keys t.readset)) s t

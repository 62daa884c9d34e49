-- ===== src/Tracer/Validation.antt =====
-- multiversion/tracer.go: ValidateReadset, beside the validation of multiversion/store.go.
use go_pevm.Shared.{◌≡◌, ◌≢◌, none, some, [], arith, get, put, bytes_eq}
use go_pevm.External.Kaia.{Kaia}
use go_pevm.External.BTree.{BTree}
use go_pevm.External.Evm.{Evm}
use go_pevm.Versions.{less}
use go_pevm.Keys.{StorageKey, get_value, address, slot}
use go_pevm.Store.{Store, sort_keys, get_latest_before_index}
use go_pevm.Tracer.{AccessListTracer, get_key, update_read_set, validate_readset}

module _ ⦃k : Kaia⦄ ⦃e : Evm k⦄ ⦃b : BTree less⦄ where
  open k use {Hash}

  -- A read of one key is validated by a panic, if no transaction before has a version of the key and
  -- the value that was read from the parent state is not the content of the storage slot of the same
  -- name. So it is for a balance, a nonce and a code hash that differ from that slot.
  pub validate_readset_panics :
      (key : StorageKey) (s : Store) (t : AccessListTracer)
      → t.readset ≡ []
      → get key t.writeset ≡ none
      → get_latest_before_index t.transaction_index key s ≡ none
      → k.get_state s.parent_store (address key) (slot key) ≢ get_value key s.parent_store
      → (t' : AccessListTracer) × (get_key key s t ≡ some (get_value key s.parent_store, t'))
        × (validate_readset s t' ≡ none)
  unfolding get_key validate_readset update_read_set get put sort_keys
  validate_readset_panics key s t r w e h = (
    update_read_set key (get_value key s.parent_store) t,
    ground (arith, r, w, e),
    ground (arith, r, e),
  )

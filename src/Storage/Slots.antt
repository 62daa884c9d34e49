-- ===== src/Storage/Slots.antt =====
-- storage/storage.go: the slots of one account that CommitPreState writes.
use go_pevm.Shared.{◌≡◌, ◌≢◌, refl, ap, ◌∙◌, arith, some, [], ◌∷◌, Bytes, Map, get, bytes_eq, ◌=?◌}
use go_pevm.External.Kaia.{Kaia}
use go_pevm.Store.Flush.Accounts.{HasAccounts}
use go_pevm.Storage.{set_slots}

module _ ⦃k : Kaia⦄ where
  -- No key of the slots stands for the slot `s`.
  abbrev pub IsSlotFree : k.Hash → Map Bytes Bytes → Type 0
  IsSlotFree s [] = Unit
  IsSlotFree s ((key, value) ∷ l) = (k.hex_to_hash key ≢ s) × IsSlotFree s l

  -- The keys stand for slots that are all different.
  abbrev pub AreSlotsApart : Map Bytes Bytes → Type 0
  AreSlotsApart [] = Unit
  AreSlotsApart ((key, value) ∷ l) = IsSlotFree (k.hex_to_hash key) l × AreSlotsApart l

  module _ (accounts : HasAccounts k) where
    pub balance-set_slots :
        (a a' : k.Address) (l : Map Bytes Bytes) (st : k.StateDb)
        → k.get_balance (set_slots a l st) a' ≡ k.get_balance st a'
    unfolding set_slots
    balance-set_slots a a' [] st = refl
    balance-set_slots a a' ((q, v) ∷ l) st =
        balance-set_slots a a' l _
        ∙ accounts.cells.get_balance-set_state st a a' (k.hex_to_hash q) (k.hex_to_hash v)

    pub nonce-set_slots :
        (a a' : k.Address) (l : Map Bytes Bytes) (st : k.StateDb)
        → k.get_nonce (set_slots a l st) a' ≡ k.get_nonce st a'
    unfolding set_slots
    nonce-set_slots a a' [] st = refl
    nonce-set_slots a a' ((q, v) ∷ l) st =
        nonce-set_slots a a' l _
        ∙ accounts.get_nonce-set_state st a a' (k.hex_to_hash q) (k.hex_to_hash v)

    pub state-set_slots-other :
        (a a' : k.Address) (s : k.Hash) (l : Map Bytes Bytes) (st : k.StateDb)
        → a ≢ a'
        → k.get_state (set_slots a l st) a' s ≡ k.get_state st a' s
    unfolding set_slots
    state-set_slots-other a a' s [] st h = refl
    state-set_slots-other a a' s ((q, v) ∷ l) st h =
        state-set_slots-other a a' s l _ h
        ∙ accounts.cells.get_state-set_state st a a' (k.hex_to_hash q) s (k.hex_to_hash v)
        ∙ ground (arith, h)

    pub state-set_slots-free :
        (a : k.Address) (s : k.Hash) (l : Map Bytes Bytes) (st : k.StateDb)
        → IsSlotFree s l
        → k.get_state (set_slots a l st) a s ≡ k.get_state st a s
    unfolding set_slots
    state-set_slots-free a s [] st h = refl
    state-set_slots-free a s ((q, v) ∷ l) st h =
        state-set_slots-free a s l _ h.1
        ∙ accounts.cells.get_state-set_state st a a (k.hex_to_hash q) s (k.hex_to_hash v)
        ∙ ground (arith, h.0)

    pub state-set_slots-get :
        (a : k.Address) (key value : Bytes) (l : Map Bytes Bytes) (st : k.StateDb)
        → AreSlotsApart l
        → get key l ≡ some value
        → k.get_state (set_slots a l st) a (k.hex_to_hash key) ≡ k.hex_to_hash value
    unfolding set_slots get
    state-set_slots-get a key value [] st h g = cc
    state-set_slots-get a key value ((q, v) ∷ l) st h g = elim (key =? q) [
      | yes p ↦
          let same : v ≡ value = ground (arith, p, g) in
          let free : IsSlotFree (k.hex_to_hash key) l = rw p h.0 in
          state-set_slots-free a (k.hex_to_hash key) l _ free
          ∙ accounts.cells.get_state-set_state st a a (k.hex_to_hash q) (k.hex_to_hash key)
              (k.hex_to_hash v)
          ∙ ground (arith, same, ap k.hex_to_hash p, ap k.hex_to_hash same)
      | no n ↦ state-set_slots-get a key value l _ h.1 (ground (arith, n, g))
    ]

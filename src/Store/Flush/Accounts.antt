-- ===== src/Store/Flush/Accounts.antt =====
-- What Finalise, which ends a flush of multiversion/store.go, drops from a state and what it keeps.
use go_pevm.Shared.{
  ℕ, ℤ, pos, ◌≡◌, ◌≢◌, sym, ap, ◌∙◌, ◌⊎◌, inl, inr, true, false, arith, ite, ◌=?◌, ℤ_eq,
}
use go_pevm.External.Kaia.{Kaia}
use go_pevm.Keys.{StorageKey, address, slot, balance_key, nonce_key, set_value_in, set_value}
use go_pevm.Store.Flush.States.{HasCells}

-- The documented behaviour of the accessors of *StateDB, beside HasCells: a write changes no nonce
-- but the one it is about.
pub record HasAccounts (k : Kaia) : Type 0 where
  pub cells : HasCells k
  pub get_nonce-set_nonce :
      (st : k.StateDb) (a a' : k.Address) (n : ℕ)
      → k.get_nonce (k.set_nonce a n st) a' ≡ ite (k.address_discrete a a') n (k.get_nonce st a')
  pub get_nonce-set_balance :
      (st : k.StateDb) (a a' : k.Address) (n : ℤ)
      → k.get_nonce (k.set_balance a n st) a' ≡ k.get_nonce st a'
  pub get_nonce-set_state :
      (st : k.StateDb) (a a' : k.Address) (s v : k.Hash)
      → k.get_nonce (k.set_state a s v st) a' ≡ k.get_nonce st a'

-- The documented behaviour of Finalise(true, false), and of the other accessors with the marks and
-- the code that it goes by. It drops accounts that are marked as self-destructed, and accounts with
-- no balance, no nonce and no code, the slots of both included. An account that it drops as empty
-- reads as one with no balance and no nonce, as before.
pub record HasViews (k : Kaia) : Type 0 where
  pub accounts : HasAccounts k
  pub alive-set_balance :
      (st : k.StateDb) (a a' : k.Address) (n : ℤ)
      → k.has_self_destructed st a' ≡ false
      → k.has_self_destructed (k.set_balance a n st) a' ≡ false
  pub alive-set_nonce :
      (st : k.StateDb) (a a' : k.Address) (n : ℕ)
      → k.has_self_destructed st a' ≡ false
      → k.has_self_destructed (k.set_nonce a n st) a' ≡ false
  pub alive-set_state :
      (st : k.StateDb) (a a' : k.Address) (s v : k.Hash)
      → k.has_self_destructed st a' ≡ false
      → k.has_self_destructed (k.set_state a s v st) a' ≡ false
  pub alive-finalise :
      (st : k.StateDb) (a : k.Address)
      → k.has_self_destructed st a ≡ false
      → k.has_self_destructed (k.finalise true false st) a ≡ false
  pub get_code_size-set_balance :
      (st : k.StateDb) (a a' : k.Address) (n : ℤ)
      → k.get_code_size (k.set_balance a n st) a' ≡ k.get_code_size st a'
  pub get_code_size-set_nonce :
      (st : k.StateDb) (a a' : k.Address) (n : ℕ)
      → k.get_code_size (k.set_nonce a n st) a' ≡ k.get_code_size st a'
  pub get_code_size-set_state :
      (st : k.StateDb) (a a' : k.Address) (s v : k.Hash)
      → k.get_code_size (k.set_state a s v st) a' ≡ k.get_code_size st a'
  pub get_code_size-finalise :
      (st : k.StateDb) (a : k.Address)
      → k.has_self_destructed st a ≡ false
      → k.get_code_size (k.finalise true false st) a ≡ k.get_code_size st a
  pub get_balance-finalise :
      (st : k.StateDb) (a : k.Address)
      → k.has_self_destructed st a ≡ false
      → k.get_balance (k.finalise true false st) a ≡ k.get_balance st a
  pub get_nonce-finalise :
      (st : k.StateDb) (a : k.Address)
      → k.has_self_destructed st a ≡ false
      → k.get_nonce (k.finalise true false st) a ≡ k.get_nonce st a
  -- An account with code is not empty, so it stays with its slots.
  pub get_state-finalise :
      (st : k.StateDb) (a : k.Address) (s : k.Hash)
      → k.has_self_destructed st a ≡ false
      → k.get_code_size st a ≢ pos 0
      → k.get_state (k.finalise true false st) a s ≡ k.get_state st a s
  -- A slot with nothing in it has nothing in it after its account is dropped.
  pub get_state-finalise_zero :
      (st : k.StateDb) (a : k.Address) (s : k.Hash)
      → k.get_state st a s ≡ k.zero_hash
      → k.get_state (k.finalise true false st) a s ≡ k.zero_hash

module _ ⦃k : Kaia⦄ where
  open k use {Hash, Address, StateDb, hash_discrete, address_discrete}

  -- No account is marked as self-destructed, and accounts with no code have nothing in their slots.
  pub record IsSound (st : StateDb) : Type 0 where
    pub alive : (a : Address) → k.has_self_destructed st a ≡ false
    pub bare :
        (a : Address) (s : Hash) → k.get_code_size st a ≡ pos 0 → k.get_state st a s ≡ k.zero_hash

  -- A sound state in which the same accounts have code.
  pub record IsSteady (st st' : StateDb) : Type 0 where
    pub sound : IsSound st'
    pub same_code : (a : Address) → k.get_code_size st' a ≡ k.get_code_size st a

  -- A key of a balance, of a nonce, or of a slot of an account that has code.
  abbrev pub IsHeld : StateDb → StorageKey → Type 0
  IsHeld st q =
      (slot q ≡ balance_key) ⊎ ((slot q ≡ nonce_key) ⊎ (k.get_code_size st (address q) ≢ pos 0))

  module _ (views : HasViews k) where
    pub sound-finalise-state :
        (st : StateDb) (a : Address) (s : Hash)
        → IsSound st
        → k.get_state (k.finalise true false st) a s ≡ k.get_state st a s
    sound-finalise-state st a s h = elim (k.get_code_size st a =? pos 0) [
      | yes e ↦ views.get_state-finalise_zero st a s (h.bare a s e) ∙ sym (h.bare a s e)
      | no n ↦ views.get_state-finalise st a s (h.alive a) n
    ]

    pub finalise-IsSteady :
        (st st' : StateDb) → IsSteady st st' → IsSteady st (k.finalise true false st')
    finalise-IsSteady st st' h = record {
      sound = record {
        alive = λ a. views.alive-finalise st' a (h.sound.alive a);
        bare = λ a s e.
            sound-finalise-state st' a s h.sound
            ∙ h.sound.bare a s (sym (views.get_code_size-finalise st' a (h.sound.alive a)) ∙ e);
      };
      same_code = λ a. views.get_code_size-finalise st' a (h.sound.alive a) ∙ h.same_code a;
    }

    set_balance-IsSteady :
        (a : Address) (n : ℤ) (st st' : StateDb)
        → IsSteady st st'
        → IsSteady st (k.set_balance a n st')
    set_balance-IsSteady a n st st' h = record {
      sound = record {
        alive = λ a'. views.alive-set_balance st' a a' n (h.sound.alive a');
        bare = λ a' s e.
            views.accounts.cells.get_state-set_balance st' a a' s n
            ∙ h.sound.bare a' s (sym (views.get_code_size-set_balance st' a a' n) ∙ e);
      };
      same_code = λ a'. views.get_code_size-set_balance st' a a' n ∙ h.same_code a';
    }

    set_nonce-IsSteady :
        (a : Address) (n : ℕ) (st st' : StateDb)
        → IsSteady st st'
        → IsSteady st (k.set_nonce a n st')
    set_nonce-IsSteady a n st st' h = record {
      sound = record {
        alive = λ a'. views.alive-set_nonce st' a a' n (h.sound.alive a');
        bare = λ a' s e.
            views.accounts.cells.get_state-set_nonce st' a a' s n
            ∙ h.sound.bare a' s (sym (views.get_code_size-set_nonce st' a a' n) ∙ e);
      };
      same_code = λ a'. views.get_code_size-set_nonce st' a a' n ∙ h.same_code a';
    }

    set_state-IsSteady :
        (a : Address) (s v : Hash) (st st' : StateDb)
        → k.get_code_size st a ≢ pos 0
        → IsSteady st st'
        → IsSteady st (k.set_state a s v st')
    set_state-IsSteady a s v st st' c h = record {
      sound = record {
        alive = λ a'. views.alive-set_state st' a a' s v (h.sound.alive a');
        bare = λ a' s' e.
            let e' : k.get_code_size st' a' ≡ pos 0 =
              sym (views.get_code_size-set_state st' a a' s v) ∙ e in
            let other : a ≢ a' = λ p. c (ap (k.get_code_size st) p ∙ sym (h.same_code a') ∙ e') in
            views.accounts.cells.get_state-set_state st' a a' s s' v
            ∙ ground (arith, other, h.sound.bare a' s' e');
      };
      same_code = λ a'. views.get_code_size-set_state st' a a' s v ∙ h.same_code a';
    }

    by_slot-IsSteady :
        (a : Address) (s v : Hash) (n : ℤ) (m : ℕ) (st st' : StateDb) (d : Dec (s ≡ balance_key))
        (e : Dec (s ≡ nonce_key))
        → (s ≡ balance_key) ⊎ ((s ≡ nonce_key) ⊎ (k.get_code_size st a ≢ pos 0))
        → IsSteady st st'
        → IsSteady st
            (ite d (k.set_balance a n st') (ite e (k.set_nonce a m st') (k.set_state a s v st')))
    by_slot-IsSteady a s v n m st st' (yes p) e c h = set_balance-IsSteady a n st st' h
    by_slot-IsSteady a s v n m st st' (no p) (yes q) c h = set_nonce-IsSteady a m st st' h
    by_slot-IsSteady a s v n m st st' (no p) (no q) c h = elim c [
      | inl x ↦ absurd (p x)
      | inr (inl x) ↦ absurd (q x)
      | inr (inr x) ↦ set_state-IsSteady a s v st st' x h
    ]

    pub set_value-IsSteady :
        (q : StorageKey) (v : Hash) (st st' : StateDb)
        → IsHeld st q
        → IsSteady st st'
        → IsSteady st (set_value q v st')
    unfolding set_value set_value_in
    set_value-IsSteady q v st st' c h = by_slot-IsSteady (address q) (slot q) v _ _ st st' _ _ c h

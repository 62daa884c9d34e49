-- ===== src/Keys/RoundTrip.antt =====
-- multiversion/storage_key.go: the address and the slot of a key.
use go_pevm.Shared.{◌≡◌, refl, ap, ◌∙◌, ◌≢◌, Bytes, [], ◌∷◌, ◌++◌, arith, ℕ_discrete}
use go_pevm.External.Kaia.{Kaia}
use go_pevm.Keys.{colon, split, to_storage_key, address, slot}

-- No byte of the text is a colon.
abbrev pub IsPlain : Bytes → Type 0
IsPlain [] = Unit
IsPlain (c ∷ s) = (c ≢ colon) × IsPlain s

-- What the program relies on of the texts of addresses and hashes.
pub record HasTexts (k : Kaia) : Type 0 where
  pub address_plain : (a : k.Address) → IsPlain (k.address_string a)
  pub hash_plain : (h : k.Hash) → IsPlain (k.hash_string h)
  pub address_back : (a : k.Address) → k.hex_to_address (k.address_string a) ≡ a
  pub hash_back : (h : k.Hash) → k.hex_to_hash (k.hash_string h) ≡ h

split_plain : (s : Bytes) → IsPlain s → split s ≡ s ∷ []
unfolding split
split_plain [] h = refl
split_plain (c ∷ s) h = ground (arith, split_plain s h.1)

split_at_colon : (s t : Bytes) → IsPlain s → split (s ++ colon ∷ t) ≡ s ∷ split t
unfolding split ℕ_discrete
split_at_colon [] t h = refl
split_at_colon (c ∷ s) t h = ground (arith, split_at_colon s t h.1)

module _ ⦃k : Kaia⦄ (texts : HasTexts k) (a : k.Address) (s : k.Hash) where
  split-to_storage_key : split (to_storage_key a s) ≡ k.address_string a ∷ k.hash_string s ∷ []
  unfolding to_storage_key
  split-to_storage_key =
      split_at_colon _ _ (texts.address_plain a)
      ∙ ap (◌∷◌ (k.address_string a)) (split_plain _ (texts.hash_plain s))

  -- The address and the slot of a key are those it was made of, if the texts of addresses and hashes
  -- have no colon and are read back as written.
  pub address-slot-to_storage_key :
      (address (to_storage_key a s) ≡ a) × (slot (to_storage_key a s) ≡ s)
  unfolding address slot
  address-slot-to_storage_key =
      (rw split-to_storage_key (texts.address_back a), rw split-to_storage_key (texts.hash_back s))

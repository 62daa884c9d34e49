-- ===== src/Storage/Journal.antt =====
-- storage/expose_journal.go: the journal of a state. GetJournal, which reads private fields of kaia by
-- reflection, is left out.
use go_pevm.Shared.{
  ℤ, ◌≡◌, refl, Option, none, some, List, Map, keys, has, has-keys, get, is_some, DecEq,
}
use go_pevm.External.Kaia.{Kaia}
use go_pevm.External.Ledger.{Database}

module _ ⦃k : Kaia⦄ ⦃d : Database k⦄ where
  -- `none` is a nil map. The methods Entries and Dirties return the fields.
  pub record Journal : Type 0 where
    pub entries : List d.Change
    pub dirties : Option (Map k.Address ℤ)

  -- GetDirties, in the order of a `range`; `none` is a nil slice.
  unfoldable pub get_dirties : Journal → Option (List k.Address)
  get_dirties j = elim j.dirties [ none ↦ none | some m ↦ some (keys m) ]

module _ ⦃k : Kaia⦄ ⦃d : Database k⦄ ⦃q : DecEq k.Address⦄ where
  -- GetDirties returns an address exactly if the map counts changes of its account.
  has-get_dirties :
      (j : Journal) (m : Map k.Address ℤ) (a : k.Address)
      → j.dirties ≡ some m
      → (l : List k.Address) × (get_dirties j ≡ some l) × (has a l ≡ is_some (get a m))
  unfolding get_dirties
  has-get_dirties j m a h = (keys m, rw h refl, has-keys a m)

-- ===== src/Versions/Writes.antt =====
-- What the writes of multiversion/data_structure.go leave at each transaction index.
use go_pevm.Shared.{ℕ, ℤ, ◌≡◌, none, some, arith, ite, ◌=?◌, ℤ_eq, is, if◌then◌else◌}
use go_pevm.External.Kaia.{Kaia}
use go_pevm.External.BTree.{BTree}
use go_pevm.Versions.{
  ValueItem, less, pivot, new_value_item, new_deleted_item, new_estimate_item, version_at, set,
  delete, remove, set_estimate,
}
use go_pevm.Versions.Order.{same_refl, eq_of_same}

module _ ⦃k : Kaia⦄ ⦃b : BTree less⦄ where
  open k use {Hash, zero_hash, hash_discrete}
  open b use {Tree}

  insert_lem :
      (v : ValueItem) (j : ℤ) (t : Tree)
      → version_at j (b.replace_or_insert v t) ≡ ite (v.index =? j) (some v) (version_at j t)
  unfolding version_at
  insert_lem v j t =
      ground (
        arith,
        b.find-replace_or_insert v (pivot j) t,
        same_refl v (pivot j),
        eq_of_same v (pivot j),
      )

  -- Set writes at its own index alone, and a zero hash is not written at all.
  pub version_at-set :
      (i j : ℤ) (n : ℕ) (v : Hash) (t : Tree)
      → version_at j (set i n v t) ≡ (
          if is (hash_discrete v zero_hash)
          then version_at j t
          else ite (i =? j) (some (new_value_item i n v)) (version_at j t))
  unfolding set
  version_at-set i j n v t = ground (arith, insert_lem (new_value_item i n v) j t)

  pub version_at-delete :
      (i j : ℤ) (n : ℕ) (t : Tree)
      → version_at j (delete i n t) ≡ ite (i =? j) (some (new_deleted_item i n)) (version_at j t)
  unfolding delete
  version_at-delete i j n t = insert_lem (new_deleted_item i n) j t

  pub version_at-set_estimate :
      (i j : ℤ) (n : ℕ) (t : Tree)
      → version_at j (set_estimate i n t)
        ≡ ite (i =? j) (some (new_estimate_item i n)) (version_at j t)
  unfolding set_estimate
  version_at-set_estimate i j n t = insert_lem (new_estimate_item i n) j t

  pub version_at-remove :
      (i j : ℤ) (t : Tree) → version_at j (remove i t) ≡ ite (i =? j) none (version_at j t)
  unfolding remove version_at
  version_at-remove i j t = ground (
    arith,
    b.find-delete (pivot i) (pivot j) t,
    same_refl (pivot i) (pivot j),
    eq_of_same (pivot i) (pivot j),
  )

  pub version_at-new : (j : ℤ) → version_at j b.new ≡ none
  unfolding version_at
  version_at-new j = rw (b.descend-new)

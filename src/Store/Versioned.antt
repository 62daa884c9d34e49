-- ===== src/Store/Versioned.antt =====
-- What the loops of multiversion/store.go leave of the versions of every key.
use go_pevm.Shared.{
  ℕ, ℤ, ◌≡◌, Option, none, some, List, [], ◌∷◌, arith, ite, ◌=?◌, is, Map, has, get, get-put, IsMap,
  is_some, if◌then◌else◌, ℤ_eq, bytes_eq, inl, inr, Bool-cases, Option-cases,
}
use go_pevm.External.Kaia.{Kaia}
use go_pevm.External.BTree.{BTree}
use go_pevm.Versions
use go_pevm.Versions.{ValueItem, less, new_value_item, new_deleted_item, new_estimate_item}
use go_pevm.Versions.Writes.{
  version_at-new, version_at-set, version_at-delete, version_at-set_estimate, version_at-remove,
}
use go_pevm.Keys.{StorageKey}
use go_pevm.Store.{
  WriteSet, or_new, update_item, remove_item, remove_keys, write_version, write_all, estimate_all,
  version_in,
}

module _ ⦃k : Kaia⦄ where
  open k use {Hash, zero_hash, hash_discrete}

  -- The version that SetWriteset leaves for a value: a deletion for the zero hash.
  unfoldable pub written : ℤ → ℕ → Hash → ValueItem
  written i n v =
      if is (hash_discrete v zero_hash) then new_deleted_item i n else new_value_item i n v

  -- The version that a new writeset leaves of a key.
  abbrev pub fresh : ℤ → ℕ → Option Hash → Option ValueItem
  fresh i n none = none
  fresh i n (some v) = some (written i n v)

module _ ⦃k : Kaia⦄ ⦃b : BTree less⦄ where
  open k use {Hash, zero_hash, hash_discrete}
  open b use {Tree}

  version_at-or_new :
      (key : StorageKey) (j : ℤ) (m : Map StorageKey Tree)
      → Versions.version_at j (or_new (get key m)) ≡ version_in key j m
  unfolding version_in
  version_at-or_new key j m = ground (arith, version_at-new j)

  version_in-update_item :
      (key q : StorageKey) (j : ℤ) (f : Tree → Tree) (m : Map StorageKey Tree)
      → version_in q j (update_item key f m)
        ≡ ite (key =? q) (Versions.version_at j (f (or_new (get key m)))) (version_in q j m)
  unfolding update_item version_in
  version_in-update_item key q j f m = ground (arith, get-put key q (f (or_new (get key m))) m)

  version_at-write_version :
      (i j : ℤ) (n : ℕ) (v : Hash) (t : Tree)
      → Versions.version_at j (write_version i n v t)
        ≡ ite (i =? j) (some (written i n v)) (Versions.version_at j t)
  unfolding write_version written
  version_at-write_version i j n v t =
      ground (arith, version_at-set i j n v t, version_at-delete i j n t)

  -- The version that is written where the writeset has the key, else the one before.
  abbrev pub or_before : ℤ → ℕ → Option Hash → Option ValueItem → Option ValueItem
  or_before i n none o = o
  or_before i n (some v) o = some (written i n v)

  pub version_in-write_all :
      (i j : ℤ) (n : ℕ) (ws : WriteSet) (q : StorageKey) (m : Map StorageKey Tree)
      → IsMap ws
      → version_in q j (write_all i n ws m)
        ≡ ite (i =? j) (or_before i n (get q ws) (version_in q j m)) (version_in q j m)
  unfolding write_all get
  version_in-write_all i j n [] q m u = ground arith
  version_in-write_all i j n ((key, v) ∷ ws) q m u =
      let m' = update_item key (write_version i n v) m in
      ground (
        arith,
        version_in-write_all i j n ws q m' u.1,
        version_in-update_item key q j (write_version i n v) m,
        version_at-write_version i j n v (or_new (get key m)),
        version_at-or_new key j m,
      )

  pub version_in-estimate_all :
      (i j : ℤ) (n : ℕ) (l : List StorageKey) (q : StorageKey) (m : Map StorageKey Tree)
      → version_in q j (estimate_all i n l m)
        ≡ ite
            (i =? j)
            (if has q l then some (new_estimate_item i n) else version_in q j m)
            (version_in q j m)
  unfolding estimate_all
  version_in-estimate_all i j n [] q m = ground arith
  version_in-estimate_all i j n (key ∷ l) q m =
      let m' = update_item key (Versions.set_estimate i n) m in
      ground (
        arith,
        version_in-estimate_all i j n l q m',
        version_in-update_item key q j (Versions.set_estimate i n) m,
        version_at-set_estimate i j n (or_new (get key m)),
        version_at-or_new key j m,
      )

  version_in-remove_item :
      (i j : ℤ) (key q : StorageKey) (m : Map StorageKey Tree)
      → version_in q j (remove_item i key m)
        ≡ ite (key =? q) (ite (i =? j) none (version_in q j m)) (version_in q j m)
  unfolding remove_item version_in
  version_in-remove_item i j key q m = elim (Option-cases (get key m)) [
    | inl e ↦ ground arith
    | inr (t, e) ↦ ground (arith, get-put key q (Versions.remove i t) m, version_at-remove i j t)
  ]

  -- The old keys lose their version at `i`, but for those that the new writeset has.
  pub version_in-remove_keys :
      (i j : ℤ) (ws : WriteSet) (l : List StorageKey) (q : StorageKey) (m : Map StorageKey Tree)
      → version_in q j (remove_keys i ws l m)
        ≡ ite
            (i =? j)
            (if has q l
              then (if is_some (get q ws) then version_in q j m else none)
              else version_in q j m)
            (version_in q j m)
  unfolding remove_keys
  version_in-remove_keys i j ws [] q m = ground arith
  version_in-remove_keys i j ws (key ∷ l) q m = elim (Bool-cases (is_some (get key ws))) [
    | inl e ↦ ground (arith, version_in-remove_keys i j ws l q m)
    | inr e ↦ ground (
      arith,
      version_in-remove_keys i j ws l q (remove_item i key m),
      version_in-remove_item i j key q m,
    )
  ]

-- ===== src/Store/Flush/Parts.antt =====
-- How a flush of multiversion/store.go changes a part of the state that goes with one key.
use go_pevm.Shared.{
  ℤ, ◌≡◌, refl, ap, ◌∙◌, true, false, Option, none, some, List, [], ◌∷◌, arith, ite, ◌=?◌, keys,
  has, has-keys, bytes_eq, if◌then◌else◌,
}
use go_pevm.External.Kaia.{Kaia}
use go_pevm.External.BTree.{BTree}
use go_pevm.Versions.{less}
use go_pevm.Keys.{StorageKey, to_storage_key, address, slot, set_value}
use go_pevm.Store.{Store, sort_keys}
use go_pevm.Store.Invariant.{has-sort_keys}
use go_pevm.Store.Flush.{latest_non_estimate}
use go_pevm.Store.Flush.Windows.{due, write_due, write_all_due, written_state}

module _ ⦃k : Kaia⦄ where
  abbrev pub or_old : {A : Type 0} → Option A → A → A
  or_old none old = old
  or_old (some new) old = new

  -- The same with a conversion of what is new.
  abbrev pub or_kept : {R : Type 0} → (k.Hash → R) → Option k.Hash → R → R
  or_kept f none old = old
  or_kept f (some v) old = f v

module _ ⦃k : Kaia⦄ ⦃b : BTree less⦄ where
  open k use {StateDb, Hash}

  -- Every key that is written was made by ToStorageKey.
  abbrev pub AreDueMade : ℤ → ℤ → Store → Type 0
  AreDueMade last start u =
      (q : StorageKey) (v : Hash)
      → due last start q u ≡ some v
      → q ≡ to_storage_key (address q) (slot q)

  pub not_due :
      (last start : ℤ) (key : StorageKey) (u : Store)
      → has key (keys u.multi_version_map) ≡ false
      → due last start key u ≡ none
  not_due last start key u h =
      unfold latest_non_estimate in ground (arith, has-keys key u.multi_version_map)

  -- A part of the state that SetValue changes under one key only.
  module _ {R : Type 0} (read : StateDb → R) (of_hash : Hash → R) (key : StorageKey)
      (law : (q : StorageKey) (v : Hash) (st : StateDb)
        → q ≡ to_storage_key (address q) (slot q)
        → read (set_value q v st) ≡ ite (q =? key) (of_hash v) (read st)) where
    write_due_read :
        (q : StorageKey) (o : Option Hash) (st : StateDb)
        → ((v : Hash) → o ≡ some v → q ≡ to_storage_key (address q) (slot q))
        → read (write_due q o st) ≡ ite (q =? key) (or_kept of_hash o (read st)) (read st)
    write_due_read q none st made = ground arith
    write_due_read q (some v) st made = law q v st (made v refl)

    -- One round of the loop: the head's key is the one that is read, or it does not show.
    round :
        (q : StorageKey) (f : StorageKey → Option Hash) (l : List StorageKey) (x y z : R)
        → x ≡ ite (q =? key) (or_kept of_hash (f q) z) z
        → y ≡ (if has key l then or_kept of_hash (f key) x else x)
        → y ≡ (if has key (q ∷ l) then or_kept of_hash (f key) z else z)
    round q f l x y z e h =
        elim (q =? key)
            as (λ d.
              x ≡ ite d (or_kept of_hash (f q) z) z
              → y ≡ (if ite d true (has key l) then or_kept of_hash (f key) z else z)) [
                | yes p ↦ λ g. ground (arith, ap f p)
                | no p ↦ λ g. ground arith
              ]
          e

    write_all_due_read :
        (last start : ℤ) (l : List StorageKey) (u : Store) (st : StateDb)
        → AreDueMade last start u
        → read (write_all_due last start l u st)
          ≡ (if has key l then or_kept of_hash (due last start key u) (read st) else read st)
    write_all_due_read last start [] u st made = refl
    write_all_due_read last start (q ∷ l) u st made =
        let st' = write_due q (due last start q u) st in
        round q (λ r. due last start r u) l _ _ _
          (write_due_read q (due last start q u) st (made q))
          (write_all_due_read last start l u st' made)

    -- What a flush leaves there.
    pub flushed_read :
        (last start : ℤ) (u : Store) (st : StateDb)
        → AreDueMade last start u
        → read (written_state last start u st) ≡ or_kept of_hash (due last start key u) (read st)
    flushed_read last start u st made =
        let ks : List StorageKey = keys u.multi_version_map in
        let sorted : has key (sort_keys ks) ≡ has key ks = has-sort_keys key ks in
        write_all_due_read last start (sort_keys ks) u st made
        ∙ ground (arith, sorted, not_due last start key u)

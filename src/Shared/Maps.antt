-- ===== src/Shared/Maps.antt =====
-- Go's maps, as association lists. The order of the entries is the order of a `range` over the map.
use mathlib.Core.Path.{◌≡◌, refl}
use mathlib.Core.Logic.{ite}
use mathlib.Core.Bool.{Bool, true, false}
use mathlib.Core.Option.{Option, none, some}
use mathlib.Core.List.{List, [], ◌∷◌}
use native.Mathlib.Omega.{arith}
use go_pevm.Shared.Basics.{DecEq, is_some, ◌=?◌}

abbrev pub Map : Type 0 → Type 0 → Type 0
Map K V = List (K × V)

module _ {K V : Type 0} where
  -- The keys, in the order of a `range`.
  abbrev pub keys : Map K V → List K
  keys [] = []
  keys ((k, v) ∷ m) = k ∷ keys m

module _ {K : Type 0} ⦃e : DecEq K⦄ where
  -- Whether a key stands in a slice.
  abbrev pub has : K → List K → Bool
  has k [] = false
  has k (j ∷ l) = ite (j =? k) true (has k l)

module _ {K V : Type 0} ⦃e : DecEq K⦄ where
  -- m[k], with the flag of `v, ok := m[k]` as an option.
  unfoldable pub get : K → Map K V → Option V
  get k [] = none
  get k ((j, v) ∷ m) = ite (j =? k) (some v) (get k m)

  -- m[k] = v
  unfoldable pub put : K → V → Map K V → Map K V
  put k v [] = (k, v) ∷ []
  put k v ((j, w) ∷ m) = ite (j =? k) ((k, v) ∷ m) ((j, w) ∷ put k v m)

  -- delete(m, k)
  unfoldable pub drop_key : K → Map K V → Map K V
  drop_key k [] = []
  drop_key k ((j, v) ∷ m) = let rest = drop_key k m in ite (j =? k) rest ((j, v) ∷ rest)

  -- What Go guarantees of a map and a list of entries does not: no key stands twice.
  abbrev pub IsMap : Map K V → Type 0
  IsMap [] = Unit
  IsMap ((k, v) ∷ m) = (get k m ≡ none) × IsMap m

  pub get-put :
      (k j : K) (v : V) (m : Map K V) → get j (put k v m) ≡ ite (k =? j) (some v) (get j m)
  unfolding get put
  get-put k j v [] = refl
  get-put k j v ((i, w) ∷ m) = ground (arith, get-put k j v m)

  pub get-drop_key : (k j : K) (m : Map K V) → get j (drop_key k m) ≡ ite (k =? j) none (get j m)
  unfolding get drop_key
  get-drop_key k j [] = ground arith
  get-drop_key k j ((i, w) ∷ m) = ground (arith, get-drop_key k j m)

  pub put-IsMap : (k : K) (v : V) (m : Map K V) → IsMap m → IsMap (put k v m)
  unfolding get put
  put-IsMap k v [] h = (refl, tt)
  put-IsMap k v ((i, w) ∷ m) h = ground (arith, get-put k i v m, put-IsMap k v m h.1)

  pub drop_key-IsMap : (k : K) (m : Map K V) → IsMap m → IsMap (drop_key k m)
  unfolding get drop_key
  drop_key-IsMap k [] h = tt
  drop_key-IsMap k ((i, w) ∷ m) h = ground (arith, get-drop_key k i m, drop_key-IsMap k m h.1)

  -- A key is in the map exactly if it is among the keys.
  pub has-keys : (k : K) (m : Map K V) → has k (keys m) ≡ is_some (get k m)
  unfolding get
  has-keys k [] = refl
  has-keys k ((i, w) ∷ m) = ground (arith, has-keys k m)

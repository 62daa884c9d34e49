-- ===== src/Shared/Texts.antt =====
-- Texts as lists of bytes, and the conversions of Go's integers and of math/big.
use Prim.Native.Nat.{ℕ, suc, ◌+◌, ◌-◌, ◌*◌, ◌^◌, ◌%◌, compare, Ordering}
use Prim.Native.Char.{code}
use Prim.Native.String.{String}
use mathlib.Core.Path.{ap, ap₂}
use mathlib.Core.Bool.{Bool, true, false, ◌&&◌, ◌||◌}
use mathlib.Core.List.{List, [], ◌∷◌}
use native.Mathlib.Decide.{ℕ_discrete}
use go_pevm.Shared.Basics.{ltb, DecEq, ℤ, pos, negsuc, if◌then◌else◌}

abbrev pub Bytes : Type 0
Bytes = List ℕ

-- The bytes of an ASCII literal.
abbrev pub codes : String → Bytes
codes String.[] = []
codes (String.◌∷◌ c s) = code c ∷ codes s

abbrev pub head_or : ℕ → Bytes → ℕ
head_or d [] = d
head_or d (x ∷ l) = x

abbrev pub tail : Bytes → Bytes
tail [] = []
tail (x ∷ l) = l

unfoldable pub Bytes-discrete : Discrete Bytes
Bytes-discrete [] [] = yes (λ i. [])
Bytes-discrete [] (y ∷ m) = no (λ e. cc)
Bytes-discrete (x ∷ l) [] = no (λ e. cc)
Bytes-discrete (x ∷ l) (y ∷ m) =
    let rest = Bytes-discrete l m in
    elim (ℕ_discrete x y) [
      | yes p ↦ elim rest [ yes q ↦ yes (ap₂ ◌∷◌ p q) | no q ↦ no (λ e. q (ap tail e)) ]
      | no p ↦ no (λ e. p (ap (head_or x) e))
    ]

instance abbrev pub bytes_eq : DecEq Bytes
bytes_eq = record { decide_eq = Bytes-discrete }

-- s < t on texts, byte by byte
unfoldable pub lt_bytes : Bytes → Bytes → Bool
lt_bytes [] [] = false
lt_bytes [] (y ∷ t) = true
lt_bytes (x ∷ s) [] = false
lt_bytes (x ∷ s) (y ∷ t) =
    ltb x y || (elim (compare x y) [ Ordering.eq ↦ true | _ ↦ false ] && lt_bytes s t)

-- new(big.Int).SetBytes(b): big-endian and never negative
unfoldable pub set_bytes_from : ℕ → Bytes → ℕ
set_bytes_from acc [] = acc
set_bytes_from acc (b ∷ bs) = set_bytes_from (acc * 256 + b) bs

unfoldable pub set_bytes : Bytes → ℤ
unfolding set_bytes_from
set_bytes b = pos (set_bytes_from 0 b)

-- int64(n) for a uint64 n
abbrev pub int64_of_uint64 : ℕ → ℤ
int64_of_uint64 n = if ltb n (2 ^ 63) then pos n else negsuc (2 ^ 64 - 1 - n)

-- uint64(i) for an int64 i
abbrev pub uint64_of_int64 : ℤ → ℕ
uint64_of_int64 (pos n) = n
uint64_of_int64 (negsuc n) = 2 ^ 64 - 1 - n

-- (*big.Int).Int64: the low 64 bits, negated for a negative integer
abbrev pub int64_of_big : ℤ → ℤ
int64_of_big (pos n) = int64_of_uint64 (n % 2 ^ 64)
int64_of_big (negsuc n) = int64_of_uint64 ((2 ^ 64 - suc n % 2 ^ 64) % 2 ^ 64)

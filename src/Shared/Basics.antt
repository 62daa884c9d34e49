-- ===== src/Shared/Basics.antt =====
-- Boolean tests, Go's `int` as an integer, and decided equality as an instance.
use Prim.Native.Nat.{ℕ, zero, suc, ◌-◌, ◌^◌, compare, Ordering}
use mathlib.Core.Path.{◌≡◌, refl, ap}
use mathlib.Core.Logic.{◌⊎◌, inl, inr}
use mathlib.Core.Bool.{Bool, true, false, not}
use mathlib.Core.Option.{Option, none, some}
use native.Mathlib.Decide.{ℕ_discrete}
use native.Mathlib.Omega.{arith}

abbrev pub ltb : ℕ → ℕ → Bool
ltb a b = elim (compare a b) [ Ordering.lt ↦ true | _ ↦ false ]

abbrev pub leb : ℕ → ℕ → Bool
leb a b = elim (compare a b) [ Ordering.gt ↦ false | _ ↦ true ]

infix 1 if◌then◌else◌
abbrev pub if◌then◌else◌ {ℓ} : {A : Type ℓ} → Bool → A → A → A
if true then x else y = x
if false then x else y = y

pub Bool-cases : (b : Bool) → (b ≡ true) ⊎ (b ≡ false)
Bool-cases true = inl refl
Bool-cases false = inr refl

pub Option-cases {ℓ} : {A : Type ℓ} (o : Option A) → (o ≡ none) ⊎ ((a : A) × (o ≡ some a))
Option-cases none = inl refl
Option-cases (some a) = inr (a, refl)

abbrev pub is_some {ℓ} : {A : Type ℓ} → Option A → Bool
is_some none = false
is_some (some a) = true

-- Go's `==` on a type whose values can be compared.
pub record DecEq {ℓ} (A : Type ℓ) : Type ℓ where
  pub decide_eq : Discrete A

infix 50 ◌=?◌
abbrev pub ◌=?◌ {ℓ} : {A : Type ℓ} ⦃e : DecEq A⦄ → (a b : A) → Dec (a ≡ b)
◌=?◌ ⦃e⦄ a b = e.decide_eq a b

abbrev pub is {ℓ} : {P : Type ℓ} → Dec P → Bool
is (yes p) = true
is (no p) = false

-- `negsuc n` is -(n + 1).
pub data ℤ : Type 0 where
  pos : ℕ → ℤ
  negsuc : ℕ → ℤ

abbrev pub index_of : ℤ → ℕ
index_of (pos n) = n
index_of (negsuc n) = n

abbrev pub is_pos : ℤ → Bool
is_pos (pos n) = true
is_pos (negsuc n) = false

unfoldable pub ℤ-discrete : Discrete ℤ
ℤ-discrete (pos a) (pos b) = elim (ℕ_discrete a b) [
  | yes p ↦ yes (ap pos p)
  | no p ↦ no (λ e. p (ap index_of e))
]
ℤ-discrete (negsuc a) (negsuc b) = elim (ℕ_discrete a b) [
  | yes p ↦ yes (ap negsuc p)
  | no p ↦ no (λ e. p (ap index_of e))
]
ℤ-discrete (pos a) (negsuc b) = no (λ e. cc)
ℤ-discrete (negsuc a) (pos b) = no (λ e. cc)

instance abbrev pub ℤ_eq : DecEq ℤ
ℤ_eq = record { decide_eq = ℤ-discrete }

-- a < b
abbrev pub lt_int : ℤ → ℤ → Bool
lt_int (pos a) (pos b) = ltb a b
lt_int (pos a) (negsuc b) = false
lt_int (negsuc a) (pos b) = true
lt_int (negsuc a) (negsuc b) = ltb b a

abbrev pub min_int : ℤ
min_int = negsuc (2 ^ 63 - 1)

abbrev pub max_int : ℤ
max_int = pos (2 ^ 63 - 1)

abbrev pred_int : ℤ → ℤ
pred_int (pos zero) = negsuc 0
pred_int (pos (suc n)) = pos n
pred_int (negsuc n) = negsuc (suc n)

-- i - 1 on a 64-bit `int`, which wraps at its least value.
unfoldable pub dec_int : ℤ → ℤ
dec_int i = elim (ℤ-discrete i min_int) [ yes _ ↦ max_int | no _ ↦ pred_int i ]

pub lt_int_irrefl : (a : ℤ) → lt_int a a ≡ false
lt_int_irrefl (pos a) = ground arith
lt_int_irrefl (negsuc a) = ground arith

pub lt_int_trans : (a b c : ℤ) → lt_int a b ≡ true → lt_int b c ≡ true → lt_int a c ≡ true
lt_int_trans (pos a) (pos b) (pos c) h k = ground arith
lt_int_trans (negsuc a) (pos b) (pos c) h k = refl
lt_int_trans (negsuc a) (negsuc b) (pos c) h k = refl
lt_int_trans (negsuc a) (negsuc b) (negsuc c) h k = ground arith
lt_int_trans _ _ _ h k = cc

pub eq_of_not_lt_int : (a b : ℤ) → lt_int a b ≡ false → lt_int b a ≡ false → a ≡ b
eq_of_not_lt_int (pos a) (pos b) h k = ap pos (ground arith)
eq_of_not_lt_int (negsuc a) (negsuc b) h k = ap negsuc (ground arith)
eq_of_not_lt_int (pos a) (negsuc b) h k = cc
eq_of_not_lt_int (negsuc a) (pos b) h k = cc

-- For a position of a slice, "at most i - 1" is "less than i".
pub not-lt_int-dec_int : (n : ℕ) (j : ℤ) → not (lt_int (dec_int (pos n)) j) ≡ lt_int j (pos n)
unfolding dec_int ℤ-discrete
not-lt_int-dec_int zero (pos j) = ground arith
not-lt_int-dec_int (suc n) (pos j) = ground arith
not-lt_int-dec_int zero (negsuc j) = ground arith
not-lt_int-dec_int (suc n) (negsuc j) = refl

pub lt_int_asymm : (a b : ℤ) → lt_int a b ≡ true → lt_int b a ≡ false
lt_int_asymm (pos a) (pos b) h = ground arith
lt_int_asymm (negsuc a) (negsuc b) h = ground arith
lt_int_asymm (negsuc a) (pos b) h = refl
lt_int_asymm (pos a) (negsuc b) h = cc

-- ===== src/Common/Numeric.antt =====
-- Python's two kinds of fractional numbers, as interfaces. `Decimal` and `float` arithmetic rounds,
-- so the operations are parameters: a definition names the operations that the source calls, in
-- their order. Values that compare equal are one value, and a NaN is no value.
use t212_cashguard.Common.{
  List, ℕ, ◌≡◌, Bool, true, false, not, if◌then◌else◌, Bool-cases, inl, inr,
}
use mathlib.Core.Path.{subst}

pub record Decimals : Type 1 where
  pub Num : Type 0
  -- `Decimal("0.02")` is `literal 2 2`: the digits, and how many of them stand behind the point.
  pub literal : ℕ → ℕ → Num
  pub add : Num → Num → Num
  pub sub : Num → Num → Num
  pub mul : Num → Num → Num
  pub div : Num → Num → Num
  pub absolute : Num → Num
  -- `x.copy_negate()`
  pub negate : Num → Num
  -- `x.quantize(Decimal("1e-n"))`, to the nearest, for `quantize n x`.
  pub quantize : ℕ → Num → Num
  -- The same with `rounding=ROUND_DOWN`.
  pub quantize_down : ℕ → Num → Num
  -- `x < y`
  pub less : Num → Num → Bool

-- What the order of the standard library's numbers promises.
pub record IsOrdered (Num : Type 0) (less : Num → Num → Bool) : Type 0 where
  pub irrefl : (a : Num) → less a a ≡ false
  pub trans : (a b c : Num) → less a b ≡ true → less b c ≡ true → less a c ≡ true
  pub connected : (a b : Num) → less a b ≡ false → less b a ≡ false → a ≡ b

-- `float` with the conversions into it.
pub record Floats (Num : Type 0) : Type 1 where
  pub Float : Type 0
  pub float_literal : ℕ → ℕ → Float
  pub to_float : Num → Float
  pub float_less : Float → Float → Bool
  -- `x < y` of a `Decimal` and a `float`, which Python compares exactly.
  pub num_less_float : Num → Float → Bool
  pub float_mul : Float → Float → Float
  pub float_sub : Float → Float → Float
  pub float_add : Float → Float → Float
  pub float_div : Float → Float → Float
  -- `x ** y`, `abs(x)` and `sum(xs)`.
  pub float_pow : Float → Float → Float
  pub float_abs : Float → Float
  pub float_sum : List Float → Float

module _ (D : Decimals) where
  open D use {Num, literal, less}

  abbrev pub zero_of : Num
  zero_of = literal 0 0

  abbrev pub one_of : Num
  one_of = literal 1 0

  abbrev pub hundred_of : Num
  hundred_of = literal 100 0

  -- `x <= y`, `x == y` and `x > 0`.
  abbrev pub less_eq : Num → Num → Bool
  less_eq x y = not (less y x)

  abbrev pub is_positive : Num → Bool
  is_positive x = less zero_of x

  -- Python's `min(x, y)` and `max(x, y)`: the first of two equal values.
  abbrev pub min_of : Num → Num → Num
  min_of x y = if less y x then y else x

  abbrev pub max_of : Num → Num → Num
  max_of x y = if less x y then y else x

module _ {Num : Type 0} {less : Num → Num → Bool} (order : IsOrdered Num less) where
  pub less_asymm : (a b : Num) → less a b ≡ true → less b a ≡ false
  less_asymm a b h = elim (Bool-cases (less b a)) [
    | inl g ↦ cc (order.trans a b a h g, order.irrefl a)
    | inr g ↦ g
  ]

  -- From `a < b` and not `c < b`.
  pub less_of_less_of_not_less :
      (a b c : Num) → less a b ≡ true → less c b ≡ false → less a c ≡ true
  less_of_less_of_not_less a b c h k = elim (Bool-cases (less b c)) [
    | inl g ↦ order.trans a b c h g
    | inr g ↦ subst (λ x. less a x ≡ true) (order.connected b c g k) h
  ]

  -- From not `a < b` and not `b < c`.
  pub not_less_trans : (a b c : Num) → less a b ≡ false → less b c ≡ false → less a c ≡ false
  not_less_trans a b c h k = elim (Bool-cases (less a c)) [
    | inl g ↦ cc (less_of_less_of_not_less a c b g k)
    | inr g ↦ g
  ]

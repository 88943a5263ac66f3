-- ===== src/Common/FixedPoint.antt =====
-- Numbers with eight decimals, a value for the interfaces of `Numeric` at which code can be run.
use t212_cashguard.Common.{
  ℕ, suc, ◌+◌, ◌-◌, ◌*◌, ◌/◌, ◌^◌, ◌≡◌, Bool, true, false, List, [], ◌∷◌, arith, ltb, leb, ◌==◌,
  if◌then◌else◌,
}
use t212_cashguard.Common.Numeric.{Decimals, Floats, IsOrdered}

-- `negsuc n` is -(n + 1).
pub data ℤ : Type 0 where
  pos : ℕ → ℤ
  negsuc : ℕ → ℤ

abbrev pub pos_part : ℤ → ℕ
pos_part (pos n) = n
pos_part (negsuc _) = 0

abbrev pub neg_part : ℤ → ℕ
neg_part (pos _) = 0
neg_part (negsuc n) = suc n

abbrev sub_ℕ : ℕ → ℕ → ℤ
sub_ℕ a b = if leb b a then pos (a - b) else negsuc (b - a - 1)

abbrev less : ℤ → ℤ → Bool
less a b = ltb (pos_part a + neg_part b) (pos_part b + neg_part a)

abbrev size : ℤ → ℕ
size a = pos_part a + neg_part a

abbrev negative : ℤ → Bool
negative (pos _) = false
negative (negsuc _) = true

-- The number of this size, negative where the signs differ.
abbrev signed : ℤ → ℤ → ℕ → ℤ
signed a b n =
    if negative a
    then (if negative b then pos n else sub_ℕ 0 n)
    else (if negative b then sub_ℕ 0 n else pos n)

abbrev add : ℤ → ℤ → ℤ
add a b = sub_ℕ (pos_part a + pos_part b) (neg_part a + neg_part b)

abbrev sub : ℤ → ℤ → ℤ
sub a b = sub_ℕ (pos_part a + neg_part b) (neg_part a + pos_part b)

abbrev unit : ℕ
unit = 100_000_000

abbrev mul : ℤ → ℤ → ℤ
mul a b = signed a b (size a * size b / unit)

abbrev div : ℤ → ℤ → ℤ
div a b = signed a b (size a * unit / size b)

abbrev literal : ℕ → ℕ → ℤ
literal digits places = pos (digits * unit / 10 ^ places)

-- To the nearest multiple of a step, ties away from zero, and towards zero.
abbrev nearest : ℕ → ℤ → ℤ
nearest places a =
    let step = unit / 10 ^ places in signed a (pos 0) ((size a + step / 2) / step * step)

abbrev towards_zero : ℕ → ℤ → ℤ
towards_zero places a = let step = unit / 10 ^ places in signed a (pos 0) (size a / step * step)

abbrev pub fixed_point : Decimals
fixed_point = record {
  Num = ℤ;
  literal = literal;
  add = add;
  sub = sub;
  mul = mul;
  div = div;
  absolute = λ a. pos (size a);
  negate = λ a. sub (pos 0) a;
  quantize = nearest;
  quantize_down = towards_zero;
  less = less;
}

abbrev sum : List ℤ → ℤ
sum [] = pos 0
sum (x ∷ xs) = add x (sum xs)

-- A power is only needed to run code: the square, and else the number itself.
abbrev pow : ℤ → ℤ → ℤ
pow a b = if size b == 2 * unit then mul a a else a

abbrev pub fixed_floats : Floats ℤ
fixed_floats = record {
  Float = ℤ;
  float_literal = literal;
  to_float = λ a. a;
  float_less = less;
  num_less_float = less;
  float_mul = mul;
  float_sub = sub;
  float_add = add;
  float_div = div;
  float_pow = pow;
  float_abs = λ a. pos (size a);
  float_sum = sum;
}

less_connected : (a b : ℤ) → less a b ≡ false → less b a ≡ false → a ≡ b
less_connected a b h k = ground arith

less_trans : (a b c : ℤ) → less a b ≡ true → less b c ≡ true → less a c ≡ true
less_trans a b c h k = ground arith

less_irrefl : (a : ℤ) → less a a ≡ false
less_irrefl a = ground arith

pub fixed_order : IsOrdered ℤ less
fixed_order = record { irrefl = less_irrefl; trans = less_trans; connected = less_connected }

-- `n` whole units.
abbrev pub whole : ℕ → ℤ
whole n = pos (n * unit)

pub fixed_add_zero : (x : ℤ) → fixed_point.add x (fixed_point.literal 0 0) ≡ x
fixed_add_zero x = ground arith

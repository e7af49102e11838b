-- ===== src/FixedPoint.antt =====
-- src/ComputationContainer/FixedPoint/FixedPoint.hpp: `mypow`, and the class `FixedPointImpl` over
-- the integers of boost, which are not bounded. A value of the class is its one field `value`: the
-- number it stands for, times `shift`. The conversions from and to decimal numbers and texts, and
-- the divisions, which go through them, are not here.
pub mod Sums
pub mod Products
pub mod Orders
mod Tests
use quick_mpc.Prelude.{
  ℕ, zero, suc, ◌-◌, ◌*◌, ◌/◌, ◌%◌, ◌==◌, Bool, ◌&&◌, true, false, Option, none, some,
  if◌then◌else◌, ℤ, pos, negsuc, ◌+ℤ◌, ◌-ℤ◌, -ℤ◌, ◌*ℤ◌, ◌/ℤ◌, ◌%ℤ◌, ltb_ℤ, leb_ℤ, size,
}

-- `while (n > 0)`: `rounds` bounds the rounds, and `n` rounds are enough.
unfoldable pub mypow_loop : ℕ → ℕ → ℕ → ℕ → ℕ
mypow_loop zero ret a n = ret
mypow_loop (suc rounds) ret a n =
    let rest = mypow_loop rounds (if n % 2 == 1 then ret * a else ret) (a * a) (n / 2) in
    if n == 0 then ret else rest

unfoldable pub mypow : ℕ → ℕ → ℕ
mypow a n = mypow_loop n 1 a n

abbrev pub resolution : ℕ
resolution = 8

abbrev pub max_length : ℕ
max_length = 18

-- `getShift()` and `getMaxInt()`.
unfoldable pub shift : ℕ
shift = mypow 10 resolution

unfoldable pub max_int : ℕ
max_int = mypow 10 (max_length - resolution)

pub record FixedPoint : Type 0 where
  pub value : ℤ

-- The constructors without an argument and from an integer.
unfoldable pub zero_point : FixedPoint
zero_point = record { value = pos 0 }

unfoldable pub of_integer : ℤ → FixedPoint
of_integer v = record { value = v *ℤ pos shift }

unfoldable pub neg : FixedPoint → FixedPoint
neg a = record { value = -ℤ a.value }

unfoldable pub add : FixedPoint → FixedPoint → FixedPoint
add a obj = record { value = a.value +ℤ obj.value }

unfoldable pub sub : FixedPoint → FixedPoint → FixedPoint
sub a obj = record { value = a.value -ℤ obj.value }

-- The product has a factor `shift` too many, which is divided away; the quotient is cut.
unfoldable pub mul : FixedPoint → FixedPoint → FixedPoint
mul a obj = record { value = a.value *ℤ obj.value /ℤ shift }

-- The remainder by zero is an exception of the integers.
unfoldable pub rem : FixedPoint → FixedPoint → Option FixedPoint
rem a obj =
    if size obj.value == 0 then none else some (record { value = a.value %ℤ size obj.value })

unfoldable pub increment : FixedPoint → FixedPoint
increment a = record { value = a.value +ℤ pos shift }

unfoldable pub decrement : FixedPoint → FixedPoint
decrement a = record { value = a.value -ℤ pos shift }

-- Two values are equal when they differ by at most one unit.
unfoldable pub equal : FixedPoint → FixedPoint → Bool
equal a obj = leb_ℤ (negsuc 0) (a.value -ℤ obj.value) && leb_ℤ (a.value -ℤ obj.value) (pos 1)

unfoldable pub less : FixedPoint → FixedPoint → Bool
less a obj = ltb_ℤ a.value obj.value

-- The text "0.0" that the code compares with is zero.
unfoldable pub abs : FixedPoint → FixedPoint
abs x = if less x zero_point then neg x else x

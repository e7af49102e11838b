-- ===== src/FixedPoint/Orders.antt =====
-- The equality of fixed point numbers up to one unit, and their order.
use quick_mpc.Prelude.{
  ◌≡◌, ◌↔◌, size, ◌≤◌, ◌-ℤ◌, ◌+◌, pos, pos_part, neg_part, -ℤ◌, -ℤ_parts, +ℤ_parts, neg_parts,
  one_part, eq_of_parts, true, false, arith, ◌+ℤ◌,
}
use quick_mpc.FixedPoint.{FixedPoint, zero_point, neg, add, less, equal, abs}

-- The equality of the class holds exactly of two values that differ by at most one unit.
pub equal-size : (a b : FixedPoint) → (equal a b ≡ true) ↔ (size (a.value -ℤ b.value) ≤ 1)
unfolding equal
equal-size a b = ground arith

-- The equality is reflexive and symmetric, and it is one up to one unit: a value and the next are
-- equal although the first is less, so the equality overlaps with the order; and as the value after
-- that is not equal to the first, the equality is not transitive.
pub equal_laws :
    (a b : FixedPoint)
    → let one_unit : FixedPoint = record { value = pos 1 } in
      (equal a a ≡ true)
      × (equal a b ≡ equal b a)
      × (equal a (add a one_unit) ≡ true)
      × (less a (add a one_unit) ≡ true)
      × (equal a (add (add a one_unit) one_unit) ≡ false)
unfolding equal less add
equal_laws a b =
    let next = a.value +ℤ pos 1 in
    (
      ground (arith, -ℤ_parts a.value a.value),
      ground (
        arith,
        -ℤ_parts a.value b.value,
        -ℤ_parts b.value a.value,
        one_part (a.value -ℤ b.value),
        one_part (b.value -ℤ a.value),
      ),
      ground (arith, +ℤ_parts a.value (pos 1), -ℤ_parts a.value next, one_part (a.value -ℤ next)),
      ground (arith, +ℤ_parts a.value (pos 1)),
      ground (
        arith,
        +ℤ_parts a.value (pos 1),
        +ℤ_parts next (pos 1),
        -ℤ_parts a.value (next +ℤ pos 1),
        one_part (a.value -ℤ (next +ℤ pos 1)),
      ),
    )

abs_parts :
    (a : FixedPoint) → (pos_part (abs a).value ≡ size a.value) × (neg_part (abs a).value ≡ 0)
unfolding abs less neg zero_point
abs_parts a = ground (arith, neg_parts a.value, one_part a.value)

abs_value : (a : FixedPoint) → (abs a).value ≡ pos (size a.value)
abs_value a = eq_of_parts _ _ (omega (arith, abs_parts a))

same_value : {a b : FixedPoint} → a.value ≡ b.value → a ≡ b
same_value e = cc

abs_compare : (a : FixedPoint) → (less (abs a) zero_point ≡ false) × (less (abs a) a ≡ false)
unfolding less zero_point
abs_compare a = (ground (arith, abs_parts a), ground (arith, abs_parts a))

abs-neg : (a : FixedPoint) → abs (neg a) ≡ abs a
unfolding neg
abs-neg a =
    same_value (eq_of_parts _ _ (omega (arith, abs_parts a, abs_parts (neg a), neg_parts a.value)))

-- `abs` is not less than zero and not less than the number, it forgets the sign, it keeps the size,
-- and the triangle inequality holds.
pub abs_lem :
    (a b : FixedPoint)
    → (less (abs a) zero_point ≡ false)
      × (less (abs a) a ≡ false)
      × (abs (neg a) ≡ abs a)
      × (size (abs a).value ≡ size a.value)
      × (size (abs (add a b)).value ≤ size (abs a).value + size (abs b).value)
unfolding add
abs_lem a b =
    let (positive, above) = abs_compare a in
    (
      positive,
      above,
      abs-neg a,
      omega (arith, abs_parts a),
      omega (
        arith,
        abs_parts a,
        abs_parts b,
        abs_parts (add a b),
        +ℤ_parts a.value b.value,
        one_part (a.value +ℤ b.value),
      ),
    )

-- ===== src/FixedPoint/Sums.antt =====
-- Sums, differences and single steps of fixed point numbers.
use quick_mpc.Prelude.{◌≡◌, refl, -ℤ◌, int_laws, +ℤ_parts, arith, ◌+ℤ◌, ◌-ℤ◌}
use quick_mpc.FixedPoint.{FixedPoint, zero_point, neg, add, sub, increment, decrement, less, equal}

of_value : {a b : FixedPoint} → a.value ≡ b.value → a ≡ b
of_value e = cc

-- The fixed point numbers are a commutative group under `+`, with zero and `-`, and `-` between two
-- numbers adds the negative.
pub group_laws :
    (a b c : FixedPoint)
    → (add a b ≡ add b a)
      × (add (add a b) c ≡ add a (add b c))
      × (add a zero_point ≡ a)
      × (add a (neg a) ≡ zero_point)
      × (sub a b ≡ add a (neg b))
unfolding add neg sub zero_point
group_laws a b c = (
  of_value (omega int_laws),
  of_value (omega int_laws),
  of_value (omega int_laws),
  of_value (omega int_laws),
  of_value (omega int_laws),
)

-- `--` takes back what `++` did, and both are a step by the number one.
pub decrement-increment : (a : FixedPoint) → decrement (increment a) ≡ a
unfolding decrement increment
decrement-increment a = of_value (omega int_laws)

-- Adding the same number to both sides does not change a comparison, nor an equality up to one
-- unit.
pub add-compare :
    (a b c : FixedPoint)
    → (less (add a c) (add b c) ≡ less a b) × (equal (add a c) (add b c) ≡ equal a b)
unfolding less equal add
add-compare a b c =
    let d : a.value +ℤ c.value -ℤ (b.value +ℤ c.value) ≡ a.value -ℤ b.value = omega int_laws in
    (ground (arith, +ℤ_parts a.value c.value, +ℤ_parts b.value c.value), rw d refl)

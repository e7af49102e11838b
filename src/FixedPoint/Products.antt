-- ===== src/FixedPoint/Products.antt =====
-- Powers, products and remainders of fixed point numbers.
use native.Mathlib.Nat.{pow-suc, pow-zero, mod-lt, div-mul-le_self}
use quick_mpc.Prelude.{
  ℕ, zero, suc, ◌+◌, ◌*◌, ◌/◌, ◌%◌, ◌^◌, ◌≤◌, ◌<◌, ◌==◌, ◌≡◌, refl, sym, ap, ◌∙◌, inl, inr, some,
  if◌then◌else◌, arith, ==_iff, Bool-cases, ℤ, pos, size, ◌+ℤ◌, ◌-ℤ◌, -ℤ◌, ◌*ℤ◌, ◌/ℤ◌, ◌%ℤ◌,
  *ℤ_comm, size-mul, neg-mul, neg-div, size-rem, size-div, div-rem, div-rest, div-mul, *ℤ_scale,
  *ℤ_one, *ℤ_distrib,
}
use quick_mpc.PrimeField.Power.{pow-mul_self}
use quick_mpc.FixedPoint.{FixedPoint, mypow_loop, mypow, shift, of_integer, neg, add, mul, rem}

zero-lt-shift : 0 < shift
unfolding shift mypow mypow_loop
zero-lt-shift = omega arith

half_step :
    (ret a n : ℕ) → (if n % 2 == 1 then ret * a else ret) * a ^ (n / 2 + n / 2) ≡ ret * a ^ n
half_step ret a n = elim (Bool-cases (n % 2 == 1)) [
  | inl odd ↦
      let e : n ≡ suc (n / 2 + n / 2) = ground (arith, ==_iff (n % 2) 1) in
      rw (odd, ap (λ (t : ℕ). ret * a ^ t) e, pow-suc a (n / 2 + n / 2)) (omega arith)
  | inr even ↦ let e : n / 2 + n / 2 ≡ n = ground (arith, ==_iff (n % 2) 1) in rw (even, e) refl
]

mypow_loop-pow : (rounds ret a n : ℕ) → n ≤ rounds → mypow_loop rounds ret a n ≡ ret * a ^ n
unfolding mypow_loop
mypow_loop-pow zero ret a n h = let e : n ≡ 0 = omega arith in rw (e, pow-zero a) (omega arith)
mypow_loop-pow (suc rounds) ret a n h = elim (Bool-cases (n == 0)) [
  | inl done ↦ let e : n ≡ 0 = ground (arith, ==_iff n 0) in rw (done, e, pow-zero a) (omega arith)
  | inr more ↦
      let step =
        mypow_loop-pow rounds (if n % 2 == 1 then ret * a else ret) (a * a) (n / 2)
          (ground (arith, ==_iff n 0)) in
      rw (more, step, pow-mul_self a (n / 2)) (half_step ret a n)
]

-- The loop that squares and multiplies computes the power.
pub mypow_lem : (a n : ℕ) → mypow a n ≡ a ^ n
unfolding mypow
mypow_lem a n = omega (arith, mypow_loop-pow n 1 a n (omega arith))

-- The product is exact up to its last unit: what the division by `shift` cuts off is less than one
-- unit, and it is cut towards zero.
pub mul-error :
    (a b : FixedPoint)
    → (size (a.value *ℤ b.value -ℤ (mul a b).value *ℤ pos shift) < shift)
      × (size (mul a b).value * shift ≤ size a.value * size b.value)
unfolding mul
mul-error a b =
    let exact = a.value *ℤ b.value in
    (
      rw (div-rest exact shift, size-rem exact shift) (mod-lt (size exact) (zero-lt-shift)),
      rw (size-div exact shift, ← size-mul a.value b.value) (div-mul-le_self (size exact) shift),
    )

same_value : {a b : FixedPoint} → a.value ≡ b.value → a ≡ b
same_value e = cc

mul-neg : (a b : FixedPoint) → (mul (neg a) b).value ≡ (neg (mul a b)).value
unfolding mul neg
mul-neg a b = rw (neg-mul a.value b.value) (neg-div (a.value *ℤ b.value) shift)

-- A product with a whole number is exact.
of_integer-mul : (u : ℤ) (a : FixedPoint) → (mul (of_integer u) a).value ≡ u *ℤ a.value
unfolding mul of_integer
of_integer-mul u a = rw (*ℤ_scale u a.value shift) (div-mul (u *ℤ a.value) shift zero-lt-shift)

of_integer-value : (u v : ℤ) → u *ℤ (of_integer v).value ≡ (of_integer (u *ℤ v)).value
unfolding of_integer
of_integer-value u v =
    *ℤ_comm u (v *ℤ pos shift) ∙ *ℤ_scale v u shift ∙ ap (λ (t : ℤ). t *ℤ pos shift) (*ℤ_comm v u)

sum_value : (u v : ℤ) → (add (of_integer u) (of_integer v)).value ≡ (of_integer (u +ℤ v)).value
unfolding add of_integer
sum_value u v = sym (*ℤ_distrib u v shift)

-- Products do not depend on the order of the factors, they turn their sign with a factor, and the
-- number one leaves the other factor. Whole numbers are added and multiplied exactly.
pub mul_laws :
    (a b : FixedPoint) (u v : ℤ)
    → (mul a b ≡ mul b a)
      × (mul (neg a) b ≡ neg (mul a b))
      × (mul (of_integer (pos 1)) a ≡ a)
      × (mul (of_integer u) (of_integer v) ≡ of_integer (u *ℤ v))
      × (add (of_integer u) (of_integer v) ≡ of_integer (u +ℤ v))
unfolding mul
mul_laws a b u v = (
  same_value (rw (*ℤ_comm a.value b.value) refl),
  same_value (mul-neg a b),
  same_value (of_integer-mul (pos 1) a ∙ *ℤ_one a.value),
  same_value (of_integer-mul u (of_integer v) ∙ of_integer-value u v),
  same_value (sum_value u v),
)

-- The remainder by a number other than zero is smaller than that number, and gives the number
-- divided when the quotient, cut towards zero, is taken that often.
pub rem_lem :
    (a b : FixedPoint)
    → 0 < size b.value
    → (r : FixedPoint) × (rem a b ≡ some r)
      × (size r.value < size b.value)
      × (a.value ≡ a.value /ℤ size b.value *ℤ pos (size b.value) +ℤ r.value)
unfolding rem
rem_lem a b h = (
  record { value = a.value %ℤ size b.value },
  ground arith,
  rw (size-rem a.value (size b.value)) (mod-lt (size a.value) h),
  div-rem a.value (size b.value),
)

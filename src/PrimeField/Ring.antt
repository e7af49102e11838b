-- ===== src/PrimeField/Ring.antt =====
-- The ring laws of `PrimeField`, and the rules by which a field expression becomes one polynomial
-- under a single remainder: after `simp field` what is left is linear in the monomials.
use native.Mathlib.Nat.{mod-add-mod, div-add-mod}
use quick_mpc.Prelude.{ℕ, ◌+◌, ◌-◌, ◌*◌, ◌%◌, ◌≤◌, ◌<◌, ◌≡◌, ◌≢◌, refl, ap, ◌↔◌, some, true, arith}
use quick_mpc.PrimeField.{p, uint128_mod, inverse_of_two, of_int, neg, add, sub, mul, eq}

pub mod-add : (a b : ℕ) → (a % p + b) % p ≡ (a + b) % p
mod-add a b = mod-add-mod a p b

pub add-mod : (a b : ℕ) → (b + a % p) % p ≡ (b + a) % p
add-mod a b = omega arith

pub mod-mul : (a b : ℕ) → a % p * b % p ≡ a * b % p
mod-mul a b = omega (arith, ap (λ (t : ℕ). t * b) (div-add-mod a p))

pub mul-mod : (a b : ℕ) → b * (a % p) % p ≡ b * a % p
mul-mod a b = omega (arith, ap (λ (t : ℕ). b * t) (div-add-mod a p))

pub mod-mod : (a : ℕ) → a % p % p ≡ a % p
mod-mod a = omega arith

pub add_eq : (a b : ℕ) → add a b ≡ (a + b) % p
unfolding add
add_eq a b = refl

pub mul_eq : (a b : ℕ) → mul a b ≡ a * b % p
unfolding mul
mul_eq a b = refl

-- Modulo `p` a difference is a sum with a multiple of `p - 1`.
pub sub-mod : (a b : ℕ) → sub a (b % p) ≡ (a + 18446744073709551556 * b) % p
unfolding sub
sub-mod a b = omega arith

pub sub_eq : (a b : ℕ) → b ≤ p → sub a b ≡ (a + 18446744073709551556 * b) % p
unfolding sub
sub_eq a b h = omega arith

pub ruleset field = (add_eq, mul_eq, sub-mod, mod-add, add-mod, mod-mul, mul-mod, mod-mod)

-- A value as the operations keep it.
abbrev pub IsValid : ℕ → Type 0
IsValid a = a ≤ p

-- A value below `p`, the only kind on which `operator==` decides equality in the field.
abbrev pub IsCanonical : ℕ → Type 0
IsCanonical a = a < p

pub canonical : (a : ℕ) → IsCanonical a → a % p ≡ a
canonical a h = omega arith

pub add-neg : (a b : ℕ) → IsValid b → add a (neg b) ≡ (a + 18446744073709551556 * b) % p
unfolding add neg
add-neg a b h = omega arith

pub neg-le : (a : ℕ) → neg a ≤ p
unfolding neg
neg-le a = omega arith

pub add-lt : (a b : ℕ) → add a b < p
unfolding add
add-lt a b = omega arith

pub sub-lt : (a b : ℕ) → sub a b < p
unfolding sub
sub-lt a b = omega arith

pub mul-lt : (a b : ℕ) → mul a b < p
unfolding mul
mul-lt a b = omega arith

pub add-mod_right : (a b : ℕ) → add a (b % p) ≡ add a b
unfolding add
add-mod_right a b = omega arith

pub sub_zero : sub 0 0 ≡ 0
unfolding sub
sub_zero = refl

pub of_int-some : (obj : ℕ) → obj ≤ p → of_int obj ≡ some (obj % p)
unfolding of_int
of_int-some obj h = ground arith

-- On values below the order of the field the operations are those of a commutative ring with
-- zero and one, in which `-` is addition of the negative.
pub ring_laws :
    (a b c : ℕ)
    → IsCanonical a
    → IsCanonical b
    → IsCanonical c
    → (add (add a b) c ≡ add a (add b c))
      × (add a b ≡ add b a)
      × (add a 0 ≡ a)
      × (add a (neg a) ≡ 0)
      × (sub a b ≡ add a (neg b))
      × (mul (mul a b) c ≡ mul a (mul b c))
      × (mul a b ≡ mul b a)
      × (mul a 1 ≡ a)
      × (mul a (add b c) ≡ add (mul a b) (mul a c))
unfolding neg sub
ring_laws a b c ha hb hc = (
  simp field (omega arith),
  simp field (omega arith),
  simp field (omega arith),
  simp field (omega arith),
  simp field (omega arith),
  simp field (omega arith),
  simp field (omega arith),
  simp field (omega arith),
  simp field (omega arith),
)

-- Every operation on values up to the order of the field gives a value up to it, and all but
-- the negation one below it. What is formed before the reduction fits 128 bits.
pub operations_bounds :
    (a b : ℕ)
    → IsValid a
    → IsValid b
    → IsValid (neg a)
      × IsCanonical (add a b)
      × IsCanonical (sub a b)
      × IsCanonical (mul a b)
      × (a + b < uint128_mod)
      × (a + (p - b) < uint128_mod)
      × (a * b < uint128_mod)
unfolding neg add sub mul
operations_bounds a b ha hb =
    (omega arith, omega arith, omega arith, omega arith, omega arith, omega arith, grind arith)

-- The negation of a value is in the reduced form exactly when the value is not zero; the negation
-- of zero is stored as the order of the field, which `operator==` tells apart from zero.
pub neg-IsCanonical_iff :
    (a : ℕ) → IsValid a → (IsCanonical (neg a) ↔ (a ≢ 0)) × ((eq (neg a) 0 ≡ true) ↔ (a ≡ p))
unfolding neg eq
neg-IsCanonical_iff a h = ((λ c. omega arith, λ n. omega arith), ground arith)

-- Multiplication by the constant `inverse_of_two` halves a doubled value.
pub halve : (a : ℕ) → IsCanonical a → mul inverse_of_two (add a a) ≡ a
halve a h = simp field (omega arith)

-- The constructor takes exactly the numbers up to the order of the field, the order included, and
-- keeps them modulo the order.
pub of_int_iff : (obj v : ℕ) → (of_int obj ≡ some v) ↔ ((obj ≤ p) × (v ≡ obj % p))
unfolding of_int
of_int_iff obj v = ground arith

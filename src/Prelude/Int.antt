-- ===== src/Prelude/Int.antt =====
-- Signed integers over the native numbers, under the library's names (its ℤ stands on the unary ℕ).
use Prim.Native.Nat.{ℕ, zero, suc, ◌+◌, ◌-◌, ◌*◌, ◌/◌, ◌%◌, ◌<◌}
use mathlib.Core.Path.{◌≡◌, refl, sym, ap}
use mathlib.Core.Logic.{◌⊎◌}
use mathlib.Core.Bool.{Bool}
use native.Mathlib.Nat.{div-add-mod, mul-div_cancel}
use native.Mathlib.Omega.{arith}
use quick_mpc.Prelude.Tests.{leb, ltb, if◌then◌else◌}

-- `negsuc n` is -(n + 1).
pub data ℤ : Type 0 where
  pos : ℕ → ℤ
  negsuc : ℕ → ℤ

abbrev pub pos_part : ℤ → ℕ
pos_part (pos n) = n
pos_part (negsuc n) = 0

abbrev pub neg_part : ℤ → ℕ
neg_part (pos n) = 0
neg_part (negsuc n) = suc n

-- a - b, as an integer.
abbrev pub sub_ℕ : ℕ → ℕ → ℤ
sub_ℕ a b = if leb b a then pos (a - b) else negsuc (b - a - 1)

infixl 65 ◌+ℤ◌ ◌-ℤ◌
infixl 70 ◌*ℤ◌ ◌/ℤ◌ ◌%ℤ◌
infix 80 -ℤ◌
unfoldable pub ◌+ℤ◌ : ℤ → ℤ → ℤ
a +ℤ b = sub_ℕ (pos_part a + pos_part b) (neg_part a + neg_part b)

unfoldable pub ◌-ℤ◌ : ℤ → ℤ → ℤ
a -ℤ b = sub_ℕ (pos_part a + neg_part b) (neg_part a + pos_part b)

-- -n, as an integer.
abbrev pub minus : ℕ → ℤ
minus zero = pos 0
minus (suc n) = negsuc n

unfoldable pub -ℤ◌ : ℤ → ℤ
-ℤ (pos n) = minus n
-ℤ (negsuc n) = pos (suc n)

unfoldable pub ◌*ℤ◌ : ℤ → ℤ → ℤ
pos a *ℤ pos b = pos (a * b)
pos a *ℤ negsuc b = minus (a * suc b)
negsuc a *ℤ pos b = minus (suc a * b)
negsuc a *ℤ negsuc b = pos (suc a * suc b)

-- The quotient and the remainder of C++: the quotient is cut towards zero, and the remainder has
-- the sign of the number divided.
unfoldable pub ◌/ℤ◌ : ℤ → ℕ → ℤ
pos a /ℤ d = pos (a / d)
negsuc a /ℤ d = minus (suc a / d)

unfoldable pub ◌%ℤ◌ : ℤ → ℕ → ℤ
pos a %ℤ d = pos (a % d)
negsuc a %ℤ d = minus (suc a % d)

abbrev pub size : ℤ → ℕ
size a = pos_part a + neg_part a

abbrev pub ltb_ℤ : ℤ → ℤ → Bool
ltb_ℤ a b = ltb (pos_part a + neg_part b) (pos_part b + neg_part a)

abbrev pub leb_ℤ : ℤ → ℤ → Bool
leb_ℤ a b = leb (pos_part a + neg_part b) (pos_part b + neg_part a)

pub +ℤ_comm : (a b : ℤ) → a +ℤ b ≡ b +ℤ a
unfolding ◌+ℤ◌
+ℤ_comm a b = ground arith

pub +ℤ_parts :
    (a b : ℤ)
    → pos_part (a +ℤ b) + neg_part a + neg_part b ≡ neg_part (a +ℤ b) + pos_part a + pos_part b
unfolding ◌+ℤ◌
+ℤ_parts a b = ground arith

pub -ℤ_parts :
    (a b : ℤ)
    → pos_part (a -ℤ b) + neg_part a + pos_part b ≡ neg_part (a -ℤ b) + pos_part a + neg_part b
unfolding ◌-ℤ◌
-ℤ_parts a b = ground arith

pub neg_parts : (a : ℤ) → (pos_part (-ℤ a) ≡ neg_part a) × (neg_part (-ℤ a) ≡ pos_part a)
unfolding -ℤ◌
neg_parts (pos zero) = (refl, refl)
neg_parts (pos (suc n)) = (refl, refl)
neg_parts (negsuc n) = (refl, refl)

pub one_part : (a : ℤ) → (pos_part a ≡ 0) ⊎ (neg_part a ≡ 0)
one_part a = ground arith

pub eq_of_parts : (a b : ℤ) → pos_part a + neg_part b ≡ pos_part b + neg_part a → a ≡ b
eq_of_parts a b h = ground arith

pub *ℤ_comm : (a b : ℤ) → a *ℤ b ≡ b *ℤ a
unfolding ◌*ℤ◌
*ℤ_comm a b = ground arith

-- The size of a product is the product of the sizes.
pub size-mul : (a b : ℤ) → size (a *ℤ b) ≡ size a * size b
unfolding ◌*ℤ◌
size-mul a b = ground arith

pub neg-mul : (a b : ℤ) → (-ℤ a) *ℤ b ≡ -ℤ (a *ℤ b)
unfolding ◌*ℤ◌ -ℤ◌
neg-mul a b = ground arith

pub ruleset int_laws = (arith, +ℤ_parts, -ℤ_parts, neg_parts, one_part, eq_of_parts)

-- What the quotient leaves is less than the divisor.
pub size-div : (a : ℤ) (d : ℕ) → size (a /ℤ d) ≡ size a / d
unfolding ◌/ℤ◌
size-div a d = ground arith

pub size-rem : (a : ℤ) (d : ℕ) → size (a %ℤ d) ≡ size a % d
unfolding ◌%ℤ◌
size-rem a d = ground arith

div-rest_pos : (n d : ℕ) → n ≡ n / d * d + n % d
div-rest_pos n d = omega (arith, div-add-mod n d)

-- A number is its quotient times the divisor, and the remainder.
pub div-rem : (a : ℤ) (d : ℕ) → a ≡ a /ℤ d *ℤ pos d +ℤ a %ℤ d
unfolding ◌/ℤ◌ ◌*ℤ◌ ◌%ℤ◌ ◌+ℤ◌
div-rem (pos n) d = ground (arith, div-rest_pos n d)
div-rem (negsuc n) d = ground (arith, div-rest_pos (suc n) d)

minus-div : (n d : ℕ) → minus n /ℤ d ≡ minus (n / d)
unfolding ◌/ℤ◌
minus-div n d = ground arith

pub div-mul : (a : ℤ) (d : ℕ) → 0 < d → a *ℤ pos d /ℤ d ≡ a
unfolding ◌/ℤ◌ ◌*ℤ◌
div-mul (pos n) d h = ap pos (mul-div_cancel n h)
div-mul (negsuc n) d h = rw (minus-div (suc n * d) d, mul-div_cancel (suc n) h) refl

pub div-rest : (a : ℤ) (d : ℕ) → a -ℤ a /ℤ d *ℤ pos d ≡ a %ℤ d
div-rest a d =
    let e = div-rem a d in eq_of_parts _ _ (omega (int_laws, ap pos_part e, ap neg_part e))

pub neg-div : (a : ℤ) (d : ℕ) → -ℤ a /ℤ d ≡ -ℤ (a /ℤ d)
unfolding ◌/ℤ◌ -ℤ◌
neg-div a d = ground arith

pub *ℤ_one : (a : ℤ) → pos 1 *ℤ a ≡ a
unfolding ◌*ℤ◌
*ℤ_one a = ground arith

minus-mul_pos : (n d : ℕ) → minus n *ℤ pos d ≡ minus (n * d)
unfolding ◌*ℤ◌
minus-mul_pos n d = ground arith

minus-mul_neg : (n d : ℕ) → minus n *ℤ negsuc d ≡ pos (n * suc d)
unfolding ◌*ℤ◌
minus-mul_neg n d = ground arith

-- A factor moves to the end of a product.
pub *ℤ_scale : (u x : ℤ) (d : ℕ) → u *ℤ pos d *ℤ x ≡ u *ℤ x *ℤ pos d
unfolding ◌*ℤ◌
*ℤ_scale (pos a) (pos b) d = ap pos (omega arith)
*ℤ_scale (pos a) (negsuc b) d = sym (rw (minus-mul_pos (a * suc b) d) (ap minus (omega arith)))
*ℤ_scale (negsuc a) (pos b) d =
    rw (minus-mul_pos (suc a * d) b, minus-mul_pos (suc a * b) d) (ap minus (omega arith))
*ℤ_scale (negsuc a) (negsuc b) d = rw (minus-mul_neg (suc a * d) b) (ap pos (omega arith))

mul-pos_parts :
    (a : ℤ) (d : ℕ)
    → (pos_part (a *ℤ pos d) ≡ pos_part a * d) × (neg_part (a *ℤ pos d) ≡ neg_part a * d)
unfolding ◌*ℤ◌
mul-pos_parts a d = ground arith

pub *ℤ_distrib : (a b : ℤ) (d : ℕ) → (a +ℤ b) *ℤ pos d ≡ a *ℤ pos d +ℤ b *ℤ pos d
*ℤ_distrib a b d = eq_of_parts _ _ (
    omega (
      arith,
      ap (λ (t : ℕ). t * d) (+ℤ_parts a b),
      mul-pos_parts (a +ℤ b) d,
      mul-pos_parts a d,
      mul-pos_parts b d,
      +ℤ_parts (a *ℤ pos d) (b *ℤ pos d),
    ))

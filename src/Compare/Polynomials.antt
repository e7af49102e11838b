-- ===== src/Compare/Polynomials.antt =====
-- The polynomials of degree 64 of Compare.hpp at the numbers of bits that can be set, and one step of
-- the powers that they are evaluated at.
use native.Mathlib.Nat.{pow-suc}
use quick_mpc.Prelude.{
  ℕ, zero, suc, ◌+◌, ◌*◌, ◌%◌, ◌^◌, ◌<◌, ◌≡◌, refl, sym, ap, ◌∙◌, Bool, true, ◌&&◌, List, [], ◌∷◌,
  arith, ◌==◌, if◌then◌else◌, ==_iff,
}
use quick_mpc.PrimeField
use quick_mpc.PrimeField.{p, l}
use quick_mpc.PrimeField.Ring.{field, mod-mul}
use quick_mpc.Share.PrimeValue.{prime_value}
use quick_mpc.Compare.Bits.{count}
use quick_mpc.Compare.Coefficients.{f_65_or_coefficient, f_65_and_coefficient}

pub pow-next : (a k : ℕ) → a ^ (k + 1) ≡ a ^ k * a
pow-next a k = let e : k + 1 ≡ suc k = omega arith in rw (e) (pow-suc a k)

-- A polynomial at `a`, its first coefficient at degree `k`.
unfoldable pub poly : ℕ → ℕ → List ℕ → ℕ
poly a k [] = 0
poly a k (coef ∷ coefs) = coef * a ^ k + poly a (k + 1) coefs

unfoldable pub all_below : ℕ → (ℕ → Bool) → Bool
all_below zero f = true
all_below (suc n) f = f n && all_below n f

all_below_sound : (n : ℕ) (f : ℕ → Bool) (x : ℕ) → all_below n f ≡ true → x < n → f x ≡ true
unfolding all_below
all_below_sound zero f x h lt = absurd (omega arith)
all_below_sound (suc n) f x h lt = ground (arith, all_below_sound n f x)

pub or_table :
    all_below 65 (λ n. poly (n + 1) 0 f_65_or_coefficient % p == (if n == 0 then 0 else 1)) ≡ true
unfolding all_below poly f_65_or_coefficient
or_table = refl

pub and_table :
    all_below 65 (λ n. poly (n + 1) 0 f_65_and_coefficient % p == (if n == 64 then 1 else 0)) ≡ true
unfolding all_below poly f_65_and_coefficient
and_table = refl

pub regroup : (b b_dash i : ℕ) → b_dash * i * b % p ≡ b * b_dash % p * i % p
regroup b b_dash i = simp field (omega arith)

-- One step of the telescope: `tmp * prev` is a power of `a`, and `i` inverts `b`.
pub telescope :
    (tmp prev a i b power : ℕ)
    → tmp * prev % p ≡ power % p
    → i * b % p ≡ 1
    → PrimeField.mul tmp (a * i % p * prev % p) * b % p ≡ power * a % p
telescope tmp prev a i b power e inv = simp field (
    ap (λ (t : ℕ). t % p) (omega arith)
    ∙ sym (mod-mul (tmp * prev) (i * b * a))
    ∙ ap (λ (t : ℕ). t * (i * b * a) % p) e
    ∙ mod-mul power (i * b * a)
    ∙ ap (λ (t : ℕ). t % p) (omega arith)
    ∙ sym (mod-mul (i * b) (power * a))
    ∙ ap (λ (t : ℕ). t * (power * a) % p) inv
    ∙ ap (λ (t : ℕ). t % p) (omega arith))

pub at_bits :
    (coefs : List ℕ) (value : ℕ → ℕ) (bs : List Bool)
    → all_below 65 (λ n. poly (n + 1) 0 coefs % p == value n) ≡ true
    → count bs < 65
    → poly (count bs + 1) 0 coefs % p ≡ value (count bs)
at_bits coefs value bs table lt = (==_iff _ _).0 (all_below_sound 65 _ (count bs) table lt)

-- ===== src/PrimeField/Power.antt =====
-- `modpow` and `getInv` against the power of the natural numbers.
use native.Mathlib.Nat.{pow-suc, pow-zero, mul_assoc}
use quick_mpc.Prelude.{
  ℕ, zero, suc, ◌+◌, ◌-◌, ◌*◌, ◌/◌, ◌%◌, ◌^◌, ◌<◌, ◌≡◌, sym, ap, ◌∙◌, inl, inr, arith, ◌==◌,
  if◌then◌else◌, Bool-cases, ==_iff,
}
use quick_mpc.PrimeField.{p, uint128_mod, modpow_loop, modpow, get_inv, mul, div}
use quick_mpc.PrimeField.Ring.{field, mod-mul, mul-mod, mul_eq, IsCanonical}

pow-add_suc : (a m n : ℕ) → a ^ (m + suc n) ≡ a ^ (m + n) * a
pow-add_suc a m n = let e : m + suc n ≡ suc (m + n) = omega arith in rw (e, pow-suc a (m + n))

pub pow-add : (a m n : ℕ) → a ^ (m + n) ≡ a ^ m * a ^ n
pow-add a m zero = let e : m + 0 ≡ m = omega arith in rw (e, pow-zero a) (omega arith)
pow-add a m (suc n) =
    rw (pow-add_suc a m n, pow-suc a n, pow-add a m n) (mul_assoc (a ^ m) (a ^ n) a)

pub pow-mul_self : (a n : ℕ) → (a * a) ^ n ≡ a ^ (n + n)
pow-mul_self a zero = rw (pow-zero (a * a), pow-zero a)
pow-mul_self a (suc n) =
    let e : suc n + suc n ≡ suc (suc (n + n)) = omega arith in
    rw (e, pow-suc (a * a) n, pow-suc a (suc (n + n)), pow-suc a (n + n), pow-mul_self a n)
      (omega arith)

pub pow-mod : (a n : ℕ) → (a % p) ^ n % p ≡ a ^ n % p
pow-mod a zero = rw (pow-zero (a % p), pow-zero a)
pow-mod a (suc n) =
    rw (pow-suc (a % p) n, pow-suc a n)
      (sym (mod-mul ((a % p) ^ n) (a % p)) ∙ rw (pow-mod a n) (simp field))

mul-pow_half : (x a n : ℕ) → x * (a * a % p) ^ n % p ≡ x * a ^ (n + n) % p
mul-pow_half x a n =
    sym (mul-mod ((a * a % p) ^ n) x)
    ∙ rw (pow-mod (a * a) n, mul-mod ((a * a) ^ n) x, pow-mul_self a n)

-- One round of the loop, read as powers.
square_step :
    (ret a b : ℕ)
    → (if b % 2 == 1 then ret * a % p else ret) * (a * a % p) ^ (b / 2) % p ≡ ret * a ^ b % p
square_step ret a b = elim (Bool-cases (b % 2 == 1)) [
  | inl odd ↦
      let e : b ≡ suc (b / 2 + b / 2) = ground (arith, ==_iff (b % 2) 1) in
      rw odd (
        mod-mul (ret * a) _
        ∙ mul-pow_half (ret * a) a (b / 2)
        ∙ ap (λ (t : ℕ). t % p)
            (omega (
              arith,
              ap (λ (t : ℕ). ret * a ^ t) e,
              ap (λ (t : ℕ). ret * t) (pow-suc a (b / 2 + b / 2)),
            )))
  | inr even ↦
      let e : b / 2 + b / 2 ≡ b = ground (arith, ==_iff (b % 2) 1) in
      rw even (mul-pow_half ret a (b / 2) ∙ ap (λ (t : ℕ). ret * a ^ t % p) e)
]

modpow_loop-pow :
    (bits ret a b : ℕ) → ret < p → b < 2 ^ bits → modpow_loop bits ret a b ≡ ret * a ^ b % p
unfolding modpow_loop
modpow_loop-pow zero ret a b h fits =
    let e : b ≡ 0 = omega arith in rw (e, pow-zero a) (omega arith)
modpow_loop-pow (suc bits) ret a b h fits = elim (Bool-cases (b == 0)) [
  | inl done ↦ let e : b ≡ 0 = ground arith in rw (e, pow-zero a) (omega arith)
  | inr more ↦ rw more (
      modpow_loop-pow bits (if b % 2 == 1 then ret * a % p else ret) (a * a % p) (b / 2)
        (ground arith) (omega (arith, pow-suc 2 bits))
      ∙ square_step ret a b)
]

-- `modpow` computes the power modulo the order of the field, for every exponent of 128 bits.
pub modpow-pow : (a b : ℕ) → b < uint128_mod → modpow a b ≡ a ^ b % p
unfolding modpow
modpow-pow a b fits =
    modpow_loop-pow 128 1 a b (omega arith) fits ∙ ap (λ (t : ℕ). t % p) (omega arith)

pow-pred : (a n : ℕ) → a * (a ^ n % p) % p ≡ a ^ suc n % p
pow-pred a n = rw (mul-mod (a ^ n) a, pow-suc a n) (ap (λ (t : ℕ). t % p) (omega arith))

pub mul-get_inv : (a : ℕ) → modpow a (p - 1) ≡ 1 → a * get_inv a % p ≡ 1
unfolding get_inv
mul-get_inv a fermat =
    rw (modpow-pow a (p - 2) (omega arith), pow-pred a (p - 2))
      (sym (modpow-pow a (p - 1) (omega arith)) ∙ fermat)

-- Where Fermat's test holds of a value, `getInv` is its inverse, and dividing by it undoes the
-- multiplication of a value below the order of the field.
pub get_inv_lem :
    (a b : ℕ)
    → modpow a (p - 1) ≡ 1
    → IsCanonical b
    → (mul a (get_inv a) ≡ 1) × (div (mul b a) a ≡ b)
unfolding div
get_inv_lem a b fermat h =
    let inv = mul-get_inv a fermat in
    (
      mul_eq a (get_inv a) ∙ inv,
      simp field (
          ap (λ (t : ℕ). t % p) (omega arith)
          ∙ sym (mul-mod (a * get_inv a) b)
          ∙ rw inv (omega arith)),
    )

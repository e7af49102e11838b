-- ===== src/PrimeField/Sqrt.antt =====
-- `modsqrt`: what its loop does for this order of the field, and that its roots are roots.
use quick_mpc.Prelude.{
  ℕ, ◌+◌, ◌-◌, ◌*◌, ◌/◌, ◌%◌, ◌^◌, ◌≤◌, ◌≡◌, ◌≢◌, refl, sym, ap, ◌∙◌, ◌↔◌, arith, ◌==◌,
  if◌then◌else◌,
}
use native.Mathlib.Nat.{pow-suc, pow-zero}
use quick_mpc.PrimeField.{
  p, root, throws, running, odd_part, non_residue_pow, smaller_root, order_loop, modpow,
  modpow_loop, sqrt_loop, modsqrt,
}
use quick_mpc.PrimeField.Ring.{IsCanonical, mod-mul, mul-mod}
use quick_mpc.PrimeField.Power.{modpow-pow, pow-add}

-- The power of `c` that a round takes is `c` itself.
first_power : modpow non_residue_pow (modpow 1 0) ≡ non_residue_pow
unfolding modpow modpow_loop
first_power = refl

-- `c` is a square root of minus one.
minus_one : (t : ℕ) → t * non_residue_pow % p * non_residue_pow % p ≡ (p - 1) * t % p
minus_one t = mod-mul (t * non_residue_pow) non_residue_pow ∙ omega arith

-- The loop ends in its first or second round.
sqrt_loop_lem :
    (r t : ℕ)
    → IsCanonical t
    → sqrt_loop 3 r t non_residue_pow 2 ≡ (
        if t == 1
        then root (smaller_root r)
        else (if t == p - 1 then root (smaller_root (r * non_residue_pow % p)) else throws))
unfolding sqrt_loop order_loop
sqrt_loop_lem r t h = ground (arith, first_power, minus_one t)

pow-one : (n : ℕ) → n ^ 1 ≡ n
pow-one n = pow-suc n 0 ∙ rw (pow-zero n) (omega arith)

power_sq : (n k q : ℕ) → k + k ≡ q + 1 → n ^ k % p * (n ^ k % p) % p ≡ n * (n ^ q % p) % p
power_sq n k q e =
    mod-mul (n ^ k) (n ^ k % p)
    ∙ mul-mod (n ^ k) (n ^ k)
    ∙ ap (λ (t : ℕ). t % p) (sym (pow-add n k k) ∙ ap (λ (t : ℕ). n ^ t) e ∙ pow-add n q 1)
    ∙ ap (λ (t : ℕ). t % p) (omega (arith, ap (λ (t : ℕ). n ^ q * t) (pow-one n)))
    ∙ sym (mul-mod (n ^ q) n)

smaller_root_sq :
    (r : ℕ) → r ≤ p → (smaller_root r * smaller_root r % p ≡ r * r % p) × (smaller_root r ≤ p / 2)
unfolding smaller_root
smaller_root_sq r h =
    let e : r + (p - r) ≡ p = omega arith in
    ground (arith, ap (λ (t : ℕ). t * r) e, ap (λ (t : ℕ). (p - r) * t) e)

root_sq_one : (n r t : ℕ) → IsCanonical n → r * r % p ≡ n * t % p → t ≡ 1 → r * r % p ≡ n
root_sq_one n r t h e one = omega (arith, ap (λ (u : ℕ). n * u) one)

root_sq_minus_one :
    (n r t : ℕ)
    → IsCanonical n
    → r * r % p ≡ n * t % p
    → t ≡ p - 1
    → r * non_residue_pow % p * (r * non_residue_pow % p) % p ≡ n
root_sq_minus_one n r t h e minus =
    mod-mul (r * non_residue_pow) (r * non_residue_pow % p)
    ∙ mul-mod (r * non_residue_pow) (r * non_residue_pow)
    ∙ omega (arith, ap (λ (u : ℕ). n * u) minus)

modsqrt_cases :
    (n : ℕ)
    → let t = n ^ odd_part % p in
      let r = n ^ ((odd_part + 1) / 2) % p in
      modsqrt n ≡ (
        if t == 1
        then root (smaller_root r)
        else (if t == p - 1 then root (smaller_root (r * non_residue_pow % p)) else throws))
unfolding modsqrt
modsqrt_cases n =
    rw (modpow-pow n ((odd_part + 1) / 2) (omega arith), modpow-pow n odd_part (omega arith))
      (sqrt_loop_lem (n ^ ((odd_part + 1) / 2) % p) (n ^ odd_part % p) (omega arith))

-- For a value below the order of the field the loop of `modsqrt` ends within its fuel: with a
-- root when `n ^ Q` is one or minus one modulo the order, and with the exception of a checked
-- subtraction otherwise. A root squares to `n` and lies in the lower half of the field.
pub modsqrt_lem :
    (n : ℕ)
    → IsCanonical n
    → let t = n ^ odd_part % p in
      (modsqrt n ≢ running)
      × ((modsqrt n ≡ throws) ↔ ((t ≢ 1) × (t ≢ p - 1)))
      × ((r : ℕ) → modsqrt n ≡ root r → (r * r % p ≡ n) × (r ≤ p / 2))
modsqrt_lem n h =
    let t : ℕ = n ^ odd_part % p in
    let r : ℕ = n ^ ((odd_part + 1) / 2) % p in
    let e = power_sq n ((odd_part + 1) / 2) odd_part refl in
    ground (
      arith,
      modsqrt_cases n,
      λ (o : t ≡ 1). root_sq_one n r t h e o,
      λ (o : t ≡ p - 1). root_sq_minus_one n r t h e o,
      smaller_root_sq r (omega arith),
      smaller_root_sq (r * non_residue_pow % p) (omega arith),
    )

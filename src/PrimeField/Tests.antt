-- ===== src/PrimeField/Tests.antt =====
-- The theorems about PrimeField.hpp at concrete values, and runs of its functions.
use quick_mpc.Prelude.{
  ℕ, ◌+◌, ◌-◌, ◌*◌, ◌/◌, ◌%◌, ◌^◌, ◌≤◌, ◌≡◌, ◌≢◌, ◌↔◌, refl, some, none, true, false, arith,
}
use quick_mpc.PrimeField.{
  p, odd_part, of_int, modpow, modpow_loop, legendre, root, throws, running, modsqrt, sqrt_loop,
  order_loop, smaller_root,
}
use quick_mpc.PrimeField.Sqrt.{modsqrt_lem}

abbrev top : ℕ
top = 18446744073709551556

fermat_seven : modpow 7 (p - 1) ≡ 1
unfolding modpow modpow_loop
fermat_seven = refl

modsqrt_lem_example :
    let t = 4 ^ odd_part % p in
    (modsqrt 4 ≢ running)
    × ((modsqrt 4 ≡ throws) ↔ ((t ≢ 1) × (t ≢ p - 1)))
    × ((r : ℕ) → modsqrt 4 ≡ root r → (r * r % p ≡ 4) × (r ≤ p / 2))
modsqrt_lem_example = modsqrt_lem 4 (omega arith)

-- A root, a value without a root, and zero, whose root the loop does not find.
modsqrt_runs : (modsqrt 9 ≡ root 3) × (modsqrt 2 ≡ throws) × (modsqrt 0 ≡ throws)
unfolding modsqrt sqrt_loop order_loop smaller_root modpow modpow_loop
modsqrt_runs = (refl, refl, refl)

legendre_runs : (legendre 4 ≡ true) × (legendre 2 ≡ false)
unfolding legendre modpow modpow_loop
legendre_runs = (refl, refl)

of_int_runs : (of_int p ≡ some 0) × (of_int (p + 1) ≡ none)
unfolding of_int
of_int_runs = (refl, refl)

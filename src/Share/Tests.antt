-- ===== src/Share/Tests.antt =====
-- The theorems about the shares of Share.hpp at three parties, the first of which is `sp_id`.
use quick_mpc.Prelude.{ℕ, ◌-◌, ◌≡◌, refl, arith, if◌then◌else◌, ◌==◌}
use quick_mpc.PrimeField
use quick_mpc.PrimeField.{p, modpow, modpow_loop}
use quick_mpc.Share.{Config, Shared, Triple, add, sub, scale, add_public, recons, mul, sharize}
use quick_mpc.Share.PrimeValue.{prime_value, IsValid}
use quick_mpc.Share.Recons.{HasSp}
use quick_mpc.Share.Beaver.{IsTriple, recons-mul}
use quick_mpc.Share.Sharing.{recons-sharize}

abbrev three : Config
three = record { n_parties = 3; sp_id = 1 }

three-HasSp : HasSp three 3
three-HasSp = omega arith

-- Shares of 60, of 6 and of a triple of products.
abbrev sixty : Shared ℕ
sixty i = if i == 1 then 10 else (if i == 2 then 20 else 30)

abbrev six : Shared ℕ
six i = if i == 1 then p else 3

abbrev triple : Triple ℕ
triple = record { a = λ i. 2; b = λ i. 5; c = λ i. 30 }

triple-IsTriple : IsTriple 3 triple
unfolding recons PrimeField.add PrimeField.mul
triple-IsTriple = record { valid_a = λ i. omega arith; valid_b = λ i. omega arith; product = refl }

six-IsValid : IsValid six
six-IsValid i = ground arith

recons-mul_example :
    recons 3 (mul three triple sixty six) ≡ PrimeField.mul (recons 3 sixty) (recons 3 six)
recons-mul_example = recons-mul three triple sixty six three-HasSp triple-IsTriple

recons-mul_runs : recons 3 (mul three triple sixty six) ≡ 360
unfolding recons mul add sub scale add_public PrimeField.add PrimeField.sub PrimeField.mul
recons-mul_runs = refl

recons-sharize_example : recons 3 (sharize three sixty 7) ≡ 7
recons-sharize_example = recons-sharize three sixty 7 three-HasSp

masked_passes : modpow (recons 3 (mul three triple six sixty)) (p - 1) ≡ 1
unfolding recons mul add sub scale add_public PrimeField.add PrimeField.sub PrimeField.mul modpow
    modpow_loop
masked_passes = refl

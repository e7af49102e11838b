-- ===== src/Share/Sharing.antt =====
-- Sharing a secret, and inverting and dividing shares.
use quick_mpc.Prelude.{
  ℕ, zero, suc, ◌-◌, ◌%◌, ◌≤◌, ◌<◌, ◌≡◌, refl, sym, ap, ◌∙◌, inl, inr, arith, ◌==◌, Bool-cases,
}
use quick_mpc.PrimeField
use quick_mpc.PrimeField.{p}
use quick_mpc.PrimeField.Ring.{field, sub_eq, mul_eq, add-lt}
use quick_mpc.PrimeField.Power.{mul-get_inv}
use quick_mpc.Share.{Config, Shared, Triple, recons, mul, drawn_sum, sharize, get_inv, div}
use quick_mpc.Share.PrimeValue.{prime_value}
use quick_mpc.Share.Recons.{HasSp, recons-lt}
use quick_mpc.Share.Beaver.{IsTriple, recons-mul}

drawn_sum-le : (conf : Config) (n : ℕ) (r : Shared ℕ) → drawn_sum conf n r ≤ p
unfolding drawn_sum
drawn_sum-le conf zero r = omega arith
drawn_sum-le conf (suc n) r =
    ground (arith, drawn_sum-le conf n r, add-lt (drawn_sum conf n r) (r (suc n)))

-- Before the loop of `recons` has met the party `sp_id`.
recons-sharize_below :
    (conf : Config) (n : ℕ) (r : Shared ℕ) (secret : ℕ)
    → n < conf.sp_id
    → recons n (sharize conf r secret) ≡ drawn_sum conf n r
unfolding recons sharize drawn_sum
recons-sharize_below conf zero r secret h = refl
recons-sharize_below conf (suc n) r secret h =
    ground (arith, recons-sharize_below conf n r secret (omega arith))

recons-sharize_above :
    (conf : Config) (n : ℕ) (r : Shared ℕ) (secret : ℕ)
    → HasSp conf n
    → recons n (sharize conf r secret)
      ≡ PrimeField.add
          (drawn_sum conf n r)
          (PrimeField.sub secret (drawn_sum conf conf.n_parties r))
unfolding recons sharize drawn_sum
recons-sharize_above conf zero r secret h = absurd (omega arith)
recons-sharize_above conf (suc n) r secret h = elim (Bool-cases (suc n == conf.sp_id)) [
  | inl here ↦ rw (here, recons-sharize_below conf n r secret (ground arith))
  | inr later ↦
      rw (later, recons-sharize_above conf n r secret (ground arith)) (simp field (omega arith))
]

-- Sharing a secret and reconstructing it gives the secret back modulo the order of the field,
-- whatever parts are drawn, where the party `sp_id` is one of the parties.
pub recons-sharize :
    (conf : Config) (r : Shared ℕ) (secret : ℕ)
    → HasSp conf conf.n_parties
    → recons conf.n_parties (sharize conf r secret) ≡ secret % p
recons-sharize conf r secret h =
    let n : ℕ = conf.n_parties in
    recons-sharize_above conf n r secret h
    ∙ rw (sub_eq secret (drawn_sum conf n r) (drawn_sum-le conf n r)) (simp field (omega arith))

regroup :
    (v r s : ℕ)
    → PrimeField.mul (PrimeField.mul (v % p) r) s ≡ PrimeField.mul (PrimeField.mul s r) v
regroup v r s = simp field (omega arith)

assoc : (a b c : ℕ) → PrimeField.mul (PrimeField.mul a b) c ≡ PrimeField.mul a (PrimeField.mul b c)
assoc a b c = simp field (omega arith)

one : (a : ℕ) → a < p → PrimeField.mul a 1 ≡ a
one a h = simp field (omega arith)

-- Where the opened product of the share and the random share passes Fermat's test, the share
-- that `getInv` computes reconstructs to the inverse. The two triples are shares of products,
-- and the party `sp_id` is one of the parties.
pub recons-get_inv :
    (conf : Config) (t u : Triple ℕ) (r drawn s : Shared ℕ)
    → HasSp conf conf.n_parties
    → IsTriple conf.n_parties t
    → IsTriple conf.n_parties u
    → PrimeField.modpow (recons conf.n_parties (mul conf t s r)) (p - 1) ≡ 1
    → PrimeField.mul (recons conf.n_parties (get_inv conf t u r drawn s)) (recons conf.n_parties s)
      ≡ 1
unfolding get_inv
recons-get_inv conf t u r drawn s sp ht hu fermat =
    let n : ℕ = conf.n_parties in
    let w : ℕ = recons n (mul conf t s r) in
    let v : ℕ = PrimeField.get_inv w in
    let product : w ≡ PrimeField.mul (recons n s) (recons n r) = recons-mul conf t s r sp ht in
    rw (recons-mul conf u (sharize conf drawn v) r sp hu, recons-sharize conf drawn v sp)
      (regroup v (recons n r) (recons n s)
        ∙ ap (λ (a : ℕ). PrimeField.mul a v) (sym product)
        ∙ mul_eq w v
        ∙ mul-get_inv w fermat)

-- Dividing a share by another gives a share whose product with the divisor is the dividend,
-- where the opened product of the divisor and the random share passes Fermat's test. The three
-- triples are shares of products, and the party `sp_id` is one of the parties.
pub recons-div :
    (conf : Config) (t u v : Triple ℕ) (r drawn x y : Shared ℕ)
    → HasSp conf conf.n_parties
    → IsTriple conf.n_parties t
    → IsTriple conf.n_parties u
    → IsTriple conf.n_parties v
    → PrimeField.modpow (recons conf.n_parties (mul conf t y r)) (p - 1) ≡ 1
    → PrimeField.mul (recons conf.n_parties (div conf t u v r drawn x y)) (recons conf.n_parties y)
      ≡ recons conf.n_parties x
unfolding div
recons-div conf t u v r drawn x y sp ht hu hv fermat =
    let n : ℕ = conf.n_parties in
    let q : ℕ = recons n (get_inv conf t u r drawn y) in
    rw (recons-mul conf v x (get_inv conf t u r drawn y) sp hv) (
      assoc (recons n x) q (recons n y)
      ∙ ap (λ (a : ℕ). PrimeField.mul (recons n x) a)
          (recons-get_inv conf t u r drawn y sp ht hu fermat)
      ∙ one (recons n x) (recons-lt n x))

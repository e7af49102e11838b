-- ===== src/Share/Recons.antt =====
-- What reconstruction makes of the local operators.
use quick_mpc.Prelude.{
  ℕ, zero, suc, ◌+◌, ◌*◌, ◌%◌, ◌≤◌, ◌<◌, ◌≡◌, ◌∙◌, refl, sym, some, inl, inr, arith, ◌==◌,
  Bool-cases,
}
use quick_mpc.PrimeField
use quick_mpc.PrimeField.{p}
use quick_mpc.PrimeField.Ring.{
  field, sub_eq, add-neg, add-lt, add-mod_right, sub_zero, add_eq, of_int-some,
}
use quick_mpc.Share.{
  Config, Shared, add, sub, neg, scale, add_public, public_sub, recons, recons_at,
}
use quick_mpc.Share.PrimeValue.{prime_value, IsValid}

pub recons-lt : (n : ℕ) (x : Shared ℕ) → recons n x < p
unfolding recons
recons-lt zero x = omega arith
recons-lt (suc n) x = add-lt _ _

pub recons-le : (n : ℕ) (x : Shared ℕ) → recons n x ≤ p
recons-le n x = omega (arith, recons-lt n x)

pub recons-add :
    (n : ℕ) (x y : Shared ℕ) → recons n (add x y) ≡ PrimeField.add (recons n x) (recons n y)
unfolding recons add
recons-add zero x y = simp field
recons-add (suc n) x y = rw (recons-add n x y) (simp field (omega arith))

pub recons-sub :
    (n : ℕ) (x y : Shared ℕ)
    → IsValid y
    → recons n (sub x y) ≡ PrimeField.sub (recons n x) (recons n y)
unfolding recons sub
recons-sub zero x y v = sym sub_zero
recons-sub (suc n) x y v =
    rw
      (
        recons-sub n x y v,
        sub_eq (x (suc n)) (y (suc n)) (v (suc n)),
        sub_eq (recons n x) (recons n y) (recons-le n y),
      )
      (simp field (omega arith))

pub recons-neg :
    (n : ℕ) (x : Shared ℕ) → IsValid x → recons n (neg x) ≡ PrimeField.sub 0 (recons n x)
unfolding recons neg
recons-neg zero x v = sym sub_zero
recons-neg (suc n) x v =
    rw
      (
        recons-neg n x v,
        add-neg (PrimeField.sub 0 (recons n x)) (x (suc n)) (v (suc n)),
        sub_eq 0 (recons n x) (recons-le n x),
      )
      (simp field (omega arith))

pub recons-scale :
    (n : ℕ) (x : Shared ℕ) (k : ℕ) → recons n (scale x k) ≡ PrimeField.mul (recons n x) k
unfolding recons scale
recons-scale zero x k = simp field (omega arith)
recons-scale (suc n) x k = rw (recons-scale n x k) (simp field (omega arith))

-- Every party holds the same value.
pub recons-constant : (n k : ℕ) → recons n (λ i. k) ≡ n * k % p
unfolding recons
recons-constant zero k = omega arith
recons-constant (suc n) k = rw (recons-constant n k) (simp field (omega arith))

-- Before the loop has met the party `sp_id`.
recons-add_public_below :
    (conf : Config) (n : ℕ) (x : Shared ℕ) (k : ℕ)
    → n < conf.sp_id
    → recons n (add_public conf x k) ≡ recons n x
unfolding recons add_public
recons-add_public_below conf zero x k h = refl
recons-add_public_below conf (suc n) x k h =
    ground (arith, recons-add_public_below conf n x k (omega arith))

-- The identifier `sp_id` is that of a party.
abbrev pub HasSp : Config → ℕ → Type 0
HasSp conf n = (1 ≤ conf.sp_id) × (conf.sp_id ≤ n)

pub recons-add_public :
    (conf : Config) (n : ℕ) (x : Shared ℕ) (k : ℕ)
    → HasSp conf n
    → recons n (add_public conf x k) ≡ PrimeField.add (recons n x) k
unfolding recons add_public
recons-add_public conf zero x k h = absurd (omega arith)
recons-add_public conf (suc n) x k h = elim (Bool-cases (suc n == conf.sp_id)) [
  | inl here ↦
      rw (here, recons-add_public_below conf n x k (ground arith)) (simp field (omega arith))
  | inr later ↦ rw (later, recons-add_public conf n x k (ground arith)) (simp field (omega arith))
]

pub recons-public_sub :
    (conf : Config) (n k : ℕ) (x : Shared ℕ)
    → HasSp conf n
    → IsValid x
    → recons n (public_sub conf k x) ≡ (k + 18446744073709551556 * recons n x) % p
unfolding public_sub
recons-public_sub conf n k x sp v =
    recons-add_public conf n (neg x) k sp
    ∙ add_eq _ _
    ∙ rw (recons-neg n x v, sub_eq 0 (recons n x) (recons-le n x)) (omega arith)

-- Every party that runs the loop of `recons` on valid parts, on its own as it is and on those
-- of the others as texts, gets the same value, the sum of the parts, and none of them throws.
pub recons_at-recons : (me n : ℕ) (x : Shared ℕ) → IsValid x → recons_at me n x ≡ some (recons n x)
unfolding recons recons_at
recons_at-recons me zero x v = refl
recons_at-recons me (suc n) x v =
    rw (recons_at-recons me n x v, of_int-some (x (suc n)) (v (suc n)))
      (ground (arith, add-mod_right (recons n x) (x (suc n))))

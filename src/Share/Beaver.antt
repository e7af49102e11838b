-- ===== src/Share/Beaver.antt =====
-- The multiplication of shares by Beaver triples.
use quick_mpc.Prelude.{ℕ, ◌≡◌, arith}
use quick_mpc.PrimeField
use quick_mpc.PrimeField.Ring.{field, sub_eq, add-lt, sub-lt, mul-lt, neg-le}
use quick_mpc.Share.{
  Config, Shared, Triple, add, sub, neg, scale, add_public, public_sub, recons, mul,
}
use quick_mpc.Share.PrimeValue.{prime_value, IsValid}
use quick_mpc.Share.Recons.{
  recons-add, recons-sub, recons-scale, recons-add_public, recons-le, HasSp,
}

-- The parts of a triple reconstruct to a product.
pub record IsTriple (n : ℕ) (t : Triple ℕ) : Type 0 where
  pub valid_a : IsValid t.a
  pub valid_b : IsValid t.b
  pub product : recons n t.c ≡ PrimeField.mul (recons n t.a) (recons n t.b)

-- With a triple of shares of a product, the shares that the parties compute in a
-- multiplication reconstruct to the product of the two shared values in the field, where the
-- party `sp_id` is one of the parties.
pub recons-mul :
    (conf : Config) (t : Triple ℕ) (x y : Shared ℕ)
    → HasSp conf conf.n_parties
    → IsTriple conf.n_parties t
    → recons conf.n_parties (mul conf t x y)
      ≡ PrimeField.mul (recons conf.n_parties x) (recons conf.n_parties y)
unfolding mul
recons-mul conf t x y sp triple =
    let n : ℕ = conf.n_parties in
    rw (recons-add_public conf n _ _ sp) (
      simp
        (
          recons-add,
          recons-scale,
          triple.product,
          recons-sub n x t.a triple.valid_a,
          recons-sub n y t.b triple.valid_b,
          sub_eq (recons n x) (recons n t.a) (recons-le n t.a),
          sub_eq (recons n y) (recons n t.b) (recons-le n t.b),
        )
        (simp field (omega arith)))

pub add-IsValid : (x y : Shared ℕ) → IsValid (add x y)
unfolding add
add-IsValid x y i = omega (arith, add-lt (x i) (y i))

pub sub-IsValid : (x y : Shared ℕ) → IsValid (sub x y)
unfolding sub
sub-IsValid x y i = omega (arith, sub-lt (x i) (y i))

pub neg-IsValid : (x : Shared ℕ) → IsValid (neg x)
unfolding neg
neg-IsValid x i = neg-le (x i)

pub scale-IsValid : (x : Shared ℕ) (k : ℕ) → IsValid (scale x k)
unfolding scale
scale-IsValid x k i = omega (arith, mul-lt (x i) k)

pub add_public-IsValid :
    (conf : Config) (x : Shared ℕ) (k : ℕ) → IsValid x → IsValid (add_public conf x k)
unfolding add_public
add_public-IsValid conf x k v i = ground (arith, v i, add-lt (x i) k)

pub mul-IsValid : (conf : Config) (t : Triple ℕ) (x y : Shared ℕ) → IsValid (mul conf t x y)
unfolding mul
mul-IsValid conf t x y = add_public-IsValid conf _ _ (add-IsValid _ _)

pub public_sub-IsValid : (conf : Config) (k : ℕ) (x : Shared ℕ) → IsValid (public_sub conf k x)
unfolding public_sub
public_sub-IsValid conf k x = add_public-IsValid conf (neg x) k (neg-IsValid x)

-- ===== src/Compare/Laws.antt =====
-- The reconstruction of the operators that the protocols use, as polynomials under one remainder.
use quick_mpc.Prelude.{ℕ, ◌+◌, ◌*◌, ◌%◌, ◌<◌, ◌≡◌, ◌∙◌, arith}
use quick_mpc.PrimeField.{p}
use quick_mpc.PrimeField.Ring.{add_eq, mul_eq, sub_eq}
use quick_mpc.Share.{Config, Shared, add, sub, scale, add_public, public_sub, sharize}
use quick_mpc.Share.PrimeValue.{prime_value, IsValid}
use quick_mpc.Share.Recons.{
  HasSp, recons-lt, recons-le, recons-add, recons-sub, recons-scale, recons-add_public,
  recons-public_sub, recons-constant,
}
use quick_mpc.Share.Beaver.{recons-mul, mul-IsValid}
use quick_mpc.Share.Sharing.{recons-sharize}
use quick_mpc.TripleHandler.{prime_triple}
use quick_mpc.TripleHandler.Queue.{prime_triple-IsTriple}
use quick_mpc.Compare.{times, opened, zero_share}

pub times-IsValid : (conf : Config) (x y : Shared ℕ) → IsValid (times conf x y)
unfolding times
times-IsValid conf x y = mul-IsValid conf (prime_triple conf.n_parties) x y

module _ (conf : Config) where
  pub opened-lt : (x : Shared ℕ) → opened conf x < p
  unfolding opened
  opened-lt x = recons-lt conf.n_parties x

  pub opened-add : (x y : Shared ℕ) → opened conf (add x y) ≡ (opened conf x + opened conf y) % p
  unfolding opened
  opened-add x y = recons-add conf.n_parties x y ∙ add_eq _ _

  pub opened-scale : (x : Shared ℕ) (k : ℕ) → opened conf (scale x k) ≡ opened conf x * k % p
  unfolding opened
  opened-scale x k = recons-scale conf.n_parties x k ∙ mul_eq _ _

  pub opened-sub :
      (x y : Shared ℕ)
      → IsValid y
      → opened conf (sub x y) ≡ (opened conf x + 18446744073709551556 * opened conf y) % p
  unfolding opened
  opened-sub x y v = recons-sub conf.n_parties x y v ∙ sub_eq _ _ (recons-le conf.n_parties y)

  pub opened-add_public :
      HasSp conf conf.n_parties
      → (x : Shared ℕ) (k : ℕ) → opened conf (add_public conf x k) ≡ (opened conf x + k) % p
  unfolding opened
  opened-add_public sp x k = recons-add_public conf conf.n_parties x k sp ∙ add_eq _ _

  pub opened-times :
      HasSp conf conf.n_parties
      → (x y : Shared ℕ) → opened conf (times conf x y) ≡ opened conf x * opened conf y % p
  unfolding opened times
  opened-times sp x y =
      recons-mul conf (prime_triple conf.n_parties) x y sp (prime_triple-IsTriple conf.n_parties)
      ∙ mul_eq _ _

  pub opened-public_sub :
      HasSp conf conf.n_parties
      → (k : ℕ) (x : Shared ℕ) → IsValid x
      → opened conf (public_sub conf k x) ≡ (k + 18446744073709551556 * opened conf x) % p
  unfolding opened
  opened-public_sub sp k x v = recons-public_sub conf conf.n_parties k x sp v

  pub opened-sharize :
      (drawn : Shared ℕ) (secret : ℕ)
      → HasSp conf conf.n_parties
      → opened conf (sharize conf drawn secret) ≡ secret % p
  unfolding opened
  opened-sharize drawn secret sp = recons-sharize conf drawn secret sp

  pub opened_zero : opened conf zero_share ≡ 0
  unfolding opened
  opened_zero = recons-constant conf.n_parties 0 ∙ omega arith

-- ===== src/Compare.antt =====
-- src/ComputationContainer/Share/Compare.cpp: the comparison protocols on shares of the field. A
-- protocol is what all parties compute together; the random shares that `subRNS` draws in it are
-- arguments. The vectors of length `l` are lists, the most significant bit first.
pub mod Coefficients
pub mod Laws
pub mod Bits
pub mod Numbers
pub mod Ends
pub mod Equality
pub mod Bitwise
mod Tests
pub mod Polynomials
pub mod FanIn
use mathlib.Core.List.{reverse}
use quick_mpc.Prelude.{
  ℕ, zero, suc, ◌+◌, ◌-◌, ◌*◌, ◌/◌, ◌%◌, Bool, true, false, ◌&&◌, List, [], ◌∷◌, ◌++◌, map, ltb,
  leb, ◌==◌, if◌then◌else◌, length, get_or, replicate,
}
use quick_mpc.PrimeField
use quick_mpc.PrimeField.{p, l, lambda}
use quick_mpc.Share.{Config, Shared, add, sub, scale, add_public, public_sub, recons, mul, sharize}
use quick_mpc.Share.PrimeValue.{prime_value}
use quick_mpc.TripleHandler.{prime_triple}
use Coefficients.{f_65_or_coefficient, f_65_and_coefficient}

-- A product of shares takes the triple that the handler puts for `PrimeField`. The product of two
-- vectors is that of their entries (see Share/Vectors).
pub times : Config → Shared ℕ → Shared ℕ → Shared ℕ
times conf = mul conf (prime_triple conf.n_parties)

-- `open` and `recons`.
pub opened : Config → Shared ℕ → ℕ
opened conf = recons conf.n_parties

abbrev pub zero_share : Shared ℕ
zero_share i = 0

-- A loop `ret += a[i]`.
pub sum_from : Shared ℕ → List (Shared ℕ) → Shared ℕ
sum_from ret [] = ret
sum_from ret (a ∷ xs) = sum_from (add ret a) xs

-- `f65Or` and `f65And`, by their coefficients: the term of degree zero is added last, in public.
pub poly_loop : Shared ℕ → List ℕ → List (Shared ℕ) → Shared ℕ
poly_loop ans [] powers = ans
poly_loop ans (coef ∷ coefs) [] = ans
poly_loop ans (coef ∷ coefs) (a ∷ powers) = poly_loop (add ans (scale a coef)) coefs powers

pub f65 : Config → List ℕ → List (Shared ℕ) → Shared ℕ
f65 conf [] powers = zero_share
f65 conf (coef0 ∷ coefs) powers = add_public conf (poly_loop zero_share coefs powers) coef0

-- Steps 3 to 5 of `subUnboundedFanInOr` and `subUnboundedFanInAnd`: the share of the inverse of a
-- random share, by means of a second one.
pub inverse_share : Config → Shared ℕ → Shared ℕ → Shared ℕ
inverse_share conf b b_dash = scale b_dash (PrimeField.get_inv (opened conf (times conf b b_dash)))

-- Step 6: the values `A / b_i * b_(i-1)` are opened; before the first stands a share of one.
pub open_quotients : Config → Shared ℕ → Shared ℕ → List (Shared ℕ × Shared ℕ) → List ℕ
open_quotients conf a prev [] = []
open_quotients conf a prev ((b, b_dash) ∷ draws) =
    opened conf (times conf (times conf a (inverse_share conf b b_dash)) prev)
    ∷ open_quotients conf a b draws

-- Step 7: the shares of the powers of `A`.
pub power_shares : ℕ → List ℕ → List (Shared ℕ × Shared ℕ) → List (Shared ℕ)
power_shares tmp [] draws = []
power_shares tmp (c ∷ cs) [] = []
power_shares tmp (c ∷ cs) ((b, b_dash) ∷ draws) =
    scale b (PrimeField.mul tmp c) ∷ power_shares (PrimeField.mul tmp c) cs draws

-- The share of one that every party can form: the inverse of their number.
pub one_share : Config → Shared ℕ
one_share conf i = PrimeField.get_inv conf.n_parties

pub fan_in : Config → List ℕ → List (Shared ℕ × Shared ℕ) → List (Shared ℕ) → Shared ℕ
fan_in conf coefs draws xs =
    let a = add_public conf (sum_from zero_share xs) 1 in
    f65 conf coefs (power_shares 1 (open_quotients conf a (one_share conf) draws) draws)

pub unbounded_fan_in_or : Config → List (Shared ℕ × Shared ℕ) → List (Shared ℕ) → Shared ℕ
unbounded_fan_in_or conf = fan_in conf f_65_or_coefficient

pub unbounded_fan_in_and : Config → List (Shared ℕ × Shared ℕ) → List (Shared ℕ) → Shared ℕ
unbounded_fan_in_and conf = fan_in conf f_65_and_coefficient

-- `BStoSC`: from the last bit to the first.
pub bs_to_sc_loop : Shared ℕ → ℕ → List (Shared ℕ) → Shared ℕ
bs_to_sc_loop ret coef [] = ret
bs_to_sc_loop ret coef (a ∷ xs) = bs_to_sc_loop (add ret (scale a coef)) (PrimeField.mul coef 2) xs

pub bs_to_sc : List (Shared ℕ) → Shared ℕ
bs_to_sc xs = bs_to_sc_loop zero_share 1 (reverse xs)

-- `PFtoBS`: a public number as shares of its bits. `r` is what the party `sp_id` draws for a bit,
-- and the parts of its sharing are the second draw.
pub bit_share : Config → ℕ → ℕ × Shared ℕ → Shared ℕ
bit_share conf y (r, drawn) i =
    let s = sharize conf drawn r i in
    if i == conf.sp_id then PrimeField.add (PrimeField.sub (y % 2) r) s else s

pub pf_to_bs : Config → ℕ → List (ℕ × Shared ℕ) → List (Shared ℕ)
pf_to_bs conf y [] = []
pf_to_bs conf y (draw ∷ draws) = pf_to_bs conf (y / 2) draws ++ bit_share conf y draw ∷ []

-- The end of `subHalfLessThan`: from the opened `c`, the share `cr` of `c < r` and the last bit of
-- `r`, one minus the last bit of `c - r` modulo the order of the field.
pub half_less_than_end : Config → ℕ → Shared ℕ → Shared ℕ → Shared ℕ
half_less_than_end conf c cr r0 =
    let ret =
      if c % 2 == 0
      then add (times conf cr (public_sub conf 1 r0)) (times conf (public_sub conf 1 cr) r0)
      else add (times conf cr r0) (times conf (public_sub conf 1 cr) (public_sub conf 1 r0)) in
    public_sub conf 1 ret

-- The end of `comparisonTest`, from the three tests against half of the order.
pub comparison_end : Config → Shared ℕ → Shared ℕ → Shared ℕ → Shared ℕ
comparison_end conf w x y =
    let xy = times conf x y in
    add (sub (sub (add_public conf (times conf w (sub (add x y) (scale xy 2))) 1) y) x) xy

-- `equalityTest`: the bits of `c` and of `r` are compared one by one, from the last.
pub equal_bits : Config → ℕ → List (Shared ℕ) → List (Shared ℕ)
equal_bits conf x [] = []
equal_bits conf x (r ∷ rs) =
    (if x % 2 == 1 then r else public_sub conf 1 r) ∷ equal_bits conf (x / 2) rs

pub equality_test :
    Config → List (Shared ℕ × Shared ℕ) → List (Shared ℕ) → Shared ℕ → Shared ℕ → Shared ℕ
equality_test conf draws r_shares a b =
    let c = opened conf (add (sub a b) (bs_to_sc r_shares)) in
    unbounded_fan_in_and conf draws (reverse (equal_bits conf c (reverse r_shares)))

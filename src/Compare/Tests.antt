-- ===== src/Compare/Tests.antt =====
-- The theorems about the comparison protocols at three parties, with concrete draws.
use mathlib.Core.List.{reverse}
use quick_mpc.Prelude.{
  inl, ℕ, zero, suc, ◌+◌, ◌-◌, ◌*◌, ◌<◌, ◌≡◌, refl, Bool, true, false, List, [], ◌∷◌, arith, ltb,
  ◌==◌, if◌then◌else◌, replicate, get_or, ◌&&◌,
}
use quick_mpc.PrimeField
use quick_mpc.PrimeField.{p, modpow, modpow_loop}
use quick_mpc.Share.{Config, Shared, add, sub, scale, add_public, recons, mul}
use quick_mpc.Share.PrimeValue.{prime_value, IsValid}
use quick_mpc.Share.Recons.{HasSp}
use quick_mpc.TripleHandler.{prime_triple}
use quick_mpc.Compare.{times, opened, zero_share, unbounded_fan_in_or, bs_to_sc, equality_test}
use quick_mpc.Compare.Bits.{bit, any_set, OpenTo}
use quick_mpc.Compare.FanIn.{AreInvertible, unbounded_fan_in_or_lem}
use quick_mpc.Compare.Numbers.{number, AreCanonical, bs_to_sc_lem}
use quick_mpc.Compare.Equality.{AreValid, equality_test_lem}
use quick_mpc.Compare.Laws.{opened-add, opened_zero}
use quick_mpc.Compare.Bitwise.{
  IntervalDraws, interval_test, HalfDraws, Draws, prefix_or, bitwise_less_than, half_less_than,
  comparison_test,
}
use quick_mpc.Compare.Bitwise.Interval.{IsSoundInterval, interval_test_lem, interval_test-edges}
use quick_mpc.Compare.Bitwise.Disjunction.{any_below}
use quick_mpc.Compare.Bitwise.PrefixOr.{AreGood, OpenBelow, prefix_or_lem}
use quick_mpc.Compare.Bitwise.LessThan.{bitwise_less_than_lem}
use quick_mpc.Compare.Bitwise.Comparison.{IsSound, half_less_than_lem, comparison_test_lem}
use quick_mpc.Compare.Bitwise.Tables.{opened-entry}

abbrev trio : Config
trio = record { n_parties = 3; sp_id = 1 }

trio-HasSp : HasSp trio 3
trio-HasSp = omega arith

-- Shares of one, of ten and of twelve.
abbrev one : Shared ℕ
one i = if i == 1 then 1 else 0

abbrev ten : Shared ℕ
ten i = if i == 1 then 3 else if i == 2 then 3 else 4

abbrev twelve : Shared ℕ
twelve i = 4

abbrev pair : Shared ℕ × Shared ℕ
pair = (ten, twelve)

fermat_trio : modpow 3 (p - 1) ≡ 1
unfolding modpow modpow_loop
fermat_trio = refl

fermat_pair : modpow (opened trio (times trio ten twelve)) (p - 1) ≡ 1
unfolding opened times recons mul add sub scale add_public prime_triple PrimeField.add
    PrimeField.sub PrimeField.mul modpow modpow_loop
fermat_pair = refl

pairs-AreInvertible : (n : ℕ) → AreInvertible trio (replicate n pair)
unfolding AreInvertible
pairs-AreInvertible zero = tt
pairs-AreInvertible (suc n) = (fermat_pair, pairs-AreInvertible n)

abbrev pairs : List (Shared ℕ × Shared ℕ)
pairs = replicate 64 pair

-- Runs: one and ten are what their shares open to.
opened-one : opened trio one ≡ 1
unfolding opened recons PrimeField.add
opened-one = refl

twelve-IsValid : IsValid twelve
twelve-IsValid i = omega arith

one-IsValid : IsValid one
one-IsValid i = ground arith

-- Bits that end with 1 1 after `n` zeros, the highest first, and shares of them.
abbrev mask : ℕ → List Bool
mask zero = true ∷ true ∷ []
mask (suc n) = false ∷ mask n

abbrev mask_shares : ℕ → List (Shared ℕ)
mask_shares zero = one ∷ one ∷ []
mask_shares (suc n) = zero_share ∷ mask_shares n

mask-OpenTo : (n : ℕ) → OpenTo trio (mask_shares n) (mask n)
unfolding OpenTo
mask-OpenTo zero = (opened-one, (opened-one, tt))
mask-OpenTo (suc n) = (opened_zero trio, mask-OpenTo n)

mask-AreValid : (n : ℕ) → AreValid (mask_shares n)
unfolding AreValid
mask-AreValid zero = (one-IsValid, (one-IsValid, tt))
mask-AreValid (suc n) = ((λ i. omega arith), mask-AreValid n)

number-mask : number (reverse (mask 62)) ≡ 3
unfolding number
number-mask = refl

unbounded_fan_in_or_lem_example :
    opened trio (unbounded_fan_in_or trio pairs (mask_shares 62)) ≡ bit (any_set (mask 62))
unbounded_fan_in_or_lem_example =
    unbounded_fan_in_or_lem trio pairs (mask_shares 62) (mask 62) trio-HasSp fermat_trio
      (pairs-AreInvertible 64) refl (mask-OpenTo 62) refl

abbrev bit_draw : ℕ × Shared ℕ
bit_draw = (7, twelve)

bit_draws-AreCanonical : (n : ℕ) → AreCanonical (replicate n bit_draw)
unfolding AreCanonical
bit_draws-AreCanonical zero = tt
bit_draws-AreCanonical (suc n) = (omega arith, bit_draws-AreCanonical n)

abbrev bit_draws : List (ℕ × Shared ℕ)
bit_draws = replicate 64 bit_draw

mask_lt : number (reverse (mask 62)) < p
mask_lt = rw number-mask (omega arith)

equality_test_lem_example :
    opened trio (equality_test trio pairs (mask_shares 62) ten twelve)
    ≡ bit (opened trio ten == opened trio twelve)
equality_test_lem_example =
    equality_test_lem trio pairs (mask_shares 62) (mask 62) ten twelve trio-HasSp fermat_trio
      (pairs-AreInvertible 64) refl (mask-AreValid 62) (mask-OpenTo 62) refl mask_lt twelve-IsValid

abbrev all_pairs : Draws
all_pairs k = pairs

all_pairs-AreGood : AreGood trio all_pairs
unfolding AreGood
all_pairs-AreGood k lt = (pairs-AreInvertible 64, refl)

abbrev mask_bit : ℕ → Bool
mask_bit i = get_or (mask 62) i false

mask-OpenBelow : OpenBelow trio 64 (mask_shares 62) mask_bit
mask-OpenBelow i lt = opened-entry trio (mask_shares 62) (mask 62) i (mask-OpenTo 62)

prefix_or_lem_example :
    OpenBelow trio 64 (prefix_or trio all_pairs (mask_shares 62)) (λ i. any_below (i + 1) mask_bit)
prefix_or_lem_example =
    prefix_or_lem trio all_pairs (mask_shares 62) mask_bit trio-HasSp fermat_trio all_pairs-AreGood
      mask-OpenBelow

bitwise_less_than_lem_example :
    opened trio (bitwise_less_than trio all_pairs (mask_shares 62) (mask_shares 62))
    ≡ bit (ltb (number (reverse (mask 62))) (number (reverse (mask 62))))
bitwise_less_than_lem_example =
    bitwise_less_than_lem trio all_pairs (mask_shares 62) (mask_shares 62) (mask 62) (mask 62)
      trio-HasSp fermat_trio all_pairs-AreGood (mask-OpenTo 62) (mask-OpenTo 62) refl refl

abbrev half_draws : HalfDraws
half_draws = record { r_shares = mask_shares 62; bit_draws = bit_draws; fan_ins = all_pairs }

half_draws-IsSound : IsSound trio half_draws
half_draws-IsSound = record {
  rs = mask 62;
  rs_open = mask-OpenTo 62;
  rs_length = refl;
  rs_lt = mask_lt;
  rs_valid = mask-AreValid 62;
  bits_canonical = bit_draws-AreCanonical 64;
  bits_length = refl;
  fan_ins_good = all_pairs-AreGood;
}

half_less_than_lem_example :
    opened trio (half_less_than trio half_draws ten) ≡ bit (ltb (2 * opened trio ten) p)
half_less_than_lem_example =
    half_less_than_lem trio half_draws ten trio-HasSp fermat_trio half_draws-IsSound

comparison_test_lem_example :
    opened trio (comparison_test trio half_draws half_draws half_draws ten twelve)
    ≡ bit (ltb (opened trio ten) (opened trio twelve))
comparison_test_lem_example =
    comparison_test_lem trio half_draws half_draws half_draws ten twelve trio-HasSp fermat_trio
      half_draws-IsSound half_draws-IsSound half_draws-IsSound twelve-IsValid

abbrev interval_draws : IntervalDraws
interval_draws = record {
  r_shares = mask_shares 62;
  low_draws = bit_draws;
  high_draws = bit_draws;
  low_fan_ins = all_pairs;
  high_fan_ins = all_pairs;
}

interval_draws-IsSound : IsSoundInterval trio interval_draws
interval_draws-IsSound = record {
  rs = mask 62;
  rs_open = mask-OpenTo 62;
  rs_length = refl;
  rs_lt = mask_lt;
  low_canonical = bit_draws-AreCanonical 64;
  low_length = refl;
  high_canonical = bit_draws-AreCanonical 64;
  high_length = refl;
  low_good = all_pairs-AreGood;
  high_good = all_pairs-AreGood;
}

opened-ten : opened trio ten ≡ 10
unfolding opened recons PrimeField.add
opened-ten = refl

opened-masked : opened trio (add ten (bs_to_sc (mask_shares 62))) ≡ 13
opened-masked =
    rw
      (
        opened-add trio ten (bs_to_sc (mask_shares 62)),
        bs_to_sc_lem trio (mask_shares 62) (mask 62) (mask-OpenTo 62),
        opened-ten,
        number-mask,
      )
      refl

interval_test_lem_example :
    opened trio (interval_test trio interval_draws 5 ten 20)
    ≡ bit (ltb 5 (opened trio ten) && ltb (opened trio ten) 20)
interval_test_lem_example =
    interval_test_lem trio interval_draws 5 ten 20 trio-HasSp fermat_trio interval_draws-IsSound
      (omega arith) (omega arith) (omega (arith, opened-masked)) (omega (arith, opened-masked))

interval_test-edges_example :
    let c = opened trio (add ten (bs_to_sc (mask_shares 62))) in
    opened trio (interval_test trio interval_draws 13 ten 20) ≡ bit (ltb 13 c)
interval_test-edges_example =
    interval_test-edges trio interval_draws 13 ten 20 trio-HasSp fermat_trio interval_draws-IsSound
      (omega arith) (omega arith) (inl opened-masked)

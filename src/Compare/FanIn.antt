-- ===== src/Compare/FanIn.antt =====
-- The disjunction and the conjunction of unboundedly many shared bits.
use native.Mathlib.Nat.{pow-zero, mul_comm}
use quick_mpc.Prelude.{
  ℕ, ◌+◌, ◌-◌, ◌*◌, ◌%◌, ◌^◌, ◌≡◌, refl, sym, ap, ◌∙◌, Bool, true, false, List, [], ◌∷◌, arith,
  ◌==◌, if◌then◌else◌, length,
}
use quick_mpc.PrimeField
use quick_mpc.PrimeField.{p, l}
use quick_mpc.PrimeField.Ring.{field, mod-mul}
use quick_mpc.PrimeField.Power.{mul-get_inv}
use quick_mpc.Share.{Config, Shared, add, scale, add_public}
use quick_mpc.Share.PrimeValue.{prime_value, IsValid}
use quick_mpc.Share.Beaver.{add-IsValid, add_public-IsValid}
use quick_mpc.Share.Recons.{HasSp, recons-constant}
use quick_mpc.Compare.{
  times, opened, zero_share, sum_from, poly_loop, f65, inverse_share, open_quotients, power_shares,
  one_share, fan_in, unbounded_fan_in_or, unbounded_fan_in_and,
}
use quick_mpc.Compare.Bits.{
  bit, count, any_set, all_set, count-le, any_set-count, all_set-count, OpenTo,
}
use quick_mpc.Compare.Coefficients.{f_65_or_coefficient, f_65_and_coefficient}
use quick_mpc.Compare.Laws.{
  opened-lt, opened-add, opened-scale, opened_zero, opened-add_public, opened-times,
}
use quick_mpc.Compare.Polynomials.{pow-next, poly, or_table, and_table, at_bits, regroup, telescope}

-- Fermat's test passes for the product of each pair of random shares: both are invertible.
unfoldable pub AreInvertible : Config → List (Shared ℕ × Shared ℕ) → Type 0
AreInvertible conf [] = Unit {0}
AreInvertible conf ((b, b_dash) ∷ draws) =
    (PrimeField.modpow (opened conf (times conf b b_dash)) (p - 1) ≡ 1) × AreInvertible conf draws

module _ (conf : Config) (sp : HasSp conf conf.n_parties) where
  -- A share times its inverse share is one.
  inverse_share_lem :
      (b b_dash : Shared ℕ)
      → PrimeField.modpow (opened conf (times conf b b_dash)) (p - 1) ≡ 1
      → opened conf (inverse_share conf b b_dash) * opened conf b % p ≡ 1
  unfolding inverse_share
  inverse_share_lem b b_dash fermat =
      let product = opened conf (times conf b b_dash) in
      rw (opened-scale conf b_dash (PrimeField.get_inv product)) (
        mod-mul (opened conf b_dash * PrimeField.get_inv product) (opened conf b)
        ∙ regroup (opened conf b) (opened conf b_dash) (PrimeField.get_inv product)
        ∙ rw (← opened-times conf sp b b_dash) (mul-get_inv product fermat))

  -- One round: the share that is found opens to the next power.
  next_power :
      (a prev b b_dash : Shared ℕ) (tmp k : ℕ)
      → PrimeField.modpow (opened conf (times conf b b_dash)) (p - 1) ≡ 1
      → tmp * opened conf prev % p ≡ opened conf a ^ k % p
      → PrimeField.mul tmp
            (opened conf (times conf (times conf a (inverse_share conf b b_dash)) prev))
          * opened conf b
          % p
        ≡ opened conf a ^ (k + 1) % p
  next_power a prev b b_dash tmp k fermat e =
      rw
        (
          opened-times conf sp (times conf a (inverse_share conf b b_dash)) prev,
          opened-times conf sp a (inverse_share conf b b_dash),
          pow-next (opened conf a) k,
        )
        (telescope tmp (opened conf prev) (opened conf a)
          (opened conf (inverse_share conf b b_dash)) (opened conf b) (opened conf a ^ k) e
          (inverse_share_lem b b_dash fermat))

  -- The loop of `f65` on the shares of the powers from degree `k + 1` on.
  poly_loop_lem :
      (a prev ans : Shared ℕ) (tmp k : ℕ) (coefs : List ℕ) (draws : List (Shared ℕ × Shared ℕ))
      → AreInvertible conf draws
      → length coefs ≡ length draws
      → tmp * opened conf prev % p ≡ opened conf a ^ k % p
      → opened conf
          (poly_loop ans coefs (power_shares tmp (open_quotients conf a prev draws) draws))
        ≡ (opened conf ans + poly (opened conf a) (k + 1) coefs) % p
  unfolding poly_loop power_shares open_quotients AreInvertible poly
  poly_loop_lem a prev ans tmp k [] draws inv len e = omega (arith, opened-lt conf ans)
  poly_loop_lem a prev ans tmp k (coef ∷ coefs) [] inv len e = absurd (omega arith)
  poly_loop_lem a prev ans tmp k (coef ∷ coefs) ((b, b_dash) ∷ draws) inv len e =
      let c = opened conf (times conf (times conf a (inverse_share conf b b_dash)) prev) in
      let here = next_power a prev b b_dash tmp k inv.0 e in
      let poly_step : poly (opened conf a) (k + 1) (coef ∷ coefs)
          ≡ coef * opened conf a ^ (k + 1) + poly (opened conf a) (k + 1 + 1) coefs =
        refl in
      let power = scale b (PrimeField.mul tmp c) in
      poly_loop_lem a b (add ans (scale power coef)) (PrimeField.mul tmp c) (k + 1) coefs draws
        inv.1 (omega arith) here
      ∙ rw
          (
            opened-add conf ans (scale power coef),
            opened-scale conf power coef,
            opened-scale conf b (PrimeField.mul tmp c),
            ap (λ (t : ℕ). t % p) (mul_comm (opened conf b) (PrimeField.mul tmp c)),
            here,
          )
          (simp field (omega (arith, poly_step)))

  sum_from_lem :
      (ret : Shared ℕ) (xs : List (Shared ℕ)) (bs : List Bool)
      → OpenTo conf xs bs
      → opened conf (sum_from ret xs) ≡ (opened conf ret + count bs) % p
  unfolding sum_from OpenTo count
  sum_from_lem ret [] [] h = omega (arith, opened-lt conf ret)
  sum_from_lem ret [] (b ∷ bs) h = absurd h
  sum_from_lem ret (x ∷ xs) [] h = absurd h
  sum_from_lem ret (x ∷ xs) (true ∷ bs) h =
      sum_from_lem (add ret x) xs bs h.1 ∙ rw (opened-add conf ret x, h.0) (omega arith)
  sum_from_lem ret (x ∷ xs) (false ∷ bs) h =
      sum_from_lem (add ret x) xs bs h.1 ∙ rw (opened-add conf ret x, h.0) (omega arith)

  one_share_lem : PrimeField.modpow conf.n_parties (p - 1) ≡ 1 → opened conf (one_share conf) ≡ 1
  unfolding one_share opened
  one_share_lem fermat =
      recons-constant conf.n_parties (PrimeField.get_inv conf.n_parties)
      ∙ mul-get_inv conf.n_parties fermat

  -- A public polynomial at one plus the number of the bits that are set.
  fan_in_lem :
      (coef0 : ℕ) (coefs : List ℕ) (draws : List (Shared ℕ × Shared ℕ)) (xs : List (Shared ℕ))
      (bs : List Bool)
      → AreInvertible conf draws
      → PrimeField.modpow conf.n_parties (p - 1) ≡ 1
      → length coefs ≡ length draws
      → length draws ≡ 64
      → OpenTo conf xs bs
      → length bs ≡ 64
      → opened conf (fan_in conf (coef0 ∷ coefs) draws xs)
        ≡ poly (count bs + 1) 0 (coef0 ∷ coefs) % p
  unfolding fan_in f65 poly
  fan_in_lem coef0 coefs draws xs bs inv fermat len len_draws h len_bs =
      let a = add_public conf (sum_from zero_share xs) 1 in
      let a_eq : opened conf a ≡ count bs + 1 =
        rw
          (
            opened-add_public conf sp (sum_from zero_share xs) 1,
            sum_from_lem zero_share xs bs h,
            opened_zero conf,
          )
          (omega (arith, count-le bs)) in
      let one = one_share_lem fermat in
      let powers = power_shares 1 (open_quotients conf a (one_share conf) draws) draws in
      rw
        (
          opened-add_public conf sp (poly_loop zero_share coefs powers) coef0,
          poly_loop_lem a (one_share conf) zero_share 1 0 coefs draws inv len
              (rw (one, pow-zero (opened conf a)) refl),
          opened_zero conf,
          a_eq,
          pow-zero (count bs + 1),
        )
        (omega arith)

poly_loop-IsValid :
    (ans : Shared ℕ) (coefs : List ℕ) (powers : List (Shared ℕ))
    → IsValid ans
    → IsValid (poly_loop ans coefs powers)
unfolding poly_loop
poly_loop-IsValid ans [] powers v = v
poly_loop-IsValid ans (coef ∷ coefs) [] v = v
poly_loop-IsValid ans (coef ∷ coefs) (a ∷ powers) v =
    poly_loop-IsValid (add ans (scale a coef)) coefs powers (add-IsValid ans (scale a coef))

pub unbounded_fan_in_or-IsValid :
    (conf : Config) (draws : List (Shared ℕ × Shared ℕ)) (xs : List (Shared ℕ))
    → IsValid (unbounded_fan_in_or conf draws xs)
unfolding unbounded_fan_in_or fan_in f65 f_65_or_coefficient
unbounded_fan_in_or-IsValid conf draws xs =
    add_public-IsValid conf _ _ (poly_loop-IsValid zero_share _ _ (λ i. omega arith))

-- For every 64 bits that are shared, `subUnboundedFanInOr` opens to one when some bit is set
-- and to zero when none is. The party `sp_id` is one of the parties, and the number of parties
-- and the products of the 64 pairs of random shares pass Fermat's test.
pub unbounded_fan_in_or_lem :
    (conf : Config) (draws : List (Shared ℕ × Shared ℕ)) (xs : List (Shared ℕ)) (bs : List Bool)
    → HasSp conf conf.n_parties
    → PrimeField.modpow conf.n_parties (p - 1) ≡ 1
    → AreInvertible conf draws
    → length draws ≡ 64
    → OpenTo conf xs bs
    → length bs ≡ 64
    → opened conf (unbounded_fan_in_or conf draws xs) ≡ bit (any_set bs)
unfolding unbounded_fan_in_or f_65_or_coefficient
unbounded_fan_in_or_lem conf draws xs bs sp fermat inv len h len_bs =
    fan_in_lem conf sp _ _ draws xs bs inv fermat (sym len) len h len_bs
    ∙ at_bits f_65_or_coefficient (λ n. if n == 0 then 0 else 1) bs or_table
        (omega (arith, count-le bs))
    ∙ sym (any_set-count bs)

-- For every 64 bits that are shared, `subUnboundedFanInAnd` opens to one when all bits are set
-- and to zero when one is not. The party `sp_id` is one of the parties, and the number of
-- parties and the products of the 64 pairs of random shares pass Fermat's test.
pub unbounded_fan_in_and_lem :
    (conf : Config) (draws : List (Shared ℕ × Shared ℕ)) (xs : List (Shared ℕ)) (bs : List Bool)
    → HasSp conf conf.n_parties
    → PrimeField.modpow conf.n_parties (p - 1) ≡ 1
    → AreInvertible conf draws
    → length draws ≡ 64
    → OpenTo conf xs bs
    → length bs ≡ 64
    → opened conf (unbounded_fan_in_and conf draws xs) ≡ bit (all_set bs)
unfolding unbounded_fan_in_and f_65_and_coefficient
unbounded_fan_in_and_lem conf draws xs bs sp fermat inv len h len_bs =
    fan_in_lem conf sp _ _ draws xs bs inv fermat (sym len) len h len_bs
    ∙ at_bits f_65_and_coefficient (λ n. if n == 64 then 1 else 0) bs and_table
        (omega (arith, count-le bs))
    ∙ sym (all_set-count bs ∙ rw len_bs refl)

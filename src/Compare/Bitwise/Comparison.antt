-- ===== src/Compare/Bitwise/Comparison.antt =====
-- `subHalfLessThan` and `comparisonTest` from end to end.
use mathlib.Core.List.{reverse, reverse-reverse}
use quick_mpc.Prelude.{
  ℕ, zero, suc, ◌+◌, ◌-◌, ◌*◌, ◌%◌, ◌<◌, ◌≡◌, refl, sym, ap, ◌∙◌, Bool, true, false, List, [], ◌∷◌,
  arith, ltb, length, get_or,
}
use quick_mpc.PrimeField
use quick_mpc.PrimeField.{p, l}
use quick_mpc.PrimeField.Ring.{sub_eq}
use quick_mpc.Share.{Config, Shared, add, sub, scale}
use quick_mpc.Share.PrimeValue.{prime_value, IsValid}
use quick_mpc.Share.Beaver.{add-IsValid, public_sub-IsValid}
use quick_mpc.Share.Recons.{HasSp}
use quick_mpc.Compare.{opened, zero_share, sum_from, bs_to_sc, pf_to_bs, half_less_than_end}
use quick_mpc.Compare.Bits.{bit, OpenTo}
use quick_mpc.Compare.Laws.{opened-lt, opened-add, opened-sub, opened-scale}
use quick_mpc.Compare.Equality.{AreValid, length-reverse_aux}
use quick_mpc.Compare.Numbers.{
  number, bits, number-bits, length-bits, bs_to_sc_lem, AreCanonical, pf_to_bs_lem,
}
use quick_mpc.Compare.Ends.{half_less_than_end_lem, comparison_end_lem}
use quick_mpc.Compare.Bitwise.{
  entry, Draws, HalfDraws, bitwise_less_than, half_less_than, comparison_test,
}
use quick_mpc.Compare.Bitwise.Tables.{opened-entry}
use quick_mpc.Compare.Bitwise.PrefixOr.{AreGood}
use quick_mpc.Compare.Bitwise.LessThan.{value, number-value, bitwise_less_than_lem}

-- What is drawn serves the protocol: the random bits are bits of a number of the field, the numbers
-- drawn are in the field, the pairs drawn are invertible.
pub record IsSound (conf : Config) (d : HalfDraws) : Type 0 where
  pub rs : List Bool
  pub rs_open : OpenTo conf d.r_shares rs
  pub rs_length : length rs ≡ 64
  pub rs_lt : number (reverse rs) < p
  pub rs_valid : AreValid d.r_shares
  pub bits_canonical : AreCanonical d.bit_draws
  pub bits_length : length d.bit_draws ≡ 64
  pub fan_ins_good : AreGood conf d.fan_ins

lookup-IsValid : (xs : List (Shared ℕ)) (i : ℕ) → AreValid xs → IsValid (entry xs i)
unfolding AreValid
lookup-IsValid [] i v = λ j. omega arith
lookup-IsValid (x ∷ xs) zero v = v.0
lookup-IsValid (x ∷ xs) (suc i) v = lookup-IsValid xs i v.1

sum_from-IsValid : (ret : Shared ℕ) (xs : List (Shared ℕ)) → IsValid ret → IsValid (sum_from ret xs)
unfolding sum_from
sum_from-IsValid ret [] v = v
sum_from-IsValid ret (x ∷ xs) v = sum_from-IsValid (add ret x) xs (add-IsValid ret x)

bitwise_less_than-IsValid :
    (conf : Config) (draws : Draws) (a_shares b_shares : List (Shared ℕ))
    → IsValid (bitwise_less_than conf draws a_shares b_shares)
unfolding bitwise_less_than
bitwise_less_than-IsValid conf draws a_shares b_shares =
    sum_from-IsValid zero_share _ (λ i. omega arith)

half_less_than-IsValid :
    (conf : Config) (d : HalfDraws) (a_share : Shared ℕ) → IsValid (half_less_than conf d a_share)
unfolding half_less_than half_less_than_end
half_less_than-IsValid conf d a_share = public_sub-IsValid conf 1 _

bit_parity : (v : ℕ) (b : Bool) → (2 * v + bit b) % 2 ≡ bit b
bit_parity v true = omega arith
bit_parity v false = omega arith

value_last : (n : ℕ) (h : ℕ → Bool) → value (suc n) h % 2 ≡ bit (h n)
unfolding value
value_last n h = bit_parity (value n h) (h n)

last_bit : (bs : List Bool) → length bs ≡ 64 → bit (get_or bs 63 false) ≡ number (reverse bs) % 2
last_bit bs len = rw (number-value bs, len) (sym (value_last 63 (λ i. get_or bs i false)))

-- `subHalfLessThan` opens to one when twice the shared number is below the order of the field
-- and to zero when it is not. The party `sp_id` is one of the parties, the number of parties
-- passes Fermat's test, and the draws are sound.
pub half_less_than_lem :
    (conf : Config) (d : HalfDraws) (a_share : Shared ℕ)
    → HasSp conf conf.n_parties
    → PrimeField.modpow conf.n_parties (p - 1) ≡ 1
    → IsSound conf d
    → opened conf (half_less_than conf d a_share) ≡ bit (ltb (2 * opened conf a_share) p)
unfolding half_less_than
half_less_than_lem conf d a_share sp fermat ok =
    let c = opened conf (add (scale a_share 2) (bs_to_sc d.r_shares)) in
    let r = number (reverse ok.rs) in
    let c_eq : c ≡ (2 * opened conf a_share + r) % p =
      rw
        (
          opened-add conf (scale a_share 2) (bs_to_sc d.r_shares),
          opened-scale conf a_share 2,
          bs_to_sc_lem conf d.r_shares ok.rs ok.rs_open,
        )
        (omega arith) in
    let c_bits = bits (length d.bit_draws) c in
    let c_number : number (reverse (reverse c_bits)) ≡ c =
      rw (reverse-reverse c_bits, ok.bits_length)
        (number-bits 64 c
          (omega (arith, opened-lt conf (add (scale a_share 2) (bs_to_sc d.r_shares))))) in
    let cr = bitwise_less_than conf d.fan_ins (pf_to_bs conf c d.bit_draws) d.r_shares in
    let cr_eq : opened conf cr ≡ bit (ltb c r) =
      bitwise_less_than_lem conf d.fan_ins (pf_to_bs conf c d.bit_draws) d.r_shares (reverse c_bits)
        ok.rs sp fermat ok.fan_ins_good (pf_to_bs_lem conf c d.bit_draws sp ok.bits_canonical)
        ok.rs_open
        (omega
          (arith, ok.bits_length, length-reverse_aux c_bits [], length-bits (length d.bit_draws) c))
        ok.rs_length
      ∙ rw c_number refl in
    half_less_than_end_lem conf c (opened conf a_share) r cr (entry d.r_shares (l - 1)) sp
      (bitwise_less_than-IsValid conf d.fan_ins _ _) (lookup-IsValid d.r_shares (l - 1) ok.rs_valid)
      (opened-lt conf a_share) ok.rs_lt c_eq cr_eq
      (opened-entry conf d.r_shares ok.rs 63 ok.rs_open ∙ last_bit ok.rs ok.rs_length)

-- The comparison protocol decides the order of two shared numbers: its result opens to one
-- when the first is less than the second and to zero when it is not. The party `sp_id` is one
-- of the parties, the number of parties passes Fermat's test, the second share is valid, and
-- the draws of the three runs of `subHalfLessThan` are sound.
pub comparison_test_lem :
    (conf : Config) (dw dx dy : HalfDraws) (a_share b_share : Shared ℕ)
    → HasSp conf conf.n_parties
    → PrimeField.modpow conf.n_parties (p - 1) ≡ 1
    → IsSound conf dw
    → IsSound conf dx
    → IsSound conf dy
    → IsValid b_share
    → opened conf (comparison_test conf dw dx dy a_share b_share)
      ≡ bit (ltb (opened conf a_share) (opened conf b_share))
unfolding comparison_test
comparison_test_lem conf dw dx dy a_share b_share sp fermat sw sx sy vb =
    comparison_end_lem conf (opened conf a_share) (opened conf b_share)
      (half_less_than conf dw a_share) (half_less_than conf dx b_share)
      (half_less_than conf dy (sub a_share b_share)) sp (half_less_than-IsValid conf dw a_share)
      (half_less_than-IsValid conf dx b_share)
      (half_less_than-IsValid conf dy (sub a_share b_share)) (opened-lt conf a_share)
      (opened-lt conf b_share) (half_less_than_lem conf dw a_share sp fermat sw)
      (half_less_than_lem conf dx b_share sp fermat sx)
      (half_less_than_lem conf dy (sub a_share b_share) sp fermat sy
        ∙ ap (λ (t : ℕ). bit (ltb (2 * t) p))
            (opened-sub conf a_share b_share vb
              ∙ sym (sub_eq _ _ (omega (arith, opened-lt conf b_share)))))

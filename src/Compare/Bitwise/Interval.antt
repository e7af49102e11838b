-- ===== src/Compare/Bitwise/Interval.antt =====
-- `intervalTest`: whether a shared number lies strictly between two public ones.
use mathlib.Core.List.{reverse, reverse-reverse}
use quick_mpc.Prelude.{
  ℕ, ◌+◌, ◌-◌, ◌*◌, ◌%◌, ◌≤◌, ◌<◌, ◌≡◌, ◌≢◌, refl, ap, ◌∙◌, inl, inr, ◌⊎◌, Bool, true, false, not,
  ◌&&◌, List, [], arith, ltb, leb, length, if◌then◌else◌, Bool-cases,
}
use quick_mpc.PrimeField
use quick_mpc.PrimeField.{p}
use quick_mpc.PrimeField.Ring.{sub-lt, add-lt}
use quick_mpc.Share.{Config, Shared, add, public_sub}
use quick_mpc.Share.PrimeValue.{prime_value, IsValid}
use quick_mpc.Share.Recons.{HasSp}
use quick_mpc.Compare.{times, opened, bs_to_sc, pf_to_bs}
use quick_mpc.Compare.Bits.{bit, OpenTo}
use quick_mpc.Compare.Laws.{opened-lt, opened-add, opened-times, opened-public_sub, times-IsValid}
use quick_mpc.Compare.Equality.{length-reverse_aux}
use quick_mpc.Compare.Numbers.{
  number, bits, number-bits, length-bits, bs_to_sc_lem, AreCanonical, pf_to_bs_lem,
}
use quick_mpc.Compare.Bitwise.{
  Draws, IntervalDraws, bitwise_less_than, interval_bounds, interval_test,
}
use quick_mpc.Compare.Bitwise.PrefixOr.{AreGood}
use quick_mpc.Compare.Bitwise.LessThan.{bitwise_less_than_lem}
use quick_mpc.Compare.Bitwise.Rows.{bits_product}

-- What is drawn serves the protocol.
pub record IsSoundInterval (conf : Config) (d : IntervalDraws) : Type 0 where
  pub rs : List Bool
  pub rs_open : OpenTo conf d.r_shares rs
  pub rs_length : length rs ≡ 64
  pub rs_lt : number (reverse rs) < p
  pub low_canonical : AreCanonical d.low_draws
  pub low_length : length d.low_draws ≡ 64
  pub high_canonical : AreCanonical d.high_draws
  pub high_length : length d.high_draws ≡ 64
  pub low_good : AreGood conf d.low_fan_ins
  pub high_good : AreGood conf d.high_fan_ins

-- A public number is decomposed and its bits are compared with shared ones.
module _ (conf : Config) (sp : HasSp conf conf.n_parties)
    (fermat : PrimeField.modpow conf.n_parties (p - 1) ≡ 1) (fan_ins : Draws)
    (good : AreGood conf fan_ins) (r_shares : List (Shared ℕ)) (rs : List Bool)
    (open_rs : OpenTo conf r_shares rs) (len_rs : length rs ≡ 64) (draws : List (ℕ × Shared ℕ))
    (canonical : AreCanonical draws) (len : length draws ≡ 64) where
  digits : (y : ℕ) → y < p → number (reverse (reverse (bits (length draws) y))) ≡ y
  digits y h = rw (reverse-reverse (bits (length draws) y), len) (number-bits 64 y (omega arith))

  digits-length : (y : ℕ) → length (reverse (bits (length draws) y)) ≡ 64
  digits-length y =
      omega
        (arith, len, length-reverse_aux (bits (length draws) y) [], length-bits (length draws) y)

  public_less :
      (y : ℕ)
      → y < p
      → opened conf (bitwise_less_than conf fan_ins (pf_to_bs conf y draws) r_shares)
        ≡ bit (ltb y (number (reverse rs)))
  public_less y h =
      bitwise_less_than_lem conf fan_ins (pf_to_bs conf y draws) r_shares
        (reverse (bits (length draws) y)) rs sp fermat good (pf_to_bs_lem conf y draws sp canonical)
        open_rs (digits-length y) len_rs
      ∙ rw (digits y h) refl

  less_public :
      (y : ℕ)
      → y < p
      → opened conf (bitwise_less_than conf fan_ins r_shares (pf_to_bs conf y draws))
        ≡ bit (ltb (number (reverse rs)) y)
  less_public y h =
      bitwise_less_than_lem conf fan_ins r_shares (pf_to_bs conf y draws) rs
        (reverse (bits (length draws) y)) sp fermat good open_rs
        (pf_to_bs_lem conf y draws sp canonical) len_rs (digits-length y)
      ∙ rw (digits y h) refl

-- Where the masked number falls between the bounds, above them and below them.
masked_inside :
    (c1 a r c2 c : ℕ)
    → a < p
    → r < p
    → c2 < p
    → c ≡ (a + r) % p
    → c1 < c
    → c < c2
    → c + 1 ≢ c2
    → not (
        ltb (((c + (p - c1)) % p + (p - 1)) % p) r
        && ltb r (((((c + 0) % p + (p - c2)) % p) + 1) % p))
      ≡ (ltb c1 a && ltb a c2)
masked_inside c1 a r c2 c ha hr h2 e l1 l2 n = ground arith

masked_above :
    (c1 a r c2 c : ℕ)
    → a < p
    → r < p
    → c1 < c2
    → c2 < p
    → c ≡ (a + r) % p
    → c2 ≤ c
    → (ltb ((c + (p - c2)) % p) r && ltb r ((c + (p - c1)) % p)) ≡ (ltb c1 a && ltb a c2)
masked_above c1 a r c2 c ha hr h12 h2 e le = ground arith

masked_below :
    (c1 a r c2 c : ℕ)
    → a < p
    → r < p
    → c1 < c2
    → c2 < p
    → c ≡ (a + r) % p
    → c < c1
    → (ltb (((c + 0) % p + (p - c2)) % p) r && ltb r (((c + 0) % p + (p - c1)) % p))
      ≡ (ltb c1 a && ltb a c2)
masked_below c1 a r c2 c ha hr h12 h2 e lt = ground arith

-- The two comparisons with the bounds decide the interval.
interval_bits :
    (c1 a r c2 c : ℕ)
    → a < p
    → r < p
    → c1 < c2
    → c2 < p
    → c ≡ (a + r) % p
    → c ≢ c1
    → c + 1 ≢ c2
    → let bounds = interval_bounds c1 c c2 in
      (if ltb c1 c && ltb c c2
        then not (ltb (bounds.0) r && ltb r (bounds.1))
        else (ltb (bounds.0) r && ltb r (bounds.1)))
      ≡ (ltb c1 a && ltb a c2)
unfolding interval_bounds PrimeField.add PrimeField.sub
interval_bits c1 a r c2 c ha hr h12 h2 e n1 n2 = elim (Bool-cases (ltb c1 c && ltb c c2)) [
  | inl inside ↦
      rw inside
        (masked_inside c1 a r c2 c ha hr h2 e (ground (arith, inside)) (ground (arith, inside)) n2)
  | inr outside ↦ rw outside (elim (Bool-cases (leb c2 c)) [
    | inl above ↦ rw above (masked_above c1 a r c2 c ha hr h12 h2 e (ground (arith, above)))
    | inr not_above ↦
        let below : leb c c1 ≡ true = ground (arith, outside, not_above) in
        rw (not_above, below) (masked_below c1 a r c2 c ha hr h12 h2 e (ground (arith, below)))
  ])
]

bounds-lt : (c1 c c2 : ℕ) → ((interval_bounds c1 c c2).0 < p) × ((interval_bounds c1 c c2).1 < p)
unfolding interval_bounds
bounds-lt c1 c c2 = elim (Bool-cases (ltb c1 c && ltb c c2)) [
  | inl inside ↦ rw inside (sub-lt _ _, add-lt _ _)
  | inr outside ↦ rw outside (elim (Bool-cases (leb c2 c)) [
    | inl above ↦ rw above (sub-lt _ _, sub-lt _ _)
    | inr not_above ↦ rw not_above (elim (Bool-cases (leb c c1)) [
      | inl below ↦ rw below (sub-lt _ _, sub-lt _ _)
      | inr neither ↦ rw neither (omega arith, omega arith)
    ])
  ])
]

complement : (b : Bool) → (1 + 18446744073709551556 * bit b) % p ≡ bit (not b)
complement true = refl
complement false = refl

choose :
    (conf : Config)
    → HasSp conf conf.n_parties
    → (x : Shared ℕ) (inside b : Bool) → IsValid x
    → opened conf x ≡ bit b
    → opened conf (if inside then public_sub conf 1 x else x) ≡ bit (if inside then not b else b)
choose conf sp x true b v e = opened-public_sub conf sp 1 x v ∙ rw e (complement b)
choose conf sp x false b v e = e

-- The bit to which the protocol's result opens, by the bounds.
decided : ℕ → ℕ → ℕ → ℕ → Bool
decided c1 c c2 r =
    let bounds = interval_bounds c1 c c2 in
    if ltb c1 c && ltb c c2
    then not (ltb (bounds.0) r && ltb r (bounds.1))
    else (ltb (bounds.0) r && ltb r (bounds.1))

module _ (conf : Config) (d : IntervalDraws) (sp : HasSp conf conf.n_parties)
    (fermat : PrimeField.modpow conf.n_parties (p - 1) ≡ 1) (ok : IsSoundInterval conf d) where
  masked :
      (a_share : Shared ℕ)
      → opened conf (add a_share (bs_to_sc d.r_shares))
        ≡ (opened conf a_share + number (reverse ok.rs)) % p
  masked a_share =
      rw
        (
          opened-add conf a_share (bs_to_sc d.r_shares),
          bs_to_sc_lem conf d.r_shares ok.rs ok.rs_open,
        )
        (omega arith)

  decided_lem :
      (c1 : ℕ) (a_share : Shared ℕ) (c2 : ℕ)
      → opened conf (interval_test conf d c1 a_share c2)
        ≡ bit (
            decided c1
              (opened conf (add a_share (bs_to_sc d.r_shares)))
              c2
              (number (reverse ok.rs)))
  unfolding interval_test decided
  decided_lem c1 a_share c2 =
      let c = opened conf (add a_share (bs_to_sc d.r_shares)) in
      let r = number (reverse ok.rs) in
      let bounds = interval_bounds c1 c c2 in
      let low =
        bitwise_less_than conf d.low_fan_ins (pf_to_bs conf (bounds.0) d.low_draws) d.r_shares in
      let high =
        bitwise_less_than conf d.high_fan_ins d.r_shares (pf_to_bs conf (bounds.1) d.high_draws) in
      let between : opened conf (times conf low high) ≡ bit (ltb (bounds.0) r && ltb r (bounds.1)) =
        rw
          (
            opened-times conf sp low high,
            public_less conf sp fermat d.low_fan_ins ok.low_good d.r_shares ok.rs ok.rs_open
                ok.rs_length d.low_draws ok.low_canonical ok.low_length (bounds.0)
                ((bounds-lt c1 c c2).0),
            less_public conf sp fermat d.high_fan_ins ok.high_good d.r_shares ok.rs ok.rs_open
                ok.rs_length d.high_draws ok.high_canonical ok.high_length (bounds.1)
                ((bounds-lt c1 c c2).1),
          )
          (bits_product (ltb (bounds.0) r) (ltb r (bounds.1))) in
      choose conf sp (times conf low high) (ltb c1 c && ltb c c2)
        (ltb (bounds.0) r && ltb r (bounds.1)) (times-IsValid conf low high) between

-- For public numbers `c1` less than `c2` below the order of the field, `intervalTest` opens to one
-- when the shared number is strictly between them and to zero when it is not, unless the masked
-- number that is opened is `c1` or the predecessor of `c2`. The party `sp_id` is one of the
-- parties, the number of parties passes Fermat's test, and the draws are sound.
pub interval_test_lem :
    (conf : Config) (d : IntervalDraws) (c1 : ℕ) (a_share : Shared ℕ) (c2 : ℕ)
    → HasSp conf conf.n_parties
    → PrimeField.modpow conf.n_parties (p - 1) ≡ 1
    → IsSoundInterval conf d
    → c1 < c2
    → c2 < p
    → opened conf (add a_share (bs_to_sc d.r_shares)) ≢ c1
    → opened conf (add a_share (bs_to_sc d.r_shares)) + 1 ≢ c2
    → opened conf (interval_test conf d c1 a_share c2)
      ≡ bit (ltb c1 (opened conf a_share) && ltb (opened conf a_share) c2)
unfolding decided
interval_test_lem conf d c1 a_share c2 sp fermat ok h12 h2 n1 n2 =
    decided_lem conf d sp fermat ok c1 a_share c2
    ∙ ap bit (
        interval_bits c1 (opened conf a_share) (number (reverse ok.rs)) c2
          (opened conf (add a_share (bs_to_sc d.r_shares))) (opened-lt conf a_share) ok.rs_lt h12 h2
          (masked conf d sp fermat ok a_share) n1 n2)

edge_bits :
    (c1 c c2 r : ℕ)
    → c1 < c2
    → c2 < p
    → (c ≡ c1) ⊎ ((c + 1 ≡ c2) × (c1 < c))
    → decided c1 c c2 r ≡ ltb c1 c
unfolding decided interval_bounds PrimeField.add PrimeField.sub
edge_bits c1 c c2 r h12 h2 (inl e) = ground (arith, e)
edge_bits c1 c c2 r h12 h2 (inr e) = ground (arith, e)

-- At the two edges the result of `intervalTest` does not depend on the shared number: it opens to
-- zero when the masked number is `c1`, and to one when it is the predecessor of `c2` and more than
-- `c1`. The public numbers are ordered and below the order of the field, the party `sp_id` is one of
-- the parties, the number of parties passes Fermat's test, and the draws are sound.
pub interval_test-edges :
    (conf : Config) (d : IntervalDraws) (c1 : ℕ) (a_share : Shared ℕ) (c2 : ℕ)
    → let c = opened conf (add a_share (bs_to_sc d.r_shares)) in
      HasSp conf conf.n_parties
      → PrimeField.modpow conf.n_parties (p - 1) ≡ 1
      → IsSoundInterval conf d
      → c1 < c2
      → c2 < p
      → (c ≡ c1) ⊎ ((c + 1 ≡ c2) × (c1 < c))
      → opened conf (interval_test conf d c1 a_share c2) ≡ bit (ltb c1 c)
interval_test-edges conf d c1 a_share c2 sp fermat ok h12 h2 edge =
    decided_lem conf d sp fermat ok c1 a_share c2
    ∙ ap bit (
        edge_bits c1 (opened conf (add a_share (bs_to_sc d.r_shares))) c2 (number (reverse ok.rs))
          h12 h2 edge)

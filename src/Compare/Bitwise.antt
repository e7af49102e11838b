-- ===== src/Compare/Bitwise.antt =====
-- Compare.cpp: the protocols on vectors of shared bits, and the comparison tests built on them.
-- A fan-in protocol draws its own random shares: `draws i` are those of the call with number `i`.
pub mod Disjunction
pub mod Tables
pub mod Rows
pub mod PrefixOr
pub mod LessThan
pub mod Comparison
pub mod Interval
use quick_mpc.Prelude.{
  ℕ, zero, suc, ◌+◌, ◌-◌, ◌*◌, ◌/◌, ◌%◌, Bool, true, false, ◌&&◌, List, [], ◌∷◌, ltb, leb, ◌==◌,
  if◌then◌else◌, length, get_or, table,
}
use quick_mpc.PrimeField
use quick_mpc.PrimeField.{p, l, lambda}
use quick_mpc.Share.{Config, Shared, add, sub, scale, public_sub}
use quick_mpc.Share.PrimeValue.{prime_value}
use quick_mpc.Compare.{
  times, opened, zero_share, sum_from, unbounded_fan_in_or, bs_to_sc, pf_to_bs, half_less_than_end,
  comparison_end,
}

-- The index operator of a vector.
abbrev pub entry : List (Shared ℕ) → ℕ → Shared ℕ
entry xs i = get_or xs i zero_share

abbrev pub Draws : Type 0
Draws = ℕ → List (Shared ℕ × Shared ℕ)

-- Row `i` of the vector, as step 1 of `subPrefixOr` copies and resizes it.
pub row : List (Shared ℕ) → ℕ → List (Shared ℕ)
row a_shares i =
    table l 0 (λ j. if ltb j lambda then entry a_shares (i * lambda + j) else zero_share)

-- `subPadding0`.
pub padding0 : List (Shared ℕ) → ℕ → List (Shared ℕ)
padding0 a_shares start_index =
    table l 0 (λ i. if ltb i start_index then entry a_shares i else zero_share)

-- Differences of neighbours, the first entry as it is.
pub steps : ℕ → Shared ℕ → List (Shared ℕ) → List (Shared ℕ)
steps n first ys = table n 0 (λ i. if i == 0 then first else sub (entry ys i) (entry ys (i - 1)))

-- Step 4 of `subPrefixOr`.
pub chosen_row : Config → List (Shared ℕ) → List (Shared ℕ) → List (Shared ℕ)
chosen_row conf f_shares a_shares = table lambda 0 (λ j.
    sum_from zero_share
      (table lambda 0 (λ i. times conf (entry f_shares i) (entry a_shares (lambda * i + j)))))

-- Step 1: the disjunction of each row.
pub row_ors : Config → Draws → List (Shared ℕ) → List (Shared ℕ)
row_ors conf draws a_shares =
    table lambda 0 (λ i. unbounded_fan_in_or conf (draws i) (row a_shares i))

-- Steps 2 and 5: the disjunction of each beginning. The calls are numbered from `k` on.
pub beginning_ors : Config → Draws → ℕ → List (Shared ℕ) → List (Shared ℕ)
beginning_ors conf draws k xs =
    table lambda 0 (λ i. unbounded_fan_in_or conf (draws (k + i)) (padding0 xs (i + 1)))

-- `subPrefixOr`.
pub prefix_or : Config → Draws → List (Shared ℕ) → List (Shared ℕ)
prefix_or conf draws a_shares =
    let x_shares = row_ors conf draws a_shares in
    let y_shares = beginning_ors conf draws 8 x_shares in
    let f_shares = steps lambda (entry x_shares 0) y_shares in
    let bi0_shares = beginning_ors conf draws 16 (chosen_row conf f_shares a_shares) in
    let s_shares = table lambda 0 (λ i. sub (entry y_shares i) (entry f_shares i)) in
    table l 0 (λ index.
      add (times conf (entry f_shares (index / lambda)) (entry bi0_shares (index % lambda)))
        (entry s_shares (index / lambda)))

-- `subBitwiseLessThan`.
pub bitwise_less_than : Config → Draws → List (Shared ℕ) → List (Shared ℕ) → Shared ℕ
bitwise_less_than conf draws a_shares b_shares =
    let c_shares = table l 0 (λ i.
      sub (add (entry a_shares i) (entry b_shares i))
        (scale (times conf (entry a_shares i) (entry b_shares i)) 2)) in
    let d_shares = prefix_or conf draws c_shares in
    let e_shares = steps l (entry d_shares 0) d_shares in
    sum_from zero_share (table l 0 (λ i. times conf (entry e_shares i) (entry b_shares i)))

-- What one run of `subHalfLessThan` draws: random bits, the draws of `PFtoBS`, those of the
-- fan-in protocols.
pub record HalfDraws : Type 0 where
  pub r_shares : List (Shared ℕ)
  pub bit_draws : List (ℕ × Shared ℕ)
  pub fan_ins : Draws

-- `subHalfLessThan`.
pub half_less_than : Config → HalfDraws → Shared ℕ → Shared ℕ
half_less_than conf d a_share =
    let c = opened conf (add (scale a_share 2) (bs_to_sc d.r_shares)) in
    let cr = bitwise_less_than conf d.fan_ins (pf_to_bs conf c d.bit_draws) d.r_shares in
    half_less_than_end conf c cr (entry d.r_shares (l - 1))

-- `comparisonTest`.
pub comparison_test : Config → HalfDraws → HalfDraws → HalfDraws → Shared ℕ → Shared ℕ → Shared ℕ
comparison_test conf dw dx dy a_share b_share =
    comparison_end conf (half_less_than conf dw a_share) (half_less_than conf dx b_share)
      (half_less_than conf dy (sub a_share b_share))

-- What one run of `intervalTest` draws.
pub record IntervalDraws : Type 0 where
  pub r_shares : List (Shared ℕ)
  pub low_draws : List (ℕ × Shared ℕ)
  pub high_draws : List (ℕ × Shared ℕ)
  pub low_fan_ins : Draws
  pub high_fan_ins : Draws

-- The bounds `r_low` and `r_high` of `intervalTest`. The order of the field is converted to zero.
pub interval_bounds : ℕ → ℕ → ℕ → ℕ × ℕ
interval_bounds c1 c c2 =
    if ltb c1 c && ltb c c2
    then (
      PrimeField.sub (PrimeField.sub c c1) 1,
      PrimeField.add (PrimeField.sub (PrimeField.add c 0) c2) 1,
    )
    else if leb c2 c
    then (PrimeField.sub c c2, PrimeField.sub c c1)
    else if leb c c1
    then (PrimeField.sub (PrimeField.add c 0) c2, PrimeField.sub (PrimeField.add c 0) c1)
    else (0, 0)

-- `intervalTest`.
pub interval_test : Config → IntervalDraws → ℕ → Shared ℕ → ℕ → Shared ℕ
interval_test conf d c1 a_share c2 =
    let c = opened conf (add a_share (bs_to_sc d.r_shares)) in
    let bounds = interval_bounds c1 c c2 in
    let r_lows = pf_to_bs conf (bounds.0) d.low_draws in
    let r_highs = pf_to_bs conf (bounds.1) d.high_draws in
    let between =
      times conf (bitwise_less_than conf d.low_fan_ins r_lows d.r_shares)
        (bitwise_less_than conf d.high_fan_ins d.r_shares r_highs) in
    if ltb c1 c && ltb c c2 then public_sub conf 1 between else between

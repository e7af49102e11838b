-- ===== src/Compare/Bitwise/PrefixOr.antt =====
-- `subPrefixOr`, step by step.
use quick_mpc.Prelude.{
  ℕ, ◌+◌, ◌-◌, ◌*◌, ◌/◌, ◌%◌, ◌≤◌, ◌<◌, ◌≡◌, ap, ◌∙◌, inl, inr, Bool, ◌&&◌, ◌||◌, List, arith, ◌==◌,
  if◌then◌else◌, length, Bool-cases, table, get_or-loop,
}
use quick_mpc.PrimeField
use quick_mpc.PrimeField.{p, l, lambda}
use quick_mpc.Share.{Config, Shared, add, sub}
use quick_mpc.Share.PrimeValue.{prime_value, IsValid}
use quick_mpc.Share.Beaver.{add-IsValid, sub-IsValid}
use quick_mpc.Share.Recons.{HasSp}
use quick_mpc.Compare.{times, opened, zero_share, sum_from, unbounded_fan_in_or}
use quick_mpc.Compare.Bits.{bit}
use quick_mpc.Compare.FanIn.{AreInvertible, unbounded_fan_in_or-IsValid}
use quick_mpc.Compare.Laws.{opened-add, opened-sub, opened-times, opened_zero}
use quick_mpc.Compare.Bitwise.{
  entry, Draws, row, padding0, steps, chosen_row, row_ors, beginning_ors, prefix_or,
}
use quick_mpc.Compare.Bitwise.Disjunction.{any_below, is_first, first_unique_and}
use quick_mpc.Compare.Bitwise.Tables.{
  total-bits, entry-IsValid, opened-sum_table, steps_lem, or-guarded,
}
use quick_mpc.Compare.Bitwise.Rows.{
  row_bits, row_any, chosen, bits_product, reduced_bit, any_below_next, entry_bits, two_levels,
}

-- The 24 calls of the fan-in protocol each draw 64 pairs of invertible random shares.
unfoldable pub AreGood : Config → Draws → Type 0
AreGood conf draws = (k : ℕ) → k < 24 → AreInvertible conf (draws k) × (length (draws k) ≡ 64)

-- The shares open to the bits `b` below `n`.
abbrev pub OpenBelow : Config → ℕ → List (Shared ℕ) → (ℕ → Bool) → Type 0
OpenBelow conf n xs b = (i : ℕ) → i < n → opened conf (entry xs i) ≡ bit (b i)

steps-IsValid :
    (n : ℕ) (first : Shared ℕ) (ys : List (Shared ℕ)) (i : ℕ)
    → IsValid first
    → i < n
    → IsValid (entry (steps n first ys) i)
unfolding steps
steps-IsValid n first ys i v lt =
    rw
      (get_or-loop n i (λ t. if t == 0 then first else sub (entry ys t) (entry ys (t - 1)))
        zero_share lt)
      (elim (Bool-cases (i == 0)) [ inl here ↦ rw here v | inr later ↦ rw later (sub-IsValid _ _) ])

module _ (conf : Config) (sp : HasSp conf conf.n_parties)
    (fermat : PrimeField.modpow conf.n_parties (p - 1) ≡ 1) (draws : Draws)
    (good : AreGood conf draws) where
  row_ors_lem :
      (a_shares : List (Shared ℕ)) (b : ℕ → Bool)
      → OpenBelow conf 64 a_shares b
      → OpenBelow conf 8 (row_ors conf draws a_shares) (row_any b)
  unfolding row_ors row AreGood
  row_ors_lem a_shares b e i lt =
      rw (get_or-loop 8 i (λ i. unbounded_fan_in_or conf (draws i) (row a_shares i)) zero_share lt)
        (or-guarded conf sp fermat (draws i) 8 (λ j. entry a_shares (i * 8 + j)) (row_bits b i)
          ((good i (omega arith)).0) ((good i (omega arith)).1) (omega arith)
          (λ j below. e (i * 8 + j) (omega arith)))

  row_ors-IsValid : (a_shares : List (Shared ℕ)) → IsValid (entry (row_ors conf draws a_shares) 0)
  unfolding row_ors
  row_ors-IsValid a_shares =
      rw
        (get_or-loop 8 0 (λ i. unbounded_fan_in_or conf (draws i) (row a_shares i)) zero_share
          (omega arith))
        (unbounded_fan_in_or-IsValid conf _ _)

  beginning_ors_lem :
      (k : ℕ) (xs : List (Shared ℕ)) (b : ℕ → Bool)
      → k + 8 ≤ 24
      → OpenBelow conf 8 xs b
      → OpenBelow conf 8 (beginning_ors conf draws k xs) (λ i. any_below (i + 1) b)
  unfolding beginning_ors padding0 AreGood
  beginning_ors_lem k xs b le e i lt =
      rw
        (get_or-loop 8 i (λ i. unbounded_fan_in_or conf (draws (k + i)) (padding0 xs (i + 1)))
          zero_share lt)
        (or-guarded conf sp fermat (draws (k + i)) (i + 1) (entry xs) b
          ((good (k + i) (omega arith)).0) ((good (k + i) (omega arith)).1) (omega arith)
          (λ j below. e j (omega arith)))

  beginning_ors-IsValid :
      (k : ℕ) (xs : List (Shared ℕ)) (i : ℕ)
      → i < 8
      → IsValid (entry (beginning_ors conf draws k xs) i)
  unfolding beginning_ors
  beginning_ors-IsValid k xs i lt =
      rw
        (get_or-loop 8 i (λ i. unbounded_fan_in_or conf (draws (k + i)) (padding0 xs (i + 1)))
          zero_share lt)
        (unbounded_fan_in_or-IsValid conf _ _)

  chosen_row_lem :
      (f_shares a_shares : List (Shared ℕ)) (b : ℕ → Bool)
      → OpenBelow conf 64 a_shares b
      → OpenBelow conf 8 f_shares (is_first (row_any b))
      → OpenBelow conf 8 (chosen_row conf f_shares a_shares) (chosen b)
  unfolding chosen_row chosen
  chosen_row_lem f_shares a_shares b e f j lt =
      let g =
        (λ (j : ℕ). λ (i : ℕ). times conf (entry f_shares i) (entry a_shares (lambda * i + j))) in
      let m = (λ (i : ℕ). is_first (row_any b) i && b (8 * i + j)) in
      let sum =
        total-bits 8 (λ i. opened conf (g j i)) m
          (λ i below.
            opened-times conf sp (entry f_shares i) (entry a_shares (8 * i + j))
            ∙ rw (f i below, e (8 * i + j) (omega arith))
                (bits_product (is_first (row_any b) i) (b (8 * i + j))))
          (λ i k set ne. first_unique_and (row_any b) (λ i. b (8 * i + j)) i k set ne) in
      rw
        (
          get_or-loop 8 j (λ j. sum_from zero_share (table 8 0 (g j))) zero_share lt,
          opened-sum_table conf zero_share 8 0 (g j),
          opened_zero conf,
        )
        (ap (λ (t : ℕ). (0 + t) % p) sum ∙ reduced_bit (chosen b j))

  -- The result of the protocol at an index: the row that holds it, and its place there.
  prefix_or_entry :
      (a_shares : List (Shared ℕ)) (b : ℕ → Bool)
      → OpenBelow conf 64 a_shares b
      → OpenBelow conf 64 (prefix_or conf draws a_shares) (λ index.
        (is_first (row_any b) (index / 8) && any_below (index % 8 + 1) (chosen b))
        || any_below (index / 8) (row_any b))
  unfolding prefix_or is_first
  prefix_or_entry a_shares b e index lt =
      let xs = row_ors conf draws a_shares in
      let ys = beginning_ors conf draws 8 xs in
      let fs = steps lambda (entry xs 0) ys in
      let bs = beginning_ors conf draws 16 (chosen_row conf fs a_shares) in
      let ss = table lambda 0 (λ i. sub (entry ys i) (entry fs i)) in
      let x_ok = row_ors_lem a_shares b e in
      let y_ok = beginning_ors_lem 8 xs (row_any b) (omega arith) x_ok in
      let f_ok : OpenBelow conf 8 fs (is_first (row_any b)) = (λ i below.
        steps_lem conf 8 (entry xs 0) ys (row_any b) i (beginning_ors-IsValid 8 xs)
          (x_ok 0 (omega arith)) y_ok below) in
      let b_ok =
        beginning_ors_lem 16 (chosen_row conf fs a_shares) (chosen b) (omega arith)
          (chosen_row_lem fs a_shares b e f_ok) in
      let i = index / 8 in
      let j = index % 8 in
      rw
        (
          get_or-loop 64 index
              (λ index.
                add (times conf (entry fs (index / lambda)) (entry bs (index % lambda)))
                  (entry ss (index / lambda)))
              zero_share lt,
          opened-add conf (times conf (entry fs i) (entry bs j)) (entry ss i),
          opened-times conf sp (entry fs i) (entry bs j),
          get_or-loop 8 i (λ i. sub (entry ys i) (entry fs i)) zero_share (omega arith),
          opened-sub conf (entry ys i) (entry fs i)
              (steps-IsValid 8 (entry xs 0) ys i (row_ors-IsValid a_shares) (omega arith)),
          y_ok i (omega arith),
          f_ok i (omega arith),
          b_ok j (omega arith),
          any_below_next i (row_any b),
        )
        (entry_bits (row_any b i) (any_below i (row_any b)) (any_below (j + 1) (chosen b)))

-- For shares that open to 64 bits, entry `i` of the result of `subPrefixOr` opens to the
-- disjunction of the bits up to `i`. The party `sp_id` is one of the parties, the number of
-- parties passes Fermat's test, and the draws of the 24 fan-in calls are 64 invertible pairs
-- each.
pub prefix_or_lem :
    (conf : Config) (draws : Draws) (a_shares : List (Shared ℕ)) (b : ℕ → Bool)
    → HasSp conf conf.n_parties
    → PrimeField.modpow conf.n_parties (p - 1) ≡ 1
    → AreGood conf draws
    → OpenBelow conf 64 a_shares b
    → OpenBelow conf 64 (prefix_or conf draws a_shares) (λ i. any_below (i + 1) b)
prefix_or_lem conf draws a_shares b sp fermat good e i lt =
    prefix_or_entry conf sp fermat draws good a_shares b e i lt ∙ ap bit (two_levels b i lt)

pub prefix_or-IsValid :
    (conf : Config) (draws : Draws) (a_shares : List (Shared ℕ)) (i : ℕ)
    → IsValid (entry (prefix_or conf draws a_shares) i)
unfolding prefix_or
prefix_or-IsValid conf draws a_shares i =
    let xs = row_ors conf draws a_shares in
    let ys = beginning_ors conf draws 8 xs in
    let fs = steps lambda (entry xs 0) ys in
    let bs = beginning_ors conf draws 16 (chosen_row conf fs a_shares) in
    let ss = table lambda 0 (λ i. sub (entry ys i) (entry fs i)) in
    entry-IsValid 64 0
      (λ index.
        add (times conf (entry fs (index / lambda)) (entry bs (index % lambda)))
          (entry ss (index / lambda)))
      i
      (λ k.
        add-IsValid (times conf (entry fs (k / lambda)) (entry bs (k % lambda)))
          (entry ss (k / lambda)))

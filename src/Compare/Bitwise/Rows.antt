-- ===== src/Compare/Bitwise/Rows.antt =====
-- The two levels of `subPrefixOr` on bits: rows of eight, and the first row in which a bit is set.
use quick_mpc.Prelude.{
  ℕ, suc, ◌+◌, ◌*◌, ◌/◌, ◌%◌, ◌<◌, ◌≡◌, refl, sym, ap, ◌∙◌, inl, inr, Bool, true, false, not, ◌&&◌,
  ◌||◌, arith, Bool-cases,
}
use quick_mpc.PrimeField.{p}
use quick_mpc.Share.PrimeValue.{prime_value}
use quick_mpc.Compare.Bits.{bit}
use quick_mpc.Compare.Bitwise.Disjunction.{
  any_below, is_first, any_below-cong, any_below-add, any_below-rows, any_below-false,
  any_below-none, any_below-only, first_unique,
}

abbrev pub row_bits : (ℕ → Bool) → ℕ → ℕ → Bool
row_bits b i j = b (i * 8 + j)

abbrev pub row_any : (ℕ → Bool) → ℕ → Bool
row_any b i = any_below 8 (row_bits b i)

-- Bit `j` of the first row in which a bit is set.
unfoldable pub chosen : (ℕ → Bool) → ℕ → Bool
chosen b j = any_below 8 (λ i. is_first (row_any b) i && b (8 * i + j))

pub bits_product : (f a : Bool) → bit f * bit a % p ≡ bit (f && a)
bits_product true true = refl
bits_product true false = refl
bits_product false true = refl
bits_product false false = refl

pub reduced_bit : (b : Bool) → (0 + bit b) % p ≡ bit b
reduced_bit true = refl
reduced_bit false = refl

pub any_below_next : (i : ℕ) (h : ℕ → Bool) → any_below (i + 1) h ≡ (any_below i h || h i)
unfolding any_below
any_below_next i h = let e : i + 1 ≡ suc i = omega arith in rw e refl

pub entry_bits :
    (x before q : Bool)
    → (bit (x && not before) * bit q % p
          + (bit (before || x) + 18446744073709551556 * bit (x && not before)) % p)
        % p
      ≡ bit (((x && not before) && q) || before)
entry_bits true true true = refl
entry_bits true true false = refl
entry_bits true false true = refl
entry_bits true false false = refl
entry_bits false true true = refl
entry_bits false true false = refl
entry_bits false false true = refl
entry_bits false false false = refl

or_false : (b : Bool) → (b || false) ≡ b
or_false true = refl
or_false false = refl

chosen_at :
    (b : ℕ → Bool) (i t : ℕ) → is_first (row_any b) i ≡ true → i < 8 → chosen b t ≡ b (i * 8 + t)
unfolding chosen
chosen_at b i t first lt =
    any_below-only 8 (λ k. is_first (row_any b) k && b (8 * k + t)) i lt
      (λ k below ne. let other = first_unique (row_any b) i k first ne in rw other refl)
    ∙ rw first (ap b (omega arith))

-- Row by row: what stands at an index is the disjunction up to it.
pub two_levels :
    (b : ℕ → Bool) (index : ℕ)
    → index < 64
    → ((is_first (row_any b) (index / 8) && any_below (index % 8 + 1) (chosen b))
        || any_below (index / 8) (row_any b))
      ≡ any_below (index + 1) b
unfolding is_first
two_levels b index lt =
    let i = index / 8 in
    let j = index % 8 in
    let split : index + 1 ≡ i * 8 + (j + 1) = omega arith in
    rw (split, any_below-add (i * 8) (j + 1) b, any_below-rows i b)
      (elim (Bool-cases (any_below i (row_any b))) [
        | inl before ↦ rw before (ground arith)
        | inr none_before ↦ rw none_before (elim (Bool-cases (row_any b i)) [
          | inl here ↦ rw here (
              or_false (any_below (j + 1) (chosen b))
              ∙ any_below-cong (j + 1) (chosen b) (row_bits b i)
                  (λ t below. chosen_at b i t (rw (here, none_before) refl) (omega arith)))
          | inr not_here ↦ rw not_here (
              sym (
                any_below-none (j + 1) (row_bits b i)
                  (λ t below. any_below-false 8 (row_bits b i) t not_here (omega arith))))
        ])
      ])

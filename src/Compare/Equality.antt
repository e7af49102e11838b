-- ===== src/Compare/Equality.antt =====
-- `equalityTest`: two shared numbers are compared by the bits of their masked difference.
use native.Mathlib.Nat.{pow-suc}
use mathlib.Core.List.{reverse, reverse_aux}
use quick_mpc.Prelude.{
  ℕ, ◌+◌, ◌-◌, ◌*◌, ◌/◌, ◌%◌, ◌^◌, ◌<◌, ◌≡◌, refl, ap, ◌∙◌, inl, inr, Bool, true, false, ◌&&◌, List,
  [], ◌∷◌, arith, ◌==◌, if◌then◌else◌, length, Bool-cases,
}
use quick_mpc.PrimeField
use quick_mpc.PrimeField.{p}
use quick_mpc.Share.{Config, Shared, add, sub}
use quick_mpc.Share.PrimeValue.{prime_value, IsValid}
use quick_mpc.Share.Recons.{HasSp}
use quick_mpc.Compare.{opened, bs_to_sc, equal_bits, equality_test}
use quick_mpc.Compare.Bits.{bit, OpenTo, all_set}
use quick_mpc.Compare.FanIn.{AreInvertible, unbounded_fan_in_and_lem}
use quick_mpc.Compare.Numbers.{number, OpenTo-reverse, bs_to_sc_lem}
use quick_mpc.Compare.Laws.{opened-lt, opened-add, opened-sub, opened-public_sub}

unfoldable pub AreValid : List (Shared ℕ) → Type 0
AreValid [] = Unit {0}
AreValid (x ∷ xs) = IsValid x × AreValid xs

AreValid-reverse_aux :
    (xs ys : List (Shared ℕ)) → AreValid xs → AreValid ys → AreValid (reverse_aux xs ys)
unfolding AreValid
AreValid-reverse_aux [] ys h k = k
AreValid-reverse_aux (x ∷ xs) ys h k = AreValid-reverse_aux xs (x ∷ ys) h.1 (h.0, k)

AreValid-reverse : (xs : List (Shared ℕ)) → AreValid xs → AreValid (reverse xs)
unfolding AreValid
AreValid-reverse xs h = AreValid-reverse_aux xs [] h tt

-- Bit by bit, the lowest first: does the bit agree with that of the number?
agree : ℕ → List Bool → List Bool
agree c [] = []
agree c (b ∷ bs) = (if c % 2 == 1 then b else if b then false else true) ∷ agree (c / 2) bs

length-agree : (c : ℕ) (bs : List Bool) → length (agree c bs) ≡ length bs
unfolding agree
length-agree c [] = refl
length-agree c (b ∷ bs) = omega (arith, length-agree (c / 2) bs)

all_set-agree :
    (c : ℕ) (bs : List Bool) → c < 2 ^ length bs → all_set (agree c bs) ≡ (c == number bs)
unfolding agree all_set number
all_set-agree c [] h = ground arith
all_set-agree c (true ∷ bs) h =
    let rest = all_set-agree (c / 2) bs (omega (arith, pow-suc 2 (length bs))) in
    ground (arith, rest)
all_set-agree c (false ∷ bs) h =
    let rest = all_set-agree (c / 2) bs (omega (arith, pow-suc 2 (length bs))) in
    ground (arith, rest)

pub length-reverse_aux : (xs ys : List Bool) → length (reverse_aux xs ys) ≡ length xs + length ys
length-reverse_aux [] ys = omega arith
length-reverse_aux (x ∷ xs) ys = omega (arith, length-reverse_aux xs (x ∷ ys))

and_true : (b : Bool) → (b && true) ≡ b
and_true true = refl
and_true false = refl

complement : (b : Bool) → (1 + 18446744073709551556 * bit b) % p ≡ bit (if b then false else true)
complement true = refl
complement false = refl

-- Adding a mask to a difference modulo `p` gives the mask exactly when the difference is zero.
masked_equal :
    (a b r : ℕ) → a < p → b < p → r < p → ((a + 18446744073709551556 * b + r) % p == r) ≡ (a == b)
masked_equal a b r ha hb hr = ground arith

all_set-reverse_aux : (xs ys : List Bool) → all_set (reverse_aux xs ys) ≡ (all_set xs && all_set ys)
unfolding all_set
all_set-reverse_aux [] ys = refl
all_set-reverse_aux (x ∷ xs) ys = ground (arith, all_set-reverse_aux xs (x ∷ ys))

module _ (conf : Config) (sp : HasSp conf conf.n_parties) where
  equal_bits_lem :
      (c : ℕ) (xs : List (Shared ℕ)) (bs : List Bool)
      → AreValid xs
      → OpenTo conf xs bs
      → OpenTo conf (equal_bits conf c xs) (agree c bs)
  unfolding equal_bits agree OpenTo AreValid
  equal_bits_lem c [] [] v h = tt
  equal_bits_lem c [] (b ∷ bs) v h = absurd h
  equal_bits_lem c (x ∷ xs) [] v h = absurd h
  equal_bits_lem c (x ∷ xs) (b ∷ bs) v h = (
    elim (Bool-cases (c % 2 == 1)) [
      | inl odd ↦ rw odd (h.0)
      | inr even ↦ rw even (opened-public_sub conf sp 1 x (v.0) ∙ rw (h.0) (complement b))
    ],
    equal_bits_lem (c / 2) xs bs v.1 h.1,
  )

-- `equalityTest` opens to one when the two shared numbers are equal and to zero when they are
-- not, where the 64 random bits that mask their difference stand for a number of the field.
-- The shares of the bits and the second share are valid, the party `sp_id` is one of the
-- parties, and the number of parties and the products of the 64 pairs of random shares pass
-- Fermat's test.
pub equality_test_lem :
    (conf : Config) (draws : List (Shared ℕ × Shared ℕ)) (r_shares : List (Shared ℕ))
    (rs : List Bool) (a b : Shared ℕ)
    → HasSp conf conf.n_parties
    → PrimeField.modpow conf.n_parties (p - 1) ≡ 1
    → AreInvertible conf draws
    → length draws ≡ 64
    → AreValid r_shares
    → OpenTo conf r_shares rs
    → length rs ≡ 64
    → number (reverse rs) < p
    → IsValid b
    → opened conf (equality_test conf draws r_shares a b) ≡ bit (opened conf a == opened conf b)
unfolding equality_test all_set
equality_test_lem conf draws r_shares rs a b sp fermat inv len v h len_rs small vb =
    let c = opened conf (add (sub a b) (bs_to_sc r_shares)) in
    let r = number (reverse rs) in
    let r_len : length (reverse rs) ≡ 64 = omega (arith, length-reverse_aux rs []) in
    let matches =
      equal_bits_lem conf sp c (reverse r_shares) (reverse rs) (AreValid-reverse r_shares v)
        (OpenTo-reverse conf r_shares rs h) in
    let c_eq : c ≡ (opened conf a + 18446744073709551556 * opened conf b + r) % p =
      rw
        (
          opened-add conf (sub a b) (bs_to_sc r_shares),
          opened-sub conf a b vb,
          bs_to_sc_lem conf r_shares rs h,
        )
        (omega arith) in
    let below : c < 2 ^ length (reverse rs) =
      rw r_len (omega (arith, opened-lt conf (add (sub a b) (bs_to_sc r_shares)))) in
    unbounded_fan_in_and_lem conf draws _ (reverse (agree c (reverse rs))) sp fermat inv len
      (OpenTo-reverse conf _ _ matches)
      (omega (arith, length-reverse_aux (agree c (reverse rs)) [], length-agree c (reverse rs)))
    ∙ ap bit (
        all_set-reverse_aux (agree c (reverse rs)) []
        ∙ and_true (all_set (agree c (reverse rs)))
        ∙ all_set-agree c (reverse rs) below
        ∙ ap (λ (t : ℕ). t == r) c_eq
        ∙ masked_equal (opened conf a) (opened conf b) r (opened-lt conf a) (opened-lt conf b)
            small)

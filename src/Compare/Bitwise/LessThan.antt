-- ===== src/Compare/Bitwise/LessThan.antt =====
-- `subBitwiseLessThan`: the first bit in which two numbers differ decides.
use mathlib.Core.List.{reverse, reverse_aux}
use quick_mpc.Prelude.{
  ℕ, zero, suc, ◌+◌, ◌-◌, ◌*◌, ◌%◌, ◌<◌, ◌≡◌, refl, ap, ◌∙◌, inl, inr, Bool, true, false, not, ◌&&◌,
  List, [], ◌∷◌, arith, ltb, ◌==◌, if◌then◌else◌, length, Bool-cases, table, get_or, get_or-loop,
}
use quick_mpc.PrimeField
use quick_mpc.PrimeField.{p, l, lambda}
use quick_mpc.Share.{Config, Shared, add, sub, scale}
use quick_mpc.Share.PrimeValue.{prime_value}
use quick_mpc.Share.Beaver.{scale-IsValid}
use quick_mpc.Share.Recons.{HasSp}
use quick_mpc.Compare.{times, opened, zero_share}
use quick_mpc.Compare.Bits.{bit, OpenTo}
use quick_mpc.Compare.Laws.{opened-add, opened-sub, opened-scale, opened-times, opened_zero}
use quick_mpc.Compare.Numbers.{number}
use quick_mpc.Compare.Bitwise.{entry, Draws, steps, prefix_or, bitwise_less_than}
use quick_mpc.Compare.Bitwise.Disjunction.{any_below, is_first, first_unique_and}
use quick_mpc.Compare.Bitwise.Tables.{opened-entry, total-bits, opened-sum_table, steps_lem}
use quick_mpc.Compare.Bitwise.Rows.{bits_product, reduced_bit}
use quick_mpc.Compare.Bitwise.PrefixOr.{AreGood, OpenBelow, prefix_or_lem, prefix_or-IsValid}

xor : Bool → Bool → Bool
xor a b = if a then not b else b

-- The number whose `n` bits from the highest on are those of `h`.
unfoldable pub value : ℕ → (ℕ → Bool) → ℕ
value zero h = 0
value (suc n) h = 2 * value n h + bit (h n)

differ_value :
    (n : ℕ) (a b : ℕ → Bool)
    → any_below n (λ i. xor (a i) (b i)) ≡ (if value n a == value n b then false else true)
unfolding any_below value xor
differ_value zero a b = refl
differ_value (suc n) a b = rw (differ_value n a b) (elim (Bool-cases (a n)) [
  | inl x ↦
      rw x (elim (Bool-cases (b n)) [ inl y ↦ rw y (ground arith) | inr y ↦ rw y (ground arith) ])
  | inr x ↦
      rw x (elim (Bool-cases (b n)) [ inl y ↦ rw y (ground arith) | inr y ↦ rw y (ground arith) ])
])

-- The bit of `b` at the first difference tells whether `a` is less than `b`.
first_difference :
    (n : ℕ) (a b : ℕ → Bool)
    → any_below n (λ i. is_first (λ k. xor (a k) (b k)) i && b i) ≡ ltb (value n a) (value n b)
unfolding any_below value is_first xor
first_difference zero a b = refl
first_difference (suc n) a b =
    rw (first_difference n a b, differ_value n a b)
      (elim (Bool-cases (a n)) [
        | inl x ↦
            rw x (elim (Bool-cases (b n)) [
              | inl y ↦ rw y (ground arith)
              | inr y ↦ rw y (ground arith)
            ])
        | inr x ↦
            rw x (elim (Bool-cases (b n)) [
              | inl y ↦ rw y (ground arith)
              | inr y ↦ rw y (ground arith)
            ])
      ])

horner : ℕ → List Bool → ℕ
horner acc [] = acc
horner acc (b ∷ bs) = horner (2 * acc + bit b) bs

number-horner : (bs cs : List Bool) → number (reverse_aux bs cs) ≡ horner (number cs) bs
unfolding number horner
number-horner [] cs = refl
number-horner (b ∷ bs) cs = number-horner bs (b ∷ cs) ∙ ap (λ (t : ℕ). horner t bs) (omega arith)

horner-value :
    (bs : List Bool) (k : ℕ) (h : ℕ → Bool)
    → ((i : ℕ) → i < length bs → get_or bs i false ≡ h (k + i))
    → horner (value k h) bs ≡ value (k + length bs) h
unfolding horner value
horner-value [] k h e = ap (λ (t : ℕ). value t h) (omega arith)
horner-value (b ∷ bs) k h e =
    let head : b ≡ h k = e 0 (omega arith) ∙ ap h (omega arith) in
    let next : suc k + length bs ≡ k + suc (length bs) = omega arith in
    rw (head, ← next)
      (horner-value bs (suc k) h (λ i lt. e (suc i) (omega arith) ∙ ap h (omega arith)))

pub number-value :
    (bs : List Bool) → number (reverse bs) ≡ value (length bs) (λ i. get_or bs i false)
unfolding number value
number-value bs =
    let at : 0 + length bs ≡ length bs = omega arith in
    number-horner bs []
    ∙ horner-value bs 0 (λ i. get_or bs i false)
        (λ i lt. ap (λ (t : ℕ). get_or bs t false) (omega arith))
    ∙ rw at refl

xor_bits :
    (a b : Bool)
    → ((bit a + bit b) % p + 18446744073709551556 * (bit a * bit b % p * 2 % p)) % p ≡ bit (xor a b)
unfolding xor
xor_bits true true = refl
xor_bits true false = refl
xor_bits false true = refl
xor_bits false false = refl

less_below :
    (conf : Config) (draws : Draws) (a_shares b_shares : List (Shared ℕ)) (a b : ℕ → Bool)
    → HasSp conf conf.n_parties
    → PrimeField.modpow conf.n_parties (p - 1) ≡ 1
    → AreGood conf draws
    → OpenBelow conf 64 a_shares a
    → OpenBelow conf 64 b_shares b
    → opened conf (bitwise_less_than conf draws a_shares b_shares)
      ≡ bit (ltb (value 64 a) (value 64 b))
unfolding bitwise_less_than any_below
less_below conf draws a_shares b_shares a b sp fermat good ea eb =
    let c = (λ (i : ℕ). xor (a i) (b i)) in
    let g = (λ (i : ℕ).
      sub (add (entry a_shares i) (entry b_shares i))
        (scale (times conf (entry a_shares i) (entry b_shares i)) 2)) in
    let cs = table 64 0 g in
    let c_ok : OpenBelow conf 64 cs c = (λ i lt.
      rw
        (
          get_or-loop 64 i g zero_share lt,
          opened-sub conf (add (entry a_shares i) (entry b_shares i))
              (scale (times conf (entry a_shares i) (entry b_shares i)) 2) (scale-IsValid _ _),
          opened-add conf (entry a_shares i) (entry b_shares i),
          opened-scale conf (times conf (entry a_shares i) (entry b_shares i)) 2,
          opened-times conf sp (entry a_shares i) (entry b_shares i),
          ea i lt,
          eb i lt,
        )
        (xor_bits (a i) (b i))) in
    let ds = prefix_or conf draws cs in
    let d_ok = prefix_or_lem conf draws cs c sp fermat good c_ok in
    let d0 : opened conf (entry ds 0) ≡ bit (c 0) = d_ok 0 (omega arith) in
    let es = steps 64 (entry ds 0) ds in
    let e_ok : OpenBelow conf 64 es (is_first c) = (λ i lt.
      steps_lem conf 64 (entry ds 0) ds c i (λ k below. prefix_or-IsValid conf draws cs k) d0 d_ok
        lt) in
    opened-sum_table conf zero_share 64 0 (λ i. times conf (entry es i) (entry b_shares i))
    ∙ rw (opened_zero conf) (
        ap (λ (t : ℕ). (0 + t) % p)
          (total-bits 64 (λ i. opened conf (times conf (entry es i) (entry b_shares i)))
            (λ i. is_first c i && b i)
            (λ i lt.
              opened-times conf sp (entry es i) (entry b_shares i)
              ∙ rw (e_ok i lt, eb i lt) (bits_product (is_first c i) (b i)))
            (λ i k set ne. first_unique_and c b i k set ne))
        ∙ reduced_bit _)
    ∙ ap bit (first_difference 64 a b)

-- For shares that open to the 64 bits of two numbers, the highest first, `subBitwiseLessThan`
-- opens to one when the first number is less than the second and to zero when it is not. The
-- party `sp_id` is one of the parties, the number of parties passes Fermat's test, and the
-- draws of the 24 fan-in calls are 64 invertible pairs each.
pub bitwise_less_than_lem :
    (conf : Config) (draws : Draws) (a_shares b_shares : List (Shared ℕ)) (left bs : List Bool)
    → HasSp conf conf.n_parties
    → PrimeField.modpow conf.n_parties (p - 1) ≡ 1
    → AreGood conf draws
    → OpenTo conf a_shares left
    → OpenTo conf b_shares bs
    → length left ≡ 64
    → length bs ≡ 64
    → opened conf (bitwise_less_than conf draws a_shares b_shares)
      ≡ bit (ltb (number (reverse left)) (number (reverse bs)))
bitwise_less_than_lem conf draws a_shares b_shares left bs sp fermat good ha hb la lb =
    less_below conf draws a_shares b_shares (λ i. get_or left i false) (λ i. get_or bs i false) sp
      fermat good (λ i lt. opened-entry conf a_shares left i ha)
      (λ i lt. opened-entry conf b_shares bs i hb)
    ∙ rw (number-value left, number-value bs, la, lb) refl

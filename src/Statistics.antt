-- ===== src/Statistics.antt =====
-- src/ComputationContainer/Math/Math.cpp: the variance, the standard deviation, the correlation, the
-- exponential and the sigmoid. The shares are told by the values that they stand for, as in
-- BoostedTrees, where the sum and the mean are; `none` is the exception for unequal lengths.
mod Tests
use quick_mpc.Prelude.{
  ℕ, zero, suc, ◌+◌, ◌≡◌, ◌≢◌, refl, ap, ◌∙◌, sym, inl, inr, Bool, true, false, ◌&&◌, Option, none,
  some, List, [], ◌∷◌, map, length, ◌==◌, ==_refl, ==_iff, Bool-cases, if◌then◌else◌, arith, table,
  ◌>>=◌,
}
use quick_mpc.BoostedTrees.{Numbers, times_each, vector_times, sum, sum_loop}
use quick_mpc.BoostedTrees.Boosting.{smean}
use quick_mpc.BoostedTrees.Growth.{vector_times-some}

-- The rest of the arithmetic: the inverse of a share, the square root in decimal floating point and
-- back, the test for a negative decimal, `<=` of fixed point numbers, and the constants
-- `FixedPoint(0.001)`, `FixedPoint(-0.001)` and `FixedPoint("0.001")`.
pub record Roots (A : Type 0) : Type 0 where
  pub invert : A → A
  pub root : A → A
  pub is_negative : A → Bool
  pub at_most : A → A → Bool
  pub thousandth : A
  pub minus_thousandth : A
  pub thousandth_text : A

module _ {A D : Type 0} (s : Numbers A D) (m : Roots A) where
  unfoldable pub deviations : A → List A → List A
  deviations avg v = map (λ a. s.minus a avg) v

  unfoldable pub variance : List A → Option A
  variance v = do
    let var = deviations (smean s v) v
    var_vec ← vector_times s var var
    some (s.divide (sum s var_vec) (s.of_number (length v)))

  unfoldable pub stdev : List A → Option A
  stdev v = do
    value ← variance v
    some (m.root (if m.is_negative value then s.of_number 0 else value))

  unfoldable pub away_from_zero : A → A
  away_from_zero e =
      if m.at_most e m.thousandth && m.at_most m.minus_thousandth e then m.thousandth_text else e

  unfoldable pub correl : List A → List A → Option A
  correl x y = elim (length x == length y) [
    | false ↦ none
    | true ↦ do
      stde_x ← stdev x
      stde_y ← stdev y
      tmp_vec ← vector_times s (deviations (smean s x) x) (deviations (smean s y) y)
      let ret = s.divide (sum s tmp_vec) (away_from_zero stde_x)
      some (s.divide (s.divide ret (away_from_zero stde_y)) (s.of_number (length x)))
  ]

  -- The vectors `px` and `k` from the position `i` on, given the entries before it.
  unfoldable pub series : ℕ → ℕ → A → A → A → List (A × A)
  series zero i px k x = []
  series (suc n) i px k x =
      let px' = s.times px x in
      let k' = s.times k (s.of_number i) in (px', k') ∷ series n (suc i) px' k' x

  unfoldable pub exp : A → A
  exp x =
      let ret = s.plus s.default (s.of_number 1) in
      sum_loop s (s.of_number 0)
        (ret ∷ map (λ (t : A × A). s.divide t.0 t.1) (series 99 1 ret (s.of_number 1) x))

  unfoldable pub sigmoid : A → A → A
  sigmoid x a =
      let exp_inv = m.invert (exp (s.times x a)) in m.invert (s.plus exp_inv (s.of_number 1))

  -- The power and the factorial.
  unfoldable pub power : A → ℕ → A
  power x zero = s.plus s.default (s.of_number 1)
  power x (suc n) = s.times (power x n) x

  unfoldable pub factorial : ℕ → A
  factorial zero = s.of_number 1
  factorial (suc n) = s.times (factorial n) (s.of_number (suc n))

  series-table :
      (n i : ℕ) (x : A)
      → map (λ (t : A × A). s.divide t.0 t.1) (series n (suc i) (power x i) (factorial i) x)
        ≡ table n (suc i) (λ j. s.divide (power x j) (factorial j))
  unfolding series power factorial
  series-table zero i x = refl
  series-table (suc n) i x =
      let step : ◌≡◌ {A = ℕ} (suc (suc i)) (suc i + 1) = omega arith in
      let term = s.divide (power x (suc i)) (factorial (suc i)) in
      ap (λ (l : List A). term ∷ l) (series-table n (suc i) x)
      ∙ ap (λ j. term ∷ table n j (λ j. s.divide (power x j) (factorial j))) step

  -- `exp` adds the constant and, for i from 1 to 99, the i-th power over the factorial of i.
  pub exp_lem :
      (x : A)
      → exp x
        ≡ sum_loop s
            (s.of_number 0)
            (power x 0 ∷ table 99 1 (λ j. s.divide (power x j) (factorial j)))
  unfolding exp power factorial
  exp_lem x = ap (λ (l : List A). sum_loop s (s.of_number 0) (power x 0 ∷ l)) (series-table 99 0 x)

  length-deviations : (avg : A) (v : List A) → length (deviations avg v) ≡ length v
  unfolding deviations
  length-deviations avg [] = refl
  length-deviations avg (a ∷ v) = ap suc (length-deviations avg v)

  bind-some :
      {B C : Type 0} (o : Option B) (f : B → Option C)
      → (b : B) × (o ≡ some b)
      → ((b : B) → (c : C) × (f b ≡ some c))
      → (c : C) × ((o >>= f) ≡ some c)
  bind-some o f (b, e) total = let (c, d) = total b in (c, ap (λ o. o >>= f) e ∙ d)

  -- The variance is always a value.
  variance-some : (v : List A) → (r : A) × (variance v ≡ some r)
  unfolding variance
  variance-some v =
      let d = deviations (smean s v) v in
      bind-some _ _ (times_each s d d, vector_times-some s d d refl) (λ b. (_, refl))

  stdev-some : (v : List A) → (r : A) × (stdev v ≡ some r)
  unfolding stdev
  stdev-some v = bind-some _ _ (variance-some v) (λ b. (_, refl))

  -- For vectors of the same length the correlation is a value, whatever the operators do.
  pub correl-some : (x y : List A) → length x ≡ length y → (r : A) × (correl x y ≡ some r)
  unfolding correl
  correl-some x y h =
      let dx = deviations (smean s x) x in
      let dy = deviations (smean s y) y in
      let same : length dx ≡ length dy =
        length-deviations (smean s x) x ∙ h ∙ sym (length-deviations (smean s y) y) in
      rw (correl, (==_iff (length x) (length y)).1 h)
        (bind-some _ _ (stdev-some x) (λ stde_x. bind-some _ _ (stdev-some y) (λ stde_y.
          bind-some _ _ (times_each s dx dy, vector_times-some s dx dy same)
            (λ tmp_vec. (_, refl)))))

  -- For vectors of different lengths it is the exception.
  pub correl-none : (x y : List A) → length x ≢ length y → correl x y ≡ none
  unfolding correl
  correl-none x y h = elim (Bool-cases (length x == length y)) [
    | inl e ↦ absurd (h ((==_iff (length x) (length y)).0 e))
    | inr e ↦ rw (correl, e) refl
  ]

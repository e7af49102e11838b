-- ===== src/Statistics/Tests.antt =====
-- Statistics of natural numbers, where the root is the number itself.
use quick_mpc.Prelude.{ℕ, ◌+◌, ◌-◌, ◌*◌, ◌/◌, ◌≡◌, refl, false, none, some, [], ◌∷◌, ltb, leb, ◌==◌}
use quick_mpc.BoostedTrees.{Numbers, times_each, vector_times, sum_loop, sum}
use quick_mpc.BoostedTrees.Boosting.{smean}
use quick_mpc.Statistics.{Roots, variance, stdev, correl, deviations, away_from_zero}

abbrev numbers : Numbers ℕ ℕ
numbers = record {
  default = 0;
  plus = λ a b. a + b;
  minus = λ a b. a - b;
  times = λ a b. a * b;
  divide = λ a b. a / b;
  of_number = λ n. n;
  is_zero = λ a. a == 0;
  to_size = λ a. a;
  to_double = λ a. a;
  less_double = ltb;
  minus_one = 0;
  outside = 0;
}

abbrev roots : Roots ℕ
roots = record {
  invert = λ a. a;
  root = λ a. a;
  is_negative = λ a. false;
  at_most = leb;
  thousandth = 0;
  minus_thousandth = 0;
  thousandth_text = 1;
}

variance_small : variance numbers roots (1 ∷ 1 ∷ 4 ∷ []) ≡ some 1
unfolding variance deviations smean vector_times times_each sum sum_loop
variance_small = refl

correl_small : correl numbers roots (1 ∷ 1 ∷ 4 ∷ []) (2 ∷ 2 ∷ 2 ∷ []) ≡ some 0
unfolding correl stdev variance deviations away_from_zero smean vector_times times_each sum sum_loop
correl_small = refl

correl_unequal : correl numbers roots (1 ∷ []) [] ≡ none
unfolding correl
correl_unequal = refl

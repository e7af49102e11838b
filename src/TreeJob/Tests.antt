-- ===== src/TreeJob/Tests.antt =====
-- Two attributes with two values each, and a class with two values.
use quick_mpc.Prelude.{
  ℕ, zero, suc, ◌+◌, ◌*◌, ◌<◌, ◌≡◌, refl, inl, false, some, List, [], ◌∷◌, arith, length, get_or,
}
use quick_mpc.BitTable.{
  attr_size_list, attr_size_loop, begins_attribute, reversed, scan_from_right, parse_row, at_column,
  row_bits,
}
use quick_mpc.DecisionTree.{Arithmetic, Tree, Training, is_empty}
use quick_mpc.DecisionTree.Leaf.{IsArithmetic, IsOneHot, follow}
use quick_mpc.DecisionTree.Growth.{ChoosesLeft}
use quick_mpc.TreeJob.{sizes_of, job_compute, model_predict}
use quick_mpc.TreeJob.Prediction.{IsTraining, bits_of, model_predict-job_compute}

abbrev numbers : Arithmetic ℕ
numbers = record { default = 0; plus = λ a b. a + b; times = λ a b. a * b; outside = 0 }

numbers-IsArithmetic : IsArithmetic numbers 1
numbers-IsArithmetic = record {
  times_one = λ a. omega arith;
  times_zero = λ a. omega arith;
  plus_zero = λ a. omega arith;
  zero_plus = λ a. omega arith;
}

abbrev first_of : List ℕ → ℕ
first_of [] = 0
first_of (r ∷ attributes) = r

abbrev training : List (List (List ℕ)) → List (List ℕ) → Training (List ℕ) ℕ ℕ
training bits target = record {
  select = λ rows r j. rows;
  value_count = λ r. length (get_or bits r []);
  majority_class = λ rows. length target;
  max_gini = λ rows attributes. (1, first_of attributes);
  is_small = λ rows gini. false;
}

training-ChoosesLeft :
    (bits : List (List (List ℕ))) (target : List (List ℕ)) → ChoosesLeft (training bits target)
unfolding is_empty
training-ChoosesLeft bits target rows [] small empty = absurd (ground (arith, empty))
training-ChoosesLeft bits target rows (r ∷ attributes) small empty = inl refl

training-IsTraining : IsTraining training
training-IsTraining = record { counts = λ bits target r. refl; chooses = training-ChoosesLeft }

-- The names a#0, a#1, b#0, b#1, c#0 and c#1.
abbrev names : List (List ℕ)
names =
    (97 ∷ 35 ∷ 48 ∷ [])
    ∷ (97 ∷ 35 ∷ 49 ∷ [])
    ∷ (98 ∷ 35 ∷ 48 ∷ [])
    ∷ (98 ∷ 35 ∷ 49 ∷ [])
    ∷ (99 ∷ 35 ∷ 48 ∷ [])
    ∷ (99 ∷ 35 ∷ 49 ∷ [])
    ∷ []

abbrev rows : List (List ℕ)
rows = (1 ∷ 0 ∷ 0 ∷ 1 ∷ 1 ∷ 0 ∷ []) ∷ (0 ∷ 1 ∷ 0 ∷ 1 ∷ 0 ∷ 1 ∷ []) ∷ []

abbrev columns : List ℕ
columns = 1 ∷ 2 ∷ 3 ∷ 4 ∷ []

abbrev second : ℕ → ℕ
second r = 1

abbrev sizes : List ℕ
sizes = 2 ∷ 2 ∷ []

names-sizes : sizes_of 0 [] names columns ≡ sizes
unfolding sizes_of attr_size_list attr_size_loop begins_attribute reversed scan_from_right parse_row
    at_column
names-sizes = refl

bits-IsOneHot : IsOneHot numbers 1 (bits_of numbers 0 [] names columns (get_or rows 1 [])) second
unfolding sizes_of attr_size_list attr_size_loop begins_attribute reversed scan_from_right parse_row
    at_column row_bits
bits-IsOneHot zero zero h k = refl
bits-IsOneHot zero (suc zero) h k = refl
bits-IsOneHot zero (suc (suc j)) h k = absurd (omega (arith, k))
bits-IsOneHot (suc zero) zero h k = refl
bits-IsOneHot (suc zero) (suc zero) h k = refl
bits-IsOneHot (suc zero) (suc (suc j)) h k = absurd (omega (arith, k))
bits-IsOneHot (suc (suc r)) j h k = absurd (omega (arith, h))

second-inside : (r : ℕ) → r < length sizes → second r < get_or sizes r 0
second-inside zero h = omega arith
second-inside (suc zero) h = omega arith
second-inside (suc (suc r)) h = absurd (omega (arith, h))

model_predict-job_compute_example :
    (tree : Tree ℕ) × (job_compute numbers 0 [] training 1 rows names columns (5 ∷ 6 ∷ [])
      ≡ some tree)
    × (get_or (model_predict numbers 0 [] tree rows names columns) 1 0 ≡ follow tree second)
model_predict-job_compute_example =
    model_predict-job_compute numbers 0 [] training 1 rows rows names names columns (5 ∷ 6 ∷ [])
      columns 1 second numbers-IsArithmetic training-IsTraining refl (omega arith) bits-IsOneHot
      (rw names-sizes second-inside)

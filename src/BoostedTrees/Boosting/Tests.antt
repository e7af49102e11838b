-- ===== src/BoostedTrees/Boosting/Tests.antt =====
-- Boosting on four rows with one attribute of two values, over natural numbers.
use quick_mpc.Prelude.{
  ℕ, zero, suc, ◌+◌, ◌-◌, ◌*◌, ◌/◌, ◌≡◌, refl, ap, ◌∙◌, inl, inr, Option, none, some, List, [], ◌∷◌,
  ltb, ◌==◌, arith, length, get_or, ℤ, pos, negsuc, size, ◌+ℤ◌, ◌-ℤ◌, ◌*ℤ◌, ◌/ℤ◌,
}
use quick_mpc.FixedPoint.{
  FixedPoint, mypow_loop, mypow, shift, zero_point, of_integer, add, sub, mul,
}
use quick_mpc.FixedPoint.Products.{mul_laws}
use quick_mpc.DecisionTree.{is_empty, erase_attribute}
use quick_mpc.BoostedTrees.{
  Numbers, times_each, vector_times, sum_loop, sum, dot, data_size, make_node, infomation_gain,
  squared_errors, sum_error, category_errors, less_pair, min_element, least_error, ig, stops,
  create_children, create_tree, add_first, grad, grad_loop, Node, regression_node, no_child,
  child_then,
}
use quick_mpc.BoostedTrees.Gradient.{IsExact, IsBit, AreBitsAt, Covers, AllCover, grad-default}
use quick_mpc.BoostedTrees.Growth.{AreWide}
use quick_mpc.BoostedTrees.Boosting.{
  Boosted, smean, diff_values, updated, add_tree, boosting_round, boosting_loop, boosting,
  predict_boosted, AllCovers, boosting_lem, boosting-predict,
}

abbrev whole_numbers : Numbers ℕ ℕ
whole_numbers = record {
  default = 0;
  plus = λ a b. a + b;
  minus = λ a b. a - b;
  times = λ a b. a * b;
  divide = λ a b. a / b;
  of_number = λ n. n;
  is_zero = λ a. a == 0;
  to_size = λ a. a;
  to_double = λ a. a;
  less_double = ltb;
  minus_one = 0;
  outside = 0;
}

abbrev all_rows : List ℕ
all_rows = 1 ∷ 1 ∷ 1 ∷ 1 ∷ []

abbrev two_values : List (List (List ℕ))
two_values = ((1 ∷ 1 ∷ 0 ∷ 0 ∷ []) ∷ (0 ∷ 0 ∷ 1 ∷ 1 ∷ []) ∷ []) ∷ []

abbrev four_targets : List ℕ
four_targets = 4 ∷ 4 ∷ 10 ∷ 10 ∷ []

two_values-AreWide : (r : ℕ) → AreWide 4 (get_or two_values r [])
unfolding AreWide
two_values-AreWide zero = (refl, (refl, tt))
two_values-AreWide (suc r) = tt

boosting_lem_example :
    (b : Boosted ℕ ℕ) × (boosting whole_numbers 2 1 2 all_rows two_values four_targets (0 ∷ [])
      ≡ some b)
    × (length b.trees ≡ 2)
    × (b.init ≡ smean whole_numbers four_targets)
boosting_lem_example =
    boosting_lem whole_numbers 2 1 2 all_rows two_values four_targets (0 ∷ []) (omega arith)
      two_values-AreWide

abbrev from_some : Option (Boosted ℕ ℕ) → Boosted ℕ ℕ
from_some none = record { init = 0; trees = []; current_y = [] }
from_some (some b) = b

-- The first tree is made for the diff_values 0, 0, 3, 3, the second for 0.
abbrev boosted_twice : Boosted ℕ ℕ
boosted_twice = from_some (boosting whole_numbers 2 1 2 all_rows two_values four_targets (0 ∷ []))

boosted_values : boosted_twice.current_y ≡ 7 ∷ 7 ∷ 10 ∷ 10 ∷ []
unfolding boosting boosting_loop boosting_round add_tree updated diff_values smean create_tree ig
    category_errors sum_error infomation_gain squared_errors vector_times sum sum_loop times_each
    dot data_size make_node stops is_empty erase_attribute create_children grad grad_loop add_first
    least_error less_pair min_element
boosted_values = refl

-- The same in fixed point numbers, whose products truncate.
abbrev points : Numbers FixedPoint ℕ
points = record {
  default = zero_point;
  plus = add;
  minus = sub;
  times = mul;
  divide = λ a b. record { value = a.value *ℤ pos shift /ℤ size b.value };
  of_number = λ n. of_integer (pos n);
  is_zero = λ a. size a.value == 0;
  to_size = λ a. size a.value / shift;
  to_double = λ a. size a.value;
  less_double = ltb;
  minus_one = 0;
  outside = zero_point;
}

zero-mul : (v : ℤ) → pos 0 *ℤ v /ℤ shift ≡ pos 0
unfolding ◌*ℤ◌ ◌/ℤ◌ shift mypow mypow_loop
zero-mul (pos n) = ap pos (omega arith)
zero-mul (negsuc n) = let e : 0 * suc n ≡ 0 = omega arith in rw e refl

same_point : {a b : FixedPoint} → a.value ≡ b.value → a ≡ b
same_point e = ap (λ (v : ℤ). record { value = v }) e

zero_point-mul : (a : FixedPoint) → mul zero_point a ≡ zero_point
unfolding mul zero_point
zero_point-mul a = same_point (zero-mul a.value)

abbrev one_point : FixedPoint
one_point = of_integer (pos 1)

points-IsExact : IsExact points one_point
unfolding add zero_point ◌+ℤ◌
points-IsExact = record {
  one_times = λ a. (mul_laws a a (pos 0) (pos 0)).2;
  times_one = λ a. (mul_laws a one_point (pos 0) (pos 0)).0 ∙ (mul_laws a a (pos 0) (pos 0)).2;
  zero_times = zero_point-mul;
  times_zero = λ a. (mul_laws a zero_point (pos 0) (pos 0)).0 ∙ zero_point-mul a;
  plus_zero = refl;
}

abbrev at_one : FixedPoint
at_one = of_integer (pos 1)

abbrev at_zero : FixedPoint
at_zero = zero_point

abbrev point_rows : List FixedPoint
point_rows = at_one ∷ at_one ∷ at_one ∷ at_one ∷ []

abbrev point_values : List (List (List FixedPoint))
point_values =
    ((at_one ∷ at_one ∷ at_zero ∷ at_zero ∷ []) ∷ (at_zero ∷ at_zero ∷ at_one ∷ at_one ∷ []) ∷ [])
    ∷ []

abbrev point_targets : List FixedPoint
point_targets =
    of_integer (pos 4) ∷ of_integer (pos 4) ∷ of_integer (pos 10) ∷ of_integer (pos 10) ∷ []

point_values-AreWide : (r : ℕ) → AreWide 4 (get_or point_values r [])
unfolding AreWide
point_values-AreWide zero = (refl, (refl, tt))
point_values-AreWide (suc r) = tt

point_values-AreBitsAt : (r : ℕ) → AreBitsAt points one_point 2 (get_or point_values r [])
unfolding AreBitsAt IsBit
point_values-AreBitsAt zero = (inr refl, (inl refl, tt))
point_values-AreBitsAt (suc r) = tt

abbrev from_points : Option (Boosted FixedPoint ℕ) → Boosted FixedPoint ℕ
from_points none = record { init = at_zero; trees = []; current_y = [] }
from_points (some b) = b

abbrev boosted_points : Boosted FixedPoint ℕ
boosted_points =
    from_points (boosting points 2 one_point 2 point_rows point_values point_targets (0 ∷ []))

-- The third row, whose bits are 0 and 1.
boosting-predict_example :
    get_or boosted_points.current_y 2 zero_point
    ≡ predict_boosted points one_point boosted_points ((at_zero ∷ at_one ∷ []) ∷ [])
unfolding boosting boosting_loop boosting_round add_tree updated diff_values smean create_tree ig
    category_errors sum_error infomation_gain squared_errors vector_times sum sum_loop times_each
    dot data_size make_node stops is_empty erase_attribute create_children grad grad_loop add_first
    least_error less_pair min_element AllCovers AllCover Covers add sub mul of_integer zero_point
    shift mypow mypow_loop ◌+ℤ◌ ◌-ℤ◌ ◌*ℤ◌ ◌/ℤ◌
boosting-predict_example =
    boosting-predict points 2 one_point 2 point_rows point_values point_targets (0 ∷ [])
      boosted_points one_point 2 points-IsExact point_values-AreBitsAt (omega arith)
      point_values-AreWide refl (omega arith) refl
      ((omega arith, (tt, (tt, tt))), ((omega arith, (tt, (tt, tt))), tt))

-- A node for two of four rows, which are not the first two.
abbrev later_rows : Node ℕ ℕ
later_rows = record {
  grads = 0 ∷ 0 ∷ 3 ∷ 3 ∷ [];
  error_value = 0;
  att_class = 0;
  size = 2;
  rows = 4;
  y = 3;
}

grad-default_example :
    get_or
      (grad whole_numbers
        (regression_node later_rows (child_then (regression_node later_rows no_child) no_child)))
      2
      0
    ≡ 0
grad-default_example =
    grad-default whole_numbers later_rows (regression_node later_rows no_child) no_child 2
      (omega arith) (omega arith)

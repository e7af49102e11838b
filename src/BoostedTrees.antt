-- ===== src/BoostedTrees.antt =====
-- src/ComputationContainer/GBDT/SID3Regression.cpp and SID3Regression.hpp, and SGBM.hpp: regression
-- trees and their boosting. The shares are told by the values that they stand for: `open` and
-- `recons` leave a value as it is. `none` is the exception of a product of vectors of unequal
-- lengths, or the end of the fuel. A read past the end, which the language leaves undefined, gives
-- a value of which nothing is known.
pub mod Gradient
pub mod Growth
pub mod Boosting
use quick_mpc.DecisionTree.{is_empty, erase_attribute}
use quick_mpc.Prelude.{
  ℕ, zero, suc, ◌+◌, ◌-◌, ◌*◌, Bool, true, false, not, ◌&&◌, ◌||◌, Option, none, some, List, [],
  ◌∷◌, ◌++◌, map, ltb, leb, ◌==◌, if◌then◌else◌, length, get_or, replicate, ◌>>=◌,
}

-- The numbers: the operators of `Share<FixedPoint>`, the conversion from an `int`, the test for zero,
-- `static_cast<int>(... + 0.1)` and `getDoubleVal` of an opened value, `<` of doubles, -1 as a double and a
-- read past the end.
pub record Numbers (A D : Type 0) : Type 0 where
  pub default : A
  pub plus : A → A → A
  pub minus : A → A → A
  pub times : A → A → A
  pub divide : A → A → A
  pub of_number : ℕ → A
  pub is_zero : A → Bool
  pub to_size : A → ℕ
  pub to_double : A → D
  pub less_double : D → D → Bool
  pub minus_one : D
  pub outside : A

-- The members of `SID3Regression` that the constructor and `createTree` set and that are read later.
pub record Node (A D : Type 0) : Type 0 where
  pub grads : List A
  pub error_value : D
  pub att_class : ℕ
  pub size : ℕ
  pub rows : ℕ
  pub y : A

mutual
  pub data RegressionTree (A D : Type 0) : Type 0 where
    regression_node : Node A D → Children A D → RegressionTree A D

  pub data Children (A D : Type 0) : Type 0 where
    no_child : Children A D
    child_then : RegressionTree A D → Children A D → Children A D

module _ {A D : Type 0} (s : Numbers A D) where
  unfoldable pub times_each : List A → List A → List A
  times_each [] ys = []
  times_each (x ∷ xs) [] = []
  times_each (x ∷ xs) (y ∷ ys) = s.times x y ∷ times_each xs ys

  -- `x * y` of vectors.
  unfoldable pub vector_times : List A → List A → Option (List A)
  vector_times x y = if length x == length y then some (times_each x y) else none

  unfoldable pub sum_loop : A → List A → A
  sum_loop ret [] = ret
  sum_loop ret (a ∷ v) = sum_loop (s.plus ret a) v

  unfoldable pub sum : List A → A
  sum v = sum_loop s.default v

  unfoldable pub dot : List A → List A → Option A
  dot x y = do ret ← vector_times x y; some (sum ret)

  unfoldable pub data_size : List A → ℕ
  data_size T = s.to_size (sum T)

  -- The constructor, with the error and the attribute that `IG` gives afterwards.
  unfoldable pub make_node : List A → List A → D → ℕ → Option (Node A D)
  make_node T targets error_value att_class = do
    let size = data_size T
    total ← dot targets T
    let y = if ltb 1 size then s.divide total (s.of_number size) else total
    grads ← vector_times (replicate (length T) y) T
    some (record {
      grads = grads;
      error_value = error_value;
      att_class = att_class;
      size = size;
      rows = length T;
      y = y;
    })

  -- `infomationGain`: the squared error of the rows of a category around their mean.
  pub squared_errors : A → List A → List A → A
  squared_errors ret [] average_mask = ret
  squared_errors ret (t ∷ target_mask) [] = ret
  squared_errors ret (t ∷ target_mask) (a ∷ average_mask) =
      let cur = s.minus t a in
      squared_errors (s.plus ret (s.times cur cur)) target_mask average_mask

  pub infomation_gain : List A → List A → List A → Option A
  infomation_gain T targets category = do
    mask ← vector_times category T
    let mask_size = sum mask
    elim (s.is_zero mask_size) [
      | true ↦ some (s.of_number 1000000000)
      | false ↦ do
        total ← dot mask targets
        average_mask ← vector_times (replicate (length T) (s.divide total mask_size)) mask
        target_mask ← vector_times targets mask
        some (s.divide (squared_errors s.default target_mask average_mask) (s.of_number 2))
    ]

  -- The loop over the categories of one attribute.
  pub sum_error : List A → List A → A → List (List A) → Option A
  sum_error T targets ret [] = some ret
  sum_error T targets ret (category ∷ categories) = do
    gain ← infomation_gain T targets category
    sum_error T targets (s.plus ret gain) categories

  pub category_errors : List A → List (List (List A)) → List A → List ℕ → Option (List (D × ℕ))
  category_errors T S targets [] = some []
  category_errors T S targets (r ∷ R) = do
    error ← sum_error T targets s.default (get_or S r [])
    rest ← category_errors T S targets R
    some ((s.to_double error, r) ∷ rest)

  -- `<` of pairs, and `min_element` from the first pair on.
  pub less_pair : D × ℕ → D × ℕ → Bool
  less_pair (a, i) (b, j) = s.less_double a b || (not (s.less_double b a) && ltb i j)

  pub min_element : D × ℕ → List (D × ℕ) → D × ℕ
  min_element best [] = best
  min_element best (x ∷ rest) = min_element (if less_pair x best then x else best) rest

  -- Without attributes the index is -1, of which no use is made; it is 0 here.
  pub least_error : List (D × ℕ) → D × ℕ
  least_error [] = (s.minus_one, 0)
  least_error (x ∷ rest) = min_element x rest

  pub ig : List A → List (List (List A)) → List A → List ℕ → Option (D × ℕ)
  ig T S targets R = do errors ← category_errors T S targets R; some (least_error errors)

  -- `createTree`: the test under which the node stays a leaf, the loop over the values of the
  -- attribute, and the recursion, with the depth of its calls as fuel.
  unfoldable pub stops : List A → List ℕ → ℕ → Bool
  stops T R size = is_empty R || leb (3 * size) (length T) || (size == 0)

  unfoldable pub create_children :
      (List A → Option (RegressionTree A D)) → List A → List (List A) → Option (Children A D)
  create_children create T [] = some no_child
  create_children create T (category ∷ categories) = do
    T_ ← vector_times T category
    child ← create T_
    children ← create_children create T categories
    some (child_then child children)

  unfoldable pub create_tree :
      ℕ → List A → List (List (List A)) → List A → List ℕ → Option (RegressionTree A D)
  create_tree zero T S targets R = none
  create_tree (suc fuel) T S targets R = do
    (error_value, att_class) ← ig T S targets R
    current ← make_node T targets error_value att_class
    elim (stops T R current.size) [
      | true ↦ some (regression_node current no_child)
      | false ↦ do
        let R_ = erase_attribute att_class R
        children ←
            create_children (λ T_. create_tree fuel T_ S targets R_) T (get_or S att_class [])
        some (regression_node current children)
    ]

  -- `ret[i] += child_grad[i]` for the first `size` entries.
  unfoldable pub add_first : ℕ → List A → List A → List A
  add_first zero ret child_grad = ret
  add_first (suc n) [] child_grad = []
  add_first (suc n) (a ∷ ret) [] = s.plus a s.outside ∷ add_first n ret []
  add_first (suc n) (a ∷ ret) (g ∷ child_grad) = s.plus a g ∷ add_first n ret child_grad

  unfoldable mutual
    pub grad : RegressionTree A D → List A
    grad (regression_node node no_child) = node.grads
    grad (regression_node node (child_then child children)) =
        grad_loop node.size (replicate node.rows s.default) (child_then child children)

    pub grad_loop : ℕ → List A → Children A D → List A
    grad_loop size ret no_child = ret
    grad_loop size ret (child_then child children) =
        grad_loop size (add_first size ret (grad child)) children

  unfoldable mutual
    pub predict : RegressionTree A D → List (List A) → A
    predict (regression_node node no_child) data_row = node.y
    predict (regression_node node (child_then child children)) data_row =
        predict_loop (child_then child children) (get_or data_row node.att_class []) 0 s.default
          data_row

    pub predict_loop : Children A D → List A → ℕ → A → List (List A) → A
    predict_loop no_child attribute_value index ret data_row = ret
    predict_loop (child_then child children) attribute_value index ret data_row =
        predict_loop children attribute_value (index + 1)
          (s.plus ret (s.times (get_or attribute_value index s.outside) (predict child data_row)))
          data_row

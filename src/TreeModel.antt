-- ===== src/TreeModel.antt =====
-- src/ComputationContainer/Model/Models/DecisionTree.hpp: the prediction by a weighted sum of trees
-- whose nodes compare a linear combination of the columns with a threshold. The shares are told by
-- the values that they stand for, and the JSON of a tree by what is read of it.
pub mod Weighted
mod Tests
use quick_mpc.DecisionTree.{Arithmetic}
use quick_mpc.Prelude.{
  ℕ, suc, ◌+◌, ◌-◌, Bool, true, false, Option, none, some, List, [], ◌∷◌, ◌==◌, if◌then◌else◌,
  length, get_or, ◌>>=◌,
}

-- A JSON object of a tree: `output`, or `feature_bitvector`, `threshold` and the two children.
pub data Dtree (A : Type 0) : Type 0 where
  leaf : A → Dtree A
  branch : List A → A → Dtree A → Dtree A → Dtree A

-- `weight` and `tree_structure`.
pub record WeightedTree (A : Type 0) : Type 0 where
  pub weight : A
  pub tree_structure : Dtree A

module _ {A : Type 0} (s : Arithmetic A) (less : A → A → Bool) where
  -- `parse_table` for one row: the columns of `arg`, counted from one. A column that is not there,
  -- which is undefined in the source, gives a value of which nothing is known.
  unfoldable pub pick_columns : List A → List ℕ → List A
  pick_columns row [] = []
  pick_columns row (j ∷ arg) = get_or row (j - 1) s.outside ∷ pick_columns row arg

  unfoldable pub pick_table : List (List A) → List ℕ → List (List A)
  pick_table [] arg = []
  pick_table (row ∷ rows) arg = pick_columns row arg ∷ pick_table rows arg

  -- `sum(x * bv_s)`; `none` is the exception for unequal lengths.
  unfoldable pub dot_loop : A → List A → List A → A
  dot_loop ret [] bv_s = ret
  dot_loop ret (x ∷ xs) [] = ret
  dot_loop ret (x ∷ xs) (b ∷ bv_s) = dot_loop (s.plus ret (s.times x b)) xs bv_s

  unfoldable pub dot_vectors : List A → List A → Option A
  dot_vectors x bv_s = if length x == length bv_s then some (dot_loop s.default x bv_s) else none

  unfoldable pub classify : Dtree A → List A → Option A
  classify (leaf output) x = some output
  classify (branch bv threshold left_child right_child) x = elim (dot_vectors x bv) [
    | none ↦ none
    | some val ↦ elim (less val threshold) [
      | true ↦ classify left_child x
      | false ↦ classify right_child x
    ]
  ]

  -- `predict_f`: the loop over the trees.
  unfoldable pub predict_f : A → List (WeightedTree A) → List A → Option A
  predict_f sum [] x = some sum
  predict_f sum (dtree ∷ dtree_list) x = do
    out ← classify dtree.tree_structure x
    predict_f (s.plus sum (s.times dtree.weight out)) dtree_list x

  unfoldable pub predict_rows : List (WeightedTree A) → List (List A) → Option (List A)
  predict_rows dtree_list [] = some []
  predict_rows dtree_list (xi ∷ x) = do
    result ← predict_f s.default dtree_list xi
    results ← predict_rows dtree_list x
    some (result ∷ results)

  -- `predict`.
  unfoldable pub predict_table : List (WeightedTree A) → List (List A) → List ℕ → Option (List A)
  predict_table dtree_list rows arg = predict_rows dtree_list (pick_table rows arg)

-- ===== src/TreeModel/Tests.antt =====
-- Two trees on rows of three columns, of which the third and the first are used.
use quick_mpc.DecisionTree.{Arithmetic}
use quick_mpc.Prelude.{ℕ, ◌+◌, ◌*◌, ◌≡◌, refl, some, List, [], ◌∷◌, ltb}
use quick_mpc.TreeModel.{leaf, branch, WeightedTree, predict_table}
use quick_mpc.TreeModel.Weighted.{
  HasFeatures, AllHaveFeatures, combination, output_of, weighted_sum, predict_table_lem,
}

abbrev whole_numbers : Arithmetic ℕ
whole_numbers = record { default = 0; plus = λ a b. a + b; times = λ a b. a * b; outside = 0 }

abbrev two_trees : List (WeightedTree ℕ)
two_trees =
    record { weight = 2; tree_structure = branch (1 ∷ 0 ∷ []) 5 (leaf 10) (leaf 20) }
    ∷ record { weight = 3; tree_structure = leaf 1 }
    ∷ []

predict_table_lem_example :
    predict_table whole_numbers ltb two_trees
      ((9 ∷ 9 ∷ 4 ∷ []) ∷ (0 ∷ 0 ∷ 5 ∷ []) ∷ [])
      (3 ∷ 1 ∷ [])
    ≡ some (23 ∷ 43 ∷ [])
unfolding HasFeatures AllHaveFeatures combination output_of weighted_sum
predict_table_lem_example =
    predict_table_lem whole_numbers ltb two_trees ((9 ∷ 9 ∷ 4 ∷ []) ∷ (0 ∷ 0 ∷ 5 ∷ []) ∷ [])
      (3 ∷ 1 ∷ []) ((refl, tt, tt), (tt, tt))

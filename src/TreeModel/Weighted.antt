-- ===== src/TreeModel/Weighted.antt =====
-- What the weighted trees predict, told by the columns of the table.
use quick_mpc.DecisionTree.{Arithmetic}
use quick_mpc.Prelude.{
  ℕ, suc, ◌-◌, ◌≡◌, refl, ap, Bool, true, some, List, [], ◌∷◌, map, ◌==◌, if◌then◌else◌, arith, inl,
  inr, length, get_or, Bool-cases,
}
use quick_mpc.TreeModel.{
  Dtree, leaf, branch, WeightedTree, pick_columns, pick_table, dot_loop, dot_vectors, classify,
  predict_f, predict_rows, predict_table,
}

-- Each node has a coefficient for each of `n` columns.
unfoldable pub HasFeatures : {A : Type 0} → ℕ → Dtree A → Type 0
HasFeatures n (leaf output) = Unit {0}
HasFeatures n (branch bv threshold left_child right_child) =
    (length bv ≡ n) × HasFeatures n left_child × HasFeatures n right_child

unfoldable pub AllHaveFeatures : {A : Type 0} → ℕ → List (WeightedTree A) → Type 0
AllHaveFeatures n [] = Unit {0}
AllHaveFeatures n (dtree ∷ dtree_list) =
    HasFeatures n dtree.tree_structure × AllHaveFeatures n dtree_list

module _ {A : Type 0} (s : Arithmetic A) (less : A → A → Bool) where
  -- The combination of the columns of a row, which are counted from one.
  unfoldable pub combination : A → (ℕ → A) → List ℕ → List A → A
  combination ret column [] bv = ret
  combination ret column (j ∷ arg) [] = ret
  combination ret column (j ∷ arg) (b ∷ bv) =
      combination (s.plus ret (s.times (column j) b)) column arg bv

  -- The output at the end of the way from the root, which goes to the left where the combination is
  -- below the threshold.
  unfoldable pub output_of : (List A → A) → Dtree A → A
  output_of value (leaf output) = output
  output_of value (branch bv threshold left_child right_child) =
      if less (value bv) threshold then output_of value left_child else output_of value right_child

  unfoldable pub weighted_sum : A → (List A → A) → List (WeightedTree A) → A
  weighted_sum ret value [] = ret
  weighted_sum ret value (dtree ∷ dtree_list) =
      weighted_sum (s.plus ret (s.times dtree.weight (output_of value dtree.tree_structure))) value
        dtree_list

  -- The combination of the columns of one row.
  abbrev pub row_value : List A → List ℕ → List A → A
  row_value row arg = combination s.default (λ j. get_or row (j - 1) s.outside) arg

  dot_loop-combination :
      (ret : A) (row : List A) (arg : List ℕ) (bv : List A)
      → dot_loop s less ret (pick_columns s less row arg) bv
        ≡ combination ret (λ j. get_or row (j - 1) s.outside) arg bv
  unfolding dot_loop pick_columns combination
  dot_loop-combination ret row [] bv = refl
  dot_loop-combination ret row (j ∷ arg) [] = refl
  dot_loop-combination ret row (j ∷ arg) (b ∷ bv) =
      dot_loop-combination (s.plus ret (s.times (get_or row (j - 1) s.outside) b)) row arg bv

  length-pick_columns :
      (row : List A) (arg : List ℕ) → length (pick_columns s less row arg) ≡ length arg
  unfolding pick_columns
  length-pick_columns row [] = refl
  length-pick_columns row (j ∷ arg) = ap suc (length-pick_columns row arg)

  classify-output_of :
      (dtree : Dtree A) (row : List A) (arg : List ℕ)
      → HasFeatures (length arg) dtree
      → classify s less dtree (pick_columns s less row arg)
        ≡ some (output_of (row_value row arg) dtree)
  unfolding classify output_of HasFeatures dot_vectors
  classify-output_of (leaf output) row arg h = refl
  classify-output_of (branch bv threshold left_child right_child) row arg (wide, hl, hr) =
      let same : (length (pick_columns s less row arg) == length bv) ≡ true =
        ground (arith, wide, length-pick_columns row arg) in
      let value = dot_loop-combination s.default row arg bv in
      elim (Bool-cases (less (row_value row arg bv) threshold)) [
        | inl below ↦ rw (classify, same, value, below) (classify-output_of left_child row arg hl)
        | inr above ↦ rw (classify, same, value, above) (classify-output_of right_child row arg hr)
      ]

  predict_f-weighted_sum :
      (ret : A) (dtree_list : List (WeightedTree A)) (row : List A) (arg : List ℕ)
      → AllHaveFeatures (length arg) dtree_list
      → predict_f s less ret dtree_list (pick_columns s less row arg)
        ≡ some (weighted_sum ret (row_value row arg) dtree_list)
  unfolding predict_f weighted_sum AllHaveFeatures
  predict_f-weighted_sum ret [] row arg h = refl
  predict_f-weighted_sum ret (dtree ∷ dtree_list) row arg (h, all) =
      rw (predict_f, classify-output_of dtree.tree_structure row arg h)
        (predict_f-weighted_sum
          (s.plus ret (s.times dtree.weight (output_of (row_value row arg) dtree.tree_structure)))
          dtree_list row arg all)

-- Where each node of each tree has a coefficient for each column chosen, the prediction has no
-- exception, and gives for each row the sum over the trees of the weight and the output at the end of the
-- way from the root, which goes to the left at a node where the combination of the chosen columns
-- of the row with the coefficients is below the threshold.
pub predict_table_lem :
    {A : Type 0} (s : Arithmetic A) (less : A → A → Bool) (dtree_list : List (WeightedTree A))
    (rows : List (List A)) (arg : List ℕ)
    → AllHaveFeatures (length arg) dtree_list
    → predict_table s less dtree_list rows arg
      ≡ some (map (λ row. weighted_sum s less s.default (row_value s less row arg) dtree_list) rows)
unfolding predict_table predict_rows pick_table
predict_table_lem s less dtree_list [] arg h = refl
predict_table_lem s less dtree_list (row ∷ rows) arg h =
    rw
      (
        predict_table,
        predict_f-weighted_sum s less s.default dtree_list row arg h,
        predict_table_lem s less dtree_list rows arg h,
      )
      refl

-- ===== src/TreeJob.antt =====
-- src/ComputationContainer/Job/Jobs/SID3Job.hpp and Model/Models/SID3Model.hpp: the job that trains a decision
-- tree on a table and the model that predicts with it, made of the parts in BitTable and DecisionTree.
pub mod Prediction
mod Tests
use quick_mpc.Prelude.{ℕ, suc, ◌+◌, Option, List, [], ◌∷◌, map, length, get_or, replicate, table}
use quick_mpc.BitTable.{attr_size_list, parse_row, parse_table, job_bitvector, model_bitvector}
use quick_mpc.DecisionTree.{Arithmetic, Tree, predict_tree, Training, create_tree}

-- `getAttrSizeList` of the names that `arg` selects.
unfoldable pub sizes_of : ℕ → List ℕ → List (List ℕ) → List ℕ → List ℕ
sizes_of past_end no_name schemas arg = attr_size_list past_end (parse_row no_name schemas arg)

module _ {A : Type 0} (s : Arithmetic A) (past_end : ℕ) (no_name : List ℕ) where
  -- `compute` of the job, up to the printing of the tree. The training works on the bits of the attributes and
  -- of the class, whose columns are `arg[0]` and `arg[1]`.
  unfoldable pub job_compute :
      {G : Type 0}
      → (List (List (List A)) → List (List A) → Training (List A) A G)
      → A
      → List (List A)
      → List (List ℕ)
      → List ℕ
      → List ℕ
      → Option (Tree A)
  job_compute training one rows schemas arg_x arg_y =
      let sizes_x = sizes_of past_end no_name schemas arg_x in
      let sizes_y = sizes_of past_end no_name schemas arg_y in
      let bits = job_bitvector s.outside (parse_table s.outside rows arg_x) sizes_x in
      let target =
        get_or (job_bitvector s.outside (parse_table s.outside rows arg_y) sizes_y) 0 [] in
      create_tree (training bits target) (suc (length sizes_x)) (replicate (length rows) one)
        (table (length sizes_x) 0 (λ i. i))

  -- `predict` of the model, with the tree that it has read.
  unfoldable pub model_predict : Tree A → List (List A) → List (List ℕ) → List ℕ → List A
  model_predict tree rows schemas arg = map (predict_tree s tree) (
      model_bitvector s.outside (parse_table s.outside rows arg)
        (sizes_of past_end no_name schemas arg))

-- ===== src/TreeJob/Prediction.antt =====
-- A tree that the job trains, with a table that has the same attributes, predicts one of its leaves.
use quick_mpc.Prelude.{
  ℕ, zero, suc, ◌+◌, ◌<◌, ◌≡◌, refl, ap, ◌∙◌, inl, inr, some, List, [], ◌∷◌, map, arith, length,
  length-map, length-table, get_or, replicate, table,
}
use quick_mpc.BitTable.{parse_row, parse_table, row_bits, job_bits, job_bitvector, model_bitvector}
use quick_mpc.DecisionTree.{Arithmetic, Tree, predict_tree, Training}
use quick_mpc.DecisionTree.Leaf.{IsArithmetic, IsReadable, IsOneHot, follow, predict_tree_lem}
use quick_mpc.DecisionTree.Growth.{In, ChoosesLeft, create_tree_lem}
use quick_mpc.TreeJob.{sizes_of, job_compute, model_predict}

In-table-lt : (n k r : ℕ) → In r (table n k (λ i. i)) → r < k + n
In-table-lt zero k r there = absurd there
In-table-lt (suc n) k r (inl e) = omega (arith, e)
In-table-lt (suc n) k r (inr there) = omega (arith, In-table-lt n (k + 1) r there)

In-loop-lt : (n r : ℕ) → In r (table n 0 (λ i. i)) → r < n
In-loop-lt n r there = omega (arith, In-table-lt n 0 r there)

module _ {A : Type 0} (outside : A) where
  length-row_bits :
      (sizes : List ℕ) (from : ℕ) (row : List A)
      → length (row_bits outside sizes from row) ≡ length sizes
  unfolding row_bits
  length-row_bits [] from row = refl
  length-row_bits (size ∷ sizes) from row = ap suc (length-row_bits sizes (from + size) row)

  width-row_bits :
      (sizes : List ℕ) (from : ℕ) (row : List A) (r : ℕ)
      → length (get_or (row_bits outside sizes from row) r []) ≡ get_or sizes r 0
  unfolding row_bits
  width-row_bits [] from row r = refl
  width-row_bits (size ∷ sizes) from row zero = length-table size from _
  width-row_bits (size ∷ sizes) from row (suc r) = width-row_bits sizes (from + size) row r

  width-job_bits :
      (sizes : List ℕ) (from : ℕ) (rows : List (List A)) (r : ℕ)
      → length (get_or (job_bits outside sizes from rows) r []) ≡ get_or sizes r 0
  unfolding job_bits
  width-job_bits [] from rows r = refl
  width-job_bits (size ∷ sizes) from rows zero = length-table size from _
  width-job_bits (size ∷ sizes) from rows (suc r) = width-job_bits sizes (from + size) rows r

get_or-map :
    {A B : Type 0} (f : A → B) (xs : List A) (d : ℕ) (a : A) (b : B)
    → d < length xs
    → get_or (map f xs) d b ≡ f (get_or xs d a)
get_or-map f [] d a b h = absurd (omega arith)
get_or-map f (x ∷ xs) zero a b h = refl
get_or-map f (x ∷ xs) (suc d) a b h = get_or-map f xs d a b (omega arith)

-- The number of values of an attribute is read off the bits, and each attribute chosen is one of those left.
pub record IsTraining {A G : Type 0}
    (training : List (List (List A)) → List (List A) → Training (List A) A G) : Type 0 where
  pub counts :
      (bits : List (List (List A))) (target : List (List A)) (r : ℕ)
      → (training bits target).value_count r ≡ length (get_or bits r [])
  pub chooses :
      (bits : List (List (List A))) (target : List (List A)) → ChoosesLeft (training bits target)

module _ {A : Type 0} (s : Arithmetic A) (past_end : ℕ) (no_name : List ℕ) where
  -- The bits that a prediction reads for a row.
  abbrev pub bits_of : List (List ℕ) → List ℕ → List A → List (List A)
  bits_of schemas arg row =
      row_bits s.outside (sizes_of past_end no_name schemas arg) 0 (parse_row s.outside row arg)

  -- An attribute of a row has a bit for each of its values.
  readable :
      (sizes : List ℕ) (row : List A) (hot : ℕ → ℕ) (r n : ℕ)
      → r < length sizes
      → n ≡ get_or sizes r 0
      → ((r : ℕ) → r < length sizes → hot r < get_or sizes r 0)
      → IsReadable (row_bits s.outside sizes 0 row) hot r n
  readable sizes row hot r n less e inside = (
    omega (arith, less, length-row_bits s.outside sizes 0 row),
    omega (arith, e, width-row_bits s.outside sizes 0 row r),
    omega (arith, e, inside r less),
  )

  get_or-model_predict :
      (tree : Tree A) (rows : List (List A)) (schemas : List (List ℕ)) (arg : List ℕ) (d : ℕ)
      → d < length rows
      → get_or (model_predict s past_end no_name tree rows schemas arg) d s.default
        ≡ predict_tree s tree (bits_of schemas arg (get_or rows d []))
  unfolding model_predict model_bitvector parse_table
  get_or-model_predict tree rows schemas arg d h =
      let sizes = sizes_of past_end no_name schemas arg in
      let parsed = parse_table s.outside rows arg in
      let n : length parsed ≡ length rows = length-map rows (λ row. parse_row s.outside row arg) in
      get_or-map (predict_tree s tree) (model_bitvector s.outside parsed sizes) d [] s.default
        (omega (arith, n, length-map parsed (row_bits s.outside sizes 0)))
      ∙ ap (predict_tree s tree) (
          get_or-map (row_bits s.outside sizes 0) parsed d [] [] (omega (arith, n))
          ∙ ap (row_bits s.outside sizes 0)
              (get_or-map (λ row. parse_row s.outside row arg) rows d [] [] h))

  -- Where the arithmetic of bits is that of zero and one, the training reads the number of values of an attribute
  -- off the bits and goes on with attributes that are left, and a row to predict has attributes of
  -- the same sizes, with exactly one bit set in each, the job returns a tree, and the model
  -- predicts for the row the value of the leaf of that tree to which the bits lead.
  pub model_predict-job_compute :
      {G : Type 0} (training : List (List (List A)) → List (List A) → Training (List A) A G)
      (one : A) (rows rows' : List (List A)) (schemas schemas' : List (List ℕ))
      (arg_x arg_y arg : List ℕ) (d : ℕ) (hot : ℕ → ℕ)
      → IsArithmetic s one
      → IsTraining training
      → sizes_of past_end no_name schemas arg_x ≡ sizes_of past_end no_name schemas' arg
      → d < length rows'
      → IsOneHot s one (bits_of schemas' arg (get_or rows' d [])) hot
      → ((r : ℕ)
          → r < length (sizes_of past_end no_name schemas' arg)
          → hot r < get_or (sizes_of past_end no_name schemas' arg) r 0)
      → (tree : Tree A) × (job_compute s past_end no_name training one rows schemas arg_x arg_y
          ≡ some tree)
        × (get_or (model_predict s past_end no_name tree rows' schemas' arg) d s.default
            ≡ follow tree hot)
  unfolding job_compute job_bitvector
  model_predict-job_compute training one rows rows' schemas schemas' arg_x arg_y arg d hot laws t e
        h one_hot inside =
      let sizes_x = sizes_of past_end no_name schemas arg_x in
      let sizes_y = sizes_of past_end no_name schemas arg_y in
      let sizes = sizes_of past_end no_name schemas' arg in
      let row = get_or rows' d [] in
      let parsed = parse_table s.outside rows arg_x in
      let bits = job_bitvector s.outside parsed sizes_x in
      let target =
        get_or (job_bitvector s.outside (parse_table s.outside rows arg_y) sizes_y) 0 [] in
      let (tree, made, fits) =
        create_tree_lem (training bits target) (suc (length sizes_x)) (replicate (length rows) one)
          (table (length sizes_x) 0 (λ i. i)) (IsReadable (bits_of schemas' arg row) hot)
          (omega (arith, length-table (length sizes_x) 0 (λ i. i))) (t.chooses bits target)
          (λ r there.
            readable sizes (parse_row s.outside row arg) hot r
              ((training bits target).value_count r)
              (rw (← e) (In-loop-lt (length sizes_x) r there))
              (t.counts bits target r
                ∙ width-job_bits s.outside sizes_x 0 parsed r
                ∙ ap (λ (x : List ℕ). get_or x r 0) e)
              inside) in
      (
        tree,
        made,
        get_or-model_predict tree rows' schemas' arg d h
            ∙ predict_tree_lem s one tree (bits_of schemas' arg row) hot laws one_hot fits,
      )

-- ===== src/Sid3/Wide.antt =====
-- What the construction of a tree computes where every vector has an entry for each row, so that no
-- product throws.
use quick_mpc.Prelude.{
  ℕ, zero, suc, ◌+◌, ◌<◌, ◌≡◌, refl, ◌∙◌, inl, inr, ◌||◌, Option, none, some, ◌>>=◌, List, [], ◌∷◌,
  ◌++◌, arith, length, get_or, Bool-cases,
}
use quick_mpc.BoostedTrees.{Numbers, times_each, dot, sum}
use quick_mpc.BoostedTrees.Gradient.{length-times_each}
use quick_mpc.BoostedTrees.Growth.{AreWide, vector_times-some}
use quick_mpc.DecisionTree.{
  Tree, node, Trees, cons, Training, create_tree, create_children, is_empty, erase_attribute,
}
use quick_mpc.Sid3.{
  Opening, majority_class, get_max_gini, is_small_node, split_transaction, class_counts, gini,
  value_ginis, calc_gini, create_sid3_children, grown_node, create_sid3_tree,
}

-- The two ways in which the loop and the node handle a failure.
same_child :
    {A : Type 0} (c : Option (Tree A)) (cs : Option (Trees A))
    → (c >>= λ child. cs >>= λ children. some (cons child children)) ≡ elim c [
      | none ↦ none
      | some child ↦ elim cs [ none ↦ none | some children ↦ some (cons child children) ]
    ]
same_child none cs = refl
same_child (some child) none = refl
same_child (some child) (some children) = refl

same_node :
    {A : Type 0} (y : A) (att : ℕ) (cs : Option (Trees A))
    → (cs >>= λ children. some (node y att children))
      ≡ elim cs [ none ↦ none | some children ↦ some (node y att children) ]
same_node y att none = refl
same_node y att (some children) = refl

module _ {A D : Type 0} (s : Numbers A D) (o : Opening A D) where
  unfoldable pub wide_split : List (List A) → List A → List (List A)
  wide_split [] T = []
  wide_split (target ∷ targets) T = times_each s target T ∷ wide_split targets T

  unfoldable pub wide_counts : List (List A) → List A → List A
  wide_counts [] category = []
  wide_counts (u ∷ U) category = sum s (times_each s u category) ∷ wide_counts U category

  unfoldable pub wide_gini : List (List A) → List A → A
  wide_gini U category =
      let x = wide_counts U category in
      let y = sum s x in
      s.divide (sum s (times_each s x x)) (s.plus (s.times y (s.of_number 8)) (s.of_number 1))

  unfoldable pub wide_values : List (List A) → ℕ → List (List A) → List (D × ℕ)
  wide_values U r [] = []
  wide_values U r (category ∷ categories) =
      (s.to_double (wide_gini U category), r) ∷ wide_values U r categories

  unfoldable pub wide_calc : List (List A) → List (List (List A)) → List ℕ → List (D × ℕ)
  wide_calc U S [] = []
  wide_calc U S (r ∷ R) = wide_values U r (get_or S r []) ++ wide_calc U S R

  unfoldable pub wide_training : List (List (List A)) → List (List A) → Training (List A) A D
  wide_training S targets = record {
    select = λ T r j. times_each s T (get_or (get_or S r []) j []);
    value_count = λ r. length (get_or S r []);
    majority_class = λ T. majority_class s o (wide_split targets T);
    max_gini = λ T R. get_max_gini s o (wide_calc (wide_split targets T) S R);
    is_small = is_small_node s o;
  }

  split_transaction-wide_split :
      (n : ℕ) (targets : List (List A)) (T : List A)
      → length T ≡ n
      → AreWide n targets
      → split_transaction s o targets T ≡ some (wide_split targets T)
  unfolding split_transaction wide_split AreWide
  split_transaction-wide_split n [] T e wide = refl
  split_transaction-wide_split n (target ∷ targets) T e (w, wide) =
      rw
        (
          split_transaction,
          vector_times-some s target T (omega (arith, w, e)),
          split_transaction-wide_split n targets T e wide,
        )
        refl

  wide_split-AreWide :
      (n : ℕ) (targets : List (List A)) (T : List A)
      → length T ≡ n
      → AreWide n targets
      → AreWide n (wide_split targets T)
  unfolding wide_split AreWide
  wide_split-AreWide n [] T e wide = tt
  wide_split-AreWide n (target ∷ targets) T e (w, wide) = (
    length-times_each s target T (omega (arith, w, e)) ∙ w,
    wide_split-AreWide n targets T e wide,
  )

  class_counts-wide_counts :
      (n : ℕ) (U : List (List A)) (category : List A)
      → length category ≡ n
      → AreWide n U
      → class_counts s o U category ≡ some (wide_counts U category)
  unfolding class_counts wide_counts AreWide dot
  class_counts-wide_counts n [] category e wide = refl
  class_counts-wide_counts n (u ∷ U) category e (w, wide) =
      rw
        (
          class_counts,
          dot,
          vector_times-some s u category (omega (arith, w, e)),
          class_counts-wide_counts n U category e wide,
        )
        refl

  gini-wide_gini :
      (n : ℕ) (U : List (List A)) (category : List A)
      → length category ≡ n
      → AreWide n U
      → gini s o U category ≡ some (wide_gini U category)
  unfolding gini wide_gini
  gini-wide_gini n U category e wide =
      let x = wide_counts U category in
      rw (gini, class_counts-wide_counts n U category e wide, vector_times-some s x x refl) refl

  value_ginis-wide_values :
      (n : ℕ) (U : List (List A)) (r : ℕ) (categories : List (List A))
      → AreWide n categories
      → AreWide n U
      → value_ginis s o U r categories ≡ some (wide_values U r categories)
  unfolding value_ginis wide_values AreWide
  value_ginis-wide_values n U r [] all wide = refl
  value_ginis-wide_values n U r (category ∷ categories) (e, all) wide =
      rw
        (
          value_ginis,
          gini-wide_gini n U category e wide,
          value_ginis-wide_values n U r categories all wide,
        )
        refl

  calc_gini-wide_calc :
      (n : ℕ) (U : List (List A)) (S : List (List (List A))) (R : List ℕ)
      → ((r : ℕ) → AreWide n (get_or S r []))
      → AreWide n U
      → calc_gini s o U S R ≡ some (wide_calc U S R)
  unfolding calc_gini wide_calc
  calc_gini-wide_calc n U S [] all wide = refl
  calc_gini-wide_calc n U S (r ∷ R) all wide =
      rw
        (
          calc_gini,
          value_ginis-wide_values n U r (get_or S r []) (all r) wide,
          calc_gini-wide_calc n U S R all wide,
        )
        refl

  length-wide :
      (n j : ℕ) (categories : List (List A))
      → AreWide n categories
      → j < length categories
      → length (get_or categories j []) ≡ n
  unfolding AreWide
  length-wide n j [] wide h = absurd (omega arith)
  length-wide n zero (category ∷ categories) (w, wide) h = w
  length-wide n (suc j) (category ∷ categories) (w, wide) h =
      length-wide n j categories wide (omega arith)

  create_sid3_children-create_children :
      (n : ℕ) (S : List (List (List A))) (targets : List (List A))
      (first second : List A → Option (Tree A)) (rounds j att : ℕ) (T : List A)
      → length T ≡ n
      → ((r : ℕ) → AreWide n (get_or S r []))
      → j + rounds ≡ length (get_or S att [])
      → ((T_ : List A) → length T_ ≡ n → first T_ ≡ second T_)
      → create_sid3_children s o (get_or S att []) first rounds j T
        ≡ create_children (wide_training S targets) second rounds j att T
  unfolding create_sid3_children create_children wide_training
  create_sid3_children-create_children n S targets first second zero j att T e all at same = refl
  create_sid3_children-create_children n S targets first second (suc rounds) j att T e all at same =
      let category = get_or (get_or S att []) j [] in
      let w : length category ≡ n =
        length-wide n j (get_or S att []) (all att) (omega (arith, at)) in
      let T_ = times_each s T category in
      let long : length T_ ≡ n = length-times_each s T category (omega (arith, w, e)) ∙ e in
      let rest =
        create_sid3_children-create_children n S targets first second rounds (j + 1) att T e all
          (omega (arith, at)) same in
      rw
        (
          create_sid3_children,
          vector_times-some s T category (omega (arith, w, e)),
          same T_ long,
          rest,
        )
        (same_child (second T_)
          (create_children (wide_training S targets) second rounds (j + 1) att T))

  pub create_sid3_tree-create_tree :
      (n : ℕ) (S : List (List (List A))) (targets : List (List A)) (fuel : ℕ) (T : List A)
      (R : List ℕ)
      → length T ≡ n
      → AreWide n targets
      → ((r : ℕ) → AreWide n (get_or S r []))
      → create_sid3_tree s o S targets fuel T R ≡ create_tree (wide_training S targets) fuel T R
  unfolding create_sid3_tree create_tree wide_training grown_node
  create_sid3_tree-create_tree n S targets zero T R e wide all = refl
  create_sid3_tree-create_tree n S targets (suc fuel) T R e wide all =
      let U = wide_split targets T in
      let narrow = wide_split-AreWide n targets T e wide in
      let best = get_max_gini s o (wide_calc U S R) in
      let loop =
        create_sid3_children-create_children n S targets
          (λ T_. create_sid3_tree s o S targets fuel T_ (erase_attribute best.1 R))
          (λ T_. create_tree (wide_training S targets) fuel T_ (erase_attribute best.1 R))
          (length (get_or S best.1 [])) 0 best.1 T e all (omega arith)
          (λ T_ long.
            create_sid3_tree-create_tree n S targets fuel T_ (erase_attribute best.1 R) long wide
              all) in
      let split = split_transaction-wide_split n targets T e wide in
      let counts = calc_gini-wide_calc n U S R all narrow in
      let chosen : create_sid3_tree s o S targets (suc fuel) T R
          ≡ grown_node s o (λ T_ R_. create_sid3_tree s o S targets fuel T_ R_) S T R
              (majority_class s o U) best =
        rw (create_sid3_tree, split, counts) refl in
      chosen ∙ elim (Bool-cases (is_empty R || is_small_node s o T best.0)) [
        | inl stops ↦ rw (grown_node, create_tree, stops) refl
        | inr goes ↦
            rw (grown_node, create_tree, goes, loop)
              (same_node (majority_class s o U) best.1 (
                create_children (wide_training S targets)
                  (λ T_. create_tree (wide_training S targets) fuel T_ (erase_attribute best.1 R))
                  (length (get_or S best.1 [])) 0 best.1 T))
      ]

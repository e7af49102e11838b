-- ===== src/BoostedTrees/Growth.antt =====
-- The construction of a regression tree ends without an exception, and the tree is masked by the
-- rows that it was made from.
use quick_mpc.Prelude.{
  ℕ, zero, suc, ◌<◌, ◌≡◌, refl, sym, ap, ◌∙◌, ◌⊎◌, inl, inr, true, false, Option, some, List, [],
  ◌∷◌, map, ltb, if◌then◌else◌, arith, length, get_or, replicate, Bool-cases,
}
use quick_mpc.DecisionTree.{is_empty, erase_attribute}
use quick_mpc.DecisionTree.Growth.{In, erase_attribute-shorter}
use quick_mpc.BoostedTrees.{
  Numbers, Node, RegressionTree, regression_node, Children, no_child, child_then, times_each,
  vector_times, sum, dot, data_size, make_node, infomation_gain, squared_errors, sum_error,
  category_errors, less_pair, min_element, least_error, ig, stops, create_children, create_tree,
}
use quick_mpc.BoostedTrees.Gradient.{IsMasked, AreMasked, length-times_each, length-replicate}

-- Each category has a bit for each of the `n` rows.
unfoldable pub AreWide : {A : Type 0} → ℕ → List (List A) → Type 0
AreWide n [] = Unit {0}
AreWide n (category ∷ categories) = (length category ≡ n) × AreWide n categories

module _ {A D : Type 0} (s : Numbers A D) where
  pub vector_times-some :
      (x y : List A) → length x ≡ length y → vector_times s x y ≡ some (times_each s x y)
  unfolding vector_times
  vector_times-some x y e = ground (arith, e)

  -- The constructor has no exception; the gradient of the node is its prediction for its rows.
  make_node-some :
      (T targets : List A) (error_value : D) (att_class : ℕ)
      → length targets ≡ length T
      → (n : Node A D) × (make_node s T targets error_value att_class ≡ some n)
        × (n.grads ≡ times_each s (replicate (length T) n.y) T)
        × (n.rows ≡ length T)
        × (n.att_class ≡ att_class)
  unfolding make_node dot
  make_node-some T targets error_value att_class e =
      let total = sum s (times_each s targets T) in
      let y =
        if ltb 1 (data_size s T) then s.divide total (s.of_number (data_size s T)) else total in
      (
        record {
          grads = times_each s (replicate (length T) y) T;
          error_value = error_value;
          att_class = att_class;
          size = data_size s T;
          rows = length T;
          y = y;
        },
        rw
            (
              make_node,
              dot,
              vector_times-some targets T e,
              vector_times-some (replicate (length T) y) T (length-replicate (length T) y),
            )
            refl,
        refl,
        refl,
        refl,
      )

  infomation_gain-some :
      (T targets category : List A)
      → length targets ≡ length T
      → length category ≡ length T
      → (gain : A) × (infomation_gain s T targets category ≡ some gain)
  unfolding infomation_gain dot
  infomation_gain-some T targets category e w =
      let mask = times_each s category T in
      let long = length-times_each s category T (sym w) ∙ w in
      elim (Bool-cases (s.is_zero (sum s mask))) [
        | inl none_left ↦ (
          s.of_number 1000000000,
          rw (infomation_gain, vector_times-some category T w, none_left) refl,
        )
        | inr rows_left ↦
            let mean =
              replicate (length T) (s.divide (sum s (times_each s mask targets)) (sum s mask)) in
            let error =
              squared_errors s s.default (times_each s targets mask) (times_each s mean mask) in
            (
              s.divide error (s.of_number 2),
              rw
                  (
                    infomation_gain,
                    vector_times-some category T w,
                    rows_left,
                    dot,
                    vector_times-some mask targets (long ∙ sym e),
                    vector_times-some mean mask (length-replicate (length T) _ ∙ sym long),
                    vector_times-some targets mask (e ∙ sym long),
                  )
                  refl,
            )
      ]

  sum_error-some :
      (T targets : List A) (ret : A) (categories : List (List A))
      → length targets ≡ length T
      → AreWide (length T) categories
      → (error : A) × (sum_error s T targets ret categories ≡ some error)
  unfolding sum_error AreWide
  sum_error-some T targets ret [] e wide = (ret, refl)
  sum_error-some T targets ret (category ∷ categories) e (w, wide) =
      let (gain, g) = infomation_gain-some T targets category e w in
      let (error, h) = sum_error-some T targets (s.plus ret gain) categories e wide in
      (error, rw (sum_error, g, h) refl)

  module _ (S : List (List (List A))) (targets : List A) (T : List A)
      (e : length targets ≡ length T) (wide : (r : ℕ) → AreWide (length T) (get_or S r [])) where
    -- The errors are listed in the order of the attributes.
    category_errors-some :
        (R : List ℕ)
        → (errors : List (D × ℕ)) × (category_errors s T S targets R ≡ some errors)
          × (map (λ (p : D × ℕ). p.1) errors ≡ R)
    unfolding category_errors
    category_errors-some [] = ([], refl, refl)
    category_errors-some (r ∷ R) =
        let (error, h) = sum_error-some T targets s.default (get_or S r []) e (wide r) in
        let (errors, k, m) = category_errors-some R in
        ((s.to_double error, r) ∷ errors, rw (category_errors, h, k) refl, ap (λ t. r ∷ t) m)

  min_element-In :
      (best : D × ℕ) (rest : List (D × ℕ))
      → ((min_element s best rest).1 ≡ best.1)
        ⊎ In (min_element s best rest).1 (map (λ (p : D × ℕ). p.1) rest)
  unfolding min_element
  min_element-In best [] = inl refl
  min_element-In best (x ∷ rest) =
      elim (min_element-In (if less_pair s x best then x else best) rest) [
        | inl e ↦ elim (Bool-cases (less_pair s x best)) [
          | inl less ↦ inr (inl (e ∙ rw less refl))
          | inr same ↦ inl (e ∙ rw same refl)
        ]
        | inr there ↦ inr (inr there)
      ]

  least_error-In :
      (errors : List (D × ℕ)) (R : List ℕ)
      → map (λ (p : D × ℕ). p.1) errors ≡ R
      → is_empty R ≡ false
      → In (least_error s errors).1 R
  unfolding least_error is_empty
  least_error-In [] [] e more = absurd (ground (arith, more))
  least_error-In [] (r ∷ R) e more = absurd (ground (arith, e))
  least_error-In (x ∷ rest) R e more = rw (← e) (min_element-In x rest)

  ig-some :
      (T : List A) (S : List (List (List A))) (targets : List A) (R : List ℕ)
      → length targets ≡ length T
      → ((r : ℕ) → AreWide (length T) (get_or S r []))
      → (error_value : D) × (att : ℕ) × (ig s T S targets R ≡ some (error_value, att))
        × (is_empty R ≡ false → In att R)
  unfolding ig
  ig-some T S targets R e wide =
      let (errors, listed, same) = category_errors-some S targets T e wide R in
      (
        (least_error s errors).0,
        (least_error s errors).1,
        rw (ig, listed) refl,
        least_error-In errors R same,
      )

  -- A node that stays a leaf, and one that goes on.
  create_tree-leaf :
      (fuel : ℕ) (T : List A) (S : List (List (List A))) (targets : List A) (R : List ℕ)
      (error_value : D) (att : ℕ) (n : Node A D)
      → ig s T S targets R ≡ some (error_value, att)
      → make_node s T targets error_value att ≡ some n
      → stops s T R n.size ≡ true
      → create_tree s (suc fuel) T S targets R ≡ some (regression_node n no_child)
  unfolding create_tree
  create_tree-leaf fuel T S targets R error_value att n e made stop =
      rw (create_tree, e, made) (ground (arith, stop))

  create_tree-inner :
      (fuel : ℕ) (T : List A) (S : List (List (List A))) (targets : List A) (R : List ℕ)
      (error_value : D) (att : ℕ) (n : Node A D) (children : Children A D)
      → ig s T S targets R ≡ some (error_value, att)
      → make_node s T targets error_value att ≡ some n
      → stops s T R n.size ≡ false
      → create_children s
          (λ T_. create_tree s fuel T_ S targets (erase_attribute att R))
          T
          (get_or S att [])
        ≡ some children
      → create_tree s (suc fuel) T S targets R ≡ some (regression_node n children)
  unfolding create_tree
  create_tree-inner fuel T S targets R error_value att n children e made go grown =
      rw (create_tree, e, made) (ground (arith, go, grown))

  goes-nonempty :
      (T : List A) (R : List ℕ) (size : ℕ) → stops s T R size ≡ false → is_empty R ≡ false
  unfolding stops
  goes-nonempty T R size go = ground (arith, go)

  -- The children are made from the rows with the values of the attribute, in their order.
  create_children-some :
      (create : List A → Option (RegressionTree A D)) (T : List A) (categories : List (List A))
      (S : List (List (List A)))
      → AreWide (length T) categories
      → ((T_ : List A)
          → length T_ ≡ length T
          → (tree : RegressionTree A D) × (create T_ ≡ some tree) × IsMasked s tree T_ S)
      → (children : Children A D) × (create_children s create T categories ≡ some children)
        × AreMasked s children T categories S
  unfolding create_children AreWide AreMasked
  create_children-some create T [] S wide grow = (no_child, refl, tt)
  create_children-some create T (category ∷ categories) S (w, wide) grow =
      let T_ = times_each s T category in
      let (child, made, masked) = grow T_ (length-times_each s T category w) in
      let (children, e, all) = create_children-some create T categories S wide grow in
      (
        child_then child children,
        rw (create_children, vector_times-some T category (sym w), made, e) refl,
        (w, masked, all),
      )

  leaf-IsMasked :
      (n : Node A D) (T : List A) (S : List (List (List A)))
      → n.grads ≡ times_each s (replicate (length T) n.y) T
      → IsMasked s (regression_node n no_child) T S
  unfolding IsMasked
  leaf-IsMasked n T S grads = grads

  node-IsMasked :
      (n : Node A D) (children : Children A D) (T : List A) (S : List (List (List A)))
      → n.grads ≡ times_each s (replicate (length T) n.y) T
      → n.rows ≡ length T
      → AreMasked s children T (get_or S n.att_class []) S
      → IsMasked s (regression_node n children) T S
  unfolding IsMasked
  node-IsMasked n no_child T S grads rows all = grads
  node-IsMasked n (child_then child children) T S grads rows all = (rows, all)

-- Where the target values and each category have as many entries as there are rows, fuel for one
-- call more than there are attributes gives a tree, and the tree is masked by its rows: each leaf
-- has its prediction for the rows that lead to it as its gradient, and the children of a node are
-- made from the rows with the values of its attribute.
pub create_tree_lem :
    {A D : Type 0} (s : Numbers A D) (fuel : ℕ) (T : List A) (S : List (List (List A)))
    (targets : List A) (R : List ℕ)
    → length R < fuel
    → length targets ≡ length T
    → ((r : ℕ) → AreWide (length T) (get_or S r []))
    → (tree : RegressionTree A D) × (create_tree s fuel T S targets R ≡ some tree)
      × IsMasked s tree T S
unfolding create_tree
create_tree_lem s zero T S targets R enough e wide = absurd (omega arith)
create_tree_lem s (suc fuel) T S targets R enough e wide =
    let (error_value, att, best, there) = ig-some s T S targets R e wide in
    let (n, made, grads, rows, chosen) = make_node-some s T targets error_value att e in
    elim (Bool-cases (stops s T R n.size)) [
      | inl stop ↦ (
        regression_node n no_child,
        create_tree-leaf s fuel T S targets R error_value att n best made stop,
        leaf-IsMasked s n T S grads,
      )
      | inr go ↦
          let shorter = erase_attribute-shorter att R (there (goes-nonempty s T R n.size go)) in
          let (children, grown, all) =
            create_children-some s (λ T_. create_tree s fuel T_ S targets (erase_attribute att R)) T
              (get_or S att []) S (wide att)
              (λ T_ l.
                create_tree_lem s fuel T_ S targets (erase_attribute att R) (omega (arith, shorter))
                  (e ∙ sym l) (λ r. rw l (wide r))) in
          (
            regression_node n children,
            create_tree-inner s fuel T S targets R error_value att n children best made go grown,
            node-IsMasked s n children T S grads rows (rw chosen all),
          )
    ]

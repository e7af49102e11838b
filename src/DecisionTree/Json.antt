-- ===== src/DecisionTree/Json.antt =====
-- A tree that is written as JSON and read again predicts as before.
use quick_mpc.Prelude.{ℕ, ◌+◌, ◌≡◌, refl, List, [], get_or}
use quick_mpc.DecisionTree.{
  Arithmetic, Tree, node, Trees, nil, cons, predict_tree, predict_loop, create_tree_json,
  create_tree_jsons, tree_of_json, trees_of_json,
}

-- The value of every leaf satisfies the predicate.
unfoldable mutual
  pub Leaves : {A : Type 0} → (A → Type 0) → Tree A → Type 0
  Leaves P (node y att_class nil) = P y
  Leaves P (node y att_class (cons child children)) = AllLeaves P (cons child children)

  pub AllLeaves : {A : Type 0} → (A → Type 0) → Trees A → Type 0
  AllLeaves P nil = Unit {0}
  AllLeaves P (cons child children) = Leaves P child × AllLeaves P children

module _ {A D : Type 0} (s : Arithmetic A) (to_double : A → D) (of_double : D → A) (unset : ℕ) where
  -- The value survives the conversion to the number of the text and back.
  abbrev pub IsExact : A → Type 0
  IsExact a = of_double (to_double a) ≡ a

  mutual
    unfolding predict_tree predict_loop create_tree_json create_tree_jsons tree_of_json
        trees_of_json Leaves AllLeaves

    predict-read :
        (tree : Tree A) (row : List (List A))
        → Leaves IsExact tree
        → predict_tree s (tree_of_json of_double unset (create_tree_json to_double tree)) row
          ≡ predict_tree s tree row
    predict-read (node y att_class nil) row exact = exact
    predict-read (node y att_class (cons child children)) row exact =
        loop-read (cons child children) (get_or row att_class []) 0 s.default row exact

    loop-read :
        (children : Trees A) (bits : List A) (index : ℕ) (ret : A) (row : List (List A))
        → AllLeaves IsExact children
        → predict_loop s
            (trees_of_json of_double unset (create_tree_jsons to_double children))
            bits
            index
            ret
            row
          ≡ predict_loop s children bits index ret row
    loop-read nil bits index ret row exact = refl
    loop-read (cons child children) bits index ret row exact =
        rw (predict-read child row exact.0) (loop-read children bits (index + 1) _ row exact.1)

  -- Where the values of the leaves survive the conversion to the numbers of the text and back, a tree that is
  -- written as JSON and read again predicts what it predicted before, for all data.
  pub tree_of_json-create_tree_json :
      (tree : Tree A) (row : List (List A))
      → Leaves IsExact tree
      → predict_tree s (tree_of_json of_double unset (create_tree_json to_double tree)) row
        ≡ predict_tree s tree row
  tree_of_json-create_tree_json tree row exact = predict-read tree row exact

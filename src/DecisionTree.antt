-- ===== src/DecisionTree.antt =====
-- src/ComputationContainer/GBDT/SID3.cpp: what a decision tree predicts. The shares are told by the values that
-- they stand for, with the operations that the loop uses. A read past the end of a vector, which the
-- language leaves undefined, gives a value of which nothing is known.
pub mod Leaf
pub mod Growth
pub mod Json
mod Tests
use quick_mpc.Prelude.{
  ℕ, zero, suc, ◌+◌, Bool, true, false, ◌||◌, Option, none, some, List, [], ◌∷◌, ◌==◌,
  if◌then◌else◌, get_or,
}

-- The default value, the sum and the product of shares, and a read past the end.
pub record Arithmetic (A : Type 0) : Type 0 where
  pub default : A
  pub plus : A → A → A
  pub times : A → A → A
  pub outside : A

mutual
  -- `SID3`, with the members that a prediction reads.
  pub data Tree (A : Type 0) : Type 0 where
    node : A → ℕ → Trees A → Tree A

  -- `children`.
  pub data Trees (A : Type 0) : Type 0 where
    nil : Trees A
    cons : Tree A → Trees A → Trees A

module _ {A : Type 0} (s : Arithmetic A) where
  unfoldable mutual
    pub predict_tree : Tree A → List (List A) → A
    predict_tree (node y att_class nil) data_row = y
    predict_tree (node y att_class (cons child children)) data_row =
        predict_loop (cons child children) (get_or data_row att_class []) 0 s.default data_row

    -- The loop over the children from the position `index` on.
    pub predict_loop : Trees A → List A → ℕ → A → List (List A) → A
    predict_loop nil attribute_value index ret data_row = ret
    predict_loop (cons child children) attribute_value index ret data_row =
        predict_loop children attribute_value (index + 1)
          (s.plus ret
            (s.times (get_or attribute_value index s.outside) (predict_tree child data_row)))
          data_row

-- What the construction of a tree uses of shares and floating point numbers: the selection of data
-- `T * S[r][j]`, the number of values of an attribute, the most frequent class, the best attribute with
-- its coefficient, and the conditions on the size and the coefficient under which it stops.
pub record Training (T A G : Type 0) : Type 0 where
  pub select : T → ℕ → ℕ → T
  pub value_count : ℕ → ℕ
  pub majority_class : T → A
  pub max_gini : T → List ℕ → G × ℕ
  pub is_small : T → G → Bool

-- `erase` of a set.
unfoldable pub erase_attribute : ℕ → List ℕ → List ℕ
erase_attribute a [] = []
erase_attribute a (r ∷ attributes) =
    let rest = erase_attribute a attributes in if r == a then rest else r ∷ rest

unfoldable pub is_empty : List ℕ → Bool
is_empty [] = true
is_empty (r ∷ attributes) = false

module _ {T A G : Type 0} (s : Training T A G) where
  -- The loop over the values of the attribute.
  unfoldable pub create_children : (T → Option (Tree A)) → ℕ → ℕ → ℕ → T → Option (Trees A)
  create_children create zero j att_class rows = some nil
  create_children create (suc rounds) j att_class rows = elim (create (s.select rows att_class j)) [
    | none ↦ none
    | some child ↦ elim (create_children create rounds (j + 1) att_class rows) [
      | none ↦ none
      | some children ↦ some (cons child children)
    ]
  ]

  -- `createTree`, with the depth of its calls as fuel.
  unfoldable pub create_tree : ℕ → T → List ℕ → Option (Tree A)
  create_tree zero rows attributes = none
  create_tree (suc fuel) rows attributes =
      let (gini_index, att_class) = s.max_gini rows attributes in
      elim (is_empty attributes || s.is_small rows gini_index) [
        | true ↦ some (node (s.majority_class rows) att_class nil)
        | false ↦
            elim (create_children
              (λ selected. create_tree fuel selected (erase_attribute att_class attributes))
              (s.value_count att_class) 0 att_class rows) [
                | none ↦ none
                | some children ↦ some (node (s.majority_class rows) att_class children)
              ]
      ]

-- The JSON object of a tree, with the members that a prediction reads; a leaf has no `att_class`.
mutual
  pub data TreeJson (D : Type 0) : Type 0 where
    object : D → Option ℕ → TreeJsons D → TreeJson D

  pub data TreeJsons (D : Type 0) : Type 0 where
    no_more : TreeJsons D
    entry_then : TreeJson D → TreeJsons D → TreeJsons D

-- `createTreeJson`, with the conversion of a value to a number of the JSON text.
unfoldable mutual
  pub create_tree_json : {A D : Type 0} → (A → D) → Tree A → TreeJson D
  create_tree_json to_double (node y att_class nil) = object (to_double y) none no_more
  create_tree_json to_double (node y att_class (cons child children)) =
      object (to_double y) (some att_class) (create_tree_jsons to_double (cons child children))

  -- The loop over the children.
  pub create_tree_jsons : {A D : Type 0} → (A → D) → Trees A → TreeJsons D
  create_tree_jsons to_double nil = no_more
  create_tree_jsons to_double (cons child children) =
      entry_then (create_tree_json to_double child) (create_tree_jsons to_double children)

-- The constructor from a JSON object; where `att_class` is missing, the member keeps an unknown value.
unfoldable mutual
  pub tree_of_json : {A D : Type 0} → (D → A) → ℕ → TreeJson D → Tree A
  tree_of_json of_double unset (object y none children) =
      node (of_double y) unset (trees_of_json of_double unset children)
  tree_of_json of_double unset (object y (some att_class) children) =
      node (of_double y) att_class (trees_of_json of_double unset children)

  pub trees_of_json : {A D : Type 0} → (D → A) → ℕ → TreeJsons D → Trees A
  trees_of_json of_double unset no_more = nil
  trees_of_json of_double unset (entry_then json jsons) =
      cons (tree_of_json of_double unset json) (trees_of_json of_double unset jsons)

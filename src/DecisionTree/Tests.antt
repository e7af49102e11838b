-- ===== src/DecisionTree/Tests.antt =====
-- A tree over two attributes with two and three values.
use quick_mpc.Prelude.{ℕ, zero, suc, ◌+◌, ◌-◌, ◌*◌, ◌≡◌, refl, inl, false, List, [], ◌∷◌, arith}
use quick_mpc.DecisionTree.{
  create_tree_json, tree_of_json, Arithmetic, Tree, node, nil, cons, predict_tree, Training,
  is_empty,
}
use quick_mpc.DecisionTree.Leaf.{
  IsArithmetic, IsOneHot, IsReadable, follow, follow_at, Fits, AllFit, count, predict_tree_lem,
}
use quick_mpc.DecisionTree.Json.{Leaves, AllLeaves, IsExact, tree_of_json-create_tree_json}
use quick_mpc.DecisionTree.Growth.{ChoosesLeft}

abbrev numbers : Arithmetic ℕ
numbers = record { default = 0; plus = λ a b. a + b; times = λ a b. a * b; outside = 0 }

numbers-IsArithmetic : IsArithmetic numbers 1
numbers-IsArithmetic = record {
  times_one = λ a. omega arith;
  times_zero = λ a. omega arith;
  plus_zero = λ a. omega arith;
  zero_plus = λ a. omega arith;
}

abbrev leaf : ℕ → Tree ℕ
leaf y = node y 0 nil

abbrev small_tree : Tree ℕ
small_tree =
    node 9 1
      (cons (leaf 4) (cons (node 8 0 (cons (leaf 5) (cons (leaf 6) nil))) (cons (leaf 7) nil)))

-- The first attribute has its second value; the second attribute too.
abbrev bits : List (List ℕ)
bits = (0 ∷ 1 ∷ []) ∷ (0 ∷ 1 ∷ 0 ∷ []) ∷ []

abbrev second : ℕ → ℕ
second r = 1

bits-IsOneHot : IsOneHot numbers 1 bits second
bits-IsOneHot zero zero h k = refl
bits-IsOneHot zero (suc zero) h k = refl
bits-IsOneHot zero (suc (suc j)) h k = absurd (omega (arith, k))
bits-IsOneHot (suc zero) zero h k = refl
bits-IsOneHot (suc zero) (suc zero) h k = refl
bits-IsOneHot (suc zero) (suc (suc zero)) h k = refl
bits-IsOneHot (suc zero) (suc (suc (suc j))) h k = absurd (omega (arith, k))
bits-IsOneHot (suc (suc r)) j h k = absurd (omega (arith, h))

small_tree-Fits : Fits small_tree (IsReadable bits second)
unfolding Fits AllFit count
small_tree-Fits = (
  (omega arith, omega arith, omega arith),
  (tt, (((omega arith, omega arith, omega arith), (tt, (tt, tt))), (tt, tt))),
)

small_tree_leaf : predict_tree numbers small_tree bits ≡ 6
unfolding follow follow_at
small_tree_leaf =
    predict_tree_lem numbers 1 small_tree bits second numbers-IsArithmetic bits-IsOneHot
      small_tree-Fits

-- The first attribute that is left is chosen.
abbrev first_of : List ℕ → ℕ
first_of [] = 0
first_of (r ∷ attributes) = r

abbrev training : Training ℕ ℕ ℕ
training = record {
  select = λ rows r j. rows + j;
  value_count = λ r. 2;
  majority_class = λ rows. rows;
  max_gini = λ rows attributes. (1, first_of attributes);
  is_small = λ rows gini. false;
}

training-ChoosesLeft : ChoosesLeft training
unfolding is_empty
training-ChoosesLeft rows [] small empty = absurd (ground (arith, empty))
training-ChoosesLeft rows (r ∷ attributes) small empty = inl refl

small_tree-Leaves : Leaves (IsExact {A = ℕ} {D = ℕ} numbers (λ y. y + 1) (λ d. d - 1) 0) small_tree
unfolding Leaves AllLeaves
small_tree-Leaves = (refl, ((refl, (refl, tt)), (refl, tt)))

tree_of_json-create_tree_json_example :
    predict_tree numbers
      (tree_of_json (λ d. d - 1) 0 (create_tree_json (λ y. y + 1) small_tree))
      bits
    ≡ predict_tree numbers small_tree bits
tree_of_json-create_tree_json_example =
    tree_of_json-create_tree_json numbers (λ y. y + 1) (λ d. d - 1) 0 small_tree bits
      small_tree-Leaves

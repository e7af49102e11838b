-- ===== src/Sid3.antt =====
-- src/ComputationContainer/GBDT/SID3.cpp: what the construction of a decision tree computes from
-- the rows that a node selects: the data divided by the values of the target, the most frequent of
-- those, and the coefficient of each value of each attribute. The shares are told by the values that they
-- stand for.
pub mod Choice
pub mod Wide
mod Tests
use quick_mpc.Prelude.{
  ℕ, zero, suc, ◌+◌, ◌/◌, Bool, true, false, Option, none, some, ◌>>=◌, ◌||◌, not, ◌&&◌, List, [],
  ◌∷◌, ◌++◌, map, ltb, leb, ◌==◌, if◌then◌else◌, length, get_or,
}
use quick_mpc.BoostedTrees.{Numbers, vector_times, dot, sum, data_size, less_pair}
use quick_mpc.DecisionTree.{Tree, node, Trees, nil, cons, is_empty, erase_attribute}

-- `static_cast<int>` of an opened value, and the test `<= eps` of a coefficient.
pub record Opening (A D : Type 0) : Type 0 where
  pub to_count : A → ℕ
  pub is_tiny : D → Bool

module _ {A D : Type 0} (s : Numbers A D) (o : Opening A D) where
  -- A product of vectors of unequal lengths throws: `none`.
  unfoldable pub split_transaction : List (List A) → List A → Option (List (List A))
  split_transaction [] T = some []
  split_transaction (target ∷ targets) T = do
    si ← vector_times s target T
    U ← split_transaction targets T
    some (si ∷ U)

  -- The loop of `majorityClass` from the index on.
  unfoldable pub base_counts : ℕ → List (List A) → List (ℕ × ℕ)
  base_counts index [] = []
  base_counts index (u ∷ U) = (o.to_count (sum s u), index) ∷ base_counts (index + 1) U

  -- `<` of pairs of numbers, and `max_element`: the first of the greatest pairs.
  unfoldable pub less_count : ℕ × ℕ → ℕ × ℕ → Bool
  less_count (a, i) (b, j) = ltb a b || (not (ltb b a) && ltb i j)

  unfoldable pub max_count : ℕ × ℕ → List (ℕ × ℕ) → ℕ × ℕ
  max_count best [] = best
  max_count best (x ∷ rest) = max_count (if less_count best x then x else best) rest

  -- Without values of the target, where the source is undefined, nothing is known of the result.
  unfoldable pub majority_class : List (List A) → A
  majority_class [] = s.outside
  majority_class (u ∷ U) = s.of_number (max_count (o.to_count (sum s u), 0) (base_counts 1 U)).1

  -- `x[i] = dot(U[i], S[r][j])`.
  unfoldable pub class_counts : List (List A) → List A → Option (List A)
  class_counts [] category = some []
  class_counts (u ∷ U) category = do
    count ← dot s u category
    x ← class_counts U category
    some (count ∷ x)

  -- The sum of the squares, divided by eight times the sum and one.
  unfoldable pub gini : List (List A) → List A → Option A
  gini U category = do
    x ← class_counts U category
    xx_ ← vector_times s x x
    let y = s.plus (s.times (sum s x) (s.of_number 8)) (s.of_number 1)
    some (s.divide (sum s xx_) y)

  unfoldable pub value_ginis : List (List A) → ℕ → List (List A) → Option (List (D × ℕ))
  value_ginis U r [] = some []
  value_ginis U r (category ∷ categories) = do
    g ← gini U category
    rest ← value_ginis U r categories
    some ((s.to_double g, r) ∷ rest)

  unfoldable pub calc_gini : List (List A) → List (List (List A)) → List ℕ → Option (List (D × ℕ))
  calc_gini U S [] = some []
  calc_gini U S (r ∷ R) = do
    here ← value_ginis U r (get_or S r [])
    rest ← calc_gini U S R
    some (here ++ rest)

  unfoldable pub max_element : D × ℕ → List (D × ℕ) → D × ℕ
  max_element best [] = best
  max_element best (x ∷ rest) = max_element (if less_pair s best x then x else best) rest

  -- Without coefficients the index is -1, of which no use is made; it is 0 here.
  unfoldable pub get_max_gini : List (D × ℕ) → D × ℕ
  get_max_gini [] = (s.minus_one, 0)
  get_max_gini (x ∷ rest) = max_element x rest

  -- The test of `createTree` besides that for attributes.
  unfoldable pub is_small_node : List A → D → Bool
  is_small_node T gini_index =
      leb (data_size s T) (length T / 2) || (data_size s T == 0) || o.is_tiny gini_index

  -- The loop of `createTree` over the values of the attribute from `j` on.
  unfoldable pub create_sid3_children :
      List (List A) → (List A → Option (Tree A)) → ℕ → ℕ → List A → Option (Trees A)
  create_sid3_children categories create zero j T = some nil
  create_sid3_children categories create (suc rounds) j T = do
    T_ ← vector_times s T (get_or categories j [])
    child ← create T_
    children ← create_sid3_children categories create rounds (j + 1) T
    some (cons child children)

  -- `createTree` behind the choice of the attribute.
  unfoldable pub grown_node :
      (List A → List ℕ → Option (Tree A))
      → List (List (List A))
      → List A
      → List ℕ
      → A
      → D × ℕ
      → Option (Tree A)
  grown_node create S T R y (gini_index, att_class) =
      elim (is_empty R || is_small_node T gini_index) [
        | true ↦ some (node y att_class nil)
        | false ↦ do
          children ←
              create_sid3_children (get_or S att_class [])
                (λ T_. create T_ (erase_attribute att_class R)) (length (get_or S att_class [])) 0 T
          some (node y att_class children)
      ]

  -- `createTree`, with the depth of its calls as fuel.
  unfoldable pub create_sid3_tree :
      List (List (List A)) → List (List A) → ℕ → List A → List ℕ → Option (Tree A)
  create_sid3_tree S targets zero T R = none
  create_sid3_tree S targets (suc fuel) T R = do
    U ← split_transaction targets T
    gini_indexies ← calc_gini U S R
    grown_node (λ T_ R_. create_sid3_tree S targets fuel T_ R_) S T R (majority_class U)
        (get_max_gini gini_indexies)

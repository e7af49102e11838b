-- ===== src/ShareMatrix/Tests.antt =====
-- Matrices of two rows over natural numbers.
use quick_mpc.Prelude.{ℕ, ◌+◌, ◌*◌, ◌≡◌, refl, some, List, [], ◌∷◌, table}
use quick_mpc.DecisionTree.{Arithmetic}
use quick_mpc.ShareMatrix.{
  column_loop, row_loop, at, multiply_each, multiply_vectors, take_sum, take_row, take_rows,
  product,
}
use quick_mpc.ShareMatrix.Product.{sum_below, product_lem}

abbrev whole_numbers : Arithmetic ℕ
whole_numbers = record { default = 0; plus = λ a b. a + b; times = λ a b. a * b; outside = 0 }

abbrev left : List (List ℕ)
left = (1 ∷ 2 ∷ 3 ∷ []) ∷ (4 ∷ 5 ∷ 6 ∷ []) ∷ []

abbrev right : List (List ℕ)
right = (1 ∷ 0 ∷ []) ∷ (0 ∷ 1 ∷ []) ∷ (1 ∷ 1 ∷ []) ∷ []

small_product : product whole_numbers left right ≡ some ((4 ∷ 5 ∷ []) ∷ (10 ∷ 11 ∷ []) ∷ [])
unfolding product multiply_vectors multiply_each row_loop column_loop take_rows take_row take_sum
small_product = refl

product_lem_example :
    product whole_numbers left right
    ≡ some (
        table 2 0 (λ i. table 2 0 (λ j.
          sum_below whole_numbers 3 (λ k. at whole_numbers left i k * at whole_numbers right k j))))
product_lem_example = product_lem whole_numbers left right refl

-- The matrix that exchanges two rows, which is its own inverse.
abbrev swap : List (List ℕ)
swap = (0 ∷ 1 ∷ []) ∷ (1 ∷ 0 ∷ []) ∷ []

abbrev identity : List (List ℕ)
identity = (1 ∷ 0 ∷ []) ∷ (0 ∷ 1 ∷ []) ∷ []

exchanged_twice : product whole_numbers swap swap ≡ some identity
unfolding product multiply_vectors multiply_each row_loop column_loop take_rows take_row take_sum
exchanged_twice = refl

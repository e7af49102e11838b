-- ===== src/BitTable/Sizes.antt =====
-- The sizes of the attributes cover the columns.
use quick_mpc.Prelude.{ℕ, ◌+◌, ◌≡◌, List, [], ◌∷◌, arith, length}
use quick_mpc.BitTable.{attr_size_loop, attr_size_list}

unfoldable pub sum : List ℕ → ℕ
sum [] = 0
sum (n ∷ ns) = n + sum ns

sum-attr_size_loop :
    (past_end : ℕ) (schemas : List (List ℕ)) (size : ℕ)
    → sum (attr_size_loop past_end schemas size) ≡ size + length schemas
unfolding sum attr_size_loop
sum-attr_size_loop past_end [] size = omega arith
sum-attr_size_loop past_end (name ∷ schemas) size =
    ground
      (arith, sum-attr_size_loop past_end schemas 1, sum-attr_size_loop past_end schemas (size + 1))

pub sum-attr_size_list :
    (past_end : ℕ) (schemas : List (List ℕ))
    → sum (attr_size_list past_end schemas) ≡ length schemas
unfolding attr_size_list
sum-attr_size_list past_end schemas = omega (arith, sum-attr_size_loop past_end schemas 0)

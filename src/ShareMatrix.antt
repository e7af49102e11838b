-- ===== src/ShareMatrix.antt =====
-- src/ComputationContainer/Share/Matrix.cpp: the product of matrices of shares, for which all
-- products of entries are computed in one multiplication of vectors, and the inverse by a random
-- matrix. The shares are told by the values that they stand for. A matrix is the list of its rows,
-- as `get_row` gives them. `none` is an exception.
pub mod Product
pub mod Inverse
mod Tests
use quick_mpc.DecisionTree.{Arithmetic}
use quick_mpc.Prelude.{
  ℕ, zero, suc, ◌+◌, Option, none, some, List, [], ◌∷◌, ◌++◌, ◌==◌, if◌then◌else◌, length, get_or,
  table, ◌>>=◌,
}

abbrev pub height : {A : Type 0} → List (List A) → ℕ
height mat = length mat

-- `mat_v[0].size()`; without a row, where the source is undefined, it is zero.
abbrev pub width : {A : Type 0} → List (List A) → ℕ
width mat = length (get_or mat 0 [])

-- The three loops around `emplace_back`: for the row `i`, the column `j`, the position `k`.
unfoldable pub column_loop : {A : Type 0} → ℕ → ℕ → ℕ → (ℕ → ℕ → A) → List A
column_loop zero j w f = []
column_loop (suc rounds) j w f = table w 0 (f j) ++ column_loop rounds (j + 1) w f

unfoldable pub row_loop : {A : Type 0} → ℕ → ℕ → ℕ → ℕ → (ℕ → ℕ → ℕ → A) → List A
row_loop zero i columns w f = []
row_loop (suc rounds) i columns w f =
    column_loop columns 0 w (f i) ++ row_loop rounds (i + 1) columns w f

module _ {A : Type 0} (s : Arithmetic A) where
  -- `mat(i, j)`.
  abbrev pub at : List (List A) → ℕ → ℕ → A
  at mat i j = get_or (get_or mat i []) j s.outside

  -- `a * b` of vectors of the same length.
  unfoldable pub multiply_each : List A → List A → List A
  multiply_each [] b = []
  multiply_each (x ∷ a) [] = []
  multiply_each (x ∷ a) (y ∷ b) = s.times x y ∷ multiply_each a b

  unfoldable pub multiply_vectors : List A → List A → Option (List A)
  multiply_vectors a b = if length a == length b then some (multiply_each a b) else none

  -- `s += mul[it]` and `++it`, `rounds` times.
  unfoldable pub take_sum : ℕ → List A → ℕ → A → A × ℕ
  take_sum zero mul it sum = (sum, it)
  take_sum (suc rounds) mul it sum =
      take_sum rounds mul (it + 1) (s.plus sum (get_or mul it s.outside))

  -- One row of sums, and all rows, with the position behind them.
  unfoldable pub take_row : ℕ → ℕ → List A → ℕ → List A × ℕ
  take_row zero w mul it = ([], it)
  take_row (suc rounds) w mul it =
      let (sum, next) = take_sum w mul it s.default in
      let (row, last) = take_row rounds w mul next in (sum ∷ row, last)

  unfoldable pub take_rows : ℕ → ℕ → ℕ → List A → ℕ → List (List A)
  take_rows zero columns w mul it = []
  take_rows (suc rounds) columns w mul it =
      let (row, next) = take_row columns w mul it in row ∷ take_rows rounds columns w mul next

  -- `operator*`.
  unfoldable pub product : List (List A) → List (List A) → Option (List (List A))
  product mat obj =
      let a = row_loop (height mat) 0 (width obj) (width mat) (λ i j k. at mat i k) in
      let b = row_loop (height mat) 0 (width obj) (width mat) (λ i j k. at obj k j) in
      if width mat == height obj
      then (do
        mul ← multiply_vectors a b
        some (take_rows (height mat) (width obj) (width mat) mul 0))
      else none

  -- `inverse`, with the random matrix drawn and the inverse of a matrix that is opened.
  unfoldable pub inverse :
      (List (List A) → List (List A)) → List (List A) → List (List A) → Option (List (List A))
  inverse invert random mat = do masked ← product random mat; product (invert masked) random

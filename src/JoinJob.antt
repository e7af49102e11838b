-- ===== src/JoinJob.antt =====
-- src/ComputationContainer/Job/Jobs/JoinTableJob.hpp: the job that returns a joined table without the columns
-- of identifiers. The result is the pair of the two members of the JSON object.
pub mod Columns
mod Tests
use quick_mpc.Prelude.{ℕ, zero, suc, ◌+◌, Bool, ◌||◌, List, [], ◌∷◌, map, ◌==◌, if◌then◌else◌}

module _ {Cell : Type 0} where
  -- The loop over one row from the position `i` on. `id_column.front()`, the column that was matched, counts from
  -- 1; the unsigned difference `match_row` of 0 and 1 is no position.
  unfoldable pub remove_cells : ℕ → ℕ → List Cell → List Cell
  remove_cells front i [] = []
  remove_cells front i (c ∷ row) =
      let rest = remove_cells front (i + 1) row in
      if i == 0 || i + 1 == front then rest else c ∷ rest

-- `removeIdColumn`.
unfoldable pub remove_id_column :
    {Cell Name : Type 0} → List (List Cell) → List Name → ℕ → List (List Cell) × List Name
remove_id_column rows schema front = (map (remove_cells front 0) rows, remove_cells front 0 schema)

-- `compute`: the shares are printed first.
unfoldable pub join_compute :
    {A Text Name : Type 0}
    → (A → Text)
    → List (List A)
    → List Name
    → ℕ
    → List (List Text) × List Name
join_compute print rows schemas front = remove_id_column (map (map print) rows) schemas front

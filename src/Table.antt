-- ===== src/Table.antt =====
-- src/ComputationContainer/Client/ComputationToDbGate/ValueTable.cpp: tables of cells and their joins.
-- A cell and the name of a column are the strings of the source. A read past the end of a vector,
-- which the language leaves undefined, gives a value of which nothing is known.
pub mod Rows
pub mod Extension
mod Tests
pub mod Read
pub mod Vertical
pub mod Horizontal
use quick_mpc.Prelude.{
  ℕ, zero, suc, ◌+◌, Bool, true, false, not, ◌&&◌, Option, none, some, List, [], ◌∷◌, ◌++◌, map,
  ◌==◌, ltb, if◌then◌else◌, length, get_or, table,
}
use quick_mpc.KeyIndex.{
  intersection_value_index, intersection_sorted_value_index, union_value_index,
}

pub record ValueTable (Cell : Type 0) : Type 0 where
  pub table : List (List Cell)
  pub schemas : List Cell

-- `LessFloat` of numbers that are not negative, as multiples of the smallest unit: a number is below
-- another one only if it is by more than `eps`.
unfoldable pub less_float : ℕ → ℕ → ℕ → Bool
less_float eps x y = ltb (x + eps) y

-- What the joins use of the other parts: the conversion of a cell to a share of a number, `open`
-- with `recons` of a column, the order of the revealed numbers and of the names (`LessFloat`), the
-- comparisons of shares, which are taken to return, as those that end the process in doubt do not, and the reads past the end.
pub record Setting (Cell Share Number : Type 0) : Type 0 where
  pub share : Cell → Share
  pub reveal : List Share → List Number
  pub less_id : Number → Number → Bool
  pub less_name : Cell → Cell → Bool
  pub equal_share : Share → Share → Bool
  pub less_share : Share → Share → Bool
  pub no_cell : Cell
  pub no_table : ValueTable Cell
  pub no_index : ℕ

-- The loop over two iterators that `hjoin` moves together.
unfoldable pub joined_rows :
    {Cell : Type 0} → (ℕ → ℕ → List Cell) → List ℕ → List ℕ → List (List Cell)
joined_rows new_row [] join_hs = []
joined_rows new_row (h ∷ hs) [] = []
joined_rows new_row (h ∷ hs) (join_h ∷ join_hs) = new_row h join_h ∷ joined_rows new_row hs join_hs

module _ {Cell Share Number : Type 0} (s : Setting Cell Share Number) where
  -- `getColumn`.
  pub get_column : ValueTable Cell → ℕ → List Share
  get_column t idx = map (λ row. s.share (get_or row idx s.no_cell)) t.table

  -- `getColumn(idx - 1)`: there is no column before the first.
  pub id_column : ValueTable Cell → ℕ → List Share
  id_column t zero = map (λ row. s.share s.no_cell) t.table
  id_column t (suc idx) = get_column t idx

  pub ids : ValueTable Cell → ℕ → List Number
  ids t idx = s.reveal (id_column t idx)

  -- The loops over the columns of one row.
  unfoldable pub cells : List Cell → List ℕ → List Cell
  cells row its = map (λ w. get_or row w s.no_cell) its

  unfoldable pub row_at : ValueTable Cell → ℕ → List Cell
  row_at t h = get_or t.table h []

  pub vjoin : ValueTable Cell → ValueTable Cell → ℕ → ℕ → ValueTable Cell
  vjoin t join_table idx idx_tgt =
      let (schemas_it, schemas_join_it) =
        intersection_value_index s.less_name t.schemas join_table.schemas in
      let (ids_it, ids_join_it) =
        union_value_index s.less_id (ids t idx) (ids join_table idx_tgt) in
      record {
        table =
            map (λ row. cells row schemas_it) t.table
            ++ map (λ h. cells (row_at join_table h) schemas_join_it) ids_join_it;
        schemas = cells t.schemas schemas_it;
      }

  pub hjoin : ValueTable Cell → ValueTable Cell → ℕ → ℕ → ValueTable Cell
  hjoin t join_table idx idx_tgt =
      let (schemas_it, schemas_join_it) =
        union_value_index s.less_name t.schemas join_table.schemas in
      let (ids_it, ids_join_it) =
        intersection_value_index s.less_id (ids t idx) (ids join_table idx_tgt) in
      record {
        table =
            joined_rows
              (λ h join_h.
                cells (row_at t h) schemas_it ++ cells (row_at join_table join_h) schemas_join_it)
              ids_it ids_join_it;
        schemas = t.schemas ++ cells join_table.schemas schemas_join_it;
      }

  pub hjoin_share : ValueTable Cell → ValueTable Cell → ℕ → ℕ → ValueTable Cell
  hjoin_share t join_table idx idx_tgt =
      let (schemas_it, schemas_join_it) =
        union_value_index s.less_name t.schemas join_table.schemas in
      let ids_it_list =
        intersection_sorted_value_index s.equal_share s.less_share (id_column t idx)
          (id_column join_table idx_tgt) in
      record {
        table =
            map
              (λ it.
                cells (row_at t it.0) schemas_it ++ cells (row_at join_table it.1) schemas_join_it)
              ids_it_list;
        schemas = t.schemas ++ cells join_table.schemas schemas_join_it;
      }

  -- One call of `joinFunc`: 0 and 1 are the horizontal and the vertical join.
  pub join_with : ℕ → ValueTable Cell → ValueTable Cell → ℕ → ℕ → ValueTable Cell
  join_with kind t join_table idx idx_tgt =
      if kind == 0
      then hjoin t join_table idx idx_tgt
      else if kind == 1
      then vjoin t join_table idx idx_tgt
      else hjoin_share t join_table idx idx_tgt

  -- `joinFunc` from the kind with number `it` on.
  unfoldable pub join_from :
      List (ValueTable Cell) → List ℕ → List ℕ → ℕ → ValueTable Cell → ValueTable Cell
  join_from values [] index it t = t
  join_from values (kind ∷ join) index it t = join_from values join index (it + 1) (
      join_with kind t (get_or values (it + 1) s.no_table) (get_or index 0 s.no_index)
        (get_or index (it + 1) s.no_index))

  pub parse_read : List (ValueTable Cell) → List ℕ → List ℕ → ValueTable Cell
  parse_read values join index = join_from values join index 0 (get_or values 0 s.no_table)

-- ===== src/Table/Vertical.antt =====
-- The vertical join.
use quick_mpc.Prelude.{ℕ, ◌≡◌, refl, sym, ap, ap₂, ◌∙◌, true, List, [], ◌++◌, map, length, get_or}
use quick_mpc.KeyIndex.{same, fresh}
use quick_mpc.KeyIndex.Shared.{pairs, intersection-pairs}
use quick_mpc.KeyIndex.Fresh.{union-fresh}
use quick_mpc.Table.{ValueTable, Setting, ids, cells, row_at, vjoin}
use quick_mpc.Table.Rows.{
  map-All, map-map, get_or-Reads, partnered, others, pairs-partnered, fresh-others, partnered-equal,
  others-All,
}
use quick_mpc.Table.Horizontal.{IsRectangular, IsSetting, length-ids}

module _ {Cell Share Number : Type 0} (s : Setting Cell Share Number) (c : IsSetting s) where
  -- The cells of a row of `t`, and of the other table, in the columns that both have.
  abbrev pub own_common : ValueTable Cell → ValueTable Cell → List Cell → List Cell
  own_common t join_table row =
      map (λ it. it.0) (partnered s.less_name row t.schemas join_table.schemas join_table.schemas)

  abbrev pub other_common : ValueTable Cell → ValueTable Cell → List Cell → List Cell
  other_common t join_table row =
      map (λ it. it.1) (partnered s.less_name t.schemas t.schemas row join_table.schemas)

  abbrev name_pairs : ValueTable Cell → ValueTable Cell → List (ℕ × ℕ)
  name_pairs t join_table = pairs s.less_name t.schemas 0 join_table.schemas 0

  name_pairs-partnered :
      (t join_table : ValueTable Cell) (row row' : List Cell)
      → length row ≡ length t.schemas
      → length row' ≡ length join_table.schemas
      → map
          (λ it. (get_or row it.0 s.no_cell, get_or row' it.1 s.no_cell))
          (name_pairs t join_table)
        ≡ partnered s.less_name row t.schemas row' join_table.schemas
  name_pairs-partnered t join_table row row' h k =
      pairs-partnered s.less_name (λ w. get_or row w s.no_cell) (λ w. get_or row' w s.no_cell) row
        t.schemas row' join_table.schemas 0 0 h k (get_or-Reads row s.no_cell)
        (get_or-Reads row' s.no_cell)

  cells-own :
      (t join_table : ValueTable Cell) (row : List Cell)
      → length row ≡ length t.schemas
      → cells s row (map (λ it. it.0) (name_pairs t join_table)) ≡ own_common t join_table row
  unfolding cells
  cells-own t join_table row h =
      map-map (λ w. get_or row w s.no_cell) (λ (it : ℕ × ℕ). it.0) (name_pairs t join_table)
      ∙ sym (
          map-map (λ (it : Cell × Cell). it.0)
            (λ (it : ℕ × ℕ). (get_or row it.0 s.no_cell, get_or join_table.schemas it.1 s.no_cell))
            (name_pairs t join_table))
      ∙ ap (map (λ (it : Cell × Cell). it.0))
          (name_pairs-partnered t join_table row join_table.schemas h refl)

  cells-other :
      (t join_table : ValueTable Cell) (row : List Cell)
      → length row ≡ length join_table.schemas
      → cells s row (map (λ it. it.1) (name_pairs t join_table)) ≡ other_common t join_table row
  unfolding cells
  cells-other t join_table row h =
      map-map (λ w. get_or row w s.no_cell) (λ (it : ℕ × ℕ). it.1) (name_pairs t join_table)
      ∙ sym (
          map-map (λ (it : Cell × Cell). it.1)
            (λ (it : ℕ × ℕ). (get_or t.schemas it.0 s.no_cell, get_or row it.1 s.no_cell))
            (name_pairs t join_table))
      ∙ ap (map (λ (it : Cell × Cell). it.1))
          (name_pairs-partnered t join_table t.schemas row refl h)

  -- The rows of the other table whose number `t` does not have.
  abbrev pub new_rows : ValueTable Cell → ValueTable Cell → ℕ → ℕ → List (List Cell)
  new_rows t join_table idx idx_tgt =
      others s.less_id (ids s t idx) join_table.table (ids s join_table idx_tgt)

  vjoin-by_position :
      (t join_table : ValueTable Cell) (idx idx_tgt : ℕ)
      → vjoin s t join_table idx idx_tgt ≡ record {
        table =
            map (λ row. cells s row (map (λ it. it.0) (name_pairs t join_table))) t.table
            ++ map
                (λ h. cells s (row_at s join_table h) (map (λ it. it.1) (name_pairs t join_table)))
                (fresh s.less_id (ids s join_table idx_tgt) 0 (ids s t idx));
        schemas = cells s t.schemas (map (λ it. it.0) (name_pairs t join_table));
      }
  unfolding vjoin
  vjoin-by_position t join_table idx idx_tgt =
      rw
        (
          vjoin,
          intersection-pairs c.names t.schemas join_table.schemas,
          union-fresh c.numbers (ids s t idx) (ids s join_table idx_tgt),
        )
        refl

  new_rows-by_position :
      (t join_table : ValueTable Cell) (idx idx_tgt : ℕ)
      → IsRectangular join_table
      → map
          (λ h. cells s (row_at s join_table h) (map (λ it. it.1) (name_pairs t join_table)))
          (fresh s.less_id (ids s join_table idx_tgt) 0 (ids s t idx))
        ≡ map (other_common t join_table) (new_rows t join_table idx idx_tgt)
  unfolding IsRectangular row_at
  new_rows-by_position t join_table idx idx_tgt k =
      sym (
        map-map (λ (row : List Cell). cells s row (map (λ it. it.1) (name_pairs t join_table)))
          (row_at s join_table) (fresh s.less_id (ids s join_table idx_tgt) 0 (ids s t idx)))
      ∙ ap (map (λ (row : List Cell). cells s row (map (λ it. it.1) (name_pairs t join_table)))) (
          fresh-others s.less_id (row_at s join_table) (ids s t idx) join_table.table
            (ids s join_table idx_tgt) 0 (length-ids s c join_table idx_tgt)
            (get_or-Reads join_table.table []))
      ∙ map-All (λ row. length row ≡ length join_table.schemas) _ _
          (new_rows t join_table idx idx_tgt)
          (others-All s.less_id (λ row. length row ≡ length join_table.schemas) (ids s t idx)
            join_table.table (ids s join_table idx_tgt) k)
          (λ row e. cells-other t join_table row e)

  vjoin-by_rows :
      (t join_table : ValueTable Cell) (idx idx_tgt : ℕ)
      → IsRectangular t
      → IsRectangular join_table
      → vjoin s t join_table idx idx_tgt ≡ record {
        table =
            map (own_common t join_table) t.table
            ++ map (other_common t join_table) (new_rows t join_table idx idx_tgt);
        schemas = own_common t join_table t.schemas;
      }
  unfolding IsRectangular
  vjoin-by_rows t join_table idx idx_tgt h k =
      vjoin-by_position t join_table idx idx_tgt
      ∙ ap₂
          (λ (rows : List (List Cell)) (names : List Cell). record {
            table = rows;
            schemas = names;
          })
          (ap₂ ◌++◌
            (map-All (λ row. length row ≡ length t.schemas) _ _ t.table h
              (λ row e. cells-own t join_table row e))
            (new_rows-by_position t join_table idx idx_tgt k))
          (cells-own t join_table t.schemas refl)

  -- Where the orders of the names and of the numbers revealed are strict weak orders, as `LessFloat`
  -- is on whole numbers, and a column has one number revealed for each row, on tables in which
  -- every row has a cell for each column, the vertical join has the columns of `t` whose
  -- names the other table has. Its rows are all rows of `t` followed by the rows of the other
  -- table whose number `t` does not have, each cut to its cells under those names; where only equal
  -- names are neither before nor after each other, the names above the cells of both tables are the same.
  pub vjoin_lem :
      (t join_table : ValueTable Cell) (idx idx_tgt : ℕ)
      → ((a b : Cell) → same s.less_name a b ≡ true → a ≡ b)
      → IsRectangular t
      → IsRectangular join_table
      → (vjoin s t join_table idx idx_tgt ≡ record {
        table =
            map (own_common t join_table) t.table
            ++ map (other_common t join_table) (new_rows t join_table idx idx_tgt);
        schemas = own_common t join_table t.schemas;
      })
        × (other_common t join_table join_table.schemas ≡ own_common t join_table t.schemas)
  vjoin_lem t join_table idx idx_tgt equal h k = (
    vjoin-by_rows t join_table idx idx_tgt h k,
    partnered-equal s.less_name equal t.schemas join_table.schemas,
  )

-- ===== src/Table/Horizontal.antt =====
-- The horizontal joins.
use quick_mpc.Prelude.{
  ℕ, zero, suc, ◌+◌, ◌≡◌, refl, sym, ap, ap₂, ◌∙◌, List, [], ◌∷◌, ◌++◌, map, arith, length,
  length-map, get_or, table,
}
use quick_mpc.KeyIndex.{fresh}
use quick_mpc.KeyIndex.Order.{IsWeakOrder}
use quick_mpc.KeyIndex.Shared.{pairs, intersection-pairs}
use quick_mpc.KeyIndex.Fresh.{union-fresh}
use quick_mpc.KeyIndex.Merge.{IsAscending, IsComparison, intersection_sorted-pairs}
use quick_mpc.Table.{
  ValueTable, Setting, get_column, id_column, ids, cells, row_at, joined_rows, hjoin, hjoin_share,
}
use quick_mpc.Table.Rows.{
  All, map-All, map-map, get_or-Reads, partnered, others, pairs-partnered, fresh-others,
  partnered-All,
}

-- Every row has a cell for each column.
unfoldable pub IsRectangular : {Cell : Type 0} → ValueTable Cell → Type 0
IsRectangular t = All (λ row. length row ≡ length t.schemas) t.table

-- The orders are those that `std::map` asks for, and `reveal` gives one value for each share of a
-- column. `LessFloat` is such an order on whole numbers, not on all.
pub record IsSetting {Cell Share Number : Type 0} (s : Setting Cell Share Number) : Type 0 where
  pub names : IsWeakOrder s.less_name
  pub numbers : IsWeakOrder s.less_id
  pub revealed : (xs : List Share) → length (s.reveal xs) ≡ length xs

joined_rows-map :
    {Cell : Type 0} (f : ℕ → ℕ → List Cell) (its : List (ℕ × ℕ))
    → joined_rows f (map (λ it. it.0) its) (map (λ it. it.1) its) ≡ map (λ it. f it.0 it.1) its
unfolding joined_rows
joined_rows-map f [] = refl
joined_rows-map f (it ∷ its) = ap (◌∷◌ (f it.0 it.1)) (joined_rows-map f its)

cells-shift :
    {A : Type 0} (f g : ℕ → A) (n k : ℕ)
    → ((i : ℕ) → f (i + 1) ≡ g i)
    → map f (table n (k + 1) (λ it. it)) ≡ map g (table n k (λ it. it))
cells-shift f g zero k e = refl
cells-shift f g (suc n) k e = ap₂ ◌∷◌ (e k) (cells-shift f g n (k + 1) e)

map-get_or :
    {A : Type 0} (xs : List A) (d : A)
    → map (λ w. get_or xs w d) (table (length xs) 0 (λ it. it)) ≡ xs
map-get_or [] d = refl
map-get_or (x ∷ xs) d = ap (◌∷◌ x) (
    cells-shift (λ w. get_or (x ∷ xs) w d) (λ w. get_or xs w d) (length xs) 0
      (λ i. let e : i + 1 ≡ suc i = omega arith in rw e refl)
    ∙ map-get_or xs d)

module _ {Cell Share Number : Type 0} (s : Setting Cell Share Number) (c : IsSetting s) where
  pub cells-all :
      (row : List Cell) (n : ℕ) → length row ≡ n → cells s row (table n 0 (λ it. it)) ≡ row
  unfolding cells
  cells-all row n h = rw (← h) (map-get_or row s.no_cell)

  pub length-ids : (t : ValueTable Cell) (idx : ℕ) → length t.table ≡ length (ids s t idx)
  unfolding ids id_column get_column
  length-ids t zero =
      sym (c.revealed (map (λ row. s.share s.no_cell) t.table) ∙ length-map t.table _)
  length-ids t (suc idx) =
      sym (
        c.revealed (map (λ row. s.share (get_or row idx s.no_cell)) t.table) ∙ length-map t.table _)

  -- The cells of a row of the other table in the columns that are new to `t`.
  abbrev pub new_cells : ValueTable Cell → ValueTable Cell → List Cell → List Cell
  new_cells t join_table row = others s.less_name t.schemas row join_table.schemas

  pub cells-fresh :
      (t join_table : ValueTable Cell) (row : List Cell)
      → length row ≡ length join_table.schemas
      → cells s row (fresh s.less_name join_table.schemas 0 t.schemas) ≡ new_cells t join_table row
  unfolding cells
  cells-fresh t join_table row h =
      fresh-others s.less_name (λ w. get_or row w s.no_cell) t.schemas row join_table.schemas 0 h
        (get_or-Reads row s.no_cell)

  -- The rows that have a partner, each with its first one.
  abbrev pub partners : ValueTable Cell → ValueTable Cell → ℕ → ℕ → List (List Cell × List Cell)
  partners t join_table idx idx_tgt =
      partnered s.less_id t.table (ids s t idx) join_table.table (ids s join_table idx_tgt)

  abbrev pub all_pairs : ValueTable Cell → ValueTable Cell → ℕ → ℕ → List (ℕ × ℕ)
  all_pairs t join_table idx idx_tgt = pairs s.less_id (ids s t idx) 0 (ids s join_table idx_tgt) 0

  abbrev new_row : ValueTable Cell → ValueTable Cell → List Cell → List Cell → List Cell
  new_row t join_table row join_row =
      cells s row (table (length t.schemas) 0 (λ it. it))
      ++ cells s join_row (fresh s.less_name join_table.schemas 0 t.schemas)

  -- Both horizontal joins by the positions.
  abbrev by_position : ValueTable Cell → ValueTable Cell → List (ℕ × ℕ) → ValueTable Cell
  by_position t join_table its = record {
    table = map (λ it. new_row t join_table (row_at s t it.0) (row_at s join_table it.1)) its;
    schemas =
        t.schemas ++ cells s join_table.schemas (fresh s.less_name join_table.schemas 0 t.schemas);
  }

  hjoin-by_position :
      (t join_table : ValueTable Cell) (idx idx_tgt : ℕ)
      → hjoin s t join_table idx idx_tgt
        ≡ by_position t join_table (all_pairs t join_table idx idx_tgt)
  unfolding hjoin
  hjoin-by_position t join_table idx idx_tgt =
      rw
        (
          hjoin,
          union-fresh c.names t.schemas join_table.schemas,
          intersection-pairs c.numbers (ids s t idx) (ids s join_table idx_tgt),
          joined_rows-map,
        )
        refl

  hjoin_share-by_position :
      (value : Share → Number)
      → ((xs : List Share) → s.reveal xs ≡ map value xs)
      → IsComparison s.less_id value s.equal_share s.less_share
      → (t join_table : ValueTable Cell) (idx idx_tgt : ℕ) → IsAscending s.less_id (ids s t idx)
      → IsAscending s.less_id (ids s join_table idx_tgt)
      → hjoin_share s t join_table idx idx_tgt
        ≡ by_position t join_table (all_pairs t join_table idx idx_tgt)
  unfolding hjoin_share ids
  hjoin_share-by_position value r v t join_table idx idx_tgt a b =
      rw
        (
          hjoin_share,
          ids,
          union-fresh c.names t.schemas join_table.schemas,
          intersection_sorted-pairs c.numbers value s.equal_share s.less_share v (id_column s t idx)
              (id_column s join_table idx_tgt) (rw (← r (id_column s t idx)) a)
              (rw (← r (id_column s join_table idx_tgt)) b),
          r (id_column s t idx),
          r (id_column s join_table idx_tgt),
        )
        refl

  -- Where the orders of the names and of the numbers revealed are strict weak orders, as `LessFloat`
  -- is on whole numbers, revealing a column gives the values of its shares, and the comparisons of shares
  -- return and are those of the values, the join of two tables whose numbers ascend strictly, which compares shares and reveals
  -- nothing, is the join that reveals the numbers.
  pub hjoin_share-hjoin :
      (value : Share → Number)
      → ((xs : List Share) → s.reveal xs ≡ map value xs)
      → IsComparison s.less_id value s.equal_share s.less_share
      → (t join_table : ValueTable Cell) (idx idx_tgt : ℕ) → IsAscending s.less_id (ids s t idx)
      → IsAscending s.less_id (ids s join_table idx_tgt)
      → hjoin_share s t join_table idx idx_tgt ≡ hjoin s t join_table idx idx_tgt
  hjoin_share-hjoin value r v t join_table idx idx_tgt a b =
      hjoin_share-by_position value r v t join_table idx idx_tgt a b
      ∙ sym (hjoin-by_position t join_table idx idx_tgt)

  rows-by_position :
      (t join_table : ValueTable Cell) (idx idx_tgt : ℕ)
      → IsRectangular t
      → IsRectangular join_table
      → map
          (λ it. new_row t join_table (row_at s t it.0) (row_at s join_table it.1))
          (all_pairs t join_table idx idx_tgt)
        ≡ map (λ it. it.0 ++ new_cells t join_table it.1) (partners t join_table idx idx_tgt)
  unfolding IsRectangular row_at
  rows-by_position t join_table idx idx_tgt h k =
      sym (
        map-map (λ (it : List Cell × List Cell). new_row t join_table it.0 it.1)
          (λ (it : ℕ × ℕ). (row_at s t it.0, row_at s join_table it.1))
          (all_pairs t join_table idx idx_tgt))
      ∙ ap (map (λ (it : List Cell × List Cell). new_row t join_table it.0 it.1)) (
          pairs-partnered s.less_id (row_at s t) (row_at s join_table) t.table (ids s t idx)
            join_table.table (ids s join_table idx_tgt) 0 0 (length-ids t idx)
            (length-ids join_table idx_tgt) (get_or-Reads t.table [])
            (get_or-Reads join_table.table []))
      ∙ map-All
          (λ (it : List Cell × List Cell).
            (length it.0 ≡ length t.schemas) × (length it.1 ≡ length join_table.schemas))
          (λ it. new_row t join_table it.0 it.1) (λ it. it.0 ++ new_cells t join_table it.1)
          (partners t join_table idx idx_tgt)
          (partnered-All s.less_id (λ row. length row ≡ length t.schemas)
            (λ row. length row ≡ length join_table.schemas) t.table (ids s t idx) join_table.table
            (ids s join_table idx_tgt) h k)
          (λ it e.
            ap₂ ◌++◌ (cells-all it.0 (length t.schemas) e.0) (cells-fresh t join_table it.1 e.1))

  -- Where the orders of the names and of the numbers revealed are strict weak orders, as `LessFloat`
  -- is on whole numbers, and a column has one number revealed for each row, on tables in which
  -- every row has a cell for each column, the horizontal join keeps the names of `t` and
  -- adds those of the other table that are new. Its rows are the rows of `t` whose number the other
  -- table has, in their order, each followed by the cells in the new columns of the first row with
  -- that number.
  pub hjoin_lem :
      (t join_table : ValueTable Cell) (idx idx_tgt : ℕ)
      → IsRectangular t
      → IsRectangular join_table
      → hjoin s t join_table idx idx_tgt ≡ record {
        table = map (λ it. it.0 ++ new_cells t join_table it.1) (partners t join_table idx idx_tgt);
        schemas = t.schemas ++ new_cells t join_table join_table.schemas;
      }
  hjoin_lem t join_table idx idx_tgt h k =
      hjoin-by_position t join_table idx idx_tgt
      ∙ ap₂
          (λ (rows : List (List Cell)) (names : List Cell). record {
            table = rows;
            schemas = t.schemas ++ names;
          })
          (rows-by_position t join_table idx idx_tgt h k)
          (cells-fresh t join_table join_table.schemas refl)

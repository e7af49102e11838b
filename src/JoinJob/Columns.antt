-- ===== src/JoinJob/Columns.antt =====
-- Which columns are left, and that the names stay above their cells.
use quick_mpc.Prelude.{
  ℕ, suc, ◌+◌, ◌<◌, ◌≡◌, refl, ap, ap₂, ◌∙◌, ◌||◌, inl, inr, List, [], ◌∷◌, ◌++◌, map, ◌==◌, arith,
  length, Bool-cases,
}
use quick_mpc.JoinJob.{remove_cells, remove_id_column, join_compute}

-- Behind the matched column everything stays.
remove_cells-after :
    {Cell : Type 0} (front i : ℕ) (row : List Cell)
    → 0 < i
    → front < i + 1
    → remove_cells front i row ≡ row
unfolding remove_cells
remove_cells-after front i [] h k = refl
remove_cells-after front i (c ∷ row) h k =
    ground (arith, remove_cells-after front (i + 1) row (omega arith) (omega arith))

remove_cells-middle :
    {Cell : Type 0} (front i : ℕ) (before : List Cell) (c : Cell) (after : List Cell)
    → 0 < i
    → i + length before + 1 ≡ front
    → remove_cells front i (before ++ c ∷ after) ≡ before ++ after
unfolding remove_cells
remove_cells-middle front i [] c after h e =
    ground (arith, remove_cells-after front (i + 1) after (omega arith) (omega arith), e)
remove_cells-middle front i (b ∷ before) c after h e =
    ground (arith, e, remove_cells-middle front (i + 1) before c after (omega arith) (omega arith))

pub remove_cells_lem :
    {Cell : Type 0} (first : Cell) (before : List Cell) (matched : Cell) (after : List Cell)
    → remove_cells (length before + 2) 0 (first ∷ (before ++ matched ∷ after)) ≡ before ++ after
unfolding remove_cells
remove_cells_lem first before matched after =
    remove_cells-middle (length before + 2) 1 before matched after (omega arith) (omega arith)

-- The cells with the names above them.
unfoldable pub labelled : {Cell Name : Type 0} → List Cell → List Name → List (Cell × Name)
labelled [] names = []
labelled (c ∷ row) [] = []
labelled (c ∷ row) (n ∷ names) = (c, n) ∷ labelled row names

labelled-remove_cells :
    {Cell Name : Type 0} (front i : ℕ) (row : List Cell) (names : List Name)
    → length row ≡ length names
    → labelled (remove_cells front i row) (remove_cells front i names)
      ≡ remove_cells front i (labelled row names)
unfolding remove_cells labelled
labelled-remove_cells front i [] [] h = refl
labelled-remove_cells front i [] (n ∷ names) h = absurd (omega arith)
labelled-remove_cells front i (c ∷ row) [] h = absurd (omega arith)
labelled-remove_cells front i (c ∷ row) (n ∷ names) h =
    elim (Bool-cases (i == 0 || i + 1 == front)) [
      | inl gone ↦ ground (arith, gone, labelled-remove_cells front (i + 1) row names (omega arith))
      | inr kept ↦ ground (arith, kept, labelled-remove_cells front (i + 1) row names (omega arith))
    ]

abbrev pub AllLong : {A : Type 0} → List (List A) → ℕ → Type 0
AllLong [] n = Unit {0}
AllLong (row ∷ rows) n = (length row ≡ n) × AllLong rows n

length-print :
    {A Text : Type 0} (print : A → Text) (row : List A) → length (map print row) ≡ length row
length-print print [] = refl
length-print print (a ∷ row) = ap suc (length-print print row)

labelled-rows :
    {A Text Name : Type 0} (print : A → Text) (front : ℕ) (rows : List (List A)) (names : List Name)
    → AllLong rows (length names)
    → map
        (λ row. labelled row (remove_cells front 0 names))
        (map (remove_cells front 0) (map (map print) rows))
      ≡ map (λ row. remove_cells front 0 (labelled (map print row) names)) rows
labelled-rows print front [] names h = refl
labelled-rows print front (row ∷ rows) names h =
    ap₂ ◌∷◌ (labelled-remove_cells front 0 (map print row) names (length-print print row ∙ h.0))
      (labelled-rows print front rows names h.1)

-- Where every row has a cell for each column, each cell of the result stands under its name: naming the cells
-- of the result gives the printed cells of the table, named first, without the first column and
-- the one that was matched. Of a row whose matched cell stands behind the first one, exactly these
-- two are left out.
pub join_compute_lem :
    {A Text Name : Type 0} (print : A → Text) (rows : List (List A)) (names : List Name)
    (first : Text × Name) (before : List (Text × Name)) (matched : Text × Name)
    (after : List (Text × Name)) (front : ℕ)
    → AllLong rows (length names)
    → front ≡ length before + 2
    → (map
          (λ row. labelled row (join_compute print rows names front).1)
          (join_compute print rows names front).0
        ≡ map (λ row. remove_cells front 0 (labelled (map print row) names)) rows)
      × (remove_cells front 0 (first ∷ (before ++ matched ∷ after)) ≡ before ++ after)
unfolding join_compute remove_id_column
join_compute_lem print rows names first before matched after front h e =
    (labelled-rows print front rows names h, rw e (remove_cells_lem first before matched after))

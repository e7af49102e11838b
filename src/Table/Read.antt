-- ===== src/Table/Read.antt =====
-- What the joins keep, one after the other.
use quick_mpc.Prelude.{
  ℕ, ◌+◌, ◌≡◌, refl, sym, ◌∙◌, Bool, inl, inr, List, [], ◌∷◌, ◌++◌, map, ◌==◌, arith, length,
  length-map, length-append, length-table, get_or, Bool-cases,
}
use quick_mpc.KeyIndex.{found, intersection_value_index, union_value_index, emplace_all}
use quick_mpc.Table.{
  ValueTable, Setting, cells, row_at, joined_rows, vjoin, hjoin, hjoin_share, join_with, join_from,
  parse_read,
}
use quick_mpc.Table.Rows.{All}
use quick_mpc.Table.Horizontal.{IsRectangular}

All-map :
    {A B : Type 0} (P : B → Type 0) (f : A → B) (xs : List A)
    → ((a : A) → P (f a))
    → All P (map f xs)
All-map P f [] h = tt
All-map P f (x ∷ xs) h = (h x, All-map P f xs h)

All-append : {A : Type 0} (P : A → Type 0) (xs ys : List A) → All P xs → All P ys → All P (xs ++ ys)
All-append P [] ys h k = k
All-append P (x ∷ xs) ys h k = (h.0, All-append P xs ys h.1 k)

All-joined_rows :
    {Cell : Type 0} (P : List Cell → Type 0) (f : ℕ → ℕ → List Cell) (hs ks : List ℕ)
    → ((h k : ℕ) → P (f h k))
    → All P (joined_rows f hs ks)
unfolding joined_rows
All-joined_rows P f [] ks h = tt
All-joined_rows P f (x ∷ hs) [] h = tt
All-joined_rows P f (x ∷ hs) (y ∷ ks) h = (h x y, All-joined_rows P f hs ks h)

length-found :
    {A : Type 0} (less : A → A → Bool) (xs : List A) (it : ℕ) (m : List (A × ℕ))
    → length ((found less xs it m).0) ≡ length ((found less xs it m).1)
unfolding found
length-found less [] it m = refl
length-found less (x ∷ xs) it m = ground (arith, length-found less xs (it + 1) m)

module _ {Cell Share Number : Type 0} (s : Setting Cell Share Number) where
  length-cells : (row : List Cell) (its : List ℕ) → length (cells s row its) ≡ length its
  unfolding cells
  length-cells row its = length-map its (λ w. get_or row w s.no_cell)

  length-intersection :
      (v1 v2 : List Cell)
      → length ((intersection_value_index s.less_name v1 v2).0)
        ≡ length ((intersection_value_index s.less_name v1 v2).1)
  unfolding intersection_value_index
  length-intersection v1 v2 = length-found s.less_name v1 0 (emplace_all s.less_name v2 0 [])

  length-union : (v1 v2 : List Cell) → length ((union_value_index s.less_name v1 v2).0) ≡ length v1
  unfolding union_value_index
  length-union v1 v2 = length-table (length v1) 0 (λ it. it)

  -- A row of both horizontal joins is as long as their names.
  length-new_row :
      (row row' : List Cell) (v1 v2 : List Cell)
      → length (
          cells s row ((union_value_index s.less_name v1 v2).0)
          ++ cells s row' ((union_value_index s.less_name v1 v2).1))
        ≡ length (v1 ++ cells s v2 ((union_value_index s.less_name v1 v2).1))
  length-new_row row row' v1 v2 =
      let (u0, u1) = union_value_index s.less_name v1 v2 in
      omega (
        arith,
        length-append (cells s row ((union_value_index s.less_name v1 v2).0))
            (cells s row' ((union_value_index s.less_name v1 v2).1)),
        length-append v1 (cells s v2 ((union_value_index s.less_name v1 v2).1)),
        length-cells row ((union_value_index s.less_name v1 v2).0),
        length-cells row' ((union_value_index s.less_name v1 v2).1),
        length-cells v2 ((union_value_index s.less_name v1 v2).1),
        length-union v1 v2,
      )

  hjoin-IsRectangular :
      (t join_table : ValueTable Cell) (idx idx_tgt : ℕ)
      → IsRectangular (hjoin s t join_table idx idx_tgt)
  unfolding IsRectangular hjoin
  hjoin-IsRectangular t join_table idx idx_tgt =
      All-joined_rows _ _ _ _
        (λ h k. length-new_row (row_at s t h) (row_at s join_table k) t.schemas join_table.schemas)

  hjoin_share-IsRectangular :
      (t join_table : ValueTable Cell) (idx idx_tgt : ℕ)
      → IsRectangular (hjoin_share s t join_table idx idx_tgt)
  unfolding IsRectangular hjoin_share
  hjoin_share-IsRectangular t join_table idx idx_tgt = All-map _ _ _ (λ it.
      length-new_row (row_at s t it.0) (row_at s join_table it.1) t.schemas join_table.schemas)

  vjoin-IsRectangular :
      (t join_table : ValueTable Cell) (idx idx_tgt : ℕ)
      → IsRectangular (vjoin s t join_table idx idx_tgt)
  unfolding IsRectangular vjoin
  vjoin-IsRectangular t join_table idx idx_tgt =
      let v = intersection_value_index s.less_name t.schemas join_table.schemas in
      All-append _ _ _
        (All-map _ _ t.table (λ row. length-cells row v.0 ∙ sym (length-cells t.schemas v.0)))
        (All-map _ _ _ (λ h.
          length-cells (row_at s join_table h) v.1
          ∙ sym (length-intersection t.schemas join_table.schemas)
          ∙ sym (length-cells t.schemas v.0)))

  pub join_with-IsRectangular :
      (kind : ℕ) (t join_table : ValueTable Cell) (idx idx_tgt : ℕ)
      → IsRectangular (join_with s kind t join_table idx idx_tgt)
  unfolding join_with
  join_with-IsRectangular kind t join_table idx idx_tgt = elim (Bool-cases (kind == 0)) [
    | inl e ↦ rw e (hjoin-IsRectangular t join_table idx idx_tgt)
    | inr n ↦ elim (Bool-cases (kind == 1)) [
      | inl e ↦ rw (n, e) (vjoin-IsRectangular t join_table idx idx_tgt)
      | inr m ↦ rw (n, m) (hjoin_share-IsRectangular t join_table idx idx_tgt)
    ]
  ]

  join_from-IsRectangular :
      (values : List (ValueTable Cell)) (join index : List ℕ) (it : ℕ) (t : ValueTable Cell)
      → IsRectangular t
      → IsRectangular (join_from s values join index it t)
  unfolding join_from
  join_from-IsRectangular values [] index it t h = h
  join_from-IsRectangular values (kind ∷ join) index it t h =
      join_from-IsRectangular values join index (it + 1) _ (
        join_with-IsRectangular kind t (get_or values (it + 1) s.no_table)
          (get_or index 0 s.no_index) (get_or index (it + 1) s.no_index))

  -- Where every row of the first table has a cell for each column, so has every row of the table that is
  -- read, whatever the kinds of the joins, the indices of the columns and the other tables.
  pub parse_read-IsRectangular :
      (values : List (ValueTable Cell)) (join index : List ℕ)
      → IsRectangular (get_or values 0 s.no_table)
      → IsRectangular (parse_read s values join index)
  unfolding parse_read
  parse_read-IsRectangular values join index h =
      join_from-IsRectangular values join index 0 (get_or values 0 s.no_table) h

-- ===== src/Table/Extension.antt =====
-- Horizontal joins leave the columns of the first table in front.
use mathlib.Core.List.{append_assoc, append-nil}
use quick_mpc.Prelude.{
  ℕ, zero, suc, ◌+◌, ◌≡◌, refl, sym, ap, ◌∙◌, ◌⊎◌, inl, inr, List, [], ◌∷◌, ◌++◌, map, get_or,
}
use quick_mpc.Table.{ValueTable, Setting, ids, hjoin, join_with, join_from, parse_read}
use quick_mpc.Table.Rows.{All, partnered-All}
use quick_mpc.Table.Horizontal.{IsRectangular, IsSetting, hjoin_lem, partners, new_cells}
use quick_mpc.Table.Read.{join_with-IsRectangular}

abbrev pub In : {A : Type 0} → A → List A → Type 0
In a [] = ⊥
In a (x ∷ xs) = (a ≡ x) ⊎ In a xs

-- The row begins with a row of the table.
abbrev pub Starts : {Cell : Type 0} → ValueTable Cell → List Cell → Type 0
Starts {Cell} t row = (own : List Cell) × (rest : List Cell) × In own t.table × (row ≡ own ++ rest)

-- The columns of `t` stand in front, and every row begins with a row of `t`.
abbrev pub IsExtension : {Cell : Type 0} → ValueTable Cell → ValueTable Cell → Type 0
IsExtension {Cell} t r =
    ((names : List Cell) × (r.schemas ≡ t.schemas ++ names)) × All (Starts t) r.table

All-imp :
    {A : Type 0} (P Q : A → Type 0) (xs : List A) → All P xs → ((a : A) → P a → Q a) → All Q xs
All-imp P Q [] h k = tt
All-imp P Q (x ∷ xs) h k = (k x h.0, All-imp P Q xs h.1 k)

All-map_of :
    {A B : Type 0} (P : A → Type 0) (Q : B → Type 0) (f : A → B) (xs : List A)
    → All P xs
    → ((a : A) → P a → Q (f a))
    → All Q (map f xs)
All-map_of P Q f [] h k = tt
All-map_of P Q f (x ∷ xs) h k = (k x h.0, All-map_of P Q f xs h.1 k)

All-In : {A : Type 0} (xs : List A) → All (λ x. In x xs) xs
All-In [] = tt
All-In (x ∷ xs) = (inl refl, All-imp _ _ xs (All-In xs) (λ a h. inr h))

trivially : {A : Type 0} (xs : List A) → All (λ x. Unit {0}) xs
trivially [] = tt
trivially (x ∷ xs) = (tt, trivially xs)

get_or-All :
    {A : Type 0} (P : A → Type 0) (xs : List A) (i : ℕ) (d : A) → All P xs → P d → P (get_or xs i d)
get_or-All P [] i d h k = k
get_or-All P (x ∷ xs) zero d h k = h.0
get_or-All P (x ∷ xs) (suc i) d h k = get_or-All P xs i d h.1 k

IsExtension-refl : {Cell : Type 0} (t : ValueTable Cell) → IsExtension t t
IsExtension-refl t = (
  ([], sym (append-nil t.schemas)),
  All-imp _ _ t.table (All-In t.table) (λ row h. (row, [], h, sym (append-nil row))),
)

module _ {Cell Share Number : Type 0} (s : Setting Cell Share Number) (c : IsSetting s) where
  hjoin-IsExtension :
      (first t join_table : ValueTable Cell) (idx idx_tgt : ℕ)
      → IsRectangular t
      → IsRectangular join_table
      → IsExtension first t
      → IsExtension first (hjoin s t join_table idx idx_tgt)
  hjoin-IsExtension first t join_table idx idx_tgt h k ((names, e), rows) =
      rw (hjoin_lem s c t join_table idx idx_tgt h k) (
        (
          names ++ new_cells s c t join_table join_table.schemas,
          ap (λ (x : List Cell). x ++ new_cells s c t join_table join_table.schemas) e
              ∙ append_assoc first.schemas names _,
        ),
        All-map_of (λ it. Starts first it.0 × Unit {0}) _ _ (partners s c t join_table idx idx_tgt)
            (partnered-All s.less_id (Starts first) (λ row. Unit {0}) t.table (ids s t idx)
              join_table.table (ids s join_table idx_tgt) rows (trivially join_table.table))
            (λ it ((own, rest, there, e), u). (
              own,
              rest ++ new_cells s c t join_table it.1,
              there,
              ap (λ (x : List Cell). x ++ new_cells s c t join_table it.1) e
                  ∙ append_assoc own rest _,
            )),
      )

  join_from-IsExtension :
      (first : ValueTable Cell) (values : List (ValueTable Cell)) (join index : List ℕ) (it : ℕ)
      (t : ValueTable Cell)
      → All IsRectangular values
      → IsRectangular s.no_table
      → All (λ kind. kind ≡ 0) join
      → IsRectangular t
      → IsExtension first t
      → IsExtension first (join_from s values join index it t)
  unfolding join_from join_with
  join_from-IsExtension first values [] index it t all none zeros h e = e
  join_from-IsExtension first values (kind ∷ join) index it t all none zeros h e =
      let other = get_or values (it + 1) s.no_table in
      let i = get_or index 0 s.no_index in
      let j = get_or index (it + 1) s.no_index in
      join_from-IsExtension first values join index (it + 1) _ all none zeros.1
        (join_with-IsRectangular s kind t other i j)
        (rw zeros.0 (
          hjoin-IsExtension first t other i j h
            (get_or-All IsRectangular values (it + 1) s.no_table all none) e))

  -- Where the orders of the names and of the numbers revealed are strict weak orders, as `LessFloat`
  -- is on whole numbers, a column has one number revealed for each row, every row of every table has a cell for each column and all joins are horizontal, the table that
  -- is read has the names of the first table in front, and each of its rows begins with a row of
  -- the first table; so the index of the column with the numbers, given for the first table, stays
  -- right from one join to the next.
  pub parse_read-IsExtension :
      (values : List (ValueTable Cell)) (join index : List ℕ)
      → All IsRectangular values
      → IsRectangular s.no_table
      → All (λ kind. kind ≡ 0) join
      → IsExtension (get_or values 0 s.no_table) (parse_read s values join index)
  unfolding parse_read
  parse_read-IsExtension values join index all none zeros =
      let first = get_or values 0 s.no_table in
      join_from-IsExtension first values join index 0 first all none zeros
        (get_or-All IsRectangular values 0 s.no_table all none) (IsExtension-refl first)

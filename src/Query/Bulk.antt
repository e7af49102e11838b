-- ===== src/Query/Bulk.antt =====
-- The values of an insertion of many entries are separated by commas.
use mathlib.Core.List.{append_assoc, append-nil}
use quick_mpc.Prelude.{
  Text, codes, ℕ, ◌+◌, ◌-◌, ◌≡◌, ap, ◌∙◌, true, false, List, [], ◌∷◌, ◌++◌, map, ◌==◌,
  if◌then◌else◌, arith, length,
}
use quick_mpc.Query.{
  N1qlValue, to_value_set_string, insert_clause, returning_clause, insert, bulk_values, bulkinsert,
}

-- The texts with commas between them.
unfoldable pub join : List Text → Text
join [] = []
join (t ∷ []) = t
join (t ∷ u ∷ texts) = t ++ codes "," ++ join (u ∷ texts)

bulk_values-join :
    (size i : ℕ) (datas : List N1qlValue) (values : Text)
    → i + length datas ≡ size
    → bulk_values size i datas values ≡ values ++ join (map to_value_set_string datas)
unfolding bulk_values join
bulk_values-join size i [] values e = simp append-nil
bulk_values-join size i (v ∷ []) values e =
    let last : (i == size - 1) ≡ true = ground (arith, e) in
    rw (bulk_values, last) (simp append-nil)
bulk_values-join size i (v ∷ w ∷ datas) values e =
    let inner : (i == size - 1) ≡ false = ground (arith, e) in
    bulk_values-join size (i + 1) (w ∷ datas)
      (values ++ to_value_set_string v ++ (if i == size - 1 then [] else codes ","))
      (omega (arith, e))
    ∙ rw inner (simp append_assoc)

-- The values of a bulk insertion are the values of the entries with commas between them, and none
-- at the end; a bulk insertion of one entry is the insertion of that entry.
pub bulkinsert-join :
    (bucket : Text) (datas : List N1qlValue) (v : N1qlValue)
    → (bulkinsert bucket datas
        ≡ insert_clause bucket (join (map to_value_set_string datas)) ++ returning_clause)
      × (bulkinsert bucket (v ∷ []) ≡ insert bucket v)
unfolding bulkinsert insert to_value_set_string join
bulkinsert-join bucket datas v = (
  ap (λ t. insert_clause bucket t ++ returning_clause)
      (bulk_values-join (length datas) 0 datas [] (omega arith)),
  ap (λ t. insert_clause bucket t ++ returning_clause)
      (bulk_values-join 1 0 (v ∷ []) [] (omega arith)),
)

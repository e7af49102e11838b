-- ===== src/Table/Tests.antt =====
-- The joins on small tables: names, cells and numbers are natural numbers.
use quick_mpc.Prelude.{
  ℕ, ◌*◌, Bool, ◌≡◌, refl, sym, true, List, [], ◌∷◌, ◌==◌, ltb, arith, map, length,
}
use quick_mpc.KeyIndex.{
  same, intersection_value_index, union_value_index, find, emplace, emplace_all, found, contains,
  emplace_set, fresh,
}
use quick_mpc.KeyIndex.Order.{IsWeakOrder}
use quick_mpc.KeyIndex.Merge.{IsComparison}
use quick_mpc.Table.{
  ValueTable, Setting, less_float, get_column, id_column, ids, cells, row_at, joined_rows, vjoin,
  hjoin, hjoin_share, join_with, join_from, parse_read,
}
use quick_mpc.Table.Rows.{partner, partnered, others}
use quick_mpc.Table.Horizontal.{IsRectangular, IsSetting, hjoin_lem, hjoin_share-hjoin}
use quick_mpc.Table.Vertical.{vjoin_lem}
use quick_mpc.Table.Extension.{IsExtension, parse_read-IsExtension}

abbrev empty_table : ValueTable ℕ
empty_table = record { table = []; schemas = [] }

-- `LessFloat` on whole numbers, with eight decimal places.
abbrev less_whole : ℕ → ℕ → Bool
less_whole a b = less_float 1000 (100000000 * a) (100000000 * b)

less_whole-ltb : (a b : ℕ) → less_whole a b ≡ ltb a b
unfolding less_float
less_whole-ltb a b = ground arith

-- Of three numbers each is the same as the next one, but the first is below the last.
close_numbers :
    (same (less_float 1000) 0 600 ≡ true)
    × (same (less_float 1000) 600 1200 ≡ true)
    × (less_float 1000 0 1200 ≡ true)
unfolding less_float same
close_numbers = (refl, refl, refl)

abbrev setting : Setting ℕ ℕ ℕ
setting = record {
  share = λ c. c;
  reveal = map (λ c. c);
  less_id = less_whole;
  less_name = ltb;
  equal_share = ◌==◌;
  less_share = ltb;
  no_cell = 0;
  no_table = empty_table;
  no_index = 0;
}

ltb-IsWeakOrder : IsWeakOrder ltb
unfolding same
ltb-IsWeakOrder = record {
  irrefl = λ a. ground arith;
  trans = λ a b c h k. ground arith;
  same_trans = λ a b c h k. ground arith;
}

less_whole-IsWeakOrder : IsWeakOrder less_whole
unfolding same less_float
less_whole-IsWeakOrder = record {
  irrefl = λ a. ground arith;
  trans = λ a b c h k. ground (arith, h, k);
  same_trans = λ a b c h k. ground (arith, h, k);
}

ltb-equal : (a b : ℕ) → same ltb a b ≡ true → a ≡ b
unfolding same
ltb-equal a b h = ground arith

length-reveal : (xs : List ℕ) → length (map (λ c. c) xs) ≡ length xs
length-reveal [] = refl
length-reveal (x ∷ xs) = omega (arith, length-reveal xs)

setting-IsSetting : IsSetting setting
setting-IsSetting = record {
  names = ltb-IsWeakOrder;
  numbers = less_whole-IsWeakOrder;
  revealed = length-reveal;
}

setting-IsComparison : IsComparison {Share = ℕ} less_whole (λ c. c) ◌==◌ ltb
unfolding same less_float
setting-IsComparison = record {
  equal_value = λ a b. ground arith;
  less_value = λ a b. sym (less_whole-ltb a b);
}

-- Columns 1, 2, 3 with the numbers in the first; columns 1, 3, 4.
abbrev left : ValueTable ℕ
left = record { table = (10 ∷ 5 ∷ 6 ∷ []) ∷ (20 ∷ 7 ∷ 8 ∷ []) ∷ []; schemas = 1 ∷ 2 ∷ 3 ∷ [] }

abbrev right : ValueTable ℕ
right = record { table = (20 ∷ 9 ∷ 4 ∷ []) ∷ (30 ∷ 3 ∷ 2 ∷ []) ∷ []; schemas = 1 ∷ 3 ∷ 4 ∷ [] }

left-IsRectangular : IsRectangular left
unfolding IsRectangular
left-IsRectangular = (refl, (refl, tt))

right-IsRectangular : IsRectangular right
unfolding IsRectangular
right-IsRectangular = (refl, (refl, tt))

hjoin_small :
    hjoin setting left right 1 1
    ≡ record { table = (20 ∷ 7 ∷ 8 ∷ 4 ∷ []) ∷ []; schemas = 1 ∷ 2 ∷ 3 ∷ 4 ∷ [] }
unfolding less_float hjoin ids id_column get_column cells row_at joined_rows
    intersection_value_index union_value_index find emplace emplace_all found contains emplace_set
    fresh same
hjoin_small = refl

vjoin_small :
    vjoin setting left right 1 1
    ≡ record { table = (10 ∷ 6 ∷ []) ∷ (20 ∷ 8 ∷ []) ∷ (30 ∷ 3 ∷ []) ∷ []; schemas = 1 ∷ 3 ∷ [] }
unfolding less_float vjoin ids id_column get_column cells row_at joined_rows
    intersection_value_index union_value_index find emplace emplace_all found contains emplace_set
    fresh same
vjoin_small = refl

hjoin_share-hjoin_example : hjoin_share setting left right 1 1 ≡ hjoin setting left right 1 1
unfolding less_float ids id_column get_column
hjoin_share-hjoin_example =
    hjoin_share-hjoin setting setting-IsSetting (λ c. c) (λ xs. refl) setting-IsComparison left
      right 1 1 ((refl, tt), (tt, tt)) ((refl, tt), (tt, tt))

hjoin_lem_example :
    hjoin setting left right 1 1
    ≡ record { table = (20 ∷ 7 ∷ 8 ∷ 4 ∷ []) ∷ []; schemas = 1 ∷ 2 ∷ 3 ∷ 4 ∷ [] }
unfolding less_float ids id_column get_column partner partnered others same contains
hjoin_lem_example =
    hjoin_lem setting setting-IsSetting left right 1 1 left-IsRectangular right-IsRectangular

vjoin_lem_example :
    (vjoin setting left right 1 1
      ≡ record { table = (10 ∷ 6 ∷ []) ∷ (20 ∷ 8 ∷ []) ∷ (30 ∷ 3 ∷ []) ∷ []; schemas = 1 ∷ 3 ∷ [] })
    × (◌≡◌ {A = List ℕ} (1 ∷ 3 ∷ []) (1 ∷ 3 ∷ []))
unfolding less_float ids id_column get_column partner partnered others same contains
vjoin_lem_example =
    vjoin_lem setting setting-IsSetting left right 1 1 ltb-equal left-IsRectangular
      right-IsRectangular

parse_read-IsExtension_example :
    IsExtension left (parse_read setting (left ∷ right ∷ right ∷ []) (0 ∷ 0 ∷ []) (1 ∷ 1 ∷ 1 ∷ []))
unfolding IsRectangular
parse_read-IsExtension_example =
    parse_read-IsExtension setting setting-IsSetting (left ∷ right ∷ right ∷ []) (0 ∷ 0 ∷ [])
      (1 ∷ 1 ∷ 1 ∷ []) (left-IsRectangular, (right-IsRectangular, (right-IsRectangular, tt))) tt
      (refl, (refl, tt))

-- A vertical join that drops a column in front of the numbers moves them: the index of the first
-- table, 2, then names another column in the next join.
abbrev front : ValueTable ℕ
front = record { table = (7 ∷ 10 ∷ 6 ∷ []) ∷ []; schemas = 9 ∷ 1 ∷ 3 ∷ [] }

moved_column : (parse_read setting (front ∷ right ∷ []) (1 ∷ []) (2 ∷ 1 ∷ [])).schemas ≡ 1 ∷ 3 ∷ []
unfolding less_float parse_read join_from join_with vjoin ids id_column get_column cells row_at
    joined_rows intersection_value_index union_value_index find emplace emplace_all found contains
    emplace_set fresh same
moved_column = refl

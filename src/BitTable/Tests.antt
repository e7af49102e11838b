-- ===== src/BitTable/Tests.antt =====
-- A table of two attributes with two values each.
use quick_mpc.Prelude.{ℕ, ◌≡◌, refl, List, [], ◌∷◌}
use quick_mpc.BitTable.{attr_size_list, attr_size_loop, begins_attribute, reversed, scan_from_right}

-- The names a#0, a#1, b#0 and b#1.
abbrev names : List (List ℕ)
names = (97 ∷ 35 ∷ 48 ∷ []) ∷ (97 ∷ 35 ∷ 49 ∷ []) ∷ (98 ∷ 35 ∷ 48 ∷ []) ∷ (98 ∷ 35 ∷ 49 ∷ []) ∷ []

attr_size_small : attr_size_list 0 names ≡ 2 ∷ 2 ∷ []
unfolding attr_size_list attr_size_loop begins_attribute reversed scan_from_right
attr_size_small = refl

abbrev small_rows : List (List ℕ)
small_rows = (0 ∷ 1 ∷ 1 ∷ 0 ∷ []) ∷ (1 ∷ 0 ∷ 1 ∷ 0 ∷ []) ∷ []

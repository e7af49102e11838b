-- ===== src/JoinJob/Tests.antt =====
-- A joined table of four columns, matched in the third.
use quick_mpc.Prelude.{ℕ, ◌≡◌, refl, List, [], ◌∷◌}
use quick_mpc.JoinJob.{remove_cells, remove_id_column, join_compute}

abbrev joined : List (List ℕ)
joined = (1 ∷ 50 ∷ 7 ∷ 60 ∷ []) ∷ (2 ∷ 51 ∷ 8 ∷ 61 ∷ []) ∷ []

join_small :
    join_compute {A = ℕ} {Text = ℕ} {Name = ℕ} (λ a. a) joined (11 ∷ 12 ∷ 13 ∷ 14 ∷ []) 3
    ≡ ((50 ∷ 60 ∷ []) ∷ (51 ∷ 61 ∷ []) ∷ [], 12 ∷ 14 ∷ [])
unfolding join_compute remove_id_column remove_cells
join_small = refl

-- ===== src/Pieces/Tests.antt =====
-- Three pieces that arrive out of order.
use mathlib.Core.List.{flatten}
use quick_mpc.Prelude.{ℕ, ◌≡◌, refl, some, List, [], ◌∷◌, arith, codes}
use quick_mpc.Pieces.{Piece, emplace_piece, collect, append_pieces, execute_query_text, read_share}
use quick_mpc.Pieces.Order.{later, exchanged, followed, numbered, read_share_lem}

-- A second piece with the same number is dropped.
kept_piece : execute_query_text ((1, codes "b") ∷ (0, codes "a") ∷ (1, codes "c") ∷ []) ≡ codes "ab"
unfolding execute_query_text collect emplace_piece append_pieces
kept_piece = refl

abbrev piece : ℕ → List ℕ → Piece ℕ ℕ
piece k rows = record { piece_id = k; value = rows; schema = 7 }

read_share_lem_example :
    read_share (piece 1 (3 ∷ []) ∷ piece 2 (4 ∷ []) ∷ piece 0 (1 ∷ 2 ∷ []) ∷ [])
    ≡ some (1 ∷ 2 ∷ 3 ∷ 4 ∷ [], 7)
unfolding numbered flatten
read_share_lem_example =
    read_share_lem ((1 ∷ 2 ∷ []) ∷ (3 ∷ []) ∷ (4 ∷ []) ∷ []) (piece 1 (3 ∷ []))
      (piece 2 (4 ∷ []) ∷ piece 0 (1 ∷ 2 ∷ []) ∷ [])
      (followed (exchanged (λ e. ground (arith, e))) (later (exchanged (λ e. ground (arith, e)))))

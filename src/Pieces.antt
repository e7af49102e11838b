-- ===== src/Pieces.antt =====
-- src/ComputationContainer/Client/ComputationToDbGate/Client.cpp and Client/AnyToDb/Client.cpp:
-- tables and answers that arrive in numbered pieces. The JSON library and the stream are not here:
-- the pieces are a list in the order in which they are read.
pub mod Order
mod Tests
use quick_mpc.Prelude.{
  ℕ, suc, ◌+◌, Option, none, some, List, [], ◌∷◌, ◌++◌, ltb, ◌==◌, if◌then◌else◌, Text,
}

-- `emplace` of a `std::map`, as the list of its entries in the order of the keys: an entry that is
-- there stays.
unfoldable pub emplace_piece {ℓ} : {V : Type ℓ} → ℕ → V → List (ℕ × V) → List (ℕ × V)
emplace_piece piece_id value [] = (piece_id, value) ∷ []
emplace_piece piece_id value ((k, v) ∷ pieces) =
    let rest = emplace_piece piece_id value pieces in
    if ltb piece_id k
    then (piece_id, value) ∷ (k, v) ∷ pieces
    else (if piece_id == k then (k, v) ∷ pieces else (k, v) ∷ rest)

-- The loop over what is read.
unfoldable pub collect {ℓ} : {V : Type ℓ} → List (ℕ × V) → List (ℕ × V) → List (ℕ × V)
collect pieces [] = pieces
collect pieces ((piece_id, value) ∷ responses) =
    collect (emplace_piece piece_id value pieces) responses

-- The loop over the map that appends the pieces.
unfoldable pub append_pieces {ℓ} : {B : Type ℓ} → List (ℕ × List B) → List B
append_pieces [] = []
append_pieces ((piece_id, piece) ∷ pieces) = piece ++ append_pieces pieces

-- The text that `executeQuery` puts together from the answers of the stream.
pub execute_query_text : List (ℕ × Text) → Text
execute_query_text responses = append_pieces (collect [] responses)

-- An entry of the answer: the number of the piece, its rows and its schema.
pub record Piece (Row Schema : Type 0) : Type 0 where
  pub piece_id : ℕ
  pub value : List Row
  pub schema : Schema

abbrev pub numbered_rows : {Row Schema : Type 0} → List (Piece Row Schema) → List (ℕ × List Row)
numbered_rows [] = []
numbered_rows (json ∷ response_json) = (json.piece_id, json.value) ∷ numbered_rows response_json

-- `readShare`: the rows in the order of the pieces, with the schema of the piece read first. `none` is
-- the exception for an answer without pieces.
unfoldable pub read_share :
    {Row Schema : Type 0} → List (Piece Row Schema) → Option (List Row × Schema)
read_share [] = none
read_share (json ∷ response_json) =
    some (append_pieces (collect [] (numbered_rows (json ∷ response_json))), json.schema)

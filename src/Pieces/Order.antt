-- ===== src/Pieces/Order.antt =====
-- The order in which the pieces arrive does not matter.
use mathlib.Core.List.{append_assoc, append-nil, flatten}
use quick_mpc.Prelude.{
  ℕ, ◌+◌, ◌≤◌, ◌≡◌, ◌≢◌, refl, sym, ap, ◌∙◌, some, List, [], ◌∷◌, ◌++◌, arith, length,
  length-append,
}
use quick_mpc.Pieces.{Piece, emplace_piece, collect, append_pieces, numbered_rows, read_share}

-- The second list is the first with pieces of different numbers exchanged, any number of times.
pub data Reordered {ℓ} {V : Type ℓ} : List (ℕ × V) → List (ℕ × V) → Type ℓ where
  in_order : {xs : List (ℕ × V)} → Reordered xs xs
  later : {x : ℕ × V} {xs ys : List (ℕ × V)} → Reordered xs ys → Reordered (x ∷ xs) (x ∷ ys)
  exchanged :
      {i j : ℕ} {v w : V} {xs : List (ℕ × V)}
      → i ≢ j
      → Reordered ((i, v) ∷ (j, w) ∷ xs) ((j, w) ∷ (i, v) ∷ xs)
  followed : {xs ys zs : List (ℕ × V)} → Reordered xs ys → Reordered ys zs → Reordered xs zs

module _ {ℓ} {V : Type ℓ} where
  emplace_comm :
      (i j : ℕ) (v w : V) (pieces : List (ℕ × V))
      → i ≢ j
      → emplace_piece i v (emplace_piece j w pieces) ≡ emplace_piece j w (emplace_piece i v pieces)
  unfolding emplace_piece
  emplace_comm i j v w [] other = ground (arith, other)
  emplace_comm i j v w ((k, u) ∷ pieces) other =
      ground (arith, other, emplace_comm i j v w pieces other)

  collect-Reordered :
      {xs ys : List (ℕ × V)} (pieces : List (ℕ × V))
      → Reordered xs ys
      → collect pieces xs ≡ collect pieces ys
  unfolding collect
  collect-Reordered pieces in_order = refl
  collect-Reordered pieces (later {x = (i, v)} r) = collect-Reordered (emplace_piece i v pieces) r
  collect-Reordered pieces (exchanged {i = i} {j = j} {v = v} {w = w} {xs = xs} other) =
      ap (λ m. collect m xs) (emplace_comm j i w v pieces (λ e. other (sym e)))
  collect-Reordered pieces (followed r q) = collect-Reordered pieces r ∙ collect-Reordered pieces q

  -- The pieces numbered from `k` on.
  unfoldable pub numbered : ℕ → List V → List (ℕ × V)
  numbered k [] = []
  numbered k (v ∷ parts) = (k, v) ∷ numbered (k + 1) parts

  emplace_piece-last :
      (before k : ℕ) (v : V) (parts : List V)
      → before + length parts ≤ k
      → emplace_piece k v (numbered before parts) ≡ numbered before parts ++ (k, v) ∷ []
  unfolding emplace_piece numbered
  emplace_piece-last before k v [] h = refl
  emplace_piece-last before k v (p ∷ parts) h =
      ground (arith, h, emplace_piece-last (before + 1) k v parts (omega (arith, h)))

  numbered-last :
      (k : ℕ) (parts : List V) (v : V)
      → numbered k (parts ++ v ∷ []) ≡ numbered k parts ++ (k + length parts, v) ∷ []
  unfolding numbered
  numbered-last k [] v = ap (λ (m : ℕ). (m, v) ∷ []) (omega arith)
  numbered-last k (p ∷ parts) v =
      ap (λ t. (k, p) ∷ t)
        (numbered-last (k + 1) parts v
          ∙ ap (λ (m : ℕ). numbered (k + 1) parts ++ (m, v) ∷ []) (omega arith))

  collect-numbered :
      (arrived parts : List V)
      → collect (numbered 0 arrived) (numbered (length arrived) parts)
        ≡ numbered 0 (arrived ++ parts)
  unfolding collect numbered
  collect-numbered arrived [] = simp append-nil
  collect-numbered arrived (v ∷ parts) =
      let one_more : numbered 0 arrived ++ (length arrived, v) ∷ []
          ≡ numbered 0 (arrived ++ v ∷ []) =
        ap (λ (m : ℕ). numbered 0 arrived ++ (m, v) ∷ []) (omega arith)
        ∙ sym (numbered-last 0 arrived v) in
      let longer : length arrived + 1 ≡ length (arrived ++ v ∷ []) =
        omega (arith, length-append arrived (v ∷ [])) in
      ap (λ m. collect m (numbered (length arrived + 1) parts))
        (emplace_piece-last 0 (length arrived) v arrived (omega arith) ∙ one_more)
      ∙ ap (λ (n : ℕ). collect (numbered 0 (arrived ++ v ∷ [])) (numbered n parts)) longer
      ∙ collect-numbered (arrived ++ v ∷ []) parts
      ∙ ap (λ t. numbered 0 t) (append_assoc arrived (v ∷ []) parts)

append_pieces-numbered :
    {B : Type 0} (k : ℕ) (parts : List (List B)) → append_pieces (numbered k parts) ≡ flatten parts
unfolding append_pieces numbered flatten
append_pieces-numbered k [] = refl
append_pieces-numbered k (p ∷ parts) = ap (λ t. p ++ t) (append_pieces-numbered (k + 1) parts)

-- In whatever order the pieces of a table are read that are numbered from zero on, the table has
-- the rows of the pieces in the order of their numbers, with the schema of the piece read first.
pub read_share_lem :
    {Row Schema : Type 0} (parts : List (List Row)) (json : Piece Row Schema)
    (response_json : List (Piece Row Schema))
    → Reordered (numbered 0 parts) (numbered_rows (json ∷ response_json))
    → read_share (json ∷ response_json) ≡ some (flatten parts, json.schema)
unfolding read_share numbered
read_share_lem parts json response_json order =
    ap (λ t. some (append_pieces t, json.schema))
      (sym (collect-Reordered [] order) ∙ collect-numbered [] parts)
    ∙ ap (λ t. some (t, json.schema)) (append_pieces-numbered 0 parts)

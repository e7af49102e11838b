-- ===== src/BitTable.antt =====
-- src/ComputationContainer/Job/Jobs/SID3Job.hpp and Model/Models/SID3Model.hpp: how the columns of a table are
-- grouped into attributes for the training of a decision tree and for its predictions. A name is
-- the list of its characters. A read past the end of a vector, which the language leaves undefined,
-- gives a value of which nothing is known.
pub mod Sizes
pub mod Layout
mod Tests
use quick_mpc.Prelude.{
  ℕ, zero, suc, ◌+◌, Bool, true, false, ◌&&◌, List, [], ◌∷◌, ◌++◌, map, ◌==◌, ltb, if◌then◌else◌,
  get_or, table,
}

-- The characters '#' and '0'.
abbrev pub hash : ℕ
hash = 35

abbrev pub digit_zero : ℕ
digit_zero = 48

-- The scan of a name from its right end: `next` is the character that stands behind the one that is read.
unfoldable pub scan_from_right : List ℕ → ℕ → Bool
scan_from_right [] next = false
scan_from_right (c ∷ rest) next =
    let further = scan_from_right rest c in if c == hash then next == digit_zero else further

unfoldable pub reversed : List ℕ → List ℕ
reversed [] = []
reversed (c ∷ rest) = reversed rest ++ c ∷ []

-- What follows the last '#' of the name begins with '0': a new attribute begins. `past_end` is what is read
-- behind the last character.
unfoldable pub begins_attribute : ℕ → List ℕ → Bool
begins_attribute past_end name = scan_from_right (reversed name) past_end

-- `getAttrSizeList`, the same in the job and in the model.
unfoldable pub attr_size_loop : ℕ → List (List ℕ) → ℕ → List ℕ
attr_size_loop past_end [] size = size ∷ []
attr_size_loop past_end (name ∷ schemas) size =
    if ltb 0 size && begins_attribute past_end name
    then size ∷ attr_size_loop past_end schemas 1
    else attr_size_loop past_end schemas (size + 1)

unfoldable pub attr_size_list : ℕ → List (List ℕ) → List ℕ
attr_size_list past_end schemas = attr_size_loop past_end schemas 0

module _ {A : Type 0} (outside : A) where
  -- `parseTable` and `parseSchema`: the columns with the numbers of `arg`, which begin with 1.
  unfoldable pub at_column : List A → ℕ → A
  at_column row zero = outside
  at_column row (suc j) = get_or row j outside

  unfoldable pub parse_row : List A → List ℕ → List A
  parse_row row arg = map (at_column row) arg

  unfoldable pub parse_table : List (List A) → List ℕ → List (List A)
  parse_table rows arg = map (λ row. parse_row row arg) rows

  -- `getBitvector` of the model: for each row the bits of each attribute, from the column `from` on.
  unfoldable pub row_bits : List ℕ → ℕ → List A → List (List A)
  row_bits [] from row = []
  row_bits (size ∷ sizes) from row =
      table size from (λ i. get_or row i outside) ∷ row_bits sizes (from + size) row

  unfoldable pub model_bitvector : List (List A) → List ℕ → List (List (List A))
  model_bitvector rows sizes = map (row_bits sizes 0) rows

  -- `getBitvector` of the job: for each attribute and each of its values the bits of all rows.
  unfoldable pub job_bits : List ℕ → ℕ → List (List A) → List (List (List A))
  job_bits [] from rows = []
  job_bits (size ∷ sizes) from rows =
      table size from (λ i. map (λ row. get_or row i outside) rows)
      ∷ job_bits sizes (from + size) rows

  unfoldable pub job_bitvector : List (List A) → List ℕ → List (List (List A))
  job_bitvector rows sizes = job_bits sizes 0 rows

-- ===== src/BitTable/Layout.antt =====
-- The bits of the training and of a prediction are the cells of the table, each in its place.
use mathlib.Core.List.{flatten}
use quick_mpc.Prelude.{
  ℕ, zero, suc, ◌+◌, ◌<◌, ◌≡◌, refl, ap, ap₂, ◌∙◌, List, [], ◌∷◌, ◌++◌, map, arith, length, get_or,
  table,
}
use quick_mpc.BitTable.{attr_size_list, row_bits, model_bitvector, job_bits, job_bitvector}
use quick_mpc.BitTable.Sizes.{sum, sum-attr_size_list}

table-append :
    {A : Type 0} (m n k : ℕ) (g : ℕ → A) → table m k g ++ table n (k + m) g ≡ table (m + n) k g
table-append zero n k g =
    let e : k + 0 ≡ k = omega arith in let f : 0 + n ≡ n = omega arith in rw (e, f) refl
table-append (suc m) n k g =
    let e : k + suc m ≡ k + 1 + m = omega arith in
    let f : suc m + n ≡ suc (m + n) = omega arith in
    rw (e, f) (ap (◌∷◌ (g k)) (table-append m n (k + 1) g))

table-shift :
    {A : Type 0} (f g : ℕ → A) (n k : ℕ)
    → ((i : ℕ) → f (i + 1) ≡ g i)
    → table n (k + 1) f ≡ table n k g
table-shift f g zero k e = refl
table-shift f g (suc n) k e = ap₂ ◌∷◌ (e k) (table-shift f g n (k + 1) e)

table-get_or : {A : Type 0} (xs : List A) (d : A) → table (length xs) 0 (λ i. get_or xs i d) ≡ xs
table-get_or [] d = refl
table-get_or (x ∷ xs) d = ap (◌∷◌ x) (
    table-shift (λ i. get_or (x ∷ xs) i d) (λ i. get_or xs i d) (length xs) 0
      (λ i. let e : i + 1 ≡ suc i = omega arith in rw e refl)
    ∙ table-get_or xs d)

module _ {A : Type 0} (outside : A) where
  flatten-row_bits :
      (sizes : List ℕ) (from : ℕ) (row : List A)
      → flatten (row_bits outside sizes from row)
        ≡ table (sum sizes) from (λ i. get_or row i outside)
  unfolding row_bits flatten sum
  flatten-row_bits [] from row = refl
  flatten-row_bits (size ∷ sizes) from row =
      ap (◌++◌ (table size from (λ i. get_or row i outside)))
        (flatten-row_bits sizes (from + size) row)
      ∙ table-append size (sum sizes) from (λ i. get_or row i outside)

  -- The bits of a row with a cell for each name, grouped by the sizes that the names give, are the cells of the
  -- row, each once and in their order.
  pub row_bits-attr_size_list :
      (past_end : ℕ) (schemas : List (List ℕ)) (row : List A)
      → length row ≡ length schemas
      → flatten (row_bits outside (attr_size_list past_end schemas) 0 row) ≡ row
  row_bits-attr_size_list past_end schemas row h =
      flatten-row_bits (attr_size_list past_end schemas) 0 row
      ∙ rw (sum-attr_size_list past_end schemas, ← h) (table-get_or row outside)

  get_or-column :
      (rows : List (List A)) (i d : ℕ)
      → get_or (map (λ row. get_or row i outside) rows) d outside
        ≡ get_or (get_or rows d []) i outside
  get_or-column [] i d = refl
  get_or-column (row ∷ rows) i zero = refl
  get_or-column (row ∷ rows) i (suc d) = get_or-column rows i d

  get_or-columns :
      (size from j d : ℕ) (rows : List (List A))
      → get_or
          (get_or (table size from (λ i. map (λ row. get_or row i outside) rows)) j [])
          d
          outside
        ≡ get_or (table size from (λ i. get_or (get_or rows d []) i outside)) j outside
  get_or-columns zero from j d rows = refl
  get_or-columns (suc size) from zero d rows = get_or-column rows from d
  get_or-columns (suc size) from (suc j) d rows = get_or-columns size (from + 1) j d rows

  job_bits-row_bits :
      (sizes : List ℕ) (from r j d : ℕ) (rows : List (List A))
      → get_or (get_or (get_or (job_bits outside sizes from rows) r []) j []) d outside
        ≡ get_or (get_or (row_bits outside sizes from (get_or rows d [])) r []) j outside
  unfolding job_bits row_bits
  job_bits-row_bits [] from r j d rows = refl
  job_bits-row_bits (size ∷ sizes) from zero j d rows = get_or-columns size from j d rows
  job_bits-row_bits (size ∷ sizes) from (suc r) j d rows =
      job_bits-row_bits sizes (from + size) r j d rows

  pub get_or-model_bitvector :
      (rows : List (List A)) (sizes : List ℕ) (d : ℕ)
      → d < length rows
      → get_or (model_bitvector outside rows sizes) d []
        ≡ row_bits outside sizes 0 (get_or rows d [])
  unfolding model_bitvector
  get_or-model_bitvector [] sizes d h = absurd (omega arith)
  get_or-model_bitvector (row ∷ rows) sizes zero h = refl
  get_or-model_bitvector (row ∷ rows) sizes (suc d) h =
      get_or-model_bitvector rows sizes d (omega arith)

  -- For every row of a table, the bit of a value of an attribute that the training reads is the one that a
  -- prediction for the same row reads.
  pub job_bitvector-model_bitvector :
      (rows : List (List A)) (sizes : List ℕ) (r j d : ℕ)
      → d < length rows
      → get_or (get_or (get_or (job_bitvector outside rows sizes) r []) j []) d outside
        ≡ get_or (get_or (get_or (model_bitvector outside rows sizes) d []) r []) j outside
  unfolding job_bitvector
  job_bitvector-model_bitvector rows sizes r j d h =
      rw (get_or-model_bitvector rows sizes d h) (job_bits-row_bits sizes 0 r j d rows)

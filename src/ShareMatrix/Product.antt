-- ===== src/ShareMatrix/Product.antt =====
-- The product of matrices: what is read back from the one multiplication of vectors.
use mathlib.Core.List.{append_assoc, append-nil}
use quick_mpc.Prelude.{
  ℕ, zero, suc, ◌+◌, ◌*◌, ◌≡◌, refl, sym, ap, ap₂, ◌∙◌, true, some, List, [], ◌∷◌, ◌++◌, ◌==◌,
  arith, length, length-append, length-table, get_or, table,
}
use quick_mpc.DecisionTree.{Arithmetic}
use quick_mpc.ShareMatrix.{
  height, width, column_loop, row_loop, at, multiply_each, multiply_vectors, take_sum, take_row,
  take_rows, product,
}

get_or-append :
    {A : Type 0} (before more : List A) (x d : A)
    → get_or (before ++ x ∷ more) (length before) d ≡ x
get_or-append [] more x d = refl
get_or-append (y ∷ before) more x d = get_or-append before more x d

module _ {A : Type 0} (s : Arithmetic A) where
  -- The sum of the first `n` terms.
  unfoldable pub sum_below : ℕ → (ℕ → A) → A
  sum_below zero f = s.default
  sum_below (suc n) f = s.plus (sum_below n f) (f n)

  multiply_each-append :
      (xs us ys vs : List A)
      → length xs ≡ length ys
      → multiply_each s (xs ++ us) (ys ++ vs) ≡ multiply_each s xs ys ++ multiply_each s us vs
  unfolding multiply_each
  multiply_each-append [] us [] vs e = refl
  multiply_each-append [] us (y ∷ ys) vs e = absurd (omega (arith, e))
  multiply_each-append (x ∷ xs) us [] vs e = absurd (omega (arith, e))
  multiply_each-append (x ∷ xs) us (y ∷ ys) vs e =
      ap (λ t. s.times x y ∷ t) (multiply_each-append xs us ys vs (omega (arith, e)))

  multiply_each-table :
      (n k : ℕ) (f g : ℕ → A)
      → multiply_each s (table n k f) (table n k g) ≡ table n k (λ i. s.times (f i) (g i))
  unfolding multiply_each
  multiply_each-table zero k f g = refl
  multiply_each-table (suc n) k f g =
      ap (λ t. s.times (f k) (g k) ∷ t) (multiply_each-table n (k + 1) f g)

  length-column_loop : (n j w : ℕ) (f : ℕ → ℕ → A) → length (column_loop n j w f) ≡ n * w
  unfolding column_loop
  length-column_loop zero j w f = omega arith
  length-column_loop (suc n) j w f = omega (
    arith,
    length-append (table w 0 (f j)) (column_loop n (j + 1) w f),
    length-table w 0 (f j),
    length-column_loop n (j + 1) w f,
  )

  length-row_loop :
      (n i columns w : ℕ) (f : ℕ → ℕ → ℕ → A)
      → length (row_loop n i columns w f) ≡ n * (columns * w)
  unfolding row_loop
  length-row_loop zero i columns w f = omega arith
  length-row_loop (suc n) i columns w f = omega (
    arith,
    length-append (column_loop columns 0 w (f i)) (row_loop n (i + 1) columns w f),
    length-column_loop columns 0 w (f i),
    length-row_loop n (i + 1) columns w f,
  )

  multiply_each-columns :
      (n j w : ℕ) (f g : ℕ → ℕ → A)
      → multiply_each s (column_loop n j w f) (column_loop n j w g)
        ≡ column_loop n j w (λ j k. s.times (f j k) (g j k))
  unfolding column_loop multiply_each
  multiply_each-columns zero j w f g = refl
  multiply_each-columns (suc n) j w f g =
      multiply_each-append (table w 0 (f j)) _ (table w 0 (g j)) _
        (length-table w 0 (f j) ∙ sym (length-table w 0 (g j)))
      ∙ ap₂ (λ t u. t ++ u) (multiply_each-table w 0 (f j) (g j))
          (multiply_each-columns n (j + 1) w f g)

  multiply_each-rows :
      (n i columns w : ℕ) (f g : ℕ → ℕ → ℕ → A)
      → multiply_each s (row_loop n i columns w f) (row_loop n i columns w g)
        ≡ row_loop n i columns w (λ i j k. s.times (f i j k) (g i j k))
  unfolding row_loop multiply_each
  multiply_each-rows zero i columns w f g = refl
  multiply_each-rows (suc n) i columns w f g =
      multiply_each-append (column_loop columns 0 w (f i)) _ (column_loop columns 0 w (g i)) _
        (length-column_loop columns 0 w (f i) ∙ sym (length-column_loop columns 0 w (g i)))
      ∙ ap₂ (λ t u. t ++ u) (multiply_each-columns columns 0 w (f i) (g i))
          (multiply_each-rows n (i + 1) columns w f g)

  -- The terms from `k` on that stand behind `before` are added to the sum of those below `k`.
  take_sum-terms :
      (n k it : ℕ) (f : ℕ → A) (mul before rest : List A)
      → mul ≡ before ++ (table n k f ++ rest)
      → it ≡ length before
      → take_sum s n mul it (sum_below k f) ≡ (sum_below (k + n) f, it + n)
  unfolding take_sum sum_below
  take_sum-terms zero k it f mul before rest e at_it =
      ap₂ (λ (a b : ℕ). (sum_below a f, b)) (omega arith) (omega arith)
  take_sum-terms (suc n) k it f mul before rest e at_it =
      let read : get_or mul it s.outside ≡ f k =
        rw (e, at_it) (get_or-append before (table n (k + 1) f ++ rest) (f k) s.outside) in
      let next : s.plus (sum_below k f) (get_or mul it s.outside) ≡ sum_below (k + 1) f =
        let up : k + 1 ≡ suc k = omega arith in rw (read, up) refl in
      rw next (
        take_sum-terms n (k + 1) (it + 1) f mul (before ++ f k ∷ []) rest
          (e ∙ sym (append_assoc before (f k ∷ []) (table n (k + 1) f ++ rest)))
          (omega (arith, at_it, length-append before (f k ∷ [])))
        ∙ ap₂ (λ (a b : ℕ). (sum_below a f, b)) (omega arith) (omega arith))

  -- The terms of one sum.
  take_sum-all :
      (w it : ℕ) (f : ℕ → A) (mul before rest : List A)
      → mul ≡ before ++ (table w 0 f ++ rest)
      → it ≡ length before
      → take_sum s w mul it s.default ≡ (sum_below w f, it + w)
  unfolding sum_below
  take_sum-all w it f mul before rest e at_it =
      take_sum-terms w 0 it f mul before rest e at_it
      ∙ ap (λ (m : ℕ). (sum_below m f, it + w)) (omega arith)

  take_row-sums :
      (n j w it : ℕ) (f : ℕ → ℕ → A) (mul before rest : List A)
      → mul ≡ before ++ (column_loop n j w f ++ rest)
      → it ≡ length before
      → take_row s n w mul it ≡ (table n j (λ j. sum_below w (f j)), it + n * w)
  unfolding take_row column_loop
  take_row-sums zero j w it f mul before rest e at_it = ap (λ (m : ℕ). ([], m)) (omega arith)
  take_row-sums (suc n) j w it f mul before rest e at_it =
      let first =
        take_sum-all w it (f j) mul before (column_loop n (j + 1) w f ++ rest)
          (e
            ∙ ap (λ t. before ++ t)
                (append_assoc (table w 0 (f j)) (column_loop n (j + 1) w f) rest))
          at_it in
      let others =
        take_row-sums n (j + 1) w (it + w) f mul (before ++ table w 0 (f j)) rest
          (e ∙ simp append_assoc)
          (omega (arith, at_it, length-append before (table w 0 (f j)), length-table w 0 (f j))) in
      rw (take_row, first, others)
        (ap (λ (m : ℕ). (table (suc n) j (λ j. sum_below w (f j)), m)) (omega arith))

  take_rows-sums :
      (n i columns w it : ℕ) (f : ℕ → ℕ → ℕ → A) (mul before rest : List A)
      → mul ≡ before ++ (row_loop n i columns w f ++ rest)
      → it ≡ length before
      → take_rows s n columns w mul it ≡ table n i (λ i. table columns 0 (λ j. sum_below w (f i j)))
  unfolding take_rows row_loop
  take_rows-sums zero i columns w it f mul before rest e at_it = refl
  take_rows-sums (suc n) i columns w it f mul before rest e at_it =
      let first =
        take_row-sums columns 0 w it (f i) mul before (row_loop n (i + 1) columns w f ++ rest)
          (e
            ∙ ap (λ t. before ++ t)
                (append_assoc (column_loop columns 0 w (f i)) (row_loop n (i + 1) columns w f)
                  rest))
          at_it in
      let others =
        take_rows-sums n (i + 1) columns w (it + columns * w) f mul
          (before ++ column_loop columns 0 w (f i)) rest (e ∙ simp append_assoc)
          (omega (
            arith,
            at_it,
            length-append before (column_loop columns 0 w (f i)),
            length-column_loop columns 0 w (f i),
          )) in
      rw (take_rows, first, others) refl

-- Where the first matrix is as wide as the second is high, the product has for each row of the
-- first and each column of the second the sum of the products of their entries, added up in their
-- order.
pub product_lem :
    {A : Type 0} (s : Arithmetic A) (mat obj : List (List A))
    → width mat ≡ height obj
    → product s mat obj
      ≡ some (
          table (height mat) 0 (λ i.
            table
              (width obj)
              0
              (λ j. sum_below s (width mat) (λ k. s.times (at s mat i k) (at s obj k j)))))
unfolding product multiply_vectors
product_lem s mat obj fits =
    let h = height mat in
    let c = width obj in
    let w = width mat in
    let a = row_loop h 0 c w (λ i j k. at s mat i k) in
    let b = row_loop h 0 c w (λ i j k. at s obj k j) in
    let same : (length a == length b) ≡ true = ground (
      arith,
      length-row_loop s h 0 c w (λ i j k. at s mat i k),
      length-row_loop s h 0 c w (λ i j k. at s obj k j),
    ) in
    let test : (width mat == height obj) ≡ true = ground (arith, fits) in
    let all = multiply_each-rows s h 0 c w (λ i j k. at s mat i k) (λ i j k. at s obj k j) in
    rw (product, test, same)
      (ap some (
        take_rows-sums s h 0 c w 0 (λ i j k. s.times (at s mat i k) (at s obj k j))
          (multiply_each s a b) [] [] (all ∙ simp append-nil) refl))

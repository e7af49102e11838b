-- ===== src/ShareMatrix/Inverse.antt =====
-- The inverse by a random matrix is a left inverse.
use quick_mpc.Prelude.{
  ℕ, zero, suc, ◌<◌, ◌≡◌, refl, sym, ap, ap₂, ◌∙◌, some, List, [], ◌==◌, if◌then◌else◌, arith,
  length, length-table, get_or, get_or-loop, table,
}
use quick_mpc.DecisionTree.{Arithmetic}
use quick_mpc.ShareMatrix.{height, width, at, product, inverse}
use quick_mpc.ShareMatrix.Product.{sum_below, product_lem}

-- The laws of a ring that the comparison uses.
pub record IsRing {A : Type 0} (s : Arithmetic A) : Type 0 where
  pub plus_assoc : (a b c : A) → s.plus (s.plus a b) c ≡ s.plus a (s.plus b c)
  pub plus_comm : (a b : A) → s.plus a b ≡ s.plus b a
  pub plus_default : (a : A) → s.plus a s.default ≡ a
  pub times_assoc : (a b c : A) → s.times (s.times a b) c ≡ s.times a (s.times b c)
  pub times_plus : (a b c : A) → s.times a (s.plus b c) ≡ s.plus (s.times a b) (s.times a c)
  pub plus_times : (a b c : A) → s.times (s.plus a b) c ≡ s.plus (s.times a c) (s.times b c)
  pub times_default : (a : A) → s.times a s.default ≡ s.default
  pub default_times : (a : A) → s.times s.default a ≡ s.default

module _ {A : Type 0} (s : Arithmetic A) where
  -- An entry of a product.
  abbrev pub entry_of : ℕ → (ℕ → ℕ → A) → (ℕ → ℕ → A) → ℕ → ℕ → A
  entry_of n f g i j = sum_below s n (λ k. s.times (f i k) (g k j))

  sum_same :
      (n : ℕ) (f g : ℕ → A) → ((k : ℕ) → k < n → f k ≡ g k) → sum_below s n f ≡ sum_below s n g
  unfolding sum_below
  sum_same zero f g h = refl
  sum_same (suc n) f g h =
      ap₂ (λ a b. s.plus a b) (sum_same n f g (λ k less. h k (omega arith))) (h n (omega arith))

module _ {A : Type 0} (s : Arithmetic A) (laws : IsRing s) where
  exchange : (a b c d : A) → s.plus (s.plus a b) (s.plus c d) ≡ s.plus (s.plus a c) (s.plus b d)
  exchange a b c d =
      rw
        (
          laws.plus_assoc a b (s.plus c d),
          ← laws.plus_assoc b c d,
          laws.plus_comm b c,
          laws.plus_assoc c b d,
        )
        (sym (laws.plus_assoc a c (s.plus b d)))

  sum-plus :
      (n : ℕ) (f g : ℕ → A)
      → sum_below s n (λ k. s.plus (f k) (g k)) ≡ s.plus (sum_below s n f) (sum_below s n g)
  unfolding sum_below
  sum-plus zero f g = sym (laws.plus_default s.default)
  sum-plus (suc n) f g =
      ap (λ (t : A). s.plus t (s.plus (f n) (g n))) (sum-plus n f g)
      ∙ exchange (sum_below s n f) (sum_below s n g) (f n) (g n)

  sum-default : (n : ℕ) → sum_below s n (λ k. s.default) ≡ s.default
  unfolding sum_below
  sum-default zero = refl
  sum-default (suc n) =
      ap (λ (t : A). s.plus t s.default) (sum-default n) ∙ laws.plus_default s.default

  times-sum :
      (n : ℕ) (a : A) (f : ℕ → A)
      → s.times a (sum_below s n f) ≡ sum_below s n (λ k. s.times a (f k))
  unfolding sum_below
  times-sum zero a f = laws.times_default a
  times-sum (suc n) a f =
      laws.times_plus a (sum_below s n f) (f n)
      ∙ ap (λ (t : A). s.plus t (s.times a (f n))) (times-sum n a f)

  sum-times :
      (n : ℕ) (f : ℕ → A) (a : A)
      → s.times (sum_below s n f) a ≡ sum_below s n (λ k. s.times (f k) a)
  unfolding sum_below
  sum-times zero f a = laws.default_times a
  sum-times (suc n) f a =
      laws.plus_times (sum_below s n f) (f n) a
      ∙ ap (λ (t : A). s.plus t (s.times (f n) a)) (sum-times n f a)

  sum_swap :
      (n m : ℕ) (f : ℕ → ℕ → A)
      → sum_below s n (λ i. sum_below s m (f i)) ≡ sum_below s m (λ j. sum_below s n (λ i. f i j))
  unfolding sum_below
  sum_swap zero m f = sym (sum-default m)
  sum_swap (suc n) m f =
      ap (λ (t : A). s.plus t (sum_below s m (f n))) (sum_swap n m f)
      ∙ sym (sum-plus m (λ j. sum_below s n (λ i. f i j)) (f n))

  entry_assoc :
      (n : ℕ) (f g h : ℕ → ℕ → A) (i j : ℕ)
      → entry_of s n (entry_of s n f g) h i j ≡ entry_of s n f (entry_of s n g h) i j
  entry_assoc n f g h i j =
      sum_same s n _ _ (λ k less. sum-times n (λ l. s.times (f i l) (g l k)) (h k j))
      ∙ sum_swap n n (λ k l. s.times (s.times (f i l) (g l k)) (h k j))
      ∙ sum_same s n _ _ (λ l less.
        sum_same s n _ _ (λ k lower. laws.times_assoc (f i l) (g l k) (h k j))
        ∙ sym (times-sum n (f i l) (λ k. s.times (g l k) (h k j))))

-- The matrix has `n` rows, and the first of them has `n` entries.
abbrev pub IsSquare : {A : Type 0} → ℕ → List (List A) → Type 0
IsSquare n mat = (height mat ≡ n) × (width mat ≡ n)

module _ {A : Type 0} (s : Arithmetic A) where
  -- The product of two square matrices is square, and has the sums as entries.
  product-IsSquare :
      (n : ℕ) (mat obj : List (List A))
      → IsSquare n mat
      → IsSquare n obj
      → 0 < n
      → (result : List (List A)) × (product s mat obj ≡ some result)
        × IsSquare n result
        × ((i j : ℕ) → i < n → j < n → at s result i j ≡ entry_of s n (at s mat) (at s obj) i j)
  product-IsSquare n mat obj (high, wide) (obj_high, obj_wide) some_row =
      let f : ℕ → ℕ → A = entry_of s (width mat) (at s mat) (at s obj) in
      let row : ℕ → List A = λ i. table (width obj) 0 (f i) in
      (
        table (height mat) 0 row,
        product_lem s mat obj (wide ∙ sym obj_high),
        (
          length-table (height mat) 0 row ∙ high,
          ap length (get_or-loop (height mat) 0 row [] (rw high some_row))
              ∙ length-table (width obj) 0 (f 0)
              ∙ obj_wide,
        ),
        λ i j i_less j_less.
            ap (λ (t : List A). get_or t j s.outside)
              (get_or-loop (height mat) i row [] (rw high i_less))
            ∙ get_or-loop (width obj) j (f i) s.outside (rw obj_wide j_less)
            ∙ ap (λ (m : ℕ). entry_of s m (at s mat) (at s obj) i j) wide,
      )

-- Where the matrix and the random matrix are square and of the same size, which is not zero, sums and products follow
-- the laws of a ring, and the matrix that `invert` gives for the opened product of the two is a
-- square left inverse of that product, the result of `inverse` is a left inverse of the matrix: at each
-- row and column the product of the two is one on the diagonal and the default value elsewhere.
pub inverse_lem :
    {A : Type 0} (s : Arithmetic A) (one : A) (n : ℕ) (invert : List (List A) → List (List A))
    (random mat : List (List A)) (i j : ℕ)
    → IsRing s
    → 0 < n
    → IsSquare n random
    → IsSquare n mat
    → ((masked : List (List A))
        → product s random mat ≡ some masked
        → IsSquare n (invert masked)
          × ((i j : ℕ)
              → i < n
              → j < n
              → entry_of s n (at s (invert masked)) (at s masked) i j
                ≡ (if i == j then one else s.default)))
    → i < n
    → j < n
    → (result : List (List A)) × (inverse s invert random mat ≡ some result)
      × (entry_of s n (at s result) (at s mat) i j ≡ (if i == j then one else s.default))
unfolding inverse
inverse_lem s one n invert random mat i j laws some_row random_square mat_square inverts i_less
      j_less =
    let (masked, made, masked_square, masked_at) =
      product-IsSquare s n random mat random_square mat_square some_row in
    let (inverse_square, left_inverse) = inverts masked made in
    let (result, e, result_square, result_at) =
      product-IsSquare s n (invert masked) random inverse_square random_square some_row in
    (
      result,
      rw (inverse, made) e,
      sum_same s n _ _ (λ k less. ap (λ t. s.times t (at s mat k j)) (result_at i k i_less less))
          ∙ entry_assoc s laws n (at s (invert masked)) (at s random) (at s mat) i j
          ∙ sum_same s n _ _ (λ k less.
            ap (λ t. s.times (at s (invert masked) i k) t) (sym (masked_at k j less j_less)))
          ∙ left_inverse i j i_less j_less,
    )

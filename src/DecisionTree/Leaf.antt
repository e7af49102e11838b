-- ===== src/DecisionTree/Leaf.antt =====
-- On data that has one bit set in each attribute, the sum over all leaves is the leaf that those bits lead to.
use quick_mpc.Prelude.{
  ℕ, zero, suc, ◌+◌, ◌≤◌, ◌<◌, ◌≡◌, refl, ap, ◌∙◌, true, false, List, [], ◌==◌, if◌then◌else◌,
  arith, length, get_or,
}
use quick_mpc.DecisionTree.{Arithmetic, Tree, node, Trees, nil, cons, predict_tree, predict_loop}

-- The laws that the sum uses, for the two values of a bit.
pub record IsArithmetic {A : Type 0} (s : Arithmetic A) (one : A) : Type 0 where
  pub times_one : (a : A) → s.times one a ≡ a
  pub times_zero : (a : A) → s.times s.default a ≡ s.default
  pub plus_zero : (a : A) → s.plus a s.default ≡ a
  pub zero_plus : (a : A) → s.plus s.default a ≡ a

-- The walk from the root: at each node to the child with the number of the value of its attribute.
unfoldable mutual
  pub follow : {A : Type 0} → Tree A → (ℕ → ℕ) → A
  follow (node y att_class nil) hot = y
  follow (node y att_class (cons child children)) hot =
      follow_at (cons child children) (hot att_class) hot y

  -- The child at a position, and `y` where there is none.
  pub follow_at : {A : Type 0} → Trees A → ℕ → (ℕ → ℕ) → A → A
  follow_at nil i hot y = y
  follow_at (cons child children) zero hot y = follow child hot
  follow_at (cons child children) (suc i) hot y = follow_at children i hot y

unfoldable pub count : {A : Type 0} → Trees A → ℕ
count nil = 0
count (cons child children) = suc (count children)

-- At each node that has children, its attribute and their number satisfy the predicate.
unfoldable mutual
  pub Fits : {A : Type 0} → Tree A → (ℕ → ℕ → Type 0) → Type 0
  Fits (node y att_class nil) P = Unit {0}
  Fits (node y att_class (cons child children)) P =
      P att_class (count (cons child children)) × AllFit (cons child children) P

  pub AllFit : {A : Type 0} → Trees A → (ℕ → ℕ → Type 0) → Type 0
  AllFit nil P = Unit {0}
  AllFit (cons child children) P = Fits child P × AllFit children P

-- The data has the attribute, with a bit for each of `n` children, and its value is one of those.
abbrev pub IsReadable : {A : Type 0} → List (List A) → (ℕ → ℕ) → ℕ → ℕ → Type 0
IsReadable data_row hot r n =
    (r < length data_row) × (n ≤ length (get_or data_row r [])) × (hot r < n)

-- In each attribute exactly the bit of its value is set.
abbrev pub IsOneHot : {A : Type 0} → Arithmetic A → A → List (List A) → (ℕ → ℕ) → Type 0
IsOneHot s one data_row hot =
    (r j : ℕ)
    → r < length data_row
    → j < length (get_or data_row r [])
    → get_or (get_or data_row r []) j s.outside ≡ (if j == hot r then one else s.default)

module _ {A : Type 0} (s : Arithmetic A) (one : A) (laws : IsArithmetic s one)
    (data_row : List (List A)) (hot : ℕ → ℕ) where
  abbrev AreBits : List A → ℕ → Type 0
  AreBits bits h =
      (j : ℕ) → j < length bits → get_or bits j s.outside ≡ (if j == h then one else s.default)

  -- A child that is not chosen leaves the sum.
  skipped :
      (bits : List A) (h index : ℕ) (ret a : A)
      → AreBits bits h
      → index < length bits
      → (index == h) ≡ false
      → s.plus ret (s.times (get_or bits index s.outside) a) ≡ ret
  skipped bits h index ret a bit inside n =
      rw (bit index inside, n, laws.times_zero a, laws.plus_zero ret) refl

  chosen :
      (bits : List A) (h index : ℕ) (a : A)
      → AreBits bits h
      → index < length bits
      → (index == h) ≡ true
      → s.plus s.default (s.times (get_or bits index s.outside) a) ≡ a
  chosen bits h index a bit inside y =
      rw (bit index inside, y, laws.times_one a, laws.zero_plus a) refl

  -- Behind the chosen child.
  loop-after :
      (children : Trees A) (bits : List A) (h index : ℕ) (ret : A)
      → AreBits bits h
      → index + count children ≤ length bits
      → h < index
      → predict_loop s children bits index ret data_row ≡ ret
  unfolding predict_loop count
  loop-after nil bits h index ret bit long less = refl
  loop-after (cons child children) bits h index ret bit long less =
      loop-after children bits h (index + 1) _ bit (omega arith) (omega arith)
      ∙ skipped bits h index ret (predict_tree s child data_row) bit (omega arith) (ground arith)

  mutual
    unfolding predict_tree predict_loop follow follow_at count Fits AllFit

    predict-follow :
        (tree : Tree A)
        → IsOneHot s one data_row hot
        → Fits tree (IsReadable data_row hot)
        → predict_tree s tree data_row ≡ follow tree hot
    predict-follow (node y att_class nil) bit fits = refl
    predict-follow (node y att_class (cons child children)) bit ((known, wide, inside), all) =
        loop-follow (cons child children) (get_or data_row att_class []) (hot att_class) 0
          (hot att_class) y bit (λ j h. bit att_class j known h) (omega arith) (omega arith) inside
          all

    -- Up to the chosen child, which is `i` positions on.
    loop-follow :
        (children : Trees A) (bits : List A) (h index i : ℕ) (y : A)
        → IsOneHot s one data_row hot
        → AreBits bits h
        → index + count children ≤ length bits
        → h ≡ index + i
        → i < count children
        → AllFit children (IsReadable data_row hot)
        → predict_loop s children bits index s.default data_row ≡ follow_at children i hot y
    loop-follow nil bits h index i y one_hot bit long at inside fits = absurd (omega arith)
    loop-follow (cons child children) bits h index zero y one_hot bit long at inside fits =
        loop-after children bits h (index + 1) _ bit (omega arith) (omega arith)
        ∙ chosen bits h index (predict_tree s child data_row) bit (omega arith) (ground arith)
        ∙ predict-follow child one_hot fits.0
    loop-follow (cons child children) bits h index (suc i) y one_hot bit long at inside fits =
        ap (λ (ret : A). predict_loop s children bits (index + 1) ret data_row)
          (skipped bits h index s.default (predict_tree s child data_row) bit (omega arith)
            (ground arith))
        ∙ loop-follow children bits h (index + 1) i y one_hot bit (omega arith) (omega arith)
            (omega arith) fits.1

-- Where the sum and the product of the two values of a bit are those of zero and one, the data has exactly one
-- bit set in each attribute, and each node that has children has one for the value of its
-- attribute and no more than there are bits, the prediction is the value of the leaf to which the
-- bits lead from the root.
pub predict_tree_lem :
    {A : Type 0} (s : Arithmetic A) (one : A) (tree : Tree A) (data_row : List (List A))
    (hot : ℕ → ℕ)
    → IsArithmetic s one
    → IsOneHot s one data_row hot
    → Fits tree (IsReadable data_row hot)
    → predict_tree s tree data_row ≡ follow tree hot
predict_tree_lem s one tree data_row hot laws bit fits =
    predict-follow s one laws data_row hot tree bit fits

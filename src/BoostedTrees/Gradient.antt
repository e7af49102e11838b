-- ===== src/BoostedTrees/Gradient.antt =====
-- The gradient of a tree is what the tree predicts for the rows it was made from.
use quick_mpc.Prelude.{
  ℕ, zero, suc, ◌+◌, ◌≤◌, ◌<◌, ◌≡◌, refl, sym, ap, ◌∙◌, ◌⊎◌, inl, inr, List, [], ◌∷◌, map, arith,
  length, get_or, replicate,
}
use quick_mpc.BoostedTrees.{
  Numbers, Node, RegressionTree, regression_node, Children, no_child, child_then, times_each,
  add_first, grad, grad_loop, predict, predict_loop,
}

-- What the comparison uses of sums and products, which truncate: products with one and with zero
-- are exact, and so is the sum of zeros.
pub record IsExact {A D : Type 0} (s : Numbers A D) (one : A) : Type 0 where
  pub one_times : (a : A) → s.times one a ≡ a
  pub times_one : (a : A) → s.times a one ≡ a
  pub zero_times : (a : A) → s.times s.default a ≡ s.default
  pub times_zero : (a : A) → s.times a s.default ≡ s.default
  pub plus_zero : s.plus s.default s.default ≡ s.default

module _ {A D : Type 0} (s : Numbers A D) where
  -- The bits of row `i`: those of each value of each attribute.
  abbrev pub bits_at : ℕ → List (List A) → List A
  bits_at i categories = map (λ category. get_or category i s.outside) categories

  abbrev pub data_row_at : ℕ → List (List (List A)) → List (List A)
  data_row_at i S = map (bits_at i) S

  -- The tree is one that the code makes from the rows that `T` selects: a leaf has the prediction for each row
  -- selected, and a child is made from the rows that have its value of the attribute.
  unfoldable mutual
    pub IsMasked : RegressionTree A D → List A → List (List (List A)) → Type 0
    IsMasked (regression_node n no_child) T S = n.grads ≡ times_each s (replicate (length T) n.y) T
    IsMasked (regression_node n (child_then child children)) T S =
        (n.rows ≡ length T) × AreMasked (child_then child children) T (get_or S n.att_class []) S

    pub AreMasked : Children A D → List A → List (List A) → List (List (List A)) → Type 0
    AreMasked no_child T categories S = Unit {0}
    AreMasked (child_then child children) T [] S = ⊥
    AreMasked (child_then child children) T (category ∷ categories) S =
        (length category ≡ length T)
        × IsMasked child (times_each s T category) S
        × AreMasked children T categories S

-- The position is less than the size of each node that has children.
unfoldable mutual
  pub Covers : {A D : Type 0} → ℕ → RegressionTree A D → Type 0
  Covers i (regression_node n no_child) = Unit {0}
  Covers i (regression_node n (child_then child children)) =
      (i < n.size) × AllCover i (child_then child children)

  pub AllCover : {A D : Type 0} → ℕ → Children A D → Type 0
  AllCover i no_child = Unit {0}
  AllCover i (child_then child children) = Covers i child × AllCover i children

pub get_or-replicate {ℓ} : {A : Type ℓ} (n i : ℕ) (a d : A) → i < n → get_or (replicate n a) i d ≡ a
get_or-replicate zero i a d h = absurd (omega arith)
get_or-replicate (suc n) zero a d h = refl
get_or-replicate (suc n) (suc i) a d h = get_or-replicate n i a d (omega arith)

pub length-replicate {ℓ} : {A : Type ℓ} (n : ℕ) (a : A) → length (replicate n a) ≡ n
length-replicate zero a = refl
length-replicate (suc n) a = ap suc (length-replicate n a)

get_or-map {ℓ κ} :
    {A : Type ℓ} {B : Type κ} (f : A → B) (xs : List A) (i : ℕ) (d : A)
    → get_or (map f xs) i (f d) ≡ f (get_or xs i d)
get_or-map f [] i d = refl
get_or-map f (x ∷ xs) zero d = refl
get_or-map f (x ∷ xs) (suc i) d = get_or-map f xs i d

module _ {A D : Type 0} (s : Numbers A D) where
  pub length-times_each :
      (xs ys : List A) → length ys ≡ length xs → length (times_each s xs ys) ≡ length xs
  unfolding times_each
  length-times_each [] ys e = refl
  length-times_each (x ∷ xs) [] e = absurd (omega (arith, e))
  length-times_each (x ∷ xs) (y ∷ ys) e = ap suc (length-times_each xs ys (omega (arith, e)))

  pub get_or-times_each :
      (xs ys : List A) (i : ℕ)
      → i < length xs
      → length ys ≡ length xs
      → get_or (times_each s xs ys) i s.outside
        ≡ s.times (get_or xs i s.outside) (get_or ys i s.outside)
  unfolding times_each
  get_or-times_each [] ys i h e = absurd (omega arith)
  get_or-times_each (x ∷ xs) [] i h e = absurd (omega (arith, e))
  get_or-times_each (x ∷ xs) (y ∷ ys) zero h e = refl
  get_or-times_each (x ∷ xs) (y ∷ ys) (suc i) h e =
      get_or-times_each xs ys i (omega arith) (omega (arith, e))

  pub length-add_first : (n : ℕ) (ret g : List A) → length (add_first s n ret g) ≡ length ret
  unfolding add_first
  length-add_first zero ret g = refl
  length-add_first (suc n) [] g = refl
  length-add_first (suc n) (a ∷ ret) [] = ap suc (length-add_first n ret [])
  length-add_first (suc n) (a ∷ ret) (b ∷ g) = ap suc (length-add_first n ret g)

  get_or-add_first :
      (n i : ℕ) (ret g : List A)
      → i < n
      → i < length ret
      → get_or (add_first s n ret g) i s.outside
        ≡ s.plus (get_or ret i s.outside) (get_or g i s.outside)
  unfolding add_first
  get_or-add_first zero i ret g h k = absurd (omega arith)
  get_or-add_first (suc n) i [] g h k = absurd (omega arith)
  get_or-add_first (suc n) zero (a ∷ ret) [] h k = refl
  get_or-add_first (suc n) (suc i) (a ∷ ret) [] h k =
      get_or-add_first n i ret [] (omega arith) (omega arith)
  get_or-add_first (suc n) zero (a ∷ ret) (b ∷ g) h k = refl
  get_or-add_first (suc n) (suc i) (a ∷ ret) (b ∷ g) h k =
      get_or-add_first n i ret g (omega arith) (omega arith)

  -- Behind the first `n` entries nothing is added.
  kept-add_first :
      (n i : ℕ) (ret g : List A)
      → n ≤ i
      → get_or (add_first s n ret g) i s.outside ≡ get_or ret i s.outside
  unfolding add_first
  kept-add_first zero i ret g h = refl
  kept-add_first (suc n) i [] g h = refl
  kept-add_first (suc n) zero (a ∷ ret) g h = absurd (omega arith)
  kept-add_first (suc n) (suc i) (a ∷ ret) [] h = kept-add_first n i ret [] (omega arith)
  kept-add_first (suc n) (suc i) (a ∷ ret) (b ∷ g) h = kept-add_first n i ret g (omega arith)

-- A value is one or zero; the entry of each category at the position is.
unfoldable pub IsBit : {A D : Type 0} → Numbers A D → A → A → Type 0
IsBit s one a = (a ≡ one) ⊎ (a ≡ s.default)

unfoldable pub AreBitsAt : {A D : Type 0} → Numbers A D → A → ℕ → List (List A) → Type 0
AreBitsAt s one i [] = Unit {0}
AreBitsAt s one i (category ∷ categories) =
    IsBit s one (get_or category i s.outside) × AreBitsAt s one i categories

module _ {A D : Type 0} (s : Numbers A D) (one : A) (laws : IsExact s one) (i : ℕ)
    (S : List (List (List A))) (bits : (r : ℕ) → AreBitsAt s one i (get_or S r [])) where
  times-bit : (a t : A) → IsBit s one t → s.times a t ≡ s.times t a
  unfolding IsBit
  times-bit a t (inl e) = rw e (laws.times_one a ∙ sym (laws.one_times a))
  times-bit a t (inr e) = rw e (laws.times_zero a ∙ sym (laws.zero_times a))

  times-IsBit : (t c : A) → IsBit s one t → IsBit s one c → IsBit s one (s.times t c)
  unfolding IsBit
  times-IsBit t c (inl e) b = rw (e, laws.one_times c) b
  times-IsBit t c (inr e) b = rw (e, laws.zero_times c) (inr refl)

  -- One child more on both sides.
  added :
      (t c ret p g r : A)
      → IsBit s one t
      → r ≡ s.times t ret
      → g ≡ s.times (s.times t c) p
      → s.plus r g ≡ s.times t (s.plus ret (s.times c p))
  unfolding IsBit
  added t c ret p g r (inl b) e k =
      rw (e, k, b, laws.one_times c, laws.one_times ret, laws.one_times (s.plus ret (s.times c p)))
        refl
  added t c ret p g r (inr b) e k =
      rw
        (
          e,
          k,
          b,
          laws.zero_times c,
          laws.zero_times ret,
          laws.zero_times p,
          laws.zero_times (s.plus ret (s.times c p)),
        )
        laws.plus_zero

  mutual
    unfolding grad grad_loop predict predict_loop IsMasked AreMasked Covers AllCover AreBitsAt

    pub grad-masked :
        (tree : RegressionTree A D) (T : List A)
        → i < length T
        → IsBit s one (get_or T i s.outside)
        → IsMasked s tree T S
        → Covers i tree
        → get_or (grad s tree) i s.outside
          ≡ s.times (get_or T i s.outside) (predict s tree (data_row_at s i S))
    grad-masked (regression_node n no_child) T inside bit made covers =
        let wide = length-replicate (length T) n.y in
        rw made (
          get_or-times_each s (replicate (length T) n.y) T i (omega (arith, wide))
            (omega (arith, wide))
          ∙ rw (get_or-replicate (length T) i n.y s.outside inside)
              (times-bit n.y (get_or T i s.outside) bit))
    grad-masked (regression_node n (child_then child children)) T inside bit (rows, made)
          (small, covers) =
        let wide = length-replicate n.rows s.default in
        loop-masked (child_then child children) T (get_or S n.att_class [])
          (get_or (data_row_at s i S) n.att_class []) 0 n.size (replicate n.rows s.default)
          s.default inside bit (bits n.att_class) small (omega (arith, wide, rows))
          (get_or-replicate n.rows i s.default s.outside (omega (arith, rows))
            ∙ sym (laws.times_zero (get_or T i s.outside)))
          (λ j.
            ap (λ (k : ℕ). get_or (get_or (data_row_at s i S) n.att_class []) k s.outside)
              (omega arith)
            ∙ ap (λ (bits : List A). get_or bits j s.outside)
                (get_or-map (bits_at s i) S n.att_class []))
          made covers

    loop-masked :
        (children : Children A D) (T : List A) (categories : List (List A))
        (attribute_value : List A) (index size : ℕ) (ret : List A) (so_far : A)
        → i < length T
        → IsBit s one (get_or T i s.outside)
        → AreBitsAt s one i categories
        → i < size
        → length ret ≡ length T
        → get_or ret i s.outside ≡ s.times (get_or T i s.outside) so_far
        → ((j : ℕ)
            → get_or attribute_value (index + j) s.outside
              ≡ get_or (bits_at s i categories) j s.outside)
        → AreMasked s children T categories S
        → AllCover i children
        → get_or (grad_loop s size ret children) i s.outside
          ≡ s.times
              (get_or T i s.outside)
              (predict_loop s children attribute_value index so_far (data_row_at s i S))
    loop-masked no_child T categories bits index size ret so_far inside bit all small long e at made
          covers =
        e
    loop-masked (child_then child children) T [] bits index size ret so_far inside bit all small
          long e at made covers =
        absurd made
    loop-masked (child_then child children) T (category ∷ categories) attribute_value index size ret
          so_far inside bit (here_bit, all) small long e at (wide, made, rest) (cover, covers) =
        let here = at 0 in
        let same_bit : get_or attribute_value index s.outside ≡ get_or category i s.outside =
          ap (λ (k : ℕ). get_or attribute_value k s.outside) (omega arith) ∙ here in
        let T_ = times_each s T category in
        let below =
          grad-masked child T_ (omega (arith, length-times_each s T category wide))
            (rw (get_or-times_each s T category i inside wide)
              (times-IsBit (get_or T i s.outside) (get_or category i s.outside) bit here_bit))
            made cover
          ∙ ap (λ (t : A). s.times t (predict s child (data_row_at s i S)))
              (get_or-times_each s T category i inside wide) in
        loop-masked children T categories attribute_value (index + 1) size
          (add_first s size ret (grad s child)) _ inside bit all small
          (length-add_first s size ret (grad s child) ∙ long)
          (get_or-add_first s size i ret (grad s child) small (omega (arith, long))
            ∙ added (get_or T i s.outside) (get_or attribute_value index s.outside) so_far
                (predict s child (data_row_at s i S)) (get_or (grad s child) i s.outside)
                (get_or ret i s.outside) bit e (rw same_bit below))
          (λ j. ap (λ (k : ℕ). get_or attribute_value k s.outside) (omega arith) ∙ at (suc j)) rest
          covers

loop-kept :
    {A D : Type 0} (s : Numbers A D) (children : Children A D) (size i : ℕ) (ret : List A)
    → size ≤ i
    → get_or (grad_loop s size ret children) i s.outside ≡ get_or ret i s.outside
unfolding grad_loop
loop-kept s no_child size i ret h = refl
loop-kept s (child_then child children) size i ret h =
    loop-kept s children size i (add_first s size ret (grad s child)) h
    ∙ kept-add_first s size i ret (grad s child) h

-- Where a node has children, its gradient has the default value for each row from the position
-- `size` on, whatever the children's gradients are.
pub grad-default :
    {A D : Type 0} (s : Numbers A D) (n : Node A D) (child : RegressionTree A D)
    (children : Children A D) (i : ℕ)
    → n.size ≤ i
    → i < n.rows
    → get_or (grad s (regression_node n (child_then child children))) i s.outside ≡ s.default
unfolding grad
grad-default s n child children i h inside =
    loop-kept s (child_then child children) n.size i (replicate n.rows s.default) h
    ∙ get_or-replicate n.rows i s.default s.outside inside

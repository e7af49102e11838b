-- ===== src/Sid3/Choice.antt =====
-- The class and the attribute that a node of a decision tree chooses.
use mathlib.Core.Path.{subst}
use quick_mpc.Prelude.{
  ℕ, zero, suc, ◌+◌, ◌≤◌, ◌<◌, ◌≡◌, refl, ap, ◌∙◌, ◌⊎◌, inl, inr, true, some, List, [], ◌∷◌, ◌++◌,
  if◌then◌else◌, arith, length, get_or, Bool-cases,
}
use quick_mpc.BoostedTrees.{Numbers, sum, less_pair}
use quick_mpc.DecisionTree.{Tree}
use quick_mpc.DecisionTree.Leaf.{Fits}
use quick_mpc.DecisionTree.Growth.{In, ChoosesLeft, create_tree_lem}
use quick_mpc.Sid3.{
  Opening, base_counts, less_count, max_count, majority_class, max_element, get_max_gini,
  is_small_node, create_sid3_tree,
}
use quick_mpc.Sid3.Wide.{
  wide_values, wide_calc, wide_training, wide_split, create_sid3_tree-create_tree,
}
use quick_mpc.BoostedTrees.Growth.{AreWide}

-- Each entry of the list satisfies the predicate.
unfoldable pub AllPairs : (ℕ × ℕ → Type 0) → List (ℕ × ℕ) → Type 0
AllPairs P [] = Unit {0}
AllPairs P (x ∷ rest) = P x × AllPairs P rest

-- A pair is not above another one in the order of `max_element`.
abbrev pub AtMost : ℕ × ℕ → ℕ × ℕ → Type 0
AtMost x m = (x.0 < m.0) ⊎ ((x.0 ≡ m.0) × (x.1 ≤ m.1))

AtMost-trans : (x y z : ℕ × ℕ) → AtMost x y → AtMost y z → AtMost x z
AtMost-trans x y z h k = ground (arith, h, k)

module _ {A D : Type 0} (s : Numbers A D) (o : Opening A D) where
  pick : ℕ × ℕ → ℕ × ℕ → ℕ × ℕ
  pick best x = if less_count s o best x then x else best

  pick-AtMost : (best x : ℕ × ℕ) → AtMost best (pick best x) × AtMost x (pick best x)
  unfolding pick less_count
  pick-AtMost (a, i) (b, j) = ground arith

  AllPairs-trans :
      (x y : ℕ × ℕ) (rest : List (ℕ × ℕ))
      → AtMost x y
      → AllPairs (λ z. AtMost z x) rest
      → AllPairs (λ z. AtMost z y) rest
  unfolding AllPairs
  AllPairs-trans x y [] h all = tt
  AllPairs-trans x y (z ∷ rest) h (k, all) = (AtMost-trans z x y k h, AllPairs-trans x y rest h all)

  max_count-greatest :
      (best : ℕ × ℕ) (rest : List (ℕ × ℕ))
      → AtMost best (max_count s o best rest)
        × AllPairs (λ z. AtMost z (max_count s o best rest)) rest
  unfolding max_count AllPairs pick
  max_count-greatest best [] = (ground arith, tt)
  max_count-greatest best (x ∷ rest) =
      let b = pick best x in
      let (h, all) = max_count-greatest b rest in
      let (k, l) = pick-AtMost best x in
      let m = max_count s o b rest in (AtMost-trans best b m k h, (AtMost-trans x b m l h, all))

  max_count-satisfies :
      (P : ℕ × ℕ → Type 0) (best : ℕ × ℕ) (rest : List (ℕ × ℕ))
      → P best
      → AllPairs P rest
      → P (max_count s o best rest)
  unfolding max_count AllPairs
  max_count-satisfies P best [] h all = h
  max_count-satisfies P best (x ∷ rest) h (k, all) = elim (Bool-cases (less_count s o best x)) [
    | inl less ↦ rw (max_count, less) (max_count-satisfies P x rest k all)
    | inr same ↦ rw (max_count, same) (max_count-satisfies P best rest h all)
  ]

  -- The number of rows of a class.
  abbrev pub count_at : List (List A) → ℕ → ℕ
  count_at U i = o.to_count (sum s (get_or U i []))

  AllPairs-base_counts :
      (P : ℕ × ℕ → Type 0) (k : ℕ) (U : List (List A))
      → ((j : ℕ) → j < length U → P (count_at U j, k + j))
      → AllPairs P (base_counts s o k U)
  unfolding base_counts AllPairs
  AllPairs-base_counts P k [] h = tt
  AllPairs-base_counts P k (u ∷ U) h = (
    subst (λ (m : ℕ). P (o.to_count (sum s u), m)) (omega arith) (h 0 (omega arith)),
    AllPairs-base_counts P (k + 1) U
        (λ j less. subst (λ (m : ℕ). P (count_at U j, m)) (omega arith) (h (suc j) (omega arith))),
  )

  base_counts-at :
      (P : ℕ × ℕ → Type 0) (k : ℕ) (U : List (List A)) (i : ℕ)
      → AllPairs P (base_counts s o k U)
      → i < length U
      → P (count_at U i, k + i)
  unfolding base_counts AllPairs
  base_counts-at P k [] i all h = absurd (omega arith)
  base_counts-at P k (u ∷ U) zero (p, all) h =
      subst (λ (m : ℕ). P (o.to_count (sum s u), m)) (omega arith) p
  base_counts-at P k (u ∷ U) (suc i) (p, all) h =
      subst (λ (m : ℕ). P (count_at U i, m)) (omega arith)
        (base_counts-at P (k + 1) U i all (omega arith))

-- With at least one class, the result is the number of a class; no class has more rows, and of the
-- classes with as many rows none has a greater number.
pub majority_class_lem :
    {A D : Type 0} (s : Numbers A D) (o : Opening A D) (U : List (List A)) (i : ℕ)
    → i < length U
    → (index : ℕ) × (majority_class s o U ≡ s.of_number index)
      × (index < length U)
      × AtMost (count_at s o U i, i) (count_at s o U index, index)
unfolding majority_class base_counts AllPairs
majority_class_lem s o [] i h = absurd (omega arith)
majority_class_lem {A} s o (u ∷ U) i h =
    let classes : List (List A) = u ∷ U in
    let m = max_count s o (count_at s o classes 0, 0) (base_counts s o 1 U) in
    let IsClass : ℕ × ℕ → Type 0 = λ x. (x.1 < length classes) × (x.0 ≡ count_at s o classes x.1) in
    let all =
      AllPairs-base_counts s o IsClass 0 classes
        (λ j less. (omega (arith, less), ap (count_at s o classes) (omega arith))) in
    let (here, others) = all in
    let (inside, counted) =
      max_count-satisfies s o IsClass (count_at s o classes 0, 0) (base_counts s o 1 U) here
        others in
    let greatest = max_count-greatest s o (count_at s o classes 0, 0) (base_counts s o 1 U) in
    let below : AtMost (count_at s o classes i, i) m =
      subst (λ (k : ℕ). AtMost (count_at s o classes i, k) m) (omega arith)
        (base_counts-at s o (λ z. AtMost z m) 0 classes i greatest h) in
    (m.1, refl, inside, ground (arith, below, counted))

module _ {A D : Type 0} (s : Numbers A D) (o : Opening A D) where
  AllIn : List ℕ → List (D × ℕ) → Type 0
  AllIn R [] = Unit {0}
  AllIn R (x ∷ rest) = In x.1 R × AllIn R rest

  AllIn-append : (R : List ℕ) (xs ys : List (D × ℕ)) → AllIn R xs → AllIn R ys → AllIn R (xs ++ ys)
  unfolding AllIn
  AllIn-append R [] ys h k = k
  AllIn-append R (x ∷ xs) ys (p, h) k = (p, AllIn-append R xs ys h k)

  wide_values-AllIn :
      (U : List (List A)) (r : ℕ) (R : List ℕ) (categories : List (List A))
      → In r R
      → AllIn R (wide_values s o U r categories)
  unfolding wide_values AllIn
  wide_values-AllIn U r R [] there = tt
  wide_values-AllIn U r R (category ∷ categories) there =
      (there, wide_values-AllIn U r R categories there)

  wide_calc-AllIn :
      (U : List (List A)) (S : List (List (List A))) (R all : List ℕ)
      → ((r : ℕ) → In r R → In r all)
      → AllIn all (wide_calc s o U S R)
  unfolding wide_calc AllIn
  wide_calc-AllIn U S [] all inside = tt
  wide_calc-AllIn U S (r ∷ R) all inside =
      AllIn-append all (wide_values s o U r (get_or S r [])) (wide_calc s o U S R)
        (wide_values-AllIn U r all (get_or S r []) (inside r (inl refl)))
        (wide_calc-AllIn U S R all (λ x there. inside x (inr there)))

  max_element-In :
      (R : List ℕ) (best : D × ℕ) (rest : List (D × ℕ))
      → In best.1 R
      → AllIn R rest
      → In (max_element s o best rest).1 R
  unfolding max_element AllIn
  max_element-In R best [] h all = h
  max_element-In R best (x ∷ rest) h (k, all) = elim (Bool-cases (less_pair s best x)) [
    | inl less ↦ rw (max_element, less) (max_element-In R x rest k all)
    | inr same ↦ rw (max_element, same) (max_element-In R best rest h all)
  ]

  -- The attribute is one of those left, or the coefficient is that of no attribute.
  get_max_gini-In :
      (R : List ℕ) (ginis : List (D × ℕ))
      → AllIn R ginis
      → ((get_max_gini s o ginis).0 ≡ s.minus_one) ⊎ In (get_max_gini s o ginis).1 R
  unfolding get_max_gini AllIn
  get_max_gini-In R [] all = inl refl
  get_max_gini-In R (x ∷ rest) (h, all) = inr (max_element-In R x rest h all)

  -- A node that goes on has chosen one of the attributes left.
  wide_training-ChoosesLeft :
      (S : List (List (List A))) (targets : List (List A))
      → o.is_tiny s.minus_one ≡ true
      → ChoosesLeft (wide_training s o S targets)
  unfolding wide_training is_small_node
  wide_training-ChoosesLeft S targets tiny rows R goes more =
      elim (get_max_gini-In R (wide_calc s o (wide_split s o targets rows) S R)
        (wide_calc-AllIn _ S R R (λ r there. there))) [
          | inl e ↦ absurd (ground (arith, goes, e, tiny))
          | inr there ↦ there
        ]

-- Where each class and each category has an entry for each row, and the coefficient -1 is at most
-- `eps`, fuel for one call more than there are attributes gives a tree, without an exception of a
-- product, and each node with children has one for each value of its attribute.
pub create_sid3_tree_lem :
    {A D : Type 0} (s : Numbers A D) (o : Opening A D) (fuel : ℕ) (T : List A)
    (S : List (List (List A))) (targets : List (List A)) (R : List ℕ)
    → AreWide (length T) targets
    → ((r : ℕ) → AreWide (length T) (get_or S r []))
    → o.is_tiny s.minus_one ≡ true
    → length R < fuel
    → (tree : Tree A) × (create_sid3_tree s o S targets fuel T R ≡ some tree)
      × Fits tree (λ r n. n ≡ length (get_or S r []))
unfolding wide_training
create_sid3_tree_lem s o fuel T S targets R classes wide tiny enough =
    let (tree, made, fits) =
      create_tree_lem (wide_training s o S targets) fuel T R (λ r n. n ≡ length (get_or S r []))
        enough (wide_training-ChoosesLeft s o S targets tiny) (λ r there. refl) in
    (
      tree,
      create_sid3_tree-create_tree s o (length T) S targets fuel T R refl classes wide ∙ made,
      fits,
    )

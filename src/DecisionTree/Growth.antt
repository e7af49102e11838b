-- ===== src/DecisionTree/Growth.antt =====
-- The construction of a tree ends, and its nodes have a child for each value of their attribute.
use mathlib.Core.Path.{subst}
use quick_mpc.Prelude.{
  ℕ, zero, suc, ◌+◌, ◌≤◌, ◌<◌, ◌≡◌, refl, ap, true, false, ◌||◌, ◌⊎◌, inl, inr, Option, some, List,
  [], ◌∷◌, ◌==◌, arith, length, Bool-cases,
}
use quick_mpc.DecisionTree.{
  Tree, node, Trees, nil, cons, Training, erase_attribute, is_empty, create_children, create_tree,
}
use quick_mpc.DecisionTree.Leaf.{count, Fits, AllFit}

abbrev pub In : ℕ → List ℕ → Type 0
In a [] = ⊥
In a (r ∷ attributes) = (a ≡ r) ⊎ In a attributes

length-erase_attribute :
    (a : ℕ) (attributes : List ℕ) → length (erase_attribute a attributes) ≤ length attributes
unfolding erase_attribute
length-erase_attribute a [] = omega arith
length-erase_attribute a (r ∷ attributes) = ground (arith, length-erase_attribute a attributes)

pub erase_attribute-shorter :
    (a : ℕ) (attributes : List ℕ)
    → In a attributes
    → length (erase_attribute a attributes) < length attributes
unfolding erase_attribute
erase_attribute-shorter a [] there = absurd there
erase_attribute-shorter a (r ∷ attributes) (inl e) =
    ground (arith, e, length-erase_attribute a attributes)
erase_attribute-shorter a (r ∷ attributes) (inr there) =
    ground (arith, erase_attribute-shorter a attributes there)

erase_attribute-gone :
    (a x : ℕ) (attributes : List ℕ)
    → (x == a) ≡ true
    → erase_attribute a (x ∷ attributes) ≡ erase_attribute a attributes
unfolding erase_attribute
erase_attribute-gone a x attributes gone = rw (erase_attribute, gone) refl

erase_attribute-kept :
    (a x : ℕ) (attributes : List ℕ)
    → (x == a) ≡ false
    → erase_attribute a (x ∷ attributes) ≡ x ∷ erase_attribute a attributes
unfolding erase_attribute
erase_attribute-kept a x attributes kept = rw (erase_attribute, kept) refl

In-erase_attribute :
    (a r : ℕ) (attributes : List ℕ) → In r (erase_attribute a attributes) → In r attributes
unfolding erase_attribute
In-erase_attribute a r [] h = h
In-erase_attribute a r (x ∷ attributes) h = elim (Bool-cases (x == a)) [
  | inl gone ↦ inr (
      In-erase_attribute a r attributes (subst (In r) (erase_attribute-gone a x attributes gone) h))
  | inr kept ↦ elim (subst (In r) (erase_attribute-kept a x attributes kept) h) [
    | inl e ↦ inl e
    | inr there ↦ inr (In-erase_attribute a r attributes there)
  ]
]

module _ {T A G : Type 0} (s : Training T A G) where
  -- An attribute that is chosen to go on is one of those left.
  abbrev pub ChoosesLeft : Type 0
  ChoosesLeft =
      (rows : T) (attributes : List ℕ)
      → s.is_small rows (s.max_gini rows attributes).0 ≡ false
      → is_empty attributes ≡ false
      → In (s.max_gini rows attributes).1 attributes

  -- A tree comes out, and every choice of values leads through it to a leaf.
  abbrev pub Grows : Option (Tree A) → (ℕ → ℕ → Type 0) → Type 0
  Grows result P = (tree : Tree A) × (result ≡ some tree) × Fits tree P

  children-grow :
      (create : T → Option (Tree A)) (P : ℕ → ℕ → Type 0) (rounds j att_class : ℕ) (rows : T)
      → ((selected : T) → Grows (create selected) P)
      → (children : Trees A) × (create_children s create rounds j att_class rows ≡ some children)
        × (count children ≡ rounds)
        × AllFit children P
  unfolding create_children count AllFit
  children-grow create P zero j att_class rows grow = (nil, refl, refl, tt)
  children-grow create P (suc rounds) j att_class rows grow =
      let (child, made, fits) = grow (s.select rows att_class j) in
      let (children, e, n, all) = children-grow create P rounds (j + 1) att_class rows grow in
      (cons child children, rw (create_children, made, e) refl, ap suc n, (fits, all))

  grown-Fits :
      (y : A) (att_class : ℕ) (children : Trees A) (P : ℕ → ℕ → Type 0)
      → count children ≡ s.value_count att_class
      → P att_class (s.value_count att_class)
      → AllFit children P
      → Fits (node y att_class children) P
  unfolding Fits count
  grown-Fits y att_class nil P n readable all = tt
  grown-Fits y att_class (cons child children) P n readable all = (rw n readable, all)

  -- Where each attribute that is chosen to go on is one of those left, fuel for one call more than there are
  -- attributes gives a tree; and whatever holds of each attribute and the number of its values
  -- holds, at each node that has children, of its attribute and their number.
  pub create_tree_lem :
      (fuel : ℕ) (rows : T) (attributes : List ℕ) (P : ℕ → ℕ → Type 0)
      → length attributes < fuel
      → ChoosesLeft
      → ((r : ℕ) → In r attributes → P r (s.value_count r))
      → (tree : Tree A) × (create_tree s fuel rows attributes ≡ some tree) × Fits tree P
  unfolding create_tree Fits
  create_tree_lem zero rows attributes P enough left inside = absurd (omega arith)
  create_tree_lem (suc fuel) rows attributes P enough left inside =
      let gini = (s.max_gini rows attributes).0 in
      let att = (s.max_gini rows attributes).1 in
      elim (Bool-cases (is_empty attributes || s.is_small rows gini)) [
        | inl stops ↦ (node (s.majority_class rows) att nil, rw (create_tree, stops) refl, tt)
        | inr goes ↦
            let there = left rows attributes (ground (arith, goes)) (ground (arith, goes)) in
            let shorter = erase_attribute-shorter att attributes there in
            let (children, e, n, all) =
              children-grow
                (λ selected. create_tree s fuel selected (erase_attribute att attributes)) P
                (s.value_count att) 0 att rows
                (λ selected.
                  create_tree_lem fuel selected (erase_attribute att attributes) P
                    (omega (arith, shorter)) left
                    (λ r h. inside r (In-erase_attribute att r attributes h))) in
            (
              node (s.majority_class rows) att children,
              rw (create_tree, goes, e) refl,
              grown-Fits (s.majority_class rows) att children P n (inside att there) all,
            )
      ]

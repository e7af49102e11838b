-- ===== src/KeyIndex/Merge.antt =====
-- On ascending keys the single pass over both lists finds the positions that they share.
use quick_mpc.Prelude.{
  ℕ, zero, suc, ◌+◌, ◌≤◌, ◌≡◌, refl, sym, ◌∙◌, Bool, true, inl, inr, none, List, [], ◌∷◌, map,
  arith, Bool-cases, length, length-map,
}
use quick_mpc.KeyIndex.{same, merge, intersection_sorted_value_index}
use quick_mpc.KeyIndex.Order.{IsWeakOrder, same-less, less→not_same, not_same-sym, not_same→less}
use quick_mpc.KeyIndex.Shared.{first_index, pairs}

module _ {A : Type 0} (less : A → A → Bool) where
  abbrev pub AllAfter : A → List A → Type 0
  AllAfter a [] = Unit {0}
  AllAfter a (x ∷ xs) = (less a x ≡ true) × AllAfter a xs

  abbrev pub IsAscending : List A → Type 0
  IsAscending [] = Unit {0}
  IsAscending (x ∷ xs) = AllAfter x xs × IsAscending xs

module _ {A : Type 0} {less : A → A → Bool} (o : IsWeakOrder less) where
  AllAfter-trans :
      (a b : A) (xs : List A) → less a b ≡ true → AllAfter less b xs → AllAfter less a xs
  AllAfter-trans a b [] h all = tt
  AllAfter-trans a b (x ∷ xs) h all = (o.trans a b x h all.0, AllAfter-trans a b xs h all.1)

  AllAfter-same :
      (a b : A) (xs : List A) → same less a b ≡ true → AllAfter less a xs → AllAfter less b xs
  AllAfter-same a b [] h all = tt
  AllAfter-same a b (x ∷ xs) h all = (same-less o a b x h all.0, AllAfter-same a b xs h all.1)

  -- A key before all of a list is not in it.
  first_index-before :
      (a : A) (ys : List A) (j : ℕ) → AllAfter less a ys → first_index less a ys j ≡ none
  unfolding first_index
  first_index-before a [] j h = refl
  first_index-before a (y ∷ ys) j h =
      rw (less→not_same o a y h.0, first_index-before a ys (j + 1) h.1) refl

  -- A key before all of the first list is not found.
  pairs-skip :
      (xs : List A) (i : ℕ) (y : A) (ys : List A) (j : ℕ)
      → AllAfter less y xs
      → pairs less xs i (y ∷ ys) j ≡ pairs less xs i ys (j + 1)
  unfolding pairs first_index
  pairs-skip [] i y ys j h = refl
  pairs-skip (x ∷ xs) i y ys j h =
      ground (arith, not_same-sym o y x (less→not_same o y x h.0), pairs-skip xs (i + 1) y ys j h.1)

  pairs-none : (xs : List A) (i j : ℕ) → pairs less xs i [] j ≡ []
  unfolding pairs first_index
  pairs-none [] i j = refl
  pairs-none (x ∷ xs) i j = pairs-none xs (i + 1) j

  beyond : (x y : A) (xs : List A) → less y x ≡ true → AllAfter less x xs → AllAfter less y (x ∷ xs)
  beyond x y xs h all = (h, AllAfter-trans y x xs h all)

  merge-pairs :
      (fuel : ℕ) (xs ys : List A) (i j : ℕ)
      → length xs + length ys ≤ fuel
      → IsAscending less xs
      → IsAscending less ys
      → merge (same less) less fuel xs ys i j ≡ pairs less xs i ys j
  unfolding merge pairs first_index
  merge-pairs zero [] ys i j h a b = refl
  merge-pairs zero (x ∷ xs) ys i j h a b = absurd (omega arith)
  merge-pairs (suc fuel) [] ys i j h a b = refl
  merge-pairs (suc fuel) (x ∷ xs) [] i j h a b = sym (pairs-none (x ∷ xs) i j)
  merge-pairs (suc fuel) (x ∷ xs) (y ∷ ys) i j h a b = elim (Bool-cases (same less x y)) [
    | inl t ↦ ground (
      arith,
      t,
      merge-pairs fuel xs ys (i + 1) (j + 1) (omega arith) a.1 b.1,
      pairs-skip xs (i + 1) y ys j (AllAfter-same x y xs t a.0),
    )
    | inr f ↦ elim (Bool-cases (less x y)) [
      | inl before ↦ ground (
        arith,
        f,
        before,
        first_index-before x (y ∷ ys) j (before, AllAfter-trans x y ys before b.0),
        merge-pairs fuel xs (y ∷ ys) (i + 1) j (omega arith) a.1 b,
      )
      | inr after ↦
          rw (merge, f, after, merge-pairs fuel (x ∷ xs) ys i (j + 1) (omega arith) a b.1)
            (sym (pairs-skip (x ∷ xs) i y ys j (beyond x y xs (not_same→less o x y f after) a.0)))
    ]
  ]

-- Shares with the values that they stand for, and comparisons that follow the values.
pub record IsComparison {Share A : Type 0} (less : A → A → Bool) (value : Share → A)
    (equal_share less_share : Share → Share → Bool) : Type 0 where
  pub equal_value : (a b : Share) → equal_share a b ≡ same less (value a) (value b)
  pub less_value : (a b : Share) → less_share a b ≡ less (value a) (value b)

module _ {Share A : Type 0} {less : A → A → Bool} (o : IsWeakOrder less) (value : Share → A)
    (equal_share less_share : Share → Share → Bool)
    (c : IsComparison less value equal_share less_share) where
  merge-map :
      (fuel : ℕ) (xs ys : List Share) (i j : ℕ)
      → merge equal_share less_share fuel xs ys i j
        ≡ merge (same less) less fuel (map value xs) (map value ys) i j
  unfolding merge
  merge-map zero xs ys i j = refl
  merge-map (suc fuel) [] ys i j = refl
  merge-map (suc fuel) (x ∷ xs) [] i j = refl
  merge-map (suc fuel) (x ∷ xs) (y ∷ ys) i j = ground (
    arith,
    c.equal_value x y,
    c.less_value x y,
    merge-map fuel xs ys (i + 1) (j + 1),
    merge-map fuel xs (y ∷ ys) (i + 1) j,
    merge-map fuel (x ∷ xs) ys i (j + 1),
  )

  pub intersection_sorted-pairs :
      (v1 v2 : List Share)
      → IsAscending less (map value v1)
      → IsAscending less (map value v2)
      → intersection_sorted_value_index equal_share less_share v1 v2
        ≡ pairs less (map value v1) 0 (map value v2) 0
  unfolding intersection_sorted_value_index
  intersection_sorted-pairs v1 v2 a b =
      merge-map (length v1 + length v2) v1 v2 0 0
      ∙ merge-pairs o (length v1 + length v2) (map value v1) (map value v2) 0 0
          (omega (arith, length-map v1 value, length-map v2 value)) a b

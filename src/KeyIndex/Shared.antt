-- ===== src/KeyIndex/Shared.antt =====
-- The positions that two lists of keys share.
use quick_mpc.Prelude.{
  ℕ, ◌+◌, ◌≡◌, refl, Bool, true, inl, inr, Option, none, some, List, [], ◌∷◌, ◌++◌, map,
  if◌then◌else◌, arith, Bool-cases, Option-cases,
}
use quick_mpc.KeyIndex.{same, find, emplace, emplace_all, found, intersection_value_index}
use quick_mpc.KeyIndex.Order.{IsWeakOrder, same-congruent}

module _ {A : Type 0} (less : A → A → Bool) where
  -- The first position, counted from `j`, of a key that is the same as `a`.
  unfoldable pub first_index : A → List A → ℕ → Option ℕ
  first_index a [] j = none
  first_index a (y ∷ ys) j =
      let rest = first_index a ys (j + 1) in if same less a y then some j else rest

  -- Each position of the first list that has a first partner in the second, in order.
  unfoldable pub pairs : List A → ℕ → List A → ℕ → List (ℕ × ℕ)
  pairs [] i ys j = []
  pairs (x ∷ xs) i ys j =
      let rest = pairs xs (i + 1) ys j in
      elim (first_index x ys j) [ none ↦ rest | some k ↦ (i, k) ∷ rest ]

abbrev pub or_else : {A : Type 0} → Option A → Option A → Option A
or_else none o = o
or_else (some a) o = some a

or_else_assoc : {A : Type 0} (o q r : Option A) → or_else (or_else o q) r ≡ or_else o (or_else q r)
or_else_assoc none q r = refl
or_else_assoc (some a) q r = refl

module _ {A : Type 0} {less : A → A → Bool} (o : IsWeakOrder less) where
  find-same : (a b : A) (m : List (A × ℕ)) → same less a b ≡ true → find less a m ≡ find less b m
  unfolding find
  find-same a b [] h = refl
  find-same a b ((k, i) ∷ m) h = rw (same-congruent o a b k h, find-same a b m h) refl

  find-append :
      (a : A) (m : List (A × ℕ)) (y : A) (j : ℕ)
      → find less a (m ++ (y, j) ∷ [])
        ≡ or_else (find less a m) (if same less a y then some j else none)
  unfolding find
  find-append a [] y j = refl
  find-append a ((k, i) ∷ m) y j = ground (arith, find-append a m y j)

  find-emplace :
      (a : A) (m : List (A × ℕ)) (y : A) (j : ℕ)
      → find less a (emplace less y j m)
        ≡ or_else (find less a m) (if same less a y then some j else none)
  unfolding emplace
  find-emplace a m y j = elim (Option-cases (find less y m)) [
    | inl e ↦ rw (e, emplace) (find-append a m y j)
    | inr there ↦ elim (Bool-cases (same less a y)) [
      | inl t ↦ rw (there.1, t, emplace) (rw (find-same a y m t, there.1) refl)
      | inr f ↦ rw (there.1, f, emplace) (ground arith)
    ]
  ]

  find-emplace_all :
      (a : A) (ys : List A) (j : ℕ) (m : List (A × ℕ))
      → find less a (emplace_all less ys j m) ≡ or_else (find less a m) (first_index less a ys j)
  unfolding emplace_all first_index
  find-emplace_all a [] j m = ground arith
  find-emplace_all a (y ∷ ys) j m =
      rw (find-emplace_all a ys (j + 1) (emplace less y j m), find-emplace a m y j) (ground arith)

  found-pairs :
      (xs : List A) (i : ℕ) (ys : List A) (j : ℕ) (m : List (A × ℕ))
      → ((a : A) → find less a m ≡ first_index less a ys j)
      → found less xs i m
        ≡ (map (λ it. it.0) (pairs less xs i ys j), map (λ it. it.1) (pairs less xs i ys j))
  unfolding found pairs
  found-pairs [] i ys j m h = refl
  found-pairs (x ∷ xs) i ys j m h = ground (arith, h x, found-pairs xs (i + 1) ys j m h)

  pub intersection-pairs :
      (v1 v2 : List A)
      → intersection_value_index less v1 v2
        ≡ (map (λ it. it.0) (pairs less v1 0 v2 0), map (λ it. it.1) (pairs less v1 0 v2 0))
  unfolding intersection_value_index find
  intersection-pairs v1 v2 = found-pairs v1 0 v2 0 _ (λ a. find-emplace_all a v2 0 [])

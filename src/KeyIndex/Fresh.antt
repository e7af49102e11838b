-- ===== src/KeyIndex/Fresh.antt =====
-- The positions of the keys of the second list that the first does not have.
use quick_mpc.Prelude.{
  ℕ, ◌+◌, ◌≡◌, refl, ap, Bool, true, ◌||◌, List, [], ◌∷◌, ◌++◌, if◌then◌else◌, arith, length, table,
}
use quick_mpc.KeyIndex.{same, contains, emplace_set, fresh, union_value_index}
use quick_mpc.KeyIndex.Order.{IsWeakOrder, same-congruent}

module _ {A : Type 0} {less : A → A → Bool} (o : IsWeakOrder less) where
  contains-same :
      (a b : A) (st : List A) → same less a b ≡ true → contains less a st ≡ contains less b st
  unfolding contains
  contains-same a b [] h = refl
  contains-same a b (k ∷ st) h = rw (same-congruent o a b k h, contains-same a b st h) refl

  contains-append :
      (a : A) (st : List A) (y : A)
      → contains less a (st ++ y ∷ []) ≡ (contains less a st || same less a y)
  unfolding contains
  contains-append a [] y = ground arith
  contains-append a (k ∷ st) y = ground (arith, contains-append a st y)

  contains-emplace :
      (a : A) (st : List A) (y : A)
      → contains less a (if contains less y st then st else st ++ y ∷ [])
        ≡ (contains less a st || same less a y)
  contains-emplace a st y = ground (arith, contains-append a st y, contains-same a y st)

  pub contains-emplace_set :
      (a : A) (xs st : List A)
      → contains less a (emplace_set less xs st) ≡ (contains less a st || contains less a xs)
  unfolding emplace_set contains
  contains-emplace_set a [] st = ground arith
  contains-emplace_set a (x ∷ xs) st =
      rw
        (
          contains-emplace_set a xs (if contains less x st then st else st ++ x ∷ []),
          contains-emplace a st x,
        )
        (ground arith)

  fresh-congruent :
      (xs : List A) (it : ℕ) (st st' : List A)
      → ((a : A) → contains less a st ≡ contains less a st')
      → fresh less xs it st ≡ fresh less xs it st'
  unfolding fresh
  fresh-congruent [] it st st' h = refl
  fresh-congruent (x ∷ xs) it st st' h = rw (h x, fresh-congruent xs (it + 1) st st' h) refl

  pub union-fresh :
      (v1 v2 : List A)
      → union_value_index less v1 v2 ≡ (table (length v1) 0 (λ it. it), fresh less v2 0 v1)
  unfolding union_value_index contains
  union-fresh v1 v2 =
      ap (λ (x : List ℕ). (table (length v1) 0 (λ it. it), x))
        (fresh-congruent v2 0 (emplace_set less v1 []) v1 (λ a. contains-emplace_set a v1 []))

-- ===== src/KeyIndex.antt =====
-- src/ComputationContainer/Client/ComputationToDbGate/ValueTable.cpp: the positions of equal keys.
-- A `std::map` or `std::set` with the order `less` is a list in which each key is found by being
-- neither before nor after the one that is sought.
pub mod Order
pub mod Shared
pub mod Fresh
pub mod Merge
use quick_mpc.Prelude.{
  ℕ, zero, suc, ◌+◌, Bool, true, false, not, ◌&&◌, ◌||◌, Option, none, some, List, [], ◌∷◌, ◌++◌,
  if◌then◌else◌, length, table,
}

module _ {A : Type 0} (less : A → A → Bool) where
  unfoldable pub same : A → A → Bool
  same a b = not (less a b) && not (less b a)

  -- `find` with the `operator[]` of a key that is there.
  unfoldable pub find : A → List (A × ℕ) → Option ℕ
  find a [] = none
  find a ((k, i) ∷ m) = let rest = find a m in if same a k then some i else rest

  -- `emplace` keeps the entry of a key that is there.
  unfoldable pub emplace : A → ℕ → List (A × ℕ) → List (A × ℕ)
  emplace a i m = elim (find a m) [ none ↦ m ++ (a, i) ∷ [] | some j ↦ m ]

  unfoldable pub emplace_all : List A → ℕ → List (A × ℕ) → List (A × ℕ)
  emplace_all [] it m = m
  emplace_all (x ∷ xs) it m = emplace_all xs (it + 1) (emplace x it m)

  unfoldable pub found : List A → ℕ → List (A × ℕ) → List ℕ × List ℕ
  found [] it m = ([], [])
  found (x ∷ xs) it m =
      let rest = found xs (it + 1) m in
      elim (find x m) [ none ↦ rest | some j ↦ (it ∷ rest.0, j ∷ rest.1) ]

  unfoldable pub intersection_value_index : List A → List A → List ℕ × List ℕ
  intersection_value_index v1 v2 = found v1 0 (emplace_all v2 0 [])

  -- `find` of a set.
  unfoldable pub contains : A → List A → Bool
  contains a [] = false
  contains a (k ∷ st) = same a k || contains a st

  unfoldable pub emplace_set : List A → List A → List A
  emplace_set [] st = st
  emplace_set (x ∷ xs) st = emplace_set xs (if contains x st then st else st ++ x ∷ [])

  unfoldable pub fresh : List A → ℕ → List A → List ℕ
  fresh [] it st = []
  fresh (x ∷ xs) it st =
      let rest = fresh xs (it + 1) st in if contains x st then rest else it ∷ rest

  unfoldable pub union_value_index : List A → List A → List ℕ × List ℕ
  union_value_index v1 v2 = (table (length v1) 0 (λ it. it), fresh v2 0 (emplace_set v1 []))

module _ {A : Type 0} (equal less : A → A → Bool) where
  -- The loop of `intersectionSortedValueIndex` on what is left of both lists; a round moves on in
  -- one of them.
  unfoldable pub merge : ℕ → List A → List A → ℕ → ℕ → List (ℕ × ℕ)
  merge zero v1 v2 i1 i2 = []
  merge (suc fuel) [] v2 i1 i2 = []
  merge (suc fuel) (x ∷ v1) [] i1 i2 = []
  merge (suc fuel) (x ∷ v1) (y ∷ v2) i1 i2 = elim (equal x y) [
    | true ↦ (i1, i2) ∷ merge fuel v1 v2 (i1 + 1) (i2 + 1)
    | false ↦ elim (less x y) [
      | true ↦ merge fuel v1 (y ∷ v2) (i1 + 1) i2
      | false ↦ merge fuel (x ∷ v1) v2 i1 (i2 + 1)
    ]
  ]

  unfoldable pub intersection_sorted_value_index : List A → List A → List (ℕ × ℕ)
  intersection_sorted_value_index v1 v2 = merge (length v1 + length v2) v1 v2 0 0

-- ===== src/Prelude/Lists.antt =====
-- Lists measured and indexed by native numbers, under the library's names.
use Prim.Native.Nat.{ℕ, zero, suc, ◌+◌, ◌<◌}
use mathlib.Core.Path.{◌≡◌, refl, ap, ◌∙◌}
use mathlib.Core.List.{List, [], ◌∷◌, ◌++◌, map}
use mathlib.Core.Option.{Option, none, some}
use native.Mathlib.Omega.{arith}

module _ {ℓ} {A : Type ℓ} where
  abbrev pub length : List A → ℕ
  length [] = 0
  length (x ∷ xs) = suc (length xs)

  abbrev pub get_elem? : List A → ℕ → Option A
  get_elem? [] i = none
  get_elem? (x ∷ xs) zero = some x
  get_elem? (x ∷ xs) (suc i) = get_elem? xs i

  abbrev pub get_or : List A → ℕ → A → A
  get_or [] i d = d
  get_or (x ∷ xs) zero d = x
  get_or (x ∷ xs) (suc i) d = get_or xs i d

  abbrev pub replicate : ℕ → A → List A
  replicate zero a = []
  replicate (suc n) a = a ∷ replicate n a

  -- What a loop `for i = k, k + 1, ...` of `n` rounds stores at the indices.
  abbrev pub table : ℕ → ℕ → (ℕ → A) → List A
  table zero k g = []
  table (suc n) k g = g k ∷ table n (k + 1) g

  pub get_or-table : (n k i : ℕ) (g : ℕ → A) (d : A) → i < n → get_or (table n k g) i d ≡ g (k + i)
  get_or-table zero k i g d h = absurd (omega arith)
  get_or-table (suc n) k zero g d h = ap g (omega arith)
  get_or-table (suc n) k (suc i) g d h =
      get_or-table n (k + 1) i g d (omega arith) ∙ ap g (omega arith)

  pub get_or-loop : (n i : ℕ) (g : ℕ → A) (d : A) → i < n → get_or (table n 0 g) i d ≡ g i
  get_or-loop n i g d h = get_or-table n 0 i g d h ∙ ap g (omega arith)

  pub length-table : (n k : ℕ) (g : ℕ → A) → length (table n k g) ≡ n
  length-table zero k g = refl
  length-table (suc n) k g = omega (arith, length-table n (k + 1) g)

  pub length-append : (xs ys : List A) → length (xs ++ ys) ≡ length xs + length ys
  length-append [] ys = omega arith
  length-append (x ∷ xs) ys = omega (arith, length-append xs ys)

pub length-map {ℓ κ} :
    {A : Type ℓ} {B : Type κ} (xs : List A) (f : A → B) → length (map f xs) ≡ length xs
length-map [] f = refl
length-map (x ∷ xs) f = ap suc (length-map xs f)

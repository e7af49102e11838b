-- ===== src/Share/Scalars.antt =====
-- src/ComputationContainer/Share/Share.hpp: the operators between a vector of shares and a public
-- value.
use quick_mpc.Prelude.{ℕ, ◌≤◌, ◌≡◌, refl, ap, ap₂, ◌∙◌, List, [], ◌∷◌, map, arith}
use quick_mpc.PrimeField
use quick_mpc.PrimeField.{p}
use quick_mpc.PrimeField.Ring.{field, sub_eq}
use quick_mpc.Share.{SecretValue, Config, Shared, neg, scale, add_public, recons}
use quick_mpc.Share.PrimeValue.{prime_value, IsValid}
use quick_mpc.Share.Recons.{HasSp, recons-le, recons-neg, recons-scale, recons-add_public}

module _ {ℓ} {A : Type ℓ} ⦃sv : SecretValue A⦄ where
  pub plus_vector : Config → List (Shared A) → A → List (Shared A)
  plus_vector conf [] right = []
  plus_vector conf (v ∷ left) right = add_public conf v right ∷ plus_vector conf left right

  -- `left + (-right)`.
  pub minus_vector : Config → List (Shared A) → A → List (Shared A)
  minus_vector conf left right = plus_vector conf left (sv.negate right)

  pub get_additive_inv_vec : List (Shared A) → List (Shared A)
  get_additive_inv_vec [] = []
  get_additive_inv_vec (v ∷ s) = neg v ∷ get_additive_inv_vec s

  -- `left + getAdditiveInvVec(right)`.
  pub minus_from_vector : Config → A → List (Shared A) → List (Shared A)
  minus_from_vector conf left right = plus_vector conf (get_additive_inv_vec right) left

  pub scale_vector : List (Shared A) → A → List (Shared A)
  scale_vector [] right = []
  scale_vector (v ∷ left) right = scale v right ∷ scale_vector left right

unfoldable pub AreValid : List (Shared ℕ) → Type 0
AreValid [] = Unit {0}
AreValid (x ∷ xs) = IsValid x × AreValid xs

recons-plus_vector :
    (conf : Config) (n : ℕ) (xs : List (Shared ℕ)) (k : ℕ)
    → HasSp conf n
    → map (recons n) (plus_vector conf xs k) ≡ map (λ v. PrimeField.add (recons n v) k) xs
unfolding plus_vector
recons-plus_vector conf n [] k sp = refl
recons-plus_vector conf n (x ∷ xs) k sp =
    ap₂ (λ (t : ℕ) (u : List ℕ). t ∷ u) (recons-add_public conf n x k sp)
      (recons-plus_vector conf n xs k sp)

recons-scale_vector :
    (n : ℕ) (xs : List (Shared ℕ)) (k : ℕ)
    → map (recons n) (scale_vector xs k) ≡ map (λ v. PrimeField.mul (recons n v) k) xs
unfolding scale_vector
recons-scale_vector n [] k = refl
recons-scale_vector n (x ∷ xs) k =
    ap₂ (λ (t : ℕ) (u : List ℕ). t ∷ u) (recons-scale n x k) (recons-scale_vector n xs k)

add-sub_zero : (k v : ℕ) → v ≤ p → PrimeField.add (PrimeField.sub 0 v) k ≡ PrimeField.sub k v
add-sub_zero k v h = rw (sub_eq 0 v h, sub_eq k v h) (simp field (omega arith))

recons-minus_from_vector :
    (conf : Config) (n k : ℕ) (xs : List (Shared ℕ))
    → HasSp conf n
    → AreValid xs
    → map (recons n) (minus_from_vector conf k xs) ≡ map (λ v. PrimeField.sub k (recons n v)) xs
unfolding minus_from_vector plus_vector get_additive_inv_vec AreValid
recons-minus_from_vector conf n k [] sp valid = refl
recons-minus_from_vector conf n k (x ∷ xs) sp (v, valid) =
    ap₂ (λ (t : ℕ) (u : List ℕ). t ∷ u)
      (recons-add_public conf n (neg x) k sp
        ∙ ap (λ (t : ℕ). PrimeField.add t k) (recons-neg n x v)
        ∙ add-sub_zero k (recons n x) (recons-le n x))
      (recons-minus_from_vector conf n k xs sp valid)

-- Each entry of the result stands for the sum, the difference or the product of the value that the
-- entry of the vector stands for and the public value. The party `sp_id` is one of the parties,
-- and the parts are valid.
pub recons-vector :
    (conf : Config) (n k : ℕ) (xs : List (Shared ℕ))
    → HasSp conf n
    → AreValid xs
    → (map (recons n) (plus_vector conf xs k) ≡ map (λ v. PrimeField.add (recons n v) k) xs)
      × (map (recons n) (minus_vector conf xs k) ≡ map (λ v. PrimeField.sub (recons n v) k) xs)
      × (map (recons n) (minus_from_vector conf k xs) ≡ map (λ v. PrimeField.sub k (recons n v)) xs)
      × (map (recons n) (scale_vector xs k) ≡ map (λ v. PrimeField.mul (recons n v) k) xs)
unfolding minus_vector PrimeField.sub PrimeField.add PrimeField.neg
recons-vector conf n k xs sp valid = (
  recons-plus_vector conf n xs k sp,
  recons-plus_vector conf n xs (PrimeField.neg k) sp,
  recons-minus_from_vector conf n k xs sp valid,
  recons-scale_vector n xs k,
)

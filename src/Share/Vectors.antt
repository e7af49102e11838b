-- ===== src/Share/Vectors.antt =====
-- The multiplication of vectors, which opens all differences at once, against that of the entries.
use mathlib.Core.List.{append_assoc, map-append}
use quick_mpc.Prelude.{
  ℕ, ◌+◌, ◌≡◌, refl, ap, ◌∙◌, List, [], ◌∷◌, ◌++◌, map, some, none, arith, ◌==◌, if◌then◌else◌,
  length, get_or, length-append, length-map, inl, inr, Bool-cases,
}
use quick_mpc.Share.{
  SecretValue, Config, Shared, Triple, recons, mul, sub, differences, products, mul_vector,
}

module _ {ℓ} {A : Type ℓ} where
  get_or-append :
      (pre : List A) (x : A) (post : List A) (i : ℕ) (d : A)
      → i ≡ length pre
      → get_or (pre ++ x ∷ post) i d ≡ x
  get_or-append [] x post i d e = rw e
  get_or-append (y ∷ pre) x post i d e = rw e (get_or-append pre x post (length pre) d refl)

module _ {ℓ} {A : Type ℓ} ⦃sv : SecretValue A⦄ where
  -- Entry by entry, each with its own opening.
  pub mul_each : Config → List (Triple A) → List (Shared A) → List (Shared A) → List (Shared A)
  mul_each conf [] xs ys = []
  mul_each conf (t ∷ ts) [] ys = []
  mul_each conf (t ∷ ts) (x ∷ xs) [] = []
  mul_each conf (t ∷ ts) (x ∷ xs) (y ∷ ys) = mul conf t x y ∷ mul_each conf ts xs ys

  length-differences :
      (ts : List (Triple A)) (xs : List (Shared A)) (part : Triple A → Shared A)
      → length xs ≡ length ts
      → length (differences ts xs part) ≡ length ts
  unfolding differences
  length-differences [] xs part h = refl
  length-differences (t ∷ ts) [] part h = absurd (omega arith)
  length-differences (t ∷ ts) (x ∷ xs) part h = omega (arith, length-differences ts xs part)

  products-mul_each :
      (conf : Config) (ts : List (Triple A)) (xs ys : List (Shared A)) (pre mid de : List A)
      (n i : ℕ)
      → length xs ≡ length ts
      → length ys ≡ length ts
      → i ≡ length pre
      → n ≡ length ts + length mid
      → de
        ≡ pre
          ++ (map (recons conf.n_parties) (differences ts xs (λ t. t.a))
              ++ (mid ++ map (recons conf.n_parties) (differences ts ys (λ t. t.b))))
      → products conf de n i ts ≡ mul_each conf ts xs ys
  unfolding products mul_each differences mul
  products-mul_each conf [] xs ys pre mid de n i hx hy hi hn e = refl
  products-mul_each conf (t ∷ ts) [] ys pre mid de n i hx hy hi hn e = absurd (omega arith)
  products-mul_each conf (t ∷ ts) (x ∷ xs) [] pre mid de n i hx hy hi hn e = absurd (omega arith)
  products-mul_each conf (t ∷ ts) (x ∷ xs) (y ∷ ys) pre mid de n i hx hy hi hn e =
      let r : Shared A → A = recons conf.n_parties in
      let d : A = r (sub x t.a) in
      let f : A = r (sub y t.b) in
      let ds : List A = map r (differences ts xs (λ t. t.a)) in
      let fs : List A = map r (differences ts ys (λ t. t.b)) in
      let lds : length ds ≡ length ts =
        length-map _ r ∙ length-differences ts xs (λ t. t.a) (omega arith) in
      let here : get_or de i sv.default ≡ d =
        rw e (get_or-append pre d (ds ++ (mid ++ f ∷ fs)) i sv.default hi) in
      let apart : de ≡ (pre ++ (d ∷ (ds ++ mid))) ++ f ∷ fs = e ∙ simp append_assoc in
      let there : get_or de (n + i) sv.default ≡ f = rw apart (
        get_or-append (pre ++ (d ∷ (ds ++ mid))) f fs (n + i) sv.default
          (omega (arith, length-append pre (d ∷ (ds ++ mid)), length-append ds mid))) in
      rw (here, there)
        (ap (◌∷◌ (mul conf t x y)) (
          products-mul_each conf ts xs ys (pre ++ d ∷ []) (mid ++ f ∷ []) de n (i + 1) (omega arith)
            (omega arith) (omega (arith, length-append pre (d ∷ [])))
            (omega (arith, length-append mid (f ∷ []))) (e ∙ simp append_assoc)))

  -- With a triple for each entry of the first vector, the multiplication of vectors, which
  -- opens all differences at once, gives what the multiplications of the entries give when the
  -- lengths are equal, and throws when they are not.
  pub mul_vector-mul_each :
      (conf : Config) (ts : List (Triple A)) (xs ys : List (Shared A))
      → length ts ≡ length xs
      → mul_vector conf ts xs ys
        ≡ (if length xs == length ys then some (mul_each conf ts xs ys) else none)
  unfolding mul_vector
  mul_vector-mul_each conf ts xs ys h = elim (Bool-cases (length xs == length ys)) [
    | inl same ↦
        let e : length xs ≡ length ys = ground arith in
        rw same (
          ap some (
            products-mul_each conf ts xs ys [] [] _ (length xs) 0 (omega arith) (omega arith) refl
              (omega arith) (simp map-append)))
    | inr other ↦ rw other
  ]

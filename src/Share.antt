-- ===== src/Share.antt =====
-- src/ComputationContainer/Share/Share.hpp and Networking.hpp: additive secret shares. The class
-- template `Share<SV>` is generic code over an interface of values. A shared value is a function
-- of the party identifier, from 1 to `n_parties`: what each party holds locally. An operator is
-- what each party computes on its own part; `recons` is the sum that every party forms after `open`.
pub mod PrimeValue
pub mod Recons
pub mod Beaver
pub mod Vectors
pub mod Scalars
pub mod Sharing
mod Tests
use quick_mpc.Prelude.{
  ℕ, zero, suc, ◌+◌, Bool, true, false, Option, none, some, List, [], ◌∷◌, ◌++◌, map, ◌==◌,
  if◌then◌else◌, length, get_or,
}

-- What the template asks of its parameter: the default value, the operators, `getInv`, and the constructor
-- from the text that `getStrVal` prints, which may throw.
pub record SecretValue {ℓ} (A : Type ℓ) : Type ℓ where
  pub default : A
  pub plus : A → A → A
  pub minus : A → A → A
  pub times : A → A → A
  pub negate : A → A
  pub invert : A → A
  pub parse : A → Option A

-- The part of `Config` that the operators read.
pub record Config : Type 0 where
  pub n_parties : ℕ
  pub sp_id : ℕ

abbrev pub Shared {ℓ} : Type ℓ → Type ℓ
Shared A = ℕ → A

pub record Triple {ℓ} (A : Type ℓ) : Type ℓ where
  pub a : Shared A
  pub b : Shared A
  pub c : Shared A

module _ {ℓ} {A : Type ℓ} ⦃sv : SecretValue A⦄ where
  unfoldable pub add : Shared A → Shared A → Shared A
  add x y i = sv.plus (x i) (y i)

  unfoldable pub sub : Shared A → Shared A → Shared A
  sub x y i = sv.minus (x i) (y i)

  pub neg : Shared A → Shared A
  neg x i = sv.negate (x i)

  -- `operator*=(const SV &)`.
  unfoldable pub scale : Shared A → A → Shared A
  scale x k i = sv.times (x i) k

  -- `operator+=(const SV &)` and `operator-=(const SV &)`: only the party `sp_id` acts.
  unfoldable pub add_public : Config → Shared A → A → Shared A
  add_public conf x k i = if i == conf.sp_id then sv.plus (x i) k else x i

  pub sub_public : Config → Shared A → A → Shared A
  sub_public conf x k i = if i == conf.sp_id then sv.minus (x i) k else x i

  -- `operator-(const SV &, const Share &)`.
  pub public_sub : Config → A → Shared A → Shared A
  public_sub conf k x = add_public conf (neg x) k

  pub constant_share : Config → A → Shared A
  constant_share conf k = add_public conf (λ i. sv.default) k

  -- The loop of `recons` over the parties, all of whose parts have arrived.
  unfoldable pub recons : ℕ → Shared A → A
  recons zero x = sv.default
  recons (suc n) x = sv.plus (recons n x) (x (suc n))

  -- The same loop at the party `me`: its own part is added as it is, and that of another party is
  -- parsed from the text received.
  unfoldable pub recons_at : ℕ → ℕ → Shared A → Option A
  recons_at me zero x = some sv.default
  recons_at me (suc n) x = elim (recons_at me n x) [
    | none ↦ none
    | some ret ↦
        if suc n == me then some (sv.plus ret (x (suc n))) else elim (sv.parse (x (suc n))) [
          | none ↦ none
          | some received ↦ some (sv.plus ret received)
        ]
  ]

  -- `operator*=(const Share &)`: the differences from the triple are opened.
  unfoldable pub mul : Config → Triple A → Shared A → Shared A → Shared A
  mul conf t x y =
      let d = recons conf.n_parties (sub x t.a) in
      let e = recons conf.n_parties (sub y t.b) in
      add_public conf (add (add t.c (scale t.b d)) (scale t.a e)) (sv.times d e)

  -- The multiplication of vectors: the 2 n differences are opened together, and the product at
  -- `i` is put together from the entries `i` and `n + i`. The list of triples is as long as the
  -- vectors, for it is asked for by that length.
  pub differences : List (Triple A) → List (Shared A) → (Triple A → Shared A) → List (Shared A)
  differences [] xs part = []
  differences (t ∷ ts) [] part = []
  differences (t ∷ ts) (x ∷ xs) part = sub x (part t) ∷ differences ts xs part

  pub products : Config → List A → ℕ → ℕ → List (Triple A) → List (Shared A)
  products conf de n i [] = []
  products conf de n i (t ∷ ts) =
      let d = get_or de i sv.default in
      let e = get_or de (n + i) sv.default in
      add_public conf (add (add t.c (scale t.b d)) (scale t.a e)) (sv.times d e)
      ∷ products conf de n (i + 1) ts

  -- `none` is the exception for unequal lengths.
  pub mul_vector :
      Config → List (Triple A) → List (Shared A) → List (Shared A) → Option (List (Shared A))
  mul_vector conf ts xs ys =
      let n = length xs in
      let de = differences ts xs (λ t. t.a) ++ differences ts ys (λ t. t.b) in
      let de_rec = map (recons conf.n_parties) de in
      if n == length ys then some (products conf de_rec n 0 ts) else none

  -- Addition and subtraction of vectors, with the same exception.
  pub zip_shares :
      (Shared A → Shared A → Shared A)
      → List (Shared A)
      → List (Shared A)
      → Option (List (Shared A))
  zip_shares f [] [] = some []
  zip_shares f [] (y ∷ ys) = none
  zip_shares f (x ∷ xs) [] = none
  zip_shares f (x ∷ xs) (y ∷ ys) = elim (zip_shares f xs ys) [
    | none ↦ none
    | some zs ↦ some (f x y ∷ zs)
  ]

  -- `sharize`: the party `sp_id` draws a part for every other party, and keeps the rest.
  pub drawn_sum : Config → ℕ → Shared A → A
  drawn_sum conf zero r = sv.default
  drawn_sum conf (suc n) r =
      if suc n == conf.sp_id then drawn_sum conf n r else sv.plus (drawn_sum conf n r) (r (suc n))

  pub sharize : Config → Shared A → A → Shared A
  sharize conf r secret i =
      if i == conf.sp_id then sv.minus secret (drawn_sum conf conf.n_parties r) else r i

  -- `getInv` of a share: the product with a random share is opened to the party `sp_id`, which
  -- shares its inverse anew, with parts that it draws.
  pub get_inv : Config → Triple A → Triple A → Shared A → Shared A → Shared A → Shared A
  get_inv conf t u r drawn s =
      let masked = recons conf.n_parties (mul conf t s r) in
      mul conf u (sharize conf drawn (sv.invert masked)) r

  -- `operator/=(const Share &)`.
  pub div :
      Config → Triple A → Triple A → Triple A → Shared A → Shared A → Shared A → Shared A → Shared A
  div conf t u v r drawn x y = mul conf v x (get_inv conf t u r drawn y)

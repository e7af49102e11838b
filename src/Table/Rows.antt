-- ===== src/Table/Rows.antt =====
-- The joins told by rows, without positions.
use quick_mpc.Prelude.{
  ℕ, suc, ◌+◌, ◌≡◌, refl, sym, ap, ap₂, ◌∙◌, Bool, true, inl, inr, Option, none, some, List, [],
  ◌∷◌, map, if◌then◌else◌, arith, Bool-cases, Option-cases, length, get_or,
}
use quick_mpc.KeyIndex.{same, contains, fresh}
use quick_mpc.KeyIndex.Shared.{first_index, pairs}

-- Of all members of a list.
abbrev pub All : {Row : Type 0} → (Row → Type 0) → List Row → Type 0
All P [] = Unit {0}
All P (r ∷ rs) = P r × All P rs

pub map-All :
    {Row B : Type 0} (P : Row → Type 0) (f g : Row → B) (rs : List Row)
    → All P rs
    → ((r : Row) → P r → f r ≡ g r)
    → map f rs ≡ map g rs
map-All P f g [] all e = refl
map-All P f g (r ∷ rs) all e = ap₂ ◌∷◌ (e r all.0) (map-All P f g rs all.1 e)

pub map-map :
    {Row B D : Type 0} (g : B → D) (f : Row → B) (rs : List Row)
    → map g (map f rs) ≡ map (λ r. g (f r)) rs
map-map g f [] = refl
map-map g f (r ∷ rs) = ap (◌∷◌ (g (f r))) (map-map g f rs)

-- `f` reads `rows` from the position `i` on.
abbrev pub Reads : {Row : Type 0} → (ℕ → Row) → ℕ → List Row → Type 0
Reads f i [] = Unit {0}
Reads f i (r ∷ rs) = (f i ≡ r) × Reads f (i + 1) rs

Reads-shift :
    {Row : Type 0} (f g : ℕ → Row) (i : ℕ) (rs : List Row)
    → ((n : ℕ) → f (n + 1) ≡ g n)
    → Reads g i rs
    → Reads f (i + 1) rs
Reads-shift f g i [] e h = tt
Reads-shift f g i (r ∷ rs) e h = (e i ∙ h.0, Reads-shift f g (i + 1) rs e h.1)

pub get_or-Reads : {Row : Type 0} (rs : List Row) (d : Row) → Reads (λ n. get_or rs n d) 0 rs
get_or-Reads [] d = tt
get_or-Reads (r ∷ rs) d = (
  refl,
  Reads-shift (λ n. get_or (r ∷ rs) n d) (λ n. get_or rs n d) 0 rs
      (λ n. let e : n + 1 ≡ suc n = omega arith in rw e refl) (get_or-Reads rs d),
)

module _ {Number Row : Type 0} (less : Number → Number → Bool) where
  -- The first row whose key is the same.
  unfoldable pub partner : Number → List Row → List Number → Option Row
  partner x [] ys = none
  partner x (u ∷ us) [] = none
  partner x (u ∷ us) (y ∷ ys) = let rest = partner x us ys in if same less x y then some u else rest

  -- Each row that has a partner, with it.
  unfoldable pub partnered : List Row → List Number → List Row → List Number → List (Row × Row)
  partnered [] xs us ys = []
  partnered (r ∷ rs) [] us ys = []
  partnered (r ∷ rs) (x ∷ xs) us ys =
      let rest = partnered rs xs us ys in
      elim (partner x us ys) [ none ↦ rest | some u ↦ (r, u) ∷ rest ]

  -- The rows whose key is not among `xs`.
  unfoldable pub others : List Number → List Row → List Number → List Row
  others xs [] ys = []
  others xs (u ∷ us) [] = []
  others xs (u ∷ us) (y ∷ ys) =
      let rest = others xs us ys in if contains less y xs then rest else u ∷ rest

  partner-first_index :
      (g : ℕ → Row) (x : Number) (us : List Row) (ys : List Number) (j : ℕ)
      → length us ≡ length ys
      → Reads g j us
      → elim (first_index less x ys j) [ none ↦ none | some k ↦ some (g k) ] ≡ partner x us ys
  unfolding partner first_index
  partner-first_index g x [] [] j h reads = refl
  partner-first_index g x [] (y ∷ ys) j h reads = absurd (omega arith)
  partner-first_index g x (u ∷ us) [] j h reads = absurd (omega arith)
  partner-first_index g x (u ∷ us) (y ∷ ys) j h reads =
      ground (arith, reads.0, partner-first_index g x us ys (j + 1) (omega arith) reads.1)

  pub pairs-partnered :
      (f g : ℕ → Row) (rs : List Row) (xs : List Number) (us : List Row) (ys : List Number)
      (i j : ℕ)
      → length rs ≡ length xs
      → length us ≡ length ys
      → Reads f i rs
      → Reads g j us
      → map (λ it. (f it.0, g it.1)) (pairs less xs i ys j) ≡ partnered rs xs us ys
  unfolding pairs partnered
  pairs-partnered f g [] [] us ys i j h k reads reads' = refl
  pairs-partnered f g [] (x ∷ xs) us ys i j h k reads reads' = absurd (omega arith)
  pairs-partnered f g (r ∷ rs) [] us ys i j h k reads reads' = absurd (omega arith)
  pairs-partnered f g (r ∷ rs) (x ∷ xs) us ys i j h k reads reads' = ground (
    arith,
    reads.0,
    partner-first_index g x us ys j k reads',
    pairs-partnered f g rs xs us ys (i + 1) j (omega arith) k reads.1 reads',
  )

  pub fresh-others :
      (g : ℕ → Row) (xs : List Number) (us : List Row) (ys : List Number) (j : ℕ)
      → length us ≡ length ys
      → Reads g j us
      → map g (fresh less ys j xs) ≡ others xs us ys
  unfolding fresh others
  fresh-others g xs [] [] j h reads = refl
  fresh-others g xs [] (y ∷ ys) j h reads = absurd (omega arith)
  fresh-others g xs (u ∷ us) [] j h reads = absurd (omega arith)
  fresh-others g xs (u ∷ us) (y ∷ ys) j h reads =
      ground (arith, reads.0, fresh-others g xs us ys (j + 1) (omega arith) reads.1)

  pub others-All :
      (P : Row → Type 0) (xs : List Number) (us : List Row) (ys : List Number)
      → All P us
      → All P (others xs us ys)
  unfolding others
  others-All P xs [] ys all = tt
  others-All P xs (u ∷ us) [] all = tt
  others-All P xs (u ∷ us) (y ∷ ys) all = elim (Bool-cases (contains less y xs)) [
    | inl t ↦ rw (t, others) (others-All P xs us ys all.1)
    | inr f ↦ rw (f, others) (all.0, others-All P xs us ys all.1)
  ]

  partner-All :
      (P : Row → Type 0) (x : Number) (us : List Row) (ys : List Number) (u : Row)
      → All P us
      → partner x us ys ≡ some u
      → P u
  unfolding partner
  partner-All P x [] ys u all e = absurd (ground (arith, e))
  partner-All P x (v ∷ us) [] u all e = absurd (ground (arith, e))
  partner-All P x (v ∷ us) (y ∷ ys) u all e = elim (Bool-cases (same less x y)) [
    | inl t ↦ let q : v ≡ u = ground (arith, e, t) in rw (← q) all.0
    | inr f ↦ partner-All P x us ys u all.1 (ground (arith, e, f))
  ]

  pub partnered-All :
      (P Q : Row → Type 0) (rs : List Row) (xs : List Number) (us : List Row) (ys : List Number)
      → All P rs
      → All Q us
      → All (λ it. P it.0 × Q it.1) (partnered rs xs us ys)
  unfolding partnered
  partnered-All P Q [] xs us ys all all' = tt
  partnered-All P Q (r ∷ rs) [] us ys all all' = tt
  partnered-All P Q (r ∷ rs) (x ∷ xs) us ys all all' = elim (Option-cases (partner x us ys)) [
    | inl e ↦ rw (e, partnered) (partnered-All P Q rs xs us ys all.1 all')
    | inr there ↦
        rw (there.1, partnered)
          (
            (all.0, partner-All Q x us ys there.0 all' there.1),
            partnered-All P Q rs xs us ys all.1 all',
          )
  ]

-- A member of a list is the same as the first member that is found for it.
partner-same :
    {Number : Type 0} (less : Number → Number → Bool) (x : Number) (ys : List Number) (u : Number)
    → partner less x ys ys ≡ some u
    → same less x u ≡ true
unfolding partner
partner-same less x [] u e = absurd (ground (arith, e))
partner-same less x (y ∷ ys) u e = elim (Bool-cases (same less x y)) [
  | inl t ↦ let q : y ≡ u = ground (arith, e, t) in rw (← q) t
  | inr f ↦ partner-same less x ys u (ground (arith, e, f))
]

pub partnered-equal :
    {Number : Type 0} (less : Number → Number → Bool)
    → ((a b : Number) → same less a b ≡ true → a ≡ b)
    → (xs ys : List Number)
    → map (λ it. it.1) (partnered less xs xs ys ys) ≡ map (λ it. it.0) (partnered less xs xs ys ys)
unfolding partnered
partnered-equal less equal [] ys = refl
partnered-equal less equal (x ∷ xs) ys = elim (Option-cases (partner less x ys ys)) [
  | inl e ↦ rw (e, partnered) (partnered-equal less equal xs ys)
  | inr there ↦
      rw (there.1, partnered)
        (ap₂ ◌∷◌ (sym (equal x there.0 (partner-same less x ys there.0 there.1)))
          (partnered-equal less equal xs ys))
]

-- ===== src/Mailbox/Vectors.antt =====
-- `recons` of a vector is `recons` of each of its shares.
use mathlib.Core.Option.{some-injective}
use native.Mathlib.Decide.{ℕ_discrete}
use quick_mpc.Prelude.{
  ℕ, zero, suc, ◌≤◌, ◌<◌, ◌≡◌, ◌≢◌, refl, sym, ap, ap₂, ◌∙◌, false, inl, inr, some, List, [], ◌∷◌,
  map, arith, length, replicate, Option-cases, ==_refl,
}
use quick_mpc.Share.{SecretValue, Shared, recons_at}
use quick_mpc.Mailbox.{
  Address, same_address, Store, erase, get_share, get_shares, returned, add_values, parse_values,
  vector_round, vector_received,
}
use quick_mpc.Mailbox.Delivery.{==-false}

-- The parts of the party are in the server.
abbrev pub AllThere : {A : Type 0} → ℕ → Store A → List Address → List (Shared A) → Type 0
AllThere q shares [] [] = Unit {0}
AllThere q shares [] (x ∷ xs) = ⊥
AllThere q shares (a ∷ as_) [] = ⊥
AllThere q shares (a ∷ as_) (x ∷ xs) = (shares q a ≡ some (x q)) × AllThere q shares as_ xs

abbrev pub DiffersFrom : Address → List Address → Type 0
DiffersFrom a [] = Unit {0}
DiffersFrom a (b ∷ bs) = (same_address b a ≡ false) × DiffersFrom a bs

abbrev pub AreDistinct : List Address → Type 0
AreDistinct [] = Unit {0}
AreDistinct (a ∷ as_) = DiffersFrom a as_ × AreDistinct as_

module _ {A : Type 0} where
  -- Another address of the party stays.
  erase-differs :
      (q : ℕ) (a b : Address) (shares : Store A)
      → same_address b a ≡ false
      → erase q a shares q b ≡ shares q b
  unfolding erase
  erase-differs q a b shares h = ground (arith, h)

  erase-party :
      (q p : ℕ) (a b : Address) (shares : Store A) → p ≢ q → erase q a shares p b ≡ shares p b
  unfolding erase
  erase-party q p a b shares h = ground (arith, ==-false p q h)

  AllThere-erase :
      (q : ℕ) (a : Address) (shares : Store A) (as_ : List Address) (xs : List (Shared A))
      → DiffersFrom a as_
      → AllThere q shares as_ xs
      → AllThere q (erase q a shares) as_ xs
  AllThere-erase q a shares [] [] d there = tt
  AllThere-erase q a shares [] (x ∷ xs) d there = there
  AllThere-erase q a shares (b ∷ bs) [] d there = there
  AllThere-erase q a shares (b ∷ bs) (x ∷ xs) d there =
      (erase-differs q a b shares d.0 ∙ there.0, AllThere-erase q a shares bs xs d.1 there.1)

  -- What `getShares` returns, and that it leaves the parts of the other parties.
  get_shares_lem :
      (q : ℕ) (shares : Store A) (as_ : List Address) (xs : List (Shared A))
      → AreDistinct as_
      → AllThere q shares as_ xs
      → (rest : Store A) × (get_shares q as_ shares ≡ some (map (λ x. x q) xs, rest))
        × ((p : ℕ) (b : Address) → p ≢ q → rest p b ≡ shares p b)
  unfolding get_shares get_share
  get_shares_lem q shares [] [] d there = (shares, refl, λ p b n. refl)
  get_shares_lem q shares [] (x ∷ xs) d there = absurd there
  get_shares_lem q shares (a ∷ as_) [] d there = absurd there
  get_shares_lem q shares (a ∷ as_) (x ∷ xs) d there =
      let (rest, got, left) =
        get_shares_lem q (erase q a shares) as_ xs d.1
          (AllThere-erase q a shares as_ xs d.0 there.1) in
      (
        rest,
        rw (get_shares, get_share, there.0, got) refl,
        λ p b n. left p b n ∙ erase-party q p a b shares n,
      )

  AllThere-kept :
      (q : ℕ) (shares rest : Store A) (as_ : List Address) (xs : List (Shared A))
      → ((b : Address) → rest q b ≡ shares q b)
      → AllThere q shares as_ xs
      → AllThere q rest as_ xs
  AllThere-kept q shares rest [] [] e there = tt
  AllThere-kept q shares rest [] (x ∷ xs) e there = there
  AllThere-kept q shares rest (b ∷ bs) [] e there = there
  AllThere-kept q shares rest (b ∷ bs) (x ∷ xs) e there =
      (e b ∙ there.0, AllThere-kept q shares rest bs xs e there.1)

module _ {A : Type 0} ⦃sv : SecretValue A⦄ where
  -- The values are what the loop over the parts gives for each share.
  abbrev pub AreReconstructed : ℕ → ℕ → List (Shared A) → List A → Type 0
  AreReconstructed me n [] [] = Unit {0}
  AreReconstructed me n [] (v ∷ vs) = ⊥
  AreReconstructed me n (x ∷ xs) [] = ⊥
  AreReconstructed me n (x ∷ xs) (v ∷ vs) =
      (recons_at me n x ≡ some v) × AreReconstructed me n xs vs

  single-own :
      (me n : ℕ) (x : Shared A) (v : A)
      → suc n ≡ me
      → recons_at me (suc n) x ≡ some v
      → (ret : A) × (recons_at me n x ≡ some ret) × (v ≡ sv.plus ret (x me))
  unfolding recons_at
  single-own me n x v own e = elim (Option-cases (recons_at me n x)) [
    | inl fails ↦ absurd (ground (arith, e, fails))
    | inr (ret, before) ↦ (ret, before, ground (arith, e, before, own, ==_refl me))
  ]

  single-other :
      (me n : ℕ) (x : Shared A) (v : A)
      → suc n ≢ me
      → recons_at me (suc n) x ≡ some v
      → (ret : A) × (value : A) × (recons_at me n x ≡ some ret)
        × (sv.parse (x (suc n)) ≡ some value)
        × (v ≡ sv.plus ret value)
  unfolding recons_at
  single-other me n x v other e = elim (Option-cases (recons_at me n x)) [
    | inl fails ↦ absurd (ground (arith, e, fails))
    | inr (ret, before) ↦ elim (Option-cases (sv.parse (x (suc n)))) [
      | inl fails ↦ absurd (ground (arith, e, fails, before, ==-false (suc n) me other))
      | inr (value, parsed) ↦
          (ret, value, before, parsed, ground (arith, e, before, ==-false (suc n) me other, parsed))
    ]
  ]

  all-own :
      (me n : ℕ) (xs : List (Shared A)) (vs : List A)
      → suc n ≡ me
      → AreReconstructed me (suc n) xs vs
      → (rets : List A) × AreReconstructed me n xs rets
        × (vs ≡ add_values rets (map (λ x. x me) xs))
  unfolding add_values
  all-own me n [] [] own r = ([], tt, refl)
  all-own me n [] (v ∷ vs) own r = absurd r
  all-own me n (x ∷ xs) [] own r = absurd r
  all-own me n (x ∷ xs) (v ∷ vs) own r =
      let (ret, before, e) = single-own me n x v own r.0 in
      let (rets, befores, es) = all-own me n xs vs own r.1 in
      (ret ∷ rets, (before, befores), ap₂ ◌∷◌ e es)

  all-other :
      (me n : ℕ) (xs : List (Shared A)) (vs : List A)
      → suc n ≢ me
      → AreReconstructed me (suc n) xs vs
      → (rets : List A) × (values : List A) × AreReconstructed me n xs rets
        × (parse_values (map (λ x. x (suc n)) xs) ≡ some values)
        × (vs ≡ add_values rets values)
  unfolding add_values parse_values
  all-other me n [] [] other r = ([], [], tt, refl, refl)
  all-other me n [] (v ∷ vs) other r = absurd r
  all-other me n (x ∷ xs) [] other r = absurd r
  all-other me n (x ∷ xs) (v ∷ vs) other r =
      let (ret, value, before, parsed, e) = single-other me n x v other r.0 in
      let (rets, values, befores, parseds, es) = all-other me n xs vs other r.1 in
      (
        ret ∷ rets,
        value ∷ values,
        (before, befores),
        rw (parse_values, parsed, parseds) refl,
        ap₂ ◌∷◌ e es,
      )

  all-default :
      (me : ℕ) (xs : List (Shared A)) (vs : List A)
      → AreReconstructed me 0 xs vs
      → replicate (length (map (λ x. x me) xs)) sv.default ≡ vs
  unfolding recons_at
  all-default me [] [] r = refl
  all-default me [] (v ∷ vs) r = absurd r
  all-default me (x ∷ xs) [] r = absurd r
  all-default me (x ∷ xs) (v ∷ vs) r =
      ap₂ ◌∷◌ (some-injective sv.default v r.0) (all-default me xs vs r.1)

  vector-Reconstructs :
      (me n : ℕ) (xs : List (Shared A)) (as_ : List Address) (shares : Store A) (vs : List A)
      → AreDistinct as_
      → ((q : ℕ) → 1 ≤ q → q ≤ n → q ≢ me → AllThere q shares as_ xs)
      → AreReconstructed me n xs vs
      → (rest : Store A) × (vector_received me n (map (λ x. x me) xs) as_ shares ≡ returned vs rest)
        × ((p : ℕ) (b : Address) → n < p → rest p b ≡ shares p b)
  unfolding vector_received vector_round
  vector-Reconstructs me zero xs as_ shares vs d there r =
      (shares, ap (λ (x : List A). returned x shares) (all-default me xs vs r), λ p b h. refl)
  vector-Reconstructs me (suc n) xs as_ shares vs d there r = elim (ℕ_discrete (suc n) me) [
    | yes own ↦
        let (rets, befores, e) = all-own me n xs vs own r in
        let (rest, got, left) =
          vector-Reconstructs me n xs as_ shares rets d (λ q l m o. there q l (omega arith) o)
            befores in
        (
          rest,
          rw (vector_received, got, vector_round, own, ==_refl me)
              (ap (λ (x : List A). returned x rest) (sym e)),
          λ p b h. left p b (omega arith),
        )
    | no other ↦
        let (rets, values, befores, parsed, e) = all-other me n xs vs other r in
        let (rest, got, left) =
          vector-Reconstructs me n xs as_ shares rets d (λ q l m o. there q l (omega arith) o)
            befores in
        let here =
          AllThere-kept (suc n) shares rest as_ xs (λ b. left (suc n) b (omega arith))
            (there (suc n) (omega arith) (omega arith) other) in
        let (rest', taken, left') = get_shares_lem (suc n) rest as_ xs d here in
        (
          rest',
          rw (vector_received, got, vector_round, ==-false (suc n) me other, taken, parsed)
              (ap (λ (x : List A). returned x rest') (sym e)),
          λ p b h. left' p b (λ q. omega (arith, h, q)) ∙ left p b (omega arith),
        )
  ]

  -- Where the addresses of a vector of shares are distinct and the server holds the part of every other party
  -- under each of them, `recons` of the vector returns, for each share, what the loop over its
  -- parts gives.
  pub vector_received-recons_at :
      (me n : ℕ) (xs : List (Shared A)) (ids_list : List Address) (shares : Store A) (vs : List A)
      → AreDistinct ids_list
      → ((q : ℕ) → 1 ≤ q → q ≤ n → q ≢ me → AllThere q shares ids_list xs)
      → AreReconstructed me n xs vs
      → (rest : Store A) × (vector_received me n (map (λ x. x me) xs) ids_list shares
          ≡ returned vs rest)
  vector_received-recons_at me n xs ids_list shares vs d there r =
      let (rest, got, left) = vector-Reconstructs me n xs ids_list shares vs d there r in
      (rest, got)

-- ===== src/Mailbox/Delivery.antt =====
-- What a party reconstructs does not depend on the order in which the parts arrive.
use mathlib.Core.Option.{some-injective}
use native.Mathlib.Decide.{ℕ_discrete}
use quick_mpc.Prelude.{
  ℕ, zero, suc, ◌≤◌, ◌≡◌, ◌≢◌, refl, sym, ap, ◌∙◌, Bool, true, false, ◌&&◌, ◌||◌, ◌⊎◌, inl, inr,
  none, some, List, [], ◌∷◌, ◌==◌, if◌then◌else◌, arith, Bool-cases, Option-cases, ==_refl, ==_iff,
  leb, not,
}
use quick_mpc.Share.{SecretValue, Shared, recons_at}
use quick_mpc.Mailbox.{
  Address, same_address, Message, Store, empty, set, erase, exchange_share, get_share, returned,
  recons_round, recons_received,
}

pub same_address_refl : (a : Address) → same_address a a ≡ true
unfolding same_address
same_address_refl a = ground arith

pub same_address-equal : (a b : Address) → same_address a b ≡ true → a ≡ b
unfolding same_address
same_address-equal a b h = ground arith

pub key_cases :
    (q party_id : ℕ) (b a : Address)
    → ((q ≡ party_id) × (b ≡ a)) ⊎ ((q == party_id && same_address b a) ≡ false)
key_cases q party_id b a = elim (Bool-cases (q == party_id)) [
  | inr n ↦ inr (rw n refl)
  | inl e ↦ elim (Bool-cases (same_address b a)) [
    | inr n ↦ inr (rw (e, n) refl)
    | inl f ↦ inl ((==_iff q party_id).0 e, same_address-equal b a f)
  ]
]

module _ {A : Type 0} where
  -- The single messages that arrive at a server, in order.
  unfoldable pub arrive : List (Message A) → Store A → Store A
  arrive [] shares = shares
  arrive (m ∷ ms) shares = arrive ms (exchange_share m shares)

  abbrev pub In : Message A → List (Message A) → Type 0
  In m [] = ⊥
  In m (x ∷ xs) = (m ≡ x) ⊎ In m xs

  -- All messages from the party with the address carry the value.
  abbrev pub Carry : ℕ → Address → A → List (Message A) → Type 0
  Carry q a value [] = Unit {0}
  Carry q a value (m ∷ ms) = (m.party_id ≡ q → m.address ≡ a → m.value ≡ value) × Carry q a value ms

  set-other :
      (m : Message A) (shares : Store A) (q : ℕ) (a : Address) (value : A)
      → (m.party_id ≡ q → m.address ≡ a → m.value ≡ value)
      → shares q a ≡ some value
      → exchange_share m shares q a ≡ some value
  unfolding exchange_share set
  set-other m shares q a value carries h = elim (key_cases q m.party_id a m.address) [
    | inr n ↦ rw (exchange_share, set, n) h
    | inl (e, f) ↦
        rw (exchange_share, set, e, f, ==_refl m.party_id, same_address_refl m.address)
          (ap some (carries (sym e) (sym f)))
  ]

  arrive-kept :
      (ms : List (Message A)) (shares : Store A) (q : ℕ) (a : Address) (value : A)
      → Carry q a value ms
      → shares q a ≡ some value
      → arrive ms shares q a ≡ some value
  unfolding arrive
  arrive-kept [] shares q a value carry h = h
  arrive-kept (m ∷ ms) shares q a value carry h =
      arrive-kept ms (exchange_share m shares) q a value carry.1
        (set-other m shares q a value carry.0 h)

  set_self :
      (m : Message A) (shares : Store A)
      → exchange_share m shares m.party_id m.address ≡ some m.value
  unfolding exchange_share set
  set_self m shares = rw (exchange_share, set, ==_refl m.party_id, same_address_refl m.address) refl

  pub arrive_lem :
      (ms : List (Message A)) (shares : Store A) (m : Message A)
      → In m ms
      → Carry m.party_id m.address m.value ms
      → arrive ms shares m.party_id m.address ≡ some m.value
  unfolding arrive
  arrive_lem [] shares m there carry = absurd there
  arrive_lem (x ∷ ms) shares m (inl e) carry =
      arrive-kept ms (exchange_share x shares) m.party_id m.address m.value carry.1
        (rw (e) (set_self x shares))
  arrive_lem (x ∷ ms) shares m (inr there) carry =
      arrive_lem ms (exchange_share x shares) m there carry.1

-- The parts that `recons` of the rounds up to `n` takes from the server.
abbrev pub is_taken : ℕ → ℕ → Address → ℕ → Address → Bool
is_taken me n a q b = leb 1 q && (leb q n && (not (q == me) && same_address b a))

pub ==-false : (m n : ℕ) → m ≢ n → (m == n) ≡ false
==-false m n h = ground (arith, h)

is_taken-own :
    (me n : ℕ) (a : Address) (q : ℕ) (b : Address)
    → suc n ≡ me
    → is_taken me (suc n) a q b ≡ is_taken me n a q b
is_taken-own me n a q b e = ground (arith, e)

is_taken-other :
    (me n : ℕ) (a : Address) (q : ℕ) (b : Address)
    → suc n ≢ me
    → is_taken me (suc n) a q b ≡ ((q == suc n && same_address b a) || is_taken me n a q b)
is_taken-other me n a q b e = ground (arith, e)

none-is_taken : (me : ℕ) (a : Address) (q : ℕ) (b : Address) → is_taken me 0 a q b ≡ false
none-is_taken me a q b = ground arith

not-is_taken : (me n : ℕ) (a b : Address) → is_taken me n a (suc n) b ≡ false
not-is_taken me n a b = ground arith

module _ {A : Type 0} ⦃sv : SecretValue A⦄ where
  -- What `recons` of the rounds up to `n` does when all parts are there.
  abbrev pub Reconstructs : ℕ → ℕ → A → Address → Store A → A → Type 0
  Reconstructs me n own a shares v =
      (rest : Store A) × (recons_received me n own a shares ≡ returned v rest)
      × ((q : ℕ) (b : Address) → rest q b ≡ (if is_taken me n a q b then none else shares q b))

  own_round :
      (me n : ℕ) (x : Shared A) (a : Address) (shares : Store A) (ret : A)
      → suc n ≡ me
      → Reconstructs me n (x me) a shares ret
      → Reconstructs me (suc n) (x me) a shares (sv.plus ret (x (suc n)))
  unfolding recons_received recons_round
  own_round me n x a shares ret e (rest, got, left) = (
    rest,
    rw (got, recons_round, e, ==_refl me) refl,
    λ q b. left q b ∙ rw (is_taken-own me n a q b e) refl,
  )

  other_round :
      (me n : ℕ) (x : Shared A) (a : Address) (shares : Store A) (ret value : A)
      → suc n ≢ me
      → shares (suc n) a ≡ some (x (suc n))
      → sv.parse (x (suc n)) ≡ some value
      → Reconstructs me n (x me) a shares ret
      → Reconstructs me (suc n) (x me) a shares (sv.plus ret value)
  unfolding recons_received recons_round get_share erase
  other_round me n x a shares ret value other there parsed (rest, got, left) =
      let here : rest (suc n) a ≡ some (x (suc n)) =
        left (suc n) a ∙ rw (not-is_taken me n a a) there in
      (
        erase (suc n) a rest,
        rw (got, recons_round, ==-false (suc n) me other, get_share, here, parsed) refl,
        λ q b. rw (is_taken-other me n a q b other) (ground (arith, left q b)),
      )

  pub recons_received-Reconstructs :
      (me n : ℕ) (x : Shared A) (a : Address) (shares : Store A) (v : A)
      → ((q : ℕ) → 1 ≤ q → q ≤ n → q ≢ me → shares q a ≡ some (x q))
      → recons_at me n x ≡ some v
      → Reconstructs me n (x me) a shares v
  unfolding recons_received recons_at
  recons_received-Reconstructs me zero x a shares v there e =
      let d : sv.default ≡ v = some-injective sv.default v e in
      (shares, rw d refl, λ q b. rw (none-is_taken me a q b) refl)
  recons_received-Reconstructs me (suc n) x a shares v there e =
      elim (Option-cases (recons_at me n x)) [
        | inl fails ↦ absurd (ground (arith, e, fails))
        | inr (ret, before) ↦
            let first =
              recons_received-Reconstructs me n x a shares ret
                (λ q l m o. there q l (omega arith) o) before in
            elim (ℕ_discrete (suc n) me) [
              | yes own ↦
                  let d : sv.plus ret (x (suc n)) ≡ v =
                    ground (arith, e, before, own, ==_refl me) in
                  rw (← d) (own_round me n x a shares ret own first)
              | no other ↦ elim (Option-cases (sv.parse (x (suc n)))) [
                | inl fails ↦ absurd (ground (arith, e, fails, before, ==-false (suc n) me other))
                | inr (value, parsed) ↦
                    let d : sv.plus ret value ≡ v =
                      ground (arith, e, before, ==-false (suc n) me other, parsed) in
                    rw (← d) (
                      other_round me n x a shares ret value other
                        (there (suc n) (omega arith) (omega arith) other) parsed first)
              ]
            ]
      ]

  -- Where the messages that have arrived at a party, in any order, repeated, and among others, contain the part
  -- of every other party under the address, no message of such a party under the address carries
  -- anything else, and every part parses, `recons` at the party returns what the loop over the parts
  -- gives, and takes exactly those parts out of the server.
  pub recons_received-recons_at :
      (me n : ℕ) (x : Shared A) (a : Address) (ms : List (Message A)) (v : A)
      → ((q : ℕ)
          → 1 ≤ q
          → q ≤ n
          → q ≢ me
          → In (record { party_id = q; address = a; value = x q }) ms × Carry q a (x q) ms)
      → recons_at me n x ≡ some v
      → (rest : Store A) × (recons_received me n (x me) a (arrive ms empty) ≡ returned v rest)
        × ((q : ℕ) (b : Address)
            → rest q b ≡ (if is_taken me n a q b then none else arrive ms empty q b))
  recons_received-recons_at me n x a ms v sent e =
      recons_received-Reconstructs me n x a (arrive ms empty) v
        (λ q l m o.
          let (there, carry) = sent q l m o in
          arrive_lem ms empty (record { party_id = q; address = a; value = x q }) there carry)
        e

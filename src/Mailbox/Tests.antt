-- ===== src/Mailbox/Tests.antt =====
-- Three parties; the first reconstructs.
use quick_mpc.Prelude.{
  ℕ, zero, suc, ◌+◌, ◌≤◌, ◌≢◌, ◌≡◌, refl, ap, inl, inr, none, some, List, [], ◌∷◌, arith,
  if◌then◌else◌, ◌==◌,
}
use quick_mpc.Share.{SecretValue, Shared, recons_at}
use quick_mpc.Mailbox.{
  Address, Generator, Message, Store, empty, recons_received, returned, vector_received,
  same_address,
}
use quick_mpc.Mailbox.Delivery.{arrive, In, Carry, is_taken, recons_received-recons_at}
use quick_mpc.Mailbox.Network.{Among, open_by, open-recons_at}
use quick_mpc.Mailbox.Vectors.{vector_received-recons_at}

instance unfoldable number_value : SecretValue ℕ
number_value = record {
  default = 0;
  plus = λ a b. a + b;
  minus = λ a b. a;
  times = λ a b. a;
  negate = λ a. a;
  invert = λ a. a;
  parse = λ a. some a;
}

abbrev here : Address
here = record { share_id = 4; job_id = 1; thread_id = 0 }

abbrev elsewhere : Address
elsewhere = record { share_id = 5; job_id = 1; thread_id = 0 }

abbrev parts : Shared ℕ
parts i = 10 + i

-- The third party is first, the second sends twice, and another share is between them.
abbrev arrived : List (Message ℕ)
arrived =
    record { party_id = 3; address = here; value = 13 }
    ∷ record { party_id = 2; address = here; value = 12 }
    ∷ record { party_id = 2; address = elsewhere; value = 99 }
    ∷ record { party_id = 2; address = here; value = 12 }
    ∷ []

differs : {A : Type 0} → A → elsewhere ≡ here → ◌≡◌ {A = ℕ} 99 12
differs a e =
    let ids : ◌≡◌ {A = ℕ} 5 4 = ap (λ (x : Address). x.share_id) e in absurd (omega (arith, ids))

arrived-parts :
    (q : ℕ)
    → 1 ≤ q
    → q ≤ 3
    → q ≢ 1
    → In (record { party_id = q; address = here; value = parts q }) arrived
      × Carry q here (parts q) arrived
arrived-parts zero l m o = absurd (omega (arith, l))
arrived-parts (suc zero) l m o = absurd (o refl)
arrived-parts (suc (suc zero)) l m o = (
  inr (inl refl),
  ((λ e a. absurd (omega (arith, e))), ((λ e a. refl), (differs, ((λ e a. refl), tt)))),
)
arrived-parts (suc (suc (suc zero))) l m o = (
  inl refl,
  (
    (λ e a. refl),
    (
      (λ e a. absurd (omega (arith, e))),
      ((λ e a. absurd (omega (arith, e))), ((λ e a. absurd (omega (arith, e))), tt)),
    ),
  ),
)
arrived-parts (suc (suc (suc (suc n)))) l m o = absurd (omega (arith, m))

recons_received-recons_at_example :
    (rest : Store ℕ) × (recons_received 1 3 11 here (arrive arrived empty) ≡ returned 36 rest)
    × ((q : ℕ) (b : Address)
        → rest q b ≡ (if is_taken 1 3 here q b then none else arrive arrived empty q b))
unfolding recons_at number_value
recons_received-recons_at_example =
    recons_received-recons_at 1 3 parts here arrived 36 arrived-parts refl

abbrev wrapping : Generator
wrapping = record { next_share_id = 4294967295; thread_job_id = 1 }

abbrev two_shares : List (Shared ℕ)
two_shares = parts ∷ (λ i. 20 + i) ∷ []

abbrev two_addresses : List Address
two_addresses = here ∷ elsewhere ∷ []

-- Every other party has sent its parts of both shares.
abbrev full : Store ℕ
full q a = if a.share_id == 4 then some (10 + q) else some (20 + q)

vector_received-recons_at_example :
    (rest : Store ℕ) × (vector_received 1 3 (11 ∷ 21 ∷ []) two_addresses full
      ≡ returned (36 ∷ 66 ∷ []) rest)
unfolding recons_at number_value same_address
vector_received-recons_at_example =
    vector_received-recons_at 1 3 two_shares two_addresses full (36 ∷ 66 ∷ [])
      ((refl, tt), (tt, tt)) (λ q l m o. (refl, (refl, tt))) (refl, (refl, tt))

-- The third party opens first, and twice.
abbrev openers : List ℕ
openers = 3 ∷ 2 ∷ 3 ∷ []

all-opened : (q : ℕ) → 1 ≤ q → q ≤ 3 → q ≢ 1 → Among q openers
unfolding Among
all-opened zero l m o = absurd (omega (arith, l))
all-opened (suc zero) l m o = absurd (o refl)
all-opened (suc (suc zero)) l m o = inr (inl refl)
all-opened (suc (suc (suc zero))) l m o = inl refl
all-opened (suc (suc (suc (suc n)))) l m o = absurd (omega (arith, m))

open-recons_at_example :
    (rest : Store ℕ) × (recons_received 1 3 11 here (open_by 3 openers parts here (λ q. empty) 1)
      ≡ returned 36 rest)
unfolding recons_at number_value
open-recons_at_example =
    open-recons_at 1 3 openers parts 4 1 36 (omega arith) (omega arith) all-opened refl

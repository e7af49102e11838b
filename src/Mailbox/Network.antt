-- ===== src/Mailbox/Network.antt =====
-- src/ComputationContainer/Share/Networking.hpp: `send` and `open` of one share, with the servers of
-- all parties, and what a party reconstructs after the others have opened. The threads of `open`
-- send to different servers, so one order stands for all.
use quick_mpc.Prelude.{
  ℕ, zero, suc, ◌≤◌, ◌<◌, ◌≡◌, ◌≢◌, refl, ap, ◌∙◌, ◌⊎◌, inl, inr, some, List, [], ◌∷◌, ◌==◌,
  if◌then◌else◌, arith, Bool-cases, ==_iff,
}
use quick_mpc.Share.{SecretValue, Shared, recons_at}
use quick_mpc.Mailbox.{
  Address, Message, Store, empty, make_share, exchange_share, returned, recons_received,
}
use quick_mpc.Mailbox.Delivery.{arrive, In, Carry, recons_received-recons_at}

-- The servers of the parties.
abbrev pub Network : Type 0 → Type 0
Network A = ℕ → Store A

unfoldable pub Among : ℕ → List ℕ → Type 0
Among q [] = ⊥
Among q (p ∷ openers) = (q ≡ p) ⊎ Among q openers

module _ {A : Type 0} where
  -- `send` of a share from the party `party_id` to the party `pt_id`.
  unfoldable pub send : ℕ → A → Address → ℕ → Network A → Network A
  send party_id value share_id pt_id net q =
      if q == pt_id then exchange_share (make_share value share_id party_id) (net q) else net q

  -- The loop of `open` over the parties 1 to `n`.
  unfoldable pub open_share : ℕ → ℕ → A → Address → Network A → Network A
  open_share zero party_id value share_id net = net
  open_share (suc n) party_id value share_id net =
      let before = open_share n party_id value share_id net in
      if suc n == party_id then before else send party_id value share_id (suc n) before

  -- The parties open their parts, in any order.
  unfoldable pub open_by : ℕ → List ℕ → Shared A → Address → Network A → Network A
  open_by n [] x a net = net
  open_by n (party_id ∷ openers) x a net =
      open_by n openers x a (open_share n party_id (x party_id) a net)

  -- The messages of the openings that reach the server of the party `me`.
  unfoldable sent_to : ℕ → List ℕ → Shared A → Address → List (Message A)
  sent_to me [] x a = []
  sent_to me (p ∷ openers) x a =
      let rest = sent_to me openers x a in if p == me then rest else make_share (x p) a p ∷ rest

  open_share-above :
      (n p : ℕ) (value : A) (a : Address) (net : Network A) (q : ℕ)
      → n < q
      → open_share n p value a net q ≡ net q
  unfolding open_share send
  open_share-above zero p value a net q h = refl
  open_share-above (suc n) p value a net q h =
      let before = open_share-above n p value a net q (omega arith) in
      elim (Bool-cases (suc n == p)) [
        | inl e ↦ rw (open_share, e) before
        | inr m ↦ elim (Bool-cases (q == suc n)) [
          | inl e ↦ absurd (omega (arith, (==_iff q (suc n)).0 e))
          | inr k ↦ rw (open_share, m, send, k) before
        ]
      ]

  open_share-at :
      (n p : ℕ) (value : A) (a : Address) (net : Network A) (q : ℕ)
      → 1 ≤ q
      → q ≤ n
      → open_share n p value a net q
        ≡ (if p == q then net q else exchange_share (make_share value a p) (net q))
  unfolding open_share send
  open_share-at zero p value a net q l h = absurd (omega arith)
  open_share-at (suc n) p value a net q l h =
      ground (arith, open_share-at n p value a net q l, open_share-above n p value a net q)

  open_by-arrive :
      (n : ℕ) (openers : List ℕ) (x : Shared A) (a : Address) (net : Network A) (me : ℕ)
      → 1 ≤ me
      → me ≤ n
      → open_by n openers x a net me ≡ arrive (sent_to me openers x a) (net me)
  unfolding open_by arrive sent_to
  open_by-arrive n [] x a net me l h = refl
  open_by-arrive n (p ∷ openers) x a net me l h =
      open_by-arrive n openers x a (open_share n p (x p) a net) me l h
      ∙ elim (Bool-cases (p == me)) [
        | inl e ↦ rw (open_share-at n p (x p) a net me l h, e) refl
        | inr k ↦ rw (open_share-at n p (x p) a net me l h, k) refl
      ]

  sent_to-In :
      (me q : ℕ) (openers : List ℕ) (x : Shared A) (a : Address)
      → Among q openers
      → q ≢ me
      → In (make_share (x q) a q) (sent_to me openers x a)
  unfolding sent_to Among
  sent_to-In me q [] x a there other = absurd there
  sent_to-In me q (p ∷ openers) x a there other = elim (Bool-cases (p == me)) [
    | inl e ↦ elim there [
      | inl h ↦ absurd (other (h ∙ (==_iff p me).0 e))
      | inr t ↦ rw (sent_to, e) (sent_to-In me q openers x a t other)
    ]
    | inr k ↦ elim there [
      | inl h ↦ rw (sent_to, k) (inl (ap (λ r. make_share (x r) a r) h))
      | inr t ↦ rw (sent_to, k) (inr (sent_to-In me q openers x a t other))
    ]
  ]

  sent_to-Carry :
      (me q : ℕ) (openers : List ℕ) (x : Shared A) (a b : Address)
      → Carry q b (x q) (sent_to me openers x a)
  unfolding sent_to make_share
  sent_to-Carry me q [] x a b = tt
  sent_to-Carry me q (p ∷ openers) x a b = elim (Bool-cases (p == me)) [
    | inl e ↦ rw (sent_to, e) (sent_to-Carry me q openers x a b)
    | inr n ↦ rw (sent_to, n) ((λ e f. ap x e), sent_to-Carry me q openers x a b)
  ]

-- The servers hold nothing at first, and the share has an address of thread zero. When every other
-- party has opened its part, in whatever order and however often, `recons` at a party does not wait
-- and returns what the parts of all parties come to, if that is a value.
pub open-recons_at :
    {A : Type 0} ⦃sv : SecretValue A⦄ (me n : ℕ) (openers : List ℕ) (x : Shared A)
    (share_id job_id : ℕ) (v : A)
    → 1 ≤ me
    → me ≤ n
    → ((q : ℕ) → 1 ≤ q → q ≤ n → q ≢ me → Among q openers)
    → recons_at me n x ≡ some v
    → let a : Address = record { share_id = share_id; job_id = job_id; thread_id = 0 } in
      (rest : Store A) × (recons_received me n (x me) a (open_by n openers x a (λ q. empty) me)
        ≡ returned v rest)
unfolding make_share
open-recons_at me n openers x share_id job_id v l h opened e =
    let a : Address = record { share_id = share_id; job_id = job_id; thread_id = 0 } in
    let (rest, done, left) =
      recons_received-recons_at me n x a (sent_to me openers x a) v
        (λ q m o other. (
          sent_to-In me q openers x a (opened q m o other) other,
          sent_to-Carry me q openers x a a,
        ))
        e in
    (rest, rw (open_by-arrive n openers x a (λ q. empty) me l h) done)

-- ===== src/Mailbox/Batches.antt =====
-- Batches arrive as their members would one by one.
use quick_mpc.Prelude.{
  ℕ, ◌+◌, ◌≡◌, refl, ap, ◌∙◌, inl, inr, List, [], ◌∷◌, ◌++◌, map, ltb, Bool-cases,
}
use quick_mpc.Mailbox.{
  Address, Store, set, make_share, exchange_share, exchange_list, exchange_shares, make_shares,
  make_shares_loop,
}
use quick_mpc.Mailbox.Delivery.{arrive}

module _ {A : Type 0} (bytes : A → ℕ) where
  exchange_list-append :
      (party_id : ℕ) (s t : List (Address × A)) (shares : Store A)
      → exchange_list party_id (s ++ t) shares
        ≡ exchange_list party_id t (exchange_list party_id s shares)
  unfolding exchange_list
  exchange_list-append party_id [] t shares = refl
  exchange_list-append party_id ((a, value) ∷ s) t shares =
      exchange_list-append party_id s t (set party_id a value shares)

  make_shares_loop-arrive :
      (party_id : ℕ) (values : List (A × Address)) (size : ℕ) (s : List (Address × A))
      (shares : Store A)
      → exchange_shares (make_shares_loop bytes party_id values size s) shares
        ≡ arrive (map (λ v. make_share v.0 v.1 party_id) values) (exchange_list party_id s shares)
  unfolding make_shares_loop exchange_shares exchange_list arrive make_share exchange_share
  make_shares_loop-arrive party_id [] size s shares = refl
  make_shares_loop-arrive party_id ((value, a) ∷ values) size s shares =
      elim (Bool-cases (ltb 1000000 (size + bytes value + 12 + 4))) [
        | inl large ↦
            rw (exchange_shares, make_shares_loop, large)
              (make_shares_loop-arrive party_id values (bytes value + 12) _ _)
        | inr small ↦
            rw (exchange_shares, make_shares_loop, small)
              (make_shares_loop-arrive party_id values (size + bytes value + 12) _ shares
                ∙ ap (arrive (map (λ v. make_share v.0 v.1 party_id) values)) (
                    exchange_list-append party_id s ((record a { thread_id = 0 }, value) ∷ [])
                      shares))
      ]

  -- Sending values in batches leaves the server that receives them in the state in which sending each value
  -- in a message of its own leaves it, whatever the sizes of the values.
  pub exchange_shares-make_shares :
      (values : List (A × Address)) (party_id : ℕ) (shares : Store A)
      → exchange_shares (make_shares bytes values party_id) shares
        ≡ arrive (map (λ v. make_share v.0 v.1 party_id) values) shares
  unfolding make_shares exchange_list
  exchange_shares-make_shares values party_id shares =
      make_shares_loop-arrive party_id values 0 [] shares

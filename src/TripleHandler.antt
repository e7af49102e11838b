-- ===== src/TripleHandler.antt =====
-- src/ComputationContainer/TripleHandler/TripleHandler.hpp: the queues of Beaver triples. The
-- batches that the triple service would send, in order, are a list; what it sends is an argument.
pub mod Queue
mod Tests
use quick_mpc.Prelude.{
  ℕ, zero, suc, ◌%◌, Bool, Option, none, some, List, [], ◌∷◌, ◌++◌, ltb, if◌then◌else◌, length,
}
use quick_mpc.PrimeField.{p}
use quick_mpc.Share.{Triple}

-- The queue of one thread, and the batches that later calls of `readTriples` return.
pub record Handler {ℓ} (T : Type ℓ) : Type ℓ where
  pub queue : List T
  pub batches : List (List T)

-- `convertStr2Triple` for `PrimeField`: what was sent is not read.
unfoldable pub prime_triple : ℕ → Triple ℕ
prime_triple n_parties = record { a = λ i. 1; b = λ i. 1; c = λ i. n_parties % p }

module _ {ℓ} {T : Type ℓ} where
  -- The queue below the threshold takes a batch; without a batch the service throws.
  pub refill : ℕ → List T → List (List T) → Option (Handler T)
  refill threshold queue batches =
      if ltb (length queue) threshold
      then elim batches [
        | [] ↦ none
        | batch ∷ rest ↦ some (record { queue = queue ++ batch; batches = rest })
      ]
      else some (record { queue = queue; batches = batches })

  -- `front` and `pop`; the front of an empty queue is not defined.
  pub pop_front : List T → List (List T) → Option (T × Handler T)
  pop_front [] batches = none
  pop_front (t ∷ queue) batches = some (t, record { queue = queue; batches = batches })

  pub take_out_triple : ℕ → Handler T → Option (T × Handler T)
  take_out_triple threshold h = elim (refill threshold h.queue h.batches) [
    | none ↦ none
    | some filled ↦ pop_front filled.queue filled.batches
  ]

  pub get_triple : ℕ → ℕ → Handler T → Option (List T × Handler T)
  get_triple threshold zero h = some ([], h)
  get_triple threshold (suc need_count) h = elim (take_out_triple threshold h) [
    | none ↦ none
    | some (t, h') ↦ elim (get_triple threshold need_count h') [
      | none ↦ none
      | some (ts, h'') ↦ some (t ∷ ts, h'')
    ]
  ]

-- ===== src/TripleHandler/Queue.antt =====
-- No triple is handed out twice or lost, none is missing while the service answers, and the
-- triples of `PrimeField` are triples of shares.
use mathlib.Core.List.{append_assoc, flatten}
use quick_mpc.Prelude.{
  ℕ, zero, suc, ◌%◌, ◌≤◌, ◌<◌, ◌≡◌, refl, ap, ◌∙◌, inl, inr, Option, some, List, [], ◌∷◌, ◌++◌,
  arith, ltb, length, length-append, Bool-cases,
}
use quick_mpc.PrimeField.{p}
use quick_mpc.PrimeField.Ring.{field}
use quick_mpc.Share.Recons.{recons-constant}
use quick_mpc.Share.Beaver.{IsTriple}
use quick_mpc.TripleHandler.{Handler, prime_triple, refill, pop_front, take_out_triple, get_triple}

module _ {ℓ} {T : Type ℓ} where
  -- All triples that are still to be handed out, oldest first.
  abbrev pub pending : Handler T → List T
  pending h = h.queue ++ flatten h.batches

  -- Every batch has at least the size of the threshold, and there are that many.
  abbrev pub Supplies : ℕ → ℕ → List (List T) → Type 0
  Supplies threshold zero batches = Unit {0}
  Supplies threshold (suc count) [] = ⊥
  Supplies threshold (suc count) (b ∷ bs) = (threshold ≤ length b) × Supplies threshold count bs

  Supplies-pred :
      (threshold count : ℕ) (batches : List (List T))
      → Supplies threshold (suc count) batches
      → Supplies threshold count batches
  Supplies-pred threshold zero batches s = tt
  Supplies-pred threshold (suc count) [] s = s
  Supplies-pred threshold (suc count) (b ∷ bs) s = (s.0, Supplies-pred threshold count bs s.1)

  -- What one call of `takeOutTriple` does while the service supplies batches.
  abbrev Takes : ℕ → ℕ → List T → Option (T × Handler T) → Type ℓ
  Takes threshold count stock r =
      (t : T) × (h' : Handler T) × (r ≡ some (t, h'))
      × (stock ≡ t ∷ pending h')
      × Supplies threshold count h'.batches

  pop_front-Takes :
      (threshold count : ℕ) (queue : List T) (batches : List (List T))
      → 0 < length queue
      → Supplies threshold count batches
      → Takes threshold count (queue ++ flatten batches) (pop_front queue batches)
  unfolding pop_front
  pop_front-Takes threshold count [] batches h s = absurd (omega arith)
  pop_front-Takes threshold count (t ∷ queue) batches h s =
      (t, record { queue = queue; batches = batches }, refl, refl, s)

  take_out-Takes :
      (threshold count : ℕ) (queue : List T) (batches : List (List T))
      → 0 < threshold
      → Supplies threshold (suc count) batches
      → Takes threshold count
          (queue ++ flatten batches)
          (take_out_triple threshold (record { queue = queue; batches = batches }))
  unfolding take_out_triple refill flatten
  take_out-Takes threshold count queue [] h s = absurd s
  take_out-Takes threshold count queue (b ∷ bs) h s =
      elim (Bool-cases (ltb (length queue) threshold)) [
        | inl short ↦
            rw (short, take_out_triple, refill)
              (rw (← append_assoc queue b (flatten bs)) (
                pop_front-Takes threshold count (queue ++ b) bs
                  (omega (arith, s.0, length-append queue b)) s.1))
        | inr enough ↦
            rw (enough, take_out_triple, refill)
              (pop_front-Takes threshold count queue (b ∷ bs) (ground arith)
                (Supplies-pred threshold count (b ∷ bs) s))
      ]

  -- Where the threshold is positive and the service sends a batch of at least the threshold
  -- for each triple that is asked for, the call returns that many triples, in the order of the
  -- queue and of the batches, and the triples returned and those still pending are the ones
  -- that were pending before.
  pub get_triple_lem :
      (threshold need_count : ℕ) (h : Handler T)
      → 0 < threshold
      → Supplies threshold need_count h.batches
      → (ts : List T) × (h' : Handler T) × (get_triple threshold need_count h ≡ some (ts, h'))
        × (length ts ≡ need_count)
        × (pending h ≡ ts ++ pending h')
  unfolding get_triple
  get_triple_lem threshold zero h pos s = ([], h, refl, refl, refl)
  get_triple_lem threshold (suc need_count) h pos s =
      let (t, h', e, kept, s') = take_out-Takes threshold need_count h.queue h.batches pos s in
      let (ts, h'', e', len, kept') = get_triple_lem threshold need_count h' pos s' in
      (t ∷ ts, h'', rw (e, e', get_triple), ap suc len, kept ∙ ap (◌∷◌ t) kept')

-- The constant parts that the handler puts for `PrimeField` reconstruct to a product, for any
-- number of parties.
pub prime_triple-IsTriple : (n : ℕ) → IsTriple n (prime_triple n)
unfolding prime_triple
prime_triple-IsTriple n = record {
  valid_a = λ i. omega arith;
  valid_b = λ i. omega arith;
  product = rw (recons-constant n (n % p), recons-constant n 1) (simp field (omega arith));
}

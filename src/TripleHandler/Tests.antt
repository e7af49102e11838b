-- ===== src/TripleHandler/Tests.antt =====
-- The theorems about the triple handler at concrete queues.
use quick_mpc.Prelude.{ℕ, ◌≡◌, refl, some, List, [], ◌∷◌, ◌++◌, arith, length}
use quick_mpc.Share.Beaver.{IsTriple}
use quick_mpc.TripleHandler.{Handler, prime_triple, get_triple, take_out_triple, refill, pop_front}
use quick_mpc.TripleHandler.Queue.{pending, get_triple_lem, prime_triple-IsTriple}

-- One triple is left, and two batches of two are on the way.
abbrev low : Handler ℕ
low = record { queue = 1 ∷ []; batches = (2 ∷ 3 ∷ []) ∷ (4 ∷ 5 ∷ []) ∷ [] }

get_triple_lem_example :
    (ts : List ℕ) × (h' : Handler ℕ) × (get_triple 2 2 low ≡ some (ts, h'))
    × (length ts ≡ 2)
    × (pending low ≡ ts ++ pending h')
get_triple_lem_example = get_triple_lem 2 2 low (omega arith) (omega arith)

get_triple_runs :
    get_triple 2 2 low ≡ some (1 ∷ 2 ∷ [], record { queue = 3 ∷ []; batches = (4 ∷ 5 ∷ []) ∷ [] })
unfolding get_triple take_out_triple refill pop_front
get_triple_runs = refl

prime_triple-IsTriple_example : IsTriple 3 (prime_triple 3)
prime_triple-IsTriple_example = prime_triple-IsTriple 3

-- ===== src/TransactionQueue/Laws.antt =====
-- When a call of the queue returns.
use quick_mpc.Prelude.{ℕ, ◌<◌, ◌≡◌, refl, none, some, List, [], ◌∷◌, ◌++◌, arith, length}
use quick_mpc.TransactionQueue.{pop, push}

pub pop-cons :
    {T : Type 0} (q : List T) (t : T) (rest : List T) → pop q ≡ some (t, rest) → q ≡ t ∷ rest
unfolding pop
pop-cons [] t rest e = absurd (ground (arith, e))
pop-cons (x ∷ q) t rest e = ground (arith, e)

pub push-fits :
    {T : Type 0} (max_size : ℕ) (t : T) (q : List T)
    → length q < max_size
    → push max_size t q ≡ some (q ++ t ∷ [])
unfolding push
push-fits max_size t q h = ground arith

pub pop-none : {T : Type 0} (q : List T) → pop q ≡ none → q ≡ []
unfolding pop
pop-none [] e = refl
pop-none (x ∷ q) e = absurd (ground (arith, e))

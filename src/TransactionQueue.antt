-- ===== src/TransactionQueue.antt =====
-- src/ComputationContainer/TransactionQueue/TransactionQueue.hpp: a queue that threads share. `none` is a
-- thread that waits; the lock makes one call one step.
pub mod Laws
use quick_mpc.Prelude.{ℕ, Option, none, some, List, [], ◌∷◌, ◌++◌, ltb, if◌then◌else◌, length}

-- The value of `max_size` where `setMax` is not called.
abbrev pub default_max_size : ℕ
default_max_size = 5000

module _ {T : Type 0} where
  unfoldable pub pop : List T → Option (T × List T)
  pop [] = none
  pop (t ∷ q) = some (t, q)

  unfoldable pub push : ℕ → T → List T → Option (List T)
  push max_size t q = if ltb (length q) max_size then some (q ++ t ∷ []) else none

-- ===== src/Compare/Bits.antt =====
-- Lists of bits, and shares that open to them.
use quick_mpc.Prelude.{
  ℕ, suc, ◌≤◌, ◌≡◌, refl, ◌∙◌, Bool, true, false, ◌&&◌, ◌||◌, List, [], ◌∷◌, arith, ◌==◌,
  if◌then◌else◌, length,
}
use quick_mpc.Share.{Config, Shared}
use quick_mpc.Compare.{opened}

abbrev pub bit : Bool → ℕ
bit b = if b then 1 else 0

-- How many bits are set.
unfoldable pub count : List Bool → ℕ
count [] = 0
count (true ∷ bs) = suc (count bs)
count (false ∷ bs) = count bs

pub count-le : (bs : List Bool) → count bs ≤ length bs
unfolding count
count-le [] = omega arith
count-le (true ∷ bs) = omega (arith, count-le bs)
count-le (false ∷ bs) = omega (arith, count-le bs)

unfoldable pub any_set : List Bool → Bool
any_set [] = false
any_set (b ∷ bs) = b || any_set bs

unfoldable pub all_set : List Bool → Bool
all_set [] = true
all_set (b ∷ bs) = b && all_set bs

pub any_set-count : (bs : List Bool) → bit (any_set bs) ≡ (if count bs == 0 then 0 else 1)
unfolding any_set count
any_set-count [] = refl
any_set-count (true ∷ bs) = ground arith
any_set-count (false ∷ bs) = any_set-count bs

pub all_set-count : (bs : List Bool) → bit (all_set bs) ≡ (if count bs == length bs then 1 else 0)
unfolding all_set count
all_set-count [] = refl
all_set-count (true ∷ bs) = all_set-count bs ∙ ground arith
all_set-count (false ∷ bs) = ground (arith, count-le bs)

-- The shares open to the bits.
unfoldable pub OpenTo : Config → List (Shared ℕ) → List Bool → Type 0
OpenTo conf [] [] = Unit {0}
OpenTo conf [] (b ∷ bs) = ⊥
OpenTo conf (x ∷ xs) [] = ⊥
OpenTo conf (x ∷ xs) (b ∷ bs) = (opened conf x ≡ bit b) × OpenTo conf xs bs

-- ===== src/Compare/Bitwise/Tables.antt =====
-- Shares that are stored by the loops of the protocols: the fan-in protocol and sums over them, and
-- the differences of neighbours.
use quick_mpc.Prelude.{
  ℕ, zero, suc, ◌+◌, ◌-◌, ◌*◌, ◌%◌, ◌≤◌, ◌<◌, ◌≡◌, ◌≢◌, refl, sym, ap, ◌∙◌, inl, inr, Bool, true,
  false, not, ◌&&◌, ◌||◌, List, [], ◌∷◌, arith, ltb, ◌==◌, if◌then◌else◌, length, Bool-cases, table,
  get_or, get_or-table, length-table,
}
use quick_mpc.PrimeField
use quick_mpc.PrimeField.{p, l, lambda}
use quick_mpc.Share.{Config, Shared, add, sub}
use quick_mpc.Share.PrimeValue.{prime_value, IsValid}
use quick_mpc.Share.Recons.{HasSp}
use quick_mpc.Compare.{opened, zero_share, sum_from, unbounded_fan_in_or}
use quick_mpc.Compare.Bits.{bit, OpenTo}
use quick_mpc.Compare.FanIn.{AreInvertible, unbounded_fan_in_or_lem}
use quick_mpc.Compare.Laws.{opened-lt, opened-add, opened-sub, opened_zero}
use quick_mpc.Compare.Bitwise.{entry, steps}
use quick_mpc.Compare.Bitwise.Disjunction.{
  any_below, is_first, any_below-guard, any_set-table, any_below-cong, any_below-false,
  any_below-only, first_cases,
}

pub OpenTo-table :
    (conf : Config) (n k : ℕ) (g : ℕ → Shared ℕ) (h : ℕ → Bool)
    → ((i : ℕ) → i < n → opened conf (g (k + i)) ≡ bit (h (k + i)))
    → OpenTo conf (table n k g) (table n k h)
unfolding OpenTo
OpenTo-table conf zero k g h e = tt
OpenTo-table conf (suc n) k g h e = (
  ap (λ (t : ℕ). opened conf (g t)) (omega arith)
      ∙ e 0 (omega arith)
      ∙ ap (λ (t : ℕ). bit (h t)) (omega arith),
  OpenTo-table conf n (k + 1) g h (λ i lt.
      ap (λ (t : ℕ). opened conf (g t)) (omega arith)
      ∙ e (suc i) (omega arith)
      ∙ ap (λ (t : ℕ). bit (h t)) (omega arith)),
)

-- An entry of shares that open to bits, out of range too.
pub opened-entry :
    (conf : Config) (xs : List (Shared ℕ)) (bs : List Bool) (i : ℕ)
    → OpenTo conf xs bs
    → opened conf (entry xs i) ≡ bit (get_or bs i false)
unfolding OpenTo
opened-entry conf [] [] i h = opened_zero conf
opened-entry conf [] (b ∷ bs) i h = absurd h
opened-entry conf (x ∷ xs) [] i h = absurd h
opened-entry conf (x ∷ xs) (b ∷ bs) zero h = h.0
opened-entry conf (x ∷ xs) (b ∷ bs) (suc i) h = opened-entry conf xs bs i h.1

pub entry-IsValid :
    (n k : ℕ) (g : ℕ → Shared ℕ) (i : ℕ)
    → ((t : ℕ) → IsValid (g t))
    → IsValid (entry (table n k g) i)
entry-IsValid zero k g i v = λ j. omega arith
entry-IsValid (suc n) k g zero v = v k
entry-IsValid (suc n) k g (suc i) v = entry-IsValid n (k + 1) g i v

-- A sum of which one term at most is not zero.
pub total : ℕ → ℕ → (ℕ → ℕ) → ℕ
total zero k h = 0
total (suc n) k h = h k + total n (k + 1) h

pub total-zero : (n k : ℕ) (h : ℕ → ℕ) → ((i : ℕ) → k ≤ i → i < k + n → h i ≡ 0) → total n k h ≡ 0
unfolding total
total-zero zero k h e = refl
total-zero (suc n) k h e =
    rw
      (
        total-zero n (k + 1) h (λ i ge lt. e i (omega arith) (omega arith)),
        e k (omega arith) (omega arith),
      )
      (omega arith)

pub total-only :
    (n k : ℕ) (h : ℕ → ℕ) (i : ℕ)
    → k ≤ i
    → i < k + n
    → ((t : ℕ) → t < k + n → t ≢ i → h t ≡ 0)
    → total n k h ≡ h i
unfolding total
total-only zero k h i ge lt e = absurd (omega arith)
total-only (suc n) k h i ge lt e = elim (Bool-cases (i == k)) [
  | inl here ↦
      let at_k : i ≡ k = ground arith in
      let rest = total-zero n (k + 1) h (λ t from below. e t (omega arith) (omega arith)) in
      rw at_k (omega (arith, rest))
  | inr later ↦
      let first : h k ≡ 0 = e k (omega arith) (ground arith) in
      let rest =
        total-only n (k + 1) h i (ground arith) (omega arith)
          (λ t below ne. e t (omega arith) ne) in
      omega (arith, first, rest)
]

-- A sum of bits of which one at most is set is their disjunction.
pub total-bits :
    (n : ℕ) (v : ℕ → ℕ) (m : ℕ → Bool)
    → ((i : ℕ) → i < n → v i ≡ bit (m i))
    → ((i k : ℕ) → m i ≡ true → k ≢ i → m k ≡ false)
    → total n 0 v ≡ bit (any_below n m)
total-bits n v m e only = elim (first_cases n m) [
  | inl none_set ↦
      total-zero n 0 v
        (λ i ge lt. e i (omega arith) ∙ ap bit (any_below-false n m i none_set (omega arith)))
      ∙ ap bit (sym none_set)
  | inr found ↦
      total-only n 0 v (found.0) (omega arith) (omega arith)
        (λ t lt ne. e t (omega arith) ∙ ap bit (only (found.0) t (found.2) ne))
      ∙ e (found.0) (found.1)
      ∙ ap bit
          (sym (any_below-only n m (found.0) (found.1) (λ k lt ne. only (found.0) k (found.2) ne)))
]

pub opened-sum_table :
    (conf : Config) (ret : Shared ℕ) (n k : ℕ) (g : ℕ → Shared ℕ)
    → opened conf (sum_from ret (table n k g))
      ≡ (opened conf ret + total n k (λ i. opened conf (g i))) % p
unfolding sum_from total
opened-sum_table conf ret zero k g = omega (arith, opened-lt conf ret)
opened-sum_table conf ret (suc n) k g =
    opened-sum_table conf (add ret (g k)) n (k + 1) g ∙ rw (opened-add conf ret (g k)) (omega arith)

and_true : (b : Bool) → b ≡ (b && true)
and_true true = refl
and_true false = refl

difference_bits :
    (a b : Bool) → (bit (a || b) + 18446744073709551556 * bit a) % p ≡ bit (b && not a)
difference_bits true true = refl
difference_bits true false = refl
difference_bits false true = refl
difference_bits false false = refl

-- Differences of neighbours in a growing disjunction mark the first bit that is set.
pub steps_lem :
    (conf : Config) (n : ℕ) (first : Shared ℕ) (ys : List (Shared ℕ)) (h : ℕ → Bool) (i : ℕ)
    → ((k : ℕ) → k < n → IsValid (entry ys k))
    → opened conf first ≡ bit (h 0)
    → ((k : ℕ) → k < n → opened conf (entry ys k) ≡ bit (any_below (k + 1) h))
    → i < n
    → opened conf (entry (steps n first ys) i) ≡ bit (is_first h i)
unfolding steps is_first any_below
steps_lem conf n first ys h zero v e0 e lt =
    rw
      (get_or-table n 0 0 (λ t. if t == 0 then first else sub (entry ys t) (entry ys (t - 1)))
        zero_share lt)
      (e0 ∙ ap bit (and_true (h 0)))
steps_lem conf n first ys h (suc i) v e0 e lt =
    let at : 0 + suc i ≡ suc i = omega arith in
    let not_zero : (suc i == 0) ≡ false = ground arith in
    let next : suc i + 1 ≡ suc (suc i) = omega arith in
    let here : i + 1 ≡ suc i = omega arith in
    let before : suc i - 1 ≡ i = omega arith in
    rw
      (
        get_or-table n 0 (suc i)
            (λ t. if t == 0 then first else sub (entry ys t) (entry ys (t - 1))) zero_share lt,
        at,
        not_zero,
        before,
        opened-sub conf (entry ys (suc i)) (entry ys i) (v i (omega arith)),
        e (suc i) lt,
        e i (omega arith),
      )
      (rw (next, here) (difference_bits (any_below (suc i) h) (h (suc i))))

module _ (conf : Config) (sp : HasSp conf conf.n_parties)
    (fermat : PrimeField.modpow conf.n_parties (p - 1) ≡ 1) where
  pub or-table :
      (draws : List (Shared ℕ × Shared ℕ)) (g : ℕ → Shared ℕ) (h : ℕ → Bool)
      → AreInvertible conf draws
      → length draws ≡ 64
      → ((i : ℕ) → i < 64 → opened conf (g i) ≡ bit (h i))
      → opened conf (unbounded_fan_in_or conf draws (table 64 0 g)) ≡ bit (any_below 64 h)
  or-table draws g h inv len e =
      unbounded_fan_in_or_lem conf draws (table 64 0 g) (table 64 0 h) sp fermat inv len
        (OpenTo-table conf 64 0 g h (λ i lt. let at : 0 + i ≡ i = omega arith in rw at (e i lt)))
        (length-table 64 0 h)
      ∙ ap bit (any_set-table 64 0 h ∙ any_below-cong 64 _ h (λ i lt. ap h (omega arith)))

  -- Entries from `n` on are replaced by zero.
  pub or-guarded :
      (draws : List (Shared ℕ × Shared ℕ)) (n : ℕ) (g : ℕ → Shared ℕ) (h : ℕ → Bool)
      → AreInvertible conf draws
      → length draws ≡ 64
      → n ≤ 64
      → ((i : ℕ) → i < n → opened conf (g i) ≡ bit (h i))
      → opened conf
          (unbounded_fan_in_or conf draws (table 64 0 (λ j. if ltb j n then g j else zero_share)))
        ≡ bit (any_below n h)
  or-guarded draws n g h inv len le e =
      or-table draws (λ j. if ltb j n then g j else zero_share) (λ j. ltb j n && h j) inv len
        (λ j lt. elim (Bool-cases (ltb j n)) [
          | inl inside ↦ rw inside (e j (ground arith))
          | inr outside ↦ rw outside (opened_zero conf)
        ])
      ∙ ap bit (any_below-guard n 64 h le)

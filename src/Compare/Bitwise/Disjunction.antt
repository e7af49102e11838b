-- ===== src/Compare/Bitwise/Disjunction.antt =====
-- The disjunction of the first bits of a sequence, and the first bit that is set: what the two
-- levels of `subPrefixOr` rest on.
use quick_mpc.Prelude.{
  ℕ, zero, suc, ◌+◌, ◌-◌, ◌*◌, ◌≤◌, ◌<◌, ◌≡◌, ◌≢◌, refl, ap, ap₂, ◌∙◌, inl, inr, ◌⊎◌, Bool, true,
  false, not, ◌&&◌, ◌||◌, arith, ltb, ◌==◌, Bool-cases, table,
}
use quick_mpc.Compare.Bits.{any_set}

unfoldable pub any_below : ℕ → (ℕ → Bool) → Bool
any_below zero h = false
any_below (suc n) h = any_below n h || h n

-- Is bit `i` the first that is set?
unfoldable pub is_first : (ℕ → Bool) → ℕ → Bool
is_first h i = h i && not (any_below i h)

or_assoc : (a b c : Bool) → ((a || b) || c) ≡ (a || (b || c))
or_assoc true b c = refl
or_assoc false b c = refl

pub any_below-cong :
    (n : ℕ) (h k : ℕ → Bool) → ((i : ℕ) → i < n → h i ≡ k i) → any_below n h ≡ any_below n k
unfolding any_below
any_below-cong zero h k e = refl
any_below-cong (suc n) h k e =
    ap₂ ◌||◌ (any_below-cong n h k (λ i lt. e i (omega arith))) (e n (omega arith))

pub any_below-add :
    (m n : ℕ) (h : ℕ → Bool) → any_below (m + n) h ≡ (any_below m h || any_below n (λ t. h (m + t)))
unfolding any_below
any_below-add m zero h = let e : m + 0 ≡ m = omega arith in rw e (ground arith)
any_below-add m (suc n) h =
    let e : m + suc n ≡ suc (m + n) = omega arith in
    rw (e, any_below-add m n h)
      (or_assoc (any_below m h) (any_below n (λ t. h (m + t))) (h (m + n)))

-- Row by row.
pub any_below-rows :
    (n : ℕ) (h : ℕ → Bool)
    → any_below (n * 8) h ≡ any_below n (λ i. any_below 8 (λ j. h (i * 8 + j)))
unfolding any_below
any_below-rows zero h = refl
any_below-rows (suc n) h =
    let e : suc n * 8 ≡ n * 8 + 8 = omega arith in
    rw (e, any_below-add (n * 8) 8 h, any_below-rows n h) refl

pub any_below-false : (n : ℕ) (h : ℕ → Bool) (i : ℕ) → any_below n h ≡ false → i < n → h i ≡ false
unfolding any_below
any_below-false zero h i e lt = absurd (omega arith)
any_below-false (suc n) h i e lt = elim (Bool-cases (i == n)) [
  | inl here ↦ let at_n : i ≡ n = ground arith in rw at_n (ground arith)
  | inr other ↦ any_below-false n h i (ground arith) (ground arith)
]

pub any_below-none :
    (n : ℕ) (h : ℕ → Bool) → ((i : ℕ) → i < n → h i ≡ false) → any_below n h ≡ false
unfolding any_below
any_below-none zero h e = refl
any_below-none (suc n) h e =
    rw (any_below-none n h (λ i lt. e i (omega arith)), e n (omega arith)) refl

-- Where only one bit can be set, the disjunction is that bit.
pub any_below-only :
    (n : ℕ) (h : ℕ → Bool) (i : ℕ)
    → i < n
    → ((k : ℕ) → k < n → k ≢ i → h k ≡ false)
    → any_below n h ≡ h i
unfolding any_below
any_below-only zero h i lt e = absurd (omega arith)
any_below-only (suc n) h i lt e = elim (Bool-cases (i == n)) [
  | inl here ↦
      let at_n : i ≡ n = ground arith in
      rw (at_n, any_below-none n h (λ k below. e k (omega arith) (omega arith))) refl
  | inr other ↦
      let rest = any_below-only n h i (ground arith) (λ k below ne. e k (omega arith) ne) in
      let last = e n (omega arith) (ground arith) in rw (rest, last) (ground arith)
]

-- Bits that are read only below `n`.
pub any_below-guard :
    (n m : ℕ) (h : ℕ → Bool) → n ≤ m → any_below m (λ j. ltb j n && h j) ≡ any_below n h
any_below-guard n m h le =
    let e : m ≡ n + (m - n) = omega arith in
    rw (ap (λ (t : ℕ). any_below t (λ j. ltb j n && h j)) e) (
      any_below-add n (m - n) (λ j. ltb j n && h j)
      ∙ rw
          (
            any_below-cong n (λ j. ltb j n && h j) h (λ i lt. ground arith),
            any_below-none (m - n) (λ t. ltb (n + t) n && h (n + t)) (λ i lt. ground arith),
          )
          (ground arith))

pub any_set-table : (n k : ℕ) (h : ℕ → Bool) → any_set (table n k h) ≡ any_below n (λ t. h (k + t))
unfolding any_set any_below
any_set-table zero k h = refl
any_set-table (suc n) k h =
    let e : suc n ≡ 1 + n = omega arith in
    rw
      (
        any_set-table n (k + 1) h,
        ap (λ (t : ℕ). any_below t (λ t. h (k + t))) e,
        any_below-add 1 n (λ t. h (k + t)),
      )
      (ap₂ ◌||◌ (ap h (omega arith)) (any_below-cong n _ _ (λ i lt. ap h (omega arith))))

-- Either no bit is set, or there is a first.
pub first_cases :
    (n : ℕ) (h : ℕ → Bool)
    → (any_below n h ≡ false) ⊎ ((i : ℕ) × (i < n) × (h i ≡ true) × (any_below i h ≡ false))
unfolding any_below
first_cases zero h = inl refl
first_cases (suc n) h = elim (first_cases n h) [
  | inl none_yet ↦ elim (Bool-cases (h n)) [
    | inl set ↦ inr (n, omega arith, set, none_yet)
    | inr unset ↦ inl (rw (none_yet, unset) refl)
  ]
  | inr found ↦ inr (found.0, omega arith, found.2, found.3)
]

is_first-other :
    (h : ℕ → Bool) (i k : ℕ) → h i ≡ true → any_below i h ≡ false → k ≢ i → is_first h k ≡ false
unfolding is_first
is_first-other h i k set none_before ne = elim (Bool-cases (ltb k i)) [
  | inl before ↦ rw (any_below-false i h k none_before (ground arith)) refl
  | inr after ↦ elim (Bool-cases (any_below k h)) [
    | inl some_before ↦ rw some_before (ground arith)
    | inr none_there ↦ absurd (ground (arith, any_below-false k h i none_there (ground arith)))
  ]
]

-- There is only one first bit.
pub first_unique : (h : ℕ → Bool) (i k : ℕ) → is_first h i ≡ true → k ≢ i → is_first h k ≡ false
unfolding is_first
first_unique h i k e ne = is_first-other h i k (ground (arith, e)) (ground (arith, e)) ne

pub first_unique_and :
    (h c : ℕ → Bool) (i k : ℕ)
    → (is_first h i && c i) ≡ true
    → k ≢ i
    → (is_first h k && c k) ≡ false
first_unique_and h c i k e ne =
    let only : is_first h k ≡ false = first_unique h i k (ground (arith, e)) ne in rw only refl

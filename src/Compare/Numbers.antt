-- ===== src/Compare/Numbers.antt =====
-- Shared bits and shared numbers: `BStoSC`, `PFtoBS` and the end of `subHalfLessThan`, of
-- `comparisonTest` and of `equalityTest`.
use native.Mathlib.Nat.{pow-suc}
use mathlib.Core.Path.{fun_ext}
use mathlib.Core.List.{reverse, reverse_aux, reverse_aux-eq, reverse-reverse}
use quick_mpc.Prelude.{
  ℕ, zero, suc, ◌+◌, ◌*◌, ◌/◌, ◌%◌, ◌^◌, ◌<◌, ◌≡◌, refl, sym, ap, ◌∙◌, inl, inr, Bool, List, [],
  ◌∷◌, ◌++◌, arith, ◌==◌, length, Bool-cases,
}
use quick_mpc.PrimeField
use quick_mpc.PrimeField.{p, l}
use quick_mpc.PrimeField.Ring.{field, mod-mul, add-mod, sub_eq}
use quick_mpc.Share.{Config, Shared, add, scale, add_public, sharize}
use quick_mpc.Share.PrimeValue.{prime_value}
use quick_mpc.Share.Recons.{HasSp}
use quick_mpc.Compare.{opened, zero_share, bs_to_sc_loop, bs_to_sc, bit_share, pf_to_bs}
use quick_mpc.Compare.Bits.{bit, OpenTo}
use quick_mpc.Compare.Laws.{
  opened-lt, opened-add, opened-scale, opened_zero, opened-add_public, opened-sharize,
}

-- The number that bits stand for, the lowest first.
unfoldable pub number : List Bool → ℕ
number [] = 0
number (b ∷ bs) = bit b + 2 * number bs

shift_coef : (x b coef n : ℕ) → (x + b * coef + coef * 2 % p * n) % p ≡ (x + coef * (b + 2 * n)) % p
shift_coef x b coef n =
    sym (add-mod (coef * 2 % p * n) (x + b * coef))
    ∙ ap (λ (t : ℕ). (x + b * coef + t) % p) (mod-mul (coef * 2) n)
    ∙ add-mod (coef * 2 * n) (x + b * coef)
    ∙ ap (λ (t : ℕ). t % p) (omega arith)

bs_to_sc_loop_lem :
    (conf : Config) (ret : Shared ℕ) (coef : ℕ) (xs : List (Shared ℕ)) (bs : List Bool)
    → OpenTo conf xs bs
    → opened conf (bs_to_sc_loop ret coef xs) ≡ (opened conf ret + coef * number bs) % p
unfolding bs_to_sc_loop OpenTo number
bs_to_sc_loop_lem conf ret coef [] [] h = omega (arith, opened-lt conf ret)
bs_to_sc_loop_lem conf ret coef [] (b ∷ bs) h = absurd h
bs_to_sc_loop_lem conf ret coef (x ∷ xs) [] h = absurd h
bs_to_sc_loop_lem conf ret coef (x ∷ xs) (b ∷ bs) h =
    bs_to_sc_loop_lem conf (add ret (scale x coef)) (PrimeField.mul coef 2) xs bs h.1
    ∙ rw (opened-add conf ret (scale x coef), opened-scale conf x coef, h.0)
        (simp field (shift_coef (opened conf ret) (bit b) coef (number bs)))

OpenTo-reverse_aux :
    (conf : Config) (xs ys : List (Shared ℕ)) (bs cs : List Bool)
    → OpenTo conf xs bs
    → OpenTo conf ys cs
    → OpenTo conf (reverse_aux xs ys) (reverse_aux bs cs)
unfolding OpenTo
OpenTo-reverse_aux conf [] ys [] cs h k = k
OpenTo-reverse_aux conf [] ys (b ∷ bs) cs h k = absurd h
OpenTo-reverse_aux conf (x ∷ xs) ys [] cs h k = absurd h
OpenTo-reverse_aux conf (x ∷ xs) ys (b ∷ bs) cs h k =
    OpenTo-reverse_aux conf xs (x ∷ ys) bs (b ∷ cs) h.1 (h.0, k)

pub OpenTo-reverse :
    (conf : Config) (xs : List (Shared ℕ)) (bs : List Bool)
    → OpenTo conf xs bs
    → OpenTo conf (reverse xs) (reverse bs)
unfolding OpenTo
OpenTo-reverse conf xs bs h = OpenTo-reverse_aux conf xs [] bs [] h tt

-- `BStoSC` of shared bits, the highest first, opens to their number.
pub bs_to_sc_lem :
    (conf : Config) (xs : List (Shared ℕ)) (bs : List Bool)
    → OpenTo conf xs bs
    → opened conf (bs_to_sc xs) ≡ number (reverse bs) % p
unfolding bs_to_sc
bs_to_sc_lem conf xs bs h =
    bs_to_sc_loop_lem conf zero_share 1 (reverse xs) (reverse bs) (OpenTo-reverse conf xs bs h)
    ∙ rw (opened_zero conf) (ap (λ (t : ℕ). t % p) (omega arith))

-- The bits of a number, the lowest first.
pub bits : ℕ → ℕ → List Bool
bits zero y = []
bits (suc n) y = (y % 2 == 1) ∷ bits n (y / 2)

pub number-bits : (n y : ℕ) → y < 2 ^ n → number (bits n y) ≡ y
unfolding number bits
number-bits zero y h = omega arith
number-bits (suc n) y h = rw (number-bits n (y / 2) (omega (arith, pow-suc 2 n))) (ground arith)

pub length-bits : (n y : ℕ) → length (bits n y) ≡ n
unfolding bits
length-bits zero y = refl
length-bits (suc n) y = omega (arith, length-bits n (y / 2))

bit_share_eq :
    (conf : Config) (y r : ℕ) (drawn : Shared ℕ) (i : ℕ)
    → bit_share conf y (r, drawn) i
      ≡ add_public conf (sharize conf drawn r) (PrimeField.sub (y % 2) r) i
unfolding bit_share add_public PrimeField.add
bit_share_eq conf y r drawn i = elim (Bool-cases (i == conf.sp_id)) [
  | inl here ↦ rw here (ap (λ (t : ℕ). t % p) (omega arith))
  | inr other ↦ rw other refl
]

-- The share of a bit opens to it, whatever is drawn.
bit_share_lem :
    (conf : Config) (y r : ℕ) (drawn : Shared ℕ)
    → HasSp conf conf.n_parties
    → r < p
    → opened conf (bit_share conf y (r, drawn)) ≡ bit (y % 2 == 1)
bit_share_lem conf y r drawn sp hr =
    ap (opened conf) (fun_ext (bit_share_eq conf y r drawn))
    ∙ opened-add_public conf sp (sharize conf drawn r) (PrimeField.sub (y % 2) r)
    ∙ rw (opened-sharize conf drawn r sp, sub_eq (y % 2) r (omega arith)) (ground arith)

-- What the party `sp_id` draws for the bits is in the field.
unfoldable pub AreCanonical : List (ℕ × Shared ℕ) → Type 0
AreCanonical [] = Unit {0}
AreCanonical ((r, drawn) ∷ draws) = (r < p) × AreCanonical draws

OpenTo-snoc :
    (conf : Config) (xs : List (Shared ℕ)) (bs : List Bool) (x : Shared ℕ) (b : Bool)
    → OpenTo conf xs bs
    → opened conf x ≡ bit b
    → OpenTo conf (xs ++ x ∷ []) (bs ++ b ∷ [])
unfolding OpenTo
OpenTo-snoc conf [] [] x b h e = (e, tt)
OpenTo-snoc conf [] (c ∷ bs) x b h e = absurd h
OpenTo-snoc conf (y ∷ xs) [] x b h e = absurd h
OpenTo-snoc conf (y ∷ xs) (c ∷ bs) x b h e = (h.0, OpenTo-snoc conf xs bs x b h.1 e)

-- `PFtoBS`: the shares open to the bits of the number, the highest first.
pub pf_to_bs_lem :
    (conf : Config) (y : ℕ) (draws : List (ℕ × Shared ℕ))
    → HasSp conf conf.n_parties
    → AreCanonical draws
    → OpenTo conf (pf_to_bs conf y draws) (reverse (bits (length draws) y))
unfolding pf_to_bs OpenTo AreCanonical bits
pf_to_bs_lem conf y [] sp ok = tt
pf_to_bs_lem conf y ((r, drawn) ∷ draws) sp ok =
    rw (reverse_aux-eq (bits (length draws) (y / 2)) ((y % 2 == 1) ∷ [])) (
      OpenTo-snoc conf (pf_to_bs conf (y / 2) draws) (reverse (bits (length draws) (y / 2)))
        (bit_share conf y (r, drawn)) (y % 2 == 1) (pf_to_bs_lem conf (y / 2) draws sp ok.1)
        (bit_share_lem conf y r drawn sp ok.0))

-- Decomposing a number of the field into 64 shared bits by `PFtoBS` and composing them by
-- `BStoSC` opens to the number, where the party `sp_id` is one of the parties and the random
-- numbers that it draws for the bits are below the order of the field.
pub bs_to_sc-pf_to_bs :
    (conf : Config) (y : ℕ) (draws : List (ℕ × Shared ℕ))
    → HasSp conf conf.n_parties
    → AreCanonical draws
    → length draws ≡ l
    → y < p
    → opened conf (bs_to_sc (pf_to_bs conf y draws)) ≡ y
bs_to_sc-pf_to_bs conf y draws sp ok len hy =
    bs_to_sc_lem conf (pf_to_bs conf y draws) _ (pf_to_bs_lem conf y draws sp ok)
    ∙ rw (reverse-reverse (bits (length draws) y), len, number-bits 64 y (omega arith))
        (omega arith)

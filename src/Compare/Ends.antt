-- ===== src/Compare/Ends.antt =====
-- The ends of `subHalfLessThan` and of `comparisonTest`, on shares of bits.
use quick_mpc.Prelude.{
  ℕ, ◌+◌, ◌*◌, ◌%◌, ◌<◌, ◌≡◌, refl, sym, ap, ◌∙◌, inl, inr, ◌⊎◌, Bool, true, false, arith, ltb,
  ◌==◌, if◌then◌else◌, Bool-cases,
}
use quick_mpc.PrimeField
use quick_mpc.PrimeField.{p, l}
use quick_mpc.Share.{Config, Shared, add, sub, scale, add_public, public_sub}
use quick_mpc.Share.PrimeValue.{prime_value, IsValid}
use quick_mpc.Share.Recons.{HasSp}
use quick_mpc.Share.Beaver.{add-IsValid, scale-IsValid}
use quick_mpc.Compare.{times, opened, half_less_than_end, comparison_end}
use quick_mpc.Compare.Bits.{bit}
use quick_mpc.Compare.Laws.{
  opened-add, opened-scale, opened-add_public, opened-times, opened-sub, opened-public_sub,
}

parity_cases : (r : ℕ) → (r % 2 ≡ 0) ⊎ (r % 2 ≡ 1)
parity_cases r = ground arith

-- The difference of two numbers below `p` modulo `p` is even exactly when their parities differ as
-- often as the difference wraps around.
half_parity :
    (c a r : ℕ)
    → a < p
    → r < p
    → c ≡ (2 * a + r) % p
    → (c + (if ltb c r then 1 else 0) + r + (if ltb (2 * a) p then 0 else 1)) % 2 ≡ 0
half_parity c a r ha hr hc = ground arith

module _ (conf : Config) (sp : HasSp conf conf.n_parties) where
  -- The exclusive disjunction of two shared bits, as the protocol forms it, and its complement.
  xor_lem :
      (x y : Shared ℕ) (b : Bool) (v : ℕ)
      → IsValid x
      → IsValid y
      → opened conf x ≡ bit b
      → opened conf y ≡ v % 2
      → opened conf (add (times conf x (public_sub conf 1 y)) (times conf (public_sub conf 1 x) y))
        ≡ (bit b + v) % 2
  xor_lem x y b v vx vy ex ey =
      rw
        (
          opened-add conf (times conf x (public_sub conf 1 y)) (times conf (public_sub conf 1 x) y),
          opened-times conf sp x (public_sub conf 1 y),
          opened-times conf sp (public_sub conf 1 x) y,
          opened-public_sub conf sp 1 x vx,
          opened-public_sub conf sp 1 y vy,
          ex,
          ey,
        )
        (elim (Bool-cases b) [
          | inl t ↦
              rw t
                (elim (parity_cases v) [ inl z ↦ rw z (omega arith) | inr o ↦ rw o (omega arith) ])
          | inr t ↦
              rw t
                (elim (parity_cases v) [ inl z ↦ rw z (omega arith) | inr o ↦ rw o (omega arith) ])
        ])

  xnor_lem :
      (x y : Shared ℕ) (b : Bool) (v : ℕ)
      → IsValid x
      → IsValid y
      → opened conf x ≡ bit b
      → opened conf y ≡ v % 2
      → opened conf (add (times conf x y) (times conf (public_sub conf 1 x) (public_sub conf 1 y)))
        ≡ (1 + bit b + v) % 2
  xnor_lem x y b v vx vy ex ey =
      rw
        (
          opened-add conf (times conf x y) (times conf (public_sub conf 1 x) (public_sub conf 1 y)),
          opened-times conf sp x y,
          opened-times conf sp (public_sub conf 1 x) (public_sub conf 1 y),
          opened-public_sub conf sp 1 x vx,
          opened-public_sub conf sp 1 y vy,
          ex,
          ey,
        )
        (elim (Bool-cases b) [
          | inl t ↦
              rw t
                (elim (parity_cases v) [ inl z ↦ rw z (omega arith) | inr o ↦ rw o (omega arith) ])
          | inr t ↦
              rw t
                (elim (parity_cases v) [ inl z ↦ rw z (omega arith) | inr o ↦ rw o (omega arith) ])
        ])

pub half_less_than_end_lem :
    (conf : Config) (c a r : ℕ) (cr r0 : Shared ℕ)
    → HasSp conf conf.n_parties
    → IsValid cr
    → IsValid r0
    → a < p
    → r < p
    → c ≡ (2 * a + r) % p
    → opened conf cr ≡ bit (ltb c r)
    → opened conf r0 ≡ r % 2
    → opened conf (half_less_than_end conf c cr r0) ≡ bit (ltb (2 * a) p)
unfolding half_less_than_end
half_less_than_end_lem conf c a r cr r0 sp v v0 ha hr hc e e0 = elim (Bool-cases (c % 2 == 0)) [
  | inl even ↦ rw even (
      opened-public_sub conf sp 1 _ (add-IsValid _ _)
      ∙ rw (xor_lem conf sp cr r0 (ltb c r) r v v0 e e0)
          (ground (arith, half_parity c a r ha hr hc)))
  | inr odd ↦ rw odd (
      opened-public_sub conf sp 1 _ (add-IsValid _ _)
      ∙ rw (xnor_lem conf sp cr r0 (ltb c r) r v v0 e e0)
          (ground (arith, half_parity c a r ha hr hc)))
]

-- The decision by the three halves: where those of `a` and `b` differ, the half of `a` decides, and
-- else the half of the difference.
less : Bool → Bool → Bool → Bool
less w x y = if x then (if y then false else w) else if y then w else true

less_lem :
    (a b : ℕ)
    → a < p
    → b < p
    → ltb a b ≡ less (ltb (2 * a) p) (ltb (2 * b) p) (ltb (2 * PrimeField.sub a b) p)
unfolding less PrimeField.sub
less_lem a b ha hb = ground arith

less_polynomial :
    (w x y : Bool)
    → ((((bit w
                        * (((bit x + bit y) % p
                              + 18446744073709551556 * (bit x * bit y % p * 2 % p))
                            % p)
                        % p
                      + 1)
                    % p
                  + 18446744073709551556 * bit y)
                % p
              + 18446744073709551556 * bit x)
            % p
          + bit x * bit y % p)
        % p
      ≡ bit (less w x y)
unfolding less
less_polynomial true true true = refl
less_polynomial true true false = refl
less_polynomial true false true = refl
less_polynomial true false false = refl
less_polynomial false true true = refl
less_polynomial false true false = refl
less_polynomial false false true = refl
less_polynomial false false false = refl

pub comparison_end_lem :
    (conf : Config) (a b : ℕ) (w x y : Shared ℕ)
    → HasSp conf conf.n_parties
    → IsValid w
    → IsValid x
    → IsValid y
    → a < p
    → b < p
    → opened conf w ≡ bit (ltb (2 * a) p)
    → opened conf x ≡ bit (ltb (2 * b) p)
    → opened conf y ≡ bit (ltb (2 * PrimeField.sub a b) p)
    → opened conf (comparison_end conf w x y) ≡ bit (ltb a b)
unfolding comparison_end
comparison_end_lem conf a b w x y sp vw vx vy ha hb ew ex ey =
    let xy = times conf x y in
    let inner = sub (add x y) (scale xy 2) in
    let first = add_public conf (times conf w inner) 1 in
    rw
      (
        opened-add conf (sub (sub first y) x) xy,
        opened-sub conf (sub first y) x vx,
        opened-sub conf first y vy,
        opened-add_public conf sp (times conf w inner) 1,
        opened-times conf sp w inner,
        opened-sub conf (add x y) (scale xy 2) (scale-IsValid _ _),
        opened-add conf x y,
        opened-scale conf xy 2,
        opened-times conf sp x y,
        ew,
        ex,
        ey,
      )
      (less_polynomial (ltb (2 * a) p) (ltb (2 * b) p) (ltb (2 * PrimeField.sub a b) p)
        ∙ ap bit (sym (less_lem a b ha hb)))

-- ===== src/Query/Cas.antt =====
-- The numbers of new entries grow.
use quick_mpc.Prelude.{
  ℕ, ◌+◌, ◌*◌, ◌/◌, ◌%◌, ◌^◌, ◌<◌, ◌≡◌, ◌≢◌, refl, ◌⊎◌, inl, inr, false, not, ◌&&◌, some, List, [],
  ◌∷◌, ltb, ◌==◌, arith, length, Bool-cases, ==_iff,
}
use quick_mpc.Query.{CasState, create_cas, get_cas}

-- The counter is `k` behind the one after the last number.
abbrev pub IsBehind : ℕ → CasState → Type 0
IsBehind k s = s.counter ≡ (s.precas + 1 + k) % 2 ^ 16

-- One of the timestamps is later than the last number by a step of the clock that the numbers keep.
unfoldable pub HasLater : ℕ → List ℕ → Type 0
HasLater precas [] = ⊥
HasLater precas (timestamp ∷ timestamps) =
    (precas < timestamp / 2 ^ 16 * 2 ^ 16) ⊎ HasLater precas timestamps

-- The test of the loop where a number was given before.
waits-same :
    (s : CasState) (cas : ℕ)
    → s.precas ≢ 0
    → (not (s.precas == 0) && ltb cas s.precas) ≡ ltb cas s.precas
waits-same s cas started = ground (arith, started, ==_iff s.precas 0)

create_cas-greater :
    (precas k t : ℕ)
    → k + 1 < 2 ^ 16
    → ltb (create_cas t ((precas + 1 + k) % 2 ^ 16)) precas ≡ false
    → precas < create_cas t ((precas + 1 + k) % 2 ^ 16)
unfolding create_cas
create_cas-greater precas k t few done = ground (arith, done)

create_cas-counter : (t c : ℕ) → c < 2 ^ 16 → (c + 1) % 2 ^ 16 ≡ (create_cas t c + 1 + 0) % 2 ^ 16
unfolding create_cas
create_cas-counter t c h = omega arith

create_cas-below : (t c precas : ℕ) → precas < t / 2 ^ 16 * 2 ^ 16 → precas < create_cas t c
unfolding create_cas
create_cas-below t c precas h = omega arith

-- Where a number was given before, `k` numbers have been drawn since, fewer than 2 ^ 16 timestamps are read
-- with them, and one of the timestamps is greater than the last number even when its last 16 bits
-- are cleared, `getCas` gives a number, which is greater than the last one, and the counter is
-- again one behind it.
pub get_cas_lem :
    (k : ℕ) (s : CasState) (timestamps : List ℕ)
    → IsBehind k s
    → s.precas ≢ 0
    → k + length timestamps < 2 ^ 16
    → HasLater s.precas timestamps
    → (cas : ℕ) × (next : CasState) × (get_cas s timestamps ≡ some (cas, next))
      × (s.precas < cas)
      × (next.precas ≡ cas)
      × IsBehind 0 next
unfolding get_cas HasLater
get_cas_lem k s [] behind started few later = absurd later
get_cas_lem k s (t ∷ ts) behind started few later =
    let cas = create_cas t s.counter in
    let counter = (s.counter + 1) % 2 ^ 16 in
    let test = waits-same s cas started in
    elim (Bool-cases (ltb cas s.precas)) [
      | inl waits ↦
          let still : HasLater s.precas ts = elim later [
            | inl now ↦ absurd (ground (arith, waits, create_cas-below t s.counter s.precas now))
            | inr there ↦ there
          ] in
          let (found, next, e, greater, set, at) =
            get_cas_lem (k + 1) (record s { counter = counter }) ts (omega (arith, behind)) started
              (omega arith) still in
          (found, next, rw (get_cas, test, waits) e, greater, set, at)
      | inr done ↦ (
        cas,
        record { precas = cas; counter = counter },
        rw (get_cas, test, done) refl,
        rw behind (create_cas-greater s.precas k t (omega arith) (rw (← behind) done)),
        refl,
        create_cas-counter t s.counter (omega (arith, behind)),
      )
    ]

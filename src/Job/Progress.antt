-- ===== src/Job/Progress.antt =====
-- How far a run gets, and what it returns.
use mathlib.Core.Option.{some-injective}
use mathlib.Core.Path.{subst}
use quick_mpc.Prelude.{
  ◌≡◌, refl, ◌⊎◌, inl, inr, Bool, true, false, none, some, List, [], ◌∷◌, if◌then◌else◌, Bool-cases,
  Option-cases, arith,
}
use quick_mpc.Job.{
  Status, unknown, pre_job, read_db, compute, write_db, completed, status_number, following,
  StatusManager, registered, and_then, next_status, Services, attempt, read_phase, write_phase,
  phases, caught, run, run_model, ok, computation_error, answer, predict,
}

-- The values of the enumeration from that of a new job up to `s`.
unfoldable pub up_to : Status → List Status
up_to unknown = []
up_to pre_job = pre_job ∷ []
up_to read_db = pre_job ∷ read_db ∷ []
up_to compute = pre_job ∷ read_db ∷ compute ∷ []
up_to write_db = pre_job ∷ read_db ∷ compute ∷ write_db ∷ []
up_to completed = pre_job ∷ read_db ∷ compute ∷ write_db ∷ completed ∷ []

-- The database knows the status.
abbrev pub IsTold : StatusManager → Type 0
IsTold m = m.sent ≡ up_to m.status

-- The state in which the first exception of the table, of the computation or of the writing leaves a run.
unfoldable pub reached : {T R : Type 0} → Services T R → Status
reached s = elim s.read_table [
  | none ↦ read_db
  | some t ↦ elim (s.computation t) [
    | none ↦ compute
    | some r ↦ if s.write_result r then completed else write_db
  ]
]

-- The run ends in the state of the phase that throws first, of which the database knows, or in a
-- state that the database refused, and then it knows of the one before.
abbrev pub Ends : {T R : Type 0} → Services T R → StatusManager → Type 0
Ends s m =
    (IsTold m × (m.status ≡ reached s))
    ⊎ ((before : Status) × (following before ≡ some m.status)
        × (m.sent ≡ up_to before)
        × (s.updates m.status ≡ false))

write_Ends :
    {T R : Type 0} (s : Services T R) (t : T) (r : R)
    → s.updates read_db ≡ true
    → s.read_table ≡ some t
    → s.updates compute ≡ true
    → s.computation t ≡ some r
    → Ends s (run s)
unfolding run phases read_phase write_phase and_then next_status registered following attempt caught
    up_to reached
write_Ends s t r a b c d = elim (Bool-cases (s.updates write_db)) [
  | inr refused ↦ rw (a, b, c, d, refused) (inr (compute, refl, refl, refused))
  | inl e ↦ elim (Bool-cases (s.write_result r)) [
    | inr refused ↦ rw (a, b, c, d, e, refused) (inl (refl, refl))
    | inl f ↦ elim (Bool-cases (s.updates completed)) [
      | inr refused ↦ rw (a, b, c, d, e, f, refused) (inr (write_db, refl, refl, refused))
      | inl g ↦ rw (a, b, c, d, e, f, g) (inl (refl, refl))
    ]
  ]
]

run-Ends : {T R : Type 0} (s : Services T R) → Ends s (run s)
unfolding run phases read_phase write_phase and_then next_status registered following attempt caught
    up_to reached
run-Ends s = elim (Bool-cases (s.updates read_db)) [
  | inr refused ↦ rw refused (inr (pre_job, refl, refl, refused))
  | inl a ↦ elim (Option-cases s.read_table) [
    | inl fails ↦ rw (a, fails) (inl (refl, refl))
    | inr (t, b) ↦ elim (Bool-cases (s.updates compute)) [
      | inr refused ↦ rw (a, b, refused) (inr (read_db, refl, refl, refused))
      | inl c ↦ elim (Option-cases (s.computation t)) [
        | inl fails ↦ rw (a, b, c, fails) (inl (refl, refl))
        | inr (r, d) ↦ write_Ends s t r a b c d
      ]
    ]
  ]
]

-- When the run of a model returns, the database has been told the states of the enumeration from
-- that of a new job on, without a gap. They go up to the state in which the run ends, and that is
-- the state of the phase that throws first, the last one if none does; or the database refused that
-- state, and they go up to the one before it.
pub run_model-Ends :
    {T R : Type 0} (registers : Bool) (s : Services T R) (m : StatusManager)
    → run_model registers s ≡ some m
    → Ends s m
unfolding run_model
run_model-Ends true s m e = subst (Ends s) (some-injective (run s) m e) (run-Ends s)
run_model-Ends false s m e = absurd (ground (arith, e))

predict_cases :
    {T R : Type 0} (s : Services T R)
    → ((x : Status) → s.updates x ≡ true)
    → (s.read_table ≡ none → ((run s).status ≡ read_db) × (predict (some s) ≡ computation_error))
      × ((t : T)
          → s.read_table ≡ some t
          → s.computation t ≡ none
          → ((run s).status ≡ compute) × (predict (some s) ≡ ok))
      × ((t : T) (r : R)
          → s.read_table ≡ some t
          → s.computation t ≡ some r
          → ((run s).status ≡ (if s.write_result r then completed else write_db))
            × (predict (some s) ≡ ok))
unfolding predict run phases read_phase write_phase and_then next_status registered following
    attempt caught answer status_number
predict_cases s taken = (
  λ none_read. (rw (taken read_db, none_read) refl, rw (taken read_db, none_read) refl),
  λ t read fails. (
    rw (taken read_db, read, taken compute, fails) refl,
    rw (taken read_db, read, taken compute, fails) refl,
  ),
  λ t r read works. elim (Bool-cases (s.write_result r)) [
    | inl written ↦ (
      rw (taken read_db, read, taken compute, works, taken write_db, written, taken completed) refl,
      rw (taken read_db, read, taken compute, works, taken write_db, written, taken completed) refl,
    )
    | inr lost ↦ (
      rw (taken read_db, read, taken compute, works, taken write_db, lost) refl,
      rw (taken read_db, read, taken compute, works, taken write_db, lost) refl,
    )
  ],
)

-- Where the database takes every update, a run ends in the state of the phase that throws first, or
-- in the last state when none does. The answer to a request for a prediction is an error of the
-- computation when reading the table throws, and success otherwise, also when the computation or
-- the writing throws.
pub predict_lem :
    {T R : Type 0} (s : Services T R)
    → ((x : Status) → s.updates x ≡ true)
    → ((run s).status ≡ reached s)
      × (predict (some s) ≡ elim s.read_table [ none ↦ computation_error | some t ↦ ok ])
unfolding reached
predict_lem s taken =
    let (none_read, none_computed, all_computed) = predict_cases s taken in
    elim (Option-cases s.read_table) [
      | inl e ↦ simp (reached, e) (none_read e)
      | inr read ↦ elim (Option-cases (s.computation (read.0))) [
        | inl e ↦ let h = none_computed (read.0) (read.1) e in simp (reached, read.1, e) h
        | inr works ↦
            let h = all_computed (read.0) (works.0) (read.1) (works.1) in
            simp (reached, read.1, works.1) h
      ]
    ]

-- ===== src/JobManager/Work.antt =====
-- The work that is left, and that every step lowers it.
use quick_mpc.Prelude.{
  ℕ, zero, suc, ◌+◌, ◌<◌, ◌≡◌, inl, inr, Option, none, some, List, [], ◌∷◌, ◌++◌, arith, length,
  length-append, length-table, Bool-cases, Option-cases,
}
use quick_mpc.TransactionQueue.{pop, push}
use quick_mpc.JobManager.{
  Thread, State, take_request, send_job_info, start_job, thread_at, end_thread,
}
use quick_mpc.JobManager.Steps.{WorkStep, takes, starts, ends}
use quick_mpc.TransactionQueue.Laws.{pop-cons}

-- The steps that are left: two for each request in the queue, one for a request that is taken, and one for
-- each thread that they start and each that runs.
unfoldable pub work_of_requests : {R : Type 0} → ℕ → List R → ℕ
work_of_requests n_parties [] = 0
work_of_requests n_parties (r ∷ rs) = 2 + n_parties + work_of_requests n_parties rs

unfoldable pub work_of_taken : {R : Type 0} → ℕ → Option R → ℕ
work_of_taken n_parties none = 0
work_of_taken n_parties (some r) = 1 + n_parties

unfoldable pub work : {R : Type 0} → ℕ → State R → ℕ
work n_parties s =
    work_of_requests n_parties s.job_requests + work_of_taken n_parties s.taken + length s.threads

module _ {R : Type 0} where
  length-thread_at :
      (i : ℕ) (ths rest : List (Thread R)) (th : Thread R)
      → thread_at i ths ≡ some (th, rest)
      → length ths ≡ suc (length rest)
  unfolding thread_at
  length-thread_at i [] rest th e = absurd (ground (arith, e))
  length-thread_at zero (x ∷ ths) rest th e = ground (arith, e)
  length-thread_at (suc i) (x ∷ ths) rest th e = elim (Option-cases (thread_at i ths)) [
    | inl no_thread ↦ absurd (ground (arith, e, no_thread))
    | inr ((found, others), at) ↦ ground (arith, e, at, length-thread_at i ths others found at)
  ]

  length-send_job_info :
      (n_parties party_id : ℕ) (r : R) (id : ℕ)
      → length (send_job_info n_parties party_id r id) ≡ n_parties
  unfolding send_job_info
  length-send_job_info n_parties party_id r id = length-table n_parties 1 _

  take_request-work :
      (n_parties : ℕ) (s t : State R)
      → take_request s ≡ some t
      → work n_parties t < work n_parties s
  unfolding take_request work work_of_requests work_of_taken
  take_request-work n_parties s t e = elim (Option-cases s.taken) [
    | inr (r, busy) ↦ absurd (ground (arith, e, busy))
    | inl free ↦ elim (Option-cases (pop s.job_requests)) [
      | inl waits ↦ absurd (ground (arith, e, free, waits))
      | inr ((r, q), got) ↦
          let at : record s { job_requests = q; taken = some r } ≡ t =
            ground (arith, e, free, got) in
          rw (← at, pop-cons s.job_requests r q got, free) (omega arith)
    ]
  ]

  start_job-work :
      (n_parties party_id : ℕ) (s t : State R)
      → start_job n_parties party_id s ≡ some t
      → work n_parties t < work n_parties s
  unfolding start_job work work_of_requests work_of_taken
  start_job-work n_parties party_id s t e = elim (Option-cases s.taken) [
    | inl free ↦ absurd (ground (arith, e, free))
    | inr (r, busy) ↦ elim (Option-cases (pop s.job_ids)) [
      | inl waits ↦ absurd (ground (arith, e, busy, waits))
      | inr ((id, q), got) ↦
          let at : record s {
            job_ids = q;
            taken = none;
            threads = s.threads ++ send_job_info n_parties party_id r id;
            started = s.started ++ (id, r) ∷ [];
          }
              ≡ t =
            ground (arith, e, busy, got) in
          rw (← at, busy)
            (omega (
              arith,
              length-append s.threads (send_job_info n_parties party_id r id),
              length-send_job_info n_parties party_id r id,
            ))
    ]
  ]

  end_thread-work :
      (max_size n_parties i : ℕ) (s t : State R)
      → end_thread max_size i s ≡ some t
      → work n_parties t < work n_parties s
  unfolding end_thread work
  end_thread-work max_size n_parties i s t e = elim (Option-cases (thread_at i s.threads)) [
    | inl no_thread ↦ absurd (ground (arith, e, no_thread))
    | inr ((th, rest), found) ↦
        let shorter = length-thread_at i s.threads rest th found in
        elim (Bool-cases th.is_job_trigger_party) [
          | inl trigger ↦ elim (Option-cases (push max_size th.job_id s.job_ids)) [
            | inl waits ↦ absurd (ground (arith, e, found, trigger, waits))
            | inr (q, pushed) ↦
                let at : record s { job_ids = q; threads = rest } ≡ t =
                  ground (arith, e, found, trigger, pushed) in
                rw (← at) (omega (arith, shorter))
          ]
          | inr other ↦
              let at : record s { threads = rest } ≡ t = ground (arith, e, found, other) in
              rw (← at) (omega (arith, shorter))
        ]
  ]

  -- Every step that is not a new request lowers the work that is left, so that only finitely many follow
  -- each other.
  pub WorkStep-work :
      (max_size n_parties party_id : ℕ) (s t : State R)
      → WorkStep max_size n_parties party_id s t
      → work n_parties t < work n_parties s
  WorkStep-work max_size n_parties party_id s t (takes e) = take_request-work n_parties s t e
  WorkStep-work max_size n_parties party_id s t (starts e) = start_job-work n_parties party_id s t e
  WorkStep-work max_size n_parties party_id s t (ends i e) =
      end_thread-work max_size n_parties i s t e

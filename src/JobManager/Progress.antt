-- ===== src/JobManager/Progress.antt =====
-- The manager does not come to a stop before every request is started and every job has ended.
use mathlib.Core.List.{append-nil}
use quick_mpc.Prelude.{
  ℕ, ◌+◌, ◌≤◌, ◌<◌, ◌≡◌, refl, sym, ap₂, ◌∙◌, true, ◌⊎◌, inl, inr, none, some, List, [], ◌∷◌, ◌++◌,
  arith, length, Bool-cases, Option-cases,
}
use quick_mpc.TransactionQueue.{pop}
use quick_mpc.JobManager.{
  Thread, State, max_job_num, take_request, send_job_info, start_job, thread_at, end_thread,
}
use quick_mpc.JobManager.Steps.{
  total, returns, total_returns, WorkStep, takes, starts, ends, Reach, all_ids, requests_of,
  IsConsistent,
}
use quick_mpc.JobManager.Consistency.{Reach-IsConsistent}
use quick_mpc.TransactionQueue.Laws.{pop-cons, pop-none, push-fits}
use quick_mpc.JobManager.Work.{work, WorkStep-work}

module _ {R : Type 0} where
  -- Everything that was pushed is started, and no thread runs.
  abbrev pub IsDone : State R → Type 0
  IsDone s = (s.pushed ≡ requests_of s.started) × (s.threads ≡ [])

total-length : (q : List ℕ) → total (λ i. 1) q ≡ length q
unfolding total
total-length [] = refl
total-length (i ∷ q) = omega (arith, total-length q)

module _ {R : Type 0} (max_size n_parties party_id : ℕ) (s : State R) (c : IsConsistent max_size s)
    (fits : max_job_num ≤ max_size) where
  abbrev Moves : Type 0
  Moves = (t : State R) × WorkStep max_size n_parties party_id s t

  counted :
      (ids : List ℕ) (ths : List (Thread R))
      → s.job_ids ≡ ids
      → s.threads ≡ ths
      → total (λ i. 1) ids + total_returns (λ i. 1) ths ≡ 5
  unfolding total all_ids
  counted ids ths e f =
      sym (
        ap₂ (λ (x : List ℕ) (y : List (Thread R)). total (λ i. 1) x + total_returns (λ i. 1) y) e f)
      ∙ c.balance (λ i. 1)

  -- There is room for the identifier that a thread returns.
  room :
      (th : Thread R) (ths : List (Thread R))
      → s.threads ≡ th ∷ ths
      → th.is_job_trigger_party ≡ true
      → length s.job_ids < max_size
  unfolding total_returns returns
  room th ths at trigger =
      let b = counted s.job_ids (th ∷ ths) refl at in
      ground (arith, b, fits, trigger, total-length s.job_ids)

  ends_first : (th : Thread R) (ths : List (Thread R)) → s.threads ≡ th ∷ ths → Moves
  unfolding end_thread thread_at
  ends_first th ths at = elim (Bool-cases th.is_job_trigger_party) [
    | inl trigger ↦ (
      record s { job_ids = s.job_ids ++ th.job_id ∷ []; threads = ths },
      ends 0 (
          rw
            (
              end_thread,
              at,
              trigger,
              push-fits max_size th.job_id s.job_ids (room th ths at trigger),
            )
            refl),
    )
    | inr other ↦ (record s { threads = ths }, ends 0 (rw (end_thread, at, other) refl))
  ]

  starts_next : (r : R) → s.threads ≡ [] → s.taken ≡ some r → Moves
  unfolding start_job pop total total_returns
  starts_next r idle busy = elim (Option-cases (pop s.job_ids)) [
    | inl waits ↦ absurd (let b = counted [] [] (pop-none s.job_ids waits) idle in omega (arith, b))
    | inr ((id, q), got) ↦ (
      record s {
        job_ids = q;
        taken = none;
        threads = s.threads ++ send_job_info n_parties party_id r id;
        started = s.started ++ (id, r) ∷ [];
      },
      starts (rw (start_job, busy, got) refl),
    )
  ]

  takes_next : s.taken ≡ none → (r : R) (q : List R) → pop s.job_requests ≡ some (r, q) → Moves
  unfolding take_request
  takes_next free r q got =
      (record s { job_requests = q; taken = some r }, takes (rw (take_request, free, got) refl))

  done : s.threads ≡ [] → s.taken ≡ none → s.job_requests ≡ [] → IsDone s
  done idle free empty = (rw (c.order, free, empty) (append-nil (requests_of s.started)), idle)

  moves_or_IsDone : Moves ⊎ IsDone s
  moves_or_IsDone = elim (Option-cases (pop s.threads)) [
    | inr ((th, ths), running) ↦ inl (ends_first th ths (pop-cons s.threads th ths running))
    | inl idle ↦ elim (Option-cases s.taken) [
      | inr (r, busy) ↦ inl (starts_next r (pop-none s.threads idle) busy)
      | inl free ↦ elim (Option-cases (pop s.job_requests)) [
        | inr ((r, q), got) ↦ inl (takes_next free r q got)
        | inl empty ↦ inr (done (pop-none s.threads idle) free (pop-none s.job_requests empty))
      ]
    ]
  ]

module _ {R : Type 0} where
  -- The loop can move, a thread runs whose end would be a step, or all is done; the step lowers the
  -- work that is left.
  abbrev pub Advances : ℕ → ℕ → ℕ → State R → Type 0
  Advances max_size n_parties party_id s =
      ((t : State R) × ((take_request s ≡ some t) ⊎ (start_job n_parties party_id s ≡ some t))
        × (work n_parties t < work n_parties s))
      ⊎ ((i : ℕ) × (t : State R) × (end_thread max_size i s ≡ some t)
          × (work n_parties t < work n_parties s))
      ⊎ ((s.pushed ≡ requests_of s.started) × (s.threads ≡ []))

  WorkStep-Advances :
      (max_size n_parties party_id : ℕ) (s t : State R)
      → WorkStep max_size n_parties party_id s t
      → work n_parties t < work n_parties s
      → Advances max_size n_parties party_id s
  WorkStep-Advances max_size n_parties party_id s t (takes e) h = inl (t, inl e, h)
  WorkStep-Advances max_size n_parties party_id s t (starts e) h = inl (t, inr e, h)
  WorkStep-Advances max_size n_parties party_id s t (ends i e) h = inr (inl (i, t, e, h))

  -- Where the queue has room for all identifiers and the party that triggers the jobs is one of the parties,
  -- in every state of a run the loop can move, or some thread runs, or every request that was pushed
  -- has been started and no thread runs. The move of the loop, or the end of the thread if its job
  -- comes to an end, lowers the work that is left; that a job comes to an end is not claimed.
  pub WorkStep-progress :
      (max_size n_parties party_id : ℕ) (s : State R)
      → max_job_num ≤ max_size
      → 1 ≤ party_id
      → party_id ≤ n_parties
      → Reach max_size n_parties party_id s
      → Advances max_size n_parties party_id s
  WorkStep-progress max_size n_parties party_id s fits present known r =
      elim (moves_or_IsDone max_size n_parties party_id s
        (Reach-IsConsistent max_size n_parties party_id fits present known r) fits) [
          | inl (t, w) ↦
              WorkStep-Advances max_size n_parties party_id s t w
                (WorkStep-work max_size n_parties party_id s t w)
          | inr d ↦ inr (inr d)
        ]

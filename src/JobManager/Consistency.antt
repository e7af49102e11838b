-- ===== src/JobManager/Consistency.antt =====
-- Each step keeps the identifiers together and the order of the requests.
use mathlib.Core.List.{append_assoc}
use quick_mpc.Prelude.{
  ℕ, suc, ◌+◌, ◌≤◌, ◌≡◌, refl, sym, ap, ◌∙◌, true, false, inl, inr, none, some, List, [], ◌∷◌, ◌++◌,
  ltb, arith, length, length-append, Bool-cases, Option-cases, ltb→lt,
}
use quick_mpc.TransactionQueue.{pop, push}
use quick_mpc.JobManager.{
  Thread, State, max_job_num, push_job_ids, constructed, push_job_req, take_request, send_job_info,
  start_job, thread_at, end_thread,
}
use quick_mpc.JobManager.Steps.{
  total, returns, total_returns, total_returns-append, total_returns-thread_at, total_returns-table,
  total-append, WorkStep, takes, starts, ends, Step, works, pushes, Reach, built, next, all_ids,
  taken_list, requests_of, IsConsistent,
}
use quick_mpc.TransactionQueue.Laws.{pop-cons}

push_job_ids-all :
    (max_size : ℕ) → max_job_num ≤ max_size → push_job_ids max_size max_job_num 1 [] ≡ some all_ids
unfolding push_job_ids all_ids push
push_job_ids-all max_size h = ground arith

push-total :
    (max_size : ℕ) (v : ℕ → ℕ) (id : ℕ) (q q' : List ℕ)
    → push max_size id q ≡ some q'
    → total v q' ≡ total v q + v id
unfolding push total
push-total max_size v id q q' e = ground (arith, e, total-append v q (id ∷ []))

requests_of-append :
    {R : Type 0} (xs : List (ℕ × R)) (id : ℕ) (r : R)
    → requests_of (xs ++ (id, r) ∷ []) ≡ requests_of xs ++ r ∷ []
requests_of-append [] id r = refl
requests_of-append ((j, q) ∷ xs) id r = ap (◌∷◌ q) (requests_of-append xs id r)

module _ {R : Type 0} (max_size n_parties party_id : ℕ) (fits : max_job_num ≤ max_size)
    (present : 1 ≤ party_id) (known : party_id ≤ n_parties) where
  constructed-IsConsistent : (s : State R) → constructed max_size ≡ some s → IsConsistent max_size s
  unfolding constructed total total_returns
  constructed-IsConsistent s e =
      let at : record {
        job_ids = all_ids;
        job_requests = [];
        taken = none;
        threads = [];
        pushed = [];
        started = [];
      }
          ≡ s =
        ground (arith, e, push_job_ids-all max_size fits) in
      rw (← at) (record { balance = λ v. omega arith; order = refl; bounded = omega arith })

  take_request-IsConsistent :
      (s t : State R) → IsConsistent max_size s → take_request s ≡ some t → IsConsistent max_size t
  unfolding take_request pop
  take_request-IsConsistent s t c e = elim (Option-cases s.taken) [
    | inr (r, busy) ↦ absurd (ground (arith, e, busy))
    | inl free ↦ elim (Option-cases (pop s.job_requests)) [
      | inl waits ↦ absurd (ground (arith, e, free, waits))
      | inr ((r, q), got) ↦
          let popped = pop-cons s.job_requests r q got in
          let at : record s { job_requests = q; taken = some r } ≡ t =
            ground (arith, e, free, got) in
          rw (← at) (record {
            balance = c.balance;
            order = c.order ∙ rw (free, popped) refl;
            bounded =
                (let shorter : length s.job_requests ≡ suc (length q) = ap length popped in
                  omega (arith, c.bounded));
          })
    ]
  ]

  start-balance :
      (v : ℕ → ℕ) (id : ℕ) (q : List ℕ) (ths : List (Thread R)) (r : R)
      → total v (id ∷ q) + total_returns v ths ≡ total v all_ids
      → total v q + total_returns v (ths ++ send_job_info n_parties party_id r id) ≡ total v all_ids
  unfolding total send_job_info
  start-balance v id q ths r h =
      rw
        (
          total_returns-append v ths (send_job_info n_parties party_id r id),
          total_returns-table v n_parties 1 party_id id r,
        )
        (ground (arith, h, present, known))

  start_job-IsConsistent :
      (s t : State R)
      → IsConsistent max_size s
      → start_job n_parties party_id s ≡ some t
      → IsConsistent max_size t
  unfolding start_job pop send_job_info
  start_job-IsConsistent s t c e = elim (Option-cases s.taken) [
    | inl free ↦ absurd (ground (arith, e, free))
    | inr (r, busy) ↦ elim (Option-cases (pop s.job_ids)) [
      | inl waits ↦ absurd (ground (arith, e, busy, waits))
      | inr ((id, q), got) ↦
          let popped = pop-cons s.job_ids id q got in
          let at : record s {
            job_ids = q;
            taken = none;
            threads = s.threads ++ send_job_info n_parties party_id r id;
            started = s.started ++ (id, r) ∷ [];
          }
              ≡ t =
            ground (arith, e, busy, got) in
          rw (← at) (record {
            balance = λ v. start-balance v id q (s.threads) r (rw (← popped) (c.balance v));
            order =
                c.order
                ∙ rw (busy, requests_of-append s.started id r)
                    (sym (append_assoc (requests_of s.started) (r ∷ []) s.job_requests));
            bounded = c.bounded;
          })
    ]
  ]

  returns-other : (v : ℕ → ℕ) (th : Thread R) → th.is_job_trigger_party ≡ false → returns v th ≡ 0
  unfolding returns
  returns-other v th e = ground (arith, e)

  returns-trigger :
      (v : ℕ → ℕ) (th : Thread R) → th.is_job_trigger_party ≡ true → returns v th ≡ v th.job_id
  unfolding returns
  returns-trigger v th e = ground (arith, e)

  end-balance :
      (v : ℕ → ℕ) (i : ℕ) (s : State R) (th : Thread R) (rest : List (Thread R)) (q : List ℕ)
      → IsConsistent max_size s
      → thread_at i s.threads ≡ some (th, rest)
      → th.is_job_trigger_party ≡ true
      → push max_size th.job_id s.job_ids ≡ some q
      → total v q + total_returns v rest ≡ total v all_ids
  end-balance v i s th rest q c found trigger pushed = omega (
    arith,
    c.balance v,
    total_returns-thread_at v i s.threads rest th found,
    returns-trigger v th trigger,
    push-total max_size v th.job_id s.job_ids q pushed,
  )

  end_thread-IsConsistent :
      (i : ℕ) (s t : State R)
      → IsConsistent max_size s
      → end_thread max_size i s ≡ some t
      → IsConsistent max_size t
  unfolding end_thread
  end_thread-IsConsistent i s t c e = elim (Option-cases (thread_at i s.threads)) [
    | inl no_thread ↦ absurd (ground (arith, e, no_thread))
    | inr ((th, rest), found) ↦ elim (Bool-cases th.is_job_trigger_party) [
      | inl trigger ↦ elim (Option-cases (push max_size th.job_id s.job_ids)) [
        | inl waits ↦ absurd (ground (arith, e, found, trigger, waits))
        | inr (q, pushed) ↦
            let at : record s { job_ids = q; threads = rest } ≡ t =
              ground (arith, e, found, trigger, pushed) in
            rw (← at) (record {
              balance = λ v. end-balance v i s th rest q c found trigger pushed;
              order = c.order;
              bounded = c.bounded;
            })
      ]
      | inr other ↦
          let at : record s { threads = rest } ≡ t = ground (arith, e, found, other) in
          rw (← at) (record {
            balance = λ v.
                (let kept = total_returns-thread_at v i s.threads rest th found in
                  omega (arith, kept, c.balance v, returns-other v th other));
            order = c.order;
            bounded = c.bounded;
          })
    ]
  ]

  push_job_req-IsConsistent :
      (r : R) (s t : State R)
      → IsConsistent max_size s
      → push_job_req max_size r s ≡ some t
      → IsConsistent max_size t
  unfolding push_job_req push
  push_job_req-IsConsistent r s t c e = elim (Bool-cases (ltb (length s.job_requests) max_size)) [
    | inr full ↦ absurd (ground (arith, e, full))
    | inl free ↦
        let at : record s { job_requests = s.job_requests ++ r ∷ []; pushed = s.pushed ++ r ∷ [] }
            ≡ t =
          ground (arith, e, free) in
        rw (← at) (record {
          balance = c.balance;
          order =
              ap (λ (x : List R). x ++ r ∷ []) c.order
              ∙ append_assoc (requests_of s.started) (taken_list s.taken ++ s.job_requests) (r ∷ [])
              ∙ ap (◌++◌ (requests_of s.started))
                  (append_assoc (taken_list s.taken) s.job_requests (r ∷ []));
          bounded = omega (
            arith,
            ltb→lt (length s.job_requests) max_size free,
            length-append s.job_requests (r ∷ []),
          );
        })
  ]

  WorkStep-IsConsistent :
      (s t : State R)
      → IsConsistent max_size s
      → WorkStep max_size n_parties party_id s t
      → IsConsistent max_size t
  WorkStep-IsConsistent s t c (takes e) = take_request-IsConsistent s t c e
  WorkStep-IsConsistent s t c (starts e) = start_job-IsConsistent s t c e
  WorkStep-IsConsistent s t c (ends i e) = end_thread-IsConsistent i s t c e

  Step-IsConsistent :
      (s t : State R)
      → IsConsistent max_size s
      → Step max_size n_parties party_id s t
      → IsConsistent max_size t
  Step-IsConsistent s t c (works w) = WorkStep-IsConsistent s t c w
  Step-IsConsistent s t c (pushes r e) = push_job_req-IsConsistent r s t c e

  pub Reach-IsConsistent :
      {s : State R} → Reach max_size n_parties party_id s → IsConsistent max_size s
  Reach-IsConsistent (built {s} e) = constructed-IsConsistent s e
  Reach-IsConsistent (next {s} {t} r st) = Step-IsConsistent s t (Reach-IsConsistent r) st

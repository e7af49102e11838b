-- ===== src/JobManager/Steps.antt =====
-- The runs of the manager, whatever the order in which its threads move, and what stays true.
use quick_mpc.Prelude.{
  ℕ, zero, suc, ◌+◌, ◌≤◌, ◌≡◌, ◌&&◌, inl, inr, Option, none, some, List, [], ◌∷◌, ◌++◌, ◌==◌, ltb,
  leb, if◌then◌else◌, arith, table, length, Option-cases,
}
use quick_mpc.JobManager.{
  Thread, State, constructed, push_job_req, take_request, start_job, thread_at, end_thread,
}

-- The sum of a measure of the identifiers in a list, and of those that the threads return at their end.
unfoldable pub total : (ℕ → ℕ) → List ℕ → ℕ
total v [] = 0
total v (i ∷ is) = v i + total v is

module _ {R : Type 0} where
  unfoldable pub returns : (ℕ → ℕ) → Thread R → ℕ
  returns v th = if th.is_job_trigger_party then v th.job_id else 0

  unfoldable pub total_returns : (ℕ → ℕ) → List (Thread R) → ℕ
  total_returns v [] = 0
  total_returns v (th ∷ ths) = returns v th + total_returns v ths

  pub total_returns-append :
      (v : ℕ → ℕ) (xs ys : List (Thread R))
      → total_returns v (xs ++ ys) ≡ total_returns v xs + total_returns v ys
  unfolding total_returns
  total_returns-append v [] ys = omega arith
  total_returns-append v (x ∷ xs) ys = omega (arith, total_returns-append v xs ys)

  pub total_returns-thread_at :
      (v : ℕ → ℕ) (i : ℕ) (ths rest : List (Thread R)) (th : Thread R)
      → thread_at i ths ≡ some (th, rest)
      → total_returns v ths ≡ returns v th + total_returns v rest
  unfolding total_returns thread_at
  total_returns-thread_at v i [] rest th e = absurd (ground (arith, e))
  total_returns-thread_at v zero (x ∷ ths) rest th e = ground (arith, e)
  total_returns-thread_at v (suc i) (x ∷ ths) rest th e = elim (Option-cases (thread_at i ths)) [
    | inl no_thread ↦ absurd (ground (arith, e, no_thread))
    | inr ((found, others), at) ↦
        ground (arith, e, at, total_returns-thread_at v i ths others found at)
  ]

  -- Of the threads that start a job, exactly that of the party that triggers it returns the identifier.
  pub total_returns-table :
      (v : ℕ → ℕ) (n k party_id id : ℕ) (r : R)
      → total_returns v (
          table n k (λ pt_id. record {
            party = pt_id;
            job_id = id;
            request = r;
            is_job_trigger_party = pt_id == party_id;
          }))
        ≡ (if leb k party_id && ltb party_id (k + n) then v id else 0)
  unfolding total_returns returns
  total_returns-table v zero k party_id id r = ground arith
  total_returns-table v (suc n) k party_id id r =
      ground (arith, total_returns-table v n (k + 1) party_id id r)

pub total-append : (v : ℕ → ℕ) (xs ys : List ℕ) → total v (xs ++ ys) ≡ total v xs + total v ys
unfolding total
total-append v [] ys = omega arith
total-append v (x ∷ xs) ys = omega (arith, total-append v xs ys)

-- A step of the manager and of the threads, without a new request.
pub data WorkStep {R : Type 0} (max_size n_parties party_id : ℕ) (s t : State R) : Type 0 where
  takes : take_request s ≡ some t → WorkStep max_size n_parties party_id s t
  starts : start_job n_parties party_id s ≡ some t → WorkStep max_size n_parties party_id s t
  ends : (i : ℕ) → end_thread max_size i s ≡ some t → WorkStep max_size n_parties party_id s t

pub data Step {R : Type 0} (max_size n_parties party_id : ℕ) (s t : State R) : Type 0 where
  works : WorkStep max_size n_parties party_id s t → Step max_size n_parties party_id s t
  pushes : (r : R) → push_job_req max_size r s ≡ some t → Step max_size n_parties party_id s t

pub data Reach {R : Type 0} (max_size n_parties party_id : ℕ) : State R → Type 0 where
  built : {s : State R} → constructed max_size ≡ some s → Reach max_size n_parties party_id s
  next :
      {s t : State R}
      → Reach max_size n_parties party_id s
      → Step max_size n_parties party_id s t
      → Reach max_size n_parties party_id t

-- The identifiers from 1 to `max_job_num`.
unfoldable pub all_ids : List ℕ
all_ids = 1 ∷ 2 ∷ 3 ∷ 4 ∷ 5 ∷ []

abbrev pub taken_list : {R : Type 0} → Option R → List R
taken_list none = []
taken_list (some r) = r ∷ []

abbrev pub requests_of : {R : Type 0} → List (ℕ × R) → List R
requests_of [] = []
requests_of ((id, r) ∷ started) = r ∷ requests_of started

pub record IsConsistent {R : Type 0} (max_size : ℕ) (s : State R) : Type 0 where
  pub balance : (v : ℕ → ℕ) → total v s.job_ids + total_returns v s.threads ≡ total v all_ids
  pub order : s.pushed ≡ requests_of s.started ++ (taken_list s.taken ++ s.job_requests)
  pub bounded : length s.job_requests ≤ max_size

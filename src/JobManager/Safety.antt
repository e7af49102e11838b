-- ===== src/JobManager/Safety.antt =====
-- Where the identifiers are in every run, and the order of the requests.
use quick_mpc.Prelude.{ℕ, ◌+◌, ◌≤◌, ◌≡◌, ◌∙◌, ◌&&◌, ◌++◌, ◌==◌, leb, if◌then◌else◌, arith, length}
use quick_mpc.JobManager.{State, max_job_num}
use quick_mpc.JobManager.Steps.{total, total_returns, Reach, all_ids, taken_list, requests_of}
use quick_mpc.JobManager.Consistency.{Reach-IsConsistent}

abbrev pub indicator : ℕ → ℕ → ℕ
indicator j i = if i == j then 1 else 0

module _ {R : Type 0} where
  -- Where the queue has room for all identifiers and the party that triggers the jobs is one of the parties,
  -- in every run each identifier from 1 to 5 is once in the queue of free identifiers or once with
  -- a thread that will return it, and no other is there; so no two jobs that the party runs have
  -- the same identifier.
  pub job_ids_lem :
      (max_size n_parties party_id : ℕ) (s : State R) (j : ℕ)
      → max_job_num ≤ max_size
      → 1 ≤ party_id
      → party_id ≤ n_parties
      → Reach max_size n_parties party_id s
      → total (indicator j) s.job_ids + total_returns (indicator j) s.threads
        ≡ (if leb 1 j && leb j max_job_num then 1 else 0)
  unfolding total all_ids
  job_ids_lem max_size n_parties party_id s j fits present known r =
      (Reach-IsConsistent max_size n_parties party_id fits present known r).balance (indicator j)
      ∙ ground arith

  -- Under the same conditions, the requests started, then the one that the loop has taken, then those in
  -- the queue are the requests that were pushed, in their order, and the queue is not longer than
  -- its bound.
  pub requests_lem :
      (max_size n_parties party_id : ℕ) (s : State R)
      → max_job_num ≤ max_size
      → 1 ≤ party_id
      → party_id ≤ n_parties
      → Reach max_size n_parties party_id s
      → (s.pushed ≡ requests_of s.started ++ (taken_list s.taken ++ s.job_requests))
        × (length s.job_requests ≤ max_size)
  requests_lem max_size n_parties party_id s fits present known r =
      let c = Reach-IsConsistent max_size n_parties party_id fits present known r in
      (c.order, c.bounded)

-- ===== src/JobManager.antt =====
-- src/ComputationContainer/Job/JobManager.hpp, with the service that starts a job at a party
-- (Server/ComputationToComputationContainerForJob/Server.cpp and its client): the queue of requests, the
-- identifiers of jobs, the loop that starts jobs and the threads that run them. `none` is a thread
-- that waits. A party that is sent a job starts its thread in the same step.
pub mod Steps
pub mod Consistency
pub mod Safety
pub mod Work
pub mod Progress
mod Tests
use quick_mpc.Prelude.{
  ℕ, zero, suc, ◌+◌, Bool, true, false, Option, none, some, List, [], ◌∷◌, ◌++◌, ◌==◌,
  if◌then◌else◌, table,
}
use quick_mpc.TransactionQueue.{pop, push}

-- `ExecuteComputationRequest`.
pub record Request (Text : Type 0) : Type 0 where
  pub method_id : ℕ
  pub job_uuid : Text
  pub data_ids : List Text
  pub join : List ℕ
  pub index : List ℕ
  pub src : List ℕ
  pub target : List ℕ

-- The loops that add the members of a list one by one.
unfoldable pub add_all : {A : Type 0} → List A → List A → List A
add_all [] added = added
add_all (x ∷ xs) added = add_all xs (added ++ x ∷ [])

pub convert_request : {Text : Type 0} → Request Text → Request Text
convert_request request = record {
  method_id = request.method_id;
  job_uuid = request.job_uuid;
  data_ids = add_all request.data_ids [];
  join = add_all request.join [];
  index = add_all request.index [];
  src = add_all request.src [];
  target = add_all request.target [];
}

-- A thread of `asyncRun`: the party, the parameter of the job, and whether the party triggered it.
pub record Thread (R : Type 0) : Type 0 where
  pub party : ℕ
  pub job_id : ℕ
  pub request : R
  pub is_job_trigger_party : Bool

-- The manager of the party that triggers the jobs, the request that its loop has taken and not started,
-- the threads of all parties, and what was pushed and started so far.
pub record State (R : Type 0) : Type 0 where
  pub job_ids : List ℕ
  pub job_requests : List R
  pub taken : Option R
  pub threads : List (Thread R)
  pub pushed : List R
  pub started : List (ℕ × R)

abbrev pub max_job_num : ℕ
max_job_num = 5

-- The loop of the constructor.
unfoldable pub push_job_ids : ℕ → ℕ → ℕ → List ℕ → Option (List ℕ)
push_job_ids max_size zero job_id job_ids = some job_ids
push_job_ids max_size (suc rounds) job_id job_ids = elim (push max_size job_id job_ids) [
  | none ↦ none
  | some more ↦ push_job_ids max_size rounds (job_id + 1) more
]

module _ {R : Type 0} where
  unfoldable pub constructed : ℕ → Option (State R)
  constructed max_size = elim (push_job_ids max_size max_job_num 1 []) [
    | none ↦ none
    | some ids ↦ some (record {
      job_ids = ids;
      job_requests = [];
      taken = none;
      threads = [];
      pushed = [];
      started = [];
    })
  ]

  unfoldable pub push_job_req : ℕ → R → State R → Option (State R)
  push_job_req max_size r s = elim (push max_size r s.job_requests) [
    | none ↦ none
    | some q ↦ some (record s { job_requests = q; pushed = s.pushed ++ r ∷ [] })
  ]

  -- The service `ExecuteComputation`: only one party takes requests.
  unfoldable pub execute_computation : ℕ → ℕ → ℕ → R → State R → Option (State R)
  execute_computation max_size party_id sp_id r s =
      if party_id == sp_id then push_job_req max_size r s else some s

  -- The first step of the loop.
  unfoldable pub take_request : State R → Option (State R)
  take_request s = elim s.taken [
    | some r ↦ none
    | none ↦ elim (pop s.job_requests) [
      | none ↦ none
      | some (r, q) ↦ some (record s { job_requests = q; taken = some r })
    ]
  ]

  -- `sendJobInfo`, with what `ExecuteComputeFromSP` and `asyncRun` do at each party.
  unfoldable pub send_job_info : ℕ → ℕ → R → ℕ → List (Thread R)
  send_job_info n_parties party_id r id = table n_parties 1 (λ pt_id. record {
    party = pt_id;
    job_id = id;
    request = r;
    is_job_trigger_party = pt_id == party_id;
  })

  -- The second and third step of the loop.
  unfoldable pub start_job : ℕ → ℕ → State R → Option (State R)
  start_job n_parties party_id s = elim s.taken [
    | none ↦ none
    | some r ↦ elim (pop s.job_ids) [
      | none ↦ none
      | some (id, q) ↦ some (record s {
        job_ids = q;
        taken = none;
        threads = s.threads ++ send_job_info n_parties party_id r id;
        started = s.started ++ (id, r) ∷ [];
      })
    ]
  ]

  -- The thread at a position, and the others.
  unfoldable pub thread_at : ℕ → List (Thread R) → Option (Thread R × List (Thread R))
  thread_at i [] = none
  thread_at zero (th ∷ ths) = some (th, ths)
  thread_at (suc i) (th ∷ ths) = elim (thread_at i ths) [
    | none ↦ none
    | some (found, rest) ↦ some (found, th ∷ rest)
  ]

  -- The end of a thread, whether the method is known or not and whether the job returns or throws. A
  -- job that waits for a share that never comes does not reach it.
  unfoldable pub end_thread : ℕ → ℕ → State R → Option (State R)
  end_thread max_size i s = elim (thread_at i s.threads) [
    | none ↦ none
    | some (th, rest) ↦
        if th.is_job_trigger_party
        then elim (push max_size th.job_id s.job_ids) [
          | none ↦ none
          | some q ↦ some (record s { job_ids = q; threads = rest })
        ]
        else some (record s { threads = rest })
  ]

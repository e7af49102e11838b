-- ===== src/JobManager/Tests.antt =====
-- Runs of the manager with two parties, of which the first triggers the jobs.
use quick_mpc.Prelude.{
  ℕ, ◌+◌, ◌≤◌, ◌≡◌, refl, Bool, true, false, none, some, List, [], ◌∷◌, ◌++◌, arith,
}
use quick_mpc.TransactionQueue.{pop, push, default_max_size}
use quick_mpc.JobManager.{
  Thread, State, constructed, push_job_ids, push_job_req, take_request, send_job_info, start_job,
  thread_at, end_thread,
}
use quick_mpc.JobManager.Steps.{
  total, total_returns, WorkStep, takes, starts, ends, works, pushes, Step, Reach, built, next,
  taken_list, requests_of,
}
use quick_mpc.JobManager.Safety.{indicator, job_ids_lem, requests_lem}
use quick_mpc.JobManager.Progress.{Advances, WorkStep-progress}

abbrev thread : ℕ → ℕ → Bool → Thread ℕ
thread party job_id trigger = record {
  party = party;
  job_id = job_id;
  request = 7;
  is_job_trigger_party = trigger;
}

abbrev fresh_manager : State ℕ
fresh_manager = record {
  job_ids = 1 ∷ 2 ∷ 3 ∷ 4 ∷ 5 ∷ [];
  job_requests = [];
  taken = none;
  threads = [];
  pushed = [];
  started = [];
}

abbrev asked : State ℕ
asked = record fresh_manager { job_requests = 7 ∷ []; pushed = 7 ∷ [] }

abbrev holding : State ℕ
holding = record asked { job_requests = []; taken = some 7 }

abbrev running : State ℕ
running = record holding {
  job_ids = 2 ∷ 3 ∷ 4 ∷ 5 ∷ [];
  taken = none;
  threads = thread 1 1 true ∷ thread 2 1 false ∷ [];
  started = (1, 7) ∷ [];
}

-- The party that triggers has ended its job, and the other one still runs it: the identifier is free.
abbrev ended : State ℕ
ended = record running { job_ids = 2 ∷ 3 ∷ 4 ∷ 5 ∷ 1 ∷ []; threads = thread 2 1 false ∷ [] }

holding-running : WorkStep default_max_size 2 1 holding running
unfolding start_job pop send_job_info
holding-running = starts refl

asked-Step : Step default_max_size 2 1 fresh_manager asked
unfolding push_job_req push
asked-Step = pushes 7 refl

holding-Step : Step default_max_size 2 1 asked holding
unfolding take_request pop
holding-Step = works (takes refl)

running-Reach : Reach default_max_size 2 1 running
unfolding constructed push_job_ids push
running-Reach = next (next (next (built refl) asked-Step) holding-Step) (works holding-running)

ended-Reach : Reach default_max_size 2 1 ended
unfolding end_thread thread_at push
ended-Reach = next running-Reach (works (ends 0 refl))

job_ids_lem_example :
    total (indicator 1) running.job_ids + total_returns (indicator 1) running.threads ≡ 1
job_ids_lem_example =
    job_ids_lem default_max_size 2 1 running 1 (omega arith) (omega arith) (omega arith)
      running-Reach

requests_lem_example :
    (◌≡◌ {A = List ℕ} (7 ∷ []) (requests_of running.started ++ (taken_list {R = ℕ} none ++ [])))
    × (0 ≤ default_max_size)
requests_lem_example =
    requests_lem default_max_size 2 1 running (omega arith) (omega arith) (omega arith)
      running-Reach

WorkStep-progress_example : Advances default_max_size 2 1 ended
WorkStep-progress_example =
    WorkStep-progress default_max_size 2 1 ended (omega arith) (omega arith) (omega arith)
      ended-Reach

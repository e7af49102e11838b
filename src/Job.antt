-- ===== src/Job.antt =====
-- src/ComputationContainer/Job/JobStatus.hpp, Job/JobBase.hpp, Model/ModelBase.cpp, Model/ModelManager.hpp and
-- Server/ManageToComputationContainer/Server.cpp: the status of a job, the run of a model
-- through its phases, whose reading and writing are those of a job, and the answer to a request
-- for a prediction. What the database and the
-- computation do is an argument; `none` and `false` stand for an exception.
pub mod Progress
mod Tests
use quick_mpc.Prelude.{
  ℕ, Bool, true, false, Option, none, some, List, [], ◌∷◌, ◌++◌, ◌==◌, if◌then◌else◌,
}

-- `pb_common_types::JobStatus`.
pub data Status : Type 0 where
  unknown : Status
  pre_job : Status
  read_db : Status
  compute : Status
  write_db : Status
  completed : Status

unfoldable pub status_number : Status → ℕ
status_number unknown = 0
status_number pre_job = 1
status_number read_db = 2
status_number compute = 3
status_number write_db = 4
status_number completed = 5

-- The value that stands next in the enumeration.
unfoldable pub following : Status → Option Status
following unknown = some pre_job
following pre_job = some read_db
following read_db = some compute
following compute = some write_db
following write_db = some completed
following completed = none

-- `StatusManager`, with what the database has been told, the last at the end.
pub record StatusManager : Type 0 where
  pub status : Status
  pub sent : List Status

-- What `initJobID` leaves of a manager without an identifier, once the database has taken the job.
pub registered : StatusManager
registered = record { status = pre_job; sent = pre_job ∷ [] }

-- A phase returns or throws; the status manager stays.
pub data Phase (A : Type 0) : Type 0 where
  returned : A → StatusManager → Phase A
  threw : StatusManager → Phase A

pub and_then : {A B : Type 0} → Phase A → (A → StatusManager → Phase B) → Phase B
and_then (returned a m) f = f a m
and_then (threw m) f = threw m

-- `nextStatus`: the status is set before the database is told.
pub next_status : (Status → Bool) → StatusManager → Phase (Unit {0})
next_status updates m = elim (following m.status) [
  | none ↦ threw m
  | some s ↦
      if updates s
      then returned tt (record { status = s; sent = m.sent ++ s ∷ [] })
      else threw (record { status = s; sent = m.sent })
]

pub record Services (T R : Type 0) : Type 0 where
  pub updates : Status → Bool
  pub read_table : Option T
  pub computation : T → Option R
  pub write_result : R → Bool

pub attempt : {A : Type 0} → Option A → StatusManager → Phase A
attempt none m = threw m
attempt (some a) m = returned a m

-- The handlers of `ModelBase::run` write to the log only.
pub caught : Phase (Unit {0}) → StatusManager
caught (returned u m) = m
caught (threw m) = m

module _ {T R : Type 0} where
  -- `readDb`.
  pub read_phase : Services T R → StatusManager → Phase T
  read_phase s m = and_then (next_status s.updates m) (λ u m.
      and_then (attempt s.read_table m)
        (λ t m. and_then (next_status s.updates m) (λ u m. returned t m)))

  -- `writeDb`.
  pub write_phase : Services T R → R → StatusManager → Phase (Unit {0})
  write_phase s r m =
      and_then (next_status s.updates m)
        (λ u m. if s.write_result r then next_status s.updates m else threw m)

  -- What `run` tries.
  pub phases : Services T R → StatusManager → Phase (Unit {0})
  phases s m =
      and_then (read_phase s m)
        (λ t m. and_then (attempt (s.computation t) m) (λ r m. write_phase s r m))

  -- `ModelBase::run` behind `initJobID`.
  pub run : Services T R → StatusManager
  run s = caught (phases s registered)

  -- `ModelBase::run`, where `registers` tells that the database takes the job. Its exception is not
  -- caught: `none`.
  pub run_model : Bool → Services T R → Option StatusManager
  run_model registers s = if registers then some (run s) else none

-- The answers of `Predict`.
pub data Answer : Type 0 where
  ok : Answer
  invalid_argument : Answer
  read_error : Answer
  computation_error : Answer

-- `Predict` on what `ModelManager::push` returns.
unfoldable pub answer : ℕ → Answer
answer status =
    if status == 0
    then invalid_argument
    else if status == 1
    then read_error
    else if status == 2
    then computation_error
    else ok

-- `push` and `Predict`; `none` is a model that `select` does not know.
pub predict : {T R : Type 0} → Option (Services T R) → Answer
predict none = answer 0
predict (some s) = answer (status_number ((run s).status))

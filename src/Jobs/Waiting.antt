-- ===== src/Jobs/Waiting.antt =====
-- internal/jet/job.go: `EnsureJobState`, and base/commands/job/common.go: `WaitJobState`. The cluster
-- and the clock are a state of any type; `get_job_list` is (Jet).GetJobList, which calls the cluster.
pub mod Rounds
use hazelcast_commandline_cl.Prelude.{
  ℕ, zero, suc, Bool, true, false, Option, some, none, List, [], ◌∷◌, ◌==◌, if◌then◌else◌, ◌⊎◌, inl,
  inr,
}
use hazelcast_commandline_cl.Prelude.Int.{ℤ}
use hazelcast_commandline_cl.Codec.Summary.{JobAndSqlSummary}
use hazelcast_commandline_cl.Jobs.Finding.{signed, same_id, job_status_failed, job_status_completed}

-- `ErrJobFailed` and `ErrJobNotFound`
pub data JobError : Type 0 where
  job_failed job_not_found : JobError

-- What `EnsureJobState` says of the job once it is found.
abbrev pub judge : ℕ → ℕ → Bool × ℕ × Option JobError
judge status state =
    if status == state
    then (true, status, none)
    else if status == job_status_completed
    then (false, status, none)
    else if status == job_status_failed
    then (false, status, some job_failed)
    else (false, status, none)

-- The second result is an int32; -1 is 0xffff_ffff.
unfoldable pub ensure_job_state : List JobAndSqlSummary → ℤ → ℕ → Bool × ℕ × Option JobError
ensure_job_state [] job_id state = (false, 0xffff_ffff, some job_not_found)
ensure_job_state (j ∷ jobs) job_id state =
    if same_id (signed j.job_id) job_id
    then judge j.status state
    else ensure_job_state jobs job_id state

module _ {World CallError : Type 0}
    (get_job_list : World → (List JobAndSqlSummary ⊎ CallError) × World)
    (sleep : World → World) where
  -- The error that `WaitJobState` returns, `none` for nil.
  abbrev pub Ending : Type 0
  Ending = Option (CallError ⊎ JobError) × World

  abbrev pub after_ensure :
      (World → Option Ending) → World → Bool × ℕ × Option JobError → Option Ending
  after_ensure again w (ok, status, some err) = some (some (inr err), w)
  after_ensure again w (true, status, none) = some (none, w)
  after_ensure again w (false, status, none) = again (sleep w)

  abbrev pub after_list :
      (World → Option Ending) → ℤ → ℕ → (List JobAndSqlSummary ⊎ CallError) × World → Option Ending
  after_list again job_id state (inr e, w) = some (some (inl e), w)
  after_list again job_id state (inl jobs, w) =
      after_ensure again w (ensure_job_state jobs job_id state)

  -- The loop of `WaitJobState`; `none` if it does not return within the fuel.
  unfoldable pub wait_job_state : ℕ → ℤ → ℕ → World → Option Ending
  wait_job_state zero job_id state w = none
  wait_job_state (suc fuel) job_id state w =
      after_list (wait_job_state fuel job_id state) job_id state (get_job_list w)

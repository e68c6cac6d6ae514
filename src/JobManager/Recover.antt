-- ===== src/JobManager/Recover.antt =====
-- `recover_due`: each waiting job whose time has come is tried again.
use remote_control_pjt.Prelude.{
  ℕ, ◌+◌, leb, Bool, true, false, not, String, Option, none, some, List, [], ◌∷◌, ◌==◌, string_eq,
  nat_eq, option_eq, if◌then◌else◌,
}
use remote_control_pjt.States.{JobState, state_eq, is_terminal}
use remote_control_pjt.Statuses.{recovery_mode_eq}
use remote_control_pjt.Records.{JobRecord, RecoveryRecord}
use remote_control_pjt.World.{Action, pure, ◌>>=◌, ◌>>◌}
use remote_control_pjt.Repositories.Jobs
use remote_control_pjt.Repositories.Recovery
use remote_control_pjt.JobManager.Config.{Config}
use remote_control_pjt.JobManager.Retries.{retry_lease, retry_quota}
use remote_control_pjt.JobManager.HostRetries.{retry_host}

-- `_is_due`
abbrev pub is_due : Option ℕ → ℕ → Bool
is_due none t = true
is_due (some at') t = leb at' t

module _ (c : Config) where
  unfoldable pub retry_due : String → JobRecord → RecoveryRecord → Action Bool
  unfolding retry_lease retry_quota retry_host
  retry_due new_session_id job r =
      if job.state == JobState.waiting_quota
      then retry_quota c job r
      else if job.state == JobState.waiting_lease
      then retry_lease c new_session_id job r
      else if job.state == JobState.waiting_host
      then retry_host c new_session_id job r
      else pure false

  -- One turn of the loop: whether the job has been recovered.
  unfoldable pub recover_record : String → ℕ → RecoveryRecord → Action Bool
  unfolding retry_due
  recover_record new_session_id t r = do
    found ← Jobs.get r.job_id
    elim found [
      | none ↦ Recovery.delete r.job_id >> pure false
      | some job ↦
          if is_terminal job.state
          then Recovery.delete r.job_id >> pure false
          else if not (is_due r.next_retry_at t)
          then pure false
          else retry_due new_session_id job r
    ]

  abbrev counted : Bool → ℕ → ℕ
  counted true n = n + 1
  counted false n = n

  -- Each record comes with the id that a session created for it would draw.
  unfoldable pub recover_records : ℕ → List RecoveryRecord → (String → String) → Action ℕ
  unfolding recover_record
  recover_records t [] new_session_id = pure 0
  recover_records t (r ∷ rs) new_session_id = do
    recovered ← recover_record (new_session_id r.job_id) t r
    n ← recover_records t rs new_session_id
    pure (counted recovered n)

  -- `recover_due`
  unfoldable pub recover_due : ℕ → (String → String) → Action ℕ
  unfolding recover_records
  recover_due t new_session_id = do
    records ← Recovery.list
    recover_records t records new_session_id

-- ===== src/JobManager/Startup.antt =====
-- A user's `retry_waiting`, and the leases when the controller starts (`_reconcile_execution_leases`).
use remote_control_pjt.Prelude.{
  ℕ, ◌+◌, Bool, true, not, ◌||◌, String, Option, none, some, List, [], ◌∷◌, keep, contains, ◌==◌,
  string_eq, option_eq, if◌then◌else◌,
}
use remote_control_pjt.Result.{Error, ok, err, is_lease_busy}
use remote_control_pjt.Json.{object, text, flag}
use remote_control_pjt.States.{JobState, state_eq, is_terminal, value}
use remote_control_pjt.Statuses.{RecoveryKind, RecoveryMode, recovery_mode_eq}
use remote_control_pjt.Records.{JobRecord, RecoveryRecord, ExecutionLeaseRecord}
use remote_control_pjt.World.{Action, pure, raise, raise_if, lift, outcome, now, when, ◌>>=◌, ◌>>◌}
use remote_control_pjt.Projects.{get_project, path_for, non_empty}
use remote_control_pjt.ProjectSessions.{is_set}
use remote_control_pjt.ExecutionLeases
use remote_control_pjt.Repositories.Events.{append}
use remote_control_pjt.Repositories.Jobs
use remote_control_pjt.Repositories.Leases
use remote_control_pjt.Repositories.Recovery
use remote_control_pjt.JobManager.Config.{
  Config, quota_resume_instruction, restart_resume_instruction,
}
use remote_control_pjt.JobManager.Lifecycle.{require, acquire_execution_lease}
use remote_control_pjt.JobManager.Waits.{upsert_recovery, mode_value}
use remote_control_pjt.JobManager.Retries.{retry_lease, retry_quota}
use remote_control_pjt.JobManager.HostRetries.{retry_host}

abbrev waiting_states : List JobState
waiting_states = JobState.waiting_host ∷ JobState.waiting_lease ∷ JobState.waiting_quota ∷ []

-- `RecoveryKind.value`
unfoldable pub kind_value : RecoveryKind → String
kind_value RecoveryKind.quota = "QUOTA"
kind_value RecoveryKind.host = "HOST"
kind_value RecoveryKind.restart = "RESTART"
kind_value RecoveryKind.lease = "LEASE"

abbrev restart_mode : JobRecord → RecoveryMode
restart_mode job =
    if is_set job.external_session_id then RecoveryMode.resume else RecoveryMode.start

abbrev wait_kind : JobState → RecoveryKind
wait_kind s = if s == JobState.waiting_quota then RecoveryKind.quota else RecoveryKind.host

abbrev wait_instruction : JobRecord → Option String
wait_instruction job =
    if job.state == JobState.waiting_quota
    then some quota_resume_instruction
    else if restart_mode job == RecoveryMode.resume
    then some restart_resume_instruction
    else none

abbrev queue_instruction : JobRecord → String
queue_instruction job =
    if restart_mode job == RecoveryMode.resume then restart_resume_instruction else job.instruction

abbrev rebuilt_row :
    RecoveryKind → RecoveryMode → ℕ → Option String → RecoveryRecord → RecoveryRecord
rebuilt_row kind mode t instruction r = record r {
  kind = kind;
  mode = mode;
  attempt_count = 0;
  next_retry_at = some t;
  execution_id = none;
  resume_instruction = instruction;
  last_error = some "manual retry reconstructed missing recovery metadata";
}

-- A job that waits without a recovery row gets one again.
unfoldable pub rebuild_record : JobRecord → Action RecoveryRecord
unfolding upsert_recovery
rebuild_record job =
    if job.state == JobState.waiting_lease
    then (do
      place ← Recovery.next_queue_position
      t ← now
      upsert_recovery job.id (λ r.
          record (rebuilt_row RecoveryKind.lease (restart_mode job) t (some (queue_instruction job))
            r) { queue_position = some place }))
    else (do
      t ← now
      upsert_recovery job.id
          (rebuilt_row (wait_kind job.state) (restart_mode job) t (wait_instruction job)))

unfoldable pub record_of : JobRecord → Option RecoveryRecord → Action RecoveryRecord
unfolding rebuild_record
record_of job none = rebuild_record job
record_of job (some r) = pure r

abbrev deferral : JobState → String
deferral s =
    if s == JobState.waiting_lease
    then "working tree or project session is still busy"
    else "required host is still unavailable"

-- The states whose jobs may hold a working tree.
abbrev unended_states : List JobState
unended_states =
    keep (λ s. not (is_terminal s))
      (JobState.queued ∷ JobState.assigned ∷ JobState.starting ∷ JobState.running
        ∷ JobState.waiting_agent ∷ JobState.waiting_human ∷ JobState.waiting_host
        ∷ JobState.waiting_lease ∷ JobState.waiting_quota ∷ JobState.paused ∷ JobState.cancelling
        ∷ JobState.failed ∷ JobState.cancelled ∷ JobState.completed ∷ [])

-- The host that an unfinished job holds a working tree on.
abbrev pub holding_host : Option JobRecord → Option (JobRecord × String)
holding_host none = none
holding_host (some job) =
    if is_terminal job.state || job.state == JobState.waiting_lease
    then none
    else elim (non_empty job.assigned_host) [ none ↦ none | some h ↦ some (job, h) ]

module _ (c : Config) where
  unfoldable pub retry_by_state : String → JobRecord → RecoveryRecord → Action Bool
  retry_by_state new_session_id job r =
      if job.state == JobState.waiting_quota
      then retry_quota c job r
      else if job.state == JobState.waiting_lease
      then retry_lease c new_session_id job r
      else retry_host c new_session_id job r

  -- `retry_waiting`. The job is read once more under its lock; in one step both reads agree.
  unfoldable pub retry_waiting : String → String → Action JobRecord
  unfolding record_of retry_by_state value kind_value mode_value
  retry_waiting new_session_id job_id = do
    job ← require job_id
    raise_if (not (contains waiting_states job.state)) Error.value_error
    found ← Recovery.get job.id
    r ← record_of job found
    append "WAITING_JOB_RETRY_REQUESTED" (some job.id) (some job.project_id) job.assigned_host (
        object (
          ("state", text (value job.state))
          ∷ ("kind", text (kind_value r.kind))
          ∷ ("mode", text (mode_value r.mode))
          ∷ ("forced", flag true)
          ∷ []))
    resumed ← retry_by_state new_session_id job r
    when (not resumed) (
        append "WAITING_JOB_RETRY_DEFERRED" (some job.id) (some job.project_id) job.assigned_host
          (object (("state", text (value job.state)) ∷ ("reason", text (deferral job.state)) ∷ []))
        >> pure tt)
    require job.id

  -- A lease of an unfinished job must be for the host and the directory that the job is on.
  unfoldable pub check_lease : ExecutionLeaseRecord → JobRecord × String → Action ℕ
  check_lease lease (job, host_id) = do
    project ← lift (get_project c.projects job.project_id)
    path ← lift (path_for project host_id)
    raise_if (not (lease.host_id == host_id) || not (lease.working_directory == c.canonical path))
        Error.runtime_error
    pure 0

  -- One turn of the first loop: the leases that it has given back.
  unfoldable pub reconcile_lease : ExecutionLeaseRecord → Action ℕ
  unfolding check_lease
  reconcile_lease lease = do
    job ← Jobs.get lease.job_id
    elim (holding_host job) [
      | none ↦ ExecutionLeases.release_for_job lease.job_id >> pure 1
      | some held ↦ check_lease lease held
    ]

  unfoldable pub reconcile_leases : List ExecutionLeaseRecord → Action ℕ
  unfolding reconcile_lease
  reconcile_leases [] = pure 0
  reconcile_leases (l ∷ ls) = do n ← reconcile_lease l; m ← reconcile_leases ls; pure (n + m)

  unfoldable pub acquire_for : JobRecord → String → Action (Unit {0})
  acquire_for job host_id = do
    taken ← outcome (
        acquire_execution_lease c.canonical c.resolve_local c.lease_key c.projects c.local_host_id
          job.id host_id)
    elim taken [
      | ok u ↦ pure tt
      | err x ↦ if is_lease_busy x then raise Error.runtime_error else raise x
    ]

  -- The second loop: each unfinished job with a host takes its working tree.
  unfoldable pub acquire_all : List JobRecord → Action (Unit {0})
  unfolding acquire_for
  acquire_all [] = pure tt
  acquire_all (job ∷ jobs) = do
    elim (holding_host (some job)) [ none ↦ pure tt | some (j, host_id) ↦ acquire_for j host_id ]
    acquire_all jobs

  -- `_reconcile_execution_leases`
  unfoldable pub reconcile_execution_leases : Action ℕ
  unfolding reconcile_leases acquire_all
  reconcile_execution_leases = do
    leases ← Leases.list
    repaired ← reconcile_leases leases
    jobs ← Jobs.list_states unended_states
    acquire_all jobs
    pure repaired

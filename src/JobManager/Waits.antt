-- ===== src/JobManager/Waits.antt =====
-- The waits of a job: for a host, for a working tree, for the quota.
use remote_control_pjt.Prelude.{
  ℕ, ◌+◌, not, String, Option, none, some, List, [], ◌∷◌, ◌++◌, contains, ◌==◌, string_eq, nat_eq,
  option_eq, if◌then◌else◌, pos,
}
use remote_control_pjt.Json.{object, text, num, opt_num}
use remote_control_pjt.States.{JobState, state_eq, is_terminal}
use remote_control_pjt.Statuses.{SessionStatus, RecoveryKind, RecoveryMode}
use remote_control_pjt.Records.{JobRecord, RecoveryRecord}
use remote_control_pjt.Memory.{RunHandle}
use remote_control_pjt.World.{Action, pure, gets, modify, now, when, ◌>>=◌, ◌>>◌}
use remote_control_pjt.Projects.{or_text}
use remote_control_pjt.Quota.{QuotaSignal, retry_at}
use remote_control_pjt.Sessions
use remote_control_pjt.Repositories.Events.{append}
use remote_control_pjt.Repositories.Recovery
use remote_control_pjt.JobManager.Config.{Config, quota_resume_instruction}
use remote_control_pjt.JobManager.Lifecycle.{require, transition}
use remote_control_pjt.JobManager.Notices.{notify}

-- `self._handles.get(job_id)`
abbrev pub handle_of : String → List (String × RunHandle) → Option RunHandle
handle_of k [] = none
handle_of k ((j, h) ∷ hs) = if j == k then some h else handle_of k hs

-- `getattr(handle, "execution_id", None)`
abbrev pub execution_of : Option RunHandle → Option String
execution_of none = none
execution_of (some h) = h.execution_id

-- `RecoveryMode.value`
unfoldable pub mode_value : RecoveryMode → String
mode_value RecoveryMode.start = "START"
mode_value RecoveryMode.resume = "RESUME"
mode_value RecoveryMode.adopt = "ADOPT"
mode_value RecoveryMode.finalize = "FINALIZE"
mode_value RecoveryMode.cancel = "CANCEL"
mode_value RecoveryMode.qa = "QA"

-- A row of which only the key is set.
abbrev pub blank : String → ℕ → RecoveryRecord
blank job_id t = record {
  job_id = job_id;
  kind = RecoveryKind.host;
  mode = RecoveryMode.start;
  attempt_count = 0;
  next_retry_at = none;
  execution_id = none;
  resume_instruction = none;
  last_error = none;
  queue_position = none;
  created_at = t;
}

-- `recovery.upsert(job_id, …)`: the call's keywords, as a change of the row.
unfoldable pub upsert_recovery : String → (RecoveryRecord → RecoveryRecord) → Action RecoveryRecord
upsert_recovery job_id changes = do t ← now; Recovery.upsert (changes (blank job_id t)) changes

abbrev attempts_of : Option RecoveryRecord → ℕ
attempts_of none = 0
attempts_of (some r) = r.attempt_count

-- `existing.execution_id if existing is not None else …`
abbrev pub execution_or : Option RecoveryRecord → Option RunHandle → Option String
execution_or none h = execution_of h
execution_or (some r) h = r.execution_id

-- The place in the queue: the one that the job has, or one behind all others.
unfoldable pub queue_place : Option RecoveryRecord → Action ℕ
queue_place none = Recovery.next_queue_position
queue_place (some r) = elim r.queue_position [
  | none ↦ Recovery.next_queue_position
  | some p ↦ pure p
]

-- `_enter_host_wait`
unfoldable pub enter_host_wait :
    String → RecoveryMode → String → Option String → Option String → Action (Option RecoveryRecord)
unfolding upsert_recovery mode_value
enter_host_wait job_id mode error assigned_host instruction = do
  job ← require job_id
  if is_terminal job.state then pure none else do
    existing ← Recovery.get job_id
    handle ← gets (λ w. handle_of job_id w.handles)
    Sessions.mark job_id SessionStatus.waiting_host
    when (not (job.state == JobState.waiting_host)) (
        transition job_id JobState.waiting_host
          (λ r. record r { assigned_host = or_text assigned_host job.assigned_host })
        >> pure tt)
    t ← now
    stored ← upsert_recovery job_id (λ r. record r {
      kind = RecoveryKind.host;
      mode = mode;
      attempt_count = attempts_of existing;
      next_retry_at = some t;
      execution_id = execution_or existing handle;
      resume_instruction = instruction;
      last_error = some error;
    })
    append "HOST_WAIT" (some job.id) (some job.project_id) (or_text assigned_host job.assigned_host)
        (object (("mode", text (mode_value mode)) ∷ ("error", text error) ∷ []))
    notify job_id
    pure (some stored)

-- `_enter_lease_wait`
unfoldable pub enter_lease_wait :
    String → RecoveryMode → String → String → Option String → Action (Option RecoveryRecord)
unfolding upsert_recovery queue_place mode_value
enter_lease_wait job_id mode error assigned_host instruction = do
  job ← require job_id
  if is_terminal job.state then pure none else do
    when (not (job.state == JobState.waiting_lease)) (
        transition job_id JobState.waiting_lease
          (λ r. record r { assigned_host = some assigned_host; error = some error })
        >> pure tt)
    existing ← Recovery.get job_id
    place ← queue_place existing
    t ← now
    stored ← upsert_recovery job_id (λ r. record r {
      kind = RecoveryKind.lease;
      mode = mode;
      attempt_count = 0;
      next_retry_at = some t;
      execution_id = none;
      resume_instruction = instruction;
      last_error = some error;
      queue_position = some place;
    })
    append "LEASE_QUEUE_WAIT" (some job.id) (some job.project_id) (some assigned_host)
        (object (("mode", text (mode_value mode)) ∷ ("reason", text error) ∷ []))
    notify job_id
    pure (some stored)

module _ (c : Config) where
  abbrev quota_row :
      QuotaSignal
      → Option RecoveryRecord
      → Option String
      → Option String
      → ℕ
      → RecoveryRecord
      → RecoveryRecord
  quota_row signal existing execution_id instruction t r = record r {
    kind = RecoveryKind.quota;
    mode = RecoveryMode.resume;
    attempt_count = attempts_of existing + 1;
    next_retry_at = some t;
    execution_id = execution_id;
    resume_instruction = or_text instruction (some quota_resume_instruction);
    last_error = some signal.message;
  }

  abbrev grace_of : Option ℕ → ℕ
  grace_of none = 0
  grace_of (some t) = c.quota_reset_grace_seconds

  -- The wait of a job whose turn has hit the usage limit.
  unfoldable pub begin_quota_wait :
      JobRecord → QuotaSignal → Option String → Action (Option RecoveryRecord)
  unfolding upsert_recovery retry_at
  begin_quota_wait job signal instruction = do
    existing ← Recovery.get job.id
    t ← now
    let next_retry =
        retry_at (attempts_of existing + 1) c.quota_retry_initial_seconds c.quota_retry_max_seconds
          signal.reset_at c.quota_reset_grace_seconds t
    handle ← gets (λ w. handle_of job.id w.handles)
    stored ←
        upsert_recovery job.id
          (quota_row signal existing (execution_of handle) instruction next_retry)
    Sessions.mark job.id SessionStatus.waiting_quota
    transition job.id JobState.waiting_quota (λ r. r)
    append "QUOTA_WAIT" (some job.id) (some job.project_id) job.assigned_host (
        object (
          ("attempt", num (pos (attempts_of existing + 1)))
          ∷ ("next_retry_at", num (pos next_retry))
          ∷ ("reset_at", opt_num signal.reset_at)
          ∷ ("reset_grace_seconds", num (pos (grace_of signal.reset_at)))
          ∷ []))
    notify job.id
    modify (λ w. record w { stops = w.stops ++ job.id ∷ [] })
    pure (some stored)

  -- `_enter_quota_wait`
  unfoldable pub enter_quota_wait :
      String → QuotaSignal → Option String → Action (Option RecoveryRecord)
  unfolding begin_quota_wait
  enter_quota_wait job_id signal instruction = do
    job ← require job_id
    if job.state == JobState.waiting_quota
        then Recovery.get job_id
        else if not (contains (JobState.starting ∷ JobState.running ∷ []) job.state)
        then pure none
        else begin_quota_wait job signal instruction

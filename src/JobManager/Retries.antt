-- ===== src/JobManager/Retries.antt =====
-- `_retry_lease` and `_retry_quota`: a waiting job starts again once its working tree or its quota is
-- there.
use remote_control_pjt.Prelude.{
  Bool, true, false, not, String, Option, none, some, [], ◌∷◌, ◌==◌, string_eq, nat_eq, option_eq,
  if◌then◌else◌,
}
use Prim.Native.String.{◌++◌ as concat}
use remote_control_pjt.Result.{ok, err, is_host_unavailable, is_session_busy, is_lease_busy}
use remote_control_pjt.Json.{object, text, num}
use remote_control_pjt.Prelude.{pos}
use remote_control_pjt.States.{JobState, state_eq}
use remote_control_pjt.Statuses.{SessionStatus, RecoveryKind, RecoveryMode, recovery_mode_eq}
use remote_control_pjt.Records.{JobRecord, RecoveryRecord, ProjectSessionRecord}
use remote_control_pjt.Memory.{Task}
use remote_control_pjt.World.{Action, pure, raise, outcome, ◌>>=◌, ◌>>◌}
use remote_control_pjt.Projects.{non_empty}
use remote_control_pjt.Sessions
use remote_control_pjt.ProjectSessions
use remote_control_pjt.ProjectSessions.{is_set}
use remote_control_pjt.ExecutionLeases
use remote_control_pjt.Hosts.Registry
use remote_control_pjt.Repositories.Events.{append}
use remote_control_pjt.Repositories.Jobs
use remote_control_pjt.JobManager.Config.{
  Config, quota_resume_instruction, retry_resume_instruction,
}
use remote_control_pjt.JobManager.Lifecycle.{transition}
use remote_control_pjt.JobManager.Notices.{notify}
use remote_control_pjt.JobManager.Queue.{or_requested}
use remote_control_pjt.JobManager.Waits.{upsert_recovery, mode_value}
use remote_control_pjt.JobManager.Creation.{start_task, resolve_host, assign}

abbrev pub or_instruction : Option String → String → String
or_instruction a b = elim (non_empty a) [ none ↦ b | some s ↦ s ]

-- The row of a job that no longer waits.
abbrev pub resumed_row :
    RecoveryKind
    → RecoveryMode
    → RecoveryRecord
    → Option String
    → Option String
    → RecoveryRecord
    → RecoveryRecord
resumed_row kind mode old execution_id instruction r = record r {
  kind = kind;
  mode = mode;
  attempt_count = old.attempt_count;
  next_retry_at = none;
  execution_id = execution_id;
  resume_instruction = instruction;
  last_error = old.last_error;
}

-- The row of a job that leaves the queue for a working tree.
abbrev pub dequeued_row : RecoveryRecord → RecoveryRecord → RecoveryRecord
dequeued_row old r =
    record (resumed_row RecoveryKind.lease old.mode old none old.resume_instruction r) {
      last_error = none;
      queue_position = none;
    }

abbrev pub same_change : JobRecord → JobRecord
same_change r = r

-- The job's agent runs again, with an instruction.
unfoldable pub run_again : String → String → Action (Unit {0})
unfolding start_task
run_again job_id instruction = do
  transition job_id JobState.starting same_change
  transition job_id JobState.running same_change
  Sessions.mark job_id SessionStatus.active
  start_task job_id (Task.execute_resume instruction)

unfoldable pub run_qa_again : String → Action (Unit {0})
unfolding start_task
run_qa_again job_id = do
  transition job_id JobState.starting same_change
  transition job_id JobState.running same_change
  start_task job_id Task.execute_qa_recovery

-- How a job that has got its working tree starts.
unfoldable pub start_queued : String → RecoveryRecord → Action (Unit {0})
unfolding run_again run_qa_again
start_queued job_id r =
    if r.mode == RecoveryMode.start
    then start_task job_id Task.execute_new
    else if r.mode == RecoveryMode.qa
    then run_qa_again job_id
    else run_again job_id (or_instruction r.resume_instruction retry_resume_instruction)

-- `project_session.external_session_id != job.external_session_id`
abbrev pub adopt_session : JobRecord → ProjectSessionRecord → JobRecord → JobRecord
adopt_session job s r =
    if s.external_session_id == job.external_session_id
    then r
    else record r { external_session_id = s.external_session_id }

-- The working tree and the session are the job's.
unfoldable pub leave_queue :
    JobRecord → RecoveryRecord → String → ProjectSessionRecord → Action Bool
unfolding upsert_recovery mode_value start_queued
leave_queue job r host_id s = do
  Jobs.update job.id (λ j. record (adopt_session job s j) { error = none })
  upsert_recovery job.id (dequeued_row r)
  append "LEASE_QUEUE_RELEASED" (some job.id) (some job.project_id) (some host_id)
      (object (("mode", text (mode_value r.mode)) ∷ []))
  notify job.id
  start_queued job.id r
  pure true

-- The working tree is the job's, its session is not: the job gives the tree back and waits on.
unfoldable pub requeue : JobRecord → String → Action Bool
requeue job host_id = do
  ExecutionLeases.release_for_job job.id
  transition job.id JobState.waiting_lease (λ j. record j { assigned_host = some host_id })
  pure false

unfoldable pub retry_lease_session : String → JobRecord → RecoveryRecord → String → Action Bool
unfolding leave_queue requeue
retry_lease_session new_session_id job r host_id = do
  s ← outcome (
      ProjectSessions.acquire new_session_id job.project_id job.requested_by_user job.id
        job.external_session_id (some host_id))
  elim s [
    | ok session ↦ leave_queue job r host_id session
    | err x ↦ if is_session_busy x then requeue job host_id else raise x
  ]

module _ (c : Config) where
  -- The host of a retry and its working tree, or none where one of them is not there.
  unfoldable pub take_tree : JobRecord → String → Action (Option String)
  unfolding resolve_host
  take_tree job requested_host = do
    chosen ← outcome (resolve_host c job.project_id requested_host)
    elim chosen [
      | err x ↦ if is_host_unavailable x then pure none else raise x
      | ok host_id ↦ do
        assigned ← outcome (assign c job.id host_id)
        elim assigned [
          | err x ↦ if is_lease_busy x then pure none else raise x
          | ok moved ↦ pure (some host_id)
        ]
    ]

  -- `_retry_lease`
  unfoldable pub retry_lease : String → JobRecord → RecoveryRecord → Action Bool
  unfolding take_tree retry_lease_session
  retry_lease new_session_id job r =
      if not (job.state == JobState.waiting_lease) then pure false else do
        taken ← take_tree job (or_requested job)
        elim taken [
          | none ↦ pure false
          | some host_id ↦ retry_lease_session new_session_id job r host_id
        ]

  -- `if job.assigned_host and …: if not await self.hosts.is_online(job.assigned_host)`
  unfoldable pub host_is_there : Option String → Action Bool
  host_is_there host = elim (non_empty host) [
    | none ↦ pure true
    | some h ↦ Registry.is_online c.local_host_id c.heartbeat_timeout h
  ]

  -- `f"host {job.assigned_host!r} is offline"`
  abbrev pub offline_message : Option String → String
  offline_message none = "host None is offline"
  offline_message (some h) = concat "host " (concat (c.repr h) " is offline")

  -- `_retry_quota`
  unfoldable pub retry_quota : JobRecord → RecoveryRecord → Action Bool
  unfolding host_is_there upsert_recovery start_task
  retry_quota job r = do
    there ← host_is_there job.assigned_host
    if not there then pure false else do
      transition job.id JobState.running same_change
      Sessions.mark job.id SessionStatus.active
      append "QUOTA_RESUMED" (some job.id) (some job.project_id) job.assigned_host
          (object (("attempt", num (pos r.attempt_count)) ∷ []))
      let instruction = or_instruction r.resume_instruction quota_resume_instruction
      upsert_recovery job.id
          (resumed_row RecoveryKind.quota RecoveryMode.resume r r.execution_id (some instruction))
      start_task job.id (Task.execute_resume instruction)
      notify job.id
      pure true

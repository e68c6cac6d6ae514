-- ===== src/JobManager/HostRetries.antt =====
-- `_retry_host`: a job that waits for its host starts again once the host is there.
use remote_control_pjt.Prelude.{
  Bool, true, false, not, String, Option, none, some, [], ◌∷◌, ◌==◌, string_eq, nat_eq, option_eq,
  if◌then◌else◌,
}
use remote_control_pjt.Result.{ok, err, is_session_busy}
use remote_control_pjt.Json.{object, text}
use remote_control_pjt.States.{JobState, state_eq}
use remote_control_pjt.Statuses.{SessionStatus, RecoveryKind, RecoveryMode, recovery_mode_eq}
use remote_control_pjt.Records.{JobRecord, RecoveryRecord, ProjectWorkRecord}
use remote_control_pjt.Memory.{Task}
use remote_control_pjt.World.{Action, pure, raise, outcome, when, ◌>>=◌, ◌>>◌}
use remote_control_pjt.Projects.{non_empty}
use remote_control_pjt.Sessions
use remote_control_pjt.ProjectSessions
use remote_control_pjt.ProjectSessions.{is_set}
use remote_control_pjt.ExecutionLeases
use remote_control_pjt.Repositories.Events.{append}
use remote_control_pjt.Repositories.Jobs
use remote_control_pjt.Repositories.ProjectWork
use remote_control_pjt.JobManager.Config.{Config, restart_resume_instruction}
use remote_control_pjt.JobManager.Lifecycle.{transition}
use remote_control_pjt.JobManager.Notices.{notify}
use remote_control_pjt.JobManager.Queue.{or_requested}
use remote_control_pjt.JobManager.Waits.{upsert_recovery, enter_lease_wait, mode_value}
use remote_control_pjt.JobManager.Creation.{start_task}
use remote_control_pjt.JobManager.Retries.{
  resumed_row, same_change, or_instruction, adopt_session, take_tree,
}

module _ (c : Config) where
  abbrev of_work : Option ProjectWorkRecord → Option String
  of_work none = none
  of_work (some work) = if is_set work.task_id then non_empty work.host_id else none

  -- The host that a job's work is on, or else the one that its session is on, or else any.
  abbrev pub wanted_host : JobRecord → Option ProjectWorkRecord → String
  wanted_host job work = elim (of_work work) [
    | some h ↦ h
    | none ↦ if is_set job.external_session_id then or_requested job else job.requested_host
  ]

  -- How a job whose host is there again starts.
  unfoldable pub start_on_host : String → RecoveryRecord → Action (Unit {0})
  unfolding upsert_recovery start_task
  start_on_host job_id r =
      if r.mode == RecoveryMode.start
      then (do
        upsert_recovery job_id
            (resumed_row RecoveryKind.host RecoveryMode.start r r.execution_id r.resume_instruction)
        start_task job_id Task.execute_new)
      else if r.mode == RecoveryMode.finalize
      then (do
        transition job_id JobState.starting same_change
        upsert_recovery job_id (resumed_row r.kind RecoveryMode.finalize r none none)
        start_task job_id Task.execute_project_finalize)
      else if r.mode == RecoveryMode.qa
      then (do
        transition job_id JobState.starting same_change
        transition job_id JobState.running same_change
        upsert_recovery job_id (resumed_row r.kind RecoveryMode.qa r none none)
        start_task job_id Task.execute_qa_recovery)
      else (do
        transition job_id JobState.starting same_change
        transition job_id JobState.running same_change
        Sessions.mark job_id SessionStatus.active
        let instruction = or_instruction r.resume_instruction restart_resume_instruction
        upsert_recovery job_id
            (resumed_row r.kind RecoveryMode.resume r r.execution_id (some instruction))
        start_task job_id (Task.execute_resume instruction))

  unfoldable pub resume_on_host : JobRecord → RecoveryRecord → String → Action Bool
  unfolding start_on_host mode_value
  resume_on_host job r host_id = do
    start_on_host job.id r
    append "HOST_WAIT_RESUMED" (some job.id) (some job.project_id) (some host_id)
        (object (("mode", text (mode_value r.mode)) ∷ []))
    notify job.id
    pure true

  unfoldable pub retry_host_session : String → JobRecord → RecoveryRecord → String → Action Bool
  unfolding resume_on_host
  retry_host_session new_session_id job r host_id = do
    s ← outcome (
        ProjectSessions.acquire new_session_id job.project_id job.requested_by_user job.id
          job.external_session_id (some host_id))
    elim s [
      | err x ↦ if not (is_session_busy x) then raise x else do
        ExecutionLeases.release_for_job job.id
        enter_lease_wait job.id r.mode (c.message x) host_id r.resume_instruction
        pure false
      | ok session ↦ do
        when (not (session.external_session_id == job.external_session_id))
            (Jobs.update job.id (adopt_session job session) >> pure tt)
        resume_on_host job r host_id
    ]

  -- `_retry_host`
  unfoldable pub retry_host : String → JobRecord → RecoveryRecord → Action Bool
  unfolding take_tree retry_host_session
  retry_host new_session_id job r = if r.mode == RecoveryMode.adopt then pure false else do
    work ← ProjectWork.get job.id
    taken ← take_tree c job (wanted_host job work)
    elim taken [
      | none ↦ pure false
      | some host_id ↦
          if r.mode == RecoveryMode.finalize
          then resume_on_host job r host_id
          else retry_host_session new_session_id job r host_id
    ]

-- ===== src/JobManager/Cancellation.antt =====
-- `JobManager.cancel`: a job is cancelled once the end of its turn has been confirmed. The method
-- waits in its middle for the job's task to end; `begin_cancel` is what it does before, and
-- `confirm_cancel` what it does after.
use remote_control_pjt.Prelude.{
  ℕ, Bool, false, not, ◌&&◌, String, Option, none, some, [], ◌∷◌, ◌==◌, string_eq, nat_eq,
  option_eq, if◌then◌else◌,
}
use remote_control_pjt.Result.{Error, ok, err, is_lost}
use remote_control_pjt.Json.{Json, object, text, opt_text, opt_int}
use remote_control_pjt.States.{JobState, state_eq, is_terminal}
use remote_control_pjt.Statuses.{SessionStatus, RecoveryKind, RecoveryMode}
use remote_control_pjt.Prelude.{ℤ}
use remote_control_pjt.Records.{JobRecord, RecoveryRecord}
use remote_control_pjt.Memory.{RunHandle, AgentRunResult}
use remote_control_pjt.World.{Action, pure, raise, raise_if, gets, lift, outcome, when, ◌>>=◌, ◌>>◌}
use remote_control_pjt.Projects.{or_text, get_project, path_for}
use remote_control_pjt.Sessions
use remote_control_pjt.ProjectSessions.{is_set}
use remote_control_pjt.Approvals
use remote_control_pjt.Repositories.Events.{append}
use remote_control_pjt.Repositories.Jobs
use remote_control_pjt.Repositories.Recovery
use remote_control_pjt.JobManager.Config.{Config}
use remote_control_pjt.JobManager.Lifecycle.{require, transition}
use remote_control_pjt.JobManager.Waits.{upsert_recovery, handle_of, execution_of}
use remote_control_pjt.JobManager.Retries.{same_change}
use remote_control_pjt.JobManager.Turns.{is_held, forget_process}
use remote_control_pjt.JobManager.Failures.{is_remote, ack_result_handle}

abbrev kind_of : Option RecoveryRecord → RecoveryKind
kind_of none = RecoveryKind.host
kind_of (some r) = r.kind

abbrev attempts_of : Option RecoveryRecord → ℕ
attempts_of none = 0
attempts_of (some r) = r.attempt_count

abbrev error_of : Option RecoveryRecord → Option String
error_of none = none
error_of (some r) = r.last_error

-- The row of a job whose runner is still to confirm the cancellation.
abbrev cancel_row :
    Option RecoveryRecord → Option String → Option String → RecoveryRecord → RecoveryRecord
cancel_row existing execution_id error r = record r {
  kind = kind_of existing;
  mode = RecoveryMode.cancel;
  attempt_count = attempts_of existing;
  next_retry_at = none;
  execution_id = execution_id;
  resume_instruction = none;
  last_error = error;
}

-- `_persist_cancel_intent`
unfoldable pub persist_cancel_intent : String → RunHandle → Action (Unit {0})
unfolding upsert_recovery
persist_cancel_intent job_id handle = if not (is_set handle.execution_id) then pure tt else do
  existing ← Recovery.get job_id
  upsert_recovery job_id (cancel_row existing handle.execution_id (error_of existing))
  pure tt

abbrev pending_payload : Option String → String → Json
pending_payload execution_id error =
    object (("execution_id", opt_text execution_id) ∷ ("error", text error) ∷ [])

-- `_record_cancel_pending`
unfoldable pub record_cancel_pending : String → RunHandle → String → Action (Unit {0})
unfolding upsert_recovery
record_cancel_pending job_id handle error = do
  when (is_set handle.execution_id) (do
    existing ← Recovery.get job_id
    upsert_recovery job_id (cancel_row existing handle.execution_id (some error))
    pure tt)
  job ← require job_id
  append "CANCEL_PENDING" (some job_id) (some job.project_id) job.assigned_host
      (pending_payload handle.execution_id error)
  pure tt

abbrev with_result : AgentRunResult → JobRecord → JobRecord → JobRecord
with_result res job r = record r {
  result = res.final_message;
  error = none;
  external_session_id = or_text res.session_id job.external_session_id;
}

unfoldable pub store_result : String → JobRecord → Option AgentRunResult → Action (Unit {0})
store_result job_id job none = pure tt
store_result job_id job (some res) = Jobs.update job_id (with_result res job) >> pure tt

abbrev code_of : Option AgentRunResult → Option ℤ
code_of none = none
code_of (some res) = some res.returncode

-- `_finalize_cancellation`
unfoldable pub finalize_cancellation : String → Option AgentRunResult → Action (Unit {0})
unfolding store_result
finalize_cancellation job_id res = do
  job ← require job_id
  if not (job.state == JobState.cancelling) then pure tt else do
    store_result job_id job res
    Sessions.mark job_id SessionStatus.cancelled
    Recovery.delete job_id
    transition job_id JobState.cancelled same_change
    handle ← gets (λ w. handle_of job_id w.handles)
    append "CANCEL_CONFIRMED" (some job_id) (some job.project_id) job.assigned_host (
        object (
          ("returncode", opt_int (code_of res))
          ∷ ("execution_id", opt_text (execution_of handle))
          ∷ []))
    pure tt

-- The job's move to CANCELLING, where it is not there yet.
unfoldable pub request_cancel : String → JobRecord → Action (Unit {0})
request_cancel job_id job = if job.state == JobState.cancelling then pure tt else do
  transition job_id JobState.cancelling same_change
  Sessions.mark job_id SessionStatus.cancelling
  Approvals.cancel_for_job job_id
  pure tt

module _ (c : Config) where
  -- The turn that runs is stopped.
  unfoldable pub stop_cancelled : String → RunHandle → Action (Unit {0})
  unfolding persist_cancel_intent record_cancel_pending finalize_cancellation ack_result_handle
  stop_cancelled job_id handle = do
    persist_cancel_intent job_id handle
    stopped ← outcome (lift (c.stop handle))
    elim stopped [
      | ok u ↦ finalize_cancellation job_id none >> ack_result_handle c job_id (some handle)
      | err x ↦ if is_lost x then record_cancel_pending job_id handle (c.message x) else raise x
    ]

  unfoldable pub stop_if_running : String → Option RunHandle → Action (Unit {0})
  unfolding stop_cancelled
  stop_if_running job_id none = pure tt
  stop_if_running job_id (some handle) = stop_cancelled job_id handle

  -- A process that an earlier controller left behind is dead before the job is cancelled.
  abbrev reconciled : JobRecord → JobRecord
  reconciled r = record (forget_process r) {
    error =
        some
          "PROCESS_SAFETY_RECONCILED: persisted Codex process tree was terminated before cancellation";
  }

  abbrev pid_of : JobRecord → ℕ
  pid_of job = elim job.pid [ none ↦ 0 | some p ↦ p ]

  unfoldable pub settle_hold : String → JobRecord → Action JobRecord
  settle_hold job_id job =
      if not (job.assigned_host == some c.local_host_id && is_held c job) then pure job else do
        project ← lift (get_project c.projects job.project_id)
        path ← lift (path_for project c.local_host_id)
        raise_if
            (not (c.terminate (pid_of job) path job.process_executable job.process_start_token))
            Error.runtime_error
        Jobs.update job_id reconciled
        require job_id

  -- `cancel` up to its wait.
  unfoldable pub begin_cancel : String → Action JobRecord
  unfolding settle_hold request_cancel stop_if_running
  begin_cancel job_id = do
    job ← require job_id
    if is_terminal job.state then pure job else do
      current ← settle_hold job_id job
      request_cancel job_id current
      handle ← gets (λ w. handle_of job_id w.handles)
      stop_if_running job_id handle
      require job_id

  -- A job of another host with a known execution is cancelled once its runner has confirmed it.
  abbrev pub awaits_runner : JobRecord → Option RecoveryRecord → Bool
  awaits_runner job none = false
  awaits_runner job (some r) = is_remote c job.assigned_host && is_set r.execution_id

  abbrev waiting_text : String
  waiting_text = "waiting for runner reconnect to confirm cancellation"

  unfoldable pub confirm_or_wait : String → JobRecord → Option RecoveryRecord → Action (Unit {0})
  unfolding upsert_recovery finalize_cancellation
  confirm_or_wait job_id current r =
      if not (awaits_runner current r) then finalize_cancellation job_id none else do
        upsert_recovery job_id (cancel_row r (recovery_execution r) (some waiting_text))
        append "CANCEL_PENDING" (some job_id) (some current.project_id) current.assigned_host
            (pending_payload (recovery_execution r) waiting_text)
        pure tt
    where
      recovery_execution : Option RecoveryRecord → Option String
      recovery_execution none = none
      recovery_execution (some r) = r.execution_id

  -- `cancel` from its wait on.
  unfoldable pub confirm_cancel : String → Action JobRecord
  unfolding confirm_or_wait
  confirm_cancel job_id = do
    current ← require job_id
    if not (current.state == JobState.cancelling)
        then pure current
        else do r ← Recovery.get job_id; confirm_or_wait job_id current r; require job_id

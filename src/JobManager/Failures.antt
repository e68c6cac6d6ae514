-- ===== src/JobManager/Failures.antt =====
-- What becomes of a job whose turn has ended without a result: `_fail`, `_handle_cancelled_task`,
-- `_hold_process_safety`, and `_ack_result_handle`.
use remote_control_pjt.Prelude.{
  ℕ, Bool, false, not, ◌&&◌, ◌||◌, String, Option, none, some, List, [], ◌∷◌, contains, ◌==◌,
  string_eq, nat_eq, option_eq, if◌then◌else◌,
}
use remote_control_pjt.Result.{Error, ok, err, is_connection_error}
use Prim.Native.String.{◌++◌ as concat}
use remote_control_pjt.Json.{object, text, opt_text, opt_num}
use remote_control_pjt.States.{JobState, state_eq, is_terminal}
use remote_control_pjt.Statuses.{SessionStatus, RecoveryMode, recovery_mode_eq}
use remote_control_pjt.Records.{JobRecord}
use remote_control_pjt.Memory.{RunHandle}
use remote_control_pjt.World.{Action, pure, raise_if, gets, catch, when, ◌>>=◌, ◌>>◌}
use remote_control_pjt.Projects.{non_empty}
use remote_control_pjt.Quota.{QuotaSignal}
use remote_control_pjt.Sessions
use remote_control_pjt.ProjectSessions.{is_set}
use remote_control_pjt.Repositories.Events.{append}
use remote_control_pjt.Repositories.Jobs
use remote_control_pjt.Repositories.Executions
use remote_control_pjt.Repositories.Recovery
use remote_control_pjt.Repositories.Sessions as SessionTable
use remote_control_pjt.JobManager.Config.{Config, restart_resume_instruction}
use remote_control_pjt.JobManager.Lifecycle.{require, transition}
use remote_control_pjt.JobManager.Notices.{notify}
use remote_control_pjt.JobManager.Waits.{handle_of, enter_host_wait, enter_quota_wait}
use remote_control_pjt.JobManager.Retries.{same_change}

-- `_external_session_id`
unfoldable pub external_session_id_of : JobRecord → Action (Option String)
external_session_id_of job = do
  session ← SessionTable.get_for_job job.id
  elim session [ none ↦ pure job.external_session_id | some s ↦ pure (some s.external_session_id) ]

module _ (c : Config) where
  -- The states in which an ended task leaves the job to another handler.
  abbrev left_alone : List JobState
  left_alone =
      JobState.paused ∷ JobState.cancelling ∷ JobState.waiting_human ∷ JobState.waiting_host
      ∷ JobState.waiting_quota ∷ []

  abbrev pub is_left_alone : JobState → Bool
  is_left_alone s = is_terminal s || contains left_alone s

  abbrev resume_mode : Option String → RecoveryMode
  resume_mode external = if is_set external then RecoveryMode.resume else RecoveryMode.start

  -- `current.assigned_host and current.assigned_host != self.local_host_id`
  abbrev pub is_remote : Option String → Bool
  is_remote none = false
  is_remote (some h) = not (h == "") && not (h == c.local_host_id)

  abbrev cancelled_mode : JobRecord → Option String → RecoveryMode
  cancelled_mode job external =
      if is_remote job.assigned_host then RecoveryMode.adopt else resume_mode external

  -- `_handle_cancelled_task`: a cancelled task is no proof that its process has stopped, so the
  -- job waits for its host.
  unfoldable pub handle_cancelled_task : String → Action (Unit {0})
  unfolding external_session_id_of
  handle_cancelled_task job_id = do
    current ← require job_id
    if is_left_alone current.state then pure tt else do
      external ← external_session_id_of current
      let mode = cancelled_mode current external
      enter_host_wait job_id mode
          "execution task was cancelled before process termination was proven" current.assigned_host
          (if mode == RecoveryMode.resume then some restart_resume_instruction else none)
      pure tt

  -- `_ack_result_handle`: the runner is told that its result is stored. Where that fails, an event
  -- says so; where the ledger of executions cannot be written, nothing does.
  unfoldable pub ack_handle : String → RunHandle → Action (Unit {0})
  ack_handle job_id h = elim (c.acknowledge h) [
    | ok u ↦ elim (non_empty h.execution_id) [
      | none ↦ pure tt
      | some execution_id ↦
          catch (Executions.mark_acknowledged execution_id >> pure tt) (λ x. pure tt)
    ]
    | err x ↦ do
      job ← require job_id
      append "RESULT_ACK_PENDING" (some job_id) (some job.project_id) job.assigned_host
          (object (("execution_id", opt_text h.execution_id) ∷ ("error", text (c.message x)) ∷ []))
      pure tt
  ]

  unfoldable pub ack_result_handle : String → Option RunHandle → Action (Unit {0})
  unfolding ack_handle
  ack_result_handle job_id none = pure tt
  ack_result_handle job_id (some h) = ack_handle job_id h

  -- The end of `_fail`, where the error is neither a lost connection nor the usage limit.
  unfoldable pub fail_job : String → Error → Action (Unit {0})
  unfolding ack_result_handle
  fail_job job_id x = do
    Jobs.update job_id (λ r. record r { error = some (c.message x) })
    Sessions.mark job_id SessionStatus.failed
    transition job_id JobState.failed same_change
    Recovery.delete job_id
    handle ← gets (λ w. handle_of job_id w.handles)
    ack_result_handle job_id handle
    notify job_id

  -- An error that reports the usage limit makes the job wait for it.
  unfoldable pub fail_or_wait : String → Error → Option QuotaSignal → Action (Unit {0})
  unfolding fail_job
  fail_or_wait job_id x none = fail_job job_id x
  fail_or_wait job_id x (some signal) = enter_quota_wait c job_id signal none >> pure tt

  -- `_fail`
  unfoldable pub fail : String → Error → Action (Unit {0})
  unfolding fail_or_wait
  fail job_id x = do
    current ← require job_id
    if is_left_alone current.state
        then pure tt
        else if is_connection_error x
        then (do
          enter_host_wait job_id (resume_mode current.external_session_id) (c.message x)
              current.assigned_host (some restart_resume_instruction)
          pure tt)
        else fail_or_wait job_id x (c.detect_quota (c.message x))

  -- The end of `_hold_process_safety`.
  unfoldable pub pause_held : String → JobRecord → Option ℕ → String → Action (Unit {0})
  pause_held job_id job pid error = do
    when (contains (JobState.starting ∷ JobState.running ∷ []) job.state)
        (transition job_id JobState.paused same_change >> pure tt)
    Sessions.mark job_id SessionStatus.paused
    append "PROCESS_SAFETY_HOLD" (some job.id) (some job.project_id) job.assigned_host
        (object (("pid", opt_num pid) ∷ ("error", text error) ∷ []))
    notify job_id

  -- `_hold_process_safety`: the job keeps its working tree until its process is proven dead.
  unfoldable pub hold_process_safety :
      String → Option ℕ → Option String → Option String → String → Action (Unit {0})
  unfolding pause_held
  hold_process_safety job_id pid executable token error = do
    job ← require job_id
    raise_if (is_terminal job.state) Error.runtime_error
    Jobs.update job_id (λ r. record r {
      pid = pid;
      process_executable = executable;
      process_start_token = token;
      error = some (concat "PROCESS_SAFETY_HOLD: " error);
    })
    pause_held job_id job pid error

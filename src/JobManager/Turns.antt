-- ===== src/JobManager/Turns.antt =====
-- `JobManager.pause`, `resume`, `steer`, and what the events of a turn change.
use remote_control_pjt.Prelude.{
  ℕ, zero, suc, get_elem?, Bool, false, not, ◌&&◌, String, Option, none, some, List, [], ◌∷◌, ◌++◌,
  contains, ◌==◌, string_eq, nat_eq, option_eq, if◌then◌else◌, ltb,
}
use Prim.Native.Nat.{◌/◌, ◌%◌}
use Prim.Native.String.{◌++◌ as concat}
use package.text.Mathlib.Text.{starts_with}
use remote_control_pjt.Result.{Error}
use remote_control_pjt.Json.{object, text}
use remote_control_pjt.States.{JobState, state_eq}
use remote_control_pjt.Statuses.{SessionStatus, RecoveryMode, recovery_mode_eq}
use remote_control_pjt.Records.{JobRecord}
use remote_control_pjt.Memory.{Task, RunHandle}
use remote_control_pjt.World.{Action, pure, raise_if, gets, modify, lift, when, ◌>>=◌, ◌>>◌}
use remote_control_pjt.Sessions
use remote_control_pjt.ProjectSessions
use remote_control_pjt.ProjectSessions.{is_set}
use remote_control_pjt.Repositories.Events.{append}
use remote_control_pjt.Repositories.Jobs
use remote_control_pjt.JobManager.Config.{Config}
use remote_control_pjt.JobManager.Lifecycle.{require, transition}
use remote_control_pjt.JobManager.Waits.{handle_of, enter_host_wait}
use remote_control_pjt.JobManager.Creation.{start_task}
use remote_control_pjt.JobManager.Retries.{host_is_there, offline_message, same_change}

-- `pid=None, process_executable=None, process_start_token=None`
abbrev pub forget_process : JobRecord → JobRecord
forget_process r = record r { pid = none; process_executable = none; process_start_token = none }

abbrev digits : List String
digits = "0" ∷ "1" ∷ "2" ∷ "3" ∷ "4" ∷ "5" ∷ "6" ∷ "7" ∷ "8" ∷ "9" ∷ []

abbrev digit : ℕ → String
digit n = elim (get_elem? digits n) [ none ↦ "" | some d ↦ d ]

-- `self._steering[job_id].append(instruction)`
abbrev pub add_steering :
    String → String → List (String × List String) → List (String × List String)
add_steering k m [] = (k, m ∷ []) ∷ []
add_steering k m ((j, ms) ∷ ss) =
    if j == k then (j, ms ++ m ∷ []) ∷ ss else (j, ms) ∷ add_steering k m ss

abbrev pub steering_of : String → List (String × List String) → List String
steering_of k [] = []
steering_of k ((j, ms) ∷ ss) = if j == k then ms else steering_of k ss

-- `self._steering.pop(job_id, [])`
abbrev pub drop_steering : String → List (String × List String) → List (String × List String)
drop_steering k [] = []
drop_steering k ((j, ms) ∷ ss) = if j == k then ss else (j, ms) ∷ drop_steering k ss

-- The decimal digits of a number below a power of ten; as many as the number are enough.
abbrev pub decimal_onto : ℕ → ℕ → String → String
decimal_onto zero n s = s
decimal_onto (suc fuel) n s =
    let rest = decimal_onto fuel (n / 10) (concat (digit (n % 10)) s) in
    if ltb n 10 then concat (digit n) s else rest

abbrev pub decimal : ℕ → String
decimal n = decimal_onto (suc n) n ""

-- `f"{index}. {message}"`
abbrev pub numbered : ℕ → String → String
numbered index message = concat (decimal index) (concat ". " message)

-- `"\n".join(f"{index}. {message}" for index, message in enumerate(messages, start=index))`
abbrev pub joined_from : ℕ → List String → String
joined_from index [] = ""
joined_from index (m ∷ []) = numbered index m
joined_from index (m ∷ n ∷ ms) =
    concat (numbered index m) (concat "\n" (joined_from (suc index) (n ∷ ms)))

-- What the messages that have waited become.
unfoldable pub joint_instruction : List String → Option String
joint_instruction [] = none
joint_instruction (m ∷ []) = some m
joint_instruction (m ∷ n ∷ ms) =
    some (concat "Apply these user steering instructions together:\n" (joined_from 1 (m ∷ n ∷ ms)))

-- `_drain_steering`
unfoldable pub drain_steering : String → Action (Option String)
unfolding joint_instruction
drain_steering job_id = do
  messages ← gets (λ w. steering_of job_id w.steering)
  modify (λ w. record w { steering = drop_steering job_id w.steering })
  pure (joint_instruction messages)

-- `state in {ASSIGNED, STARTING, RUNNING}`
abbrev steerable : List JobState
steerable = JobState.assigned ∷ JobState.starting ∷ JobState.running ∷ []

-- The status of the session that goes with a state of the job.
unfoldable pub session_status : JobState → SessionStatus
session_status JobState.waiting_human = SessionStatus.waiting_human
session_status JobState.waiting_host = SessionStatus.waiting_host
session_status JobState.waiting_quota = SessionStatus.waiting_quota
session_status JobState.paused = SessionStatus.paused
session_status JobState.cancelling = SessionStatus.cancelling
session_status _ = SessionStatus.active

-- `_record_session`, for a job with a host.
unfoldable pub record_session_on : String → String → JobRecord → String → String → Action (Unit {0})
unfolding session_status
record_session_on new_id new_session_id job external_session_id host_id = do
  when (not (job.external_session_id == some external_session_id)) (
      Jobs.update job.id (λ r. record r { external_session_id = some external_session_id })
      >> pure tt)
  Sessions.record_session new_id job.id job.project_id host_id external_session_id
      (session_status job.state)
  ProjectSessions.bind_for_job new_session_id job.project_id job.requested_by_user job.id
      external_session_id host_id
  pure tt

unfoldable pub record_session : String → String → String → String → Action (Unit {0})
unfolding record_session_on
record_session new_id new_session_id job_id external_session_id = do
  job ← require job_id
  elim job.assigned_host [
    | none ↦ pure tt
    | some host_id ↦ record_session_on new_id new_session_id job external_session_id host_id
  ]

module _ (c : Config) where
  -- `await handle.cancel()` and the update after it.
  unfoldable pub stop_turn : String → Option RunHandle → Action (Unit {0})
  stop_turn job_id none = pure tt
  stop_turn job_id (some h) = do lift (c.stop h); Jobs.update job_id forget_process; pure tt

  -- `pause`
  unfoldable pub pause : String → Action JobRecord
  unfolding stop_turn
  pause job_id = do
    job ← require job_id
    raise_if (not (job.state == JobState.running)) Error.value_error
    transition job_id JobState.paused same_change
    Sessions.mark job_id SessionStatus.paused
    handle ← gets (λ w. handle_of job_id w.handles)
    stop_turn job_id handle
    require job_id

  -- `job.pid is not None and job.pid > 0 and error.startswith("PROCESS_SAFETY_HOLD:")`
  abbrev pub is_held : JobRecord → Bool
  is_held job = elim job.pid [
    | none ↦ false
    | some p ↦
        ltb 0 p && elim job.error [ none ↦ false | some e ↦ starts_with e "PROCESS_SAFETY_HOLD:" ]
  ]

  -- `resume`, once the turn that was paused has ended.
  unfoldable pub resume : String → String → Action JobRecord
  unfolding host_is_there start_task
  resume job_id instruction = do
    job ← require job_id
    raise_if (not (job.state == JobState.paused)) Error.value_error
    raise_if (is_held job) Error.value_error
    there ← host_is_there c job.assigned_host
    if not there
        then (do
          enter_host_wait job_id RecoveryMode.resume (offline_message c job.assigned_host)
              job.assigned_host (some instruction)
          require job_id)
        else (do
          transition job_id JobState.running same_change
          Sessions.mark job_id SessionStatus.active
          start_task job.id (Task.execute_resume instruction)
          require job.id)

  -- `steer`
  unfoldable pub steer : String → String → Action JobRecord
  steer job_id instruction = do
    raise_if (c.strip instruction == "") Error.value_error
    job ← require job_id
    raise_if (not (contains steerable job.state)) Error.value_error
    modify (λ w. record w { steering = add_steering job_id (c.strip instruction) w.steering })
    append "STEERING_QUEUED" (some job.id) (some job.project_id) job.assigned_host
        (object (("instruction", text (c.strip instruction)) ∷ []))
    pure job

  -- `redirect`: the turn is stopped and taken up again with the new instruction.
  unfoldable pub redirect : String → String → Action JobRecord
  unfolding pause resume
  redirect job_id instruction = do
    raise_if (c.strip instruction == "") Error.value_error
    job ← require job_id
    raise_if (not (job.state == JobState.running)) Error.value_error
    append "REDIRECT_REQUESTED" (some job.id) (some job.project_id) job.assigned_host
        (object (("instruction", text (c.strip instruction)) ∷ []))
    pause job_id
    redirected ← resume job_id (c.strip instruction)
    append "REDIRECT_APPLIED" (some job.id) (some job.project_id) redirected.assigned_host
        (object (("instruction", text (c.strip instruction)) ∷ []))
    pure redirected

-- ===== src/JobManager/Gates.antt =====
-- The human gate in controller/job_manager.py: a question stops the job until its user answers or
-- the time for it is over.
use remote_control_pjt.Prelude.{
  ℕ, ◌+◌, Bool, true, false, not, ◌||◌, String, Option, none, some, List, [], ◌∷◌, ◌++◌, map,
  contains, ◌==◌, string_eq, nat_eq, option_eq, if◌then◌else◌,
}
use remote_control_pjt.Result.{Error}
use remote_control_pjt.Json.{object, text, opt_text}
use remote_control_pjt.States.{JobState, state_eq}
use remote_control_pjt.Statuses.{SessionStatus, ApprovalStatus, RecoveryMode}
use remote_control_pjt.Records.{JobRecord, ApprovalRecord, QaRunRecord}
use remote_control_pjt.Memory.{Task}
use remote_control_pjt.World.{Action, pure, raise_if, modify, ◌>>=◌, ◌>>◌}
use remote_control_pjt.Sessions
use remote_control_pjt.Approvals
use remote_control_pjt.Approvals.{HumanGateRequest, ApprovalPrompt, ApprovalOption}
use remote_control_pjt.Repositories.Events.{append}
use remote_control_pjt.Repositories.Approvals as Repository
use remote_control_pjt.Repositories.Jobs
use remote_control_pjt.Repositories.QaRuns
use remote_control_pjt.Repositories.Recovery
use remote_control_pjt.JobManager.Config.{Config}
use remote_control_pjt.JobManager.Lifecycle.{require, transition}
use remote_control_pjt.JobManager.Notices.{notify, notify_approval}
use remote_control_pjt.JobManager.Waits.{enter_host_wait}
use remote_control_pjt.JobManager.Creation.{start_task}
use remote_control_pjt.JobManager.Retries.{host_is_there, offline_message, same_change}

-- The question is stored, the job waits, and the turn that asked is stopped.
unfoldable pub open_gate : String → JobRecord → HumanGateRequest → Action (Option ApprovalRecord)
open_gate new_id job request = do
  approval ←
      Approvals.create new_id job.id job.project_id job.assigned_host job.requested_by_user request
  Sessions.mark job.id SessionStatus.waiting_human
  transition job.id JobState.waiting_human same_change
  notify_approval job.id
  modify (λ w. record w { stops = w.stops ++ job.id ∷ [] })
  pure (some approval)

-- `_enter_human_gate`
unfoldable pub enter_human_gate :
    String → String → HumanGateRequest → Action (Option ApprovalRecord)
unfolding open_gate
enter_human_gate new_id job_id request = do
  job ← require job_id
  if job.state == JobState.waiting_human
      then Repository.pending_for_job job_id
      else if not (job.state == JobState.running)
      then pure none
      else open_gate new_id job request

abbrev is_of_project : String → Option JobRecord → Bool
is_of_project project_id none = false
is_of_project project_id (some job) = job.project_id == project_id

unfoldable pub keep_project : String → List ApprovalRecord → Action (List ApprovalRecord)
keep_project project_id [] = pure []
keep_project project_id (r ∷ rs) = do
  job ← Jobs.get r.job_id
  rest ← keep_project project_id rs
  pure (if is_of_project project_id job then r ∷ rest else rest)

-- `pending_approvals_for_user`
unfoldable pub pending_approvals_for_user : String → Option String → Action (List ApprovalRecord)
unfolding keep_project
pending_approvals_for_user user_id none = Repository.pending_for_user user_id
pending_approvals_for_user user_id (some project_id) = do
  pending ← Repository.pending_for_user user_id
  keep_project project_id pending

-- `approval_details`
unfoldable pub approval_details : String → String → Action ApprovalPrompt
approval_details approval_id user_id = do
  r ← Approvals.get approval_id
  raise_if (not (r.requested_by_user == user_id)) Error.value_error
  pure (Approvals.prompt r)

-- One turn of the loop in `expire_approvals`: whether a job has ended by it.
unfoldable pub expire_approval : ApprovalRecord → Action Bool
expire_approval r = do
  Approvals.expire r.id
  job ← require r.job_id
  if not (job.state == JobState.waiting_human) then pure false else do
    Jobs.update job.id (λ j. record j { error = some "human approval expired" })
    Sessions.mark job.id SessionStatus.failed
    transition job.id JobState.failed same_change
    append "HUMAN_GATE_EXPIRED" (some job.id) (some job.project_id) job.assigned_host
        (object (("approval_id", text r.id) ∷ []))
    notify job.id
    pure true

abbrev counted : Bool → ℕ → ℕ
counted true n = n + 1
counted false n = n

unfoldable pub expire_each : List ApprovalRecord → Action ℕ
unfolding expire_approval
expire_each [] = pure 0
expire_each (r ∷ rs) = do ended ← expire_approval r; n ← expire_each rs; pure (counted ended n)

-- `expire_approvals`
unfoldable pub expire_approvals : ℕ → Action ℕ
unfolding expire_each
expire_approvals t = do expired ← Repository.expired_pending t; expire_each expired

abbrev pub qa_types : List String
qa_types = "qa_human_gate" ∷ "qa_ui_review" ∷ []

-- `ApprovalStatus.value`
unfoldable pub status_value : ApprovalStatus → String
status_value ApprovalStatus.pending = "PENDING"
status_value ApprovalStatus.resolved = "RESOLVED"
status_value ApprovalStatus.rejected = "REJECTED"
status_value ApprovalStatus.cancelled = "CANCELLED"
status_value ApprovalStatus.expired = "EXPIRED"

unfoldable pub review : Bool → Option QaRunRecord → Action (Unit {0})
review rejected_ui none = pure tt
review rejected_ui (some run) = do
  QaRuns.update run.run_id (λ r. record r {
    review_status = some (if rejected_ui then "UI_REJECTED" else "UI_APPROVED");
  })
  pure tt

-- The answer to a question about the user interface ends the job or completes it.
unfoldable pub finish_review : JobRecord → Bool → Action (Unit {0})
unfolding review start_task
finish_review job rejected_ui = do
  run ← QaRuns.latest_for_job job.id
  review rejected_ui run
  if rejected_ui
      then (do
        Jobs.update job.id (λ j. record j { error = some "UI QA review rejected" })
        Sessions.mark job.id SessionStatus.idle
        transition job.id JobState.failed same_change
        Recovery.delete job.id
        notify job.id)
      else (do
        transition job.id JobState.running same_change
        Sessions.mark job.id SessionStatus.active
        start_task job.id (Task.complete_after_qa job.result))

module _ (c : Config) where
  -- The answer to any other question goes back to the agent. `instruction` is what
  -- `_approval_instruction` makes of it.
  unfoldable pub answer_agent : JobRecord → String → Action (Unit {0})
  unfolding host_is_there start_task
  answer_agent job instruction = do
    there ← host_is_there c job.assigned_host
    if not there
        then (enter_host_wait job.id RecoveryMode.resume (offline_message c job.assigned_host)
              job.assigned_host (some instruction)
            >> pure tt)
        else (do
          transition job.id JobState.running same_change
          Sessions.mark job.id SessionStatus.active
          start_task job.id (Task.execute_resume instruction))

  -- `respond_approval`, where the task of the turn that asked has ended.
  unfoldable pub respond_approval :
      (ApprovalPrompt → Option String → String)
      → String
      → String
      → Option String
      → Bool
      → Option String
      → Action ApprovalRecord
  unfolding finish_review answer_agent status_value
  respond_approval instruction approval_id user_id option_key rejected response_text = do
    r ← Approvals.get approval_id
    raise_if (not (r.requested_by_user == user_id)) Error.value_error
    job ← require r.job_id
    raise_if (not (job.state == JobState.waiting_human)) Error.value_error
    resolved ← Approvals.resolve c.casefold approval_id option_key rejected response_text
    append "HUMAN_GATE_RESOLVED" (some job.id) (some job.project_id) job.assigned_host (
        object (
          ("approval_id", text approval_id)
          ∷ ("status", text (status_value resolved.status))
          ∷ ("selected_option", opt_text resolved.selected_option)
          ∷ []))
    if contains qa_types r.approval_type
        then finish_review job (rejected || resolved.selected_option == some "REJECT")
        else answer_agent job (instruction (Approvals.prompt r) resolved.selected_option)
    pure resolved

  -- `choice.casefold() in keys`
  abbrev is_choice : String → List ApprovalOption → Bool
  is_choice choice options =
      contains (map (λ (o : ApprovalOption). c.casefold o.key) options) (c.casefold choice)

  unfoldable pub match_one :
      (ApprovalPrompt → Option String → String)
      → String
      → String
      → List ApprovalRecord
      → Action (Option ApprovalRecord)
  unfolding respond_approval
  match_one instruction user_id choice (r ∷ []) =
      if choice == "" || not (is_choice choice (Approvals.options r)) then pure none else do
        resolved ← respond_approval instruction r.id user_id (some choice) false none
        pure (some resolved)
  match_one instruction user_id choice _ = pure none

  -- `match_pending_approval`: a text that is a key of the only open question answers it.
  unfoldable pub match_pending_approval :
      (ApprovalPrompt → Option String → String)
      → String
      → String
      → Option String
      → Action (Option ApprovalRecord)
  unfolding match_one
  match_pending_approval instruction user_id answer project_id = do
    pending ← pending_approvals_for_user user_id project_id
    match_one instruction user_id (c.strip answer) pending

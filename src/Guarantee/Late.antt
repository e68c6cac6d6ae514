-- ===== src/Guarantee/Late.antt =====
-- What comes for a job after it has ended.
use remote_control_pjt.Prelude.{ℕ, String, Option}
use remote_control_pjt.Result.{Error}
use remote_control_pjt.Statuses.{RecoveryMode}
use remote_control_pjt.Memory.{AgentRunResult}
use remote_control_pjt.Quota.{QuotaSignal}
use remote_control_pjt.Approvals.{HumanGateRequest}
use remote_control_pjt.World.{World}
use remote_control_pjt.JobManager.Config.{Config}
use remote_control_pjt.Guarantee.Calls.{ManagerCall}

-- What a turn, its task or its process may still report of a job, and what a user may still ask of it.
pub data LateCall : Type 0 where
  host_is_lost : RecoveryMode → String → Option String → Option String → LateCall
  tree_is_busy : RecoveryMode → String → String → Option String → LateCall
  quota_is_used : QuotaSignal → Option String → LateCall
  turn_fails : Error → LateCall
  task_is_cancelled begins_cancel confirms_cancel pauses : LateCall
  turn_has_stopped : Option AgentRunResult → LateCall
  agent_asks : String → HumanGateRequest → LateCall
  process_is_held : Option ℕ → Option String → Option String → String → LateCall
  resumes steers redirects : String → LateCall

abbrev pub call_of : String → LateCall → ManagerCall
call_of j (host_is_lost m e h i) = ManagerCall.enters_host_wait j m e h i
call_of j (tree_is_busy m e h i) = ManagerCall.enters_lease_wait j m e h i
call_of j (quota_is_used s i) = ManagerCall.enters_quota_wait j s i
call_of j (turn_fails x) = ManagerCall.fails j x
call_of j task_is_cancelled = ManagerCall.handles_cancelled_task j
call_of j begins_cancel = ManagerCall.begins_cancel j
call_of j confirms_cancel = ManagerCall.confirms_cancel j
call_of j pauses = ManagerCall.pauses j
call_of j (turn_has_stopped r) = ManagerCall.finalizes_cancellation j r
call_of j (agent_asks n q) = ManagerCall.enters_human_gate n j q
call_of j (process_is_held p e t m) = ManagerCall.holds_process_safety j p e t m
call_of j (resumes i) = ManagerCall.resumes j i
call_of j (steers i) = ManagerCall.steers j i
call_of j (redirects i) = ManagerCall.redirects j i

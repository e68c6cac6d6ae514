-- ===== src/JobManager/Config.antt =====
-- What the job manager is set up with. `canonical`, `resolve_local`, `lease_key`, `casefold` and
-- `strip` stand for the file system, SHA-256 and Python's text methods; `message` is `str(exc)`. The
-- last fields are the agent's runner and the operating system.
use remote_control_pjt.Prelude.{ℕ, Bool, String, Option, List}
use remote_control_pjt.Result.{Error, Result}
use remote_control_pjt.Memory.{RunHandle}
use remote_control_pjt.Quota.{QuotaSignal}
use remote_control_pjt.Projects.{ProjectDefinition}

pub record Config : Type 0 where
  pub projects : List ProjectDefinition
  pub local_host_id : String
  pub heartbeat_timeout : ℕ
  pub quota_retry_initial_seconds : ℕ
  pub quota_retry_max_seconds : ℕ
  pub quota_reset_grace_seconds : ℕ
  pub canonical : String → String
  pub resolve_local : String → String
  pub lease_key : String → String → String
  pub casefold : String → String
  pub strip : String → String
  pub message : Error → String
  -- `repr` of a text, which `!r` prints.
  pub repr : String → String
  -- `detect_quota_text` on a message.
  pub detect_quota : String → Option QuotaSignal
  -- How `handle.cancel()` and `handle.acknowledge_result()` end.
  pub stop : RunHandle → Result (Unit {0})
  pub acknowledge : RunHandle → Result (Unit {0})
  -- `terminate_persisted_codex_process`: whether the process of a pid, a working directory, an
  -- executable and a start token is dead.
  pub terminate : ℕ → String → Option String → Option String → Bool

abbrev pub resume_instruction : String
resume_instruction =
    "Resume this job from the existing repository and Codex session state. Inspect current changes before continuing, then finish the next appropriate step."

abbrev pub quota_resume_instruction : String
quota_resume_instruction =
    "The previous turn stopped because the Codex usage quota was unavailable. Re-inspect the repository state, resume the unfinished work safely, and do not repeat changes that are already present."

abbrev pub restart_resume_instruction : String
restart_resume_instruction =
    "The Controller restarted while this job was active. Re-inspect the repository and session state, then continue the unfinished work safely without duplicating already-completed changes."

abbrev pub retry_resume_instruction : String
retry_resume_instruction =
    "Retry the failed Remote Control Job using this existing Codex session. Re-inspect the repository state before making changes, do not duplicate completed work, and continue the original instruction from the current filesystem state."

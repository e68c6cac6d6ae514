-- ===== src/Records.antt =====
-- storage/models.py: the rows of the tables. A column of an enumeration holds the member, a column
-- of JSON text the value; an instant is a number of microseconds. Left out are the columns that
-- the database layer alone writes and the modelled code never reads: `updated_at`, and
-- `created_at` where no query orders by it.
use remote_control_pjt.Prelude.{ℕ, String, Option}
use remote_control_pjt.Json.{Json}
use remote_control_pjt.States.{JobState}
use remote_control_pjt.Statuses.{
  HostStatus, SessionStatus, ProjectSessionStatus, ApprovalStatus, RecoveryKind, RecoveryMode,
}

pub record JobRecord : Type 0 where
  pub id : String
  pub project_id : String
  pub requested_by_channel : String
  pub requested_by_user : String
  pub requested_host : String
  pub assigned_host : Option String
  pub instruction : String
  pub state : JobState
  pub external_session_id : Option String
  pub pid : Option ℕ
  pub process_executable : Option String
  pub process_start_token : Option String
  pub result : Option String
  pub error : Option String
  pub created_at : ℕ

pub record EventRecord : Type 0 where
  pub id : ℕ
  pub event_type : String
  pub job_id : Option String
  pub project_id : Option String
  pub host_id : Option String
  pub payload_json : Json
  pub created_at : ℕ

pub record HostRecord : Type 0 where
  pub id : String
  pub name : String
  pub os : String
  pub status : HostStatus
  pub capabilities_json : Option Json
  pub last_heartbeat : Option ℕ
  pub runner_instance_id : Option String
  pub runner_boot_id : Option String

pub record ExecutionLeaseRecord : Type 0 where
  pub lease_key : String
  pub job_id : String
  pub project_id : String
  pub host_id : String
  pub working_directory : String
  pub acquired_at : ℕ

-- `ACTIVE`, `RESULT_RECEIVED` and `ACKNOWLEDGED`, the values of `RemoteExecutionRecord.state`.
pub data ExecutionState : Type 0 where
  active result_received acknowledged : ExecutionState

pub record RemoteExecutionRecord : Type 0 where
  pub execution_id : String
  pub job_id : String
  pub host_id : String
  pub runner_instance_id : String
  pub working_directory : String
  pub session_id : Option String
  pub state : ExecutionState
  pub started_at : ℕ
  pub result_received_at : Option ℕ
  pub acknowledged_at : Option ℕ

pub record ProjectSessionRecord : Type 0 where
  pub id : String
  pub project_id : String
  pub owner_user_id : String
  pub external_session_id : Option String
  pub host_id : Option String
  pub status : ProjectSessionStatus
  pub last_job_id : Option String
  pub locked_by_job_id : Option String
  pub last_active_at : ℕ
  pub closed_at : Option ℕ

pub record SessionRecord : Type 0 where
  pub id : String
  pub job_id : String
  pub project_id : String
  pub host_id : String
  pub agent_type : String
  pub external_session_id : String
  pub status : SessionStatus
  pub last_active_at : ℕ

pub record ApprovalRecord : Type 0 where
  pub id : String
  pub job_id : String
  pub requested_by_user : String
  pub approval_type : String
  pub question : String
  pub details : Option String
  pub options_json : Option Json
  pub status : ApprovalStatus
  pub selected_option : Option String
  pub response_text : Option String
  pub expires_at : Option ℕ
  pub resolved_at : Option ℕ
  pub created_at : ℕ

pub record RecoveryRecord : Type 0 where
  pub job_id : String
  pub kind : RecoveryKind
  pub mode : RecoveryMode
  pub attempt_count : ℕ
  pub next_retry_at : Option ℕ
  pub execution_id : Option String
  pub resume_instruction : Option String
  pub last_error : Option String
  pub queue_position : Option ℕ
  pub created_at : ℕ

pub record TelegramProjectTopicRecord : Type 0 where
  pub user_id : String
  pub project_id : String
  pub chat_id : String
  pub message_thread_id : ℕ
  pub topic_name : String

pub record TelegramMessageBindingRecord : Type 0 where
  pub chat_id : String
  pub message_id : ℕ
  pub message_thread_id : Option ℕ
  pub user_id : String
  pub project_id : String
  pub job_id : String

pub record ProjectWorkRecord : Type 0 where
  pub job_id : String
  pub adapter : String
  pub host_id : Option String
  pub task_id : Option String
  pub role : Option String
  pub status : String
  pub result_path : Option String
  pub next_task_id : Option String
  pub error : Option String
  pub claimed_at : Option ℕ
  pub submitted_at : Option ℕ
  pub created_at : ℕ

-- `QARunRecord`
pub record QaRunRecord : Type 0 where
  pub run_id : String
  pub job_id : String
  pub project_id : String
  pub host_id : String
  pub phase : String
  pub status : Option String
  pub result_path : Option String
  pub failed_scenarios_json : Json
  pub warning_count : ℕ
  pub artifact_count : ℕ
  pub artifacts_json : Json
  pub exit_code : Option ℕ
  pub error : Option String
  pub report_sent_at : Option ℕ
  pub artifacts_sent_at : Option ℕ
  pub review_status : Option String
  pub started_at : ℕ
  pub finished_at : Option ℕ

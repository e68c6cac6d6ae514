-- ===== src/Memory.antt =====
-- What controller/job_manager.py holds in memory: the turns that it has started and their handles.
use remote_control_pjt.Prelude.{ℕ, ℤ, String, Option}

-- The coroutine that `_start_task` is given.
pub data Task : Type 0 where
  execute_new execute_retry execute_qa_recovery execute_project_finalize : Task
  execute_resume : String → Task
  complete_after_qa : Option String → Task

-- What the manager reads of a `RunHandle` of runners/base.py.
pub record RunHandle : Type 0 where
  pub execution_id : Option String
  pub session_id : Option String
  pub pid : Option ℕ
  pub process_executable : Option String
  pub process_start_token : Option String

-- `AgentRunResult` of runners/base.py.
pub record AgentRunResult : Type 0 where
  pub returncode : ℤ
  pub session_id : Option String
  pub final_message : Option String
  pub retry_kind : Option String
  pub retry_at : Option ℕ

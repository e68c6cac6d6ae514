-- ===== src/JobManager/Executions.antt =====
-- The executions that run on other hosts: `_reserve_remote_execution`, `_ensure_remote_execution`,
-- `_mark_remote_result_received` and `_set_handle`.
use remote_control_pjt.Prelude.{
  ℕ, not, ◌&&◌, ◌||◌, String, Option, none, some, List, [], ◌∷◌, ◌==◌, string_eq, option_eq,
  if◌then◌else◌,
}
use remote_control_pjt.Result.{Error}
use remote_control_pjt.Statuses.{RecoveryKind, RecoveryMode}
use remote_control_pjt.Records.{JobRecord, RecoveryRecord, RemoteExecutionRecord, ExecutionState}
use remote_control_pjt.Memory.{RunHandle, AgentRunResult}
use remote_control_pjt.World.{
  Action, pure, raise_if, modify, lift, or_raise, catch, now, when, ◌>>=◌, ◌>>◌,
}
use remote_control_pjt.Projects.{get_project, path_for, non_empty}
use remote_control_pjt.ProjectSessions.{is_set}
use remote_control_pjt.Hosts.Registry
use remote_control_pjt.Hosts.Registry.{HostInfo}
use remote_control_pjt.Repositories.Executions
use remote_control_pjt.Repositories.Jobs
use remote_control_pjt.Repositories.Recovery
use remote_control_pjt.JobManager.Config.{Config, restart_resume_instruction}
use remote_control_pjt.JobManager.Lifecycle.{require}
use remote_control_pjt.JobManager.Waits.{upsert_recovery}

-- `host is None or not host.runner_instance_id`
abbrev pub runner_of : Option HostInfo → Option String
runner_of none = none
runner_of (some h) = non_empty h.runner_instance_id

-- `self._handles[job_id] = handle`
abbrev pub put_handle : String → RunHandle → List (String × RunHandle) → List (String × RunHandle)
put_handle k h [] = (k, h) ∷ []
put_handle k h ((j, x) ∷ hs) = if j == k then (j, h) ∷ hs else (j, x) ∷ put_handle k h hs

-- What `_set_handle` writes in the job's row.
abbrev pub attached : RunHandle → JobRecord → JobRecord
attached h r = record r {
  pid = h.pid;
  process_executable = h.process_executable;
  process_start_token = h.process_start_token;
  external_session_id = elim (non_empty h.session_id) [
    | none ↦ r.external_session_id
    | some s ↦ some s
  ];
}

-- The row of a job that runs: should the controller stop, its execution is adopted.
abbrev pub adoption_row : Option RecoveryRecord → Option String → RecoveryRecord → RecoveryRecord
adoption_row none execution_id r = record r {
  kind = RecoveryKind.restart;
  mode = RecoveryMode.adopt;
  attempt_count = 0;
  next_retry_at = none;
  execution_id = execution_id;
  resume_instruction = some restart_resume_instruction;
  last_error = none;
}
adoption_row (some old) execution_id r = record r {
  kind = old.kind;
  mode = old.mode;
  attempt_count = old.attempt_count;
  next_retry_at = none;
  execution_id = execution_id;
  resume_instruction = old.resume_instruction;
  last_error = old.last_error;
}

-- The columns of a new execution.
abbrev pub active_execution :
    String
    → String
    → String
    → String
    → Option String
    → ℕ
    → RemoteExecutionRecord
    → RemoteExecutionRecord
active_execution job_id host_id runner_id working_directory session_id t e = record e {
  job_id = job_id;
  host_id = host_id;
  runner_instance_id = runner_id;
  working_directory = working_directory;
  session_id = session_id;
  state = ExecutionState.active;
  started_at = t;
}

abbrev blank_execution : String → RemoteExecutionRecord
blank_execution execution_id = record {
  execution_id = execution_id;
  job_id = "";
  host_id = "";
  runner_instance_id = "";
  working_directory = "";
  session_id = none;
  state = ExecutionState.active;
  started_at = 0;
  result_received_at = none;
  acknowledged_at = none;
}

-- `_mark_remote_result_received`: an error is logged and dropped.
unfoldable pub mark_remote_result_received : RunHandle → AgentRunResult → Action (Unit {0})
mark_remote_result_received h res = elim (non_empty h.execution_id) [
  | none ↦ pure tt
  | some execution_id ↦
      catch (Executions.mark_result_received execution_id res.session_id >> pure tt) (λ x. pure tt)
]

module _ (c : Config) where
  -- The other host that a job is on, if any.
  abbrev pub remote_host : JobRecord → Option String
  remote_host job = elim (non_empty job.assigned_host) [
    | none ↦ none
    | some h ↦ if h == c.local_host_id then none else some h
  ]

  -- The execution's row, under the identity of the runner that is on the host now.
  unfoldable pub write_execution : String → JobRecord → String → Option String → Action (Unit {0})
  write_execution execution_id job host_id session_id = do
    host ← Registry.get c.local_host_id c.heartbeat_timeout host_id
    runner_id ← or_raise (runner_of host) Error.connection_error
    project ← lift (get_project c.projects job.project_id)
    path ← lift (path_for project host_id)
    t ← now
    let columns = active_execution job.id host_id runner_id (c.canonical path) session_id t
    Executions.upsert (columns (blank_execution execution_id)) columns
    pure tt

  -- `_reserve_remote_execution`; `execution_id` is what `uuid4()` draws.
  unfoldable pub reserve_remote_execution :
      String → JobRecord → Option String → Action (Option String)
  unfolding write_execution
  reserve_remote_execution execution_id job session_id = elim (remote_host job) [
    | none ↦ pure none
    | some host_id ↦ do
      write_execution execution_id job host_id session_id
      pure (some execution_id)
  ]

  -- The execution is known: it must be this job's, and its session is brought up to date.
  unfoldable pub confirm_execution :
      JobRecord → String → RunHandle → RemoteExecutionRecord → Action (Unit {0})
  confirm_execution job host_id h existing = do
    raise_if (not (existing.job_id == job.id) || not (existing.host_id == host_id))
        Error.runtime_error
    when (is_set h.session_id && not (existing.session_id == h.session_id)) (
        Executions.upsert (record existing { session_id = h.session_id })
          (λ e. record e { session_id = h.session_id })
        >> pure tt)

  unfoldable pub ensure_on_host : JobRecord → String → String → RunHandle → Action (Unit {0})
  unfolding write_execution confirm_execution
  ensure_on_host job host_id execution_id h = do
    found ← Executions.get execution_id
    elim found [
      | some existing ↦ confirm_execution job host_id h existing
      | none ↦ write_execution execution_id job host_id h.session_id
    ]

  -- `_ensure_remote_execution`
  unfoldable pub ensure_remote_execution : JobRecord → RunHandle → Action (Unit {0})
  unfolding ensure_on_host
  ensure_remote_execution job h = elim (non_empty h.execution_id) [
    | none ↦ pure tt
    | some execution_id ↦ elim (remote_host job) [
      | none ↦ pure tt
      | some host_id ↦ ensure_on_host job host_id execution_id h
    ]
  ]

  -- `_set_handle`
  unfoldable pub set_handle : String → RunHandle → Action (Unit {0})
  unfolding ensure_remote_execution upsert_recovery
  set_handle job_id h = do
    modify (λ w. record w { handles = put_handle job_id h w.handles })
    Jobs.update job_id (attached h)
    current ← require job_id
    ensure_remote_execution current h
    when (is_set h.execution_id) do
      existing ← Recovery.get job_id
      upsert_recovery job_id (adoption_row existing h.execution_id)
      pure tt

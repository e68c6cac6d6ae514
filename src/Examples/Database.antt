-- ===== src/Examples/Database.antt =====
-- A database with two jobs of one project, of which the first runs and holds the working tree.
use remote_control_pjt.Prelude.{ℕ, String, Option, none, some, [], ◌∷◌}
use remote_control_pjt.States.{JobState}
use remote_control_pjt.Statuses.{
  HostStatus, ProjectSessionStatus, ApprovalStatus, RecoveryKind, RecoveryMode,
}
use remote_control_pjt.Json.{array}
use remote_control_pjt.Records.{
  JobRecord, HostRecord, ExecutionLeaseRecord, ProjectSessionRecord, ApprovalRecord, RecoveryRecord,
}
use remote_control_pjt.World.{World, committed, busy}
use remote_control_pjt.Projects.{ProjectDefinition}
use remote_control_pjt.Approvals.{HumanGateRequest, option_json}

abbrev pub job : String → JobState → Option String → ℕ → JobRecord
job id state host t = record {
  id = id;
  project_id = "site";
  requested_by_channel = "telegram";
  requested_by_user = "ann";
  requested_host = "auto";
  assigned_host = host;
  instruction = "fix the build";
  state = state;
  external_session_id = none;
  pid = none;
  process_executable = none;
  process_start_token = none;
  result = none;
  error = none;
  created_at = t;
}

abbrev pub first_job : JobRecord
first_job = job "JOB-1" JobState.running (some "desk") 1

abbrev pub second_job : JobRecord
second_job = job "JOB-2" JobState.queued none 2

abbrev pub lease : ExecutionLeaseRecord
lease = record {
  lease_key = "desk:/site";
  job_id = "JOB-1";
  project_id = "site";
  host_id = "desk";
  working_directory = "/site";
  acquired_at = 1;
}

abbrev pub host : String → Option ℕ → HostRecord
host id heartbeat = record {
  id = id;
  name = id;
  os = "linux";
  status = HostStatus.online;
  capabilities_json = none;
  last_heartbeat = heartbeat;
  runner_instance_id = none;
  runner_boot_id = none;
}

abbrev pub session : ProjectSessionRecord
session = record {
  id = "PS-1";
  project_id = "site";
  owner_user_id = "ann";
  external_session_id = some "thread";
  host_id = some "desk";
  status = ProjectSessionStatus.active;
  last_job_id = some "JOB-1";
  locked_by_job_id = some "JOB-1";
  last_active_at = 1;
  closed_at = none;
}

abbrev pub request : HumanGateRequest
request = record {
  approval_type = "choice";
  question = "Deploy?";
  options =
      record { key = "y"; label = "Yes"; description = none }
      ∷ record { key = "n"; label = "No"; description = some "stop here" }
      ∷ [];
  details = none;
  expires_at = none;
}

abbrev pub question : ApprovalRecord
question = record {
  id = "A-1";
  job_id = "JOB-1";
  requested_by_user = "ann";
  approval_type = "choice";
  question = "Deploy?";
  details = none;
  options_json = some (
      array (
        option_json (record { key = "y"; label = "Yes"; description = none })
        ∷ option_json (record { key = "n"; label = "No"; description = none })
        ∷ []));
  status = ApprovalStatus.pending;
  selected_option = none;
  response_text = none;
  expires_at = none;
  resolved_at = none;
  created_at = 2;
}

abbrev pub waiting : String → ℕ → RecoveryRecord
waiting job_id place = record {
  job_id = job_id;
  kind = RecoveryKind.lease;
  mode = RecoveryMode.start;
  attempt_count = 0;
  next_retry_at = none;
  execution_id = none;
  resume_instruction = none;
  last_error = none;
  queue_position = some place;
  created_at = place;
}

abbrev pub database : World
database = record {
  jobs = first_job ∷ second_job ∷ [];
  events = [];
  hosts = host "desk" none ∷ host "laptop" (some 5) ∷ [];
  leases = lease ∷ [];
  executions = [];
  project_sessions = session ∷ [];
  sessions = [];
  approvals = question ∷ [];
  recovery = waiting "JOB-3" 1 ∷ waiting "JOB-4" 2 ∷ [];
  topics = [];
  bindings = [];
  project_work = [];
  qa_runs = [];
  clock = 100;
  outcomes = [];
  tasks = [];
  handles = [];
  steering = [];
  stops = [];
  channels = "telegram" ∷ [];
  approval_channels = "telegram" ∷ [];
  sends = [];
}

-- The same database, of which the next COMMIT is refused as busy.
abbrev pub busy_database : World
busy_database = record database { outcomes = busy ∷ committed ∷ [] }

abbrev pub project : ProjectDefinition
project = record {
  id = "site";
  name = "Site";
  path = ("desk", "/site") ∷ ("laptop", "/home/site") ∷ [];
  allowed_hosts = "laptop" ∷ "desk" ∷ [];
  default_host = some "desk";
  adapter = "generic_git";
}

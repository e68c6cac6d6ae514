-- ===== src/JobManager/Creation.antt =====
-- `JobManager.create` and `retry_failed`: a new job takes its project session, is stored, and gets
-- a host with its working tree, or a place in a queue.
use remote_control_pjt.Prelude.{
  ℕ, not, ◌&&◌, String, Option, none, some, List, [], ◌∷◌, contains, ◌==◌, string_eq, nat_eq,
  option_eq, if◌then◌else◌,
}
use remote_control_pjt.Result.{Error, ok, err, is_host_unavailable, is_session_busy, is_lease_busy}
use remote_control_pjt.Json.{Json, object, text, opt_text}
use remote_control_pjt.States.{JobState, state_eq}
use remote_control_pjt.Statuses.{RecoveryMode, recovery_mode_eq}
use remote_control_pjt.Records.{JobRecord, ProjectSessionRecord}
use remote_control_pjt.Memory.{Task}
use remote_control_pjt.World.{
  Action, pure, raise, raise_if, modify, lift, outcome, now, ◌>>=◌, ◌>>◌,
}
use remote_control_pjt.Projects.{get_project, path_for, or_text}
use remote_control_pjt.Hosts.Router
use remote_control_pjt.ProjectSessions
use remote_control_pjt.ProjectSessions.{is_set}
use remote_control_pjt.Repositories.Jobs
use remote_control_pjt.Repositories.ProjectSessions as Repository
use remote_control_pjt.JobManager.Config.{Config, retry_resume_instruction}
use remote_control_pjt.JobManager.Lifecycle.{require, assign_execution_lease}
use remote_control_pjt.JobManager.Waits.{enter_host_wait, enter_lease_wait}

-- What the new job has got of its project's session: the session, or the refusal and the session
-- that another job holds.
pub data Claim : Type 0 where
  claimed : ProjectSessionRecord → Claim
  refused : Error → Option ProjectSessionRecord → Claim

abbrev external_of : Option ProjectSessionRecord → Option String
external_of none = none
external_of (some r) = r.external_session_id

abbrev pub claim_session_of : Claim → Option ProjectSessionRecord
claim_session_of (claimed r) = some r
claim_session_of (refused x hint) = hint

-- `project_session.id if project_session else None`
abbrev pub claimed_id : Claim → Option String
claimed_id (claimed r) = some r.id
claimed_id (refused x hint) = none

-- `self._tasks[job_id] = task`
abbrev pub put_task : String → Task → List (String × Task) → List (String × Task)
put_task k t [] = (k, t) ∷ []
put_task k t ((j, u) ∷ ts) = if j == k then (k, t) ∷ ts else (j, u) ∷ put_task k t ts

-- `_start_task`: the turn runs later.
unfoldable pub start_task : String → Task → Action (Unit {0})
start_task job_id task = modify (λ w. record w { tasks = put_task job_id task w.tasks })

unfoldable pub claim_session :
    String → String → String → String → Option String → Option String → Action Claim
claim_session new_session_id project_id user_id job_id seed_session seed_host = do
  r ←
      outcome
        (ProjectSessions.acquire new_session_id project_id user_id job_id seed_session seed_host)
  elim r [
    | ok session ↦ pure (claimed session)
    | err x ↦
        if not (is_session_busy x)
        then raise x
        else do hint ← Repository.active_for project_id user_id; pure (refused x hint)
  ]

-- The session is given back where the job has taken it.
unfoldable pub give_back : Claim → String → String → String → Action (Unit {0})
give_back (refused x hint) project_id user_id job_id = pure tt
give_back (claimed r) project_id user_id job_id =
    ProjectSessions.release_for_job project_id user_id job_id >> pure tt

-- `try: add_with_event(…) except Exception: release_for_job(…); raise`
unfoldable pub store_job : Claim → JobRecord → String → Json → Action JobRecord
unfolding give_back
store_job claim job event_type payload = do
  r ← outcome (Jobs.add_with_event job event_type none payload)
  elim r [
    | ok stored ↦ pure stored
    | err x ↦ do give_back claim job.project_id job.requested_by_user job.id; raise x
  ]

abbrev pub new_job :
    String → String → String → String → String → String → Option String → ℕ → JobRecord
new_job id project_id channel user_id requested_host instruction external_session_id t = record {
  id = id;
  project_id = project_id;
  requested_by_channel = channel;
  requested_by_user = user_id;
  requested_host = requested_host;
  assigned_host = none;
  instruction = instruction;
  state = JobState.queued;
  external_session_id = external_session_id;
  pid = none;
  process_executable = none;
  process_start_token = none;
  result = none;
  error = none;
  created_at = t;
}

abbrev named_host : String → Option String
named_host host = if host == "auto" then none else some host

-- The host of the session's last turn, where the user has asked for none.
abbrev pub effective_host : String → Option ProjectSessionRecord → String
effective_host requested none = requested
effective_host requested (some s) = elim s.host_id [
  | none ↦ requested
  | some h ↦
      if requested == "auto" && is_set s.external_session_id && not (h == "") then h else requested
]

module _ (c : Config) where
  -- `_resolve_host`, with the host registry.
  unfoldable pub resolve_host : String → String → Action String
  resolve_host project_id requested_host = do
    project ← lift (get_project c.projects project_id)
    Router.choose c.local_host_id c.heartbeat_timeout project requested_host

  -- `_validate_requested_host`
  unfoldable pub validate_requested_host : String → String → Action (Unit {0})
  validate_requested_host project_id requested_host =
      if requested_host == "auto" then pure tt else do
        project ← lift (get_project c.projects project_id)
        raise_if (not (contains project.allowed_hosts requested_host)) Error.value_error
        lift (path_for project requested_host)
        pure tt

  abbrev pub assign : String → String → Action JobRecord
  assign job_id host_id =
      assign_execution_lease c.canonical c.resolve_local c.lease_key c.projects c.local_host_id
        job_id host_id

  -- With a host: the working tree and the turn, or a place in the queue for the tree.
  unfoldable pub assign_or_wait :
      Claim → JobRecord → RecoveryMode → Option String → Task → String → Action JobRecord
  unfolding give_back start_task
  assign_or_wait claim job mode instruction task host_id = do
    r ← outcome (assign job.id host_id)
    elim r [
      | ok assigned ↦ do start_task job.id task; require job.id
      | err x ↦ if not (is_lease_busy x) then raise x else do
        give_back claim job.project_id job.requested_by_user job.id
        enter_lease_wait job.id mode (c.message x) host_id instruction
        require job.id
    ]

  -- With a host and the session: as above; with a session that another job holds: the queue.
  unfoldable pub start_or_wait :
      Claim → JobRecord → RecoveryMode → Option String → Task → String → Action JobRecord
  unfolding assign_or_wait
  start_or_wait (refused x hint) job mode instruction task host_id = do
    enter_lease_wait job.id mode (c.message x) host_id instruction
    require job.id
  start_or_wait (claimed r) job mode instruction task host_id =
      assign_or_wait (claimed r) job mode instruction task host_id

  -- What follows the new row: `wait` is the instruction of a wait for a host, `instruction` that
  -- of a wait for a working tree.
  unfoldable pub place :
      Claim
      → JobRecord
      → String
      → RecoveryMode
      → Option String
      → Option String
      → Task
      → Action JobRecord
  unfolding resolve_host start_or_wait
  place claim job host mode wait instruction task = do
    r ← outcome (resolve_host job.project_id host)
    elim r [
      | ok host_id ↦ start_or_wait claim job mode instruction task host_id
      | err x ↦
          if not (is_host_unavailable x)
          then raise x
          else do enter_host_wait job.id mode (c.message x) (named_host host) wait; require job.id
    ]

  abbrev seed_session_of : Option JobRecord → Option String
  seed_session_of none = none
  seed_session_of (some j) = j.external_session_id

  abbrev seed_host_of : Option JobRecord → Option String
  seed_host_of none = none
  seed_host_of (some j) = j.assigned_host

  -- `create`; `job_id` and `new_session_id` are what `_job_id()` and `_project_session_id()` draw.
  unfoldable pub create :
      String → String → String → String → String → String → String → Action JobRecord
  unfolding validate_requested_host claim_session store_job place
  create job_id new_session_id project_id instruction channel user_id requested_host = do
    project ← lift (get_project c.projects project_id)
    validate_requested_host project_id requested_host
    legacy ← Jobs.latest_for_user_project user_id project.id
    claim ←
        claim_session new_session_id project.id user_id job_id (seed_session_of legacy)
          (seed_host_of legacy)
    t ← now
    let external = external_of (claim_session_of claim)
    job ←
        store_job claim
          (new_job job_id project.id channel user_id requested_host instruction external t)
          "JOB_CREATED"
          (object (
            ("requested_host", text requested_host)
            ∷ ("project_session_id", opt_text (claimed_id claim))
            ∷ ("external_session_id", opt_text external)
            ∷ []))
    place claim job (effective_host requested_host (claim_session_of claim)) RecoveryMode.start none
        (some instruction) Task.execute_new

  abbrev retry_external : Claim → Option String → Option String
  retry_external claim original = or_text (external_of (claim_session_of claim)) original

  abbrev retry_mode : Option String → RecoveryMode
  retry_mode external = if is_set external then RecoveryMode.resume else RecoveryMode.start

  abbrev retry_instruction : RecoveryMode → Option String
  retry_instruction mode =
      if mode == RecoveryMode.resume then some retry_resume_instruction else none

  abbrev retry_task : RecoveryMode → Task
  retry_task mode = if mode == RecoveryMode.resume then Task.execute_retry else Task.execute_new

  -- `retry_failed`
  unfoldable pub retry_failed : String → String → String → Action JobRecord
  unfolding claim_session store_job place
  retry_failed retry_id new_session_id job_id = do
    original ← require job_id
    raise_if (not (original.state == JobState.failed)) Error.value_error
    project ← lift (get_project c.projects original.project_id)
    raise_if (project.adapter == "project_os") Error.value_error
    claim ←
        claim_session new_session_id original.project_id original.requested_by_user retry_id
          original.external_session_id original.assigned_host
    t ← now
    job ←
        store_job claim
          (new_job retry_id original.project_id original.requested_by_channel
            original.requested_by_user original.requested_host original.instruction
            (retry_external claim original.external_session_id) t)
          "JOB_RETRY_CREATED"
          (object (
            ("retry_of", text original.id)
            ∷ ("external_session_id", opt_text original.external_session_id)
            ∷ []))
    let mode = retry_mode original.external_session_id
    place claim job job.requested_host mode (retry_instruction mode) (retry_instruction mode)
        (retry_task mode)

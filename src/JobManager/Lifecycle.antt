-- ===== src/JobManager/Lifecycle.antt =====
-- `JobManager._transition`, and the assignment of a host that goes with the lease.
use remote_control_pjt.Prelude.{
  ℕ, ◌+◌, Bool, false, not, String, Option, none, some, List, [], ◌∷◌, ◌==◌, string_eq, nat_eq,
  option_eq, if◌then◌else◌,
}
use remote_control_pjt.Result.{Error}
use remote_control_pjt.Json.{object, text}
use remote_control_pjt.World.{Action, pure, raise, or_raise, when, catch, lift, ◌>>=◌, ◌>>◌}
use Prim.Native.String.{◌++◌ as concat}
use remote_control_pjt.States.{JobState, value, is_terminal, state_eq, validate_transition}
use remote_control_pjt.Records.{JobRecord, ProjectSessionRecord}
use remote_control_pjt.Projects.{ProjectDefinition, get_project, path_for}
use remote_control_pjt.Repositories.Jobs
use remote_control_pjt.Repositories.ProjectSessions as Repository
use remote_control_pjt.ProjectSessions
use remote_control_pjt.ExecutionLeases

-- `require`
unfoldable pub require : String → Action JobRecord
require job_id = do or_raise (← Jobs.get job_id) Error.key_error

-- `try: await m except Exception as exc: …`, where the exception is kept for later.
abbrev pub attempt : {A : Type 0} → Action A → Action (Option Error)
attempt m = catch (m >> pure none) (λ x. pure (some x))

abbrev pub re_raise : Option Error → Action (Unit {0})
re_raise none = pure tt
re_raise (some x) = raise x

abbrev pub first_error : Option Error → Option Error → Option Error
first_error none later' = later'
first_error (some x) later' = some x

-- What a job that has ended gives back: both releases are tried, the first error is raised last.
unfoldable pub release_all : JobRecord → Action (Unit {0})
release_all job = do
  session_error ←
      attempt (ProjectSessions.release_for_job job.project_id job.requested_by_user job.id)
  lease_error ← attempt (ExecutionLeases.release_for_job job.id)
  re_raise (first_error session_error lease_error)

-- `_transition`
unfoldable pub transition : String → JobState → (JobRecord → JobRecord) → Action JobRecord
unfolding require value
transition job_id target changes = do
  job ← require job_id
  lift (validate_transition job.state target)
  updated ←
      Jobs.transition_with_event job_id job.state target changes (concat "JOB_" (value target))
        (object (("from", text (value job.state)) ∷ ("to", text (value target)) ∷ []))
  when (is_terminal target) (release_all job)
  pure updated

-- `canonical_working_directory` and the SHA-256 lease key are parameters, and so is what
-- `Path(…).expanduser().resolve()` makes of a path of the controller's own host.
module _ (canonical resolve_local : String → String) (lease_key : String → String → String)
    (projects : List ProjectDefinition) (local_host_id : String) where
  unfoldable pub working_directory : JobRecord → String → Action String
  working_directory job host_id = do
    project ← lift (get_project projects job.project_id)
    path ← lift (path_for project host_id)
    pure (if host_id == local_host_id then resolve_local path else path)

  -- `_assign_execution_lease`
  unfoldable pub assign_execution_lease : String → String → Action JobRecord
  unfolding require working_directory
  assign_execution_lease job_id host_id = do
    job ← require job_id
    lift (validate_transition job.state JobState.assigned)
    path ← working_directory job host_id
    ExecutionLeases.assign_job canonical lease_key job.id job.project_id host_id path job.state
    require job_id

  -- `_acquire_execution_lease`
  unfoldable pub acquire_execution_lease : String → String → Action (Unit {0})
  unfolding require working_directory
  acquire_execution_lease job_id host_id = do
    job ← require job_id
    path ← working_directory job host_id
    ExecutionLeases.acquire canonical lease_key job.id job.project_id host_id path
    pure tt

abbrev is_alive : Option JobRecord → Bool
is_alive none = false
is_alive (some job) = not (is_terminal job.state)

abbrev stale_reason : Option JobRecord → String
stale_reason none = "missing_job"
stale_reason (some job) = concat "terminal_job:" (value job.state)

abbrev unlocked : Option ProjectSessionRecord → ℕ
unlocked none = 0
unlocked (some r) = if r.locked_by_job_id == none then 1 else 0

-- One turn of the loop in `_reconcile_stale_project_session_locks`: the locks that it has released.
unfoldable pub reconcile_lock : ProjectSessionRecord → Action ℕ
unfolding value
reconcile_lock r = elim r.locked_by_job_id [
  | none ↦ pure 0
  | some job_id ↦ if job_id == "" then pure 0 else do
    job ← Jobs.get job_id
    if is_alive job then pure 0 else do
      updated ← ProjectSessions.release_stale_lock r.id job_id (stale_reason job)
      pure (unlocked updated)
]

unfoldable pub reconcile_locks : List ProjectSessionRecord → Action ℕ
unfolding reconcile_lock
reconcile_locks [] = pure 0
reconcile_locks (r ∷ rs) = do n ← reconcile_lock r; m ← reconcile_locks rs; pure (n + m)

-- `list_locked()` with its default limit.
unfoldable pub reconcile_stale_project_session_locks : Action ℕ
unfolding reconcile_locks
reconcile_stale_project_session_locks = do
  locked ← Repository.list_locked 1000
  reconcile_locks locked

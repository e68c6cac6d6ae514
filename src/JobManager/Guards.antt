-- ===== src/JobManager/Guards.antt =====
-- `JobManager.select_for_user` and `validate_runner_registration`: what a user and a runner may do.
use remote_control_pjt.Prelude.{
  ℕ, Bool, true, false, not, ◌||◌, String, Option, none, some, List, [], ◌∷◌, keep, contains, ◌==◌,
  string_eq, nat_eq, option_eq, if◌then◌else◌,
}
use remote_control_pjt.Result.{Error}
use remote_control_pjt.World.{Action, pure, raise, raise_if, ◌>>=◌, ◌>>◌}
use remote_control_pjt.States.{JobState, state_eq}
use remote_control_pjt.Records.{JobRecord, ExecutionLeaseRecord}
use remote_control_pjt.Repositories.Jobs
use remote_control_pjt.Repositories.Jobs.{in_project}
use remote_control_pjt.Repositories.Leases
use remote_control_pjt.Repositories.Executions
use remote_control_pjt.Hosts.Registry
use remote_control_pjt.Hosts.Registry.{HostInfo}
use remote_control_pjt.JobManager.Lifecycle.{require}

abbrev pub in_states : Option (List JobState) → JobRecord → Bool
in_states none job = true
in_states (some states) job = contains states job.state

-- `job_id is not None`: the job that the user names.
unfoldable pub select_named :
    String → Option (List JobState) → Option String → String → Action JobRecord
unfolding require
select_named user_id states project_id job_id = do
  job ← require job_id
  raise_if (not (job.requested_by_user == user_id)) Error.value_error
  raise_if (not (in_project project_id job)) Error.value_error
  raise_if (not (in_states states job)) Error.value_error
  pure job

-- The one candidate that is left.
abbrev pub only_one : List JobRecord → Action JobRecord
only_one [] = raise Error.value_error
only_one (job ∷ []) = pure job
only_one (job ∷ other ∷ more) = raise Error.value_error

unfoldable pub select_any : String → Option (List JobState) → Option String → Action JobRecord
select_any user_id states project_id = do
  candidates ← Jobs.list_active_for_user user_id project_id
  only_one (keep (in_states states) candidates)

unfoldable pub select_for_user :
    String → Option String → Option (List JobState) → Option String → Action JobRecord
unfolding select_named select_any
select_for_user user_id none states project_id = select_any user_id states project_id
select_for_user user_id (some job_id) states project_id =
    select_named user_id states project_id job_id

-- The states that are not terminal.
abbrev active_states : List JobState
active_states =
    JobState.queued ∷ JobState.assigned ∷ JobState.starting ∷ JobState.running
    ∷ JobState.waiting_agent ∷ JobState.waiting_human ∷ JobState.waiting_host
    ∷ JobState.waiting_lease ∷ JobState.waiting_quota ∷ JobState.paused ∷ JobState.cancelling ∷ []

abbrev non_empty : {A : Type 0} → List A → Bool
non_empty [] = false
non_empty (x ∷ xs) = true

-- The host's instance is new to the controller, unknown, or the one that asks.
abbrev pub may_register : Option HostInfo → String → Bool
may_register none runner_instance_id = true
may_register (some host) runner_instance_id =
    host.runner_instance_id == none || host.runner_instance_id == some runner_instance_id

module _ (local_host_id : String) (timeout : ℕ) where
  -- `validate_runner_registration`: a second runner may not take a host over while work is on it.
  unfoldable pub validate_runner_registration : String → String → Action (Unit {0})
  validate_runner_registration host_id runner_instance_id = do
    raise_if (host_id == local_host_id) Error.value_error
    existing ← Registry.get local_host_id timeout host_id
    if may_register existing runner_instance_id then pure tt else do
      jobs ← Jobs.list_states active_states
      leases ← Leases.list
      unacknowledged ← Executions.list_for_host host_id false
      raise_if
          (non_empty (keep (λ (j : JobRecord). j.assigned_host == some host_id) jobs)
            || non_empty (keep (λ (l : ExecutionLeaseRecord). l.host_id == host_id) leases)
            || non_empty unacknowledged)
          Error.value_error

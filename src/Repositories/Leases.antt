-- ===== src/Repositories/Leases.antt =====
-- `ExecutionLeaseRepository`: who holds which working tree. The key of a lease is the primary key,
-- and `job_id` is unique.
pub mod Invariant
use remote_control_pjt.Prelude.{
  ℕ, suc, ◌+◌, leb, Bool, true, false, not, ◌&&◌, ◌||◌, String, Option, none, some, List, [], ◌∷◌,
  ◌++◌, take, keep, any, contains, first, change, remove, has_key, sort_by, head?, ◌==◌, string_eq,
  nat_eq, option_eq, if◌then◌else◌,
}
use remote_control_pjt.Result.{Error}
use remote_control_pjt.Json.{Json, object, text, flag}
use remote_control_pjt.World.{
  World, Action, pure, raise, gets, or_raise, raise_if, now, commit, when, ◌>>=◌, ◌>>◌,
}
use remote_control_pjt.Records.{JobRecord, ExecutionLeaseRecord}
use remote_control_pjt.States.{JobState, state_eq, value}
use remote_control_pjt.Repositories.Events.{with_event}
use remote_control_pjt.Repositories.Jobs
use remote_control_pjt.Repositories.Jobs.{job_event}

abbrev pub by_key : String → ExecutionLeaseRecord → Bool
by_key = has_key (λ r. r.lease_key)

abbrev pub by_job : String → ExecutionLeaseRecord → Bool
by_job = has_key (λ r. r.job_id)

-- The constraints of the table refuse a second row for the working tree or for the job.
abbrev pub is_taken : ExecutionLeaseRecord → World → Bool
is_taken r w = any (by_key r.lease_key) w.leases || any (by_job r.job_id) w.leases

abbrev pub with_lease : ExecutionLeaseRecord → World → World
with_lease r w = record w { leases = w.leases ++ r ∷ [] }

unfoldable pub add : ExecutionLeaseRecord → Action ExecutionLeaseRecord
add r = do taken ← gets (is_taken r); commit taken (with_lease r); pure r

unfoldable pub get : String → Action (Option ExecutionLeaseRecord)
get lease_key = gets (λ w. first (by_key lease_key) w.leases)

unfoldable pub get_for_job : String → Action (Option ExecutionLeaseRecord)
get_for_job job_id = gets (λ w. first (by_job job_id) w.leases)

unfoldable pub list : Action (List ExecutionLeaseRecord)
list = gets (λ w. sort_by (λ a b. leb a.acquired_at b.acquired_at) w.leases)

unfoldable pub delete_for_job : String → Action (Unit {0})
delete_for_job job_id = do
  target ← gets (λ w. first (by_job job_id) w.leases)
  elim target [
    | none ↦ pure tt
    | some r ↦ commit false (λ w. record w { leases = remove (by_job job_id) w.leases })
  ]

-- The job's row and the event that `assign_job` writes beside the lease.
abbrev pub with_assignment : String → JobState → String → JobRecord → ℕ → World → World
with_assignment job_id expected assigned_host job t w =
    with_event
      (job_event job "JOB_ASSIGNED" (some assigned_host)
        (object (
          ("from", text (value expected))
          ∷ ("to", text "ASSIGNED")
          ∷ ("atomic_with_execution_lease", flag true)
          ∷ []))
        t)
      (record w {
        jobs =
            change (Jobs.by_id job_id)
              (λ j. record j { assigned_host = some assigned_host; state = JobState.assigned })
              w.jobs;
      })

-- The lease that the job already owns, if any, must be the one that is asked for.
unfoldable pub finish_assign :
    ExecutionLeaseRecord
    → JobState
    → String
    → JobRecord
    → Option ExecutionLeaseRecord
    → Action ExecutionLeaseRecord
finish_assign r expected assigned_host job none = do
  t ← now
  taken ← gets (is_taken r)
  commit taken (λ w. with_assignment r.job_id expected assigned_host job t (with_lease r w))
  pure r
finish_assign r expected assigned_host job (some lease) = do
  raise_if (not (lease.lease_key == r.lease_key)) Error.value_error
  t ← now
  commit false (with_assignment r.job_id expected assigned_host job t)
  pure lease

-- The job's move to ASSIGNED and its lease, in one transaction. The source also returns the job. Its
-- reads and its writes are two steps here in one: `finish_assign` is the second, which writes by the
-- job's id, whatever the job's state is by then.
unfoldable pub assign_job : ExecutionLeaseRecord → JobState → String → Action ExecutionLeaseRecord
unfolding finish_assign
assign_job r expected assigned_host = do
  job ← or_raise (← gets (λ w. first (Jobs.by_id r.job_id) w.jobs)) Error.key_error
  raise_if (not (job.state == expected)) Error.runtime_error
  lease ← gets (λ w. first (by_job r.job_id) w.leases)
  finish_assign r expected assigned_host job lease

-- ===== src/Examples/Transitions.antt =====
-- Transitions of the example's jobs, events, and places in the queue.
use remote_control_pjt.Prelude.{
  ◌∷◌, [], List, ◌≡◌, refl, String, none, some, ◌⊎◌, ◌<◌, ℕ, All, first, change, sort_by,
}
use remote_control_pjt.Result.{Error, ok, err}
use remote_control_pjt.Json.{null}
use remote_control_pjt.States.{JobState, validate_transition}
use remote_control_pjt.Records.{JobRecord}
use remote_control_pjt.World.{World, ◌>>=◌, commit}
use remote_control_pjt.Repositories.Events.{append, append_rounds, insert}
use remote_control_pjt.Repositories.Events.Retry.{Appends, entry, append_retries}
use remote_control_pjt.Repositories.Jobs
use remote_control_pjt.Repositories.Jobs.{transition_with_event, after_update, moved}
use remote_control_pjt.Repositories.Jobs.Transition.{
  Transitions, transition_is_atomic, transition_once,
}
use remote_control_pjt.Repositories.Leases.{by_job}
use remote_control_pjt.Repositories.Recovery.{position, next_queue_position, swap_queue_positions}
use remote_control_pjt.Repositories.Recovery.Queue.{Swaps, swap_exchanges, next_queue_position-last}
use remote_control_pjt.ProjectSessions
use remote_control_pjt.Repositories.ProjectSessions as Repository
use remote_control_pjt.Repositories.Leases
use remote_control_pjt.ExecutionLeases
use remote_control_pjt.JobManager.Lifecycle.{release_all, transition}
use remote_control_pjt.JobManager.Release.{without, after_session, release_all-frees}
use remote_control_pjt.JobManager.Ending.{transition_frees}
use remote_control_pjt.Repositories.Leases.{by_key}
use remote_control_pjt.Guarantee.Calls.{ManagerCall, run_call, run_calls}
use remote_control_pjt.Guarantee.Exclusive.{ended_tree_is_free}
use remote_control_pjt.Examples.Manager.{config}
use remote_control_pjt.Examples.Database.{lease, database, busy_database, first_job, second_job}

append_retries_example :
    Appends
      (entry "QUOTA_WAIT" (some "JOB-1") none none null 100)
      (append "QUOTA_WAIT" (some "JOB-1") none none null busy_database)
      busy_database
append_retries_example = append_retries "QUOTA_WAIT" (some "JOB-1") none none null busy_database

abbrev no_change : JobRecord → JobRecord
no_change r = r

transition_is_atomic_example :
    Transitions "JOB-2" JobState.queued JobState.assigned no_change "JOB_ASSIGNED" null
      (transition_with_event "JOB-2" JobState.queued JobState.assigned no_change "JOB_ASSIGNED" null
        database)
      database
transition_is_atomic_example =
    transition_is_atomic "JOB-2" JobState.queued JobState.assigned no_change "JOB_ASSIGNED" null
      database

abbrev moved_database : World
moved_database =
    (transition_with_event "JOB-2" JobState.queued JobState.assigned no_change "JOB_ASSIGNED" null
      database).1

transition_once_example :
    transition_with_event "JOB-2" JobState.queued JobState.cancelled no_change "JOB_CANCELLED" null
      moved_database
    ≡ (err Error.runtime_error, moved_database)
unfolding ◌>>=◌ transition_with_event first commit
transition_once_example =
    transition_once "JOB-2" JobState.queued JobState.assigned no_change "JOB_ASSIGNED" null database
      moved_database {j = moved "JOB-2" JobState.queued JobState.assigned no_change second_job}
      (refl, (refl, tt)) (λ r. refl) refl refl JobState.cancelled no_change "JOB_CANCELLED"

release_all-frees_example :
    let (r, w') = release_all first_job database in
    ((k : String) → first (by_job k) w'.leases ≡ without "JOB-1" database k)
    ⊎ (((x : Error) × ((Leases.delete_for_job "JOB-1" (after_session first_job database)).0
            ≡ err x))
        × ((x : Error) × (r ≡ err x))
        × (w'.leases ≡ database.leases))
release_all-frees_example = release_all-frees first_job database ((refl, tt), (refl, tt))

abbrev ended_database : World
ended_database = (transition "JOB-1" JobState.completed no_change database).1

transition_frees_example :
    (job : JobRecord) × (first (Jobs.by_id "JOB-1") database.jobs ≡ some job)
    × (validate_transition job.state JobState.completed ≡ ok tt)
    × (first (by_job "JOB-1") ended_database.leases ≡ none)
unfolding ◌>>=◌ transition transition_with_event first change commit release_all
    ProjectSessions.release_for_job ExecutionLeases.release_for_job append Jobs.get
    validate_transition Repository.active_for sort_by Repository.update append_rounds insert
    Leases.get_for_job Leases.delete_for_job
transition_frees_example =
    transition_frees "JOB-1" JobState.completed no_change database ended_database
      {j = record first_job { state = JobState.completed }} ((refl, tt), (refl, tt)) refl refl

next_queue_position-last_example :
    (n : ℕ) × (next_queue_position database ≡ (ok n, database))
    × All (λ r. position r < n) database.recovery
next_queue_position-last_example = next_queue_position-last database

swap_exchanges_example :
    Swaps "JOB-4" "JOB-3" database (swap_queue_positions "JOB-4" "JOB-3" database)
swap_exchanges_example = swap_exchanges "JOB-4" "JOB-3" database refl

-- The first job ends after a while.
abbrev waiting : List ManagerCall
waiting = ManagerCall.elapses 7 ∷ []

abbrev later_database : World
later_database =
    (transition "JOB-1" JobState.completed no_change (run_calls config waiting database)).1

ended_tree_is_free_example : first (by_key lease.lease_key) later_database.leases ≡ none
unfolding ◌>>=◌ transition transition_with_event first change commit release_all
    ProjectSessions.release_for_job ExecutionLeases.release_for_job append Jobs.get
    validate_transition Repository.active_for sort_by Repository.update append_rounds insert
    Leases.get_for_job Leases.delete_for_job run_calls run_call
ended_tree_is_free_example =
    ended_tree_is_free config waiting database later_database "JOB-1" JobState.completed no_change
      lease ((refl, tt), (refl, tt)) refl (λ r. refl) refl refl

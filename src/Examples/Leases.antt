-- ===== src/Examples/Leases.antt =====
-- Leases of the example database.
use remote_control_pjt.Prelude.{change, none, some, ◌≡◌, refl, String, [], ◌∷◌, first}
use Prim.Native.String.{◌++◌ as concat}
use remote_control_pjt.Result.{Error, err}
use remote_control_pjt.States.{JobState}
use remote_control_pjt.Records.{ExecutionLeaseRecord}
use remote_control_pjt.World.{World, commit, ◌>>=◌}
use remote_control_pjt.Repositories.Leases
use remote_control_pjt.Repositories.Leases.{finish_assign}
use remote_control_pjt.Repositories.Leases.Invariant.{
  IsExclusive, Assigns, assign_job-Assigns, LeaseCall, run_calls, run_calls-IsExclusive,
}
use remote_control_pjt.ExecutionLeases
use remote_control_pjt.ExecutionLeases.{lease_record}
use remote_control_pjt.ExecutionLeases.Exclusion.{as_busy, assign_job-audit, assign_job_excludes}
use remote_control_pjt.Examples.Database.{job, database, busy_database, lease}

abbrev canonical : String → String
canonical path = path

abbrev lease_key : String → String → String
lease_key host_id path = concat (concat host_id ":") path

abbrev asked : ExecutionLeaseRecord
asked = lease_record canonical lease_key "JOB-2" "site" "desk" "/site" 100

abbrev elsewhere : ExecutionLeaseRecord
elsewhere = lease_record canonical lease_key "JOB-2" "site" "desk" "/other" 100

database-IsExclusive : IsExclusive database
database-IsExclusive = ((refl, tt), (refl, tt))

run_calls-IsExclusive_example : IsExclusive (
    run_calls
      (LeaseCall.assigns asked JobState.queued "desk"
        ∷ LeaseCall.adds elsewhere
        ∷ LeaseCall.deletes "JOB-1"
        ∷ LeaseCall.adds asked
        ∷ [])
      database)
run_calls-IsExclusive_example =
    run_calls-IsExclusive
      (LeaseCall.assigns asked JobState.queued "desk"
        ∷ LeaseCall.adds elsewhere
        ∷ LeaseCall.deletes "JOB-1"
        ∷ LeaseCall.adds asked
        ∷ [])
      database database-IsExclusive

assign_job-Assigns_example :
    Assigns elsewhere JobState.queued "desk"
      (Leases.assign_job elsewhere JobState.queued "desk" database)
      database
assign_job-Assigns_example = assign_job-Assigns elsewhere JobState.queued "desk" database

assign_job-audit_example :
    let (r, w') = Leases.assign_job elsewhere JobState.queued "desk" busy_database in
    let (r', w'') =
      ExecutionLeases.assign_job canonical lease_key "JOB-2" "site" "desk" "/other" JobState.queued
        busy_database in
    (r' ≡ as_busy r) × (w''.leases ≡ w'.leases) × (w''.jobs ≡ w'.jobs)
assign_job-audit_example =
    assign_job-audit canonical lease_key "JOB-2" "site" "desk" "/other" JobState.queued
      busy_database

assign_job_excludes_example :
    let (r, w') =
      ExecutionLeases.assign_job canonical lease_key "JOB-2" "site" "desk" "/site" JobState.queued
        database in
    ((x : Error) × (r ≡ err x)) × (w'.leases ≡ database.leases) × (w'.jobs ≡ database.jobs)
unfolding first
assign_job_excludes_example =
    assign_job_excludes canonical lease_key "JOB-2" "site" "desk" "/site" JobState.queued database
      lease database-IsExclusive refl refl

-- A job that was queued when `assign_job` read it, and is cancelled when it writes.
abbrev meanwhile : World
meanwhile = record database { jobs = job "JOB-2" JobState.cancelled none 1 ∷ [] }

revived :
    (finish_assign elsewhere JobState.queued "desk"
      (job "JOB-2" JobState.queued none 1)
      none
      meanwhile).1.jobs
    ≡ job "JOB-2" JobState.assigned (some "desk") 1 ∷ []
unfolding ◌>>=◌ finish_assign commit change
revived = refl

-- ===== src/JobManager/Holding.antt =====
-- A job whose process could not be proven dead.
use Prim.Native.String.{◌++◌ as concat}
use mathlib.Core.Option
use remote_control_pjt.Prelude.{ℕ, ap, String, Option, none, some, first, string_eq}
use remote_control_pjt.Result.{Result}
use remote_control_pjt.Json.{Json}
use remote_control_pjt.States.{state_eq}
use remote_control_pjt.Records.{JobRecord}
use remote_control_pjt.World.{World}
use remote_control_pjt.World.Keeps.{
  Keeps, pure-Keeps, raise-Keeps, gets-Keeps, lift-Keeps, or_raise-Keeps, if-Keeps, option-Keeps,
  bind-Keeps, catch-Keeps,
}
use remote_control_pjt.Repositories.Events.{append}
use remote_control_pjt.Repositories.Events.Retry.{append-frame}
use remote_control_pjt.Repositories.Jobs
use remote_control_pjt.Repositories.Jobs.{by_id}
use remote_control_pjt.Repositories.Sessions as SessionTable
use remote_control_pjt.Repositories.ProjectWork
use remote_control_pjt.Sessions
use remote_control_pjt.JobManager.Config.{Config}

abbrev process_of : Option JobRecord → Option (Option ℕ × Option String)
process_of none = none
process_of (some r) = some (r.pid, r.error)

module _ (job_id : String) where
  -- The process and the error that the table has for the job.
  abbrev process_in : World → Option (Option ℕ × Option String)
  process_in w = process_of (first (by_id job_id) w.jobs)

  append-Keeps :
      (t : String) (j p h : Option String) (payload : Json)
      → Keeps process_in (append t j p h payload)
  append-Keeps t j p h payload = record { at = λ w. ap process_in (append-frame t j p h payload w) }

  ruleset keeps = (
    pure-Keeps, raise-Keeps, gets-Keeps, lift-Keeps, or_raise-Keeps, if-Keeps, option-Keeps,
    bind-Keeps, catch-Keeps, append-Keeps,
  )

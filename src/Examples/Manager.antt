-- ===== src/Examples/Manager.antt =====
-- The job manager on the example database.
use remote_control_pjt.Prelude.{
  ◌≡◌, refl, true, arith, Option, String, none, some, List, [], ◌∷◌, first, string_eq,
}
use Prim.Native.String.{◌++◌ as concat}
use remote_control_pjt.Result.{ok}
use remote_control_pjt.States.{JobState}
use remote_control_pjt.Records.{JobRecord}
use remote_control_pjt.World.{World, Delivery}
use remote_control_pjt.Repositories.Events.{append}
use remote_control_pjt.Repositories.Jobs.{by_id}
use remote_control_pjt.Prelude.{◌++◌, false}
use remote_control_pjt.Result.{Error, err}
use remote_control_pjt.Quota.{QuotaSignal}
use remote_control_pjt.JobManager.Turns.{drain_steering, steering_of, joint_instruction, decimal}
use remote_control_pjt.JobManager.Notices.{failure_payload, deliver_notification}
use remote_control_pjt.JobManager.Steering.{Tells, queue_all, drain_steering-all}
use remote_control_pjt.JobManager.Delivery.{answering, refuse, deliver_notification-answer}
use remote_control_pjt.JobManager.Config.{Config}
use remote_control_pjt.JobManager.Failures.{hold_process_safety}
use remote_control_pjt.Repositories.Jobs
use remote_control_pjt.Repositories.ProjectWork
use remote_control_pjt.Repositories.Sessions as SessionTable
use remote_control_pjt.Sessions
use remote_control_pjt.Guarantee.Calls.{ManagerCall, run_calls}
use remote_control_pjt.Guarantee.Follows.{Follows}
use remote_control_pjt.Guarantee.History.{manager_calls-Follows, ended_job_stays}
use remote_control_pjt.Examples.Database.{first_job, database, project, job}

abbrev no_change : String → String
no_change s = s

abbrev pub config : Config
config = record {
  projects = project ∷ [];
  local_host_id = "desk";
  heartbeat_timeout = 60000000;
  quota_retry_initial_seconds = 60;
  quota_retry_max_seconds = 3600;
  quota_reset_grace_seconds = 30;
  canonical = no_change;
  resolve_local = no_change;
  lease_key = λ h p. concat (concat h ":") p;
  casefold = no_change;
  strip = no_change;
  message = λ x. "error";
  repr = λ s. concat "'" (concat s "'");
  detect_quota = λ s. none;
  stop = λ h. ok tt;
  acknowledge = λ h. ok tt;
  terminate = λ p d e t. true;
}

-- Bob asks for a job while the first job holds the tree, the first job is cancelled, and the
-- recovery loop runs.
abbrev calls : List ManagerCall
calls =
    ManagerCall.creates "JOB-9" "PS-9" "site" "telegram" "bob" "write the docs" "auto"
    ∷ ManagerCall.begins_cancel "JOB-1"
    ∷ ManagerCall.confirms_cancel "JOB-1"
    ∷ ManagerCall.elapses 1000000
    ∷ ManagerCall.recovers_due 1000101 no_change
    ∷ []

manager_calls-Follows_example :
    Follows
      (first (by_id "JOB-1") database.jobs)
      (first (by_id "JOB-1") (run_calls config calls database).jobs)
manager_calls-Follows_example = manager_calls-Follows config calls database "JOB-1"

abbrev signal : QuotaSignal
signal = record { message = "limit"; reset_at = some 5000 }

abbrev ended_job : JobRecord
ended_job = job "JOB-1" JobState.completed (some "desk") 1

abbrev ended_database : World
ended_database = record database { jobs = ended_job ∷ [] }

ended_job_stays_example :
    (later : JobRecord) × (first (by_id "JOB-1") (run_calls config calls ended_database).jobs
      ≡ some later)
    × (later.state ≡ JobState.completed)
unfolding first
ended_job_stays_example = ended_job_stays config calls ended_database "JOB-1" ended_job refl refl

told :
    joint_instruction ("first" ∷ "second" ∷ [])
    ≡ some "Apply these user steering instructions together:\n1. first\n2. second"
unfolding joint_instruction
told = refl

tenth : decimal 1207 ≡ "1207"
tenth = refl

drain_steering-all_example :
    let w = record database { steering = ("JOB-1", "first" ∷ []) ∷ [] } in
    let (r, w') =
      drain_steering "JOB-1"
        (record w { steering = queue_all "JOB-1" ("second" ∷ "third" ∷ []) w.steering }) in
    ((told : Option String) × (r ≡ ok told)
      × Tells (steering_of "JOB-1" w.steering ++ "second" ∷ "third" ∷ []) told)
    × ((drain_steering "JOB-1" w').0 ≡ ok none)
drain_steering-all_example =
    drain_steering-all "JOB-1" ("second" ∷ "third" ∷ [])
      (record database { steering = ("JOB-1", "first" ∷ []) ∷ [] }) (refl, tt)

abbrev refusal : String × String
refusal = ("OSError", "offline")

deliver_notification-answer_example :
    let rest = Delivery.cancelled ∷ [] in
    (deliver_notification first_job "message"
        (answering (refuse refusal ∷ Delivery.delivered ∷ rest) database)
      ≡ (ok true, answering rest database))
    × (deliver_notification first_job "message"
          (answering (refuse refusal ∷ Delivery.cancelled ∷ rest) database)
        ≡ (err Error.cancelled_error, answering rest database))
    × (deliver_notification first_job "message"
          (answering (refuse refusal ∷ refuse refusal ∷ refuse refusal ∷ rest) database)
        ≡ (
          ok false,
          (append "NOTIFICATION_FAILED"
              (some "JOB-1")
              (some first_job.project_id)
              first_job.assigned_host
              (failure_payload first_job "message" refusal)
              (answering rest database)).1,
        ))
deliver_notification-answer_example =
    deliver_notification-answer first_job "message" (refusal ∷ []) refusal refusal refusal
      (Delivery.cancelled ∷ []) database (omega arith)

abbrev held_database : World
held_database = (hold_process_safety config "JOB-1" (some 7) none none "still running" database).1

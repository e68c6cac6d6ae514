-- ===== src/Examples/People.antt =====
-- Questions and project sessions of the example database.
use remote_control_pjt.Prelude.{
  ◌∷◌, ◌++◌, [], ◌≡◌, refl, true, false, String, none, some, first, sort_by, map,
}
use remote_control_pjt.Result.{Error, err}
use remote_control_pjt.Records.{ApprovalRecord}
use remote_control_pjt.Statuses.{ApprovalStatus}
use remote_control_pjt.World.{World, ◌>>=◌, commit}
use remote_control_pjt.Repositories.Approvals as Repository
use remote_control_pjt.Json.{array}
use remote_control_pjt.Repositories.Events.{append, append_rounds, insert}
use remote_control_pjt.Approvals.{option_json, resolve, create, prompt}
use remote_control_pjt.Approvals.Resolution.{resolve_once}
use remote_control_pjt.Approvals.Options.{create-prompt}
use remote_control_pjt.States.{JobState}
use remote_control_pjt.Repositories.Jobs.{list_active_for_user}
use remote_control_pjt.JobManager.Guards.{select_for_user, select_any}
use remote_control_pjt.JobManager.Selection.{IsSelectable, select_for_user-IsSelectable}
use remote_control_pjt.Examples.Database.{first_job, database, question, request}

abbrev same : String → String
same s = s

abbrev answered_database : World
answered_database = (resolve same "A-1" (some "y") false none database).1

resolve_once_example :
    resolve same "A-1" none true none answered_database ≡ (err Error.value_error, answered_database)
unfolding ◌>>=◌ resolve first commit Repository.update Repository.get
resolve_once_example =
    resolve_once same "A-1" (some "y") none false database answered_database
      {r = record question {
        status = ApprovalStatus.resolved;
        selected_option = some "y";
        resolved_at = some 100;
      }}
      refl none none true

abbrev asked : ApprovalRecord
asked = record {
  id = "A-2";
  job_id = "JOB-2";
  requested_by_user = "ann";
  approval_type = "choice";
  question = "Deploy?";
  details = none;
  options_json = some (array (map option_json request.options));
  status = ApprovalStatus.pending;
  selected_option = none;
  response_text = none;
  expires_at = none;
  resolved_at = none;
  created_at = 100;
}

create-prompt_example :
    (asked.status ≡ ApprovalStatus.pending)
    × ((prompt asked).job_id ≡ "JOB-2")
    × ((prompt asked).question ≡ request.question)
    × ((prompt asked).options ≡ request.options)
    × ((create "A-2" "JOB-2" "site" none "ann" request database).1.approvals
        ≡ database.approvals ++ asked ∷ [])
unfolding ◌>>=◌ create first commit Repository.pending_for_job Repository.add append append_rounds
    insert sort_by
create-prompt_example =
    create-prompt "A-2" "JOB-2" "site" none "ann" request database
      (create "A-2" "JOB-2" "site" none "ann" request database).1 {r = asked} refl refl

select_for_user-IsSelectable_example :
    IsSelectable "ann" (some (JobState.running ∷ [])) (some "site") first_job
unfolding ◌>>=◌ select_for_user select_any list_active_for_user sort_by
select_for_user-IsSelectable_example =
    select_for_user-IsSelectable "ann" (some (JobState.running ∷ [])) (some "site") none database
      database {job = first_job} refl

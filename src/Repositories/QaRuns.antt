-- ===== src/Repositories/QaRuns.antt =====
-- `QARunRepository`: the quality assurance runs of the jobs.
use remote_control_pjt.Prelude.{
  leb, Bool, false, String, Option, List, [], ◌∷◌, ◌++◌, any, keep, contains, first, change,
  has_key, head?, sort_by, string_eq, ◌==◌,
}
use remote_control_pjt.Result.{Error}
use remote_control_pjt.World.{Action, pure, gets, or_raise, commit, ◌>>=◌, ◌>>◌}
use remote_control_pjt.Records.{QaRunRecord}

abbrev pub by_id : String → QaRunRecord → Bool
by_id = has_key (λ r. r.run_id)

-- `phase.in_(…)`
abbrev pub active_phases : List String
active_phases = "QA_PREPARING" ∷ "QA_RUNNING" ∷ "QA_COLLECTING" ∷ []

unfoldable pub add : QaRunRecord → Action QaRunRecord
add r = do
  taken ← gets (λ w. any (by_id r.run_id) w.qa_runs)
  commit taken (λ w. record w { qa_runs = w.qa_runs ++ r ∷ [] })
  pure r

unfoldable pub get : String → Action (Option QaRunRecord)
get run_id = gets (λ w. first (by_id run_id) w.qa_runs)

unfoldable pub latest_for_job : String → Action (Option QaRunRecord)
latest_for_job job_id = gets (λ w.
    head?
      (sort_by (λ a b. leb b.started_at a.started_at) (keep (λ r. r.job_id == job_id) w.qa_runs)))

unfoldable pub list_active : Action (List QaRunRecord)
list_active = gets (λ w.
    sort_by (λ a b. leb a.started_at b.started_at)
      (keep (λ r. contains active_phases r.phase) w.qa_runs))

unfoldable pub update : String → (QaRunRecord → QaRunRecord) → Action QaRunRecord
update run_id changes = do
  r ← or_raise (← gets (λ w. first (by_id run_id) w.qa_runs)) Error.key_error
  commit false (λ w. record w { qa_runs = change (by_id run_id) changes w.qa_runs })
  pure (changes r)

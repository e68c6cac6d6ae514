-- ===== src/Repositories/ProjectWork.antt =====
-- `ProjectWorkRepository`: the task of a project's own task list that a job works on.
use remote_control_pjt.Prelude.{
  ℕ, leb, Bool, false, String, Option, List, [], ◌∷◌, ◌++◌, take, any, first, change, has_key,
  sort_by, string_eq,
}
use remote_control_pjt.Result.{Error}
use remote_control_pjt.World.{Action, pure, gets, or_raise, commit, ◌>>=◌, ◌>>◌}
use remote_control_pjt.Records.{ProjectWorkRecord}

abbrev pub by_job : String → ProjectWorkRecord → Bool
by_job = has_key (λ r. r.job_id)

unfoldable pub add : ProjectWorkRecord → Action ProjectWorkRecord
add r = do
  taken ← gets (λ w. any (by_job r.job_id) w.project_work)
  commit taken (λ w. record w { project_work = w.project_work ++ r ∷ [] })
  pure r

unfoldable pub get : String → Action (Option ProjectWorkRecord)
get job_id = gets (λ w. first (by_job job_id) w.project_work)

unfoldable pub list : ℕ → Action (List ProjectWorkRecord)
list limit = gets (λ w. take limit (sort_by (λ a b. leb b.created_at a.created_at) w.project_work))

unfoldable pub update : String → (ProjectWorkRecord → ProjectWorkRecord) → Action ProjectWorkRecord
update job_id changes = do
  r ← or_raise (← gets (λ w. first (by_job job_id) w.project_work)) Error.key_error
  commit false (λ w. record w { project_work = change (by_job job_id) changes w.project_work })
  pure (changes r)

-- ===== src/Repositories/Jobs.antt =====
-- `JobRepository`: the table of jobs and the compare-and-set step of the job lifecycle.
pub mod Transition
use remote_control_pjt.Prelude.{
  ℕ, leb, Bool, false, not, ◌&&◌, String, Option, none, some, List, [], ◌∷◌, ◌++◌, take, keep, any,
  contains, first, change, has_key, sort_by, head?, ◌==◌, string_eq,
}
use remote_control_pjt.Result.{Error}
use remote_control_pjt.Json.{Json}
use remote_control_pjt.States.{JobState, state_eq, is_terminal}
use remote_control_pjt.Records.{JobRecord, EventRecord}
use remote_control_pjt.World.{Action, pure, raise, gets, or_raise, now, commit, ◌>>=◌, ◌>>◌}
use remote_control_pjt.Repositories.Events.{with_event}

abbrev pub by_id : String → JobRecord → Bool
by_id = has_key (λ r. r.id)

-- `created_at.desc()`
abbrev pub newest_first : JobRecord → JobRecord → Bool
newest_first a b = leb b.created_at a.created_at

abbrev pub oldest_first : JobRecord → JobRecord → Bool
oldest_first a b = leb a.created_at b.created_at

-- The events of a job's own row.
abbrev pub job_event : JobRecord → String → Option String → Json → ℕ → EventRecord
job_event job event_type host_id payload t = record {
  id = 0;
  event_type = event_type;
  job_id = some job.id;
  project_id = some job.project_id;
  host_id = host_id;
  payload_json = payload;
  created_at = t;
}

unfoldable pub add : JobRecord → Action JobRecord
add job = do
  taken ← gets (λ w. any (by_id job.id) w.jobs)
  commit taken (λ w. record w { jobs = w.jobs ++ job ∷ [] })
  pure job

unfoldable pub add_with_event : JobRecord → String → Option String → Json → Action JobRecord
add_with_event job event_type host_id payload = do
  taken ← gets (λ w. any (by_id job.id) w.jobs)
  t ← now
  commit taken (λ w.
      with_event (job_event job event_type host_id payload t)
        (record w { jobs = w.jobs ++ job ∷ [] }))
  pure job

unfoldable pub get : String → Action (Option JobRecord)
get job_id = gets (λ w. first (by_id job_id) w.jobs)

unfoldable pub list : ℕ → Action (List JobRecord)
list limit = gets (λ w. take limit (sort_by newest_first w.jobs))

unfoldable pub list_states : List JobState → Action (List JobRecord)
list_states states = gets (λ w. sort_by oldest_first (keep (λ r. contains states r.state) w.jobs))

-- The WHERE clause on the project stands only if a project is given.
abbrev pub in_project : Option String → JobRecord → Bool
in_project none r = Bool.true
in_project (some p) r = r.project_id == p

unfoldable pub list_active_for_user : String → Option String → Action (List JobRecord)
list_active_for_user user_id project_id = gets (λ w. sort_by newest_first (
    keep
      (λ r. r.requested_by_user == user_id && not (is_terminal r.state) && in_project project_id r)
      w.jobs))

unfoldable pub latest_for_user_project : String → String → Action (Option JobRecord)
latest_for_user_project user_id project_id = gets (λ w. head? (
    sort_by newest_first
      (keep (λ r. r.requested_by_user == user_id && r.project_id == project_id) w.jobs)))

-- `**changes` is a function that sets columns.
unfoldable pub update : String → (JobRecord → JobRecord) → Action JobRecord
update job_id changes = do
  job ← or_raise (← gets (λ w. first (by_id job_id) w.jobs)) Error.key_error
  commit false (λ w. record w { jobs = change (by_id job_id) changes w.jobs })
  pure (changes job)

abbrev pub in_state : String → JobState → JobRecord → Bool
in_state job_id state r = r.id == job_id && r.state == state

module _ (job_id : String) (expected target : JobState) (changes : JobRecord → JobRecord) where
  -- `values = dict(changes or {}); values["state"] = target_state`
  abbrev pub moved : JobRecord → JobRecord
  moved r = record (changes r) { state = target }

  -- What follows the UPDATE: with no row matched the job is unknown, or another task has moved it.
  unfoldable pub after_update : String → Json → Option JobRecord → Action JobRecord
  after_update event_type payload none = do
    or_raise (← gets (λ w. first (by_id job_id) w.jobs)) Error.key_error
    raise Error.runtime_error
  after_update event_type payload (some row) = do
    let job = moved row
    t ← now
    commit false (λ w.
        with_event (job_event job event_type job.assigned_host payload t)
          (record w { jobs = change (in_state job_id expected) moved w.jobs }))
    pure job

  -- `UPDATE … WHERE id = … AND state = …` and the event of the transition, in one transaction.
  unfoldable pub transition_with_event : String → Json → Action JobRecord
  unfolding after_update
  transition_with_event event_type payload = do
    matched ← gets (λ w. first (in_state job_id expected) w.jobs)
    after_update event_type payload matched

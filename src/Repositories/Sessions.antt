-- ===== src/Repositories/Sessions.antt =====
-- `SessionRepository`: the agent session of each job; `job_id` is unique.
use remote_control_pjt.Prelude.{
  ℕ, leb, Bool, false, ◌||◌, String, Option, List, [], ◌∷◌, ◌++◌, take, any, first, change, has_key,
  sort_by, string_eq, nat_eq, option_eq,
}
use remote_control_pjt.Result.{Error}
use remote_control_pjt.World.{Action, pure, gets, or_raise, commit, ◌>>=◌, ◌>>◌}
use remote_control_pjt.Records.{SessionRecord}

abbrev pub by_id : String → SessionRecord → Bool
by_id = has_key (λ r. r.id)

abbrev pub by_job : String → SessionRecord → Bool
by_job = has_key (λ r. r.job_id)

unfoldable pub add : SessionRecord → Action SessionRecord
add r = do
  taken ← gets (λ w. any (by_id r.id) w.sessions || any (by_job r.job_id) w.sessions)
  commit taken (λ w. record w { sessions = w.sessions ++ r ∷ [] })
  pure r

unfoldable pub get : String → Action (Option SessionRecord)
get session_id = gets (λ w. first (by_id session_id) w.sessions)

unfoldable pub get_for_job : String → Action (Option SessionRecord)
get_for_job job_id = gets (λ w. first (by_job job_id) w.sessions)

unfoldable pub list : ℕ → Action (List SessionRecord)
list limit =
    gets (λ w. take limit (sort_by (λ a b. leb b.last_active_at a.last_active_at) w.sessions))

unfoldable pub update : String → (SessionRecord → SessionRecord) → Action SessionRecord
update session_id changes = do
  r ← or_raise (← gets (λ w. first (by_id session_id) w.sessions)) Error.key_error
  commit false (λ w. record w { sessions = change (by_id session_id) changes w.sessions })
  pure (changes r)

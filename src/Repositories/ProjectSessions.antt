-- ===== src/Repositories/ProjectSessions.antt =====
-- `ProjectSessionRepository`: the agent context that a user's jobs of one project share.
use remote_control_pjt.Prelude.{
  ℕ, leb, Bool, true, false, not, ◌&&◌, String, Option, none, some, List, [], ◌∷◌, ◌++◌, take, keep,
  any, contains, first, change, has_key, sort_by, head?, ◌==◌, string_eq, nat_eq, option_eq,
}
use remote_control_pjt.Result.{Error}
use remote_control_pjt.World.{Action, pure, gets, or_raise, commit, ◌>>=◌, ◌>>◌}
use remote_control_pjt.Records.{ProjectSessionRecord}
use remote_control_pjt.Statuses.{ProjectSessionStatus, project_session_status_eq}

abbrev pub by_id : String → ProjectSessionRecord → Bool
by_id = has_key (λ r. r.id)

abbrev pub latest_first : ProjectSessionRecord → ProjectSessionRecord → Bool
latest_first a b = leb b.last_active_at a.last_active_at

unfoldable pub add : ProjectSessionRecord → Action ProjectSessionRecord
add r = do
  taken ← gets (λ w. any (by_id r.id) w.project_sessions)
  commit taken (λ w. record w { project_sessions = w.project_sessions ++ r ∷ [] })
  pure r

unfoldable pub get : String → Action (Option ProjectSessionRecord)
get session_id = gets (λ w. first (by_id session_id) w.project_sessions)

-- `status.in_(("IDLE", "ACTIVE"))` and `closed_at.is_(None)`
abbrev pub is_open : ProjectSessionRecord → Bool
is_open r =
    contains (ProjectSessionStatus.idle ∷ ProjectSessionStatus.active ∷ []) r.status
    && r.closed_at == none

abbrev pub is_active_for : String → String → ProjectSessionRecord → Bool
is_active_for project_id owner_user_id r =
    (r.project_id == project_id && r.owner_user_id == owner_user_id) && is_open r

unfoldable pub active_for : String → String → Action (Option ProjectSessionRecord)
active_for project_id owner_user_id = gets (λ w.
    head? (sort_by latest_first (keep (is_active_for project_id owner_user_id) w.project_sessions)))

abbrev pub in_project : Option String → ProjectSessionRecord → Bool
in_project none r = true
in_project (some p) r = r.project_id == p

unfoldable pub list_for_user : String → Option String → ℕ → Action (List ProjectSessionRecord)
list_for_user owner_user_id project_id limit = gets (λ w. take limit (
    sort_by latest_first
      (keep (λ r. r.owner_user_id == owner_user_id && in_project project_id r) w.project_sessions)))

unfoldable pub list : ℕ → Action (List ProjectSessionRecord)
list limit = gets (λ w. take limit (sort_by latest_first w.project_sessions))

unfoldable pub list_locked : ℕ → Action (List ProjectSessionRecord)
list_locked limit = gets (λ w. take limit (
    sort_by (λ a b. leb a.last_active_at b.last_active_at)
      (keep (λ r. not (r.locked_by_job_id == none)) w.project_sessions)))

unfoldable pub update :
    String → (ProjectSessionRecord → ProjectSessionRecord) → Action ProjectSessionRecord
update session_id changes = do
  r ← or_raise (← gets (λ w. first (by_id session_id) w.project_sessions)) Error.key_error
  commit false
      (λ w. record w { project_sessions = change (by_id session_id) changes w.project_sessions })
  pure (changes r)

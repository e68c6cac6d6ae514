-- ===== src/ProjectSessions/Switch.antt =====
-- sessions/project_sessions.py: the methods that a user calls to change the session in use.
use remote_control_pjt.Prelude.{
  Bool, true, false, not, String, Option, none, some, List, [], ◌∷◌, ◌==◌, string_eq, nat_eq,
  option_eq, if◌then◌else◌,
}
use remote_control_pjt.Result.{Error}
use remote_control_pjt.Json.{Json, object, text, flag, opt_text}
use remote_control_pjt.World.{Action, pure, or_raise, raise_if, now, ◌>>=◌, ◌>>◌}
use remote_control_pjt.Repositories.Events.{append}
use remote_control_pjt.Statuses.{ProjectSessionStatus}
use remote_control_pjt.Records.{ProjectSessionRecord}
use remote_control_pjt.Repositories.ProjectSessions
use remote_control_pjt.ProjectSessions.{is_set, refuse_if, session_payload, fresh}

-- The open session that makes room: nothing happens if there is none.
unfoldable pub close_session :
    String → String → List (String × Json) → Option ProjectSessionRecord → Action (Unit {0})
close_session project_id owner_user_id extra none = pure tt
close_session project_id owner_user_id extra (some current) = do
  t ← now
  refuse_if (is_set current.locked_by_job_id) current
  ProjectSessions.update current.id (λ r. record r {
    status = ProjectSessionStatus.closed;
    closed_at = some t;
    last_active_at = t;
  })
  append "PROJECT_SESSION_CLOSED" none (some project_id) current.host_id (
      object (
        ("project_session_id", text current.id)
        ∷ ("external_session_id", opt_text current.external_session_id)
        ∷ ("owner_user_id", text owner_user_id)
        ∷ extra))
  pure tt

-- `if current is not None and current.id != target.id`
abbrev pub other_than : String → Option ProjectSessionRecord → Option ProjectSessionRecord
other_than target_id none = none
other_than target_id (some r) = if r.id == target_id then none else some r

unfoldable pub use_session : String → String → String → Action ProjectSessionRecord
unfolding close_session
use_session session_id project_id owner_user_id = do
  target ← or_raise (← ProjectSessions.get session_id) Error.key_error
  raise_if (not (target.owner_user_id == owner_user_id)) Error.value_error
  raise_if (not (target.project_id == project_id)) Error.value_error
  raise_if (not (is_set target.external_session_id)) Error.value_error
  refuse_if (is_set target.locked_by_job_id) target
  current ← ProjectSessions.active_for project_id owner_user_id
  t ← now
  close_session project_id owner_user_id (("reason", text "session_use") ∷ [])
      (other_than target.id current)
  activated ← ProjectSessions.update target.id (λ r. record r {
    status = ProjectSessionStatus.idle;
    locked_by_job_id = none;
    closed_at = none;
    last_active_at = t;
  })
  append "PROJECT_SESSION_ACTIVATED" none (some project_id) activated.host_id
      (session_payload activated owner_user_id)
  pure activated

abbrev exists : Option ProjectSessionRecord → Bool
exists none = false
exists (some r) = true

unfoldable pub new_session : String → String → String → Action ProjectSessionRecord
unfolding close_session
new_session new_id project_id owner_user_id = do
  current ← ProjectSessions.active_for project_id owner_user_id
  t ← now
  close_session project_id owner_user_id [] current
  created ←
      ProjectSessions.add
        (fresh new_id project_id owner_user_id none none ProjectSessionStatus.idle none t)
  append "PROJECT_SESSION_CREATED" none (some project_id) none (
      object (
        ("project_session_id", text created.id)
        ∷ ("owner_user_id", text owner_user_id)
        ∷ ("rollover", flag (exists current))
        ∷ []))
  pure created

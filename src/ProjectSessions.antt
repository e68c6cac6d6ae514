-- ===== src/ProjectSessions.antt =====
-- sessions/project_sessions.py: the agent context that the jobs of one project and user share, and
-- the job that holds it. The lock around each method makes it one step for its project and user.
pub mod Switch
use remote_control_pjt.Prelude.{
  ℕ, suc, ◌+◌, ltb, leb, Bool, true, false, not, ◌&&◌, ◌||◌, String, Option, none, some, List, [],
  ◌∷◌, ◌++◌, map, take, keep, any, contains, first, head?, ◌==◌, string_eq, nat_eq, option_eq,
  if◌then◌else◌, length,
}
use remote_control_pjt.Result.{Error, Result, ok, err, is_value_error, is_integrity_error}
use remote_control_pjt.Json.{
  Json, Items, Fields, nil, cons, end, field, null, num, arr, obj, object, array, text, flag,
  opt_text, get_field, as_text,
}
use remote_control_pjt.World.{
  World, Action, pure, raise, gets, or_raise, raise_if, now, commit, when, catch, lift, ◌>>=◌, ◌>>◌,
}
use remote_control_pjt.Repositories.Events.{append}
use remote_control_pjt.Statuses.{ProjectSessionStatus}
use remote_control_pjt.Records.{ProjectSessionRecord}
use remote_control_pjt.Repositories.ProjectSessions

abbrev pub is_set : Option String → Bool
is_set none = false
is_set (some s) = not (s == "")

-- `current.locked_by_job_id and current.locked_by_job_id != job_id`: an empty text is no holder.
abbrev pub is_held_by_other : Option String → String → Bool
is_held_by_other none job_id = false
is_held_by_other (some holder) job_id = not (holder == "") && not (holder == job_id)

-- `raise ProjectSessionBusyError(current.id, current.locked_by_job_id)`
abbrev pub busy : {A : Type 0} → ProjectSessionRecord → Action A
busy current = elim current.locked_by_job_id [
  | none ↦ raise (Error.project_session_busy current.id "")
  | some holder ↦ raise (Error.project_session_busy current.id holder)
]

abbrev pub refuse_if : Bool → ProjectSessionRecord → Action (Unit {0})
refuse_if b current = if b then busy current else pure tt

-- `locked_by_job_id not in {None, job_id}`
abbrev pub is_held_against : Option String → String → Bool
is_held_against none job_id = false
is_held_against (some holder) job_id = not (holder == job_id)

unfoldable pub release_lock :
    String → String → String → ProjectSessionRecord → Action (Option ProjectSessionRecord)
release_lock session_id expected_job_id reason current =
    if not (current.locked_by_job_id == some expected_job_id) then pure (some current) else do
      t ← now
      updated ← ProjectSessions.update session_id (λ r. record r {
        status = ProjectSessionStatus.idle;
        locked_by_job_id = none;
        last_active_at = t;
      })
      append "PROJECT_SESSION_STALE_LOCK_RELEASED" (some expected_job_id) (some updated.project_id)
          updated.host_id
          (object (
            ("project_session_id", text updated.id)
            ∷ ("owner_user_id", text updated.owner_user_id)
            ∷ ("reason", text reason)
            ∷ []))
      pure (some updated)

-- The row is read once for its lock and once more under it; in one step both reads agree.
unfoldable pub release_stale_lock : String → String → String → Action (Option ProjectSessionRecord)
unfolding release_lock
release_stale_lock session_id expected_job_id reason = do
  found ← ProjectSessions.get session_id
  elim found [
    | none ↦ pure none
    | some current ↦ release_lock session_id expected_job_id reason current
  ]

abbrev pub fresh :
    String
    → String
    → String
    → Option String
    → Option String
    → ProjectSessionStatus
    → Option String
    → ℕ
    → ProjectSessionRecord
fresh new_id project_id owner_user_id external_session_id host_id status job_id t = record {
  id = new_id;
  project_id = project_id;
  owner_user_id = owner_user_id;
  external_session_id = external_session_id;
  host_id = host_id;
  status = status;
  last_job_id = job_id;
  locked_by_job_id = job_id;
  last_active_at = t;
  closed_at = none;
}

-- What each method's `new_id` stands for is what `_project_session_id()` draws.
unfoldable pub open_session :
    String
    → String
    → String
    → Option String
    → Option String
    → Option ProjectSessionRecord
    → Action ProjectSessionRecord
open_session new_id project_id owner_user_id seed_external_session_id seed_host_id (some r) = pure r
open_session new_id project_id owner_user_id seed_external_session_id seed_host_id none = do
  t ← now
  current ← ProjectSessions.add (
      fresh new_id project_id owner_user_id seed_external_session_id seed_host_id
        ProjectSessionStatus.idle none t)
  append "PROJECT_SESSION_CREATED" none (some project_id) none (
      object (
        ("project_session_id", text current.id)
        ∷ ("owner_user_id", text owner_user_id)
        ∷ ("seeded_external_session_id", opt_text seed_external_session_id)
        ∷ ("seed_host_id", opt_text seed_host_id)
        ∷ []))
  pure current

abbrev pub session_payload : ProjectSessionRecord → String → Json
session_payload r owner_user_id = object (
    ("project_session_id", text r.id)
    ∷ ("external_session_id", opt_text r.external_session_id)
    ∷ ("owner_user_id", text owner_user_id)
    ∷ [])

unfoldable pub acquire :
    String → String → String → String → Option String → Option String → Action ProjectSessionRecord
unfolding open_session
acquire new_id project_id owner_user_id job_id seed_external_session_id seed_host_id = do
  found ← ProjectSessions.active_for project_id owner_user_id
  t ← now
  current ← open_session new_id project_id owner_user_id seed_external_session_id seed_host_id found
  refuse_if (is_held_by_other current.locked_by_job_id job_id) current
  updated ← ProjectSessions.update current.id (λ r. record r {
    status = ProjectSessionStatus.active;
    last_job_id = some job_id;
    locked_by_job_id = some job_id;
    last_active_at = t;
  })
  append "PROJECT_SESSION_ACQUIRED" (some job_id) (some project_id) updated.host_id
      (session_payload updated owner_user_id)
  pure updated

unfoldable pub migrate :
    String
    → String
    → String
    → String
    → String
    → String
    → Option ProjectSessionRecord
    → Action ProjectSessionRecord
migrate new_id project_id owner_user_id job_id external_session_id host_id (some r) = pure r
migrate new_id project_id owner_user_id job_id external_session_id host_id none = do
  t ← now
  current ← ProjectSessions.add (
      fresh new_id project_id owner_user_id (some external_session_id) (some host_id)
        ProjectSessionStatus.active (some job_id) t)
  append "PROJECT_SESSION_MIGRATED" (some job_id) (some project_id) (some host_id) (
      object (
        ("project_session_id", text current.id)
        ∷ ("external_session_id", text external_session_id)
        ∷ ("owner_user_id", text owner_user_id)
        ∷ []))
  pure current

unfoldable pub bind_for_job :
    String → String → String → String → String → String → Action ProjectSessionRecord
unfolding migrate
bind_for_job new_id project_id owner_user_id job_id external_session_id host_id = do
  found ← ProjectSessions.active_for project_id owner_user_id
  current ← migrate new_id project_id owner_user_id job_id external_session_id host_id found
  refuse_if (is_held_against current.locked_by_job_id job_id) current
  t ← now
  updated ← ProjectSessions.update current.id (λ r. record r {
    external_session_id = some external_session_id;
    host_id = some host_id;
    status = ProjectSessionStatus.active;
    last_job_id = some job_id;
    locked_by_job_id = some job_id;
    last_active_at = t;
  })
  when (not (current.external_session_id == some external_session_id)) (
      append "PROJECT_SESSION_BOUND" (some job_id) (some project_id) (some host_id) (
        object (
          ("project_session_id", text updated.id)
          ∷ ("previous_external_session_id", opt_text current.external_session_id)
          ∷ ("external_session_id", text external_session_id)
          ∷ ("owner_user_id", text owner_user_id)
          ∷ []))
      >> pure tt)
  pure updated

unfoldable pub release_held :
    String → String → String → ProjectSessionRecord → Action (Option ProjectSessionRecord)
release_held project_id owner_user_id job_id current =
    if is_held_against current.locked_by_job_id job_id then pure (some current) else do
      t ← now
      updated ← ProjectSessions.update current.id (λ r. record r {
        status = ProjectSessionStatus.idle;
        last_job_id = some job_id;
        locked_by_job_id = none;
        last_active_at = t;
      })
      append "PROJECT_SESSION_RELEASED" (some job_id) (some project_id) updated.host_id
          (session_payload updated owner_user_id)
      pure (some updated)

unfoldable pub release_for_job : String → String → String → Action (Option ProjectSessionRecord)
unfolding release_held
release_for_job project_id owner_user_id job_id = do
  found ← ProjectSessions.active_for project_id owner_user_id
  elim found [
    | none ↦ pure none
    | some current ↦ release_held project_id owner_user_id job_id current
  ]

-- ===== src/Sessions.antt =====
-- sessions/registry.py: the agent session of each job, as its events report it.
use remote_control_pjt.Prelude.{
  not, String, Option, none, some, [], ◌∷◌, ◌==◌, string_eq, nat_eq, option_eq,
}
use remote_control_pjt.Json.{object, text}
use remote_control_pjt.World.{Action, pure, now, when, ◌>>=◌, ◌>>◌}
use remote_control_pjt.Repositories.Events.{append}
use Prim.Native.String.{◌++◌ as concat}
use remote_control_pjt.Statuses.{SessionStatus}
use remote_control_pjt.Records.{SessionRecord}
use remote_control_pjt.Repositories.Sessions

-- `SessionStatus.value`
unfoldable pub value : SessionStatus → String
value SessionStatus.active = "ACTIVE"
value SessionStatus.waiting_human = "WAITING_HUMAN"
value SessionStatus.waiting_host = "WAITING_HOST"
value SessionStatus.waiting_quota = "WAITING_QUOTA"
value SessionStatus.paused = "PAUSED"
value SessionStatus.cancelling = "CANCELLING"
value SessionStatus.idle = "IDLE"
value SessionStatus.failed = "FAILED"
value SessionStatus.cancelled = "CANCELLED"

unfoldable pub start_session :
    String → String → String → String → String → SessionStatus → Action SessionRecord
start_session new_id job_id project_id host_id external_session_id status = do
  t ← now
  stored ← Sessions.add (record {
    id = new_id;
    job_id = job_id;
    project_id = project_id;
    host_id = host_id;
    agent_type = "codex";
    external_session_id = external_session_id;
    status = status;
    last_active_at = t;
  })
  append "SESSION_STARTED" (some job_id) (some project_id) (some host_id) (
      object
        (("session_id", text stored.id) ∷ ("external_session_id", text external_session_id) ∷ []))
  pure stored

unfoldable pub rebind :
    String → String → String → String → SessionStatus → SessionRecord → Action SessionRecord
rebind job_id project_id host_id external_session_id status current = do
  t ← now
  updated ← Sessions.update current.id (λ r. record r {
    host_id = host_id;
    external_session_id = external_session_id;
    status = status;
    last_active_at = t;
  })
  when (not (current.external_session_id == external_session_id)) (
      append "SESSION_REBOUND" (some job_id) (some project_id) (some host_id) (
        object (
          ("session_id", text updated.id)
          ∷ ("previous_external_session_id", text current.external_session_id)
          ∷ ("external_session_id", text external_session_id)
          ∷ []))
      >> pure tt)
  pure updated

-- `record`; `new_id` is what `_session_id()` draws.
unfoldable pub record_session :
    String → String → String → String → String → SessionStatus → Action SessionRecord
unfolding start_session rebind
record_session new_id job_id project_id host_id external_session_id status = do
  current ← Sessions.get_for_job job_id
  elim current [
    | none ↦ start_session new_id job_id project_id host_id external_session_id status
    | some r ↦ rebind job_id project_id host_id external_session_id status r
  ]

unfoldable pub mark : String → SessionStatus → Action (Option SessionRecord)
unfolding value
mark job_id status = do
  found ← Sessions.get_for_job job_id
  elim found [
    | none ↦ pure none
    | some current ↦ do
      t ← now
      updated ← Sessions.update current.id (λ r. record r { status = status; last_active_at = t })
      append (concat "SESSION_" (value status)) (some current.job_id) (some current.project_id)
          (some current.host_id)
          (object (
            ("session_id", text current.id)
            ∷ ("external_session_id", text current.external_session_id)
            ∷ []))
      pure (some updated)
  ]

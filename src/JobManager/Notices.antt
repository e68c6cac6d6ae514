-- ===== src/JobManager/Notices.antt =====
-- Notifications: a notifier that fails is called again, and a notification that cannot be delivered
-- leaves an event. The texts are not kept.
use remote_control_pjt.Prelude.{
  ℕ, zero, suc, Option, none, Bool, true, false, not, String, some, List, [], ◌∷◌, contains,
  string_eq, if◌then◌else◌, pos,
}
use remote_control_pjt.Result.{Error}
use remote_control_pjt.EventPayloads.{first_chars}
use remote_control_pjt.Json.{Json, object, text, num}
use remote_control_pjt.Records.{JobRecord}
use remote_control_pjt.World.{Action, Delivery, raise, pure, gets, modify, catch, ◌>>=◌, ◌>>◌}
use remote_control_pjt.Repositories.Events.{append}
use remote_control_pjt.Repositories.ProjectWork
use remote_control_pjt.JobManager.Lifecycle.{require}

abbrev next_send : List Delivery → Delivery
next_send [] = Delivery.delivered
next_send (d ∷ ds) = d

abbrev later_sends : List Delivery → List Delivery
later_sends [] = []
later_sends (d ∷ ds) = ds

-- `await send()`
unfoldable pub send : Action Delivery
send = do
  sent ← gets (λ w. next_send w.sends)
  modify (λ w. record w { sends = later_sends w.sends })
  pure sent

-- `return True`, `except asyncio.CancelledError: raise`, or the next attempt.
abbrev pub after_send :
    Delivery
    → (String × String → Action (Option (String × String)))
    → Action (Option (String × String))
after_send Delivery.delivered again = pure none
after_send Delivery.cancelled again = raise Error.cancelled_error
after_send (Delivery.refused error_type error) again = again (error_type, error)

-- The attempts that are left, and `last_error`, the class and the text of the last exception; the
-- last one of all where no attempt has delivered. A task that is cancelled raises at once.
unfoldable pub deliver_rounds : ℕ → String × String → Action (Option (String × String))
unfolding send
deliver_rounds zero last_error = pure (some last_error)
deliver_rounds (suc rounds) last_error = do
  sent ← send
  after_send sent (λ refusal. deliver_rounds rounds refusal)

-- `str(last_error)[:1000]`
abbrev pub failure_payload : JobRecord → String → String × String → Json
failure_payload job notification_type last_error = object (
    ("channel", text job.requested_by_channel)
    ∷ ("notification_type", text notification_type)
    ∷ ("attempts", num (pos 3))
    ∷ ("error_type", text last_error.0)
    ∷ ("error", text (first_chars 1000 last_error.1))
    ∷ [])

-- `except Exception: logger.exception(…)` around the event, and `return False`.
unfoldable pub record_failure : JobRecord → String → String × String → Action Bool
record_failure job notification_type last_error =
    catch
      (append "NOTIFICATION_FAILED" (some job.id) (some job.project_id) job.assigned_host
          (failure_payload job notification_type last_error)
        >> pure false)
      (λ x. pure false)

-- `_deliver_notification`; before the first attempt there is no error.
unfoldable pub deliver_notification : JobRecord → String → Action Bool
unfolding deliver_rounds record_failure
deliver_notification job notification_type = do
  lost ← deliver_rounds 3 ("", "")
  elim lost [ none ↦ pure true | some last_error ↦ record_failure job notification_type last_error ]

-- `_notify`
unfoldable pub notify : String → Action (Unit {0})
unfolding deliver_notification
notify job_id = do
  job ← require job_id
  known ← gets (λ w. contains w.channels job.requested_by_channel)
  if not known
      then pure tt
      else do ProjectWork.get job_id; deliver_notification job "message"; pure tt

-- `_notify_approval`
unfoldable pub notify_approval : String → Action (Unit {0})
unfolding deliver_notification notify
notify_approval job_id = do
  job ← require job_id
  known ← gets (λ w. contains w.approval_channels job.requested_by_channel)
  if not known then notify job_id else do deliver_notification job "approval"; pure tt

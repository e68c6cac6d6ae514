-- ===== src/JobManager/Delivery.antt =====
-- The delivery of a notification.
use remote_control_pjt.Prelude.{
  ◌≤◌, ◌≡◌, refl, ◌∙◌, Bool, true, false, some, String, List, [], ◌∷◌, ◌++◌, map, length, arith,
}
use remote_control_pjt.Result.{Error, Result, ok, err}
use remote_control_pjt.Records.{JobRecord}
use remote_control_pjt.World.{World, Delivery, Action, pure, catch, ◌>>=◌, ◌>>◌}
use remote_control_pjt.Repositories.Events.{append}
use remote_control_pjt.JobManager.Notices.{
  failure_payload, send, deliver_rounds, deliver_notification, record_failure,
}

-- An attempt that raises, with the class and the text of its exception.
abbrev pub refuse : String × String → Delivery
refuse (error_type, error) = Delivery.refused error_type error

-- A state in which the coming attempts end in this way.
abbrev pub answering : List Delivery → World → World
answering ds w = record w { sends = ds }

delivered_after :
    (job : JobRecord) (notification_type : String) (refusals : List (String × String))
    (rest : List Delivery) (w : World)
    → length refusals ≤ 2
    → deliver_notification job notification_type
        (answering (map refuse refusals ++ Delivery.delivered ∷ rest) w)
      ≡ (ok true, answering rest w)
unfolding ◌>>=◌ deliver_rounds send deliver_notification
delivered_after job t [] rest w h = refl
delivered_after job t (a ∷ []) rest w h = refl
delivered_after job t (a ∷ b ∷ []) rest w h = refl
delivered_after job t (a ∷ b ∷ c ∷ ds) rest w h = absurd (omega arith)

cancelled_after :
    (job : JobRecord) (notification_type : String) (refusals : List (String × String))
    (rest : List Delivery) (w : World)
    → length refusals ≤ 2
    → deliver_notification job notification_type
        (answering (map refuse refusals ++ Delivery.cancelled ∷ rest) w)
      ≡ (err Error.cancelled_error, answering rest w)
unfolding ◌>>=◌ deliver_rounds send deliver_notification
cancelled_after job t [] rest w h = refl
cancelled_after job t (a ∷ []) rest w h = refl
cancelled_after job t (a ∷ b ∷ []) rest w h = refl
cancelled_after job t (a ∷ b ∷ c ∷ ds) rest w h = absurd (omega arith)

best_effort-run :
    {A : Type 0} (m : Action A) (b : Bool) (w : World) (p : Result A × World)
    → m w ≡ p
    → catch (m >> pure b) (λ x. pure b) w ≡ (ok b, p.1)
unfolding ◌>>=◌
best_effort-run m b w (ok a, v) e = rw e refl
best_effort-run m b w (err x, v) e = rw e refl

record_failure-run :
    (job : JobRecord) (notification_type : String) (last : String × String) (w : World)
    → record_failure job notification_type last w ≡ (
      ok false,
      (append "NOTIFICATION_FAILED"
          (some job.id)
          (some job.project_id)
          job.assigned_host
          (failure_payload job notification_type last)
          w).1,
    )
unfolding record_failure
record_failure-run job t last w =
    best_effort-run
      (append "NOTIFICATION_FAILED" (some job.id) (some job.project_id) job.assigned_host
        (failure_payload job t last))
      false w _ refl

lost_after :
    (job : JobRecord) (notification_type : String) (first second last : String × String)
    (rest : List Delivery) (w : World)
    → deliver_notification job notification_type
        (answering (refuse first ∷ refuse second ∷ refuse last ∷ rest) w)
      ≡ record_failure job notification_type last (answering rest w)
unfolding ◌>>=◌ deliver_rounds send deliver_notification
lost_after job t first second last rest w = refl

-- Where at most two attempts raise before an attempt delivers, `_deliver_notification` answers true;
-- before the task is cancelled, it raises `CancelledError`. Where three attempts raise, it answers
-- false, with one event of the third exception, as far as `append` can write it. In all three cases
-- no further attempt is made: those that were to come are still to come.
pub deliver_notification-answer :
    (job : JobRecord) (notification_type : String) (refusals : List (String × String))
    (first second last : String × String) (rest : List Delivery) (w : World)
    → length refusals ≤ 2
    → (deliver_notification job notification_type
          (answering (map refuse refusals ++ Delivery.delivered ∷ rest) w)
        ≡ (ok true, answering rest w))
      × (deliver_notification job notification_type
            (answering (map refuse refusals ++ Delivery.cancelled ∷ rest) w)
          ≡ (err Error.cancelled_error, answering rest w))
      × (deliver_notification job notification_type
            (answering (refuse first ∷ refuse second ∷ refuse last ∷ rest) w)
          ≡ (
            ok false,
            (append "NOTIFICATION_FAILED"
                (some job.id)
                (some job.project_id)
                job.assigned_host
                (failure_payload job notification_type last)
                (answering rest w)).1,
          ))
deliver_notification-answer job t refusals first second last rest w h = (
  delivered_after job t refusals rest w h,
  cancelled_after job t refusals rest w h,
  lost_after job t first second last rest w ∙ record_failure-run job t last (answering rest w),
)

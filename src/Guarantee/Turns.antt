-- ===== src/Guarantee/Turns.antt =====
-- The operations on a running turn, and what becomes of a job whose turn has failed.
use remote_control_pjt.Prelude.{ℕ, String, Option, none, some}
use remote_control_pjt.Result.{Error}
use remote_control_pjt.Records.{JobRecord}
use remote_control_pjt.Memory.{RunHandle}
use remote_control_pjt.World.{World}
use remote_control_pjt.Guarantee.{
  Guarantee, Obeys, obeys, bind-Obeys, gets-Obeys, option-Obeys, result-Obeys, pure-Obeys,
  updates-Obeys,
}
use remote_control_pjt.Guarantee.Tables.{tables}
use remote_control_pjt.Guarantee.Registries.{registries}
use remote_control_pjt.Guarantee.Steps.{
  steps, host_wait-Obeys, quota_wait-Obeys, host_is_there-Obeys, require-Obeys,
}
use remote_control_pjt.Projects.{non_empty}
use remote_control_pjt.JobManager.Config.{Config}
use remote_control_pjt.JobManager.Turns
use remote_control_pjt.Quota.{QuotaSignal}
use remote_control_pjt.JobManager.Failures
use remote_control_pjt.Repositories.Sessions as SessionTable

module _ {R : World → World → Type 0} (g : Guarantee R) where
  record_session_on-Obeys :
      (n m : String) (job : JobRecord) (e h : String)
      → Obeys g (Turns.record_session_on n m job e h)
  unfolding Turns.record_session_on
  record_session_on-Obeys n m job e h = search (obeys, registries, updates-Obeys) depth 12

  pub record_session-Obeys : (n m j e : String) → Obeys g (Turns.record_session n m j e)
  unfolding Turns.record_session
  record_session-Obeys n m j e = bind-Obeys g (require-Obeys g j) λ job.
      option-Obeys g job.assigned_host (pure-Obeys g tt) λ h. record_session_on-Obeys n m job e h

  external_session-Obeys : (job : JobRecord) → Obeys g (Failures.external_session_id_of job)
  unfolding Failures.external_session_id_of SessionTable.get_for_job
  external_session-Obeys job =
      bind-Obeys g (gets-Obeys g _) λ o. option-Obeys g o (pure-Obeys g _) λ s. pure-Obeys g _

  module _ (c : Config) where
    stop_turn-Obeys : (j : String) (h : Option RunHandle) → Obeys g (Turns.stop_turn c j h)
    unfolding Turns.stop_turn
    stop_turn-Obeys j none = search obeys
    stop_turn-Obeys j (some h) = search (obeys, updates-Obeys) depth 8

    pub pause-Obeys : (j : String) → Obeys g (Turns.pause c j)
    unfolding Turns.pause
    pause-Obeys j = search (obeys, registries, steps, stop_turn-Obeys) depth 20

    pub resume-Obeys : (j i : String) → Obeys g (Turns.resume c j i)
    unfolding Turns.resume
    resume-Obeys j i =
        search (obeys, registries, steps, host_wait-Obeys, host_is_there-Obeys) depth 20

    pub steer-Obeys : (j i : String) → Obeys g (Turns.steer c j i)
    unfolding Turns.steer
    steer-Obeys j i = search (obeys, tables, steps) depth 20

    pub redirect-Obeys : (j i : String) → Obeys g (Turns.redirect c j i)
    unfolding Turns.redirect
    redirect-Obeys j i = search (obeys, tables, steps, pause-Obeys, resume-Obeys) depth 20

    pub cancelled_task-Obeys : (j : String) → Obeys g (Failures.handle_cancelled_task c j)
    unfolding Failures.handle_cancelled_task
    cancelled_task-Obeys j = search (obeys, steps, host_wait-Obeys, external_session-Obeys) depth 20

    ack_handle-Obeys : (j : String) (h : RunHandle) → Obeys g (Failures.ack_handle c j h)
    unfolding Failures.ack_handle
    ack_handle-Obeys j h =
        result-Obeys g (c.acknowledge h)
          (λ u.
            option-Obeys g (non_empty h.execution_id) (pure-Obeys g tt)
              λ e. search (obeys, tables) depth 8)
          (λ x. search (obeys, tables, steps) depth 12)

    pub ack_result-Obeys :
        (j : String) (h : Option RunHandle) → Obeys g (Failures.ack_result_handle c j h)
    unfolding Failures.ack_result_handle
    ack_result-Obeys j none = search obeys
    ack_result-Obeys j (some h) = ack_handle-Obeys j h

    fail_job-Obeys : (j : String) (x : Error) → Obeys g (Failures.fail_job c j x)
    unfolding Failures.fail_job
    fail_job-Obeys j x =
        search (obeys, tables, registries, steps, updates-Obeys, ack_result-Obeys) depth 20

    fail_or_wait-Obeys :
        (j : String) (x : Error) (s : Option QuotaSignal) → Obeys g (Failures.fail_or_wait c j x s)
    unfolding Failures.fail_or_wait
    fail_or_wait-Obeys j x none = fail_job-Obeys j x
    fail_or_wait-Obeys j x (some s) = search (obeys, quota_wait-Obeys)

    pub fail-Obeys : (j : String) (x : Error) → Obeys g (Failures.fail c j x)
    unfolding Failures.fail
    fail-Obeys j x = search (obeys, steps, host_wait-Obeys, fail_or_wait-Obeys) depth 12

    pub hold-Obeys :
        (j : String) (p : Option ℕ) (e t : Option String) (m : String)
        → Obeys g (Failures.hold_process_safety c j p e t m)
    unfolding Failures.hold_process_safety
    hold-Obeys j p e t m = search (obeys, tables, registries, steps, updates-Obeys) depth 20

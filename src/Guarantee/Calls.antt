-- ===== src/Guarantee/Calls.antt =====
-- Operations of the job manager, called one after the other in any order. Not among them are the move in the
-- queue, the choice of a question by its answer's text, the turns of agents, and what is not modelled.
use remote_control_pjt.Prelude.{ℕ, ◌+◌, refl, Bool, String, Option, List, [], ◌∷◌}
use remote_control_pjt.Result.{Error}
use remote_control_pjt.States.{JobState}
use remote_control_pjt.Statuses.{RecoveryMode}
use remote_control_pjt.Memory.{AgentRunResult, RunHandle}
use remote_control_pjt.Quota.{QuotaSignal}
use remote_control_pjt.Approvals.{HumanGateRequest, ApprovalPrompt}
use remote_control_pjt.World.{World}
use remote_control_pjt.JobManager.Config.{Config}
use remote_control_pjt.JobManager.Lifecycle.{transition}
use remote_control_pjt.JobManager.Creation.{create, retry_failed}
use remote_control_pjt.JobManager.Recover.{recover_due}
use remote_control_pjt.JobManager.Turns.{pause, resume, steer, redirect, record_session}
use remote_control_pjt.JobManager.Failures.{fail, handle_cancelled_task, hold_process_safety}
use remote_control_pjt.JobManager.Waits.{enter_host_wait, enter_lease_wait, enter_quota_wait}
use remote_control_pjt.JobManager.Cancellation.{begin_cancel, confirm_cancel, finalize_cancellation}
use remote_control_pjt.JobManager.Gates.{enter_human_gate, respond_approval, expire_approvals}
use remote_control_pjt.Scheduler.{tick, tick_logged}
use remote_control_pjt.JobManager.Executions.{set_handle}
use remote_control_pjt.JobManager.Startup.{retry_waiting, reconcile_execution_leases}
use remote_control_pjt.Guarantee.Startup.{
  set_handle-Obeys, retry_waiting-Obeys, reconcile_startup_leases-Obeys,
}
use remote_control_pjt.Guarantee.{Guarantee, Obeys, obeys, same}
use remote_control_pjt.Guarantee.Registries.{registries}
use remote_control_pjt.Guarantee.Steps.{
  transition-Obeys, host_wait-Obeys, lease_wait-Obeys, quota_wait-Obeys,
}
use remote_control_pjt.Guarantee.Creation.{create-Obeys, retry_failed-Obeys}
use remote_control_pjt.Guarantee.Retries.{recover_due-Obeys}
use remote_control_pjt.Guarantee.Turns.{
  pause-Obeys, resume-Obeys, steer-Obeys, redirect-Obeys, record_session-Obeys, fail-Obeys,
  cancelled_task-Obeys, hold-Obeys,
}
use remote_control_pjt.Guarantee.Ends.{
  begin_cancel-Obeys, confirm_cancel-Obeys, finalize-Obeys, gate-Obeys, respond-Obeys,
  expire_approvals-Obeys,
}

-- A call with its arguments: what a user asks for, what an agent's turn reports, and what the
-- controller's loops do. Between two calls time may pass. A call runs to its end before the next one:
-- tasks that interleave inside a call are not described.
pub data ManagerCall : Type 0 where
  creates : String → String → String → String → String → String → String → ManagerCall
  retries_failed : String → String → String → ManagerCall
  recovers_due ticks : ℕ → (String → String) → ManagerCall
  pauses : String → ManagerCall
  resumes steers redirects : String → String → ManagerCall
  begins_cancel confirms_cancel : String → ManagerCall
  finalizes_cancellation : String → Option AgentRunResult → ManagerCall
  enters_human_gate : String → String → HumanGateRequest → ManagerCall
  responds_approval :
      (ApprovalPrompt → Option String → String)
      → String
      → String
      → Option String
      → Bool
      → Option String
      → ManagerCall
  expires_approvals : ℕ → ManagerCall
  fails : String → Error → ManagerCall
  handles_cancelled_task : String → ManagerCall
  holds_process_safety : String → Option ℕ → Option String → Option String → String → ManagerCall
  enters_host_wait : String → RecoveryMode → String → Option String → Option String → ManagerCall
  enters_lease_wait : String → RecoveryMode → String → String → Option String → ManagerCall
  enters_quota_wait : String → QuotaSignal → Option String → ManagerCall
  records_session : String → String → String → String → ManagerCall
  transitions : String → JobState → ManagerCall
  sets_handle : String → RunHandle → ManagerCall
  retries_waiting : String → String → ManagerCall
  reconciles_execution_leases : ManagerCall
  elapses : ℕ → ManagerCall

module _ (c : Config) where
  unfoldable pub run_call : ManagerCall → World → World
  run_call (creates n s p ch u i h) w = (create c n s p ch u i h w).1
  run_call (retries_failed n s j) w = (retry_failed c n s j w).1
  run_call (recovers_due t n) w = (recover_due c t n w).1
  run_call (ticks t n) w = (tick_logged c t n w).1
  run_call (pauses j) w = (pause c j w).1
  run_call (resumes j i) w = (resume c j i w).1
  run_call (steers j i) w = (steer c j i w).1
  run_call (redirects j i) w = (redirect c j i w).1
  run_call (begins_cancel j) w = (begin_cancel c j w).1
  run_call (confirms_cancel j) w = (confirm_cancel c j w).1
  run_call (finalizes_cancellation j r) w = (finalize_cancellation j r w).1
  run_call (enters_human_gate n j q) w = (enter_human_gate n j q w).1
  run_call (responds_approval f a u k b t) w = (respond_approval c f a u k b t w).1
  run_call (expires_approvals t) w = (expire_approvals t w).1
  run_call (fails j x) w = (fail c j x w).1
  run_call (handles_cancelled_task j) w = (handle_cancelled_task c j w).1
  run_call (holds_process_safety j p e t m) w = (hold_process_safety c j p e t m w).1
  run_call (enters_host_wait j m e h i) w = (enter_host_wait j m e h i w).1
  run_call (enters_lease_wait j m e h i) w = (enter_lease_wait j m e h i w).1
  run_call (enters_quota_wait j s i) w = (enter_quota_wait c j s i w).1
  run_call (records_session n m j e) w = (record_session n m j e w).1
  run_call (transitions j target) w = (transition j target (λ r. r) w).1
  run_call (sets_handle j h) w = (set_handle c j h w).1
  run_call (retries_waiting n j) w = (retry_waiting c n j w).1
  run_call reconciles_execution_leases w = (reconcile_execution_leases c w).1
  run_call (elapses t) w = record w { clock = w.clock + t }

  unfoldable pub run_calls : List ManagerCall → World → World
  unfolding run_call
  run_calls [] w = w
  run_calls (k ∷ ks) w = run_calls ks (run_call k w)

  module _ {R : World → World → Type 0} (g : Guarantee R) where
    tick-Obeys : (t : ℕ) (n : String → String) → Obeys g (tick_logged c t n)
    unfolding tick_logged tick
    tick-Obeys t n = search (obeys, registries, expire_approvals-Obeys, recover_due-Obeys) depth 12

    run_call-Obeys : (k : ManagerCall) (w : World) → R w (run_call k w)
    unfolding run_call
    run_call-Obeys (creates n s p ch u i h) w = (create-Obeys g c n s p ch u i h).at w
    run_call-Obeys (retries_failed n s j) w = (retry_failed-Obeys g c n s j).at w
    run_call-Obeys (recovers_due t n) w = (recover_due-Obeys g c t n).at w
    run_call-Obeys (ticks t n) w = (tick-Obeys t n).at w
    run_call-Obeys (pauses j) w = (pause-Obeys g c j).at w
    run_call-Obeys (resumes j i) w = (resume-Obeys g c j i).at w
    run_call-Obeys (steers j i) w = (steer-Obeys g c j i).at w
    run_call-Obeys (redirects j i) w = (redirect-Obeys g c j i).at w
    run_call-Obeys (begins_cancel j) w = (begin_cancel-Obeys g c j).at w
    run_call-Obeys (confirms_cancel j) w = (confirm_cancel-Obeys g c j).at w
    run_call-Obeys (finalizes_cancellation j r) w = (finalize-Obeys g j r).at w
    run_call-Obeys (enters_human_gate n j q) w = (gate-Obeys g n j q).at w
    run_call-Obeys (responds_approval f a u k b t) w = (respond-Obeys g c f a u k b t).at w
    run_call-Obeys (expires_approvals t) w = (expire_approvals-Obeys g t).at w
    run_call-Obeys (fails j x) w = (fail-Obeys g c j x).at w
    run_call-Obeys (handles_cancelled_task j) w = (cancelled_task-Obeys g c j).at w
    run_call-Obeys (holds_process_safety j p e t m) w = (hold-Obeys g c j p e t m).at w
    run_call-Obeys (enters_host_wait j m e h i) w = (host_wait-Obeys g j m e h i).at w
    run_call-Obeys (enters_lease_wait j m e h i) w = (lease_wait-Obeys g j m e h i).at w
    run_call-Obeys (enters_quota_wait j s i) w = (quota_wait-Obeys g c j s i).at w
    run_call-Obeys (records_session n m j e) w = (record_session-Obeys g n m j e).at w
    run_call-Obeys (transitions j target) w =
        (transition-Obeys g j target (λ r. r) (λ r. refl)).at w
    run_call-Obeys (sets_handle j h) w = (set_handle-Obeys g c j h).at w
    run_call-Obeys (retries_waiting n j) w = (retry_waiting-Obeys g c n j).at w
    run_call-Obeys reconciles_execution_leases w = (reconcile_startup_leases-Obeys g c).at w
    run_call-Obeys (elapses t) w = g.elsewhere w (record w { clock = w.clock + t }) refl refl

    -- What every transaction on the jobs and the leases obeys, any sequence of calls obeys.
    pub run_calls-Obeys : (ks : List ManagerCall) (w : World) → R w (run_calls ks w)
    unfolding run_calls
    run_calls-Obeys [] w = same g w
    run_calls-Obeys (k ∷ ks) w =
        g.transitive w (run_call k w) (run_calls ks (run_call k w)) (run_call-Obeys k w)
          (run_calls-Obeys ks (run_call k w))

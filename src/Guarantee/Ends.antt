-- ===== src/Guarantee/Ends.antt =====
-- The ends of a job: cancellation, and the questions to its user.
use remote_control_pjt.Prelude.{ℕ, Bool, String, Option, none, some, List, [], ◌∷◌}
use remote_control_pjt.Records.{JobRecord, RecoveryRecord, ApprovalRecord, QaRunRecord}
use remote_control_pjt.Memory.{RunHandle, AgentRunResult}
use remote_control_pjt.World.{World}
use remote_control_pjt.Guarantee.{
  Guarantee, Obeys, obeys, bind-Obeys, result-Obeys, outcome-Obeys, updates-Obeys, lift-Obeys,
}
use remote_control_pjt.Guarantee.Tables.{tables}
use remote_control_pjt.Guarantee.Registries.{registries}
use remote_control_pjt.Guarantee.Steps.{steps, host_wait-Obeys, host_is_there-Obeys}
use remote_control_pjt.JobManager.Config.{Config}
use remote_control_pjt.Guarantee.Turns.{ack_result-Obeys}
use remote_control_pjt.JobManager.Cancellation
use remote_control_pjt.JobManager.Gates
use remote_control_pjt.Approvals.{HumanGateRequest, ApprovalPrompt}
use remote_control_pjt.Repositories.Approvals as ApprovalTable

module _ {R : World → World → Type 0} (g : Guarantee R) where
  intent-Obeys : (j : String) (h : RunHandle) → Obeys g (Cancellation.persist_cancel_intent j h)
  unfolding Cancellation.persist_cancel_intent
  intent-Obeys j h = search (obeys, tables, steps) depth 12

  pending_cancel-Obeys :
      (j : String) (h : RunHandle) (e : String) → Obeys g (Cancellation.record_cancel_pending j h e)
  unfolding Cancellation.record_cancel_pending
  pending_cancel-Obeys j h e = search (obeys, tables, steps) depth 20

  store_result-Obeys :
      (j : String) (job : JobRecord) (r : Option AgentRunResult)
      → Obeys g (Cancellation.store_result j job r)
  unfolding Cancellation.store_result
  store_result-Obeys j job none = search obeys
  store_result-Obeys j job (some r) = search (obeys, updates-Obeys) depth 8

  pub finalize-Obeys :
      (j : String) (r : Option AgentRunResult) → Obeys g (Cancellation.finalize_cancellation j r)
  unfolding Cancellation.finalize_cancellation
  finalize-Obeys j r = search (obeys, tables, registries, steps, store_result-Obeys) depth 20

  request-Obeys : (j : String) (job : JobRecord) → Obeys g (Cancellation.request_cancel j job)
  unfolding Cancellation.request_cancel
  request-Obeys j job = search (obeys, registries, steps) depth 12

  module _ (c : Config) where
    stop_cancelled-Obeys :
        (j : String) (h : RunHandle) → Obeys g (Cancellation.stop_cancelled c j h)
    unfolding Cancellation.stop_cancelled
    stop_cancelled-Obeys j h = bind-Obeys g (intent-Obeys j h) λ u.
        bind-Obeys g (outcome-Obeys g (lift-Obeys g (c.stop h))) λ stopped.
          result-Obeys g stopped (λ v. search (obeys, finalize-Obeys, ack_result-Obeys))
            (λ x. search (obeys, pending_cancel-Obeys))

    stop_if_running-Obeys :
        (j : String) (h : Option RunHandle) → Obeys g (Cancellation.stop_if_running c j h)
    unfolding Cancellation.stop_if_running
    stop_if_running-Obeys j none = search obeys
    stop_if_running-Obeys j (some h) = stop_cancelled-Obeys j h

    settle-Obeys : (j : String) (job : JobRecord) → Obeys g (Cancellation.settle_hold c j job)
    unfolding Cancellation.settle_hold
    settle-Obeys j job = search (obeys, steps, updates-Obeys) depth 20

    pub begin_cancel-Obeys : (j : String) → Obeys g (Cancellation.begin_cancel c j)
    unfolding Cancellation.begin_cancel
    begin_cancel-Obeys j =
        search (obeys, steps, settle-Obeys, request-Obeys, stop_if_running-Obeys) depth 20

    confirm_or_wait-Obeys :
        (j : String) (job : JobRecord) (r : Option RecoveryRecord)
        → Obeys g (Cancellation.confirm_or_wait c j job r)
    unfolding Cancellation.confirm_or_wait
    confirm_or_wait-Obeys j job r = search (obeys, tables, steps, finalize-Obeys) depth 12

    pub confirm_cancel-Obeys : (j : String) → Obeys g (Cancellation.confirm_cancel c j)
    unfolding Cancellation.confirm_cancel
    confirm_cancel-Obeys j = search (obeys, tables, steps, confirm_or_wait-Obeys) depth 20

  open_gate-Obeys :
      (n : String) (job : JobRecord) (q : HumanGateRequest) → Obeys g (Gates.open_gate n job q)
  unfolding Gates.open_gate
  open_gate-Obeys n job q = search (obeys, registries, steps) depth 20

  pub gate-Obeys : (n j : String) (q : HumanGateRequest) → Obeys g (Gates.enter_human_gate n j q)
  unfolding Gates.enter_human_gate
  gate-Obeys n j q = search (obeys, registries, steps, open_gate-Obeys) depth 12

  expire_approval-Obeys : (r : ApprovalRecord) → Obeys g (Gates.expire_approval r)
  unfolding Gates.expire_approval
  expire_approval-Obeys r = search (obeys, tables, registries, steps, updates-Obeys) depth 20

  expire_each-Obeys : (rs : List ApprovalRecord) → Obeys g (Gates.expire_each rs)
  unfolding Gates.expire_each
  expire_each-Obeys [] = search obeys
  expire_each-Obeys (r ∷ rs) =
      let rest = expire_each-Obeys rs in search (obeys, expire_approval-Obeys) depth 8

  pub expire_approvals-Obeys : (t : ℕ) → Obeys g (Gates.expire_approvals t)
  unfolding Gates.expire_approvals ApprovalTable.expired_pending
  expire_approvals-Obeys t = search (obeys, expire_each-Obeys)

  review-Obeys : (b : Bool) (o : Option QaRunRecord) → Obeys g (Gates.review b o)
  unfolding Gates.review
  review-Obeys b none = search obeys
  review-Obeys b (some r) = search (obeys, tables)

  finish_review-Obeys : (job : JobRecord) (b : Bool) → Obeys g (Gates.finish_review job b)
  unfolding Gates.finish_review
  finish_review-Obeys job b =
      search (obeys, tables, registries, steps, updates-Obeys, review-Obeys) depth 20

  module _ (c : Config) where
    answer-Obeys : (job : JobRecord) (i : String) → Obeys g (Gates.answer_agent c job i)
    unfolding Gates.answer_agent
    answer-Obeys job i =
        search (obeys, registries, steps, host_wait-Obeys, host_is_there-Obeys) depth 12

    pub respond-Obeys :
        (f : ApprovalPrompt → Option String → String) (a u : String) (k : Option String) (b : Bool)
        (t : Option String)
        → Obeys g (Gates.respond_approval c f a u k b t)
    unfolding Gates.respond_approval
    respond-Obeys f a u k b t =
        search (obeys, tables, registries, steps, finish_review-Obeys, answer-Obeys) depth 20

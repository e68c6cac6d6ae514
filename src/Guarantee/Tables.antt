-- ===== src/Guarantee/Tables.antt =====
-- The repositories of the other tables touch neither the jobs nor the leases.
use remote_control_pjt.Prelude.{false, ℕ, zero, suc, ◌+◌, refl, String, Option, none, some}
use remote_control_pjt.Json.{Json}
use remote_control_pjt.Records.{
  EventRecord, ProjectSessionRecord, SessionRecord, ApprovalRecord, RecoveryRecord,
  RemoteExecutionRecord, QaRunRecord,
}
use remote_control_pjt.World.{World}
use remote_control_pjt.Guarantee.{
  Guarantee, Obeys, obeys, bind-Obeys, gets-Obeys, option-Obeys, pure-Obeys, commit-Obeys,
}
use remote_control_pjt.Repositories.Events
use remote_control_pjt.Repositories.ProjectSessions
use remote_control_pjt.Repositories.Sessions
use remote_control_pjt.Repositories.Approvals
use remote_control_pjt.Repositories.Recovery
use remote_control_pjt.Repositories.Executions
use remote_control_pjt.Repositories.QaRuns

module _ {R : World → World → Type 0} (g : Guarantee R) where
  insert-Obeys : (e : EventRecord) → Obeys g (Events.insert e)
  unfolding Events.insert
  insert-Obeys e = search obeys

  rounds-Obeys : (n a : ℕ) (e : EventRecord) → Obeys g (Events.append_rounds n a e)
  unfolding Events.append_rounds
  rounds-Obeys zero a e = search obeys
  rounds-Obeys (suc n) a e = let rest = rounds-Obeys n (a + 1) e in search (obeys, insert-Obeys)

  pub append-Obeys :
      (t : String) (j p h : Option String) (payload : Json)
      → Obeys g (Events.append t j p h payload)
  unfolding Events.append
  append-Obeys t j p h payload = search (obeys, rounds-Obeys)

  pub update_project_session-Obeys :
      (id : String) (f : ProjectSessionRecord → ProjectSessionRecord)
      → Obeys g (ProjectSessions.update id f)
  unfolding ProjectSessions.update
  update_project_session-Obeys id f = search obeys

  pub add_project_session-Obeys : (r : ProjectSessionRecord) → Obeys g (ProjectSessions.add r)
  unfolding ProjectSessions.add
  add_project_session-Obeys r = search obeys

  pub active_for-Obeys : (p u : String) → Obeys g (ProjectSessions.active_for p u)
  unfolding ProjectSessions.active_for
  active_for-Obeys p u = search obeys

  pub add_session-Obeys : (r : SessionRecord) → Obeys g (Sessions.add r)
  unfolding Sessions.add
  add_session-Obeys r = search obeys

  pub update_session-Obeys :
      (id : String) (f : SessionRecord → SessionRecord) → Obeys g (Sessions.update id f)
  unfolding Sessions.update
  update_session-Obeys id f = search obeys

  pub session_for_job-Obeys : (j : String) → Obeys g (Sessions.get_for_job j)
  unfolding Sessions.get_for_job
  session_for_job-Obeys j = search obeys

  pub add_approval-Obeys : (r : ApprovalRecord) → Obeys g (Approvals.add r)
  unfolding Approvals.add
  add_approval-Obeys r = search obeys

  pub update_approval-Obeys :
      (id : String) (f : ApprovalRecord → ApprovalRecord) → Obeys g (Approvals.update id f)
  unfolding Approvals.update
  update_approval-Obeys id f = search obeys

  pub recovery_of-Obeys : (j : String) → Obeys g (Recovery.get j)
  unfolding Recovery.get
  recovery_of-Obeys j = search obeys

  write_recovery-Obeys :
      (fresh : RecoveryRecord) (f : RecoveryRecord → RecoveryRecord) (o : Option RecoveryRecord)
      → Obeys g (Recovery.write fresh f o)
  unfolding Recovery.write
  write_recovery-Obeys fresh f none = search obeys
  write_recovery-Obeys fresh f (some r) = search obeys

  pub upsert-Obeys :
      (fresh : RecoveryRecord) (f : RecoveryRecord → RecoveryRecord)
      → Obeys g (Recovery.upsert fresh f)
  unfolding Recovery.upsert
  upsert-Obeys fresh f = search (obeys, write_recovery-Obeys)

  pub delete_recovery-Obeys : (j : String) → Obeys g (Recovery.delete j)
  unfolding Recovery.delete
  delete_recovery-Obeys j =
      bind-Obeys g (gets-Obeys g _)
        λ o. option-Obeys g o (pure-Obeys g tt) λ r. commit-Obeys g false _ (λ w. refl) (λ w. refl)

  pub list_recovery-Obeys : Obeys g Recovery.list
  unfolding Recovery.list
  list_recovery-Obeys = search obeys

  pub next_position-Obeys : Obeys g Recovery.next_queue_position
  unfolding Recovery.next_queue_position
  next_position-Obeys = search obeys

  update_known-Obeys :
      (id : String) (f : RemoteExecutionRecord → RemoteExecutionRecord)
      (o : Option RemoteExecutionRecord)
      → Obeys g (Executions.update_known id f o)
  unfolding Executions.update_known
  update_known-Obeys id f none = search obeys
  update_known-Obeys id f (some r) = search obeys

  pub acknowledged-Obeys : (id : String) → Obeys g (Executions.mark_acknowledged id)
  unfolding Executions.mark_acknowledged
  acknowledged-Obeys id = search (obeys, update_known-Obeys)

  pub result_received-Obeys :
      (id : String) (s : Option String) → Obeys g (Executions.mark_result_received id s)
  unfolding Executions.mark_result_received
  result_received-Obeys id s = search (obeys, update_known-Obeys)

  pub update_qa_run-Obeys :
      (id : String) (f : QaRunRecord → QaRunRecord) → Obeys g (QaRuns.update id f)
  unfolding QaRuns.update
  update_qa_run-Obeys id f = search obeys

  pub latest_run-Obeys : (j : String) → Obeys g (QaRuns.latest_for_job j)
  unfolding QaRuns.latest_for_job
  latest_run-Obeys j = search obeys

  pub ruleset tables = (
    append-Obeys, update_project_session-Obeys, add_project_session-Obeys, active_for-Obeys,
    add_session-Obeys, update_session-Obeys, session_for_job-Obeys, add_approval-Obeys,
    update_approval-Obeys, recovery_of-Obeys, upsert-Obeys, delete_recovery-Obeys,
    list_recovery-Obeys, next_position-Obeys, acknowledged-Obeys, result_received-Obeys,
    update_qa_run-Obeys, latest_run-Obeys,
  )

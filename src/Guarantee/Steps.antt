-- ===== src/Guarantee/Steps.antt =====
-- The steps that all operations of the job manager share: `_transition`, the assignment of a host,
-- the notifications and the waits.
use remote_control_pjt.Prelude.{ℕ, zero, suc, ◌≡◌, true, String, Option, none, some}
use remote_control_pjt.Result.{Error}
use remote_control_pjt.States.{JobState, validate_transition}
use remote_control_pjt.Statuses.{RecoveryMode}
use remote_control_pjt.Records.{JobRecord, RecoveryRecord}
use remote_control_pjt.Memory.{Task}
use remote_control_pjt.World.{World, Delivery, Action}
use remote_control_pjt.Guarantee.{
  Guarantee, Obeys, obeys, bind-Obeys, option-Obeys, pure-Obeys, check-Obeys, moves-Obeys,
}
use remote_control_pjt.Guarantee.Tables.{tables}
use remote_control_pjt.Guarantee.Registries.{registries, assign_job-Obeys}
use remote_control_pjt.Quota.{QuotaSignal}
use remote_control_pjt.Projects.{non_empty}
use remote_control_pjt.Repositories.Jobs
use remote_control_pjt.Repositories.ProjectWork
use remote_control_pjt.JobManager.Config.{Config}
use remote_control_pjt.JobManager.Lifecycle
use remote_control_pjt.JobManager.Lifecycle.{re_raise}
use remote_control_pjt.JobManager.Notices
use remote_control_pjt.JobManager.Waits
use remote_control_pjt.JobManager.Creation
use remote_control_pjt.JobManager.Retries

module _ {R : World → World → Type 0} (g : Guarantee R) where
  pub job-Obeys : (j : String) → Obeys g (Jobs.get j)
  unfolding Jobs.get
  job-Obeys j = search obeys

  pub require-Obeys : (j : String) → Obeys g (Lifecycle.require j)
  unfolding Lifecycle.require
  require-Obeys j = search (obeys, job-Obeys)

  re_raise-Obeys : (o : Option Error) → Obeys g (re_raise o)
  re_raise-Obeys none = search obeys
  re_raise-Obeys (some x) = search obeys

  release_all-Obeys : (job : JobRecord) → Obeys g (Lifecycle.release_all job)
  unfolding Lifecycle.release_all
  release_all-Obeys job = search (obeys, registries, re_raise-Obeys) depth 12

  -- The move is one of the table, since it has been checked.
  pub transition-Obeys :
      (j : String) (target : JobState) (changes : JobRecord → JobRecord)
      → ((r : JobRecord) → (changes r).id ≡ r.id)
      → Obeys g (Lifecycle.transition j target changes)
  unfolding Lifecycle.transition
  transition-Obeys j target changes same_id = bind-Obeys g (require-Obeys j) λ job.
      check-Obeys g (validate_transition job.state target) λ u valid.
        bind-Obeys g (moves-Obeys g j job.state target changes _ _ valid same_id)
          λ updated. search (obeys, release_all-Obeys) depth 8

  pub work_of-Obeys : (j : String) → Obeys g (ProjectWork.get j)
  unfolding ProjectWork.get
  work_of-Obeys j = search obeys

  send-Obeys : Obeys g Notices.send
  unfolding Notices.send
  send-Obeys = search obeys

  after_send-Obeys :
      (d : Delivery) (again : String × String → Action (Option (String × String)))
      → ((l : String × String) → Obeys g (again l))
      → Obeys g (Notices.after_send d again)
  after_send-Obeys Delivery.delivered again h = search obeys
  after_send-Obeys Delivery.cancelled again h = search obeys
  after_send-Obeys (Delivery.refused t e) again h = h (t, e)

  deliver_rounds-Obeys : (n : ℕ) (l : String × String) → Obeys g (Notices.deliver_rounds n l)
  unfolding Notices.deliver_rounds
  deliver_rounds-Obeys zero l = search obeys
  deliver_rounds-Obeys (suc n) l =
      bind-Obeys g send-Obeys
        λ d. after_send-Obeys d (Notices.deliver_rounds n) (deliver_rounds-Obeys n)

  record_failure-Obeys :
      (job : JobRecord) (t : String) (l : String × String)
      → Obeys g (Notices.record_failure job t l)
  unfolding Notices.record_failure
  record_failure-Obeys job t l = search (obeys, tables) depth 12

  deliver-Obeys : (job : JobRecord) (t : String) → Obeys g (Notices.deliver_notification job t)
  unfolding Notices.deliver_notification
  deliver-Obeys job t =
      bind-Obeys g (deliver_rounds-Obeys 3 ("", ""))
        λ lost. option-Obeys g lost (pure-Obeys g true) λ l. record_failure-Obeys job t l

  pub notify-Obeys : (j : String) → Obeys g (Notices.notify j)
  unfolding Notices.notify
  notify-Obeys j = search (obeys, require-Obeys, work_of-Obeys, deliver-Obeys) depth 12

  pub notify_approval-Obeys : (j : String) → Obeys g (Notices.notify_approval j)
  unfolding Notices.notify_approval
  notify_approval-Obeys j = search (obeys, require-Obeys, notify-Obeys, deliver-Obeys) depth 12

  pub upsert_recovery-Obeys :
      (j : String) (f : RecoveryRecord → RecoveryRecord) → Obeys g (Waits.upsert_recovery j f)
  unfolding Waits.upsert_recovery
  upsert_recovery-Obeys j f = search (obeys, tables) depth 8

  queue_place-Obeys : (o : Option RecoveryRecord) → Obeys g (Waits.queue_place o)
  unfolding Waits.queue_place
  queue_place-Obeys none = search (obeys, tables)
  queue_place-Obeys (some r) =
      option-Obeys g r.queue_position (search (obeys, tables)) λ p. pure-Obeys g p

  pub start_task-Obeys : (j : String) (t : Task) → Obeys g (Creation.start_task j t)
  unfolding Creation.start_task
  start_task-Obeys j t = search obeys

  pub ruleset steps = (
    job-Obeys, require-Obeys, transition-Obeys, work_of-Obeys, notify-Obeys, notify_approval-Obeys,
    upsert_recovery-Obeys, start_task-Obeys,
  )

  pub host_wait-Obeys :
      (j : String) (m : RecoveryMode) (e : String) (h i : Option String)
      → Obeys g (Waits.enter_host_wait j m e h i)
  unfolding Waits.enter_host_wait
  host_wait-Obeys j m e h i = search (obeys, tables, registries, steps) depth 20

  pub lease_wait-Obeys :
      (j : String) (m : RecoveryMode) (e h : String) (i : Option String)
      → Obeys g (Waits.enter_lease_wait j m e h i)
  unfolding Waits.enter_lease_wait
  lease_wait-Obeys j m e h i = search (obeys, tables, registries, steps, queue_place-Obeys) depth 20

  module _ (c : Config) where
    begin_quota_wait-Obeys :
        (job : JobRecord) (s : QuotaSignal) (i : Option String)
        → Obeys g (Waits.begin_quota_wait c job s i)
    unfolding Waits.begin_quota_wait
    begin_quota_wait-Obeys job s i = search (obeys, tables, registries, steps) depth 20

    pub quota_wait-Obeys :
        (j : String) (s : QuotaSignal) (i : Option String)
        → Obeys g (Waits.enter_quota_wait c j s i)
    unfolding Waits.enter_quota_wait
    quota_wait-Obeys j s i = search (obeys, tables, steps, begin_quota_wait-Obeys) depth 12

    pub assign-Obeys : (j h : String) → Obeys g (Creation.assign c j h)
    unfolding Lifecycle.assign_execution_lease Lifecycle.working_directory
    assign-Obeys j h = bind-Obeys g (require-Obeys j) λ job.
        check-Obeys g (validate_transition job.state JobState.assigned) λ u valid.
          bind-Obeys g (search obeys depth 12) λ path.
            bind-Obeys g
              (assign_job-Obeys g c.canonical c.lease_key job.id job.project_id h path job.state
                valid)
              λ lease. require-Obeys j

    pub resolve_host-Obeys : (p h : String) → Obeys g (Creation.resolve_host c p h)
    unfolding Creation.resolve_host
    resolve_host-Obeys p h = search (obeys, registries)

    pub host_is_there-Obeys : (h : Option String) → Obeys g (Retries.host_is_there c h)
    unfolding Retries.host_is_there
    host_is_there-Obeys h =
        option-Obeys g (non_empty h) (pure-Obeys g true) λ x. search (obeys, registries)

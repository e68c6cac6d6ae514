-- ===== src/Guarantee/Retries.antt =====
-- The recovery loop: each waiting job whose time has come is tried again.
use remote_control_pjt.Prelude.{ℕ, ◌≡◌, false, String, none, List, [], ◌∷◌, arith}
use remote_control_pjt.Records.{JobRecord, RecoveryRecord, ProjectSessionRecord}
use remote_control_pjt.World.{World}
use remote_control_pjt.Guarantee.{
  Guarantee, Obeys, obeys, bind-Obeys, option-Obeys, result-Obeys, pure-Obeys, outcome-Obeys,
  if-Obeys, updates-Obeys,
}
use remote_control_pjt.Guarantee.Tables.{tables}
use remote_control_pjt.Guarantee.Registries.{registries, acquire-Obeys}
use remote_control_pjt.Guarantee.Steps.{
  steps, lease_wait-Obeys, assign-Obeys, resolve_host-Obeys, host_is_there-Obeys, job-Obeys,
  work_of-Obeys,
}
use remote_control_pjt.Repositories.Jobs
use remote_control_pjt.JobManager.Config.{Config}
use remote_control_pjt.JobManager.Retries
use remote_control_pjt.JobManager.Retries.{adopt_session}
use remote_control_pjt.JobManager.HostRetries
use remote_control_pjt.JobManager.Recover

module _ {R : World → World → Type 0} (g : Guarantee R) where
  run_again-Obeys : (j i : String) → Obeys g (Retries.run_again j i)
  unfolding Retries.run_again
  run_again-Obeys j i = search (obeys, registries, steps) depth 12

  run_qa_again-Obeys : (j : String) → Obeys g (Retries.run_qa_again j)
  unfolding Retries.run_qa_again
  run_qa_again-Obeys j = search (obeys, steps) depth 12

  start_queued-Obeys : (j : String) (r : RecoveryRecord) → Obeys g (Retries.start_queued j r)
  unfolding Retries.start_queued
  start_queued-Obeys j r = search (obeys, steps, run_again-Obeys, run_qa_again-Obeys) depth 12

  adopt_session-state :
      (job : JobRecord) (s : ProjectSessionRecord) (r : JobRecord)
      → ((adopt_session job s r).id ≡ r.id) × ((adopt_session job s r).state ≡ r.state)
  adopt_session-state job s r = ground arith

  adopt-Obeys :
      (job : JobRecord) (s : ProjectSessionRecord)
      → Obeys g (Jobs.update job.id (adopt_session job s))
  adopt-Obeys job s =
      updates-Obeys g job.id (adopt_session job s) (λ j. (adopt_session-state job s j).0)
        (λ j. (adopt_session-state job s j).1)

  adopt_free-Obeys :
      (job : JobRecord) (s : ProjectSessionRecord)
      → Obeys g (Jobs.update job.id (λ j. record (adopt_session job s j) { error = none }))
  adopt_free-Obeys job s =
      updates-Obeys g job.id _ (λ j. (adopt_session-state job s j).0)
        (λ j. (adopt_session-state job s j).1)

  leave_queue-Obeys :
      (job : JobRecord) (r : RecoveryRecord) (h : String) (s : ProjectSessionRecord)
      → Obeys g (Retries.leave_queue job r h s)
  unfolding Retries.leave_queue
  leave_queue-Obeys job r h s =
      bind-Obeys g (adopt_free-Obeys job s)
        λ u. search (obeys, tables, steps, start_queued-Obeys) depth 20

  requeue-Obeys : (job : JobRecord) (h : String) → Obeys g (Retries.requeue job h)
  unfolding Retries.requeue
  requeue-Obeys job h = search (obeys, registries, steps) depth 12

  lease_session-Obeys :
      (n : String) (job : JobRecord) (r : RecoveryRecord) (h : String)
      → Obeys g (Retries.retry_lease_session n job r h)
  unfolding Retries.retry_lease_session
  lease_session-Obeys n job r h = bind-Obeys g (outcome-Obeys g (acquire-Obeys g n _ _ _ _ _)) λ s.
      result-Obeys g s (λ session. leave_queue-Obeys job r h session)
        (λ x. search (obeys, requeue-Obeys))

  module _ (c : Config) where
    take_tree-Obeys : (job : JobRecord) (h : String) → Obeys g (Retries.take_tree c job h)
    unfolding Retries.take_tree
    take_tree-Obeys job h =
        bind-Obeys g (outcome-Obeys g (resolve_host-Obeys g c job.project_id h)) λ chosen.
          result-Obeys g chosen
            (λ host.
              bind-Obeys g (outcome-Obeys g (assign-Obeys g c job.id host))
                λ assigned. result-Obeys g assigned (λ moved. pure-Obeys g _) (λ x. search obeys))
            (λ x. search obeys)

    pub retry_lease-Obeys :
        (n : String) (job : JobRecord) (r : RecoveryRecord)
        → Obeys g (Retries.retry_lease c n job r)
    unfolding Retries.retry_lease
    retry_lease-Obeys n job r = if-Obeys g _ (pure-Obeys g false) (
        bind-Obeys g (take_tree-Obeys job _)
          λ taken. option-Obeys g taken (pure-Obeys g false) λ h. lease_session-Obeys n job r h)

    pub retry_quota-Obeys :
        (job : JobRecord) (r : RecoveryRecord) → Obeys g (Retries.retry_quota c job r)
    unfolding Retries.retry_quota
    retry_quota-Obeys job r =
        search (obeys, tables, registries, steps, host_is_there-Obeys) depth 20

    start_on_host-Obeys :
        (j : String) (r : RecoveryRecord) → Obeys g (HostRetries.start_on_host c j r)
    unfolding HostRetries.start_on_host
    start_on_host-Obeys j r = search (obeys, registries, steps) depth 20

    resume_on_host-Obeys :
        (job : JobRecord) (r : RecoveryRecord) (h : String)
        → Obeys g (HostRetries.resume_on_host c job r h)
    unfolding HostRetries.resume_on_host
    resume_on_host-Obeys job r h = search (obeys, tables, steps, start_on_host-Obeys) depth 12

    host_session-Obeys :
        (n : String) (job : JobRecord) (r : RecoveryRecord) (h : String)
        → Obeys g (HostRetries.retry_host_session c n job r h)
    unfolding HostRetries.retry_host_session
    host_session-Obeys n job r h = bind-Obeys g (outcome-Obeys g (acquire-Obeys g n _ _ _ _ _)) λ s.
        result-Obeys g s
          (λ session.
            bind-Obeys g
              (if-Obeys g _ (bind-Obeys g (adopt-Obeys job session) λ u. pure-Obeys g tt)
                (pure-Obeys g tt))
              λ u. resume_on_host-Obeys job r h)
          (λ x. search (obeys, registries, lease_wait-Obeys) depth 12)

    pub retry_host-Obeys :
        (n : String) (job : JobRecord) (r : RecoveryRecord)
        → Obeys g (HostRetries.retry_host c n job r)
    unfolding HostRetries.retry_host
    retry_host-Obeys n job r = if-Obeys g _ (pure-Obeys g false) (
        bind-Obeys g (work_of-Obeys g job.id) λ work. bind-Obeys g (take_tree-Obeys job _) λ taken.
          option-Obeys g taken (pure-Obeys g false)
            λ h. if-Obeys g _ (resume_on_host-Obeys job r h) (host_session-Obeys n job r h))

    retry_due-Obeys :
        (n : String) (job : JobRecord) (r : RecoveryRecord) → Obeys g (Recover.retry_due c n job r)
    unfolding Recover.retry_due
    retry_due-Obeys n job r =
        search (obeys, retry_quota-Obeys, retry_lease-Obeys, retry_host-Obeys) depth 8

    recover_record-Obeys :
        (n : String) (t : ℕ) (r : RecoveryRecord) → Obeys g (Recover.recover_record c n t r)
    unfolding Recover.recover_record
    recover_record-Obeys n t r = bind-Obeys g (job-Obeys g r.job_id) λ found.
        option-Obeys g found (search (obeys, tables))
          λ job. search (obeys, tables, retry_due-Obeys) depth 8

    recover_records-Obeys :
        (t : ℕ) (rs : List RecoveryRecord) (n : String → String)
        → Obeys g (Recover.recover_records c t rs n)
    unfolding Recover.recover_records
    recover_records-Obeys t [] n = search obeys
    recover_records-Obeys t (r ∷ rs) n =
        let rest = recover_records-Obeys t rs n in search (obeys, recover_record-Obeys) depth 8

    pub recover_due-Obeys : (t : ℕ) (n : String → String) → Obeys g (Recover.recover_due c t n)
    unfolding Recover.recover_due
    recover_due-Obeys t n = search (obeys, tables, recover_records-Obeys)

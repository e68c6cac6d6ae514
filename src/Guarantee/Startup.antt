-- ===== src/Guarantee/Startup.antt =====
-- The handles of running turns, a user's retry of a waiting job, and the start of the controller.
use remote_control_pjt.Prelude.{ℕ, String, Option, none, some, List, [], ◌∷◌}
use remote_control_pjt.Records.{JobRecord, RecoveryRecord}
use remote_control_pjt.Memory.{RunHandle, AgentRunResult}
use remote_control_pjt.World.{World}
use remote_control_pjt.Guarantee.{
  Guarantee, Obeys, obeys, bind-Obeys, gets-Obeys, option-Obeys, result-Obeys, pure-Obeys,
  outcome-Obeys, updates-Obeys,
}
use remote_control_pjt.Guarantee.Tables.{tables}
use remote_control_pjt.Guarantee.Registries.{registries, acquire_lease-Obeys}
use remote_control_pjt.Guarantee.Steps.{steps, job-Obeys}
use remote_control_pjt.Projects.{non_empty}
use remote_control_pjt.Repositories.Jobs
use remote_control_pjt.JobManager.Config.{Config}
use remote_control_pjt.Records.{ExecutionLeaseRecord, RemoteExecutionRecord}
use remote_control_pjt.Repositories.Leases
use remote_control_pjt.Repositories.Executions as ExecutionTable
use remote_control_pjt.Repositories.Hosts as HostTable
use remote_control_pjt.Hosts.Registry
use remote_control_pjt.JobManager.Lifecycle
use remote_control_pjt.JobManager.Executions
use remote_control_pjt.JobManager.Executions.{remote_host}
use remote_control_pjt.JobManager.Startup
use remote_control_pjt.JobManager.Startup.{holding_host}
use remote_control_pjt.Guarantee.Retries.{retry_quota-Obeys, retry_lease-Obeys, retry_host-Obeys}

module _ {R : World → World → Type 0} (g : Guarantee R) where
  received-Obeys :
      (h : RunHandle) (r : AgentRunResult) → Obeys g (Executions.mark_remote_result_received h r)
  unfolding Executions.mark_remote_result_received
  received-Obeys h r =
      option-Obeys g (non_empty h.execution_id) (pure-Obeys g tt)
        λ e. search (obeys, tables) depth 8

  write_row-Obeys :
      (fresh : RemoteExecutionRecord) (f : RemoteExecutionRecord → RemoteExecutionRecord)
      (o : Option RemoteExecutionRecord)
      → Obeys g (ExecutionTable.write fresh f o)
  unfolding ExecutionTable.write
  write_row-Obeys fresh f none = search obeys
  write_row-Obeys fresh f (some r) = search obeys

  write_execution_row-Obeys :
      (fresh : RemoteExecutionRecord) (f : RemoteExecutionRecord → RemoteExecutionRecord)
      → Obeys g (ExecutionTable.upsert fresh f)
  unfolding ExecutionTable.upsert
  write_execution_row-Obeys fresh f = search (obeys, write_row-Obeys)

  host-Obeys : (l : String) (t : ℕ) (h : String) → Obeys g (Registry.get l t h)
  unfolding Registry.get HostTable.get
  host-Obeys l t h = search obeys

  module _ (c : Config) where
    write_execution-Obeys :
        (e : String) (job : JobRecord) (h : String) (s : Option String)
        → Obeys g (Executions.write_execution c e job h s)
    unfolding Executions.write_execution
    write_execution-Obeys e job h s = search (obeys, host-Obeys, write_execution_row-Obeys) depth 20

    confirm-Obeys :
        (job : JobRecord) (h : String) (r : RunHandle) (e : RemoteExecutionRecord)
        → Obeys g (Executions.confirm_execution c job h r e)
    unfolding Executions.confirm_execution
    confirm-Obeys job h r e = search (obeys, write_execution_row-Obeys) depth 12

    on_host-Obeys :
        (job : JobRecord) (h e : String) (r : RunHandle)
        → Obeys g (Executions.ensure_on_host c job h e r)
    unfolding Executions.ensure_on_host ExecutionTable.get
    on_host-Obeys job h e r = bind-Obeys g (gets-Obeys g _) λ found.
        option-Obeys g found (write_execution-Obeys e job h r.session_id)
          λ x. confirm-Obeys job h r x

    ensure-Obeys :
        (job : JobRecord) (r : RunHandle) → Obeys g (Executions.ensure_remote_execution c job r)
    unfolding Executions.ensure_remote_execution
    ensure-Obeys job r =
        option-Obeys g (non_empty r.execution_id) (pure-Obeys g tt)
          λ e. option-Obeys g (remote_host c job) (pure-Obeys g tt) λ h. on_host-Obeys job h e r

    pub set_handle-Obeys : (j : String) (h : RunHandle) → Obeys g (Executions.set_handle c j h)
    unfolding Executions.set_handle
    set_handle-Obeys j h = search (obeys, tables, steps, updates-Obeys, ensure-Obeys) depth 20

  rebuild-Obeys : (job : JobRecord) → Obeys g (Startup.rebuild_record job)
  unfolding Startup.rebuild_record
  rebuild-Obeys job = search (obeys, tables, steps) depth 12

  record_of-Obeys :
      (job : JobRecord) (r : Option RecoveryRecord) → Obeys g (Startup.record_of job r)
  unfolding Startup.record_of
  record_of-Obeys job none = rebuild-Obeys job
  record_of-Obeys job (some r) = pure-Obeys g r

  module _ (c : Config) where
    by_state-Obeys :
        (n : String) (job : JobRecord) (r : RecoveryRecord)
        → Obeys g (Startup.retry_by_state c n job r)
    unfolding Startup.retry_by_state
    by_state-Obeys n job r =
        search (obeys, retry_quota-Obeys, retry_lease-Obeys, retry_host-Obeys) depth 8

    pub retry_waiting-Obeys : (n j : String) → Obeys g (Startup.retry_waiting c n j)
    unfolding Startup.retry_waiting
    retry_waiting-Obeys n j =
        search (obeys, tables, steps, record_of-Obeys, by_state-Obeys) depth 20

    check_lease-Obeys :
        (l : ExecutionLeaseRecord) (h : JobRecord × String) → Obeys g (Startup.check_lease c l h)
    unfolding Startup.check_lease
    check_lease-Obeys l h = search obeys depth 12

    reconcile_lease-Obeys : (l : ExecutionLeaseRecord) → Obeys g (Startup.reconcile_lease c l)
    unfolding Startup.reconcile_lease
    reconcile_lease-Obeys l = bind-Obeys g (job-Obeys g l.job_id) λ job.
        option-Obeys g (holding_host job) (search (obeys, registries)) λ h. check_lease-Obeys l h

    reconcile_leases-Obeys :
        (ls : List ExecutionLeaseRecord) → Obeys g (Startup.reconcile_leases c ls)
    unfolding Startup.reconcile_leases
    reconcile_leases-Obeys [] = search obeys
    reconcile_leases-Obeys (l ∷ ls) =
        let rest = reconcile_leases-Obeys ls in search (obeys, reconcile_lease-Obeys) depth 8

    acquire_for-Obeys : (job : JobRecord) (h : String) → Obeys g (Startup.acquire_for c job h)
    unfolding Startup.acquire_for Lifecycle.acquire_execution_lease Lifecycle.working_directory
    acquire_for-Obeys job h =
        bind-Obeys g (outcome-Obeys g (search (obeys, steps, acquire_lease-Obeys) depth 12))
          λ t. result-Obeys g t (λ u. pure-Obeys g tt) (λ x. search obeys)

    acquire_all-Obeys : (js : List JobRecord) → Obeys g (Startup.acquire_all c js)
    unfolding Startup.acquire_all
    acquire_all-Obeys [] = search obeys
    acquire_all-Obeys (job ∷ js) =
        bind-Obeys g
          (option-Obeys g (holding_host (some job)) (pure-Obeys g tt)
            λ h. acquire_for-Obeys h.0 h.1)
          λ u. acquire_all-Obeys js

    pub reconcile_startup_leases-Obeys : Obeys g (Startup.reconcile_execution_leases c)
    unfolding Startup.reconcile_execution_leases Leases.list Jobs.list_states
    reconcile_startup_leases-Obeys =
        search (obeys, reconcile_leases-Obeys, acquire_all-Obeys) depth 12

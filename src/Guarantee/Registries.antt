-- ===== src/Guarantee/Registries.antt =====
-- The registries change the jobs and the leases by the transactions of the two tables alone.
use remote_control_pjt.Result.{Error}
use remote_control_pjt.Guarantee.{gets-Obeys, takes-Obeys, outcome-Obeys, result-Obeys}
use remote_control_pjt.Prelude.{ℕ, ◌≡◌, Bool, String, Option, none, some, List, [], ◌∷◌}
use remote_control_pjt.Result.{ok}
use remote_control_pjt.Json.{Json}
use remote_control_pjt.States.{JobState, validate_transition}
use remote_control_pjt.Statuses.{SessionStatus}
use remote_control_pjt.Records.{
  SessionRecord, ProjectSessionRecord, HostRecord, ExecutionLeaseRecord,
}
use remote_control_pjt.World.{World}
use remote_control_pjt.Guarantee.{
  Guarantee, Obeys, obeys, bind-Obeys, option-Obeys, pure-Obeys, releases-Obeys, assigns-Obeys,
  raise-Obeys,
}
use remote_control_pjt.Guarantee.Tables.{tables, session_for_job-Obeys, active_for-Obeys}
use remote_control_pjt.Projects.{ProjectDefinition}
use remote_control_pjt.Sessions
use remote_control_pjt.ProjectSessions
use remote_control_pjt.ExecutionLeases
use remote_control_pjt.Approvals
use remote_control_pjt.Approvals.{HumanGateRequest}
use remote_control_pjt.Repositories.Leases
use remote_control_pjt.Repositories.Hosts as HostTable
use remote_control_pjt.Repositories.Approvals as ApprovalTable
use remote_control_pjt.Hosts.Registry
use remote_control_pjt.Hosts.Router

module _ {R : World → World → Type 0} (g : Guarantee R) where
  pub mark-Obeys : (j : String) (s : SessionStatus) → Obeys g (Sessions.mark j s)
  unfolding Sessions.mark
  mark-Obeys j s =
      bind-Obeys g (session_for_job-Obeys g j)
        λ o. option-Obeys g o (pure-Obeys g none) λ r. search (obeys, tables) depth 12

  start_session-Obeys :
      (n j p h e : String) (s : SessionStatus) → Obeys g (Sessions.start_session n j p h e s)
  unfolding Sessions.start_session
  start_session-Obeys n j p h e s = search (obeys, tables) depth 12

  rebind-Obeys :
      (j p h e : String) (s : SessionStatus) (r : SessionRecord)
      → Obeys g (Sessions.rebind j p h e s r)
  unfolding Sessions.rebind
  rebind-Obeys j p h e s r = search (obeys, tables) depth 12

  pub record_session-Obeys :
      (n j p h e : String) (s : SessionStatus) → Obeys g (Sessions.record_session n j p h e s)
  unfolding Sessions.record_session
  record_session-Obeys n j p h e s =
      bind-Obeys g (session_for_job-Obeys g j)
        λ o. option-Obeys g o (start_session-Obeys n j p h e s) λ r. rebind-Obeys j p h e s r

  busy-Obeys : (r : ProjectSessionRecord) → Obeys g (ProjectSessions.busy {A = Unit} r)
  busy-Obeys r = option-Obeys g r.locked_by_job_id (raise-Obeys g _) λ h. raise-Obeys g _

  open_session-Obeys :
      (n p u : String) (s h : Option String) (o : Option ProjectSessionRecord)
      → Obeys g (ProjectSessions.open_session n p u s h o)
  unfolding ProjectSessions.open_session
  open_session-Obeys n p u s h none = search (obeys, tables) depth 12
  open_session-Obeys n p u s h (some r) = search obeys

  pub acquire-Obeys :
      (n p u j : String) (s h : Option String) → Obeys g (ProjectSessions.acquire n p u j s h)
  unfolding ProjectSessions.acquire
  acquire-Obeys n p u j s h = search (obeys, tables, open_session-Obeys, busy-Obeys) depth 12

  migrate-Obeys :
      (n p u j e h : String) (o : Option ProjectSessionRecord)
      → Obeys g (ProjectSessions.migrate n p u j e h o)
  unfolding ProjectSessions.migrate
  migrate-Obeys n p u j e h none = search (obeys, tables) depth 12
  migrate-Obeys n p u j e h (some r) = search obeys

  pub bind_for_job-Obeys :
      (n p u j e h : String) → Obeys g (ProjectSessions.bind_for_job n p u j e h)
  unfolding ProjectSessions.bind_for_job
  bind_for_job-Obeys n p u j e h = search (obeys, tables, migrate-Obeys, busy-Obeys) depth 12

  release_held-Obeys :
      (p u j : String) (r : ProjectSessionRecord) → Obeys g (ProjectSessions.release_held p u j r)
  unfolding ProjectSessions.release_held
  release_held-Obeys p u j r = search (obeys, tables) depth 12

  pub release_session-Obeys : (p u j : String) → Obeys g (ProjectSessions.release_for_job p u j)
  unfolding ProjectSessions.release_for_job
  release_session-Obeys p u j =
      bind-Obeys g (active_for-Obeys g p u)
        λ o. option-Obeys g o (pure-Obeys g none) λ r. release_held-Obeys p u j r

  best_effort-Obeys :
      (t : String) (j p h : Option String) (payload : Json)
      → Obeys g (ExecutionLeases.event_best_effort t j p h payload)
  unfolding ExecutionLeases.event_best_effort
  best_effort-Obeys t j p h payload = search (obeys, tables) depth 12

  lease_of-Obeys : (j : String) → Obeys g (Leases.get_for_job j)
  unfolding Leases.get_for_job
  lease_of-Obeys j = search obeys

  lease_at-Obeys : (k : String) → Obeys g (Leases.get k)
  unfolding Leases.get
  lease_at-Obeys k = search obeys

  pub release_lease-Obeys : (j : String) → Obeys g (ExecutionLeases.release_for_job j)
  unfolding ExecutionLeases.release_for_job
  release_lease-Obeys j =
      bind-Obeys g (lease_of-Obeys j) λ o.
        option-Obeys g o (pure-Obeys g tt) λ r. search (obeys, best_effort-Obeys, releases-Obeys)

  pub assign_job-Obeys :
      (canonical : String → String) (lease_key : String → String → String) (j p h d : String)
      (s : JobState)
      → validate_transition s JobState.assigned ≡ ok tt
      → Obeys g (ExecutionLeases.assign_job canonical lease_key j p h d s)
  unfolding ExecutionLeases.assign_job
  assign_job-Obeys canonical lease_key j p h d s v =
      search (obeys, best_effort-Obeys, lease_at-Obeys, assigns-Obeys) depth 12

  conflict-Obeys :
      (canonical : String → String) (lease_key : String → String → String)
      (r : ExecutionLeaseRecord) (x : Error)
      → Obeys g (ExecutionLeases.resolve_conflict canonical lease_key r x)
  unfolding ExecutionLeases.resolve_conflict
  conflict-Obeys canonical lease_key r x = search (obeys, lease_at-Obeys) depth 8

  store_lease-Obeys :
      (canonical : String → String) (lease_key : String → String → String)
      (r : ExecutionLeaseRecord)
      → Obeys g (ExecutionLeases.store_lease canonical lease_key r)
  unfolding ExecutionLeases.store_lease
  store_lease-Obeys canonical lease_key r = bind-Obeys g (outcome-Obeys g (takes-Obeys g r)) λ res.
      result-Obeys g res (λ stored. search (obeys, best_effort-Obeys))
        (λ x. conflict-Obeys canonical lease_key r x)

  keep_current-Obeys :
      (canonical : String → String) (lease_key : String → String → String) (h d : String)
      (r : ExecutionLeaseRecord)
      → Obeys g (ExecutionLeases.keep_current canonical lease_key h d r)
  unfolding ExecutionLeases.keep_current
  keep_current-Obeys canonical lease_key h d r = search obeys

  pub acquire_lease-Obeys :
      (canonical : String → String) (lease_key : String → String → String) (j p h d : String)
      → Obeys g (ExecutionLeases.acquire canonical lease_key j p h d)
  unfolding ExecutionLeases.acquire
  acquire_lease-Obeys canonical lease_key j p h d = bind-Obeys g (gets-Obeys g _) λ t.
      bind-Obeys g (lease_of-Obeys j) λ o.
        option-Obeys g o (store_lease-Obeys canonical lease_key _)
          λ lease. keep_current-Obeys canonical lease_key h _ lease

  pub get_approval-Obeys : (a : String) → Obeys g (Approvals.get a)
  unfolding Approvals.get ApprovalTable.get
  get_approval-Obeys a = search obeys

  pub pending-Obeys : (j : String) → Obeys g (ApprovalTable.pending_for_job j)
  unfolding ApprovalTable.pending_for_job
  pending-Obeys j = search obeys

  store_request-Obeys :
      (n j p : String) (h : Option String) (u : String) (q : HumanGateRequest)
      → Obeys g (Approvals.store_request n j p h u q)
  unfolding Approvals.store_request
  store_request-Obeys n j p h u q = search (obeys, tables) depth 12

  pub create_approval-Obeys :
      (n j p : String) (h : Option String) (u : String) (q : HumanGateRequest)
      → Obeys g (Approvals.create n j p h u q)
  unfolding Approvals.create
  create_approval-Obeys n j p h u q =
      bind-Obeys g (pending-Obeys j)
        λ o. option-Obeys g o (store_request-Obeys n j p h u q) λ r. pure-Obeys g r

  pub expire-Obeys : (a : String) → Obeys g (Approvals.expire a)
  unfolding Approvals.expire
  expire-Obeys a = search (obeys, tables, get_approval-Obeys) depth 12

  pub cancel_for_job-Obeys : (j : String) → Obeys g (Approvals.cancel_for_job j)
  unfolding Approvals.cancel_for_job
  cancel_for_job-Obeys j =
      bind-Obeys g (pending-Obeys j)
        λ o. option-Obeys g o (pure-Obeys g none) λ r. search (obeys, tables) depth 12

  pub resolve-Obeys :
      (casefold : String → String) (a : String) (k : Option String) (b : Bool) (t : Option String)
      → Obeys g (Approvals.resolve casefold a k b t)
  unfolding Approvals.resolve
  resolve-Obeys casefold a k b t = search (obeys, tables, get_approval-Obeys) depth 12

  pub is_online-Obeys :
      (local : String) (timeout : ℕ) (h : String) → Obeys g (Registry.is_online local timeout h)
  unfolding Registry.is_online Registry.get HostTable.get
  is_online-Obeys local timeout h = search obeys

  update_host-Obeys : (h : String) (f : HostRecord → HostRecord) → Obeys g (HostTable.update h f)
  unfolding HostTable.update
  update_host-Obeys h f = search obeys

  expire_all-Obeys :
      (local : String) (timeout t : ℕ) (rs : List HostRecord)
      → Obeys g (Registry.expire_all local timeout t rs)
  unfolding Registry.expire_all
  expire_all-Obeys local timeout t [] = search obeys
  expire_all-Obeys local timeout t (r ∷ rs) =
      let rest = expire_all-Obeys local timeout t rs in
      search (obeys, tables, update_host-Obeys) depth 12

  pub expire_stale-Obeys :
      (local : String) (timeout t : ℕ) → Obeys g (Registry.expire_stale local timeout t)
  unfolding Registry.expire_stale HostTable.list
  expire_stale-Obeys local timeout t = search (obeys, expire_all-Obeys)

  choose_from-Obeys :
      (local : String) (timeout : ℕ) (p : ProjectDefinition) (hs : List String)
      → Obeys g (Router.choose_from local timeout p hs)
  unfolding Router.choose_from
  choose_from-Obeys local timeout p [] = search obeys
  choose_from-Obeys local timeout p (h ∷ hs) =
      let rest = choose_from-Obeys local timeout p hs in search (obeys, is_online-Obeys)

  require_host-Obeys :
      (local : String) (timeout : ℕ) (p : ProjectDefinition) (h : String)
      → Obeys g (Router.require local timeout p h)
  unfolding Router.require
  require_host-Obeys local timeout p h = search (obeys, is_online-Obeys) depth 12

  pub choose-Obeys :
      (local : String) (timeout : ℕ) (p : ProjectDefinition) (h : String)
      → Obeys g (Router.choose local timeout p h)
  unfolding Router.choose
  choose-Obeys local timeout p h = search (obeys, choose_from-Obeys, require_host-Obeys) depth 12

  pub ruleset registries = (
    mark-Obeys, record_session-Obeys, acquire-Obeys, bind_for_job-Obeys, release_session-Obeys,
    release_lease-Obeys, get_approval-Obeys, pending-Obeys, create_approval-Obeys, expire-Obeys,
    cancel_for_job-Obeys, resolve-Obeys, is_online-Obeys, choose-Obeys, expire_stale-Obeys,
  )

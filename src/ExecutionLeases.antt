-- ===== src/ExecutionLeases.antt =====
-- execution_leases.py: one writer for each working tree. `canonical_working_directory` resolves a
-- path in the file system and `_lease_key` is a SHA-256 digest; both are parameters.
pub mod Exclusion
use remote_control_pjt.Prelude.{
  ℕ, suc, ◌+◌, ltb, leb, Bool, true, false, not, ◌&&◌, ◌||◌, String, Option, none, some, List, [],
  ◌∷◌, ◌++◌, map, take, keep, any, contains, first, head?, ◌==◌, string_eq, nat_eq, option_eq,
  if◌then◌else◌, length,
}
use remote_control_pjt.Result.{Error, Result, ok, err, is_value_error, is_integrity_error}
use remote_control_pjt.Json.{
  Json, Items, Fields, nil, cons, end, field, null, num, arr, obj, object, array, text, flag,
  opt_text, get_field, as_text,
}
use remote_control_pjt.World.{
  World, Action, pure, raise, gets, or_raise, raise_if, now, commit, when, catch, lift, outcome,
  ◌>>=◌, ◌>>◌,
}
use remote_control_pjt.Repositories.Events.{append}
use remote_control_pjt.States.{JobState}
use remote_control_pjt.Records.{ExecutionLeaseRecord}
use remote_control_pjt.Repositories.Leases

-- `_event_best_effort`: an audit event that cannot be written is logged and dropped.
unfoldable pub event_best_effort :
    String → Option String → Option String → Option String → Json → Action (Unit {0})
event_best_effort event_type job_id project_id host_id payload =
    catch (append event_type job_id project_id host_id payload >> pure tt) (λ x. pure tt)

-- The exceptions that the repository's `assign_job` turns into a busy working tree.
abbrev pub is_refusal : Error → Bool
is_refusal x = is_integrity_error x || is_value_error x

module _ (canonical : String → String) (lease_key : String → String → String) where
  abbrev pub lease_record : String → String → String → String → ℕ → ExecutionLeaseRecord
  lease_record job_id project_id host_id working_directory t = record {
    lease_key = lease_key host_id (canonical working_directory);
    job_id = job_id;
    project_id = project_id;
    host_id = host_id;
    working_directory = canonical working_directory;
    acquired_at = t;
  }

  abbrev lease_payload : ExecutionLeaseRecord → Json
  lease_payload r =
      object
        (("lease_key", text r.lease_key) ∷ ("working_directory", text r.working_directory) ∷ [])

  unfoldable pub assign_job :
      String → String → String → String → JobState → Action ExecutionLeaseRecord
  unfolding event_best_effort
  assign_job job_id project_id host_id working_directory expected = do
    t ← now
    let r = lease_record job_id project_id host_id working_directory t
    stored ← catch (Leases.assign_job r expected host_id) (λ x.
        if is_refusal x
        then (do Leases.get r.lease_key; raise Error.execution_lease_busy)
        else raise x)
    event_best_effort "EXECUTION_LEASE_ACQUIRED" (some job_id) (some project_id) (some host_id)
        (lease_payload r)
    pure stored

  -- The lease that the job already holds must be for this host and directory.
  unfoldable pub keep_current : String → String → ExecutionLeaseRecord → Action ExecutionLeaseRecord
  keep_current host_id normalized current =
      if not (current.host_id == host_id) || not (current.working_directory == normalized)
      then raise Error.execution_lease_busy
      else pure current

  abbrev is_owner : String → Option ExecutionLeaseRecord → Option ExecutionLeaseRecord
  is_owner job_id none = none
  is_owner job_id (some owner) = if owner.job_id == job_id then some owner else none

  -- `except IntegrityError`: the lease may be the job's own, written by another task.
  unfoldable pub resolve_conflict : ExecutionLeaseRecord → Error → Action ExecutionLeaseRecord
  resolve_conflict r x = do
    raise_if (not (is_integrity_error x)) x
    owner ← Leases.get r.lease_key
    or_raise (is_owner r.job_id owner) Error.execution_lease_busy

  -- `return owner` in the handler leaves before the event; a stored row goes on to it.
  unfoldable pub store_lease : ExecutionLeaseRecord → Action ExecutionLeaseRecord
  unfolding event_best_effort resolve_conflict
  store_lease r = do
    res ← outcome (Leases.add r)
    elim res [
      | err x ↦ resolve_conflict r x
      | ok stored ↦ do
        event_best_effort "EXECUTION_LEASE_ACQUIRED" (some r.job_id) (some r.project_id)
            (some r.host_id) (lease_payload r)
        pure stored
    ]

  unfoldable pub acquire : String → String → String → String → Action ExecutionLeaseRecord
  unfolding keep_current store_lease
  acquire job_id project_id host_id working_directory = do
    t ← now
    current ← Leases.get_for_job job_id
    elim current [
      | some lease ↦ keep_current host_id (canonical working_directory) lease
      | none ↦ store_lease (lease_record job_id project_id host_id working_directory t)
    ]

unfoldable pub release_for_job : String → Action (Unit {0})
unfolding event_best_effort
release_for_job job_id = do
  current ← Leases.get_for_job job_id
  elim current [
    | none ↦ pure tt
    | some r ↦ do
      Leases.delete_for_job job_id
      event_best_effort "EXECUTION_LEASE_RELEASED" (some job_id) (some r.project_id)
          (some r.host_id)
          (object (
            ("lease_key", text r.lease_key) ∷ ("working_directory", text r.working_directory) ∷ []))
  ]

-- ===== src/Result.antt =====
-- Exceptions as values: one constructor for each exception class that the modelled code raises.
-- The message texts are not kept; the identifiers that a caller reads from an exception are.
use remote_control_pjt.Prelude.{◌≡◌, refl, ◌⊎◌, inl, inr, String, Bool, true, false}

pub data Error : Type 0 where
  key_error value_error runtime_error : Error
  invalid_job_transition host_unavailable : Error
  -- `database_busy` is the `OperationalError` whose message says that the database is locked or
  -- busy, `operational_error` every other one.
  integrity_error database_busy operational_error : Error
  execution_lease_busy : Error
  connection_error timeout_error os_error : Error
  -- `asyncio.CancelledError`, which `except Exception` does not catch.
  cancelled_error : Error
  -- `ProjectSessionBusyError(session_id, locked_by_job_id)`
  project_session_busy : String → String → Error

pub data Result {ℓ} (A : Type ℓ) : Type ℓ where
  ok : A → Result A
  err : Error → Result A

-- `except ValueError`: the class and those that the source derives from it.
abbrev pub is_value_error : Error → Bool
is_value_error Error.value_error = true
is_value_error Error.invalid_job_transition = true
is_value_error Error.host_unavailable = true
is_value_error (Error.project_session_busy s j) = true
is_value_error _ = false

abbrev pub is_integrity_error : Error → Bool
is_integrity_error Error.integrity_error = true
is_integrity_error _ = false

-- `_is_sqlite_busy_error` on an `OperationalError`.
abbrev pub is_sqlite_busy_error : Error → Bool
is_sqlite_busy_error Error.database_busy = true
is_sqlite_busy_error _ = false

abbrev pub is_host_unavailable : Error → Bool
is_host_unavailable Error.host_unavailable = true
is_host_unavailable _ = false

abbrev pub is_session_busy : Error → Bool
is_session_busy (Error.project_session_busy s j) = true
is_session_busy _ = false

abbrev pub is_lease_busy : Error → Bool
is_lease_busy Error.execution_lease_busy = true
is_lease_busy _ = false

abbrev pub is_connection_error : Error → Bool
is_connection_error Error.connection_error = true
is_connection_error _ = false

-- `except (ConnectionError, TimeoutError)`
abbrev pub is_lost : Error → Bool
is_lost Error.connection_error = true
is_lost Error.timeout_error = true
is_lost _ = false

abbrev pub is_cancelled : Error → Bool
is_cancelled Error.cancelled_error = true
is_cancelled _ = false

pub Result-cases {ℓ} :
    {A : Type ℓ} (r : Result A) → ((a : A) × (r ≡ ok a)) ⊎ ((x : Error) × (r ≡ err x))
Result-cases (ok a) = inl (a, refl)
Result-cases (err x) = inr (x, refl)

-- ===== src/Lib.antt =====
-- A verification library for the controller of Remote Control: the Python package
-- src/remote_control, which lets a user start and steer coding agents on several hosts from a chat.
--
-- The controller keeps all its state in one SQLite database. Around the tables stand registries, one
-- for each concern, which many asyncio tasks call at the same time. What must not go wrong is shared
-- ownership: one writer for each working tree, one job for each project session, one answer for each
-- question, one task that moves a job from a state to the next. The library models the tables, the
-- repositories that read and write them, the registries on top, the job manager that ties them
-- together, and the journal that a runner keeps on its own host.
--
-- How the database is modelled (World):
--   - World is the state: the tables as lists of rows in the order of insertion, the clock, how
--     the coming COMMITs end (they write, are refused as busy, or fail otherwise), what the job
--     manager holds in memory (Memory: its tasks and handles; the queued messages), and whether the
--     coming calls of a notifier deliver;
--   - an Action is a function from a state to a result and a state; do blocks write the code of a
--     method. An exception is a value of Error, without its message text (Result);
--   - each repository method is one transaction: commit writes all of its changes or none, and
--     refuses what a PRIMARY KEY or UNIQUE constraint forbids. Tasks interleave between transactions.
--     A method that the source runs under an asyncio lock is one step.
--
-- Which file models which code (paths under src/remote_control):
--   - States: controller/states.py. States/Graph: histories of transitions.
--   - Records, Statuses, Json: storage/models.py and the enumerations of hosts/models.py,
--     recovery/models.py and the registries; a column of JSON text holds the value.
--   - Repositories: storage/repositories.py, a child for each repository class, with the source's
--     method names. Repositories/Leases/Invariant, Jobs/Transition, Events/Retry and Recovery/Queue
--     hold theorems.
--   - ExecutionLeases: execution_leases.py. ExecutionLeases/Exclusion holds theorems.
--   - Hosts/Registry, Hosts/Router: hosts/registry.py, hosts/router.py. Hosts/Expiry and Hosts/Choice
--     hold theorems.
--   - Sessions: sessions/registry.py. ProjectSessions, ProjectSessions/Switch:
--     sessions/project_sessions.py.
--   - Approvals: approvals/registry.py and the two records of human_gate.py. Approvals/Options and
--     Approvals/Resolution hold theorems.
--   - HumanGate: human_gate.py without its instruction text; what it calls of Python's texts, and
--     raw_decode, are parameters. HumanGate/Options holds theorems.
--   - EventPayloads: event_payloads.py, and extract_session_id of runners/codex.py, with
--     detect_quota_event as a parameter. EventPayloads/Bounds holds theorems.
--   - Projects: projects/models.py, and get of projects/registry.py.
--   - JobManager: controller/job_manager.py. Lifecycle (_transition, _assign_execution_lease,
--     _acquire_execution_lease, _reconcile_stale_project_session_locks), Guards (select_for_user,
--     validate_runner_registration), Queue (queued_for_user, move_waiting_lease, _queue_lane_key),
--     Config (__init__ and the instructions for agents), Notices (_notify, _notify_approval,
--     _deliver_notification), Waits (_enter_host_wait, _enter_lease_wait, _enter_quota_wait),
--     Creation (create, retry_failed), Retries (_retry_lease, _retry_quota), HostRetries
--     (_retry_host), Recover (recover_due), Turns (pause, resume, steer, redirect, _record_session,
--     _drain_steering), Failures (_fail, _handle_cancelled_task, _hold_process_safety,
--     _ack_result_handle), Cancellation (cancel, _finalize_cancellation), Gates (_enter_human_gate,
--     respond_approval, match_pending_approval, expire_approvals), Executions (_set_handle,
--     _reserve_remote_execution, _ensure_remote_execution), Startup (retry_waiting,
--     _reconcile_execution_leases). JobManager/Release, Ending,
--     Selection, Ended, Steering, Numerals, Holding and Delivery hold theorems.
--   - Quota: retry_at of recovery/quota.py. Quota/Bounds holds theorems.
--   - Scheduler: recovery/scheduler.py, one turn of its loop.
--   - Feedback: the throttle of feedback.py. Feedback/Throttle holds theorems.
--   - RunnerJournal, RunnerJournal/Operations: runner_journal.py. RunnerJournal/RoundTrip and Reload
--     hold theorems.
--   - Guarantee: what the transactions on the jobs and the leases obey, the operations of the job manager that
--     Calls lists obey. Guarantee is the interface, a record of what each transaction does, with a rule
--     for each way to build an action; Tables, Registries, Steps, Turns, Creation, Retries, Ends
--     and Startup go through the code from the repositories up to the job manager; Calls is a sequence of calls
--     of its operations; Exclusive and Follows with History fill the interface,
--     and Late is about what comes after a job has ended.
--   - Examples applies the theorems to one small database.
--
-- Parameters, which stand for code outside the repository or for the operating system: the canonical
-- form of a path (canonical_working_directory), the SHA-256 lease key (_lease_key), Python's
-- str.casefold, str.strip, str and repr, the text of an exception, the order of texts, isoformat and
-- fromisoformat, the detection of a usage limit in a text, how an agent's turn answers a stop or an
-- acknowledgement, whether a process could be terminated, and the identifiers that a method draws at
-- random (an argument new_id).
--
-- Conventions: an identifier and a text are a String, an instant is a number of microseconds, a member
-- of an enumeration stands for its value, ORDER BY is a stable sort, a dict of columns (**changes) is
-- a function on rows. The column updated_at is not kept. Every optional registry of the job manager
-- is enabled. A notification's text is not kept. A method
-- that waits for another task to end is modelled from its wait on (resume, respond_approval) or in
-- two halves (begin_cancel and confirm_cancel); the task that stops a turn in the background
-- is noted in the state. Each operation runs to its end before the
-- next one; a task that is cancelled in the middle of an await is described only where a notifier
-- is awaited. So the reads and the writes of one transaction are one step, also those of assign_job of
-- ExecutionLeaseRepository, whose UPDATE does not test the state that it has read.
--
-- Bounds: the retry loop of EventRepository.append and that of _deliver_notification run their three
-- rounds, counted down as in the source; the digits of a number are written
-- in one round more than the number, which JobManager/Numerals shows to be enough; all other recursion
-- is on lists, texts and what is parsed. Numbers are unbounded, as
-- Python's are.
--
-- Not modelled: the chat services, the HTTP API, the websocket transport and the runner process, the
-- settings, the migrations, quality assurance and project finalization, and of the job manager: the
-- turn of an agent itself (_execute_new, _await_handle, _finish_or_continue and what they call),
-- rerun_qa, the branch of cancel for a running quality assurance, and the
-- reconciliation of executions at startup and when a runner reports.
pub mod Prelude
pub mod Result
pub mod States
pub mod Json
pub mod Quota
pub mod Statuses
pub mod Memory
pub mod Records
pub mod World
pub mod Repositories
pub mod Projects
pub mod Hosts
pub mod ExecutionLeases
pub mod Sessions
pub mod ProjectSessions
pub mod Approvals
pub mod HumanGate
pub mod EventPayloads
pub mod JobManager
pub mod Scheduler
pub mod Feedback
pub mod RunnerJournal
pub mod Guarantee
pub mod Examples

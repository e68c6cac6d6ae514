-- ===== src/RunnerJournal/Operations.antt =====
-- The operations of `RunnerExecutionJournal`. The file is replaced whole: a write that fails leaves the old
-- one. `iso` and `from_iso` stand for Python's `isoformat` and `fromisoformat`, `strip` for
-- `str.strip`, `now` for the text of the time; a file that is not JSON is not modelled.
use remote_control_pjt.Prelude.{
  ℕ, ℤ, pos, Bool, true, false, not, String, Option, none, some, List, [], ◌∷◌, map, sort_by, ◌==◌,
  string_eq, option_eq, if◌then◌else◌,
}
use remote_control_pjt.Result.{Error, Result, ok, err}
use remote_control_pjt.Json.{Json, Items, nil, cons, text, arr, obj, object, array, get_field}
use remote_control_pjt.Memory.{AgentRunResult}
use remote_control_pjt.Projects.{or_text, non_empty}
use remote_control_pjt.RunnerJournal.{
  RunnerExecutionEntry, Entries, Journal, asdict, entry_from_dict, is_positive,
}

-- `self._entries.get(execution_id)`
abbrev pub entry_of : String → Entries → Option RunnerExecutionEntry
entry_of k [] = none
entry_of k ((j, e) ∷ es) = if j == k then some e else entry_of k es

-- `self._entries[execution_id] = entry`
abbrev pub put_entry : String → RunnerExecutionEntry → Entries → Entries
put_entry k e [] = (k, e) ∷ []
put_entry k e ((j, x) ∷ es) = if j == k then (j, e) ∷ es else (j, x) ∷ put_entry k e es

-- `self._entries.pop(execution_id, None)`
abbrev pub pop_entry : String → Entries → Entries
pop_entry k [] = []
pop_entry k ((j, x) ∷ es) = if j == k then es else (j, x) ∷ pop_entry k es

abbrev pub values : Entries → List RunnerExecutionEntry
values = map (λ (e : String × RunnerExecutionEntry). e.1)

-- `to_result`
unfoldable pub to_result : (String → Result ℕ) → RunnerExecutionEntry → Result AgentRunResult
to_result from_iso e = elim (non_empty e.retry_at) [
  | none ↦ ok (result none)
  | some t ↦ elim (from_iso t) [ ok at' ↦ ok (result (some at')) | err x ↦ err x ]
]
  where
    result : Option ℕ → AgentRunResult
    result retry_at = record {
      returncode = elim e.returncode [ none ↦ pos 1 | some n ↦ n ];
      session_id = e.session_id;
      final_message = e.final_message;
      retry_kind = e.retry_kind;
      retry_at = retry_at;
    }

module _ (before : String → String → Bool) where
  abbrev pub sorted : Entries → List RunnerExecutionEntry
  sorted es = sort_by (λ a b. before a.execution_id b.execution_id) (values es)

  abbrev pub payload : Journal → Json
  payload j = object (
      ("runner_instance_id", text j.instance_id)
      ∷ ("executions", array (map (λ e. obj (asdict e)) (sorted j.entries)))
      ∷ [])

  abbrev write_file : List Bool → Journal → Result (Unit {0}) × Journal
  write_file [] j = (ok tt, record j { file = some (payload j) })
  write_file (true ∷ bs) j = (ok tt, record j { file = some (payload j); writes = bs })
  write_file (false ∷ bs) j = (err Error.os_error, record j { writes = bs })

  -- `_persist`
  unfoldable pub persist : Journal → Result (Unit {0}) × Journal
  unfolding asdict
  persist j = write_file j.writes j

  abbrev returning : {A : Type 0} → A → Result (Unit {0}) × Journal → Result A × Journal
  returning a (ok u, j) = (ok a, j)
  returning a (err x, j) = (err x, j)

  abbrev with_entry : String → RunnerExecutionEntry → Journal → Journal
  with_entry k e j = record j { entries = put_entry k e j.entries }

  -- `self._entries[…]` is the changed entry, and the file is written.
  abbrev store : String → RunnerExecutionEntry → Journal → Result RunnerExecutionEntry × Journal
  store k e j = returning e (persist (with_entry k e j))

  unfoldable pub reserve :
      String
      → String
      → String
      → Option String
      → String
      → Journal
      → Result RunnerExecutionEntry × Journal
  unfolding persist
  reserve execution_id working_directory boot_id session_id now = store execution_id (record {
    execution_id = execution_id;
    pid = none;
    working_directory = working_directory;
    state = "STARTING";
    boot_id = boot_id;
    process_executable = none;
    process_start_token = none;
    session_id = session_id;
    returncode = none;
    final_message = none;
    retry_kind = none;
    retry_at = none;
    started_at = now;
    completed_at = none;
  })

  abbrev pub attached :
      ℤ → Option String → Option String → RunnerExecutionEntry → RunnerExecutionEntry
  attached pid executable token e = record e {
    pid = some pid;
    process_executable = executable;
    process_start_token = token;
    state = "RUNNING";
  }

  unfoldable pub attach_pid :
      String → ℤ → Option String → Option String → Journal → Result RunnerExecutionEntry × Journal
  unfolding persist
  attach_pid execution_id pid executable token j = elim (entry_of execution_id j.entries) [
    | none ↦ (err Error.key_error, j)
    | some e ↦
        if not (is_positive (some pid))
        then (err Error.value_error, j)
        else store execution_id (attached pid executable token e) j
  ]

  unfoldable pub update_session : String → String → Journal → Result (Unit {0}) × Journal
  unfolding persist
  update_session execution_id session_id j = elim (entry_of execution_id j.entries) [
    | none ↦ (ok tt, j)
    | some e ↦
        if e.session_id == some session_id
        then (ok tt, j)
        else persist (with_entry execution_id (record e { session_id = some session_id }) j)
  ]

  abbrev pub completed :
      (ℕ → String) → AgentRunResult → String → RunnerExecutionEntry → RunnerExecutionEntry
  completed iso r now e = record e {
    state = "COMPLETED";
    session_id = or_text r.session_id e.session_id;
    returncode = some r.returncode;
    final_message = r.final_message;
    retry_kind = r.retry_kind;
    retry_at = elim r.retry_at [ none ↦ none | some t ↦ some (iso t) ];
    completed_at = some now;
  }

  unfoldable pub complete :
      (ℕ → String)
      → String
      → AgentRunResult
      → String
      → Journal
      → Result RunnerExecutionEntry × Journal
  unfolding persist
  complete iso execution_id r now j = elim (entry_of execution_id j.entries) [
    | none ↦ (err Error.key_error, j)
    | some e ↦ store execution_id (completed iso r now e) j
  ]

  unfoldable pub remove : String → Journal → Result (Unit {0}) × Journal
  unfolding persist
  remove execution_id j = elim (entry_of execution_id j.entries) [
    | none ↦ (ok tt, j)
    | some e ↦ persist (record j { entries = pop_entry execution_id j.entries })
  ]

-- `_load`: the identifier, where the file names one, and the entries.
module _ (strip : String → String) (str : Json → String) where
  unfoldable pub load_items : Items → Entries → Result Entries
  unfolding entry_from_dict
  load_items nil es = ok es
  load_items (cons (obj raw) xs) es = elim (entry_from_dict str raw) [
    | ok e ↦ load_items xs (put_entry e.execution_id e es)
    | err x ↦ err x
  ]
  load_items (cons v xs) es = err Error.runtime_error

  abbrev pub instance_of : Json → Option String
  instance_of (text s) = if strip s == "" then none else some s
  instance_of _ = none

  abbrev load_executions : Json → Result Entries
  load_executions (arr xs) = load_items xs []
  load_executions _ = err Error.runtime_error

  unfoldable pub load : Option Json → Result (Option String × Entries)
  unfolding load_items
  load none = ok (none, [])
  load (some (obj raw)) = elim (load_executions (get_field "executions" raw)) [
    | ok es ↦ ok (instance_of (get_field "runner_instance_id" raw), es)
    | err x ↦ err x
  ]
  load (some _) = err Error.runtime_error

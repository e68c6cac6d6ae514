-- ===== src/RunnerJournal.antt =====
-- runner_journal.py: what a runner remembers of its executions, in memory and in a JSON file. Python's
-- `str` of a value that is neither a text nor false is a parameter, and so is the order of texts by which the
-- file is sorted. A JSON number is an integer.
pub mod RoundTrip
pub mod Operations
pub mod Reload
use remote_control_pjt.Prelude.{
  ℕ, zero, suc, ℤ, pos, negsuc, ltb, Bool, true, false, not, ◌&&◌, ◌||◌, String, Option, none, some,
  List, [], ◌∷◌, map, contains, sort_by, ◌==◌, string_eq, if◌then◌else◌,
}
use remote_control_pjt.Result.{Error, Result, ok, err}
use remote_control_pjt.Json.{
  Json, Items, Fields, nil, cons, end, field, null, flag, num, text, arr, obj, array, fields,
  opt_text, opt_int, get_field,
}
use remote_control_pjt.Memory.{AgentRunResult}
use remote_control_pjt.Projects.{or_text}

-- `RunnerExecutionEntry`
pub record RunnerExecutionEntry : Type 0 where
  pub execution_id : String
  pub pid : Option ℤ
  pub working_directory : String
  pub state : String
  pub boot_id : String
  pub process_executable : Option String
  pub process_start_token : Option String
  pub session_id : Option String
  pub returncode : Option ℤ
  pub final_message : Option String
  pub retry_kind : Option String
  pub retry_at : Option String
  pub started_at : String
  pub completed_at : Option String

abbrev pub Entries : Type 0
Entries = List (String × RunnerExecutionEntry)

-- `self.instance_id`, `self._entries`, and the file; `writes` says whether each of the coming writes
-- of the file succeeds (all do where the list has run out).
pub record Journal : Type 0 where
  pub instance_id : String
  pub entries : Entries
  pub file : Option Json
  pub writes : List Bool

abbrev pub is_positive : Option ℤ → Bool
is_positive none = false
is_positive (some (pos n)) = ltb 0 n
is_positive (some (negsuc n)) = false

-- `asdict(entry)`
unfoldable pub asdict : RunnerExecutionEntry → Fields
asdict e = fields (
    ("execution_id", text e.execution_id)
    ∷ ("pid", opt_int e.pid)
    ∷ ("working_directory", text e.working_directory)
    ∷ ("state", text e.state)
    ∷ ("boot_id", text e.boot_id)
    ∷ ("process_executable", opt_text e.process_executable)
    ∷ ("process_start_token", opt_text e.process_start_token)
    ∷ ("session_id", opt_text e.session_id)
    ∷ ("returncode", opt_int e.returncode)
    ∷ ("final_message", opt_text e.final_message)
    ∷ ("retry_kind", opt_text e.retry_kind)
    ∷ ("retry_at", opt_text e.retry_at)
    ∷ ("started_at", text e.started_at)
    ∷ ("completed_at", opt_text e.completed_at)
    ∷ [])

-- `value if isinstance(value, int) else None`; `True` and `False` are the integers 1 and 0.
abbrev pub as_int : Json → Option ℤ
as_int (num n) = some n
as_int (flag true) = some (pos 1)
as_int (flag false) = some (pos 0)
as_int _ = none

-- `_optional_str`
unfoldable pub optional_str : Json → Option String
optional_str (text s) = if s == "" then none else some s
optional_str _ = none

abbrev pub or_empty : Option String → String
or_empty none = ""
or_empty (some s) = s

abbrev is_null : Json → Bool
is_null null = true
is_null _ = false

-- The conditions on an entry, of which `pid` is its value in the file.
abbrev pub is_invalid : String → Json → String → String → String → Bool
is_invalid execution_id pid state boot_id working_directory =
    execution_id == ""
    || (contains ("RUNNING" ∷ "COMPLETED" ∷ []) state && not (is_positive (as_int pid)))
    || (state == "STARTING" && not (is_null pid))
    || not (contains ("STARTING" ∷ "RUNNING" ∷ "COMPLETED" ∷ []) state)
    || boot_id == ""
    || working_directory == ""

module _ (str : Json → String) where
  -- `str(value or "")`
  unfoldable pub str_or_empty : Json → String
  str_or_empty (text s) = s
  str_or_empty null = ""
  str_or_empty (flag false) = ""
  str_or_empty (num (pos zero)) = ""
  str_or_empty (arr nil) = ""
  str_or_empty (obj end) = ""
  str_or_empty v = str v

  -- `_entry_from_dict`
  unfoldable pub entry_from_dict : Fields → Result RunnerExecutionEntry
  unfolding str_or_empty optional_str
  entry_from_dict raw =
      let execution_id = str_or_empty (get_field "execution_id" raw) in
      let pid = get_field "pid" raw in
      let state = str_or_empty (get_field "state" raw) in
      let boot_id = str_or_empty (get_field "boot_id" raw) in
      let working_directory = str_or_empty (get_field "working_directory" raw) in
      if is_invalid execution_id pid state boot_id working_directory
      then err Error.runtime_error
      else ok (record {
        execution_id = execution_id;
        pid = as_int pid;
        working_directory = working_directory;
        state = state;
        boot_id = boot_id;
        process_executable = optional_str (get_field "process_executable" raw);
        process_start_token = optional_str (get_field "process_start_token" raw);
        session_id = optional_str (get_field "session_id" raw);
        returncode = as_int (get_field "returncode" raw);
        final_message = optional_str (get_field "final_message" raw);
        retry_kind = optional_str (get_field "retry_kind" raw);
        retry_at = optional_str (get_field "retry_at" raw);
        started_at = or_empty (optional_str (get_field "started_at" raw));
        completed_at = optional_str (get_field "completed_at" raw);
      })

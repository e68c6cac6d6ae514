-- ===== src/RunnerJournal/RoundTrip.antt =====
-- What a runner reads back of its journal.
use remote_control_pjt.Prelude.{
  ◌≡◌, refl, sym, ==-eq, ℤ, false, String, Option, none, some, ◌==◌, string_eq, Bool-cases, inl,
  inr,
}
use remote_control_pjt.Result.{ok}
use remote_control_pjt.Json.{Json, opt_text, opt_int, text}
use remote_control_pjt.RunnerJournal.{
  RunnerExecutionEntry, asdict, entry_from_dict, is_invalid, optional_str, str_or_empty, as_int,
  or_empty,
}

abbrev pub IsSetOrNone : Option String → Type 0
IsSetOrNone none = Unit
IsSetOrNone (some s) = (s == "") ≡ false

-- An entry that passes the checks of `_entry_from_dict`, and no optional text of which is empty.
pub record IsValid (e : RunnerExecutionEntry) : Type 0 where
  pub checks :
      is_invalid e.execution_id (opt_int e.pid) e.state e.boot_id e.working_directory ≡ false
  pub process_executable : IsSetOrNone e.process_executable
  pub process_start_token : IsSetOrNone e.process_start_token
  pub session_id : IsSetOrNone e.session_id
  pub final_message : IsSetOrNone e.final_message
  pub retry_kind : IsSetOrNone e.retry_kind
  pub retry_at : IsSetOrNone e.retry_at
  pub completed_at : IsSetOrNone e.completed_at

optional_str-opt_text : (o : Option String) → IsSetOrNone o → optional_str (opt_text o) ≡ o
unfolding optional_str
optional_str-opt_text none h = refl
optional_str-opt_text (some s) h = rw h refl

as_int-opt_int : (o : Option ℤ) → as_int (opt_int o) ≡ o
as_int-opt_int none = refl
as_int-opt_int (some n) = refl

or_empty-text : (s : String) → or_empty (optional_str (text s)) ≡ s
unfolding optional_str
or_empty-text s = elim (Bool-cases (s == "")) [
  | inl empty ↦ rw empty (sym (==-eq s "" empty))
  | inr told ↦ rw told refl
]

-- An entry that is valid is read back from the journal as it was written.
pub entry_from_dict-asdict :
    (str : Json → String) (e : RunnerExecutionEntry)
    → IsValid e
    → entry_from_dict str (asdict e) ≡ ok e
unfolding entry_from_dict asdict str_or_empty
entry_from_dict-asdict str e v =
    rw
      (
        v.checks,
        as_int-opt_int e.pid,
        as_int-opt_int e.returncode,
        optional_str-opt_text e.process_executable v.process_executable,
        optional_str-opt_text e.process_start_token v.process_start_token,
        optional_str-opt_text e.session_id v.session_id,
        optional_str-opt_text e.final_message v.final_message,
        optional_str-opt_text e.retry_kind v.retry_kind,
        optional_str-opt_text e.retry_at v.retry_at,
        optional_str-opt_text e.completed_at v.completed_at,
        or_empty-text e.started_at,
      )
      refl

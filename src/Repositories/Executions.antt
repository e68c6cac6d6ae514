-- ===== src/Repositories/Executions.antt =====
-- `RemoteExecutionRepository`: what the runners have been asked to run.
use remote_control_pjt.Prelude.{
  leb, Bool, true, false, not, ◌&&◌, ◌||◌, String, Option, none, some, List, [], ◌∷◌, ◌++◌, keep,
  first, change, has_key, sort_by, ◌==◌, string_eq, nat_eq, option_eq, if◌then◌else◌,
}
use remote_control_pjt.World.{Action, pure, gets, now, commit, ◌>>=◌, ◌>>◌}
use remote_control_pjt.Records.{RemoteExecutionRecord, ExecutionState}

abbrev pub by_id : String → RemoteExecutionRecord → Bool
by_id = has_key (λ r. r.execution_id)

abbrev pub is_acknowledged : ExecutionState → Bool
is_acknowledged ExecutionState.acknowledged = true
is_acknowledged _ = false

abbrev pub oldest_first : RemoteExecutionRecord → RemoteExecutionRecord → Bool
oldest_first a b = leb a.started_at b.started_at

unfoldable pub get : String → Action (Option RemoteExecutionRecord)
get execution_id = gets (λ w. first (by_id execution_id) w.executions)

unfoldable pub list_for_host : String → Bool → Action (List RemoteExecutionRecord)
list_for_host host_id include_acknowledged = gets (λ w. sort_by oldest_first (
    keep (λ r. r.host_id == host_id && (include_acknowledged || not (is_acknowledged r.state)))
      w.executions))

unfoldable pub list_for_job : String → Action (List RemoteExecutionRecord)
list_for_job job_id = gets (λ w. sort_by oldest_first (keep (λ r. r.job_id == job_id) w.executions))

unfoldable pub write :
    RemoteExecutionRecord
    → (RemoteExecutionRecord → RemoteExecutionRecord)
    → Option RemoteExecutionRecord
    → Action RemoteExecutionRecord
write fresh changes none = do
  commit false (λ w. record w { executions = w.executions ++ fresh ∷ [] })
  pure fresh
write fresh changes (some r) = do
  commit false
      (λ w. record w { executions = change (by_id fresh.execution_id) changes w.executions })
  pure (changes r)

-- `**changes` is both the new row's columns, `fresh`, and what is set on an old row.
unfoldable pub upsert :
    RemoteExecutionRecord
    → (RemoteExecutionRecord → RemoteExecutionRecord)
    → Action RemoteExecutionRecord
unfolding write
upsert fresh changes = do
  r ← gets (λ w. first (by_id fresh.execution_id) w.executions)
  write fresh changes r

unfoldable pub update_known :
    String
    → (RemoteExecutionRecord → RemoteExecutionRecord)
    → Option RemoteExecutionRecord
    → Action (Option RemoteExecutionRecord)
update_known execution_id changes none = pure none
update_known execution_id changes (some r) = do
  commit false (λ w. record w { executions = change (by_id execution_id) changes w.executions })
  pure (some (changes r))

-- `if session_id: record.session_id = session_id`, where an empty text counts as none.
abbrev pub or_session : Option String → Option String → Option String
or_session none old = old
or_session (some s) old = if s == "" then old else some s

unfoldable pub mark_result_received : String → Option String → Action (Option RemoteExecutionRecord)
unfolding update_known
mark_result_received execution_id session_id = do
  r ← gets (λ w. first (by_id execution_id) w.executions)
  t ← now
  update_known execution_id
      (λ e. record e {
        state = ExecutionState.result_received;
        session_id = or_session session_id e.session_id;
        result_received_at = some t;
      })
      r

unfoldable pub mark_acknowledged : String → Action (Option RemoteExecutionRecord)
unfolding update_known
mark_acknowledged execution_id = do
  r ← gets (λ w. first (by_id execution_id) w.executions)
  t ← now
  update_known execution_id
      (λ e. record e { state = ExecutionState.acknowledged; acknowledged_at = some t }) r

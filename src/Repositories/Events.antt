-- ===== src/Repositories/Events.antt =====
-- `EventRepository`: the append-only log of events, whose writer retries a busy database.
pub mod Retry
use remote_control_pjt.Prelude.{
  ℕ, zero, suc, ◌+◌, ◌<◌, ltb, Bool, not, ◌||◌, String, Option, List, [], ◌∷◌, ◌++◌, length,
  if◌then◌else◌, false,
}
use remote_control_pjt.Result.{Error, is_sqlite_busy_error}
use remote_control_pjt.Json.{Json}
use remote_control_pjt.Records.{EventRecord}
use remote_control_pjt.World.{World, Action, pure, raise, gets, catch, now, commit, ◌>>=◌, ◌>>◌}

-- The row that `session.add(EventRecord(…))` inserts: the key counts up from 1.
abbrev pub with_event : EventRecord → World → World
with_event e w = record w { events = w.events ++ record e { id = suc (length w.events) } ∷ [] }

-- One turn of the loop's `try` block.
unfoldable pub insert : EventRecord → Action EventRecord
insert e = do
  n ← gets (λ w. suc (length w.events))
  commit false (with_event e)
  pure (record e { id = n })

-- The pauses between attempts, in milliseconds.
abbrev pub delays : List ℕ
delays = 50 ∷ 100 ∷ []

-- `for attempt in range(…)`: the rounds left, and the number of this attempt.
unfoldable pub append_rounds : ℕ → ℕ → EventRecord → Action EventRecord
append_rounds zero attempt e = raise Error.runtime_error
append_rounds (suc rounds) attempt e =
    let rest = append_rounds rounds (attempt + 1) e in
    catch (insert e)
      λ x. if not (is_sqlite_busy_error x) || ltb (length delays) attempt then raise x else rest

unfoldable pub append :
    String → Option String → Option String → Option String → Json → Action (EventRecord)
append event_type job_id project_id host_id payload = do
  t ← now
  append_rounds (length delays + 1) 1 (record {
    id = 0;
    event_type = event_type;
    job_id = job_id;
    project_id = project_id;
    host_id = host_id;
    payload_json = payload;
    created_at = t;
  })

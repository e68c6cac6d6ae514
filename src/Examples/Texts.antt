-- ===== src/Examples/Texts.antt =====
-- The waits, the throttle and the runner's journal on concrete values.
use remote_control_pjt.Prelude.{
  ℕ, ℤ, pos, ◌+◌, ◌*◌, ◌≤◌, ◌<◌, ◌≡◌, refl, ◌⊎◌, Bool, true, String, Option, none, some, List, [],
  ◌∷◌,
}
use Prim.Native.Nat.{min}
use remote_control_pjt.Result.{ok}
use remote_control_pjt.Json.{Json}
use remote_control_pjt.Quota.{backoff, retry_at, second}
use remote_control_pjt.Quota.Bounds.{shortest, longest, backoff_doubles, retry_at-window}
use remote_control_pjt.Feedback.{FeedbackLevel, last_of}
use remote_control_pjt.Feedback.Throttle.{Message, Waits, sent, sent-Waits}
use remote_control_pjt.RunnerJournal.{RunnerExecutionEntry, Journal}
use remote_control_pjt.RunnerJournal.RoundTrip.{IsValid}
use remote_control_pjt.RunnerJournal.Operations.{load, payload, sorted}
use remote_control_pjt.RunnerJournal.Reload.{keyed, load-payload}

backoff_doubles_example :
    (backoff 1 60 3600 ≡ shortest 60)
    × (backoff 5 60 3600 ≡ min (2 * backoff 4 60 3600) (longest 60 3600))
backoff_doubles_example = backoff_doubles 3 60 3600

retry_at-window_example :
    let wait = retry_at 3 60 3600 none 30 1000000000 in
    let next = retry_at 3 60 3600 (some 1000000005) 30 1000000000 in
    (wait ≡ 1000000000 + backoff 3 60 3600 * second)
    × (1000000000 < wait)
    × (1000000000 + shortest 60 * second ≤ wait)
    × (wait ≤ 1000000000 + longest 60 3600 * second)
    × (((1000000000 < 1000000005 + 30 * second) × (next ≡ 1000000005 + 30 * second))
        ⊎ ((1000000005 + 30 * second ≤ 1000000000) × (next ≡ wait)))
retry_at-window_example = retry_at-window 3 60 3600 1000000005 30 1000000000

abbrev message : FeedbackLevel → ℕ → Message
message level t = record { job_id = "JOB-1"; level = level; at = t }

abbrev messages : List Message
messages =
    message FeedbackLevel.progress 10
    ∷ message FeedbackLevel.final 20
    ∷ message FeedbackLevel.progress 30
    ∷ message FeedbackLevel.progress 400
    ∷ []

sent-Waits_example : Waits 300 "JOB-1" (last_of "JOB-1" []) (sent 300 messages [])
sent-Waits_example = sent-Waits 300 "JOB-1" messages []

abbrev entry : String → String → Option ℤ → RunnerExecutionEntry
entry id state pid = record {
  execution_id = id;
  pid = pid;
  working_directory = "/site";
  state = state;
  boot_id = "boot-1";
  process_executable = none;
  process_start_token = none;
  session_id = some "thread";
  returncode = none;
  final_message = none;
  retry_kind = none;
  retry_at = none;
  started_at = "2026-01-01T00:00:00+00:00";
  completed_at = none;
}

abbrev journal : Journal
journal = record {
  instance_id = "runner-1";
  entries = keyed (entry "E-2" "RUNNING" (some (pos 7)) ∷ entry "E-1" "STARTING" none ∷ []);
  file = none;
  writes = [];
}

abbrev no_change : String → String
no_change s = s

abbrev no_text : Json → String
no_text v = ""

abbrev before : String → String → Bool
before a b = true

entry-IsValid :
    IsValid (entry "E-2" "RUNNING" (some (pos 7))) × IsValid (entry "E-1" "STARTING" none)
entry-IsValid = (
  record {
    checks = refl;
    process_executable = tt;
    process_start_token = tt;
    session_id = refl;
    final_message = tt;
    retry_kind = tt;
    retry_at = tt;
    completed_at = tt;
  },
  record {
    checks = refl;
    process_executable = tt;
    process_start_token = tt;
    session_id = refl;
    final_message = tt;
    retry_kind = tt;
    retry_at = tt;
    completed_at = tt;
  },
)

load-payload_example :
    load no_change no_text (some (payload before journal))
    ≡ ok (some "runner-1", keyed (sorted before journal.entries))
load-payload_example =
    load-payload no_change no_text before journal refl (entry-IsValid.0, (entry-IsValid.1, tt))
      (refl, (refl, tt))

-- ===== src/Feedback.antt =====
-- feedback.py: the throttle of a job's progress messages. Instants are numbers of microseconds; what
-- `classify` reads from an agent's event is not modelled.
pub mod Throttle
use remote_control_pjt.Prelude.{
  ℕ, ◌+◌, ltb, Bool, true, false, String, Option, none, some, List, [], ◌∷◌, ◌==◌, string_eq,
  if◌then◌else◌,
}

-- `FeedbackLevel`
pub data FeedbackLevel : Type 0 where
  debug progress important human_required final : FeedbackLevel

abbrev pub is_progress : FeedbackLevel → Bool
is_progress FeedbackLevel.progress = true
is_progress _ = false

-- `self._last_progress.get(job_id)`
abbrev pub last_of : String → List (String × ℕ) → Option ℕ
last_of k [] = none
last_of k ((j, t) ∷ ts) = if j == k then some t else last_of k ts

-- `self._last_progress[job_id] = current`
abbrev pub set_last : String → ℕ → List (String × ℕ) → List (String × ℕ)
set_last k t [] = (k, t) ∷ []
set_last k t ((j, u) ∷ ts) = if j == k then (j, t) ∷ ts else (j, u) ∷ set_last k t ts

-- `previous is not None and current - previous < self.interval`
abbrev pub is_early : ℕ → Option ℕ → ℕ → Bool
is_early interval none current = false
is_early interval (some previous) current = ltb current (previous + interval)

-- `allow`: whether the message is sent, and the times of the last progress messages.
unfoldable pub allow : ℕ → String → FeedbackLevel → ℕ → List (String × ℕ) → Bool × List (String × ℕ)
allow interval job_id level current last_progress =
    if is_progress level
    then (if is_early interval (last_of job_id last_progress) current
        then (false, last_progress)
        else (true, set_last job_id current last_progress))
    else (true, last_progress)

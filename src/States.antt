-- ===== src/States.antt =====
-- controller/states.py: the states of a job, the table of allowed transitions and its check.
pub mod Graph
use remote_control_pjt.Prelude.{
  ◌≡◌, refl, Bool, true, false, List, [], ◌∷◌, String, Eq, discrete_beq, discrete_beq_iff, contains,
  if◌then◌else◌,
}
use remote_control_pjt.Result.{Error, Result, ok, err}

pub data JobState : Type 0 where
  queued assigned starting running : JobState
  waiting_agent waiting_human waiting_host waiting_lease waiting_quota : JobState
  paused cancelling failed cancelled completed : JobState

-- `JobState.value`
unfoldable pub value : JobState → String
value queued = "QUEUED"
value assigned = "ASSIGNED"
value starting = "STARTING"
value running = "RUNNING"
value waiting_agent = "WAITING_AGENT"
value waiting_human = "WAITING_HUMAN"
value waiting_host = "WAITING_HOST"
value waiting_lease = "WAITING_LEASE"
value waiting_quota = "WAITING_QUOTA"
value paused = "PAUSED"
value cancelling = "CANCELLING"
value failed = "FAILED"
value cancelled = "CANCELLED"
value completed = "COMPLETED"

abbrev pub JobState-discrete : Discrete JobState
JobState-discrete = hlevel

instance abbrev pub state_eq : Eq JobState
state_eq = record {
  equal = discrete_beq JobState-discrete;
  equal_iff = discrete_beq_iff JobState-discrete;
}

-- `TERMINAL_STATES`
abbrev pub terminal_states : List JobState
terminal_states = failed ∷ cancelled ∷ completed ∷ []

abbrev pub is_terminal : JobState → Bool
is_terminal = contains terminal_states

-- `_ALLOWED_TRANSITIONS`
unfoldable pub allowed_transitions : JobState → List JobState
allowed_transitions queued =
    assigned ∷ cancelling ∷ cancelled ∷ waiting_host ∷ waiting_lease ∷ failed ∷ []
allowed_transitions assigned = starting ∷ cancelling ∷ cancelled ∷ waiting_host ∷ waiting_lease ∷ []
allowed_transitions starting =
    running ∷ failed ∷ cancelling ∷ cancelled ∷ waiting_host ∷ waiting_quota ∷ paused ∷ completed
    ∷ []
allowed_transitions running =
    waiting_agent ∷ waiting_human ∷ waiting_host ∷ waiting_quota ∷ paused ∷ cancelling ∷ failed
    ∷ cancelled ∷ completed ∷ []
allowed_transitions waiting_agent =
    running ∷ waiting_host ∷ failed ∷ cancelling ∷ cancelled ∷ completed ∷ []
allowed_transitions waiting_human = running ∷ waiting_host ∷ failed ∷ cancelling ∷ cancelled ∷ []
allowed_transitions waiting_host = assigned ∷ cancelling ∷ cancelled ∷ failed ∷ []
allowed_transitions waiting_lease = assigned ∷ waiting_host ∷ cancelling ∷ cancelled ∷ failed ∷ []
allowed_transitions waiting_quota =
    running ∷ starting ∷ waiting_host ∷ cancelling ∷ cancelled ∷ failed ∷ []
allowed_transitions paused = running ∷ waiting_host ∷ cancelling ∷ cancelled ∷ failed ∷ []
allowed_transitions cancelling = cancelled ∷ []
allowed_transitions failed = []
allowed_transitions cancelled = []
allowed_transitions completed = []

unfoldable pub validate_transition : JobState → JobState → Result (Unit {0})
unfolding allowed_transitions
validate_transition current target =
    if contains (allowed_transitions current) target
    then ok tt
    else err Error.invalid_job_transition

-- ===== src/Examples/Lifecycle.antt =====
-- Histories of a job's state.
use remote_control_pjt.Prelude.{◌≡◌, ◌⊎◌, ◌↔◌, refl, true, [], ◌∷◌, contains}
use remote_control_pjt.Result.{Error, ok, err}
use remote_control_pjt.States.{
  JobState, assigned, starting, running, waiting_quota, cancelling, cancelled, completed,
  is_terminal, validate_transition, state_eq,
}
use remote_control_pjt.States.Graph.{
  follow, validate_transition-terminal, follow-cancelled, completed-needs-starting, cancelling-ends,
}

validate_transition-terminal_example :
    (is_terminal completed ≡ true)
    ↔ ((t : JobState) → validate_transition completed t ≡ err Error.invalid_job_transition)
validate_transition-terminal_example = validate_transition-terminal completed

follow-cancelled_example :
    (follow waiting_quota (cancelled ∷ []) ≡ ok cancelled)
    × ((waiting_quota ≡ cancelling)
        ⊎ (follow waiting_quota (cancelling ∷ cancelled ∷ []) ≡ ok cancelled))
follow-cancelled_example = follow-cancelled waiting_quota refl

completed-needs-starting_example :
    contains (assigned ∷ starting ∷ running ∷ completed ∷ []) starting ≡ true
unfolding follow validate_transition
completed-needs-starting_example =
    completed-needs-starting (assigned ∷ starting ∷ running ∷ completed ∷ []) refl

cancelling-ends_example : (cancelled ≡ cancelling) ⊎ (cancelled ≡ cancelled)
unfolding follow validate_transition
cancelling-ends_example = cancelling-ends (cancelled ∷ []) {s = cancelled} refl

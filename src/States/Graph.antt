-- ===== src/States/Graph.antt =====
-- The lifecycle that the transition table of controller/states.py draws.
use remote_control_pjt.Prelude.{
  ◌≡◌, refl, ◌↔◌, ◌⊎◌, inl, inr, Bool, true, false, List, [], ◌∷◌, contains, arith, ==-refl,
}
use remote_control_pjt.Result.{Error, Result, ok, err}
use remote_control_pjt.States.{
  JobState, queued, assigned, starting, waiting_host, waiting_lease, cancelling, failed, cancelled,
  completed, is_terminal, validate_transition, state_eq,
}

-- A job's history: each listed target is validated against the state that the last one left.
unfoldable pub follow : JobState → List JobState → Result JobState
follow s [] = ok s
follow s (t ∷ ts) = elim (validate_transition s t) [ ok u ↦ follow t ts | err e ↦ err e ]

-- The terminal states are exactly the states that no transition leaves.
pub validate_transition-terminal :
    (s : JobState)
    → (is_terminal s ≡ true)
      ↔ ((t : JobState) → validate_transition s t ≡ err Error.invalid_job_transition)
unfolding validate_transition
validate_transition-terminal s = (λ h t. ground arith, λ h. only s (h cancelled) (h cancelling))
  where
    only :
        (s : JobState)
        → validate_transition s cancelled ≡ err Error.invalid_job_transition
        → validate_transition s cancelling ≡ err Error.invalid_job_transition
        → is_terminal s ≡ true
    only s h k = ground arith

-- From every state that is not terminal `cancelled` is one transition away, and, except from
-- `cancelling` itself, also two through `cancelling`.
pub follow-cancelled :
    (s : JobState)
    → is_terminal s ≡ false
    → (follow s (cancelled ∷ []) ≡ ok cancelled)
      × ((s ≡ cancelling) ⊎ (follow s (cancelling ∷ cancelled ∷ []) ≡ ok cancelled))
unfolding follow validate_transition
follow-cancelled s h = ground arith

-- The states that lie before the start of an agent, and those that follow from them alone.
abbrev not_started : JobState → Bool
not_started queued = true
not_started assigned = true
not_started waiting_host = true
not_started waiting_lease = true
not_started cancelling = true
not_started failed = true
not_started cancelled = true
not_started _ = false

not_started-step :
    (s t : JobState)
    → not_started s ≡ true
    → validate_transition s t ≡ ok tt
    → (t ≡ starting) ⊎ (not_started t ≡ true)
unfolding validate_transition
not_started-step s t h v = ground arith

pub follow-step :
    (s t : JobState) (ts : List JobState)
    → validate_transition s t ≡ ok tt
    → follow s (t ∷ ts) ≡ follow t ts
unfolding follow
follow-step s t ts v = ground (arith, v)

pub follow-cons :
    (s t : JobState) (ts : List JobState) {u : JobState}
    → follow s (t ∷ ts) ≡ ok u
    → (validate_transition s t ≡ ok tt) × (follow t ts ≡ ok u)
unfolding follow
follow-cons s t ts e = ground arith

follow-not_started :
    (ts : List JobState) (s : JobState)
    → not_started s ≡ true
    → follow s ts ≡ ok completed
    → contains ts starting ≡ true
unfolding follow
follow-not_started [] s h e = ground arith
follow-not_started (t ∷ ts) s h e =
    let (valid, rest) = follow-cons s t ts e in
    elim (not_started-step s t h valid) [
      | inl now ↦ rw (now, ==-refl starting) refl
      | inr still ↦ rw (follow-not_started ts t still rest) (ground arith)
    ]

-- A history from `queued` that ends in `completed` has gone through `starting`.
pub completed-needs-starting :
    (ts : List JobState) → follow queued ts ≡ ok completed → contains ts starting ≡ true
completed-needs-starting ts e = follow-not_started ts queued refl e

-- Whatever transitions a job that is being cancelled goes through, it is still being cancelled or it
-- is cancelled: it is neither completed nor failed any more.
pub cancelling-ends :
    (ts : List JobState) {s : JobState}
    → follow cancelling ts ≡ ok s
    → (s ≡ cancelling) ⊎ (s ≡ cancelled)
unfolding follow validate_transition
cancelling-ends [] e = ground arith
cancelling-ends (t ∷ []) e = ground arith
cancelling-ends (t ∷ u ∷ ts) e = ground arith

-- ===== src/Repositories/Jobs/Transition.antt =====
-- The compare-and-set of `JobRepository.transition_with_event`.
use remote_control_pjt.Prelude.{
  ◌≡◌, refl, false, ◌⊎◌, inl, inr, String, Option, none, some, List, [], ◌∷◌, map, first, change,
  Distinct, ◌==◌, string_eq, arith, ap, sym, ◌∙◌, first-change_known, first-change_gone,
}
use remote_control_pjt.Result.{Error, Result, ok, err}
use remote_control_pjt.Json.{Json}
use remote_control_pjt.States.{JobState, state_eq}
use remote_control_pjt.Records.{JobRecord}
use remote_control_pjt.World.{◌>>=◌, World, Outcome, committed, busy, broken, Same, commit}
use remote_control_pjt.Repositories.Jobs.{
  transition_with_event, after_update, moved, job_event, in_state, by_id,
}
use remote_control_pjt.Repositories.Events.{with_event}

-- A transition that expects a state in which the known job is not.
transition-stale :
    (job_id : String) (expected target : JobState) (changes : JobRecord → JobRecord)
    (event_type : String) (payload : Json) (w : World) {j : JobRecord}
    → first (in_state job_id expected) w.jobs ≡ none
    → first (by_id job_id) w.jobs ≡ some j
    → transition_with_event job_id expected target changes event_type payload w
      ≡ (err Error.runtime_error, w)
unfolding ◌>>=◌ transition_with_event
transition-stale job_id expected target changes event_type payload w gone known =
    rw (gone, transition_with_event, known) refl

module _ (job_id : String) (expected target : JobState) (changes : JobRecord → JobRecord)
    (event_type : String) (payload : Json) where
  -- The transition has raised and written nothing, or has written the row and one event together
  -- and returned the new row.
  abbrev pub Transitions : Result JobRecord × World → World → Type 0
  Transitions (r, w') w =
      ((x : Error) × (r ≡ err x) × Same w' w)
      ⊎ ((row : JobRecord) × (first (in_state job_id expected) w.jobs ≡ some row)
          × (r ≡ ok (moved job_id expected target changes row))
          × Same w' (
              with_event
                (job_event (moved job_id expected target changes row) event_type
                  (moved job_id expected target changes row).assigned_host payload w.clock)
                (record w {
                  jobs =
                      change (in_state job_id expected) (moved job_id expected target changes)
                        w.jobs;
                })))

  after_update_at :
      (os : List Outcome) (w : World) (known : Option JobRecord) (m : Option JobRecord)
      → first (by_id job_id) w.jobs ≡ known
      → first (in_state job_id expected) w.jobs ≡ m
      → Transitions
          (after_update job_id expected target changes event_type payload m
            (record w { outcomes = os }))
          w
  unfolding ◌>>=◌ after_update commit
  after_update_at os w none none k e = rw k (inl (Error.key_error, refl, refl))
  after_update_at os w (some j) none k e = rw k (inl (Error.runtime_error, refl, refl))
  after_update_at [] w known (some row) k e = inr (row, e, refl, refl)
  after_update_at (committed ∷ os) w known (some row) k e = inr (row, e, refl, refl)
  after_update_at (busy ∷ os) w known (some row) k e = inl (Error.database_busy, refl, refl)
  after_update_at (broken ∷ os) w known (some row) k e = inl (Error.operational_error, refl, refl)

  -- A transition is atomic: it writes the row and one event together and returns the new row, or
  -- raises and writes nothing. It writes only where the row was in the expected state.
  pub transition_is_atomic :
      (w : World)
      → Transitions (transition_with_event job_id expected target changes event_type payload w) w
  unfolding ◌>>=◌ transition_with_event
  transition_is_atomic w =
      after_update_at w.outcomes w (first (by_id job_id) w.jobs)
        (first (in_state job_id expected) w.jobs) refl refl

  -- Of two tasks that read the same state, only one moves the job. Where no two rows have one id and
  -- the changes keep the id: once a transition to another state has returned, a second one that expects the old state raises `RuntimeError` and writes
  -- nothing.
  pub transition_once :
      (w w' : World) {j : JobRecord}
      → Distinct (map (λ r. r.id) w.jobs)
      → ((r : JobRecord) → (changes r).id ≡ r.id)
      → (target == expected) ≡ false
      → transition_with_event job_id expected target changes event_type payload w ≡ (ok j, w')
      → (other : JobState) (other_changes : JobRecord → JobRecord) (other_type : String)
      → transition_with_event job_id expected other other_changes other_type payload w'
        ≡ (err Error.runtime_error, w')
  transition_once w w' distinct keeps differs e other other_changes other_type =
      elim (transition_is_atomic w) [
        | inl (x, failed, same) ↦ cc
        | inr (row, found, done, same) ↦
            let jobs_now =
              ap (λ (p : Result JobRecord × World). p.1.jobs) (sym e)
              ∙ ap (λ (v : World). v.jobs) same in
            let (x, known) =
              first-change_known (in_state job_id expected) (by_id job_id)
                (moved job_id expected target changes) w.jobs {row = row} (λ r. rw (keeps r))
                (λ r h. ground arith) found in
            transition-stale job_id expected other other_changes other_type payload w' {j = x}
              (rw jobs_now (
                first-change_gone (λ r. r.id) job_id (λ r. r.state == expected)
                  (moved job_id expected target changes) w.jobs distinct (λ r. differs)))
              (rw jobs_now known)
      ]

-- ===== src/Repositories/Events/Retry.antt =====
-- What the retry loop of `EventRepository.append` achieves, by how the database answers.
use remote_control_pjt.Prelude.{
  ℕ, zero, suc, ◌≡◌, ◌≢◌, refl, Bool, true, false, String, Option, List, [], ◌∷◌, length,
  if◌then◌else◌,
}
use remote_control_pjt.Result.{Error, Result, ok, err}
use remote_control_pjt.Json.{Json}
use remote_control_pjt.Records.{EventRecord}
use remote_control_pjt.World.{◌>>=◌, World, Outcome, committed, busy, broken, commit, Same}
use remote_control_pjt.Repositories.Events.{with_event, insert, append_rounds, append}

-- Whether one of the next `n` COMMITs writes, where only a busy database is asked again.
abbrev pub written : ℕ → List Outcome → Bool
written zero os = false
written (suc n) [] = true
written (suc n) (committed ∷ os) = true
written (suc n) (busy ∷ os) = written n os
written (suc n) (broken ∷ os) = false

abbrev pub entry : String → Option String → Option String → Option String → Json → ℕ → EventRecord
entry event_type job_id project_id host_id payload t = record {
  id = 0;
  event_type = event_type;
  job_id = job_id;
  project_id = project_id;
  host_id = host_id;
  payload_json = payload;
  created_at = t;
}

-- One event more, if a COMMIT writes; else an exception, and no table has changed.
abbrev pub Appends : EventRecord → Result EventRecord × World → World → Type 0
Appends e (r, w') w =
    if written 3 w.outcomes
    then (r ≡ ok (record e { id = suc (length w.events) })) × Same w' (with_event e w)
    else ((x : Error) × (r ≡ err x) × (x ≢ Error.runtime_error)) × Same w' w

module _ (event_type : String) (job_id project_id host_id : Option String) (payload : Json) where
  abbrev AppendsTo : World → Type 0
  AppendsTo w =
      Appends (entry event_type job_id project_id host_id payload w.clock)
        (append event_type job_id project_id host_id payload w) w

  append_at : (os : List Outcome) (w : World) → AppendsTo (record w { outcomes = os })
  unfolding ◌>>=◌ append append_rounds insert commit
  append_at [] w = (refl, refl)
  append_at (committed ∷ os) w = (refl, refl)
  append_at (broken ∷ os) w = ((Error.operational_error, refl, λ e. cc), refl)
  append_at (busy ∷ []) w = (refl, refl)
  append_at (busy ∷ committed ∷ os) w = (refl, refl)
  append_at (busy ∷ broken ∷ os) w = ((Error.operational_error, refl, λ e. cc), refl)
  append_at (busy ∷ busy ∷ []) w = (refl, refl)
  append_at (busy ∷ busy ∷ committed ∷ os) w = (refl, refl)
  append_at (busy ∷ busy ∷ broken ∷ os) w = ((Error.operational_error, refl, λ e. cc), refl)
  append_at (busy ∷ busy ∷ busy ∷ os) w = ((Error.database_busy, refl, λ e. cc), refl)

  frame_at :
      (os : List Outcome) (w : World)
      → let w' =
          (append event_type job_id project_id host_id payload (record w { outcomes = os })).1 in
        w' ≡ record w { events = w'.events; outcomes = w'.outcomes }
  unfolding ◌>>=◌ append append_rounds insert commit
  frame_at [] w = refl
  frame_at (committed ∷ os) w = refl
  frame_at (broken ∷ os) w = refl
  frame_at (busy ∷ []) w = refl
  frame_at (busy ∷ committed ∷ os) w = refl
  frame_at (busy ∷ broken ∷ os) w = refl
  frame_at (busy ∷ busy ∷ []) w = refl
  frame_at (busy ∷ busy ∷ committed ∷ os) w = refl
  frame_at (busy ∷ busy ∷ broken ∷ os) w = refl
  frame_at (busy ∷ busy ∷ busy ∷ os) w = refl

  -- `append` leaves every table but the events alone.
  pub append-frame :
      (w : World)
      → let w' = (append event_type job_id project_id host_id payload w).1 in
        w' ≡ record w { events = w'.events; outcomes = w'.outcomes }
  append-frame w = frame_at w.outcomes w

-- `append` writes exactly one event, and returns it, if one of its first three COMMITs writes and
-- those before it were refused as busy; otherwise it raises, and no table has changed. It never
-- reaches its last line, which would raise `RuntimeError`.
pub append_retries :
    (event_type : String) (job_id project_id host_id : Option String) (payload : Json) (w : World)
    → Appends
        (entry event_type job_id project_id host_id payload w.clock)
        (append event_type job_id project_id host_id payload w)
        w
append_retries event_type job_id project_id host_id payload w =
    append_at event_type job_id project_id host_id payload w.outcomes w

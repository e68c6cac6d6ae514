-- ===== src/Guarantee.antt =====
-- Actions whose effect on the jobs and on the leases obeys a relation between the state before and the
-- state after: a rule for each way to build an action, for `search`.
pub mod Tables
pub mod Registries
pub mod Steps
pub mod Turns
pub mod Creation
pub mod Retries
pub mod Ends
pub mod Startup
pub mod Calls
pub mod Exclusive
pub mod Follows
pub mod History
pub mod Late
use remote_control_pjt.Prelude.{
  ◌≡◌, refl, inl, inr, Bool, true, false, Option, none, some, String, if◌then◌else◌,
}
use remote_control_pjt.Result.{Error, Result, ok, err}
use remote_control_pjt.Json.{Json}
use remote_control_pjt.States.{JobState, validate_transition}
use remote_control_pjt.Records.{JobRecord, ExecutionLeaseRecord}
use remote_control_pjt.World.{
  World, Action, pure, raise, gets, or_raise, lift, catch, handle, continue, commit, untouched,
  outcome, modify, ◌>>=◌,
}
use remote_control_pjt.World.Commit.{commit-Commits}
use remote_control_pjt.Repositories.Jobs
use remote_control_pjt.Repositories.Leases

-- A relation that every transaction on the two tables obeys, one after the other. A job is stored in
-- its first state; an update keeps the state; a move is one of the transition table.
pub record Guarantee (R : World → World → Type 0) : Type 0 where
  pub transitive : (u v w : World) → R u v → R v w → R u w
  pub elsewhere : (w v : World) → v.jobs ≡ w.jobs → v.leases ≡ w.leases → R w v
  pub stores :
      (job : JobRecord) (event_type : String) (host_id : Option String) (payload : Json) (w : World)
      → job.state ≡ JobState.queued
      → R w (Jobs.add_with_event job event_type host_id payload w).1
  pub updates :
      (job_id : String) (changes : JobRecord → JobRecord) (w : World)
      → ((r : JobRecord) → (changes r).id ≡ r.id)
      → ((r : JobRecord) → (changes r).state ≡ r.state)
      → R w (Jobs.update job_id changes w).1
  pub moves :
      (job_id : String) (expected target : JobState) (changes : JobRecord → JobRecord)
      (event_type : String) (payload : Json) (w : World)
      → validate_transition expected target ≡ ok tt
      → ((r : JobRecord) → (changes r).id ≡ r.id)
      → R w (Jobs.transition_with_event job_id expected target changes event_type payload w).1
  pub assigns :
      (r : ExecutionLeaseRecord) (expected : JobState) (host_id : String) (w : World)
      → validate_transition expected JobState.assigned ≡ ok tt
      → R w (Leases.assign_job r expected host_id w).1
  pub releases : (job_id : String) (w : World) → R w (Leases.delete_for_job job_id w).1
  pub takes : (r : ExecutionLeaseRecord) (w : World) → R w (Leases.add r w).1

module _ {R : World → World → Type 0} (g : Guarantee R) where
  pub record Obeys {A : Type 0} (m : Action A) : Type 0 where
    pub at : (w : World) → R w (m w).1

  pub same : (w : World) → R w w
  same w = g.elsewhere w w refl refl

  pub pure-Obeys : {A : Type 0} (a : A) → Obeys (pure a)
  unfolding pure
  pure-Obeys a = record { at = same }

  pub raise-Obeys : {A : Type 0} (x : Error) → Obeys (raise {A = A} x)
  unfolding raise
  raise-Obeys x = record { at = same }

  pub gets-Obeys : {A : Type 0} (f : World → A) → Obeys (gets f)
  unfolding gets
  gets-Obeys f = record { at = same }

  pub lift-Obeys : {A : Type 0} (r : Result A) → Obeys (lift r)
  unfolding lift
  lift-Obeys r = record { at = same }

  pub or_raise-Obeys : {A : Type 0} (o : Option A) (x : Error) → Obeys (or_raise o x)
  unfolding or_raise raise pure
  or_raise-Obeys none x = record { at = same }
  or_raise-Obeys (some a) x = record { at = same }

  pub if-Obeys :
      {A : Type 0} (b : Bool) {m k : Action A} → Obeys m → Obeys k → Obeys (if b then m else k)
  if-Obeys true hm hk = hm
  if-Obeys false hm hk = hk

  pub option-Obeys :
      {A B : Type 0} (o : Option A) {m : Action B} {f : A → Action B}
      → Obeys m
      → ((a : A) → Obeys (f a))
      → Obeys (elim o [ none ↦ m | some a ↦ f a ])
  option-Obeys none hm hf = hm
  option-Obeys (some a) hm hf = hf a

  pub result-Obeys :
      {A B : Type 0} (r : Result A) {f : A → Action B} {h : Error → Action B}
      → ((a : A) → Obeys (f a))
      → ((x : Error) → Obeys (h x))
      → Obeys (elim r [ ok a ↦ f a | err x ↦ h x ])
  result-Obeys (ok a) hf hh = hf a
  result-Obeys (err x) hf hh = hh x

  continue-Obeys :
      {A B : Type 0} (r : Result A) {f : A → Action B} (w : World)
      → ((a : A) → r ≡ ok a → Obeys (f a))
      → R w (continue r f w).1
  continue-Obeys (ok a) w h = (h a refl).at w
  continue-Obeys (err x) w h = same w

  pub bind-Obeys :
      {A B : Type 0} {m : Action A} {f : A → Action B}
      → Obeys m
      → ((a : A) → Obeys (f a))
      → Obeys (m >>= f)
  unfolding ◌>>=◌
  bind-Obeys {m = m} {f = f} hm hf = record {
    at = λ w.
        g.transitive w (m w).1 (continue (m w).0 f (m w).1).1 (hm.at w)
          (continue-Obeys (m w).0 {f = f} (m w).1 (λ a e. hf a));
  }

  -- What follows a check may rely on it.
  pub check-Obeys :
      {A B : Type 0} (r : Result A) {f : A → Action B}
      → ((a : A) → r ≡ ok a → Obeys (f a))
      → Obeys (lift r >>= f)
  unfolding ◌>>=◌
  check-Obeys r {f} h = record { at = λ w. continue-Obeys r {f = f} w h }

  handle-Obeys :
      {A : Type 0} (r : Result A) {h : Error → Action A} (w : World)
      → ((x : Error) → Obeys (h x))
      → R w (handle r h w).1
  handle-Obeys (ok a) w k = same w
  handle-Obeys (err x) w k = (k x).at w

  pub catch-Obeys :
      {A : Type 0} {m : Action A} {h : Error → Action A}
      → Obeys m
      → ((x : Error) → Obeys (h x))
      → Obeys (catch m h)
  unfolding catch
  catch-Obeys {m = m} {h = h} hm hh = record {
    at = λ w.
        g.transitive w (m w).1 (handle (m w).0 h (m w).1).1 (hm.at w)
          (handle-Obeys (m w).0 {h = h} (m w).1 hh);
  }

  pub outcome-Obeys : {A : Type 0} {m : Action A} → Obeys m → Obeys (outcome m)
  unfolding outcome
  outcome-Obeys hm = record { at = λ w. hm.at w }

  pub modify-Obeys :
      (f : World → World)
      → ((w : World) → (f w).jobs ≡ w.jobs)
      → ((w : World) → (f w).leases ≡ w.leases)
      → Obeys (modify f)
  modify-Obeys f hj hl = record { at = λ w. g.elsewhere w (f w) (hj w) (hl w) }

  -- A transaction on other tables.
  pub commit-Obeys :
      (violated : Bool) (f : World → World)
      → ((w : World) → (f w).jobs ≡ w.jobs)
      → ((w : World) → (f w).leases ≡ w.leases)
      → Obeys (commit violated f)
  commit-Obeys violated f hj hl = record {
    at = λ w. elim (commit-Commits violated f w) [
      | inl (free, e) ↦ rw e (g.elsewhere w (f (untouched w)) (hj (untouched w)) (hl (untouched w)))
      | inr (x, e) ↦ rw e (g.elsewhere w (untouched w) refl refl)
    ];
  }

  pub stores-Obeys :
      (job : JobRecord) (event_type : String) (host_id : Option String) (payload : Json)
      → job.state ≡ JobState.queued
      → Obeys (Jobs.add_with_event job event_type host_id payload)
  stores-Obeys job event_type host_id payload h = record {
    at = λ w. g.stores job event_type host_id payload w h;
  }

  pub updates-Obeys :
      (job_id : String) (changes : JobRecord → JobRecord)
      → ((r : JobRecord) → (changes r).id ≡ r.id)
      → ((r : JobRecord) → (changes r).state ≡ r.state)
      → Obeys (Jobs.update job_id changes)
  updates-Obeys job_id changes hi hs = record { at = λ w. g.updates job_id changes w hi hs }

  pub moves-Obeys :
      (job_id : String) (expected target : JobState) (changes : JobRecord → JobRecord)
      (event_type : String) (payload : Json)
      → validate_transition expected target ≡ ok tt
      → ((r : JobRecord) → (changes r).id ≡ r.id)
      → Obeys (Jobs.transition_with_event job_id expected target changes event_type payload)
  moves-Obeys job_id expected target changes event_type payload v hi = record {
    at = λ w. g.moves job_id expected target changes event_type payload w v hi;
  }

  pub assigns-Obeys :
      (r : ExecutionLeaseRecord) (expected : JobState) (host_id : String)
      → validate_transition expected JobState.assigned ≡ ok tt
      → Obeys (Leases.assign_job r expected host_id)
  assigns-Obeys r expected host_id v = record { at = λ w. g.assigns r expected host_id w v }

  pub releases-Obeys : (job_id : String) → Obeys (Leases.delete_for_job job_id)
  releases-Obeys job_id = record { at = λ w. g.releases job_id w }

  pub takes-Obeys : (r : ExecutionLeaseRecord) → Obeys (Leases.add r)
  takes-Obeys r = record { at = λ w. g.takes r w }

pub ruleset obeys = (
  pure-Obeys, raise-Obeys, gets-Obeys, lift-Obeys, or_raise-Obeys, if-Obeys, option-Obeys,
  result-Obeys, bind-Obeys, catch-Obeys, outcome-Obeys, modify-Obeys, commit-Obeys, refl,
)

-- ===== src/JobManager/Ending.antt =====
-- A job that ends frees its working tree.
use remote_control_pjt.Prelude.{
  ◌==◌, if◌then◌else◌, ◌≡◌, refl, sym, ap, ==-eq, ==-refl, first-holds, ◌∙◌, Option, none, some,
  String, inl, inr, first, string_eq, true, false,
}
use remote_control_pjt.Result.{Result, ok}
use remote_control_pjt.Json.{Json}
use remote_control_pjt.Records.{JobRecord}
use remote_control_pjt.World.{World, pure, when, ◌>>=◌}
use remote_control_pjt.Repositories.Leases.{by_job}
use remote_control_pjt.Repositories.Leases.Invariant.{IsExclusive}
use remote_control_pjt.World.Keeps.{Keeps, pure-Keeps, gets-Keeps, bind-Keeps, commit-Keeps}
use remote_control_pjt.World.Inversion.{bind-ok, lift-ok, or_raise-ok}
use remote_control_pjt.States.{JobState, validate_transition, is_terminal}
use remote_control_pjt.Repositories.Jobs
use remote_control_pjt.JobManager.Lifecycle.{require, release_all, transition}
use remote_control_pjt.JobManager.Release.{leases_of, without, release_all-frees, keeps}

transition_row-Keeps :
    (job_id : String) (expected target : JobState) (changes : JobRecord → JobRecord)
    (event_type : String) (payload : Json) (m : Option JobRecord)
    → Keeps leases_of (Jobs.after_update job_id expected target changes event_type payload m)
unfolding Jobs.after_update
transition_row-Keeps job_id expected target changes event_type payload none = search keeps
transition_row-Keeps job_id expected target changes event_type payload (some row) =
    bind-Keeps leases_of (gets-Keeps leases_of _) λ t.
      bind-Keeps leases_of (commit-Keeps leases_of false (λ w. refl) (λ w. refl))
        λ _. pure-Keeps leases_of _

transition_write-Keeps :
    (job_id : String) (expected target : JobState) (changes : JobRecord → JobRecord)
    (event_type : String) (payload : Json)
    → Keeps leases_of (Jobs.transition_with_event job_id expected target changes event_type payload)
unfolding Jobs.transition_with_event
transition_write-Keeps job_id expected target changes event_type payload =
    bind-Keeps leases_of (gets-Keeps leases_of _)
      λ m. transition_row-Keeps job_id expected target changes event_type payload m

require-ok :
    (job_id : String) {w v : World} {job : JobRecord}
    → require job_id w ≡ (ok job, v)
    → (first (Jobs.by_id job_id) w.jobs ≡ some job) × (w ≡ v)
unfolding ◌>>=◌ require Jobs.get
require-ok job_id {w} e = or_raise-ok (first (Jobs.by_id job_id) w.jobs) _ e

ending-without :
    (job : JobRecord) (v v' : World)
    → IsExclusive v
    → release_all job v ≡ (ok tt, v')
    → (k : String) → first (by_job k) v'.leases ≡ without job.id v k
ending-without job v v' h e k = elim (release_all-frees job v h) [
  | inl gone ↦ ap (λ (p : Result Unit × World). first (by_job k) p.1.leases) (sym e) ∙ gone k
  | inr (deletion, (x, failed), same) ↦ cc (ap (λ (p : Result Unit × World). p.0) e)
]

last_step-without :
    (target : JobState) (job updated : JobRecord) (v v' w' : World) {u : Unit {0}} {j : JobRecord}
    → IsExclusive v
    → when (is_terminal target) (release_all job) v ≡ (ok u, v')
    → pure updated v' ≡ (ok j, w')
    → is_terminal target ≡ true
    → (k : String) → first (by_job k) w'.leases ≡ without job.id v k
unfolding pure
last_step-without target job updated v v' w' h e r ends k =
    ap (λ (p : Result JobRecord × World). first (by_job k) p.1.leases) (sym r)
    ∙ ending-without job v v' h (rw ends at e) k

-- A transition to a terminal state that returns takes the job's lease out of the table, and no other.
pub transition-without :
    (job_id : String) (target : JobState) (changes : JobRecord → JobRecord) (w w' : World)
    {j : JobRecord}
    → IsExclusive w
    → is_terminal target ≡ true
    → transition job_id target changes w ≡ (ok j, w')
    → (job : JobRecord) × (first (Jobs.by_id job_id) w.jobs ≡ some job)
      × (validate_transition job.state target ≡ ok tt)
      × ((k : String) → first (by_job k) w'.leases ≡ without job_id w k)
unfolding transition
transition-without job_id target changes w w' h ends e =
    let (job, v1, e1, r1) = bind-ok _ _ e in
    let (found, at1) = require-ok job_id e1 in
    let (u, v2, e2, r2) = bind-ok _ _ r1 in
    let (valid, at2) = lift-ok _ e2 in
    let (updated, v3, e3, r3) = bind-ok _ _ r2 in
    let (t, v4, e4, r4) = bind-ok _ _ r3 in
    let leases : v3.leases ≡ w.leases =
      ap (λ (p : Result JobRecord × World). p.1.leases) (sym e3)
      ∙ (transition_write-Keeps _ _ _ _ _ _).at v2
      ∙ ap (λ (v : World). v.leases) (sym (at1 ∙ at2)) in
    let named : job.id ≡ job_id =
      ==-eq job.id job_id (first-holds (Jobs.by_id job_id) w.jobs found) in
    (
      job,
      found,
      valid,
      λ k.
          last_step-without target job updated v3 v4 w' (rw leases h) e4 r4 ends k
          ∙ ap (λ ls. if job.id == k then none else first (by_job k) ls) leases
          ∙ ap (λ i. without i w k) named,
    )

-- Where no working tree is leased twice and no job holds two leases, a transition to a terminal
-- state that returns was allowed by the table from the state that the job was
-- in, and it has freed the job's working tree.
pub transition_frees :
    (job_id : String) (target : JobState) (changes : JobRecord → JobRecord) (w w' : World)
    {j : JobRecord}
    → IsExclusive w
    → is_terminal target ≡ true
    → transition job_id target changes w ≡ (ok j, w')
    → (job : JobRecord) × (first (Jobs.by_id job_id) w.jobs ≡ some job)
      × (validate_transition job.state target ≡ ok tt)
      × (first (by_job job_id) w'.leases ≡ none)
transition_frees job_id target changes w w' h ends e =
    let (job, found, valid, gone) = transition-without job_id target changes w w' h ends e in
    (job, found, valid, gone job_id ∙ rw (==-refl job_id) refl)

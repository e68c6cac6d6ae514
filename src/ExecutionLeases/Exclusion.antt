-- ===== src/ExecutionLeases/Exclusion.antt =====
-- What the registry of leases promises: the result does not depend on the audit log, and a working
-- tree that one job holds is not given to another.
use remote_control_pjt.Prelude.{
  ◌≡◌, refl, sym, ap, subst, Bool-cases, ◌∙◌, inl, inr, Bool, true, false, String, Option, some,
  first, ◌==◌, string_eq, if◌then◌else◌, ◌||◌, arith, first-by_key, first-holds, first-any, ==-eq,
}
use remote_control_pjt.Result.{Error, Result, ok, err}
use remote_control_pjt.Json.{Json}
use remote_control_pjt.States.{JobState}
use remote_control_pjt.Records.{EventRecord, ExecutionLeaseRecord}
use remote_control_pjt.World.{◌>>=◌, World, catch, pure, ◌>>◌}
use remote_control_pjt.Repositories.Events.{append}
use remote_control_pjt.Repositories.Events.Retry.{append-frame}
use remote_control_pjt.Repositories.Leases
use remote_control_pjt.Repositories.Leases.{is_taken, by_key, by_job}
use remote_control_pjt.Repositories.Leases.Invariant.{IsExclusive, assign_job-Assigns}
use remote_control_pjt.ExecutionLeases.{event_best_effort, is_refusal, lease_record, assign_job}

-- The result of the repository, with the refusals of the database as a busy working tree.
abbrev pub as_busy : {A : Type 0} → Result A → Result A
as_busy (ok a) = ok a
as_busy (err x) = err (if is_refusal x then Error.execution_lease_busy else x)

swallow-ok :
    (p : Result EventRecord × World)
    → catch {A = Unit {0}} ((λ (w : World). p) >> pure tt) (λ x. pure tt) p.1 ≡ (ok tt, p.1)
unfolding catch ◌>>=◌
swallow-ok (ok e, w) = refl
swallow-ok (err x, w) = refl

-- The audit event may be lost; the code goes on either way.
pub event_best_effort-ok :
    (event_type : String) (job_id project_id host_id : Option String) (payload : Json) (w : World)
    → event_best_effort event_type job_id project_id host_id payload w
      ≡ (ok tt, (append event_type job_id project_id host_id payload w).1)
unfolding ◌>>=◌ event_best_effort
event_best_effort-ok event_type job_id project_id host_id payload w =
    swallow-ok (append event_type job_id project_id host_id payload w)

-- A lease found under one column is the only one under the other: a working tree that some lease
-- of the table holds for another job is not the tree of this job's lease.
held_by_other :
    (w : World) (k job_id : String) (owner lease : ExecutionLeaseRecord)
    → IsExclusive w
    → first (by_key k) w.leases ≡ some owner
    → (owner.job_id == job_id) ≡ false
    → first (by_job job_id) w.leases ≡ some lease
    → (lease.lease_key == k) ≡ false
held_by_other w k job_id owner lease h held other mine = elim (Bool-cases (lease.lease_key == k)) [
  | inr differs ↦ differs
  | inl same ↦
      let found = first-by_key (λ r. r.lease_key) (by_job job_id) w.leases lease h.0 mine in
      let found' : first (by_key k) w.leases ≡ some lease =
        subst (λ j. first (by_key j) w.leases ≡ some lease) (==-eq lease.lease_key k same) found in
      let one : owner ≡ lease = cc in
      let his : (owner.job_id == job_id) ≡ true =
        subst (λ (l : ExecutionLeaseRecord). (l.job_id == job_id) ≡ true) (sym one)
          (first-holds (by_job job_id) w.leases mine) in
      cc
]

not_free : {a : Bool} (b : Bool) → a ≡ true → (a || b) ≡ false → ⊥
not_free b h e = ground arith

true-ne-false : true ≡ false → ⊥
true-ne-false e = cc

module _ (canonical : String → String) (lease_key : String → String → String)
    (job_id project_id host_id working_directory : String) (expected : JobState) (w : World) where
  abbrev asked : ExecutionLeaseRecord
  asked = lease_record canonical lease_key job_id project_id host_id working_directory w.clock

  abbrev Audited : Result ExecutionLeaseRecord × World → Type 0
  Audited (r, w') =
      let (r', w'') =
        assign_job canonical lease_key job_id project_id host_id working_directory expected w in
      (r' ≡ as_busy r) × (w''.leases ≡ w'.leases) × (w''.jobs ≡ w'.jobs)

  assign_job-Audited :
      (p : Result ExecutionLeaseRecord × World)
      → Leases.assign_job asked expected host_id w ≡ p
      → Audited p
  unfolding ◌>>=◌ assign_job Leases.get
  assign_job-Audited (ok stored, w') e =
      rw (e, event_best_effort-ok)
        (
          refl,
          ap (λ (v : World). v.leases) (append-frame _ _ _ _ _ w'),
          ap (λ (v : World). v.jobs) (append-frame _ _ _ _ _ w'),
        )
  assign_job-Audited (err x, w') e = elim (Bool-cases (is_refusal x)) [
    | inl refused ↦ rw (e, refused) (refl, refl, refl)
    | inr other ↦ rw (e, other) (refl, refl, refl)
  ]

  -- The answer of `assign_job` is that of the one transaction, where a refusal by a constraint or a
  -- `ValueError` becomes `ExecutionLeaseBusyError`; what it leaves of the leases and the jobs is what the transaction leaves,
  -- whatever becomes of the audit event.
  pub assign_job-audit :
      let (r, w') = Leases.assign_job asked expected host_id w in
      let (r', w'') =
        assign_job canonical lease_key job_id project_id host_id working_directory expected w in
      (r' ≡ as_busy r) × (w''.leases ≡ w'.leases) × (w''.jobs ≡ w'.jobs)
  assign_job-audit = assign_job-Audited (Leases.assign_job asked expected host_id w) refl

  -- In a table in which no working tree is leased twice and no job holds two leases, a working tree
  -- that another job holds is not given to the job: `assign_job` raises, and neither the leases nor
  -- the jobs have changed.
  pub assign_job_excludes :
      (owner : ExecutionLeaseRecord)
      → IsExclusive w
      → first (by_key (lease_key host_id (canonical working_directory))) w.leases ≡ some owner
      → (owner.job_id == job_id) ≡ false
      → let (r, w') =
          assign_job canonical lease_key job_id project_id host_id working_directory expected w in
        ((x : Error) × (r ≡ err x)) × (w'.leases ≡ w.leases) × (w'.jobs ≡ w.jobs)
  assign_job_excludes owner h held other =
      let (answer, leases, jobs) = assign_job-audit in
      elim (assign_job-Assigns asked expected host_id w) [
        | inl (x, failed, same) ↦ (
          (_, answer ∙ ap as_busy failed),
          leases ∙ ap (λ (v : World). v.leases) same,
          jobs ∙ ap (λ (v : World). v.jobs) same,
        )
        | inr (job, lease, found, there, done, inl (free, new, same)) ↦
            absurd (not_free _ (first-any _ w.leases held) free)
        | inr (job, lease, found, there, done, inr (mine, own, same)) ↦
            absurd
              (true-ne-false (sym own ∙ held_by_other w _ job_id owner lease h held other mine))
      ]

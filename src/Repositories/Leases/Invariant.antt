-- ===== src/Repositories/Leases/Invariant.antt =====
-- No working tree is leased twice and no job holds two leases, in every reachable database.
use remote_control_pjt.Prelude.{
  ◌≡◌, refl, sym, ap, ◌∙◌, ◌⊎◌, inl, inr, Bool, true, false, ◌||◌, String, Option, none, some, List,
  [], ◌∷◌, map, first, remove, Distinct, Distinct-append, Distinct-remove, any-contains, map-snoc,
  ◌==◌, string_eq, Bool-cases, Option-cases, arith, if◌then◌else◌,
}
use remote_control_pjt.Result.{Error, Result, ok, err}
use remote_control_pjt.States.{JobState, state_eq}
use remote_control_pjt.Records.{JobRecord, ExecutionLeaseRecord}
use remote_control_pjt.World.{◌>>=◌, World, Same, untouched}
use remote_control_pjt.Repositories.Jobs
use remote_control_pjt.World.Commit.{commit-Commits}
use remote_control_pjt.Repositories.Leases.{
  add, assign_job, finish_assign, delete_for_job, is_taken, with_lease, with_assignment, by_job,
}

-- Both columns that the table declares unique hold no value twice.
abbrev pub IsExclusive : World → Type 0
IsExclusive w = Distinct (map (λ r. r.lease_key) w.leases) × Distinct (map (λ r. r.job_id) w.leases)

or_false : (a b : Bool) → (a || b) ≡ false → (a ≡ false) × (b ≡ false)
or_false a b h = ground arith

with_lease-IsExclusive :
    (r : ExecutionLeaseRecord) (w : World)
    → is_taken r w ≡ false
    → IsExclusive w
    → IsExclusive (with_lease r w)
with_lease-IsExclusive r w free h =
    let (no_key, no_job) = or_false _ _ free in
    (
      rw (map-snoc (λ r. r.lease_key) w.leases r) (
          Distinct-append _ _ h.0
            (sym (any-contains (λ r. r.lease_key) r.lease_key w.leases) ∙ no_key)),
      rw (map-snoc (λ r. r.job_id) w.leases r)
          (Distinct-append _ _ h.1 (sym (any-contains (λ r. r.job_id) r.job_id w.leases) ∙ no_job)),
    )

pub add-IsExclusive :
    (r : ExecutionLeaseRecord) (w : World) → IsExclusive w → IsExclusive (add r w).1
unfolding ◌>>=◌ add
add-IsExclusive r w h = elim (commit-Commits (is_taken r w) (with_lease r) w) [
  | inl (free, e) ↦ rw e (with_lease-IsExclusive r (untouched w) free h)
  | inr (x, e) ↦ rw e h
]

-- An assignment has failed and written nothing, or it has read the job in the expected state, and
-- written its move together with a lease that nobody held, or under the lease that the job holds.
abbrev pub Assigns :
    ExecutionLeaseRecord → JobState → String → Result ExecutionLeaseRecord × World → World → Type 0
Assigns r expected host (res, w') w =
    ((x : Error) × (res ≡ err x) × Same w' w)
    ⊎ ((job : JobRecord) × (lease : ExecutionLeaseRecord) × (first (Jobs.by_id r.job_id) w.jobs
          ≡ some job)
        × ((job.state == expected) ≡ true)
        × (res ≡ ok lease)
        × (((is_taken r w ≡ false)
              × (lease ≡ r)
              × Same w' (with_assignment r.job_id expected host job w.clock (with_lease r w)))
            ⊎ ((first (by_job r.job_id) w.leases ≡ some lease)
                × ((lease.lease_key == r.lease_key) ≡ true)
                × Same w' (with_assignment r.job_id expected host job w.clock w))))

module _ (r : ExecutionLeaseRecord) (expected : JobState) (host : String) (w : World) where
  finish_assign-Assigns :
      (job : JobRecord) (lease : Option ExecutionLeaseRecord)
      → first (Jobs.by_id r.job_id) w.jobs ≡ some job
      → (job.state == expected) ≡ true
      → first (by_job r.job_id) w.leases ≡ lease
      → Assigns r expected host (finish_assign r expected host job lease w) w
  unfolding ◌>>=◌ finish_assign
  finish_assign-Assigns job none found there e =
      elim (commit-Commits (is_taken r w)
        (λ v. with_assignment r.job_id expected host job w.clock (with_lease r v)) w) [
          | inl (free, c) ↦ rw c (inr (job, r, found, there, refl, inl (free, refl, refl)))
          | inr (x, c) ↦ rw c (inl (x, refl, refl))
        ]
  finish_assign-Assigns job (some lease) found there e =
      elim (Bool-cases (lease.lease_key == r.lease_key)) [
        | inr other ↦ rw (other, if◌then◌else◌) (inl (Error.value_error, refl, refl))
        | inl own ↦
            elim (commit-Commits false (with_assignment r.job_id expected host job w.clock) w) [
              | inl (free, c) ↦
                  rw (own, c) (inr (job, lease, found, there, refl, inr (e, own, refl)))
              | inr (x, c) ↦ rw (own, c) (inl (x, refl, refl))
            ]
      ]

  -- The run of `assign_job` on a job that is in the expected state.
  assign_job-there :
      (job : JobRecord)
      → first (Jobs.by_id r.job_id) w.jobs ≡ some job
      → (job.state == expected) ≡ true
      → assign_job r expected host w
        ≡ finish_assign r expected host job (first (by_job r.job_id) w.leases) w
  unfolding ◌>>=◌ assign_job
  assign_job-there job found there = rw (found, there) refl

  assign_job-elsewhere :
      (job : JobRecord)
      → first (Jobs.by_id r.job_id) w.jobs ≡ some job
      → (job.state == expected) ≡ false
      → assign_job r expected host w ≡ (err Error.runtime_error, w)
  unfolding ◌>>=◌ assign_job
  assign_job-elsewhere job found moved = rw (found, moved) refl

  assign_job-missing :
      first (Jobs.by_id r.job_id) w.jobs ≡ none
      → assign_job r expected host w ≡ (err Error.key_error, w)
  unfolding ◌>>=◌ assign_job
  assign_job-missing missing = rw missing refl

  -- `assign_job` has raised and written nothing, or it has found the job in the expected state and
  -- written the job's move to `assigned` together with a lease whose tree and job had none, or
  -- written the move alone where the job holds a lease of this tree already.
  pub assign_job-Assigns : Assigns r expected host (assign_job r expected host w) w
  assign_job-Assigns = elim (Option-cases (first (Jobs.by_id r.job_id) w.jobs)) [
    | inl missing ↦ rw (assign_job-missing missing) (inl (Error.key_error, refl, refl))
    | inr (job, found) ↦ elim (Bool-cases (job.state == expected)) [
      | inr moved ↦
          rw (assign_job-elsewhere job found moved) (inl (Error.runtime_error, refl, refl))
      | inl there ↦
          rw (assign_job-there job found there)
            (finish_assign-Assigns job (first (by_job r.job_id) w.leases) found there refl)
    ]
  ]

  pub assign_job-IsExclusive : IsExclusive w → IsExclusive (assign_job r expected host w).1
  assign_job-IsExclusive h = elim assign_job-Assigns [
    | inl (x, e, same) ↦ rw (ap (λ (v : World). v.leases) same) h
    | inr (job, lease, found, there, e, inl (free, new, same)) ↦
        rw (ap (λ (v : World). v.leases) same) (with_lease-IsExclusive r w free h)
    | inr (job, lease, found, there, e, inr (held, own, same)) ↦
        rw (ap (λ (v : World). v.leases) same) h
  ]

pub delete_for_job-IsExclusive :
    (job_id : String) (w : World) → IsExclusive w → IsExclusive (delete_for_job job_id w).1
unfolding ◌>>=◌ delete_for_job
delete_for_job-IsExclusive job_id w h = elim (Option-cases (first (by_job job_id) w.leases)) [
  | inl nobody ↦ rw nobody h
  | inr (r, held) ↦
      elim (commit-Commits false (λ v. record v { leases = remove (by_job job_id) v.leases }) w) [
        | inl (free, c) ↦
            rw (held, c)
              (
                Distinct-remove (λ r. r.lease_key) (by_job job_id) w.leases h.0,
                Distinct-remove (λ r. r.job_id) (by_job job_id) w.leases h.1,
              )
        | inr (x, c) ↦ rw (held, c) h
      ]
]

-- The transactions of the lease table, as the tasks of the controller send them in any order.
pub data LeaseCall : Type 0 where
  adds : ExecutionLeaseRecord → LeaseCall
  assigns : ExecutionLeaseRecord → JobState → String → LeaseCall
  deletes : String → LeaseCall

pub run_call : LeaseCall → World → World
run_call (adds r) w = (add r w).1
run_call (assigns r expected host) w = (assign_job r expected host w).1
run_call (deletes job_id) w = (delete_for_job job_id w).1

pub run_calls : List LeaseCall → World → World
run_calls [] w = w
run_calls (c ∷ cs) w = run_calls cs (run_call c w)

run_call-IsExclusive : (c : LeaseCall) (w : World) → IsExclusive w → IsExclusive (run_call c w)
unfolding ◌>>=◌ run_call
run_call-IsExclusive (adds r) w h = add-IsExclusive r w h
run_call-IsExclusive (assigns r expected host) w h = assign_job-IsExclusive r expected host w h
run_call-IsExclusive (deletes job_id) w h = delete_for_job-IsExclusive job_id w h

-- From a table in which no working tree is leased twice and no job holds two leases, whatever
-- transactions the tasks send, in whatever order, and whatever the database answers to each, no
-- working tree is leased twice and no job holds two leases.
pub run_calls-IsExclusive :
    (cs : List LeaseCall) (w : World) → IsExclusive w → IsExclusive (run_calls cs w)
unfolding ◌>>=◌ run_calls
run_calls-IsExclusive [] w h = h
run_calls-IsExclusive (c ∷ cs) w h =
    run_calls-IsExclusive cs (run_call c w) (run_call-IsExclusive c w h)

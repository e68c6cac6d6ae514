-- ===== src/Guarantee/Exclusive.antt =====
-- No working tree is leased twice and no job holds two leases, through the calls of `ManagerCall`.
use remote_control_pjt.Prelude.{
  ◌≡◌, sym, ap, subst, ◌∙◌, inl, inr, true, false, first, first-holds, first-by_key, Bool-cases,
  Option-cases, ◌==◌, ==-eq, ==-sym, String, Option, none, some, List, string_eq,
}
use remote_control_pjt.World.{World, Action}
use remote_control_pjt.World.Keeps.{Keeps, commit-Keeps}
use remote_control_pjt.Json.{Json}
use remote_control_pjt.Result.{Result, ok}
use remote_control_pjt.Records.{JobRecord, ExecutionLeaseRecord}
use remote_control_pjt.States.{JobState, is_terminal}
use remote_control_pjt.Repositories.Jobs
use remote_control_pjt.Repositories.Leases.Invariant.{
  IsExclusive, assign_job-IsExclusive, delete_for_job-IsExclusive, add-IsExclusive,
}
use remote_control_pjt.JobManager.Config.{Config}
use remote_control_pjt.JobManager.Release.{without, leases_of, keeps}
use remote_control_pjt.JobManager.Lifecycle.{transition}
use remote_control_pjt.JobManager.Ending.{transition-without}
use remote_control_pjt.Repositories.Leases.{by_job, by_key}
use remote_control_pjt.Guarantee.Steps.{transition-Obeys}
use remote_control_pjt.Guarantee.{Guarantee}
use remote_control_pjt.Guarantee.Calls.{ManagerCall, run_calls, run_calls-Obeys}

store_job-Keeps :
    (job : JobRecord) (t : String) (h : Option String) (payload : Json)
    → Keeps leases_of (Jobs.add_with_event job t h payload)
unfolding Jobs.add_with_event
store_job-Keeps job t h payload = search (keeps, commit-Keeps) depth 8

update_job-Keeps : (j : String) (f : JobRecord → JobRecord) → Keeps leases_of (Jobs.update j f)
unfolding Jobs.update
update_job-Keeps j f = search (keeps, commit-Keeps) depth 8

after_update-Keeps :
    (j : String) (s t : JobState) (f : JobRecord → JobRecord) (e : String) (payload : Json)
    (o : Option JobRecord)
    → Keeps leases_of (Jobs.after_update j s t f e payload o)
unfolding Jobs.after_update
after_update-Keeps j s t f e payload none = search keeps
after_update-Keeps j s t f e payload (some r) = search (keeps, commit-Keeps) depth 8

move_job-Keeps :
    (j : String) (s t : JobState) (f : JobRecord → JobRecord) (e : String) (payload : Json)
    → Keeps leases_of (Jobs.transition_with_event j s t f e payload)
unfolding Jobs.transition_with_event
move_job-Keeps j s t f e payload = search (keeps, after_update-Keeps) depth 8

abbrev StaysExclusive : World → World → Type 0
StaysExclusive w v = IsExclusive w → IsExclusive v

-- The same leases are as exclusive as they were.
Keeps-StaysExclusive :
    {A : Type 0} (m : Action A) (w : World) → Keeps leases_of m → StaysExclusive w (m w).1
Keeps-StaysExclusive m w k h = rw (k.at w) h

exclusive : Guarantee StaysExclusive
exclusive = record {
  transitive = λ u v w f k h. k (f h);
  elsewhere = λ w v ej el h. rw el h;
  stores = λ job t h payload w fresh.
      Keeps-StaysExclusive (Jobs.add_with_event job t h payload) w
        (store_job-Keeps job t h payload);
  updates = λ j f w hi hs. Keeps-StaysExclusive (Jobs.update j f) w (update_job-Keeps j f);
  moves = λ j s t f e payload w v hi.
      Keeps-StaysExclusive (Jobs.transition_with_event j s t f e payload) w
        (move_job-Keeps j s t f e payload);
  assigns = λ r s h w v. assign_job-IsExclusive r s h w;
  releases = λ j w. delete_for_job-IsExclusive j w;
  takes = λ r w. add-IsExclusive r w;
}

manager_calls-IsExclusive :
    (c : Config) (ks : List ManagerCall) (w : World)
    → IsExclusive w
    → IsExclusive (run_calls c ks w)
manager_calls-IsExclusive c ks w = run_calls-Obeys c exclusive ks w

-- Where only the lease of one job has gone, and two tables are exclusive, no lease is left of the tree
-- that the job held.
tree_free :
    (job_id : String) (w w' : World) (lease : ExecutionLeaseRecord)
    → IsExclusive w
    → IsExclusive w'
    → first (by_job job_id) w.leases ≡ some lease
    → ((k : String) → first (by_job k) w'.leases ≡ without job_id w k)
    → first (by_key lease.lease_key) w'.leases ≡ none
tree_free job_id w w' lease h h' held gone =
    elim (Option-cases (first (by_key lease.lease_key) w'.leases)) [
      | inl free ↦ free
      | inr (l, left) ↦
          let there : without job_id w l.job_id ≡ some l =
            sym (gone l.job_id)
            ∙ first-by_key (λ r. r.job_id) (by_key lease.lease_key) w'.leases l h'.1 left in
          absurd (elim (Bool-cases (job_id == l.job_id)) [
            | inl same ↦ none-ne-some l (rw same at there)
            | inr other ↦ other_holds l left (rw other at there) other
          ])
    ]
  where
    none-ne-some : (l : ExecutionLeaseRecord) → none ≡ some l → ⊥
    none-ne-some l e = cc

    true-ne-false : true ≡ false → ⊥
    true-ne-false e = cc

    other_holds :
        (l : ExecutionLeaseRecord)
        → first (by_key lease.lease_key) w'.leases ≡ some l
        → first (by_job l.job_id) w.leases ≡ some l
        → (job_id == l.job_id) ≡ false
        → ⊥
    other_holds l left mine other =
        let key : l.lease_key ≡ lease.lease_key =
          ==-eq l.lease_key lease.lease_key (first-holds (by_key lease.lease_key) w'.leases left) in
        let of_job = first-by_key (λ r. r.lease_key) (by_job l.job_id) w.leases l h.0 mine in
        let of_lease = first-by_key (λ r. r.lease_key) (by_job job_id) w.leases lease h.0 held in
        let of_key = subst (λ k. first (by_key k) w.leases ≡ some l) key of_job in
        let one : l ≡ lease = cc in
        let name : (lease.job_id == job_id) ≡ true = first-holds (by_job job_id) w.leases held in
        true-ne-false (
          sym name
          ∙ ==-sym lease.job_id job_id
          ∙ ap (λ (r : ExecutionLeaseRecord). job_id == r.job_id) (sym one)
          ∙ other)

-- From a table in which no working tree is leased twice and no job holds two leases, and whatever
-- calls of `ManagerCall` have been made since, each run to its end: once a transition to a terminal
-- state, whose changes keep the job's identifier, has returned, no lease at all is left of the working tree that the job has held.
pub ended_tree_is_free :
    (c : Config) (ks : List ManagerCall) (w w' : World) (job_id : String) (target : JobState)
    (changes : JobRecord → JobRecord) (lease : ExecutionLeaseRecord) {j : JobRecord}
    → IsExclusive w
    → is_terminal target ≡ true
    → ((r : JobRecord) → (changes r).id ≡ r.id)
    → first (by_job job_id) (run_calls c ks w).leases ≡ some lease
    → transition job_id target changes (run_calls c ks w) ≡ (ok j, w')
    → first (by_key lease.lease_key) w'.leases ≡ none
ended_tree_is_free c ks w w' job_id target changes lease h ends same_id held e =
    let v = run_calls c ks w in
    let before = manager_calls-IsExclusive c ks w h in
    let after : IsExclusive w' =
      subst IsExclusive (ap (λ (p : Result JobRecord × World). p.1) e)
        ((transition-Obeys exclusive job_id target changes same_id).at v before) in
    let (job, found, valid, gone) = transition-without job_id target changes v w' before ends e in
    tree_free job_id v w' lease before after held gone

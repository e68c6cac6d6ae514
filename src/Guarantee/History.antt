-- ===== src/Guarantee/History.antt =====
-- Every job's state goes along the transition table, through the calls of `ManagerCall`.
use remote_control_pjt.Prelude.{
  ◌≡◌, refl, sym, ap, subst, ◌∙◌, inl, inr, String, Option, none, some, List, [], ◌∷◌, ◌++◌, any,
  string_eq, Option-cases, Bool, true, false, first, change, ◌&&◌, ◌==◌, ==-eq, arith, first-holds,
}
use remote_control_pjt.Result.{ok}
use remote_control_pjt.Json.{Json}
use remote_control_pjt.World.{World, ◌>>=◌}
use remote_control_pjt.World.Keeps.{
  Keeps, bind-Keeps, gets-Keeps, option-Keeps, pure-Keeps, commit-Keeps,
}
use remote_control_pjt.World.Commit.{commit-Commits}
use remote_control_pjt.Records.{JobRecord, ExecutionLeaseRecord}
use remote_control_pjt.States.{JobState, queued, state_eq, is_terminal, validate_transition}
use remote_control_pjt.States.Graph.{follow, follow-cons}
use remote_control_pjt.Repositories.Jobs
use remote_control_pjt.Repositories.Events.{with_event}
use remote_control_pjt.Repositories.Jobs.{by_id, in_state, moved, job_event}
use remote_control_pjt.Repositories.Leases
use remote_control_pjt.Repositories.Leases.Invariant.{assign_job-Assigns}
use remote_control_pjt.JobManager.Config.{Config}
use remote_control_pjt.Guarantee.{Guarantee}
use remote_control_pjt.Guarantee.Calls.{ManagerCall, run_calls, run_calls-Obeys}
use remote_control_pjt.Guarantee.Follows.{
  Follows, Evolves, state_of, Follows-trans, add-Evolves, change-Evolves, kept-Evolves,
  same-Evolves,
}

stores-Evolves :
    (job : JobRecord) (t : String) (h : Option String) (payload : Json) (w : World)
    → job.state ≡ queued
    → Evolves w.jobs (Jobs.add_with_event job t h payload w).1.jobs
unfolding ◌>>=◌ Jobs.add_with_event
stores-Evolves job t h payload w fresh =
    elim (commit-Commits (any (by_id job.id) w.jobs)
      (λ v. with_event (job_event job t h payload w.clock) (record v { jobs = v.jobs ++ job ∷ [] }))
      w) [
        | inl (free, e) ↦ rw e (add-Evolves job w.jobs fresh)
        | inr (x, e) ↦ rw e (kept-Evolves w.jobs)
      ]

updates-Evolves :
    (j : String) (f : JobRecord → JobRecord) (w : World)
    → ((r : JobRecord) → (f r).id ≡ r.id)
    → ((r : JobRecord) → (f r).state ≡ r.state)
    → Evolves w.jobs (Jobs.update j f w).1.jobs
unfolding ◌>>=◌ Jobs.update
updates-Evolves j f w hi hs = elim (Option-cases (first (by_id j) w.jobs)) [
  | inl missing ↦ rw missing (kept-Evolves w.jobs)
  | inr (row, found) ↦
      elim (commit-Commits false (λ v. record v { jobs = change (by_id j) f v.jobs }) w) [
        | inl (free, e) ↦
            rw (found, e) (change-Evolves (by_id j) f w.jobs hi (λ k r seen hit. inl (hs r)))
        | inr (x, e) ↦ rw (found, e) (kept-Evolves w.jobs)
      ]
]

and_right : (a b : Bool) → (a && b) ≡ true → b ≡ true
and_right a b h = ground arith

in_state-eq : (j : String) (s : JobState) (r : JobRecord) → in_state j s r ≡ true → r.state ≡ s
in_state-eq j s r h = ==-eq r.state s (and_right _ _ h)

moves-Evolves :
    (j : String) (s t : JobState) (f : JobRecord → JobRecord) (e : String) (payload : Json)
    (w : World)
    → validate_transition s t ≡ ok tt
    → ((r : JobRecord) → (f r).id ≡ r.id)
    → Evolves w.jobs (Jobs.transition_with_event j s t f e payload w).1.jobs
unfolding ◌>>=◌ Jobs.transition_with_event Jobs.after_update
moves-Evolves j s t f e payload w valid hi = elim (Option-cases (first (in_state j s) w.jobs)) [
  | inl missing ↦ elim (Option-cases (first (by_id j) w.jobs)) [
    | inl unknown ↦ rw (missing, unknown) (kept-Evolves w.jobs)
    | inr (row, found) ↦ rw (missing, found) (kept-Evolves w.jobs)
  ]
  | inr (row, found) ↦
      elim (commit-Commits false
        (λ v.
          with_event
            (job_event (moved j s t f row) e (moved j s t f row).assigned_host payload w.clock)
            (record v { jobs = change (in_state j s) (moved j s t f) v.jobs }))
        w) [
          | inl (free, c) ↦
              rw (found, c)
                (change-Evolves (in_state j s) (moved j s t f) w.jobs hi
                  (λ k r seen hit. inr (rw (in_state-eq j s r hit) valid)))
          | inr (x, c) ↦ rw (found, c) (kept-Evolves w.jobs)
        ]
]

same_row :
    (j k : String) (rs : List JobRecord) (r job : JobRecord)
    → first (by_id k) rs ≡ some r
    → by_id j r ≡ true
    → first (by_id j) rs ≡ some job
    → r ≡ job
same_row j k rs r job seen hit found =
    let same : k ≡ j = sym (==-eq r.id k (first-holds (by_id k) rs seen)) ∙ ==-eq r.id j hit in
    let row = subst (λ i. first (by_id i) rs ≡ some r) same seen in cc

assigns-Evolves :
    (r : ExecutionLeaseRecord) (s : JobState) (h : String) (w : World)
    → validate_transition s JobState.assigned ≡ ok tt
    → Evolves w.jobs (Leases.assign_job r s h w).1.jobs
assigns-Evolves r s h w valid = elim (assign_job-Assigns r s h w) [
  | inl (x, e, same) ↦ same-Evolves w.jobs _ (ap (λ (v : World). v.jobs) same)
  | inr (job, lease, found, there, e, inl (free, new, same)) ↦
      rw (ap (λ (v : World). v.jobs) same) (assigned-Evolves job found there)
  | inr (job, lease, found, there, e, inr (held, own, same)) ↦
      rw (ap (λ (v : World). v.jobs) same) (assigned-Evolves job found there)
]
  where
    assigned-Evolves :
        (job : JobRecord)
        → first (by_id r.job_id) w.jobs ≡ some job
        → (job.state == s) ≡ true
        → Evolves w.jobs (
            change
              (by_id r.job_id)
              (λ x. record x { assigned_host = some h; state = JobState.assigned })
              w.jobs)
    assigned-Evolves job found there =
        change-Evolves (by_id r.job_id) _ w.jobs (λ x. refl)
          (λ k x seen hit.
            inr
              (rw (same_row r.job_id k w.jobs x job seen hit found, ==-eq job.state s there) valid))

abbrev jobs_of : World → List JobRecord
jobs_of w = w.jobs

-- The jobs after a deletion of a lease.
deletes-Keeps : (j : String) → Keeps jobs_of (Leases.delete_for_job j)
unfolding Leases.delete_for_job
deletes-Keeps j = bind-Keeps jobs_of (gets-Keeps jobs_of _) λ o.
    option-Keeps jobs_of o (pure-Keeps jobs_of tt)
      λ r. commit-Keeps jobs_of false (λ w. refl) (λ w. refl)

takes-Keeps : (r : ExecutionLeaseRecord) → Keeps jobs_of (Leases.add r)
unfolding Leases.add
takes-Keeps r = bind-Keeps jobs_of (gets-Keeps jobs_of _) λ taken.
    bind-Keeps jobs_of (commit-Keeps jobs_of taken (λ w. refl) (λ w. refl))
      λ u. pure-Keeps jobs_of r

history : Guarantee (λ w v. Evolves w.jobs v.jobs)
history = record {
  transitive = λ u v w f h k. Follows-trans _ (first (by_id k) v.jobs) _ (f k) (h k);
  elsewhere = λ w v ej el. same-Evolves w.jobs v.jobs ej;
  stores = stores-Evolves;
  updates = updates-Evolves;
  moves = moves-Evolves;
  assigns = assigns-Evolves;
  takes = λ r w. same-Evolves w.jobs _ ((takes-Keeps r).at w);
  releases = λ j w. same-Evolves w.jobs _ ((deletes-Keeps j).at w);
}

-- Whatever calls of `ManagerCall` are made, each run to its end before the next one, in whatever
-- order, no job leaves the table, and the transition table has a path from each job's state to its later one, or from `queued` for a
-- job that the calls have created.
pub manager_calls-Follows :
    (c : Config) (ks : List ManagerCall) (w : World) (job_id : String)
    → Follows (first (by_id job_id) w.jobs) (first (by_id job_id) (run_calls c ks w).jobs)
manager_calls-Follows c ks w job_id = run_calls-Obeys c history ks w job_id

follow-terminal :
    (s t : JobState) (ts : List JobState) → is_terminal s ≡ true → follow s ts ≡ ok t → t ≡ s
unfolding follow validate_transition
follow-terminal s t [] h e = ground arith
follow-terminal s t (u ∷ ts) h e = ground (arith, (follow-cons s u ts e).0)

ended :
    (old new : Option JobRecord) (job : JobRecord)
    → old ≡ some job
    → is_terminal job.state ≡ true
    → Follows old new
    → (later : JobRecord) × (new ≡ some later) × (later.state ≡ job.state)
ended old none job e h f = cc
ended old (some later) job e h (ts, f) = (
  later,
  refl,
  follow-terminal job.state later.state ts h
      (subst (λ o. follow (state_of o) ts ≡ ok later.state) e f),
)

-- A job that has ended stays in the table in the state in which it has ended, whatever calls of
-- `ManagerCall` are made afterwards, each run to its end before the next one, in whatever order.
pub ended_job_stays :
    (c : Config) (ks : List ManagerCall) (w : World) (job_id : String) (job : JobRecord)
    → first (by_id job_id) w.jobs ≡ some job
    → is_terminal job.state ≡ true
    → (later : JobRecord) × (first (by_id job_id) (run_calls c ks w).jobs ≡ some later)
      × (later.state ≡ job.state)
ended_job_stays c ks w job_id job found over =
    ended _ _ job found over (manager_calls-Follows c ks w job_id)

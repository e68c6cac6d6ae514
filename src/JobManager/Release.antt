-- ===== src/JobManager/Release.antt =====
-- What a job that ends gives back.
use remote_control_pjt.Prelude.{
  ◌≡◌, refl, ap, ◌∙◌, Option, none, some, String, inl, inr, first, ◌==◌, if◌then◌else◌, ==-eq,
  subst, Bool-cases, string_eq, false, ◌⊎◌, remove, first-remove, first-remove_other, has_key_ne,
  Option-cases, List,
}
use remote_control_pjt.Result.{Error, Result, ok, err}
use remote_control_pjt.Json.{Json}
use remote_control_pjt.Records.{ExecutionLeaseRecord, JobRecord, ProjectSessionRecord}
use remote_control_pjt.World.{World, Action, ◌>>=◌, ◌>>◌}
use remote_control_pjt.World.Commit.{commit-Commits}
use remote_control_pjt.Repositories.Leases
use remote_control_pjt.Repositories.Leases.{by_job}
use remote_control_pjt.Repositories.Leases.Invariant.{IsExclusive}
use remote_control_pjt.World.Keeps.{
  Keeps, pure-Keeps, raise-Keeps, gets-Keeps, lift-Keeps, or_raise-Keeps, if-Keeps, option-Keeps,
  bind-Keeps, catch-Keeps, commit-Keeps,
}
use remote_control_pjt.Repositories.Events.{append}
use remote_control_pjt.Repositories.Events.Retry.{append-frame}
use remote_control_pjt.Repositories.ProjectSessions as Repository
use remote_control_pjt.ProjectSessions
use remote_control_pjt.ExecutionLeases
use remote_control_pjt.JobManager.Lifecycle.{release_all, attempt, re_raise, first_error}
use remote_control_pjt.ExecutionLeases.Exclusion.{event_best_effort-ok}

-- The table of leases, as the part of the database that an action may keep.
abbrev pub leases_of : World → List ExecutionLeaseRecord
leases_of w = w.leases

pub append-Keeps :
    (t : String) (j p h : Option String) (payload : Json) → Keeps leases_of (append t j p h payload)
append-Keeps t j p h payload = record {
  at = λ w. ap (λ (v : World). v.leases) (append-frame t j p h payload w);
}

pub ruleset keeps = (
  pure-Keeps, raise-Keeps, gets-Keeps, lift-Keeps, or_raise-Keeps, if-Keeps, option-Keeps,
  bind-Keeps, catch-Keeps, append-Keeps,
)

update-Keeps :
    (id : String) (changes : ProjectSessionRecord → ProjectSessionRecord)
    → Keeps leases_of (Repository.update id changes)
unfolding Repository.update
update-Keeps id changes = bind-Keeps leases_of (gets-Keeps leases_of _) λ o.
    bind-Keeps leases_of (or_raise-Keeps leases_of o _) λ r.
      bind-Keeps leases_of (commit-Keeps leases_of false (λ w. refl) (λ w. refl))
        (λ _. pure-Keeps leases_of _)

release_held-Keeps :
    (p u j : String) (r : ProjectSessionRecord)
    → Keeps leases_of (ProjectSessions.release_held p u j r)
unfolding ProjectSessions.release_held
release_held-Keeps p u j r = search (keeps, update-Keeps)

-- Giving the project session back does not touch the leases.
release_session-Keeps : (p u j : String) → Keeps leases_of (ProjectSessions.release_for_job p u j)
unfolding ProjectSessions.release_for_job Repository.active_for
release_session-Keeps p u j = bind-Keeps leases_of (gets-Keeps leases_of _) λ found.
    option-Keeps leases_of found (pure-Keeps leases_of none) λ r. release_held-Keeps p u j r

-- What a table without the job's lease says of each job.
abbrev pub without : String → World → String → Option ExecutionLeaseRecord
without job_id w k = if job_id == k then none else first (by_job k) w.leases

-- A release gives back the lease of the job and no other, or the deletion of the lease raises, the
-- release raises the same, and gives back none.
abbrev pub Releases : String → Result (Unit {0}) × World → World → Type 0
Releases job_id (r, w') w =
    ((r ≡ ok tt) × ((k : String) → first (by_job k) w'.leases ≡ without job_id w k))
    ⊎ ((x : Error) × (r ≡ err x)
        × ((Leases.delete_for_job job_id w).0 ≡ err x)
        × (w'.leases ≡ w.leases))

nobody-without :
    (job_id : String) (w : World)
    → first (by_job job_id) w.leases ≡ none
    → (k : String) → first (by_job k) w.leases ≡ without job_id w k
nobody-without job_id w nobody k = elim (Bool-cases (job_id == k)) [
  | inl same ↦ rw same (subst (λ l. first (by_job l) w.leases ≡ none) (==-eq job_id k same) nobody)
  | inr other ↦ rw other refl
]

remove-without :
    (job_id : String) (w : World)
    → IsExclusive w
    → (k : String) → first (by_job k) (remove (by_job job_id) w.leases) ≡ without job_id w k
remove-without job_id w h k = elim (Bool-cases (job_id == k)) [
  | inl same ↦ rw same (
      subst (λ l. first (by_job l) (remove (by_job job_id) w.leases) ≡ none) (==-eq job_id k same)
        (first-remove (λ r. r.job_id) job_id w.leases h.1))
  | inr other ↦ rw other (
      first-remove_other (by_job job_id) (by_job k) w.leases
        (λ l e. has_key_ne (λ r. r.job_id) job_id k l other e))
]

-- The deletion of a lease, before its audit event.
delete-Releases :
    (job_id : String) (w : World)
    → IsExclusive w
    → Releases job_id (Leases.delete_for_job job_id w) w
unfolding ◌>>=◌ Leases.delete_for_job
delete-Releases job_id w h = elim (Option-cases (first (by_job job_id) w.leases)) [
  | inl nobody ↦ rw nobody (inl (refl, nobody-without job_id w nobody))
  | inr (r, held) ↦
      elim (commit-Commits false (λ v. record v { leases = remove (by_job job_id) v.leases }) w) [
        | inl (free, c) ↦ rw (held, c) (inl (refl, remove-without job_id w h))
        | inr (x, c) ↦ rw (held, c) (inr (x, refl, refl, refl))
      ]
]

-- The audit event after a deletion neither adds nor removes a lease.
after_delete-Releases :
    (job_id : String) (w : World) (p : Result (Unit {0}) × World) (t : String)
    (j q h : Option String) (payload : Json)
    → Leases.delete_for_job job_id w ≡ p
    → Releases job_id p w
    → Releases job_id
        ((Leases.delete_for_job job_id >> ExecutionLeases.event_best_effort t j q h payload) w)
        w
unfolding ◌>>=◌
after_delete-Releases job_id w (ok u, w') t j q h payload e (inl (done, gone)) =
    let same = (append-Keeps t j q h payload).at w' in
    rw (e, event_best_effort-ok t j q h payload w') (inl (refl, λ k. rw same (gone k)))
after_delete-Releases job_id w (ok u, w') t j q h payload e (inr (x, failed, deletion, same)) = cc
after_delete-Releases job_id w (err x, w') t j q h payload e (inl (done, gone)) = cc
after_delete-Releases job_id w (err x, w') t j q h payload e (inr (y, failed, deletion, same)) =
    rw e (inr (x, refl, refl, same))

pub release_lease-Releases :
    (job_id : String) (w : World)
    → IsExclusive w
    → Releases job_id (ExecutionLeases.release_for_job job_id w) w
unfolding ◌>>=◌ ExecutionLeases.release_for_job Leases.get_for_job
release_lease-Releases job_id w h = elim (Option-cases (first (by_job job_id) w.leases)) [
  | inl nobody ↦ rw nobody (inl (refl, nobody-without job_id w nobody))
  | inr (r, held) ↦ rw held (
      after_delete-Releases job_id w (Leases.delete_for_job job_id w) _ _ _ _ _ refl
        (delete-Releases job_id w h))
]

abbrev kept : {A : Type 0} → Result A → Option Error
kept (ok a) = none
kept (err x) = some x

attempt-run :
    {A : Type 0} (m : Action A) (w : World) (p : Result A × World)
    → m w ≡ p
    → attempt m w ≡ (ok (kept p.0), p.1)
unfolding ◌>>=◌
attempt-run m w (ok a, v) e = rw e
attempt-run m w (err x, v) e = rw e

-- `release_all` makes both releases one after the other, and then raises the first error.
release_all-run :
    (job : JobRecord) (w : World)
    → let s = ProjectSessions.release_for_job job.project_id job.requested_by_user job.id w in
      let l = ExecutionLeases.release_for_job job.id s.1 in
      release_all job w ≡ re_raise (first_error (kept s.0) (kept l.0)) l.1
unfolding ◌>>=◌ release_all
release_all-run job w =
    let s = ProjectSessions.release_for_job job.project_id job.requested_by_user job.id in
    rw (attempt-run s w (s w) refl)
      (rw (attempt-run (ExecutionLeases.release_for_job job.id) (s w).1 _ refl) refl)

re_raise-world : (o : Option Error) (w : World) → (re_raise o w).1 ≡ w
unfolding ◌>>=◌
re_raise-world none w = refl
re_raise-world (some x) w = refl

re_raise-err :
    (o l : Option Error) (x : Error) (w : World)
    → l ≡ some x
    → (y : Error) × ((re_raise (first_error o l) w).0 ≡ err y)
unfolding ◌>>=◌
re_raise-err none l x w e = (x, rw e refl)
re_raise-err (some y) l x w e = (y, refl)

-- The state in which `release_all` comes to the lease.
abbrev pub after_session : JobRecord → World → World
after_session job w =
    (ProjectSessions.release_for_job job.project_id job.requested_by_user job.id w).1

-- Where no working tree is leased twice and no job holds two leases, a job that has ended gives its
-- working tree back, and no other job's, also where giving its session back has raised. The lease is
-- kept only where its own deletion, behind the release of the session, raises: then `release_all`
-- raises, and no lease has changed.
pub release_all-frees :
    (job : JobRecord) (w : World)
    → IsExclusive w
    → let (r, w') = release_all job w in
      ((k : String) → first (by_job k) w'.leases ≡ without job.id w k)
      ⊎ (((x : Error) × ((Leases.delete_for_job job.id (after_session job w)).0 ≡ err x))
          × ((x : Error) × (r ≡ err x))
          × (w'.leases ≡ w.leases))
release_all-frees job w h =
    let s = ProjectSessions.release_for_job job.project_id job.requested_by_user job.id w in
    let l = ExecutionLeases.release_for_job job.id s.1 in
    let leases : s.1.leases ≡ w.leases =
      (release_session-Keeps job.project_id job.requested_by_user job.id).at w in
    elim (release_lease-Releases job.id s.1 (rw leases h)) [
      | inl (done, gone) ↦ inl (λ k.
          rw (release_all-run job w, re_raise-world (first_error (kept s.0) (kept l.0)) l.1)
            (gone k ∙ ap (λ ls. if job.id == k then none else first (by_job k) ls) leases))
      | inr (x, failed, deletion, same) ↦ inr (
        (x, deletion),
        rw (release_all-run job w) (re_raise-err (kept s.0) (kept l.0) x l.1 (ap kept failed)),
        rw (release_all-run job w, re_raise-world (first_error (kept s.0) (kept l.0)) l.1)
            (same ∙ leases),
      )
    ]

-- ===== src/Guarantee/Creation.antt =====
-- How a job starts: its creation, a retry of a failed job.
use remote_control_pjt.Prelude.{◌≡◌, String, Option, none}
use remote_control_pjt.Json.{Json}
use remote_control_pjt.States.{JobState}
use remote_control_pjt.Statuses.{RecoveryMode}
use remote_control_pjt.Records.{JobRecord}
use remote_control_pjt.Memory.{Task}
use remote_control_pjt.World.{World}
use remote_control_pjt.Guarantee.{
  Guarantee, Obeys, obeys, bind-Obeys, result-Obeys, pure-Obeys, outcome-Obeys, stores-Obeys,
}
use remote_control_pjt.Guarantee.Tables.{tables}
use remote_control_pjt.Guarantee.Registries.{registries, acquire-Obeys}
use remote_control_pjt.Guarantee.Steps.{
  steps, host_wait-Obeys, lease_wait-Obeys, assign-Obeys, resolve_host-Obeys,
}
use remote_control_pjt.Repositories.Jobs
use remote_control_pjt.JobManager.Config.{Config}
use remote_control_pjt.JobManager.Creation
use remote_control_pjt.JobManager.Creation.{Claim, claimed, refused}

module _ {R : World → World → Type 0} (g : Guarantee R) where
  claim-Obeys :
      (n p u j : String) (s h : Option String) → Obeys g (Creation.claim_session n p u j s h)
  unfolding Creation.claim_session
  claim-Obeys n p u j s h =
      bind-Obeys g (outcome-Obeys g (acquire-Obeys g n p u j s h))
        λ r. result-Obeys g r (λ session. pure-Obeys g _) (λ x. search (obeys, tables) depth 8)

  give_back-Obeys : (c : Claim) (p u j : String) → Obeys g (Creation.give_back c p u j)
  unfolding Creation.give_back
  give_back-Obeys (claimed r) p u j = search (obeys, registries)
  give_back-Obeys (refused x o) p u j = search obeys

  store_job-Obeys :
      (c : Claim) (job : JobRecord) (t : String) (payload : Json)
      → job.state ≡ JobState.queued
      → Obeys g (Creation.store_job c job t payload)
  unfolding Creation.store_job
  store_job-Obeys c job t payload fresh =
      bind-Obeys g (outcome-Obeys g (stores-Obeys g job t none payload fresh))
        λ r. result-Obeys g r (λ stored. pure-Obeys g _) (λ x. search (obeys, give_back-Obeys))

  latest-Obeys : (u p : String) → Obeys g (Jobs.latest_for_user_project u p)
  unfolding Jobs.latest_for_user_project
  latest-Obeys u p = search obeys

  module _ (c : Config) where
    validate-Obeys : (p h : String) → Obeys g (Creation.validate_requested_host c p h)
    unfolding Creation.validate_requested_host
    validate-Obeys p h = search obeys depth 12

    assign_or_wait-Obeys :
        (claim : Claim) (job : JobRecord) (m : RecoveryMode) (i : Option String) (t : Task)
        (h : String)
        → Obeys g (Creation.assign_or_wait c claim job m i t h)
    unfolding Creation.assign_or_wait
    assign_or_wait-Obeys claim job m i t h =
        bind-Obeys g (outcome-Obeys g (assign-Obeys g c job.id h)) λ r.
          result-Obeys g r (λ assigned. search (obeys, steps))
            (λ x. search (obeys, steps, give_back-Obeys, lease_wait-Obeys) depth 12)

    start_or_wait-Obeys :
        (claim : Claim) (job : JobRecord) (m : RecoveryMode) (i : Option String) (t : Task)
        (h : String)
        → Obeys g (Creation.start_or_wait c claim job m i t h)
    unfolding Creation.start_or_wait
    start_or_wait-Obeys (claimed r) job m i t h = assign_or_wait-Obeys (claimed r) job m i t h
    start_or_wait-Obeys (refused x o) job m i t h = search (obeys, steps, lease_wait-Obeys) depth 12

    place-Obeys :
        (claim : Claim) (job : JobRecord) (h : String) (m : RecoveryMode) (w i : Option String)
        (t : Task)
        → Obeys g (Creation.place c claim job h m w i t)
    unfolding Creation.place
    place-Obeys claim job h m w i t =
        bind-Obeys g (outcome-Obeys g (resolve_host-Obeys g c job.project_id h)) λ r.
          result-Obeys g r (λ host. start_or_wait-Obeys claim job m i t host)
            (λ x. search (obeys, steps, host_wait-Obeys) depth 12)

    pub create-Obeys : (n s p ch u i h : String) → Obeys g (Creation.create c n s p ch u i h)
    unfolding Creation.create
    create-Obeys n s p ch u i h =
        search (obeys, validate-Obeys, latest-Obeys, claim-Obeys, store_job-Obeys, place-Obeys)
          depth 20

    pub retry_failed-Obeys : (n s j : String) → Obeys g (Creation.retry_failed c n s j)
    unfolding Creation.retry_failed
    retry_failed-Obeys n s j =
        search (obeys, steps, claim-Obeys, store_job-Obeys, place-Obeys) depth 20

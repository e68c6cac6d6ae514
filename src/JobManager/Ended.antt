-- ===== src/JobManager/Ended.antt =====
-- The handlers of the job manager that find the job ended.
use remote_control_pjt.Prelude.{
  ◌≡◌, refl, ℕ, true, false, String, Option, none, some, [], ◌∷◌, first, contains, ◌==◌, string_eq,
  Bool-cases, inl, inr, arith,
}
use remote_control_pjt.Result.{Error, ok, err}
use remote_control_pjt.States.{JobState, is_terminal, state_eq}
use remote_control_pjt.Statuses.{RecoveryMode}
use remote_control_pjt.Records.{JobRecord}
use remote_control_pjt.Memory.{AgentRunResult}
use remote_control_pjt.Approvals.{HumanGateRequest}
use remote_control_pjt.Quota.{QuotaSignal}
use remote_control_pjt.World.{World, ◌>>=◌}
use remote_control_pjt.Repositories.Jobs
use remote_control_pjt.Repositories.Jobs.{by_id}
use remote_control_pjt.JobManager.Config.{Config}
use remote_control_pjt.JobManager.Lifecycle.{require}
use remote_control_pjt.JobManager.Waits.{enter_host_wait, enter_lease_wait, enter_quota_wait}
use remote_control_pjt.JobManager.Turns.{pause, resume, steer, redirect}
use remote_control_pjt.JobManager.Failures.{fail, handle_cancelled_task, hold_process_safety}
use remote_control_pjt.JobManager.Cancellation.{begin_cancel, confirm_cancel, finalize_cancellation}
use remote_control_pjt.JobManager.Gates.{enter_human_gate}

-- A test on the state of a job that has ended.
not_in :
    (s : JobState)
    → is_terminal s ≡ true
    → ((s == JobState.cancelling) ≡ false)
      × ((s == JobState.running) ≡ false)
      × ((s == JobState.paused) ≡ false)
      × ((s == JobState.waiting_quota) ≡ false)
      × ((s == JobState.waiting_human) ≡ false)
      × (contains (JobState.starting ∷ JobState.running ∷ []) s ≡ false)
not_in s h = ground arith

not_steerable :
    (s : JobState)
    → is_terminal s ≡ true
    → contains (JobState.assigned ∷ JobState.starting ∷ JobState.running ∷ []) s ≡ false
not_steerable s h = ground arith

module _ (c : Config) (w : World) (job_id : String) (job : JobRecord)
    (found : first (by_id job_id) w.jobs ≡ some job) (over : is_terminal job.state ≡ true) where
  pub host_wait-ended :
      (m : RecoveryMode) (e : String) (h i : Option String)
      → enter_host_wait job_id m e h i w ≡ (ok none, w)
  unfolding ◌>>=◌ enter_host_wait require Jobs.get
  host_wait-ended m e h i = rw (found, over) refl

  pub finalize-ended : (r : Option AgentRunResult) → finalize_cancellation job_id r w ≡ (ok tt, w)
  unfolding ◌>>=◌ finalize_cancellation require Jobs.get
  finalize-ended r = rw (found, (not_in job.state over).0) refl

  pub fail-ended : (x : Error) → fail c job_id x w ≡ (ok tt, w)
  unfolding ◌>>=◌ fail require Jobs.get
  fail-ended x = rw (found, over) refl

  pub lease_wait-ended :
      (m : RecoveryMode) (e h : String) (i : Option String)
      → enter_lease_wait job_id m e h i w ≡ (ok none, w)
  unfolding ◌>>=◌ enter_lease_wait require Jobs.get
  lease_wait-ended m e h i = rw (found, over) refl

  pub quota_wait-ended :
      (s : QuotaSignal) (i : Option String) → enter_quota_wait c job_id s i w ≡ (ok none, w)
  unfolding ◌>>=◌ enter_quota_wait require Jobs.get
  quota_wait-ended s i =
      let (a, b, p, quota, human, active) = not_in job.state over in rw (found, quota, active) refl

  pub cancelled_task-ended : handle_cancelled_task c job_id w ≡ (ok tt, w)
  unfolding ◌>>=◌ handle_cancelled_task require Jobs.get
  cancelled_task-ended = rw (found, over) refl

  pub begin_cancel-ended : begin_cancel c job_id w ≡ (ok job, w)
  unfolding ◌>>=◌ begin_cancel require Jobs.get
  begin_cancel-ended = rw (found, over) refl

  pub confirm_cancel-ended : confirm_cancel c job_id w ≡ (ok job, w)
  unfolding ◌>>=◌ confirm_cancel require Jobs.get
  confirm_cancel-ended = rw (found, (not_in job.state over).0) refl

  pub pause-ended : pause c job_id w ≡ (err Error.value_error, w)
  unfolding ◌>>=◌ pause require Jobs.get
  pause-ended = rw (found, (not_in job.state over).1) refl

  pub resume-ended : (i : String) → resume c job_id i w ≡ (err Error.value_error, w)
  unfolding ◌>>=◌ resume require Jobs.get
  resume-ended i = rw (found, (not_in job.state over).2) refl

  pub steer-ended : (i : String) → steer c job_id i w ≡ (err Error.value_error, w)
  unfolding ◌>>=◌ steer require Jobs.get
  steer-ended i = elim (Bool-cases (c.strip i == "")) [
    | inl empty ↦ rw empty refl
    | inr told ↦ rw (told, found, not_steerable job.state over) refl
  ]

  pub redirect-ended : (i : String) → redirect c job_id i w ≡ (err Error.value_error, w)
  unfolding ◌>>=◌ redirect require Jobs.get
  redirect-ended i = elim (Bool-cases (c.strip i == "")) [
    | inl empty ↦ rw empty refl
    | inr told ↦ rw (told, found, (not_in job.state over).1) refl
  ]

  pub gate-ended :
      (n : String) (q : HumanGateRequest) → enter_human_gate n job_id q w ≡ (ok none, w)
  unfolding ◌>>=◌ enter_human_gate require Jobs.get
  gate-ended n q =
      let (a, running, p, quota, human, active) = not_in job.state over in
      rw (found, human, running) refl

  pub hold-ended :
      (p : Option ℕ) (e t : Option String) (m : String)
      → hold_process_safety c job_id p e t m w ≡ (err Error.runtime_error, w)
  unfolding ◌>>=◌ hold_process_safety require Jobs.get
  hold-ended p e t m = rw (found, over) refl

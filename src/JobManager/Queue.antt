-- ===== src/JobManager/Queue.antt =====
-- `JobManager.move_waiting_lease` and `queued_for_user`: the order in which jobs that wait for a busy
-- working tree are started.
use remote_control_pjt.Prelude.{
  ℕ, zero, suc, ◌+◌, get_elem?, Bool, true, false, not, ◌&&◌, String, Option, none, some, List, [],
  ◌∷◌, ◌==◌, string_eq, nat_eq, option_eq, if◌then◌else◌,
}
use remote_control_pjt.Result.{Error, Result, ok, err}
use remote_control_pjt.Json.{object, text, opt_num}
use remote_control_pjt.World.{Action, pure, or_raise, raise_if, lift, ◌>>=◌, ◌>>◌}
use remote_control_pjt.Repositories.Events.{append}
use mathlib.Core.Option
use remote_control_pjt.States.{JobState, state_eq}
use remote_control_pjt.Records.{JobRecord, RecoveryRecord}
use remote_control_pjt.Projects.{ProjectDefinition, get_project, path_for, non_empty}
use remote_control_pjt.Repositories.Jobs
use remote_control_pjt.Repositories.Jobs.{in_project}
use remote_control_pjt.Repositories.Recovery
use remote_control_pjt.JobManager.Lifecycle.{require}
use remote_control_pjt.JobManager.Guards.{select_for_user}

abbrev waits : JobRecord → Bool
waits job = job.state == JobState.waiting_lease

abbrev is_users : String → Option String → Option JobRecord → Option JobRecord
is_users user_id project_id none = none
is_users user_id project_id (some job) =
    if waits job && job.requested_by_user == user_id && in_project project_id job
    then some job
    else none

abbrev cons_if : {A : Type 0} → Option A → List A → List A
cons_if none xs = xs
cons_if (some x) xs = x ∷ xs

unfoldable pub queued_jobs : String → Option String → List RecoveryRecord → Action (List JobRecord)
queued_jobs user_id project_id [] = pure []
queued_jobs user_id project_id (r ∷ rs) = do
  job ← Jobs.get r.job_id
  rest ← queued_jobs user_id project_id rs
  pure (cons_if (is_users user_id project_id job) rest)

unfoldable pub queued_for_user : String → Option String → Action (List JobRecord)
unfolding queued_jobs
queued_for_user user_id project_id = do
  records ← Recovery.list_queue
  queued_jobs user_id project_id records

pub data Direction : Type 0 where
  up down : Direction

-- The job and its recovery row, in the order of the lane.
abbrev pub Lane : Type 0
Lane = List (JobRecord × RecoveryRecord)

-- The place of the job in the lane.
unfoldable pub index_of : String → Lane → Option ℕ
index_of job_id [] = none
index_of job_id ((job, r) ∷ lane) =
    let rest = Option.map suc (index_of job_id lane) in if job.id == job_id then some 0 else rest

-- The neighbour's index, or none past either end of the lane.
unfoldable pub neighbor : Direction → ℕ → Lane → Option (JobRecord × RecoveryRecord)
neighbor Direction.up zero lane = none
neighbor Direction.up (suc i) lane = get_elem? lane i
neighbor Direction.down i lane = get_elem? lane (i + 1)

abbrev direction_text : Direction → String
direction_text Direction.up = "up"
direction_text Direction.down = "down"

abbrev pub or_requested : JobRecord → String
or_requested job = elim (non_empty job.assigned_host) [ none ↦ job.requested_host | some h ↦ h ]

module _ (canonical : String → String) (projects : List ProjectDefinition) where
  -- `_queue_lane_key`: the jobs of one lane wait for one working tree.
  unfoldable pub queue_lane_key : JobRecord → Result (String × String)
  queue_lane_key job = elim (get_project projects job.project_id) [
    | err x ↦ err x
    | ok project ↦
        if or_requested job == "auto"
        then ok (job.project_id, or_requested job)
        else elim (path_for project (or_requested job)) [
          | err x ↦ err x
          | ok path ↦ ok (or_requested job, canonical path)
        ]
  ]

  abbrev same_lane : String × String → String × String → Bool
  same_lane (a, b) (c, d) = a == c && b == d

  -- Whether the candidate belongs to the target's lane.
  unfoldable pub in_lane : String × String → Option JobRecord → Action Bool
  unfolding queue_lane_key
  in_lane target_lane none = pure false
  in_lane target_lane (some job) =
      if not (waits job)
      then pure false
      else do key ← lift (queue_lane_key job); pure (same_lane key target_lane)

  abbrev cons_job : Bool → Option JobRecord → RecoveryRecord → Lane → Lane
  cons_job true (some job) r lane = (job, r) ∷ lane
  cons_job _ _ r lane = lane

  unfoldable pub lane_from : String × String → List RecoveryRecord → Action Lane
  unfolding in_lane
  lane_from target_lane [] = pure []
  lane_from target_lane (r ∷ rs) = do
    candidate ← Jobs.get r.job_id
    mine ← in_lane target_lane candidate
    rest ← lane_from target_lane rs
    pure (cons_job mine candidate r rest)

  -- The exchange with the neighbour, which only the owner of both jobs may make.
  unfoldable pub exchange :
      String
      → Direction
      → JobRecord
      → RecoveryRecord
      → JobRecord × RecoveryRecord
      → Action JobRecord
  unfolding require
  exchange user_id direction target target_record (other, other_record) = do
    raise_if (not (other.requested_by_user == user_id)) Error.value_error
    Recovery.swap_queue_positions target.id other.id
    append "LEASE_QUEUE_REORDERED" (some target.id) (some target.project_id) target.assigned_host (
        object (
          ("direction", text (direction_text direction))
          ∷ ("from_position", opt_num target_record.queue_position)
          ∷ ("to_position", opt_num other_record.queue_position)
          ∷ ("swapped_with", text other.id)
          ∷ []))
    require target.id

  -- `direction not in {"up", "down"}` cannot happen here: the two texts are the two members.
  unfoldable pub move_waiting_lease : String → String → Direction → Option String → Action JobRecord
  unfolding queue_lane_key lane_from exchange
  move_waiting_lease job_id user_id direction project_id = do
    target ← select_for_user user_id (some job_id) (some (JobState.waiting_lease ∷ [])) project_id
    target_record ← or_raise (← Recovery.get target.id) Error.value_error
    raise_if (target_record.queue_position == none) Error.value_error
    target_lane ← lift (queue_lane_key target)
    records ← Recovery.list_queue
    lane ← lane_from target_lane records
    index ← or_raise (index_of target.id lane) Error.value_error
    elim (neighbor direction index lane) [
      | none ↦ pure target
      | some other ↦ exchange user_id direction target target_record other
    ]

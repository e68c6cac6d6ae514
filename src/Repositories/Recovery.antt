-- ===== src/Repositories/Recovery.antt =====
-- `RecoveryRepository`: what a job that waits is to be resumed by, and its place in the lease queue.
pub mod Queue
use remote_control_pjt.Prelude.{
  ℕ, suc, ◌+◌, leb, Bool, true, false, not, ◌&&◌, ◌||◌, String, Option, none, some, List, [], ◌∷◌,
  ◌++◌, take, keep, any, contains, first, change, remove, has_key, sort_by, head?, ◌==◌, string_eq,
  nat_eq, option_eq, if◌then◌else◌,
}
use remote_control_pjt.Result.{Error}
use remote_control_pjt.Json.{Json, object, text, flag}
use remote_control_pjt.World.{
  World, Action, pure, raise, gets, or_raise, raise_if, now, commit, when, ◌>>=◌, ◌>>◌,
}
use remote_control_pjt.Records.{RecoveryRecord}
use Prim.Native.Nat.{max}

abbrev pub by_job : String → RecoveryRecord → Bool
by_job = has_key (λ r. r.job_id)

unfoldable pub get : String → Action (Option RecoveryRecord)
get job_id = gets (λ w. first (by_job job_id) w.recovery)

-- `queue_position.is_(None), queue_position`: the queued records first, by their position. The
-- last criterion, `updated_at`, is not modelled: ties keep the order of insertion.
abbrev pub queued_first : Option ℕ → Option ℕ → Bool
queued_first none none = true
queued_first none (some q) = false
queued_first (some p) none = true
queued_first (some p) (some q) = leb p q

unfoldable pub list : Action (List RecoveryRecord)
list = gets (λ w. sort_by (λ a b. queued_first a.queue_position b.queue_position) w.recovery)

abbrev pub position : RecoveryRecord → ℕ
position r = elim r.queue_position [ none ↦ 0 | some p ↦ p ]

-- `queue_position, created_at`
abbrev pub queue_order : RecoveryRecord → RecoveryRecord → Bool
queue_order a b =
    if position a == position b
    then leb a.created_at b.created_at
    else leb (position a) (position b)

unfoldable pub list_queue : Action (List RecoveryRecord)
list_queue = gets (λ w. sort_by queue_order (keep (λ r. not (r.queue_position == none)) w.recovery))

-- `coalesce(max(queue_position), 0)`
unfoldable pub max_position : List RecoveryRecord → ℕ
max_position [] = 0
max_position (r ∷ rs) = max (position r) (max_position rs)

unfoldable pub next_queue_position : Action ℕ
unfolding max_position
next_queue_position = gets (λ w. max_position w.recovery + 1)

-- Both rows are read before either is written.
abbrev pub set_position : Option ℕ → RecoveryRecord → RecoveryRecord
set_position p r = record r { queue_position = p }

unfoldable pub swap_queue_positions : String → String → Action (RecoveryRecord × RecoveryRecord)
swap_queue_positions first_job_id second_job_id = do
  found_first ← gets (λ w. first (by_job first_job_id) w.recovery)
  found_second ← gets (λ w. first (by_job second_job_id) w.recovery)
  a ← or_raise found_first Error.key_error
  b ← or_raise found_second Error.key_error
  raise_if (a.queue_position == none || b.queue_position == none) Error.value_error
  commit false (λ w. record w {
    recovery =
        change (by_job second_job_id) (set_position a.queue_position)
          (change (by_job first_job_id) (set_position b.queue_position) w.recovery);
  })
  pure (set_position b.queue_position a, set_position a.queue_position b)

unfoldable pub write :
    RecoveryRecord
    → (RecoveryRecord → RecoveryRecord)
    → Option RecoveryRecord
    → Action RecoveryRecord
write fresh changes none = do
  commit false (λ w. record w { recovery = w.recovery ++ fresh ∷ [] })
  pure fresh
write fresh changes (some r) = do
  commit false (λ w. record w { recovery = change (by_job fresh.job_id) changes w.recovery })
  pure (changes r)

-- `**changes` is both the new row's columns, `fresh`, and what is set on an old row.
unfoldable pub upsert : RecoveryRecord → (RecoveryRecord → RecoveryRecord) → Action RecoveryRecord
unfolding write
upsert fresh changes = do
  r ← gets (λ w. first (by_job fresh.job_id) w.recovery)
  write fresh changes r

unfoldable pub delete : String → Action (Unit {0})
delete job_id = do
  r ← gets (λ w. first (by_job job_id) w.recovery)
  elim r [
    | none ↦ pure tt
    | some _ ↦ commit false (λ w. record w { recovery = remove (by_job job_id) w.recovery })
  ]

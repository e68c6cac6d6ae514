-- ===== src/Repositories/Approvals.antt =====
-- `ApprovalRepository`: the questions that the agents put to a human.
use remote_control_pjt.Prelude.{
  ℕ, leb, Bool, false, ◌&&◌, String, Option, none, some, List, [], ◌∷◌, ◌++◌, take, keep, any,
  first, change, has_key, sort_by, head?, ◌==◌, string_eq, nat_eq, option_eq,
}
use remote_control_pjt.Result.{Error}
use remote_control_pjt.World.{Action, pure, gets, or_raise, commit, ◌>>=◌, ◌>>◌}
use remote_control_pjt.Records.{ApprovalRecord}
use remote_control_pjt.Statuses.{ApprovalStatus, approval_status_eq}

abbrev pub by_id : String → ApprovalRecord → Bool
by_id = has_key (λ r. r.id)

abbrev pub newest_first : ApprovalRecord → ApprovalRecord → Bool
newest_first a b = leb b.created_at a.created_at

abbrev pub is_pending : ApprovalRecord → Bool
is_pending r = r.status == ApprovalStatus.pending

unfoldable pub add : ApprovalRecord → Action ApprovalRecord
add r = do
  taken ← gets (λ w. any (by_id r.id) w.approvals)
  commit taken (λ w. record w { approvals = w.approvals ++ r ∷ [] })
  pure r

unfoldable pub get : String → Action (Option ApprovalRecord)
get approval_id = gets (λ w. first (by_id approval_id) w.approvals)

unfoldable pub list : ℕ → Action (List ApprovalRecord)
list limit = gets (λ w. take limit (sort_by newest_first w.approvals))

unfoldable pub pending_for_job : String → Action (Option ApprovalRecord)
pending_for_job job_id =
    gets (λ w.
      head? (sort_by newest_first (keep (λ r. r.job_id == job_id && is_pending r) w.approvals)))

unfoldable pub pending_for_user : String → Action (List ApprovalRecord)
pending_for_user user_id = gets (λ w.
    sort_by newest_first (keep (λ r. r.requested_by_user == user_id && is_pending r) w.approvals))

-- `expires_at.is_not(None)` and `expires_at <= now`
abbrev pub is_over : ℕ → Option ℕ → Bool
is_over now' none = false
is_over now' (some t) = leb t now'

abbrev pub expiry : Option ℕ → ℕ
expiry none = 0
expiry (some t) = t

unfoldable pub expired_pending : ℕ → Action (List ApprovalRecord)
expired_pending now' = gets (λ w.
    sort_by (λ a b. leb (expiry a.expires_at) (expiry b.expires_at))
      (keep (λ r. is_pending r && is_over now' r.expires_at) w.approvals))

unfoldable pub update : String → (ApprovalRecord → ApprovalRecord) → Action ApprovalRecord
update approval_id changes = do
  r ← or_raise (← gets (λ w. first (by_id approval_id) w.approvals)) Error.key_error
  commit false (λ w. record w { approvals = change (by_id approval_id) changes w.approvals })
  pure (changes r)

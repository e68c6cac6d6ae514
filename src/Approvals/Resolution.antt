-- ===== src/Approvals/Resolution.antt =====
-- A question is IsAnswered once.
use remote_control_pjt.Prelude.{
  ◌≡◌, refl, ap, sym, ◌∙◌, inl, inr, Bool, true, false, String, Option, none, some, first, ◌==◌,
  string_eq, first-change, change, Option-cases, Bool-cases, ◌⊎◌, ℕ, if◌then◌else◌,
}
use remote_control_pjt.World.{World, untouched, ◌>>=◌}
use mathlib.Core.Option
use remote_control_pjt.World.Commit.{commit-Commits}
use remote_control_pjt.Result.{Error, Result, ok, err, Result-cases}
use remote_control_pjt.Records.{ApprovalRecord}
use remote_control_pjt.Statuses.{ApprovalStatus, approval_status_eq}
use remote_control_pjt.Repositories.Approvals as Repository
use remote_control_pjt.Repositories.Approvals.{by_id}
use remote_control_pjt.Approvals.{get, resolve, select_option, options}

module _ (approval_id : String) (changes : ApprovalRecord → ApprovalRecord) (w : World) where
  -- The row is changed, or the COMMIT has failed and nothing has changed.
  update-cases :
      (a : ApprovalRecord)
      → first (by_id approval_id) w.approvals ≡ some a
      → (Repository.update approval_id changes w ≡ (
        ok (changes a),
        record (untouched w) { approvals = change (by_id approval_id) changes w.approvals },
      ))
        ⊎ ((x : Error) × (Repository.update approval_id changes w ≡ (err x, untouched w)))
  unfolding ◌>>=◌ Repository.update
  update-cases a found =
      elim (commit-Commits false
        (λ v. record v { approvals = change (by_id approval_id) changes v.approvals }) w) [
          | inl (free, c) ↦ inl (rw (found, c) refl)
          | inr (x, c) ↦ inr (x, rw (found, c) refl)
        ]

abbrev answer : Bool → Option String → Option String → ℕ → ApprovalRecord → ApprovalRecord
answer rejected selected response_text t a = record a {
  status = if rejected then ApprovalStatus.rejected else ApprovalStatus.resolved;
  selected_option = selected;
  response_text = response_text;
  resolved_at = some t;
}

answer-over :
    (rejected : Bool) (selected response_text : Option String) (t : ℕ) (a : ApprovalRecord)
    → ((answer rejected selected response_text t a).status == ApprovalStatus.pending) ≡ false
answer-over true selected response_text t a = refl
answer-over false selected response_text t a = refl

module _ (casefold : String → String) (approval_id : String) where
  -- A question that is no longer pending is not IsAnswered again.
  resolve-refused :
      (option_key response_text : Option String) (rejected : Bool) (w : World) (r : ApprovalRecord)
      → first (by_id approval_id) w.approvals ≡ some r
      → (r.status == ApprovalStatus.pending) ≡ false
      → resolve casefold approval_id option_key rejected response_text w
        ≡ (err Error.value_error, w)
  unfolding ◌>>=◌ resolve get Repository.get
  resolve-refused option_key response_text rejected w r found over = rw (found, over) refl

  module _ (option_key response_text : Option String) (rejected : Bool) (w : World) where
    resolve-missing :
        first (by_id approval_id) w.approvals ≡ none
        → resolve casefold approval_id option_key rejected response_text w
          ≡ (err Error.key_error, w)
    unfolding ◌>>=◌ resolve get Repository.get
    resolve-missing missing = rw missing refl

    resolve-unanswered :
        (q : ApprovalRecord) (x : Error)
        → first (by_id approval_id) w.approvals ≡ some q
        → (q.status == ApprovalStatus.pending) ≡ true
        → select_option casefold rejected option_key (options q) ≡ err x
        → resolve casefold approval_id option_key rejected response_text w ≡ (err x, w)
    unfolding ◌>>=◌ resolve get Repository.get
    resolve-unanswered q x found pending bad = rw (found, pending, bad) refl

    resolve-answered :
        (q : ApprovalRecord) (selected : Option String)
        → first (by_id approval_id) w.approvals ≡ some q
        → (q.status == ApprovalStatus.pending) ≡ true
        → select_option casefold rejected option_key (options q) ≡ ok selected
        → resolve casefold approval_id option_key rejected response_text w
          ≡ Repository.update approval_id (answer rejected selected response_text w.clock) w
    unfolding ◌>>=◌ resolve get Repository.get
    resolve-answered q selected found pending good = rw (found, pending, good) refl

    abbrev IsAnswered : Result ApprovalRecord × World → Type 0
    IsAnswered (r, w') =
        ((q : ApprovalRecord) × (selected : Option String) × (first (by_id approval_id) w.approvals
            ≡ some q)
          × ((q.status == ApprovalStatus.pending) ≡ true)
          × (select_option casefold rejected option_key (options q) ≡ ok selected)
          × (r ≡ ok (answer rejected selected response_text w.clock q))
          × (first (by_id approval_id) w'.approvals
              ≡ some (answer rejected selected response_text w.clock q)))
        ⊎ ((x : Error) × (r ≡ err x) × (w'.approvals ≡ w.approvals))

    -- An answer has been stored, or none has.
    resolve-answers : IsAnswered (resolve casefold approval_id option_key rejected response_text w)
    resolve-answers = elim (Option-cases (first (by_id approval_id) w.approvals)) [
      | inl missing ↦ rw (resolve-missing missing) (inr (Error.key_error, refl, refl))
      | inr (q, found) ↦ elim (Bool-cases (q.status == ApprovalStatus.pending)) [
        | inr over ↦
            rw (resolve-refused option_key response_text rejected w q found over)
              (inr (Error.value_error, refl, refl))
        | inl pending ↦
            elim (Result-cases (select_option casefold rejected option_key (options q))) [
              | inr (x, bad) ↦ rw (resolve-unanswered q x found pending bad) (inr (x, refl, refl))
              | inl (selected, good) ↦
                  let f = answer rejected selected response_text w.clock in
                  rw (resolve-answered q selected found pending good)
                    (elim (update-cases approval_id f w q found) [
                      | inr (x, failed) ↦ rw failed (inr (x, refl, refl))
                      | inl done ↦ rw done (
                          inl (
                            q,
                            selected,
                            found,
                            pending,
                            good,
                            refl,
                            first-change (by_id approval_id) f w.approvals (λ a. refl)
                                ∙ ap (Option.map f) found,
                          ))
                    ])
            ]
      ]
    ]

  -- A question is IsAnswered at most once: once an answer has been accepted, any further answer
  -- raises `ValueError` and changes nothing.
  pub resolve_once :
      (option_key response_text : Option String) (rejected : Bool) (w w' : World)
      {r : ApprovalRecord}
      → resolve casefold approval_id option_key rejected response_text w ≡ (ok r, w')
      → (other_key other_text : Option String) (other_rejected : Bool)
      → resolve casefold approval_id other_key other_rejected other_text w'
        ≡ (err Error.value_error, w')
  resolve_once option_key response_text rejected w w' e other_key other_text other_rejected =
      elim (resolve-answers option_key response_text rejected w) [
        | inr (x, failed, same) ↦ cc (ap (λ (p : Result ApprovalRecord × World). p.0) e)
        | inl (q, selected, found, pending, good, done, stored) ↦
            resolve-refused other_key other_text other_rejected w' _
              (ap (λ (p : Result ApprovalRecord × World). first (by_id approval_id) p.1.approvals)
                  (sym e)
                ∙ stored)
              (answer-over rejected selected response_text w.clock q)
      ]

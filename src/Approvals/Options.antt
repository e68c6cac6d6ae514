-- ===== src/Approvals/Options.antt =====
-- The options of a question, from the request through its stored JSON to the prompt.
use remote_control_pjt.Prelude.{
  ◌≡◌, refl, ap, sym, ◌∙◌, String, Option, none, some, List, [], ◌∷◌, ◌++◌, any, inl, inr, map,
}
use remote_control_pjt.Json.{Json, Items, cons, opt_text, as_text, items, array}
use remote_control_pjt.World.{World, ◌>>=◌}
use remote_control_pjt.World.Inversion.{bind-ok, gets-ok, pure-ok, pure-at}
use remote_control_pjt.Result.{Error, Result, ok, err}
use remote_control_pjt.World.Commit.{commit-Commits}
use remote_control_pjt.Repositories.Approvals.{by_id}
use remote_control_pjt.Repositories.Events.Retry.{append-frame}
use remote_control_pjt.Records.{ApprovalRecord, EventRecord}
use remote_control_pjt.Statuses.{ApprovalStatus}
use remote_control_pjt.Repositories.Approvals as Repository
use remote_control_pjt.Approvals.{
  ApprovalOption, option_json, option_of, options_of, HumanGateRequest, store_request, create,
  prompt, options,
}

as_text-opt_text : (o : Option String) → as_text (opt_text o) ≡ o
as_text-opt_text none = refl
as_text-opt_text (some s) = refl

option_of-option_json : (o : ApprovalOption) → option_of (option_json o) ≡ some o
option_of-option_json o =
    ap (λ d. some (record { key = o.key; label = o.label; description = d }))
      (as_text-opt_text o.description)

options_of-cons :
    (x : Json) (xs : Items) (o : ApprovalOption)
    → option_of x ≡ some o
    → options_of (cons x xs) ≡ o ∷ options_of xs
options_of-cons x xs o e = rw (options_of, e) refl

options_of-items : (os : List ApprovalOption) → options_of (items (map option_json os)) ≡ os
options_of-items [] = refl
options_of-items (o ∷ os) =
    options_of-cons (option_json o) (items (map option_json os)) o (option_of-option_json o)
    ∙ ap (◌∷◌ o) (options_of-items os)

module _ (new_id job_id project_id : String) (host_id : Option String) (user : String)
    (request : HumanGateRequest) where
  -- An insert that returns has written its row behind the others.
  add-ok :
      (a : ApprovalRecord) {r : ApprovalRecord} (w w' : World)
      → Repository.add a w ≡ (ok r, w')
      → (a ≡ r) × (w'.approvals ≡ w.approvals ++ r ∷ [])
  unfolding ◌>>=◌ Repository.add
  add-ok a {r = r} w w' e =
      elim (commit-Commits (any (by_id a.id) w.approvals)
        (λ v. record v { approvals = v.approvals ++ a ∷ [] }) w) [
          | inl (free, c) ↦
              let ran = rw c at e in
              let same : a ≡ r = cc (ap (λ (p : Result ApprovalRecord × World). p.0) ran) in
              (
                same,
                sym (ap (λ (p : Result ApprovalRecord × World). p.1.approvals) ran)
                    ∙ ap (λ b. w.approvals ++ b ∷ []) same,
              )
          | inr (x, c) ↦
              absurd (err-ne-ok x r (ap (λ (p : Result ApprovalRecord × World). p.0) (rw c at e)))
        ]
    where
      err-ne-ok : (x : Error) (b : ApprovalRecord) → err x ≡ ok b → ⊥
      err-ne-ok x b h = cc

  -- The row that `store_request` returns.
  store_request-returns :
      (w w' : World) {r : ApprovalRecord}
      → store_request new_id job_id project_id host_id user request w ≡ (ok r, w')
      → (r.status ≡ ApprovalStatus.pending)
        × (r.job_id ≡ job_id)
        × (r.question ≡ request.question)
        × (r.options_json ≡ some (array (map option_json request.options)))
        × (w'.approvals ≡ w.approvals ++ r ∷ [])
  unfolding store_request
  store_request-returns w w' e =
      let (t, v1, e1, r1) = bind-ok _ _ e in
      let (stored, v2, e2, r2) = bind-ok _ _ r1 in
      let (event, v3, e3, r3) = bind-ok _ _ r2 in
      let (same, written) = add-ok _ _ _ e2 in
      let returned = pure-ok _ _ r3 in
      let audited : v3.approvals ≡ v2.approvals =
        ap (λ (p : Result EventRecord × World). p.1.approvals) (sym e3)
        ∙ ap (λ (v : World). v.approvals) (append-frame _ _ _ _ _ v2) in
      let begun : v1 ≡ w = sym (gets-ok _ _ _ e1).1 in
      let left : w' ≡ v3 = sym (pure-at _ _ _ _ r3) in
      (
        sym (ap (λ (b : ApprovalRecord). b.status) (same ∙ returned)),
        sym (ap (λ (b : ApprovalRecord). b.job_id) (same ∙ returned)),
        sym (ap (λ (b : ApprovalRecord). b.question) (same ∙ returned)),
        sym (ap (λ (b : ApprovalRecord). b.options_json) (same ∙ returned)),
        ap (λ (v : World). v.approvals) left
            ∙ audited
            ∙ written
            ∙ ap (λ (v : World). v.approvals ++ stored ∷ []) begun
            ∙ ap (λ b. w.approvals ++ b ∷ []) returned,
      )

  options-stored :
      (r : ApprovalRecord)
      → r.options_json ≡ some (array (map option_json request.options))
      → options r ≡ request.options
  unfolding options
  options-stored r e = rw e (options_of-items request.options)

  -- Where the job has no pending question, a `create` that returns has stored one row behind the
  -- others, which it returns: it is pending and of this job, and its prompt shows the request's question
  -- and exactly its options, in their order.
  pub create-prompt :
      (w w' : World) {r : ApprovalRecord}
      → Repository.pending_for_job job_id w ≡ (ok none, w)
      → create new_id job_id project_id host_id user request w ≡ (ok r, w')
      → (r.status ≡ ApprovalStatus.pending)
        × ((prompt r).job_id ≡ job_id)
        × ((prompt r).question ≡ request.question)
        × ((prompt r).options ≡ request.options)
        × (w'.approvals ≡ w.approvals ++ r ∷ [])
  unfolding create prompt
  create-prompt w w' {r} none' e =
      let (current, v1, e1, r1) = bind-ok _ _ e in
      let nobody : current ≡ none =
        cc (ap (λ (p : Result (Option ApprovalRecord) × World). p.0) (sym none' ∙ e1)) in
      let begun : v1 ≡ w =
        ap (λ (p : Result (Option ApprovalRecord) × World). p.1) (sym e1 ∙ none') in
      let (pending, job, question, stored, written) =
        store_request-returns v1 w' (rw nobody at r1) in
      (
        pending,
        job,
        question,
        options-stored r stored,
        written ∙ ap (λ (v : World). v.approvals ++ r ∷ []) begun,
      )

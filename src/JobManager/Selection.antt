-- ===== src/JobManager/Selection.antt =====
-- A user selects only jobs of their own.
use remote_control_pjt.Prelude.{
  ◌≡◌, ap, subst, Bool, true, false, not, ◌&&◌, String, Option, none, some, List, [], ◌∷◌, All,
  All-keep, All-keep_both, All-sort_by, keep, ◌==◌, string_eq, arith,
}
use remote_control_pjt.Result.{Error, Result, ok, err}
use remote_control_pjt.States.{JobState, state_eq, is_terminal}
use remote_control_pjt.Records.{JobRecord}
use remote_control_pjt.World.{World, ◌>>=◌}
use remote_control_pjt.World.Inversion.{bind-ok, pure-ok, gets-ok, raise_if-ok}
use remote_control_pjt.Repositories.Jobs.{in_project, newest_first, list_active_for_user}
use remote_control_pjt.JobManager.Guards.{
  in_states, select_named, select_any, only_one, select_for_user,
}

module _ (user_id : String) (states : Option (List JobState)) (project_id : Option String) where
  -- The job is the user's, and what the request says of its project and state holds of it.
  abbrev pub IsSelectable : JobRecord → Type 0
  IsSelectable job =
      ((job.requested_by_user == user_id) ≡ true)
      × (in_project project_id job ≡ true)
      × (in_states states job ≡ true)

  not-false : (b : Bool) → not b ≡ false → b ≡ true
  not-false b h = ground arith

  select_named-IsSelectable :
      (job_id : String) (w w' : World) {job : JobRecord}
      → select_named user_id states project_id job_id w ≡ (ok job, w')
      → IsSelectable job
  unfolding select_named
  select_named-IsSelectable job_id w w' e =
      let (j, v1, e1, r1) = bind-ok _ _ e in
      let (u2, v2, e2, r2) = bind-ok _ _ r1 in
      let (u3, v3, e3, r3) = bind-ok _ _ r2 in
      let (u4, v4, e4, r4) = bind-ok _ _ r3 in
      subst IsSelectable (pure-ok v4 w' r4) (
        not-false _ (raise_if-ok _ _ v1 v2 e2).0,
        not-false _ (raise_if-ok _ _ v2 v3 e3).0,
        not-false _ (raise_if-ok _ _ v3 v4 e4).0,
      )

  only_one-ok :
      (P : JobRecord → Type 0) (js : List JobRecord) (w w' : World) {job : JobRecord}
      → All P js
      → only_one js w ≡ (ok job, w')
      → P job
  unfolding ◌>>=◌
  only_one-ok P [] w w' h e = absurd (failed (ap (λ (p : Result JobRecord × World). p.0) e))
    where
      failed : {j : JobRecord} → err Error.value_error ≡ ok j → ⊥
      failed f = cc
  only_one-ok P (j ∷ []) w w' h e = subst P (pure-ok w w' e) h.0
  only_one-ok P (j ∷ k ∷ js) w w' h e =
      absurd (failed (ap (λ (p : Result JobRecord × World). p.0) e))
    where
      failed : {j : JobRecord} → err Error.value_error ≡ ok j → ⊥
      failed f = cc

  -- What the query of the active jobs selects.
  abbrev IsActive : JobRecord → Type 0
  IsActive job = ((job.requested_by_user == user_id) ≡ true) × (in_project project_id job ≡ true)

  and-true : (a b c : Bool) → (a && b && c) ≡ true → (a ≡ true) × (c ≡ true)
  and-true a b c h = ground arith

  list_active_for_user-All :
      (w w' : World) {js : List JobRecord}
      → list_active_for_user user_id project_id w ≡ (ok js, w')
      → All IsActive js
  unfolding list_active_for_user
  list_active_for_user-All w w' e = subst (All IsActive) (gets-ok _ w w' e).0 (
      All-sort_by IsActive newest_first _ (
        All-keep IsActive _ w.jobs (λ j h.
          and-true (j.requested_by_user == user_id) (not (is_terminal j.state))
            (in_project project_id j) h)))

  select_any-IsSelectable :
      (w w' : World) {job : JobRecord}
      → select_any user_id states project_id w ≡ (ok job, w')
      → IsSelectable job
  unfolding select_any
  select_any-IsSelectable w w' e =
      let (js, v1, e1, r1) = bind-ok _ _ e in
      only_one-ok IsSelectable (keep (in_states states) js) v1 w'
        (All-keep_both IsSelectable (in_states states) IsActive js (λ j h k. (h.0, h.1, k))
          (list_active_for_user-All w v1 e1))
        r1

  -- A job that `select_for_user` returns is the user's own, and it is in the project and in one of
  -- the states that the request asks for, whether the user has named it or it is the only one.
  pub select_for_user-IsSelectable :
      (job_id : Option String) (w w' : World) {job : JobRecord}
      → select_for_user user_id job_id states project_id w ≡ (ok job, w')
      → IsSelectable job
  unfolding select_for_user
  select_for_user-IsSelectable none w w' e = select_any-IsSelectable w w' e
  select_for_user-IsSelectable (some job_id) w w' e = select_named-IsSelectable job_id w w' e

-- ===== src/Approvals.antt =====
-- approvals/registry.py: the questions of the human gate, from PENDING to one final status.
pub mod Options
pub mod Resolution
use remote_control_pjt.Prelude.{
  ℕ, suc, ◌+◌, ltb, leb, Bool, true, false, not, ◌&&◌, ◌||◌, String, Option, none, some, List, [],
  ◌∷◌, ◌++◌, map, take, keep, any, contains, first, head?, ◌==◌, string_eq, nat_eq, option_eq,
  if◌then◌else◌, length,
}
use remote_control_pjt.Result.{Error, Result, ok, err, is_value_error, is_integrity_error}
use remote_control_pjt.Json.{
  Json, Items, Fields, nil, cons, end, field, null, num, arr, obj, object, array, text, flag,
  opt_text, get_field, as_text,
}
use remote_control_pjt.World.{
  World, Action, pure, raise, gets, or_raise, raise_if, now, commit, when, catch, lift, ◌>>=◌, ◌>>◌,
}
use remote_control_pjt.Repositories.Events.{append}
use remote_control_pjt.Statuses.{ApprovalStatus, approval_status_eq}
use remote_control_pjt.Records.{ApprovalRecord}
use remote_control_pjt.Repositories.Approvals

-- human_gate.py
pub record ApprovalOption : Type 0 where
  pub key : String
  pub label : String
  pub description : Option String

pub record HumanGateRequest : Type 0 where
  pub approval_type : String
  pub question : String
  pub options : List ApprovalOption
  pub details : Option String
  pub expires_at : Option ℕ

pub record ApprovalPrompt : Type 0 where
  pub id : String
  pub job_id : String
  pub approval_type : String
  pub question : String
  pub details : Option String
  pub options : List ApprovalOption
  pub expires_at : Option ℕ

abbrev pub option_json : ApprovalOption → Json
option_json o =
    object
      (("key", text o.key) ∷ ("label", text o.label) ∷ ("description", opt_text o.description) ∷ [])

-- An item of the stored list counts if it is an object with a text `key` and a text `label`.
abbrev pub read_option : Option String → Option String → Json → Option ApprovalOption
read_option (some key) (some label) description =
    some (record { key = key; label = label; description = as_text description })
read_option _ _ description = none

abbrev pub option_of : Json → Option ApprovalOption
option_of (obj fs) =
    read_option (as_text (get_field "key" fs)) (as_text (get_field "label" fs))
      (get_field "description" fs)
option_of _ = none

abbrev pub options_of : Items → List ApprovalOption
options_of nil = []
options_of (cons x xs) = elim (option_of x) [ none ↦ options_of xs | some o ↦ o ∷ options_of xs ]

-- `options`; `none` stands for a text that is no JSON.
unfoldable pub options : ApprovalRecord → List ApprovalOption
options r = elim r.options_json [ some (arr xs) ↦ options_of xs | _ ↦ [] ]

unfoldable pub store_request :
    String → String → String → Option String → String → HumanGateRequest → Action ApprovalRecord
unfolding options
store_request new_id job_id project_id host_id requested_by_user request = do
  t ← now
  stored ← Approvals.add (record {
    id = new_id;
    job_id = job_id;
    requested_by_user = requested_by_user;
    approval_type = request.approval_type;
    question = request.question;
    details = request.details;
    options_json = some (array (map option_json request.options));
    status = ApprovalStatus.pending;
    selected_option = none;
    response_text = none;
    expires_at = request.expires_at;
    resolved_at = none;
    created_at = t;
  })
  append "HUMAN_GATE_CREATED" (some job_id) (some project_id) host_id (
      object (
        ("approval_id", text stored.id)
        ∷ ("type", text stored.approval_type)
        ∷ ("question", text stored.question)
        ∷ ("options", array (map (λ (o : ApprovalOption). text o.key) (options stored)))
        ∷ []))
  pure stored

-- `create`; `new_id` is what `_approval_id()` draws.
unfoldable pub create :
    String → String → String → Option String → String → HumanGateRequest → Action ApprovalRecord
unfolding store_request
create new_id job_id project_id host_id requested_by_user request = do
  current ← Approvals.pending_for_job job_id
  elim current [
    | some r ↦ pure r
    | none ↦ store_request new_id job_id project_id host_id requested_by_user request
  ]

unfoldable pub get : String → Action ApprovalRecord
get approval_id = do or_raise (← Approvals.get approval_id) Error.key_error

unfoldable pub expire : String → Action ApprovalRecord
unfolding get
expire approval_id = do
  r ← get approval_id
  if not (r.status == ApprovalStatus.pending) then pure r else do
    t ← now
    Approvals.update approval_id
        (λ a. record a { status = ApprovalStatus.expired; resolved_at = some t })

unfoldable pub cancel_for_job : String → Action (Option ApprovalRecord)
cancel_for_job job_id = do
  found ← Approvals.pending_for_job job_id
  elim found [
    | none ↦ pure none
    | some r ↦ do
      t ← now
      updated ←
          Approvals.update r.id
            (λ a. record a { status = ApprovalStatus.cancelled; resolved_at = some t })
      pure (some updated)
  ]

unfoldable pub prompt : ApprovalRecord → ApprovalPrompt
unfolding options
prompt r = record {
  id = r.id;
  job_id = r.job_id;
  approval_type = r.approval_type;
  question = r.question;
  details = r.details;
  options = options r;
  expires_at = r.expires_at;
}

-- Python's `str.casefold` is a parameter.
module _ (casefold : String → String) where
  -- `option_map.get(key)`: of two options whose keys fold alike the dict keeps the last.
  abbrev pub last_match : String → List ApprovalOption → Option ApprovalOption
  last_match k [] = none
  last_match k (o ∷ os) = elim (last_match k os) [
    | some found ↦ some found
    | none ↦ if casefold o.key == k then some o else none
  ]

  -- The key that the answer selects; a rejection selects none.
  unfoldable pub select_option : Bool → Option String → List ApprovalOption → Result (Option String)
  select_option true option_key os = ok none
  select_option false none os = err Error.value_error
  select_option false (some key) os =
      if key == "" then err Error.value_error else elim (last_match (casefold key) os) [
        | none ↦ err Error.value_error
        | some o ↦ ok (some o.key)
      ]

  unfoldable pub resolve : String → Option String → Bool → Option String → Action ApprovalRecord
  unfolding get select_option options
  resolve approval_id option_key rejected response_text = do
    r ← get approval_id
    raise_if (not (r.status == ApprovalStatus.pending)) Error.value_error
    selected_option ← lift (select_option rejected option_key (options r))
    t ← now
    Approvals.update approval_id (λ a. record a {
      status = if rejected then ApprovalStatus.rejected else ApprovalStatus.resolved;
      selected_option = selected_option;
      response_text = response_text;
      resolved_at = some t;
    })

-- ===== src/HumanGate.antt =====
-- human_gate.py: the agents' questions to a human, read from an agent's event. Numbers of an event
-- are integers. Positions in a text count bytes here: they only cut a text behind what was found in
-- it, so the parts are the same.
pub mod Options
use Prim.Native.String.{slice, find, len}
use remote_control_pjt.Prelude.{
  ℕ, ℤ, pos, nat_eq, ◌+◌, ltb, String, Bool, true, false, not, ◌&&◌, ◌||◌, Option, none, some, List,
  [], ◌∷◌, ◌==◌, string_eq, take, if◌then◌else◌,
}
use remote_control_pjt.Json.{Json, Items, Fields, null, text, arr, obj, get_field}
use remote_control_pjt.Approvals.{ApprovalOption, HumanGateRequest}

abbrev pub human_gate_marker : String
human_gate_marker = "REMOTE_CONTROL_HUMAN_GATE"

-- Whether a number is 0.
abbrev pub is_zero : ℤ → Bool
is_zero (pos n) = n == 0
is_zero _ = false

-- Python's `a or b` on values that `json.loads` gives.
abbrev pub or_else : Json → Json → Json
or_else Json.null b = b
or_else (Json.flag x) b = if x then Json.flag x else b
or_else (Json.num n) b = if is_zero n then b else Json.num n
or_else (Json.text s) b = if s == "" then b else Json.text s
or_else (Json.arr Items.nil) b = b
or_else (Json.arr (Items.cons x xs)) b = Json.arr (Items.cons x xs)
or_else (Json.obj Fields.end) b = b
or_else (Json.obj (Fields.field k v r)) b = Json.obj (Fields.field k v r)

-- `{**payload, **first}`: a key is looked up in `first` before `payload`.
abbrev pub merged : Fields → Fields → Fields
merged payload Fields.end = payload
merged payload (Fields.field k v r) = Fields.field k v (merged payload r)

-- The payload, under the first of its questions where it lists them.
abbrev pub under_first : Fields → Json → Fields
under_first payload (Json.arr (Items.cons (Json.obj first) xs)) = merged payload first
under_first payload _ = payload

-- `chr(ord("A") + index)` of the first eight indices
abbrev pub letters : List String
letters = "A" ∷ "B" ∷ "C" ∷ "D" ∷ "E" ∷ "F" ∷ "G" ∷ "H" ∷ []

-- The types that only say that an event is a question.
abbrev pub is_gate_name : String → Bool
is_gate_name name =
    name == "human_gate"
    || name == "human.gate"
    || name == "request_user_input"
    || name == "request.user_input"

-- The texts that an event holds under some keys, in the keys' order.
abbrev pub texts_of : List String → Fields → List String
texts_of [] e = []
texts_of (k ∷ ks) e = elim (get_field k e) [ Json.text s ↦ s ∷ texts_of ks e | _ ↦ texts_of ks e ]

abbrev pub first_some {ℓ} : {A : Type ℓ} → Option A → Option A → Option A
first_some none b = b
first_some (some a) b = some a

-- `text[position + len(found):]`
abbrev pub behind : String → String → Option String
behind found s =
    let position = find s found in
    if ltb (len s) (position + len found)
    then none
    else some (slice s (position + len found) (len s))

-- `text[position:]`, from what was found on
abbrev pub from : String → String → Option String
from found s =
    let position = find s found in
    if ltb (len s) (position + len found) then none else some (slice s position (len s))

-- What the code calls of Python: `str.strip`, `str.casefold`, a text's first characters, `str` of a
-- value that is not a text, the pattern of the option keys, and `raw_decode`.
module _ (strip casefold : String → String) (first_chars : ℕ → String → String)
    (repr : Json → String) (is_option_key : String → Bool) (raw_decode : String → Option Json) where
  abbrev pub str : Json → String
  str (Json.text s) = s
  str j = repr j

  -- A text that is not blank, without the blanks around it.
  abbrev pub stripped : Json → Option String
  stripped (Json.text s) = if strip s == "" then none else some (strip s)
  stripped _ = none

  abbrev pub clipped : ℕ → Option String → Option String
  clipped n none = none
  clipped n (some s) = some (first_chars n s)

  -- An option, unless its key or its label is refused.
  abbrev pub option_if : String → String → Option String → List ApprovalOption → List ApprovalOption
  option_if key label description rest =
      if is_option_key key && not (label == "")
      then record { key = key; label = first_chars 200 label; description = description } ∷ rest
      else rest

  -- One round of the loop of `_parse_options`.
  abbrev pub add_option : String → Json → List ApprovalOption → List ApprovalOption
  add_option letter (Json.text s) rest = option_if (strip s) (strip s) none rest
  add_option letter (Json.obj item) rest =
      let raw_key =
        or_else (get_field "key" item) (or_else (get_field "id" item) (Json.text letter)) in
      let raw_label =
        or_else (get_field "label" item)
          (or_else (get_field "value" item) (or_else (get_field "text" item) raw_key)) in
      option_if (strip (str raw_key)) (strip (str raw_label))
        (clipped 1000 (stripped (get_field "description" item))) rest
  add_option letter _ rest = rest

  -- The loop, over the items and the letters of their places.
  abbrev pub parse_items : List String → Items → List ApprovalOption
  parse_items [] items = []
  parse_items (l ∷ ls) Items.nil = []
  parse_items (l ∷ ls) (Items.cons item items) = add_option l item (parse_items ls items)

  unfoldable pub parse_options : Json → List ApprovalOption
  parse_options (Json.arr items) = parse_items letters items
  parse_options _ = []

  abbrev pub approve : ApprovalOption
  approve = record { key = "APPROVE"; label = "Approve"; description = none }

  abbrev pub or_approve : List ApprovalOption → List ApprovalOption
  or_approve [] = approve ∷ []
  or_approve (o ∷ os) = o ∷ os

  abbrev pub approval_type_of : Json → String
  approval_type_of (Json.text s) =
      if strip s == "" || is_gate_name (casefold s) then strip "human_decision" else strip s
  approval_type_of _ = strip "human_decision"

  -- `_from_payload`
  unfoldable pub from_payload : Fields → Option HumanGateRequest
  from_payload raw =
      let payload = under_first raw (get_field "questions" raw) in
      elim (stripped (or_else (get_field "question" payload) (get_field "prompt" payload))) [
        | none ↦ none
        | some question ↦ some record {
          approval_type = first_chars 64 (
              approval_type_of (
                or_else (get_field "approval_type" payload)
                  (or_else (get_field "gate_type" payload) (get_field "type" payload))));
          question = first_chars 2000 question;
          options = or_approve (parse_options (get_field "options" payload));
          details = clipped 4000 (
              stripped (
                or_else (get_field "details" payload)
                  (or_else (get_field "description" payload) (get_field "header" payload))));
          expires_at = none;
        }
      ]

  abbrev pub of_decoded : Option Json → Option HumanGateRequest
  of_decoded (some (Json.obj payload)) = from_payload payload
  of_decoded _ = none

  -- `extract_human_gate_from_text`
  unfoldable pub extract_human_gate_from_text : String → Option HumanGateRequest
  extract_human_gate_from_text s = elim (behind human_gate_marker s) [
    | none ↦ none
    | some tail ↦ elim (from "{" tail) [
      | none ↦ none
      | some object ↦ of_decoded (raw_decode object)
    ]
  ]

  abbrev pub first_parsed : List String → Option HumanGateRequest
  first_parsed [] = none
  first_parsed (s ∷ ss) = first_some (extract_human_gate_from_text s) (first_parsed ss)

  abbrev pub of_texts : Fields → Option HumanGateRequest
  of_texts event = first_parsed (texts_of ("message" ∷ "text" ∷ []) event)

  -- `str(x or "").casefold()`
  abbrev pub folded : Json → String
  folded j = casefold (str (or_else j (Json.text "")))

  -- The part of `extract_human_gate` behind the event's own type.
  abbrev pub of_item : Fields → Json → Option HumanGateRequest
  of_item event (Json.obj item) =
      let item_type = folded (get_field "type" item) in
      if is_gate_name item_type && not (item_type == "human.gate")
      then from_payload item
      else first_some (first_parsed (texts_of ("text" ∷ "content" ∷ []) item)) (of_texts event)
  of_item event _ = of_texts event

  -- The payload of an event whose own type says that it is a question, unless it is no object.
  abbrev pub of_payload : Json → Option HumanGateRequest → Option HumanGateRequest
  of_payload (Json.obj payload) rest = from_payload payload
  of_payload _ rest = rest

  -- `extract_human_gate`
  unfoldable pub extract_human_gate : Fields → Option HumanGateRequest
  extract_human_gate event =
      let event_type = folded (or_else (get_field "type" event) (get_field "event_type" event)) in
      let rest = of_item event (get_field "item" event) in
      if is_gate_name event_type
      then of_payload
          (or_else (get_field "human_gate" event)
            (or_else (get_field "payload" event) (Json.obj event)))
          rest
      else rest

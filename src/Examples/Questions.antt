-- ===== src/Examples/Questions.antt =====
-- A question in an agent's message.
use Prim.Native.String.{slice}
use remote_control_pjt.Prelude.{
  ℕ, pos, ◌≡◌, refl, String, Bool, not, ◌||◌, if◌then◌else◌, Option, none, some, [], ◌∷◌, ◌==◌,
  string_eq,
}
use remote_control_pjt.Json.{Json, Fields, fields, object, array, text, num}
use remote_control_pjt.EventPayloads.{truncate, sanitize_options, sanitize_agent_event}
use remote_control_pjt.EventPayloads.Bounds.{IsShortList, sanitize_options-IsShortList}
use remote_control_pjt.HumanGate.{
  from_payload, parse_options, extract_human_gate_from_text, extract_human_gate,
}
use remote_control_pjt.HumanGate.Options.{IsAnswerable, extract_human_gate-IsAnswerable}

abbrev same : String → String
same s = s

abbrev first_chars : ℕ → String → String
first_chars n s = slice s 0 n

abbrev repr : Json → String
repr j = "?"

abbrev is_option_key : String → Bool
is_option_key k = not (k == "" || k == "not a key")

-- A decoder that knows one text.
abbrev raw_decode : String → Option Json
raw_decode s =
    if s == "{1}"
    then some (
        object (
          ("question", text "Drop it?")
          ∷ ("type", text "schema")
          ∷ (
            "options",
            array (
                text "yes"
                ∷ num (pos 3)
                ∷ text "not a key"
                ∷ object (("label", text "no") ∷ [])
                ∷ []),
          )
          ∷ []))
    else none

abbrev event : Fields
event =
    fields (("type", text "message") ∷ ("text", text "Well: REMOTE_CONTROL_HUMAN_GATE\n{1}") ∷ [])

asked :
    extract_human_gate same same first_chars repr is_option_key raw_decode event
    ≡ some record {
      approval_type = "schema";
      question = "Drop it?";
      options =
          record { key = "yes"; label = "yes"; description = none }
          ∷ record { key = "D"; label = "no"; description = none }
          ∷ [];
      details = none;
      expires_at = none;
    }
unfolding from_payload parse_options extract_human_gate_from_text extract_human_gate
asked = refl

extract_human_gate-IsAnswerable_example :
    IsAnswerable same same first_chars repr is_option_key raw_decode
      (extract_human_gate same same first_chars repr is_option_key raw_decode event)
extract_human_gate-IsAnswerable_example =
    extract_human_gate-IsAnswerable same same first_chars repr is_option_key raw_decode refl event

abbrev reset_at : Fields → Option String
reset_at _ = none

abbrev sent : Fields
sent = fields (
    ("type", text "x")
    ∷ ("thread_id", text "t-1")
    ∷ ("retry_at", num (pos 5))
    ∷ ("secret", text "s")
    ∷ [])

kept :
    sanitize_agent_event repr reset_at sent
    ≡ fields (("type", text "x") ∷ ("thread_id", text "t-1") ∷ ("retry_at", num (pos 5)) ∷ [])
unfolding sanitize_agent_event truncate
kept = refl

cut : truncate repr reset_at "abcdef" 4 ≡ "abc…"
unfolding truncate
cut = refl

sanitize_options-IsShortList_example :
    IsShortList (sanitize_options repr reset_at (array (text "yes" ∷ num (pos 3) ∷ [])))
sanitize_options-IsShortList_example =
    sanitize_options-IsShortList repr reset_at (array (text "yes" ∷ num (pos 3) ∷ []))

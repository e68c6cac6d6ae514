-- ===== src/EventPayloads.antt =====
-- event_payloads.py, and extract_session_id of runners/codex.py: what is kept of an agent's event.
-- Numbers of an event are integers.
pub mod Bounds
use remote_control_pjt.Prelude.{
  ℕ, ℤ, pos, zero, suc, ◌-◌, leb, String, Bool, true, false, ◌||◌, Option, none, some, List, [],
  ◌∷◌, ◌==◌, string_eq, if◌then◌else◌,
}
use remote_control_pjt.Json.{Json, Items, Fields, null, text, arr, obj, get_field}
use remote_control_pjt.HumanGate.{or_else}

-- `d[key] = value`
abbrev pub set_field : String → Json → Fields → Fields
set_field k j Fields.end = Fields.field k j Fields.end
set_field k j (Fields.field l i r) =
    if l == k then Fields.field l j r else Fields.field l i (set_field k j r)

-- `if value is not None: d[key] = value`, as the code spells it for each kind of value.
abbrev pub set_some : String → Option Json → Fields → Fields
set_some k none d = d
set_some k (some j) d = set_field k j d

-- `isinstance(value, str) and value`
abbrev pub filled_text : Json → Option String
filled_text (Json.text s) = if s == "" then none else some s
filled_text _ = none

abbrev pub id_of_thread : Json → Option String
id_of_thread (Json.obj thread) = filled_text (get_field "id" thread)
id_of_thread _ = none

abbrev pub or_some : Option String → Option String → Option String
or_some (some s) o = some s
or_some none o = o

-- `extract_session_id`
abbrev pub extract_session_id : Fields → Option String
extract_session_id event =
    or_some (filled_text (get_field "thread_id" event)) (
      or_some (filled_text (get_field "session_id" event))
        (id_of_thread (get_field "thread" event)))

-- `isinstance(value, (str, int, float))`, where a `bool` is an `int`.
abbrev pub text_or_number : Json → Option Json
text_or_number (Json.text s) = some (Json.text s)
text_or_number (Json.num n) = some (Json.num n)
text_or_number (Json.flag b) = some (Json.flag b)
text_or_number _ = none

-- `isinstance(value, int)`
abbrev pub number : Json → Option Json
number (Json.num n) = some (Json.num n)
number (Json.flag b) = some (Json.flag b)
number _ = none

abbrev pub message_keys : List String
message_keys = "message" ∷ "text" ∷ "error" ∷ []

abbrev pub question_keys : List String
question_keys = "question" ∷ "prompt" ∷ "details" ∷ "description" ∷ "header" ∷ "approval_type" ∷ []

abbrev pub time_keys : List String
time_keys = "resets_at" ∷ "reset_at" ∷ "retry_at" ∷ "retry_after" ∷ "retry_after_seconds" ∷ []

abbrev pub item_keys : List String
item_keys = "text" ∷ "content" ∷ "command" ∷ "status" ∷ question_keys

abbrev pub item_limit : String → ℕ
item_limit key = if key == "command" then 400 else 1200

-- The values of the time keys are kept as they are.
abbrev pub copy_times : List String → Fields → Fields → Fields
copy_times [] event d = d
copy_times (k ∷ ks) event d =
    copy_times ks event (set_some k (text_or_number (get_field k event)) d)

-- `len(s)`, the number of a text's characters.
abbrev pub chars : String → ℕ
chars String.[] = 0
chars (String.◌∷◌ c s) = suc (chars s)

-- `s[:n]`
abbrev pub first_chars : ℕ → String → String
first_chars zero s = ""
first_chars (suc n) String.[] = ""
first_chars (suc n) (String.◌∷◌ c s) = String.◌∷◌ c (first_chars n s)

-- `s + "…"`
abbrev pub dots : String → String
dots String.[] = "…"
dots (String.◌∷◌ c s) = String.◌∷◌ c (dots s)

-- `str` of a value that is not a text; and `detect_quota_event`, as the time it reads, printed.
module _ (repr : Json → String) (reset_at : Fields → Option String) where
  -- `_truncate`
  unfoldable pub truncate : String → ℕ → String
  truncate value limit =
      if leb (chars value) limit then value else dots (first_chars (limit - 1) value)

  abbrev pub truncated : ℕ → Json → Option Json
  truncated limit (Json.text s) = some (Json.text (truncate s limit))
  truncated limit _ = none

  -- The texts under some keys, each cut at its key's limit.
  abbrev pub copy_texts : (String → ℕ) → List String → Fields → Fields → Fields
  copy_texts limit [] event d = d
  copy_texts limit (k ∷ ks) event d =
      copy_texts limit ks event (set_some k (truncated (limit k) (get_field k event)) d)

  abbrev pub clean_value : Json → Option Json
  clean_value (Json.text s) = some (Json.text (truncate s 500))
  clean_value (Json.num n) = some (Json.num n)
  clean_value (Json.flag b) = some (Json.flag b)
  clean_value Json.null = some Json.null
  clean_value _ = none

  -- The loop over the first fields of an option.
  abbrev pub clean_fields : ℕ → Fields → Fields → Fields
  clean_fields zero r clean = clean
  clean_fields (suc n) Fields.end clean = clean
  clean_fields (suc n) (Fields.field k j r) clean =
      clean_fields n r (set_some (first_chars 64 k) (clean_value j) clean)

  -- `_sanitize_option`
  unfoldable pub sanitize_option : Json → Json
  sanitize_option (Json.obj value) = Json.obj (clean_fields 8 value Fields.end)
  sanitize_option (Json.text s) = Json.text (truncate s 500)
  sanitize_option (Json.arr xs) = Json.text (truncate (repr (Json.arr xs)) 500)
  sanitize_option j = j

  abbrev pub sanitize_items : ℕ → Items → Items
  sanitize_items zero xs = Items.nil
  sanitize_items (suc n) Items.nil = Items.nil
  sanitize_items (suc n) (Items.cons x xs) = Items.cons (sanitize_option x) (sanitize_items n xs)

  -- `[_sanitize_option(item) for item in options[:8]]`, of a list.
  abbrev pub sanitize_options : Json → Option Json
  sanitize_options (Json.arr xs) = some (Json.arr (sanitize_items 8 xs))
  sanitize_options _ = none

  abbrev pub str : Json → String
  str (Json.text s) = s
  str j = repr j

  abbrev pub sanitize_item : Json → Option Json
  sanitize_item (Json.obj item) = some (
      Json.obj (
        set_some "exit_code" (number (get_field "exit_code" item)) (
          set_some "options" (sanitize_options (get_field "options" item)) (
            copy_texts item_limit item_keys item (
              Fields.field "type"
                (Json.text (truncate (str (or_else (get_field "type" item) (Json.text ""))) 128))
                Fields.end)))))
  sanitize_item _ = none

  abbrev pub some_text : Option String → Option Json
  some_text none = none
  some_text (some s) = some (Json.text s)

  abbrev pub session_text : Option String → Option Json
  session_text none = none
  session_text (some s) = some (Json.text (truncate s 255))

  -- `sanitize_agent_event`
  unfoldable pub sanitize_agent_event : Fields → Fields
  sanitize_agent_event event =
      let named = set_some "thread_id" (session_text (extract_session_id event)) (
        set_some "event_type" (truncated 128 (get_field "event_type" event)) (
          Fields.field "type"
            (Json.text (str (or_else (get_field "type" event) (Json.text "agent_event"))))
            Fields.end)) in
      let texts =
        copy_texts (λ k. 2000) question_keys event
          (copy_texts (λ k. 1200) message_keys event named) in
      let timed =
        set_some "reset_at" (some_text (reset_at event)) (copy_times time_keys event texts) in
      set_some "item" (sanitize_item (get_field "item" event))
        (set_some "options" (sanitize_options (get_field "options" event)) timed)

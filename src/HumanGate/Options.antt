-- ===== src/HumanGate/Options.antt =====
-- The options of the questions that human_gate.py reads.
use remote_control_pjt.Prelude.{
  ℕ, suc, ◌≤◌, ◌≡◌, inl, inr, String, Bool, true, not, ◌&&◌, Option, none, some, List, [], ◌∷◌,
  ◌==◌, string_eq, length, All, Bool-cases, Option-cases, arith,
}
use remote_control_pjt.Json.{Json, Items, Fields, get_field}
use remote_control_pjt.Approvals.{ApprovalOption, HumanGateRequest}
use remote_control_pjt.HumanGate.{
  add_option, behind, extract_human_gate, extract_human_gate_from_text, first_parsed, first_some,
  folded, from, from_payload, human_gate_marker, is_gate_name, letters, of_decoded, of_item,
  of_payload, option_if, or_approve, or_else, parse_items, parse_options, stripped, texts_of,
  under_first,
}

module _ (strip casefold : String → String) (first_chars : ℕ → String → String)
    (repr : Json → String) (is_option_key : String → Bool) (raw_decode : String → Option Json) where
  -- Every option can be named by its key.
  abbrev pub HasKeys : List ApprovalOption → Type 0
  HasKeys os = All (λ (o : ApprovalOption). is_option_key o.key ≡ true) os

  -- A question, where there is one, offers between one and eight options, all with valid keys.
  abbrev pub IsAnswerable : Option HumanGateRequest → Type 0
  IsAnswerable none = Unit
  IsAnswerable (some r) = HasKeys r.options × ((1 ≤ length r.options) × (length r.options ≤ 8))

  -- At most n options, all with valid keys.
  abbrev IsWithin : ℕ → List ApprovalOption → Type 0
  IsWithin n os = HasKeys os × (length os ≤ n)

  option_if-IsWithin :
      (key label : String) (d : Option String) (rest : List ApprovalOption) (n : ℕ)
      → IsWithin n rest
      → IsWithin
          (suc n)
          (option_if strip casefold first_chars repr is_option_key raw_decode key label d rest)
  option_if-IsWithin key label d rest n (keys, most) = elim (Bool-cases (is_option_key key)) [
    | inl valid ↦ elim (Bool-cases (label == "")) [
      | inl blank ↦ rw (valid, blank) (keys, omega arith)
      | inr filled ↦ rw (valid, filled) ((valid, keys), omega arith)
    ]
    | inr refused ↦ rw refused (keys, omega arith)
  ]

  abbrev add : String → Json → List ApprovalOption → List ApprovalOption
  add = add_option strip casefold first_chars repr is_option_key raw_decode

  add_option-IsWithin :
      (letter : String) (item : Json) (rest : List ApprovalOption) (n : ℕ)
      → IsWithin n rest
      → IsWithin (suc n) (add letter item rest)
  add_option-IsWithin letter (Json.text s) rest n h =
      option_if-IsWithin (strip s) (strip s) none rest n h
  add_option-IsWithin letter (Json.obj item) rest n h = option_if-IsWithin _ _ _ rest n h
  add_option-IsWithin letter Json.null rest n (keys, most) = (keys, omega arith)
  add_option-IsWithin letter (Json.flag b) rest n (keys, most) = (keys, omega arith)
  add_option-IsWithin letter (Json.num i) rest n (keys, most) = (keys, omega arith)
  add_option-IsWithin letter (Json.arr xs) rest n (keys, most) = (keys, omega arith)

  parse_items-IsWithin :
      (ls : List String) (items : Items)
      → IsWithin
          (length ls)
          (parse_items strip casefold first_chars repr is_option_key raw_decode ls items)
  parse_items-IsWithin [] items = (tt, omega arith)
  parse_items-IsWithin (l ∷ ls) Items.nil = (tt, omega arith)
  parse_items-IsWithin (l ∷ ls) (Items.cons item items) =
      add_option-IsWithin l item _ (length ls) (parse_items-IsWithin ls items)

  parse_options-IsWithin :
      (raw : Json)
      → IsWithin 8 (parse_options strip casefold first_chars repr is_option_key raw_decode raw)
  unfolding parse_options
  parse_options-IsWithin (Json.arr items) = parse_items-IsWithin letters items
  parse_options-IsWithin Json.null = (tt, omega arith)
  parse_options-IsWithin (Json.flag b) = (tt, omega arith)
  parse_options-IsWithin (Json.num i) = (tt, omega arith)
  parse_options-IsWithin (Json.text s) = (tt, omega arith)
  parse_options-IsWithin (Json.obj r) = (tt, omega arith)

  first_some-IsAnswerable :
      (a b : Option HumanGateRequest)
      → IsAnswerable a
      → IsAnswerable b
      → IsAnswerable (first_some a b)
  first_some-IsAnswerable none b h k = k
  first_some-IsAnswerable (some r) b h k = h

  -- The pattern of the keys accepts the key of the option that stands in for missing ones.
  module _ (accepts_approve : is_option_key "APPROVE" ≡ true) where
    or_approve-within :
        (os : List ApprovalOption)
        → IsWithin 8 os
        → HasKeys (or_approve strip casefold first_chars repr is_option_key raw_decode os)
          × ((1 ≤ length (or_approve strip casefold first_chars repr is_option_key raw_decode os))
              × (length (or_approve strip casefold first_chars repr is_option_key raw_decode os)
                  ≤ 8))
    or_approve-within [] h = ((accepts_approve, tt), (omega arith, omega arith))
    or_approve-within (o ∷ os) (keys, most) = (keys, (omega arith, most))

    from_payload-IsAnswerable :
        (payload : Fields)
        → IsAnswerable
            (from_payload strip casefold first_chars repr is_option_key raw_decode payload)
    unfolding from_payload
    from_payload-IsAnswerable payload =
        let p = under_first payload (get_field "questions" payload) in
        elim (Option-cases (
          stripped strip casefold first_chars repr is_option_key raw_decode
            (or_else (get_field "question" p) (get_field "prompt" p)))) [
              | inl absent ↦ rw (IsAnswerable, absent) tt
              | inr (q, found) ↦
                  rw (IsAnswerable, found)
                    (or_approve-within _ (parse_options-IsWithin (get_field "options" p)))
            ]

    of_decoded-IsAnswerable :
        (d : Option Json)
        → IsAnswerable (of_decoded strip casefold first_chars repr is_option_key raw_decode d)
    of_decoded-IsAnswerable none = tt
    of_decoded-IsAnswerable (some (Json.obj payload)) = from_payload-IsAnswerable payload
    of_decoded-IsAnswerable (some Json.null) = tt
    of_decoded-IsAnswerable (some (Json.flag b)) = tt
    of_decoded-IsAnswerable (some (Json.num i)) = tt
    of_decoded-IsAnswerable (some (Json.text s)) = tt
    of_decoded-IsAnswerable (some (Json.arr xs)) = tt

    extract_human_gate_from_text-IsAnswerable :
        (s : String)
        → IsAnswerable (
            extract_human_gate_from_text strip casefold first_chars repr is_option_key raw_decode s)
    unfolding extract_human_gate_from_text
    extract_human_gate_from_text-IsAnswerable s = elim (Option-cases (behind human_gate_marker s)) [
      | inl absent ↦ rw (IsAnswerable, absent) tt
      | inr (tail, found) ↦ elim (Option-cases (from "{" tail)) [
        | inl absent ↦ rw (IsAnswerable, found, absent) tt
        | inr (object, at) ↦
            rw (IsAnswerable, found, at) (of_decoded-IsAnswerable (raw_decode object))
      ]
    ]

    first_parsed-IsAnswerable :
        (ss : List String)
        → IsAnswerable (first_parsed strip casefold first_chars repr is_option_key raw_decode ss)
    first_parsed-IsAnswerable [] = tt
    first_parsed-IsAnswerable (s ∷ ss) =
        first_some-IsAnswerable _ _ (extract_human_gate_from_text-IsAnswerable s)
          (first_parsed-IsAnswerable ss)

    of_item-IsAnswerable :
        (event : Fields) (item : Json)
        → IsAnswerable (of_item strip casefold first_chars repr is_option_key raw_decode event item)
    of_item-IsAnswerable event (Json.obj item) =
        elim (Bool-cases (
          is_gate_name (
            folded strip casefold first_chars repr is_option_key raw_decode (get_field "type" item))
          && not (
              folded strip casefold first_chars repr is_option_key raw_decode
                (get_field "type" item)
              == "human.gate"))) [
                | inl gate ↦ rw gate (from_payload-IsAnswerable item)
                | inr other ↦ rw other (
                    first_some-IsAnswerable _ _
                      (first_parsed-IsAnswerable (texts_of ("text" ∷ "content" ∷ []) item))
                      (first_parsed-IsAnswerable (texts_of ("message" ∷ "text" ∷ []) event)))
              ]
    of_item-IsAnswerable event Json.null =
        first_parsed-IsAnswerable (texts_of ("message" ∷ "text" ∷ []) event)
    of_item-IsAnswerable event (Json.flag b) =
        first_parsed-IsAnswerable (texts_of ("message" ∷ "text" ∷ []) event)
    of_item-IsAnswerable event (Json.num i) =
        first_parsed-IsAnswerable (texts_of ("message" ∷ "text" ∷ []) event)
    of_item-IsAnswerable event (Json.text s) =
        first_parsed-IsAnswerable (texts_of ("message" ∷ "text" ∷ []) event)
    of_item-IsAnswerable event (Json.arr xs) =
        first_parsed-IsAnswerable (texts_of ("message" ∷ "text" ∷ []) event)

    of_payload-IsAnswerable :
        (payload : Json) (o : Option HumanGateRequest)
        → IsAnswerable o
        → IsAnswerable
            (of_payload strip casefold first_chars repr is_option_key raw_decode payload o)
    of_payload-IsAnswerable (Json.obj payload) o h = from_payload-IsAnswerable payload
    of_payload-IsAnswerable Json.null o h = h
    of_payload-IsAnswerable (Json.flag b) o h = h
    of_payload-IsAnswerable (Json.num i) o h = h
    of_payload-IsAnswerable (Json.text s) o h = h
    of_payload-IsAnswerable (Json.arr xs) o h = h

    -- Where the pattern of the keys accepts APPROVE, which stands in for missing options: a question
    -- that is read from an agent's event can be answered. It offers at least one option and eight
    -- at most, and the key of each one matches the pattern.
    pub extract_human_gate-IsAnswerable :
        (event : Fields)
        → IsAnswerable
            (extract_human_gate strip casefold first_chars repr is_option_key raw_decode event)
    unfolding extract_human_gate
    extract_human_gate-IsAnswerable event =
        let rest = of_item-IsAnswerable event (get_field "item" event) in
        elim (Bool-cases (
          is_gate_name (
            folded strip casefold first_chars repr is_option_key raw_decode
              (or_else (get_field "type" event) (get_field "event_type" event))))) [
                | inl gate ↦ rw gate (of_payload-IsAnswerable _ _ rest)
                | inr other ↦ rw other rest
              ]

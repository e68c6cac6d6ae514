-- ===== src/EventPayloads/Bounds.antt =====
-- The size of the options that event_payloads.py keeps of an agent's event.
use remote_control_pjt.Prelude.{
  ℕ, zero, suc, ◌-◌, ◌≤◌, ◌≡◌, refl, inl, inr, leb, String, Option, none, some, ◌==◌, string_eq,
  Bool-cases, arith,
}
use remote_control_pjt.Json.{Json, Items, Fields}
use remote_control_pjt.EventPayloads.{
  chars, first_chars, dots, set_field, set_some, truncate, clean_value, clean_fields,
  sanitize_option, sanitize_items, sanitize_options,
}

-- No text longer than the limit, no list and no object.
abbrev pub IsPlain : ℕ → Json → Type 0
IsPlain n (Json.text s) = chars s ≤ n
IsPlain n (Json.arr xs) = ⊥
IsPlain n (Json.obj r) = ⊥
IsPlain n j = Unit

abbrev pub ArePlain : ℕ → Fields → Type 0
ArePlain n Fields.end = Unit
ArePlain n (Fields.field k j r) = IsPlain n j × ArePlain n r

-- A plain value, or an object of plain values.
abbrev pub IsShort : Json → Type 0
IsShort (Json.obj r) = ArePlain 500 r
IsShort j = IsPlain 500 j

-- A list of so many items at most, all short.
abbrev pub AreShort : ℕ → Items → Type 0
AreShort n Items.nil = Unit
AreShort zero (Items.cons x xs) = ⊥
AreShort (suc n) (Items.cons x xs) = IsShort x × AreShort n xs

abbrev pub IsShortList : Option Json → Type 0
IsShortList none = Unit
IsShortList (some (Json.arr xs)) = AreShort 8 xs
IsShortList (some j) = ⊥

abbrev IsPlainOption : Option Json → Type 0
IsPlainOption none = Unit
IsPlainOption (some j) = IsPlain 500 j

set_field-ArePlain :
    (k : String) (j : Json) (d : Fields)
    → IsPlain 500 j
    → ArePlain 500 d
    → ArePlain 500 (set_field k j d)
set_field-ArePlain k j Fields.end h hs = (h, tt)
set_field-ArePlain k j (Fields.field l i r) h (g, gs) = elim (Bool-cases (l == k)) [
  | inl same ↦ rw same (h, gs)
  | inr other ↦ rw other (g, set_field-ArePlain k j r h gs)
]

set_some-ArePlain :
    (k : String) (o : Option Json) (d : Fields)
    → IsPlainOption o
    → ArePlain 500 d
    → ArePlain 500 (set_some k o d)
set_some-ArePlain k none d h hs = hs
set_some-ArePlain k (some j) d h hs = set_field-ArePlain k j d h hs

first_chars-le : (n : ℕ) (s : String) → chars (first_chars n s) ≤ n
first_chars-le zero s = omega arith
first_chars-le (suc n) String.[] = omega arith
first_chars-le (suc n) (String.◌∷◌ c s) = omega (arith, first_chars-le n s)

dots-suc : (s : String) → chars (dots s) ≡ suc (chars s)
dots-suc String.[] = refl
dots-suc (String.◌∷◌ c s) = omega (arith, dots-suc s)

module _ (repr : Json → String) (reset_at : Fields → Option String) where
  truncate-le : (s : String) (n : ℕ) → 1 ≤ n → chars (truncate repr reset_at s n) ≤ n
  unfolding truncate
  truncate-le s n h = elim (Bool-cases (leb (chars s) n)) [
    | inl fits ↦ rw fits (ground arith)
    | inr long ↦
        rw (long, dots-suc (first_chars (n - 1) s)) (omega (arith, first_chars-le (n - 1) s))
  ]

  clean_value-IsPlain : (j : Json) → IsPlainOption (clean_value repr reset_at j)
  clean_value-IsPlain (Json.text s) = truncate-le s 500 (omega arith)
  clean_value-IsPlain (Json.num n) = tt
  clean_value-IsPlain (Json.flag b) = tt
  clean_value-IsPlain Json.null = tt
  clean_value-IsPlain (Json.arr xs) = tt
  clean_value-IsPlain (Json.obj r) = tt

  clean_fields-ArePlain :
      (n : ℕ) (r clean : Fields)
      → ArePlain 500 clean
      → ArePlain 500 (clean_fields repr reset_at n r clean)
  clean_fields-ArePlain zero r clean h = h
  clean_fields-ArePlain (suc n) Fields.end clean h = h
  clean_fields-ArePlain (suc n) (Fields.field k j r) clean h =
      clean_fields-ArePlain n r _ (set_some-ArePlain _ _ clean (clean_value-IsPlain j) h)

  sanitize_option-IsShort : (j : Json) → IsShort (sanitize_option repr reset_at j)
  unfolding sanitize_option
  sanitize_option-IsShort (Json.obj r) = clean_fields-ArePlain 8 r Fields.end tt
  sanitize_option-IsShort (Json.text s) = truncate-le s 500 (omega arith)
  sanitize_option-IsShort (Json.arr xs) = truncate-le (repr (Json.arr xs)) 500 (omega arith)
  sanitize_option-IsShort Json.null = tt
  sanitize_option-IsShort (Json.num n) = tt
  sanitize_option-IsShort (Json.flag b) = tt

  sanitize_items-AreShort : (n : ℕ) (xs : Items) → AreShort n (sanitize_items repr reset_at n xs)
  sanitize_items-AreShort zero xs = tt
  sanitize_items-AreShort (suc n) Items.nil = tt
  sanitize_items-AreShort (suc n) (Items.cons x xs) =
      (sanitize_option-IsShort x, sanitize_items-AreShort n xs)

  -- Of the options of an agent's event, eight at most are kept, each a text of 500 characters at
  -- most, a number, a truth value, null, or an object of such values, whatever the agent has sent.
  pub sanitize_options-IsShortList :
      (options : Json) → IsShortList (sanitize_options repr reset_at options)
  sanitize_options-IsShortList (Json.arr xs) = sanitize_items-AreShort 8 xs
  sanitize_options-IsShortList (Json.obj r) = tt
  sanitize_options-IsShortList (Json.text s) = tt
  sanitize_options-IsShortList Json.null = tt
  sanitize_options-IsShortList (Json.num n) = tt
  sanitize_options-IsShortList (Json.flag b) = tt

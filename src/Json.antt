-- ===== src/Json.antt =====
-- The values that `json.dumps` writes and `json.loads` reads. A column that holds JSON text is
-- modelled by the value that its text stands for.
use remote_control_pjt.Prelude.{
  ℕ, ℤ, pos, Bool, String, Option, none, some, List, [], ◌∷◌, ◌==◌, string_eq, if◌then◌else◌,
}

mutual
  pub data Json : Type 0 where
    null : Json
    flag : Bool → Json
    num : ℤ → Json
    text : String → Json
    arr : Items → Json
    obj : Fields → Json

  pub data Items : Type 0 where
    nil : Items
    cons : Json → Items → Items

  pub data Fields : Type 0 where
    end : Fields
    field : String → Json → Fields → Fields

abbrev pub items : List Json → Items
items [] = nil
items (x ∷ xs) = cons x (items xs)

abbrev pub fields : List (String × Json) → Fields
fields [] = end
fields ((k, v) ∷ r) = field k v (fields r)

-- A Python list and a Python dict, as `json.dumps` is given them.
abbrev pub array : List Json → Json
array xs = arr (items xs)

abbrev pub object : List (String × Json) → Json
object xs = obj (fields xs)

-- `None` becomes `null`.
abbrev pub opt_text : Option String → Json
opt_text none = null
opt_text (some s) = text s

abbrev pub opt_int : Option ℤ → Json
opt_int none = null
opt_int (some n) = num n

abbrev pub opt_num : Option ℕ → Json
opt_num none = null
opt_num (some n) = num (pos n)

-- `d.get(key)` of a parsed object, where a missing key gives `None`.
abbrev pub get_field : String → Fields → Json
get_field k end = null
get_field k (field j v r) = if j == k then v else get_field k r

abbrev pub as_text : Json → Option String
as_text (text s) = some s
as_text _ = none

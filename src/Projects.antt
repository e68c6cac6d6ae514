-- ===== src/Projects.antt =====
-- projects/models.py, and the lookup of projects/registry.py: the configured projects and their
-- working directories.
use remote_control_pjt.Prelude.{
  not, String, Option, none, some, List, [], ◌∷◌, contains, first, ◌==◌, string_eq, nat_eq,
  option_eq, if◌then◌else◌,
}
use remote_control_pjt.Result.{Error, Result, ok, err}

pub record ProjectDefinition : Type 0 where
  pub id : String
  pub name : String
  -- `repository.path`, in the order of the configuration
  pub path : List (String × String)
  pub allowed_hosts : List String
  pub default_host : Option String
  pub adapter : String

-- `d.get(key)` on a dict.
abbrev pub dict_get : String → List (String × String) → Option String
dict_get k [] = none
dict_get k ((j, v) ∷ d) = if j == k then some v else dict_get k d

-- `if not path`: a missing path, or an empty one.
abbrev pub non_empty : Option String → Option String
non_empty none = none
non_empty (some s) = if s == "" then none else some s

unfoldable pub path_for : ProjectDefinition → String → Result String
path_for p host_id =
    if not (contains p.allowed_hosts host_id)
    then err Error.value_error
    else elim (non_empty (dict_get host_id p.path)) [
      | none ↦ err Error.value_error
      | some path ↦ ok path
    ]

-- `a or b` on texts that may be missing.
abbrev pub or_text : Option String → Option String → Option String
or_text a b = elim (non_empty a) [ none ↦ b | some s ↦ some s ]

-- `ProjectRegistry.get`
unfoldable pub get_project : List ProjectDefinition → String → Result ProjectDefinition
get_project projects project_id = elim (first (λ p. p.id == project_id) projects) [
  | none ↦ err Error.key_error
  | some p ↦ ok p
]

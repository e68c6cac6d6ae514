-- ===== src/Hosts/Router.antt =====
-- `HostRouter`: the host that a job of a project runs on.
use remote_control_pjt.Prelude.{
  ℕ, Bool, true, false, not, String, Option, none, some, List, [], ◌∷◌, ◌++◌, contains, ◌==◌,
  string_eq, nat_eq, option_eq, if◌then◌else◌,
}
use remote_control_pjt.Result.{Error}
use remote_control_pjt.World.{Action, pure, raise, raise_if, lift, ◌>>=◌, ◌>>◌}
use remote_control_pjt.Projects.{ProjectDefinition, dict_get, path_for}
use remote_control_pjt.Hosts.Registry

-- `if project.default_host`: an empty text counts as none.
abbrev pub default_candidates : Option String → List String
default_candidates none = []
default_candidates (some h) = if h == "" then [] else h ∷ []

-- `candidates.extend(host for host in … if host not in candidates)`: the generator sees each host
-- that it has already added.
unfoldable pub extend_from : List String → List String → List String
extend_from candidates [] = candidates
extend_from candidates (h ∷ hs) =
    extend_from (if contains candidates h then candidates else candidates ++ h ∷ []) hs

unfoldable pub candidates : ProjectDefinition → List String
unfolding extend_from
candidates p = extend_from (default_candidates p.default_host) p.allowed_hosts

abbrev pub has_path : ProjectDefinition → String → Bool
has_path p host_id = elim (dict_get host_id p.path) [ none ↦ false | some _ ↦ true ]

module _ (local_host_id : String) (timeout : ℕ) where
  -- The first candidate with a path that is online.
  unfoldable pub choose_from : ProjectDefinition → List String → Action String
  choose_from p [] = raise Error.host_unavailable
  choose_from p (h ∷ hs) =
      let rest = choose_from p hs in
      if not (has_path p h)
      then rest
      else do online ← Registry.is_online local_host_id timeout h; if online then pure h else rest

  unfoldable pub require : ProjectDefinition → String → Action String
  require p host_id = do
    raise_if (not (contains p.allowed_hosts host_id)) Error.host_unavailable
    lift (path_for p host_id)
    online ← Registry.is_online local_host_id timeout host_id
    raise_if (not online) Error.host_unavailable
    pure host_id

  unfoldable pub choose : ProjectDefinition → String → Action String
  unfolding choose_from candidates require
  choose p requested_host =
      if not (requested_host == "auto")
      then require p requested_host
      else choose_from p (candidates p)

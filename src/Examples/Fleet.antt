-- ===== src/Examples/Fleet.antt =====
-- Hosts of the example database.
use remote_control_pjt.Prelude.{◌≡◌, String, contains, Distinct, first, ◌&&◌, ◌||◌, string_eq}
use remote_control_pjt.Hosts.Registry.{expire_stale, disconnect}
use remote_control_pjt.Hosts.Expiry.{row_of, local_host_stays}
use remote_control_pjt.Hosts.Router.{choose, candidates, default_candidates, has_path}
use remote_control_pjt.Hosts.Choice.{choose-first, candidates_complete, online_now, or_unavailable}
use remote_control_pjt.Examples.Database.{database, project}

local_host_stays_example :
    (row_of "desk" (expire_stale "desk" 30 100 database).1 ≡ row_of "desk" database)
    × (row_of "desk" (disconnect "desk" 30 "laptop" database).1 ≡ row_of "desk" database)
local_host_stays_example = local_host_stays "desk" 30 100 "laptop" database

choose-first_example : choose "desk" 30 project "auto" database ≡ (
  or_unavailable "desk" 30 project database (
      first
        (λ h. has_path project h && online_now "desk" 30 project database h)
        (candidates project)),
  database,
)
choose-first_example = choose-first "desk" 30 project database

candidates_complete_example :
    Distinct (candidates project)
    × ((k : String)
        → contains (candidates project) k ≡ (
            contains (default_candidates project.default_host) k
            || contains project.allowed_hosts k))
candidates_complete_example = candidates_complete project

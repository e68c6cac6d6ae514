-- ===== src/Repositories/Hosts.antt =====
-- `HostRepository`: the table of runner hosts.
use remote_control_pjt.Prelude.{
  Bool, false, String, Option, none, some, List, [], ◌∷◌, ◌++◌, first, change, has_key, string_eq,
  string_leb, sort_by, nat_eq, option_eq,
}
use remote_control_pjt.Result.{Error}
use remote_control_pjt.World.{Action, pure, gets, or_raise, commit, ◌>>=◌, ◌>>◌}
use remote_control_pjt.Records.{HostRecord}

abbrev pub by_id : String → HostRecord → Bool
by_id = has_key (λ r. r.id)

unfoldable pub get : String → Action (Option HostRecord)
get host_id = gets (λ w. first (by_id host_id) w.hosts)

unfoldable pub list : Action (List HostRecord)
list = gets (λ w. sort_by (λ a b. string_leb a.id b.id) w.hosts)

abbrev pub or_old : Option String → Option String → Option String
or_old none old = old
or_old (some new) old = some new

-- What `upsert` sets on a row that is there: a runner identity of `None` keeps the old one.
unfoldable pub merge : HostRecord → HostRecord → HostRecord
merge record' current = record current {
  name = record'.name;
  os = record'.os;
  status = record'.status;
  capabilities_json = record'.capabilities_json;
  last_heartbeat = record'.last_heartbeat;
  runner_instance_id = or_old record'.runner_instance_id current.runner_instance_id;
  runner_boot_id = or_old record'.runner_boot_id current.runner_boot_id;
}

unfoldable pub write : HostRecord → Option HostRecord → Action HostRecord
write r none = do commit false (λ w. record w { hosts = w.hosts ++ r ∷ [] }); pure r
write r (some current) = do
  commit false (λ w. record w { hosts = change (by_id r.id) (merge r) w.hosts })
  pure (merge r current)

unfoldable pub upsert : HostRecord → Action HostRecord
unfolding write
upsert r = do current ← gets (λ w. first (by_id r.id) w.hosts); write r current

unfoldable pub update : String → (HostRecord → HostRecord) → Action HostRecord
update host_id changes = do
  r ← or_raise (← gets (λ w. first (by_id host_id) w.hosts)) Error.key_error
  commit false (λ w. record w { hosts = change (by_id host_id) changes w.hosts })
  pure (changes r)

-- ===== src/Hosts/Registry.antt =====
-- `HostRegistry`: registration, heartbeats and their expiry. The controller's own host has no
-- heartbeat and never expires.
use remote_control_pjt.Prelude.{
  ℕ, ◌+◌, leb, Bool, false, not, ◌&&◌, ◌||◌, String, Option, none, some, List, [], ◌∷◌, map, ◌==◌,
  string_eq, nat_eq, option_eq, if◌then◌else◌,
}
use remote_control_pjt.Json.{Json, Items, nil, cons, arr, object, array, text}
use remote_control_pjt.World.{Action, pure, now, when, ◌>>=◌, ◌>>◌}
use remote_control_pjt.Repositories.Events.{append}
use mathlib.Core.Option
use remote_control_pjt.Statuses.{HostStatus, host_status_eq}
use remote_control_pjt.Records.{HostRecord}
use remote_control_pjt.Repositories.Hosts

pub record HostInfo : Type 0 where
  pub id : String
  pub name : String
  pub os : String
  pub status : HostStatus
  pub capabilities : List Json
  pub last_heartbeat : Option ℕ
  pub runner_instance_id : Option String
  pub runner_boot_id : Option String

abbrev list_of : Items → List Json
list_of nil = []
list_of (cons x xs) = x ∷ list_of xs

-- `set(json.loads(…))`, where a column that does not hold a JSON list counts as empty.
abbrev pub capabilities_of : Option Json → List Json
capabilities_of (some (arr xs)) = list_of xs
capabilities_of _ = []

-- `_info`
unfoldable pub info : HostRecord → HostInfo
info r = record {
  id = r.id;
  name = r.name;
  os = r.os;
  status = r.status;
  capabilities = capabilities_of r.capabilities_json;
  last_heartbeat = r.last_heartbeat;
  runner_instance_id = r.runner_instance_id;
  runner_boot_id = r.runner_boot_id;
}

-- Whether more than the timeout has passed since the heartbeat; a host with none is not stale.
abbrev pub is_stale : ℕ → ℕ → Option ℕ → Bool
is_stale timeout t none = false
is_stale timeout t (some heartbeat) = not (leb t (heartbeat + timeout))

-- `existing is None or existing.status != ONLINE`, negated.
abbrev is_online_record : Option HostRecord → Bool
is_online_record none = false
is_online_record (some r) = r.status == HostStatus.online

abbrev pub is_online_info : Option HostInfo → Bool
is_online_info none = false
is_online_info (some i) = i.status == HostStatus.online

-- `register`; `capabilities` come sorted.
unfoldable pub register :
    String → String → String → List String → Option String → Option String → Action HostInfo
unfolding info
register host_id name os_name capabilities runner_instance_id runner_boot_id = do
  t ← now
  existing ← Hosts.get host_id
  stored ← Hosts.upsert (record {
    id = host_id;
    name = name;
    os = os_name;
    status = HostStatus.online;
    capabilities_json = some (array (map text capabilities));
    last_heartbeat = some t;
    runner_instance_id = runner_instance_id;
    runner_boot_id = runner_boot_id;
  })
  when (not (is_online_record existing)) (
      append "HOST_ONLINE" none none (some host_id)
        (object (("os", text os_name) ∷ ("capabilities", array (map text capabilities)) ∷ []))
      >> pure tt)
  pure (info stored)

unfoldable pub heartbeat : String → Action HostInfo
unfolding info
heartbeat host_id = do
  existing ← Hosts.get host_id
  t ← now
  stored ←
      Hosts.update host_id (λ r. record r { status = HostStatus.online; last_heartbeat = some t })
  when (not (is_online_record existing))
      (append "HOST_ONLINE" none none (some host_id) (object []) >> pure tt)
  pure (info stored)

-- What the registry is set up with: the controller's own host and the heartbeat timeout.
module _ (local_host_id : String) (timeout : ℕ) where
  unfoldable pub register_local : String → String → List String → Action HostInfo
  register_local name os_name capabilities =
      register local_host_id name os_name capabilities none none

  abbrev pub is_up : Option HostRecord → Bool
  is_up none = false
  is_up (some r) = r.status == HostStatus.online

  unfoldable pub disconnect : String → Action (Unit {0})
  disconnect host_id = if host_id == local_host_id then pure tt else do
    found ← Hosts.get host_id
    when (is_up found) do
      Hosts.update host_id (λ r. record r { status = HostStatus.offline })
      append "HOST_OFFLINE" none none (some host_id) (object [])
      pure tt

  -- The tests of the loop in `expire_stale`, under which a record is passed over.
  abbrev pub is_expired : ℕ → HostRecord → Bool
  is_expired t r =
      not (r.id == local_host_id || not (r.status == HostStatus.online))
      && is_stale timeout t r.last_heartbeat

  unfoldable pub expire_all : ℕ → List HostRecord → Action (List String)
  expire_all t [] = pure []
  expire_all t (r ∷ rs) =
      let rest = expire_all t rs in
      if is_expired t r
      then (do
        Hosts.update r.id (λ h. record h { status = HostStatus.offline })
        append "HOST_OFFLINE" none none (some r.id)
            (object (("reason", text "heartbeat_expired") ∷ []))
        expired ← rest
        pure (r.id ∷ expired))
      else rest

  unfoldable pub expire_stale : ℕ → Action (List String)
  unfolding expire_all
  expire_stale t = do records ← Hosts.list; expire_all t records

  -- `_effective`: an online host whose heartbeat is stale is reported offline.
  unfoldable pub effective : ℕ → HostRecord → HostInfo
  unfolding info
  effective t r =
      if r.id == local_host_id
      then info r
      else if r.status == HostStatus.online && is_stale timeout t r.last_heartbeat
      then record (info r) { status = HostStatus.offline }
      else info r

  unfoldable pub get : String → Action (Option HostInfo)
  unfolding effective
  get host_id = do r ← Hosts.get host_id; t ← now; pure (Option.map (effective t) r)

  unfoldable pub list : Action (List HostInfo)
  unfolding effective
  list = do rs ← Hosts.list; t ← now; pure (map (effective t) rs)

  unfoldable pub is_online : String → Action Bool
  unfolding get
  is_online host_id = do found ← get host_id; pure (is_online_info found)

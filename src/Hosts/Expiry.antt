-- ===== src/Hosts/Expiry.antt =====
-- The controller's own host has no heartbeat and is never taken offline.
use remote_control_pjt.Prelude.{
  ℕ, ◌≡◌, refl, ap, true, false, String, Option, List, [], ◌∷◌, first, ◌==◌, string_eq,
  first-change_other, has_key_ne, Bool-cases, inl, inr,
}
use remote_control_pjt.Json.{Json}
use remote_control_pjt.Statuses.{host_status_eq}
use remote_control_pjt.Records.{HostRecord}
use remote_control_pjt.World.{World}
use remote_control_pjt.World.Keeps.{
  Keeps, pure-Keeps, raise-Keeps, gets-Keeps, lift-Keeps, or_raise-Keeps, if-Keeps, option-Keeps,
  bind-Keeps, catch-Keeps, commit-Keeps,
}
use remote_control_pjt.Repositories.Events.{append}
use remote_control_pjt.Repositories.Events.Retry.{append-frame}
use remote_control_pjt.Repositories.Hosts
use remote_control_pjt.Repositories.Hosts.{by_id}
use remote_control_pjt.Hosts.Registry.{disconnect, is_up, expire_stale, expire_all, is_expired}

-- What the table says of one host.
abbrev pub row_of : String → World → Option HostRecord
row_of host_id w = first (by_id host_id) w.hosts

append-Keeps :
    (local : String) (t : String) (j p h : Option String) (payload : Json)
    → Keeps (row_of local) (append t j p h payload)
append-Keeps local t j p h payload = record {
  at = λ w. ap (row_of local) (append-frame t j p h payload w);
}

update-Keeps :
    (local host_id : String) (changes : HostRecord → HostRecord)
    → ((r : HostRecord) → (changes r).id ≡ r.id)
    → (host_id == local) ≡ false
    → Keeps (row_of local) (Hosts.update host_id changes)
unfolding Hosts.update
update-Keeps local host_id changes keeps differs =
    bind-Keeps (row_of local) (gets-Keeps (row_of local) _) λ o.
      bind-Keeps (row_of local) (or_raise-Keeps (row_of local) o _) λ r.
        bind-Keeps (row_of local)
          (commit-Keeps (row_of local) false (λ w. refl)
            (λ w.
              first-change_other (by_id host_id) (by_id local) changes w.hosts
                (λ r h. has_key_ne (λ r. r.id) host_id local r differs h)
                (λ r h. rw (keeps r) (has_key_ne (λ r. r.id) host_id local r differs h))))
          (λ _. pure-Keeps (row_of local) _)

ruleset keeps = (
  pure-Keeps, raise-Keeps, gets-Keeps, lift-Keeps, or_raise-Keeps, if-Keeps, option-Keeps,
  bind-Keeps, catch-Keeps, append-Keeps,
)

module _ (local : String) (timeout : ℕ) where
  disconnect-Keeps : (host_id : String) → Keeps (row_of local) (disconnect local timeout host_id)
  unfolding disconnect Hosts.get
  disconnect-Keeps host_id = elim (Bool-cases (host_id == local)) [
    | inl same ↦ rw same (pure-Keeps (row_of local) tt)
    | inr differs ↦ rw differs (
        bind-Keeps (row_of local) (gets-Keeps (row_of local) _) λ found.
          if-Keeps (row_of local) (is_up local timeout found)
            (bind-Keeps (row_of local) (update-Keeps local host_id _ (λ r. refl) differs)
              (λ h. search keeps))
            (pure-Keeps (row_of local) tt))
  ]

  not_expired :
      (t : ℕ) (r : HostRecord) → (r.id == local) ≡ true → is_expired local timeout t r ≡ false
  not_expired t r h = rw h refl

  expire_all-Keeps :
      (t : ℕ) (rs : List HostRecord) → Keeps (row_of local) (expire_all local timeout t rs)
  unfolding expire_all
  expire_all-Keeps t [] = pure-Keeps (row_of local) []
  expire_all-Keeps t (r ∷ rs) =
      let rest = expire_all-Keeps t rs in
      elim (Bool-cases (r.id == local)) [
        | inl same ↦ rw (not_expired t r same) rest
        | inr differs ↦
            if-Keeps (row_of local) (is_expired local timeout t r)
              (bind-Keeps (row_of local) (update-Keeps local r.id _ (λ r. refl) differs) (λ h.
                bind-Keeps (row_of local) (append-Keeps local _ _ _ _ _)
                  (λ e. bind-Keeps (row_of local) rest (λ ids. pure-Keeps (row_of local) _))))
              rest
      ]

  expire_stale-Keeps : (t : ℕ) → Keeps (row_of local) (expire_stale local timeout t)
  unfolding expire_stale Hosts.list
  expire_stale-Keeps t =
      bind-Keeps (row_of local) (gets-Keeps (row_of local) _) (expire_all-Keeps t)

  -- Neither the expiry of stale hosts nor a disconnect changes what the table says of the
  -- controller's own host, whatever they return.
  pub local_host_stays :
      (t : ℕ) (host_id : String) (w : World)
      → (row_of local (expire_stale local timeout t w).1 ≡ row_of local w)
        × (row_of local (disconnect local timeout host_id w).1 ≡ row_of local w)
  local_host_stays t host_id w = ((expire_stale-Keeps t).at w, (disconnect-Keeps host_id).at w)

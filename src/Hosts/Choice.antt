-- ===== src/Hosts/Choice.antt =====
-- The host that the router chooses is one that the project allows, knows a path on, and is online.
use remote_control_pjt.Prelude.{
  ℕ, ◌≡◌, refl, ap, ◌∙◌, inl, inr, Bool, true, ◌||◌, ◌&&◌, first, subst, ==-eq, String, Option,
  none, some, List, [], ◌∷◌, ◌++◌, contains, Distinct, Distinct-append, Bool-cases, ◌==◌, string_eq,
  arith, if◌then◌else◌,
}
use remote_control_pjt.Result.{Error, Result, ok, err}
use remote_control_pjt.Projects.{ProjectDefinition}
use remote_control_pjt.World.{World, ◌>>=◌}
use mathlib.Core.Option
use remote_control_pjt.Repositories.Hosts as Repository
use remote_control_pjt.Hosts.Registry.{is_online, is_online_info, effective, get}
use remote_control_pjt.Hosts.Router.{
  choose, candidates, extend_from, default_candidates, has_path, choose_from,
}

extend_from-Distinct : (cs hs : List String) → Distinct cs → Distinct (extend_from cs hs)
unfolding extend_from
extend_from-Distinct cs [] h = h
extend_from-Distinct cs (x ∷ hs) h = elim (Bool-cases (contains cs x)) [
  | inl there ↦ rw there (extend_from-Distinct cs hs h)
  | inr absent ↦ rw absent (extend_from-Distinct (cs ++ x ∷ []) hs (Distinct-append cs x h absent))
]

contains-snoc :
    (cs : List String) (x k : String) → contains (cs ++ x ∷ []) k ≡ (contains cs k || x == k)
contains-snoc [] x k = ground arith
contains-snoc (c ∷ cs) x k = ground (arith, contains-snoc cs x k)

contains-added :
    (cs : List String) (x k : String)
    → contains (if contains cs x then cs else cs ++ x ∷ []) k ≡ (contains cs k || x == k)
contains-added cs x k = elim (Bool-cases (contains cs x)) [
  | inr absent ↦ rw absent (contains-snoc cs x k)
  | inl there ↦ rw there (already cs x k there)
]
  where
    already :
        (cs : List String) (x k : String)
        → contains cs x ≡ true
        → contains cs k ≡ (contains cs k || x == k)
    already cs x k h = elim (Bool-cases (x == k)) [
      | inr other ↦ ground (arith, other)
      | inl same ↦
          let here : contains cs k ≡ true = subst (λ y. contains cs y ≡ true) (==-eq x k same) h in
          ground (arith, here)
    ]

extend_from-contains :
    (hs cs : List String) (k : String)
    → contains (extend_from cs hs) k ≡ (contains cs k || contains hs k)
unfolding extend_from
extend_from-contains [] cs k = ground arith
extend_from-contains (x ∷ hs) cs k =
    extend_from-contains hs (if contains cs x then cs else cs ++ x ∷ []) k
    ∙ ap (λ b. b || contains hs k) (contains-added cs x k)
    ∙ or_assoc (contains cs k) (x == k) (contains hs k)
  where
    or_assoc : (a b c : Bool) → ((a || b) || c) ≡ (a || (b || c))
    or_assoc a b c = ground arith

default_candidates-Distinct : (o : Option String) → Distinct (default_candidates o)
default_candidates-Distinct none = tt
default_candidates-Distinct (some h) = elim (Bool-cases (h == "")) [
  | inl empty ↦ rw empty tt
  | inr named ↦ rw named (refl, tt)
]

-- The candidates of a project are its default host, where it has one, and the hosts that it
-- allows, and none stands there twice.
pub candidates_complete :
    (p : ProjectDefinition)
    → Distinct (candidates p)
      × ((k : String)
          → contains (candidates p) k
            ≡ (contains (default_candidates p.default_host) k || contains p.allowed_hosts k))
unfolding candidates
candidates_complete p = (
  extend_from-Distinct (default_candidates p.default_host) p.allowed_hosts
      (default_candidates-Distinct p.default_host),
  extend_from-contains p.allowed_hosts (default_candidates p.default_host),
)

module _ (local_host_id : String) (timeout : ℕ) (p : ProjectDefinition) (w : World) where
  -- What `is_online` answers, which does not change the database.
  abbrev pub online_now : String → Bool
  online_now h =
      is_online_info
        (Option.map (effective local_host_id timeout w.clock) (first (Repository.by_id h) w.hosts))

  is_online-run : (h : String) → is_online local_host_id timeout h w ≡ (ok (online_now h), w)
  unfolding ◌>>=◌ is_online get Repository.get
  is_online-run h = refl

  abbrev pub or_unavailable : Option String → Result String
  or_unavailable none = err Error.host_unavailable
  or_unavailable (some h) = ok h

  choose_from-first :
      (hs : List String)
      → choose_from local_host_id timeout p hs w
        ≡ (or_unavailable (first (λ h. has_path p h && online_now h) hs), w)
  unfolding choose_from first ◌>>=◌
  choose_from-first [] = refl
  choose_from-first (h ∷ hs) = elim (Bool-cases (has_path p h)) [
    | inr lost ↦ rw (lost, first) (choose_from-first hs)
    | inl known ↦ elim (Bool-cases (online_now h)) [
      | inl up ↦ rw (known, is_online-run h, up, first) refl
      | inr down ↦ rw (known, is_online-run h, down, first) (choose_from-first hs)
    ]
  ]

  -- For a job that asks for no host of its own, the router takes the first candidate that has a
  -- path in the project and is online, and raises `HostUnavailable` if there is none.
  pub choose-first :
      choose local_host_id timeout p "auto" w
      ≡ (or_unavailable (first (λ h. has_path p h && online_now h) (candidates p)), w)
  unfolding choose
  choose-first = choose_from-first (candidates p)

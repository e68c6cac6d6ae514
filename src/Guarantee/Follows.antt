-- ===== src/Guarantee/Follows.antt =====
-- Tables of jobs in which every job's state goes along the transition table.
use remote_control_pjt.Prelude.{
  ◌≡◌, refl, sym, ap, ◌∙◌, ◌⊎◌, inl, inr, String, Option, none, some, List, [], ◌∷◌, ◌++◌,
  string_eq, Option-cases, Bool-cases, Bool, true, first, change, ◌==◌, arith, first-change_either,
  first-append_some, first-append,
}
use remote_control_pjt.Result.{ok}
use remote_control_pjt.Records.{JobRecord}
use remote_control_pjt.States.{JobState, queued, state_eq, validate_transition}
use remote_control_pjt.States.Graph.{follow, follow-cons, follow-step}
use remote_control_pjt.Repositories.Jobs.{by_id}

-- What the table says of a job's state; a job that it does not hold yet will start as `queued`.
abbrev pub state_of : Option JobRecord → JobState
state_of none = queued
state_of (some job) = job.state

-- A job stays in the table, and the transition table has a path from its state to its new one.
abbrev pub Follows : Option JobRecord → Option JobRecord → Type 0
Follows old none = old ≡ none
Follows old (some job) = (ts : List JobState) × (follow (state_of old) ts ≡ ok job.state)

follow-append :
    (s t u : JobState) (ts us : List JobState)
    → follow s ts ≡ ok t
    → follow t us ≡ ok u
    → follow s (ts ++ us) ≡ ok u
unfolding follow
follow-append s t u [] us e k = ground (arith, k)
follow-append s t u (v ∷ ts) us e k =
    let (valid, rest) = follow-cons s v ts e in
    follow-step s v (ts ++ us) valid ∙ follow-append v t u ts us rest k

pub Follows-trans : (a b c : Option JobRecord) → Follows a b → Follows b c → Follows a c
Follows-trans a none none h k = h
Follows-trans a (some b) none h k = cc
Follows-trans a none (some c) h (us, k) = (us, rw h k)
Follows-trans a (some b) (some c) (ts, h) (us, k) =
    (ts ++ us, follow-append (state_of a) b.state c.state ts us h k)

pub Follows-refl : (a : Option JobRecord) → Follows a a
unfolding follow
Follows-refl none = refl
Follows-refl (some job) = ([], refl)

-- Every job follows the table from one list of rows to the next.
abbrev pub Evolves : List JobRecord → List JobRecord → Type 0
Evolves rs ss = (k : String) → Follows (first (by_id k) rs) (first (by_id k) ss)

-- A row that keeps its state, or moves to a state that the table allows.
step-Follows :
    (old new : Option JobRecord) (row job : JobRecord)
    → old ≡ some row
    → new ≡ some job
    → (job.state ≡ row.state) ⊎ (validate_transition row.state job.state ≡ ok tt)
    → Follows old new
unfolding follow
step-Follows old new row job e k (inl same) = rw (e, k) ([], ap ok (sym same))
step-Follows old new row job e k (inr valid) =
    rw (e, k) (job.state ∷ [], follow-step row.state job.state [] valid)

same-Follows : (old new : Option JobRecord) → new ≡ old → Follows old new
same-Follows old new e = rw e (Follows-refl old)

pub change-Evolves :
    (p : JobRecord → Bool) (f : JobRecord → JobRecord) (rs : List JobRecord)
    → ((r : JobRecord) → (f r).id ≡ r.id)
    → ((k : String) (r : JobRecord)
        → first (by_id k) rs ≡ some r
        → p r ≡ true
        → ((f r).state ≡ r.state) ⊎ (validate_transition r.state (f r).state ≡ ok tt))
    → Evolves rs (change p f rs)
change-Evolves p f rs ids valid k =
    elim (first-change_either (λ (r : JobRecord). r.id) k p f rs ids) [
      | inl same ↦ same-Follows _ _ same
      | inr (row, found, hit, now) ↦ step-Follows _ _ row (f row) found now (valid k row found hit)
    ]

pub add-Evolves :
    (job : JobRecord) (rs : List JobRecord) → job.state ≡ queued → Evolves rs (rs ++ job ∷ [])
unfolding follow
add-Evolves job rs fresh k = elim (Option-cases (first (by_id k) rs)) [
  | inr (row, found) ↦ same-Follows _ _ (first-append_some (by_id k) rs job found ∙ sym found)
  | inl missing ↦
      let now = first-append (by_id k) rs job missing in
      elim (Bool-cases (job.id == k)) [
        | inl own ↦ rw (now, own, missing) ([], ap ok (sym fresh))
        | inr other ↦ rw (now, other, missing) refl
      ]
]

pub kept-Evolves : (rs : List JobRecord) → Evolves rs rs
kept-Evolves rs k = Follows-refl (first (by_id k) rs)

pub same-Evolves : (rs ss : List JobRecord) → ss ≡ rs → Evolves rs ss
same-Evolves rs ss e k = same-Follows _ _ (ap (first (by_id k)) e)

-- ===== src/Repositories/Recovery/Queue.antt =====
-- The queue for a busy working tree: a new place is behind all others, and two places can be
-- exchanged.
use remote_control_pjt.Prelude.{
  ℕ, ◌+◌, ◌<◌, ◌≤◌, ◌≡◌, refl, ap, ◌∙◌, ◌⊎◌, inl, inr, Bool, true, false, ◌||◌, String, Option,
  none, some, List, [], ◌∷◌, first, change, All, ◌==◌, string_eq, nat_eq, option_eq, first-change,
  first-change_other, has_key_ne, Bool-cases, Option-cases, arith, ==-sym, ==-eq, ==-refl, subst,
  if◌then◌else◌,
}
use mathlib.Core.Option
use remote_control_pjt.Result.{Error, Result, ok, err}
use remote_control_pjt.World.{World, commit, untouched, ◌>>=◌}
use remote_control_pjt.World.Commit.{commit-Commits}
use remote_control_pjt.Records.{RecoveryRecord}
use remote_control_pjt.Repositories.Recovery.{
  by_job, position, max_position, next_queue_position, set_position, swap_queue_positions,
}

All-weaken :
    (rs : List RecoveryRecord) (m n : ℕ)
    → m ≤ n
    → All (λ r. position r < m + 1) rs
    → All (λ r. position r < n + 1) rs
All-weaken [] m n h a = tt
All-weaken (r ∷ rs) m n h (a, as') = (omega arith, All-weaken rs m n h as')

max_position-All : (rs : List RecoveryRecord) → All (λ r. position r < max_position rs + 1) rs
unfolding max_position
max_position-All [] = tt
max_position-All (r ∷ rs) =
    (omega arith, All-weaken rs (max_position rs) _ (omega arith) (max_position-All rs))

-- The position that a job is queued at is behind every position in the table.
pub next_queue_position-last :
    (w : World)
    → (n : ℕ) × (next_queue_position w ≡ (ok n, w)) × All (λ r. position r < n) w.recovery
unfolding ◌>>=◌ next_queue_position
next_queue_position-last w = (max_position w.recovery + 1, refl, max_position-All w.recovery)

abbrev get_row : String → World → Option RecoveryRecord
get_row k w = first (by_job k) w.recovery

module _ (i j : String) (w : World) where
  -- The row under an id after the exchange.
  abbrev pub swapped : RecoveryRecord → RecoveryRecord → String → Option RecoveryRecord
  swapped a b k =
      if i == k
      then some (set_position b.queue_position a)
      else if j == k
      then some (set_position a.queue_position b)
      else first (by_job k) w.recovery

  -- The two jobs have exchanged their places and every other job has kept its own, or nothing has
  -- changed and an error is raised.
  abbrev pub Swaps : Result (RecoveryRecord × RecoveryRecord) × World → Type 0
  Swaps (r, w') =
      ((a b : RecoveryRecord) × (first (by_job i) w.recovery ≡ some a)
        × (first (by_job j) w.recovery ≡ some b)
        × ((k : String) → first (by_job k) w'.recovery ≡ swapped a b k)
        × (r ≡ ok (set_position b.queue_position a, set_position a.queue_position b)))
      ⊎ ((x : Error) × (r ≡ err x) × (w'.recovery ≡ w.recovery))

  abbrev unplaced : RecoveryRecord → RecoveryRecord → Bool
  unplaced a b = a.queue_position == none || b.queue_position == none

  abbrev exchanged : RecoveryRecord → RecoveryRecord → List RecoveryRecord → List RecoveryRecord
  exchanged a b rs =
      change (by_job j) (set_position a.queue_position)
        (change (by_job i) (set_position b.queue_position) rs)

  -- A write of one job's place is not seen by a job with another id.
  place-other :
      (k l : String) (p : Option ℕ) (rs : List RecoveryRecord)
      → (k == l) ≡ false
      → first (by_job l) (change (by_job k) (set_position p) rs) ≡ first (by_job l) rs
  place-other k l p rs n =
      first-change_other (by_job k) (by_job l) (set_position p) rs
        (λ r h. has_key_ne (λ r. r.job_id) k l r n h) (λ r h. has_key_ne (λ r. r.job_id) k l r n h)

  place-own :
      (k : String) (p : Option ℕ) (rs : List RecoveryRecord)
      → first (by_job k) (change (by_job k) (set_position p) rs)
        ≡ Option.map (set_position p) (first (by_job k) rs)
  place-own k p rs = first-change (by_job k) (set_position p) rs (λ r. refl)

  exchanged-row :
      (a b : RecoveryRecord)
      → (i == j) ≡ false
      → first (by_job i) w.recovery ≡ some a
      → first (by_job j) w.recovery ≡ some b
      → (k : String) → first (by_job k) (exchanged a b w.recovery) ≡ swapped a b k
  exchanged-row a b differs ei ej k =
      let own =
        place-other j i _ _ (==-sym j i ∙ differs)
        ∙ place-own i _ w.recovery
        ∙ ap (Option.map (set_position b.queue_position)) ei in
      let second =
        place-own j _ _
        ∙ ap (Option.map (set_position a.queue_position))
            (place-other i j _ w.recovery differs ∙ ej) in
      elim (Bool-cases (i == k)) [
        | inl first' ↦
            subst (λ l. first (by_job l) (exchanged a b w.recovery) ≡ swapped a b l)
              (==-eq i k first') (rw (==-refl i) own)
        | inr ni ↦ elim (Bool-cases (j == k)) [
          | inl second' ↦
              subst (λ l. first (by_job l) (exchanged a b w.recovery) ≡ swapped a b l)
                (==-eq j k second') (rw (differs, ==-refl j) second)
          | inr nj ↦ rw (ni, nj) (place-other j k _ _ nj ∙ place-other i k _ w.recovery ni)
        ]
      ]

  swap-committed :
      (a b : RecoveryRecord)
      → first (by_job i) w.recovery ≡ some a
      → first (by_job j) w.recovery ≡ some b
      → unplaced a b ≡ false
      → commit false (λ v. record v { recovery = exchanged a b v.recovery }) w
        ≡ (ok tt, record (untouched w) { recovery = exchanged a b w.recovery })
      → swap_queue_positions i j w ≡ (
        ok (set_position b.queue_position a, set_position a.queue_position b),
        record (untouched w) { recovery = exchanged a b w.recovery },
      )
  unfolding ◌>>=◌ swap_queue_positions
  swap-committed a b ei ej placed c = rw (ei, ej, placed, c) refl

  swap-refused :
      (a b : RecoveryRecord) (x : Error)
      → first (by_job i) w.recovery ≡ some a
      → first (by_job j) w.recovery ≡ some b
      → unplaced a b ≡ false
      → commit false (λ v. record v { recovery = exchanged a b v.recovery }) w
        ≡ (err x, untouched w)
      → swap_queue_positions i j w ≡ (err x, untouched w)
  unfolding ◌>>=◌ swap_queue_positions
  swap-refused a b x ei ej placed c = rw (ei, ej, placed, c) refl

  swap-placed :
      (a b : RecoveryRecord)
      → (i == j) ≡ false
      → first (by_job i) w.recovery ≡ some a
      → first (by_job j) w.recovery ≡ some b
      → unplaced a b ≡ false
      → Swaps (swap_queue_positions i j w)
  swap-placed a b differs ei ej placed =
      elim (commit-Commits false (λ v. record v { recovery = exchanged a b v.recovery }) w) [
        | inl (free, c) ↦
            rw (swap-committed a b ei ej placed c)
              (inl (a, b, ei, ej, exchanged-row a b differs ei ej, refl))
        | inr (x, c) ↦ rw (swap-refused a b x ei ej placed c) (inr (x, refl, refl))
      ]

  swap-unplaced :
      (a b : RecoveryRecord)
      → first (by_job i) w.recovery ≡ some a
      → first (by_job j) w.recovery ≡ some b
      → unplaced a b ≡ true
      → swap_queue_positions i j w ≡ (err Error.value_error, w)
  unfolding ◌>>=◌ swap_queue_positions
  swap-unplaced a b ei ej missing = rw (ei, ej, missing) refl

  swap-first_missing :
      first (by_job i) w.recovery ≡ none → swap_queue_positions i j w ≡ (err Error.key_error, w)
  unfolding ◌>>=◌ swap_queue_positions
  swap-first_missing ei = rw ei refl

  swap-second_missing :
      (a : RecoveryRecord)
      → first (by_job i) w.recovery ≡ some a
      → first (by_job j) w.recovery ≡ none
      → swap_queue_positions i j w ≡ (err Error.key_error, w)
  unfolding ◌>>=◌ swap_queue_positions
  swap-second_missing a ei ej = rw (ei, ej) refl

  -- A move in the queue exchanges the places of two different jobs and no other, or raises and
  -- changes nothing.
  pub swap_exchanges : (i == j) ≡ false → Swaps (swap_queue_positions i j w)
  swap_exchanges differs = elim (Option-cases (first (by_job i) w.recovery)) [
    | inl ei ↦ rw (swap-first_missing ei) (inr (Error.key_error, refl, refl))
    | inr (a, ei) ↦ elim (Option-cases (first (by_job j) w.recovery)) [
      | inl ej ↦ rw (swap-second_missing a ei ej) (inr (Error.key_error, refl, refl))
      | inr (b, ej) ↦ elim (Bool-cases (unplaced a b)) [
        | inl missing ↦ rw (swap-unplaced a b ei ej missing) (inr (Error.value_error, refl, refl))
        | inr placed ↦ swap-placed a b differs ei ej placed
      ]
    ]
  ]

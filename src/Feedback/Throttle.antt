-- ===== src/Feedback/Throttle.antt =====
-- How often a job's progress is reported.
use remote_control_pjt.Prelude.{
  ℕ, ◌≡◌, refl, subst, inl, inr, false, ◌&&◌, String, Option, some, List, [], ◌∷◌, ◌==◌, string_eq,
  ==-refl, ==-eq, Bool-cases, arith, if◌then◌else◌,
}
use remote_control_pjt.Feedback.{FeedbackLevel, is_progress, last_of, set_last, is_early, allow}

-- A message of a job, with the time at which it comes.
pub record Message : Type 0 where
  pub job_id : String
  pub level : FeedbackLevel
  pub at : ℕ

-- The messages that are sent, in their order.
unfoldable pub sent : ℕ → List Message → List (String × ℕ) → List Message
sent interval [] last = []
sent interval (m ∷ ms) last =
    let (allowed, next) = allow interval m.job_id m.level m.at last in
    let rest = sent interval ms next in if allowed then m ∷ rest else rest

-- From a message of a job on, its next progress message comes the interval later at the earliest.
abbrev pub Waits : ℕ → String → Option ℕ → List Message → Type 0
Waits interval job_id previous [] = Unit
Waits interval job_id previous (m ∷ ms) =
    if is_progress m.level && m.job_id == job_id
    then (is_early interval previous m.at ≡ false) × Waits interval job_id (some m.at) ms
    else Waits interval job_id previous ms

last_of-set_last :
    (k : String) (t : ℕ) (ts : List (String × ℕ)) → last_of k (set_last k t ts) ≡ some t
last_of-set_last k t [] = rw (==-refl k) refl
last_of-set_last k t ((j, u) ∷ ts) = elim (Bool-cases (j == k)) [
  | inl same ↦ rw (same, same) refl
  | inr other ↦ rw (other, other) (last_of-set_last k t ts)
]

last_of-set_last_other :
    (k i : String) (t : ℕ) (ts : List (String × ℕ))
    → (k == i) ≡ false
    → last_of i (set_last k t ts) ≡ last_of i ts
last_of-set_last_other k i t [] n = rw n refl
last_of-set_last_other k i t ((j, u) ∷ ts) n = elim (Bool-cases (j == k)) [
  | inl same ↦ rw (same, ==-eq j k same, n) refl
  | inr other ↦ ground (arith, last_of-set_last_other k i t ts n)
]

-- Of a job's progress messages that are sent, each comes at least the interval after the one before
-- it, and after the one that was remembered.
pub sent-Waits :
    (interval : ℕ) (job_id : String) (ms : List Message) (last : List (String × ℕ))
    → Waits interval job_id (last_of job_id last) (sent interval ms last)
unfolding sent allow
sent-Waits interval job_id [] last = tt
sent-Waits interval job_id (m ∷ ms) last = elim (Bool-cases (is_progress m.level)) [
  | inr loud ↦ rw (loud, loud) (sent-Waits interval job_id ms last)
  | inl quiet ↦ elim (Bool-cases (is_early interval (last_of m.job_id last) m.at)) [
    | inl early ↦ rw (quiet, early) (sent-Waits interval job_id ms last)
    | inr late ↦ elim (Bool-cases (m.job_id == job_id)) [
      | inl own ↦
          let same = ==-eq m.job_id job_id own in
          let found =
            subst (λ k. last_of k (set_last m.job_id m.at last) ≡ some m.at) same
              (last_of-set_last m.job_id m.at last) in
          rw (quiet, late, quiet, own)
            (
              subst (λ k. is_early interval (last_of k last) m.at ≡ false) same late,
              subst (λ o. Waits interval job_id o (sent interval ms (set_last m.job_id m.at last)))
                  found (sent-Waits interval job_id ms (set_last m.job_id m.at last)),
            )
      | inr other ↦
          rw (quiet, late, quiet, other)
            (subst (λ o. Waits interval job_id o (sent interval ms (set_last m.job_id m.at last)))
              (last_of-set_last_other m.job_id job_id m.at last other)
              (sent-Waits interval job_id ms (set_last m.job_id m.at last)))
    ]
  ]
]

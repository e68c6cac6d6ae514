-- ===== src/Quota/Bounds.antt =====
-- How long a job waits for its quota.
use remote_control_pjt.Prelude.{
  ℕ, zero, suc, ◌≡◌, refl, ◌⊎◌, inl, inr, ◌+◌, ◌-◌, ◌*◌, ◌^◌, ◌≤◌, ◌<◌, ltb, Bool-cases, none, some,
  arith,
}
use Prim.Native.Nat.{max, min}
use native.Mathlib.Nat.{mul_left_comm, pow-succ', min-le_right, le-max_right}
use remote_control_pjt.Quota.{backoff, retry_at, second}

-- The shortest and the longest wait, in seconds.
abbrev pub shortest : ℕ → ℕ
shortest initial_seconds = max initial_seconds 1

abbrev pub longest : ℕ → ℕ → ℕ
longest initial_seconds max_seconds = max max_seconds (shortest initial_seconds)

power-positive : (n : ℕ) → 1 ≤ 2 ^ n
power-positive zero = omega arith
power-positive (suc n) = let h = power-positive n in omega arith

least : (i m x : ℕ) → 1 ≤ x → shortest i ≤ min (shortest i * x) (longest i m)
least i m x h = grind arith

backoff-between :
    (attempt initial maximum : ℕ)
    → (shortest initial ≤ backoff attempt initial maximum)
      × (backoff attempt initial maximum ≤ longest initial maximum)
unfolding backoff
backoff-between attempt initial maximum = (
  least initial maximum (2 ^ (attempt - 1)) (power-positive (attempt - 1)),
  min-le_right (shortest initial * 2 ^ (attempt - 1)) (longest initial maximum),
)

min_grows : (x y k : ℕ) → x ≤ y → min x k ≤ min y k
min_grows x y k h = grind arith

-- The wait in microseconds.
waits-between :
    (attempt initial maximum now : ℕ)
    → let next = now + backoff attempt initial maximum * second in
      (now < next)
      × (now + shortest initial * second ≤ next)
      × (next ≤ now + longest initial maximum * second)
waits-between attempt initial maximum now =
    let (low, high) = backoff-between attempt initial maximum in
    scaled (shortest initial) (backoff attempt initial maximum) (longest initial maximum)
      (le-max_right initial 1) low high
  where
    scaled :
        (s b l : ℕ)
        → 1 ≤ s
        → s ≤ b
        → b ≤ l
        → (now < now + b * second)
          × (now + s * second ≤ now + b * second)
          × (now + b * second ≤ now + l * second)
    scaled s b l h low high = (omega arith, omega arith, omega arith)

-- The wait in seconds starts at the shortest, and each further attempt doubles it, up to the longest.
pub backoff_doubles :
    (n initial maximum : ℕ)
    → (backoff 1 initial maximum ≡ shortest initial)
      × (backoff (n + 2) initial maximum
          ≡ min (2 * backoff (n + 1) initial maximum) (longest initial maximum))
unfolding backoff
backoff_doubles n initial maximum = (
  first_wait (shortest initial) maximum,
  next_wait (shortest initial) (longest initial maximum) n,
)
  where
    power : (k : ℕ) → 2 ^ (k + 2 - 1) ≡ 2 * 2 ^ (k + 1 - 1)
    power k =
        let upper : k + 2 - 1 ≡ suc k = omega arith in
        let lower : k + 1 - 1 ≡ k = omega arith in rw (upper, lower) (pow-succ' 2 k)

    doubled : (s k : ℕ) → s * 2 ^ (k + 2 - 1) ≡ 2 * (s * 2 ^ (k + 1 - 1))
    doubled s k = rw (power k) (mul_left_comm s 2 (2 ^ (k + 1 - 1)))

    first_wait : (s m : ℕ) → min (s * 2 ^ (1 - 1)) (max m s) ≡ s
    first_wait s m = grind arith

    twice : (p l : ℕ) → min (2 * p) l ≡ min (2 * min p l) l
    twice p l = grind arith

    next_wait : (s l k : ℕ) → min (s * 2 ^ (k + 2 - 1)) l ≡ min (2 * min (s * 2 ^ (k + 1 - 1)) l) l
    next_wait s l k =
        let double : s * 2 ^ (k + 2 - 1) ≡ 2 * (s * 2 ^ (k + 1 - 1)) = doubled s k in
        rw double (twice (s * 2 ^ (k + 1 - 1)) l)

-- The next try is never in the past. Where no time is known at which the limit is lifted, it is the
-- seconds of the backoff away, which are between the shortest and the longest wait. Where one is
-- known, it is that time with the grace if it is still to come, and otherwise the same as without.
pub retry_at-window :
    (attempt initial maximum reset grace now : ℕ)
    → let wait = retry_at attempt initial maximum none grace now in
      let next = retry_at attempt initial maximum (some reset) grace now in
      (wait ≡ now + backoff attempt initial maximum * second)
      × (now < wait)
      × (now + shortest initial * second ≤ wait)
      × (wait ≤ now + longest initial maximum * second)
      × (((now < reset + grace * second) × (next ≡ reset + grace * second))
          ⊎ ((reset + grace * second ≤ now) × (next ≡ wait)))
unfolding retry_at
retry_at-window attempt initial maximum reset grace now =
    let (ahead, low, high) = waits-between attempt initial maximum now in
    (
      refl,
      ahead,
      low,
      high,
      elim (Bool-cases (ltb now (reset + grace * second))) [
        | inl coming ↦ rw coming (inl (ground arith, refl))
        | inr past ↦ rw past (inr (ground arith, refl))
      ],
    )

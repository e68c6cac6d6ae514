-- ===== src/Quota.antt =====
-- recovery/quota.py: when a job that has hit the usage limit is tried again. Instants are numbers
-- of microseconds.
pub mod Bounds
use remote_control_pjt.Prelude.{
  ℕ, String, ◌+◌, ◌-◌, ◌*◌, ◌^◌, ltb, Option, none, some, if◌then◌else◌,
}
use Prim.Native.Nat.{max, min}

pub record QuotaSignal : Type 0 where
  pub message : String
  pub reset_at : Option ℕ

abbrev pub second : ℕ
second = 1000000

-- The capped exponential backoff, in seconds.
unfoldable pub backoff : ℕ → ℕ → ℕ → ℕ
backoff attempt_count initial_seconds max_seconds =
    let initial = max initial_seconds 1 in
    let maximum = max max_seconds initial in min (initial * 2 ^ (attempt_count - 1)) maximum

unfoldable pub retry_at : ℕ → ℕ → ℕ → Option ℕ → ℕ → ℕ → ℕ
unfolding backoff
retry_at attempt_count initial_seconds max_seconds none reset_grace_seconds current =
    current + backoff attempt_count initial_seconds max_seconds * second
retry_at attempt_count initial_seconds max_seconds (some reset_at) reset_grace_seconds current =
    let deadline = reset_at + reset_grace_seconds * second in
    if ltb current deadline
    then deadline
    else current + backoff attempt_count initial_seconds max_seconds * second

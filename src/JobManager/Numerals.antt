-- ===== src/JobManager/Numerals.antt =====
-- The numbers of the messages that are handed over together.
use Prim.Native.Nat.{◌/◌}
use remote_control_pjt.Prelude.{
  ℕ, zero, suc, ◌<◌, ◌≡◌, refl, inl, inr, ltb, String, Bool-cases, arith, false,
}
use remote_control_pjt.JobManager.Turns.{decimal_onto}

-- A number of two digits or more loses one by a division.
shorter : (n k : ℕ) → ltb n 10 ≡ false → n < suc k → n / 10 < k
shorter n k h l = ground arith

-- More rounds than the number are enough: with any two such numbers of rounds the digits are the same.
decimal_onto_enough :
    (a b n : ℕ) (s : String) → n < a → n < b → decimal_onto a n s ≡ decimal_onto b n s
decimal_onto_enough zero b n s h k = absurd (omega arith)
decimal_onto_enough (suc a) zero n s h k = absurd (omega arith)
decimal_onto_enough (suc a) (suc b) n s h k = elim (Bool-cases (ltb n 10)) [
  | inl last ↦ rw last refl
  | inr more ↦
      rw more (decimal_onto_enough a b (n / 10) _ (shorter n a more h) (shorter n b more k))
]

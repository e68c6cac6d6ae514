-- ===== src/World/Commit.antt =====
-- What a transaction leaves, whatever the database answers.
use remote_control_pjt.Prelude.{◌≡◌, refl, ◌⊎◌, inl, inr, Bool, true, false}
use remote_control_pjt.Result.{Error, Result, ok, err}
use remote_control_pjt.World.{World, Outcome, committed, busy, broken, untouched, settle, commit}

-- Either all the writes of the transaction, which the constraints allow, or none of them.
abbrev pub Commits : Bool → (World → World) → World → Result (Unit {0}) × World → Type 0
Commits violated f w p =
    ((violated ≡ false) × (p ≡ (ok tt, f (untouched w))))
    ⊎ ((x : Error) × (p ≡ (err x, untouched w)))

settle-Commits :
    (o : Outcome) (violated : Bool) (f : World → World) (w : World)
    → Commits violated f w (settle o violated f (untouched w))
settle-Commits committed true f w = inr (Error.integrity_error, refl)
settle-Commits committed false f w = inl (refl, refl)
settle-Commits busy violated f w = inr (Error.database_busy, refl)
settle-Commits broken violated f w = inr (Error.operational_error, refl)

pub commit-Commits :
    (violated : Bool) (f : World → World) (w : World) → Commits violated f w (commit violated f w)
unfolding commit
commit-Commits violated f w = settle-Commits _ violated f w

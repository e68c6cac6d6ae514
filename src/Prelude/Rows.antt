-- ===== src/Prelude/Rows.antt =====
-- A database table as the list of its rows, and the four statements that the repositories send:
-- select the first row that meets a condition, change it, delete it, insert a row.
use mathlib.Core.Path.{◌≡◌, refl}
use mathlib.Core.Bool.{Bool, true, false}
use mathlib.Core.Logic.{inl, inr}
use mathlib.Core.List.{List, [], ◌∷◌, ◌++◌}
use mathlib.Core.Option
use mathlib.Core.Option.{Option, none, some}
use native.Mathlib.Omega.{arith}
use remote_control_pjt.Prelude.Tests.{Bool-cases, if◌then◌else◌}
use remote_control_pjt.Prelude.Lists.{any}

module _ {ℓ} {R : Type ℓ} where
  unfoldable pub first : (R → Bool) → List R → Option R
  first p [] = none
  first p (r ∷ rs) = if p r then some r else first p rs

  unfoldable pub change : (R → Bool) → (R → R) → List R → List R
  change p f [] = []
  change p f (r ∷ rs) = if p r then f r ∷ rs else r ∷ change p f rs

  unfoldable pub remove : (R → Bool) → List R → List R
  remove p [] = []
  remove p (r ∷ rs) = if p r then rs else r ∷ remove p rs

  pub first-holds : (p : R → Bool) (rs : List R) {r : R} → first p rs ≡ some r → p r ≡ true
  unfolding first
  first-holds p [] h = cc
  first-holds p (x ∷ rs) {r} h = ground (arith, first-holds p rs {r = r})

  pub first-any : (p : R → Bool) (rs : List R) {r : R} → first p rs ≡ some r → any p rs ≡ true
  unfolding first
  first-any p [] h = cc
  first-any p (x ∷ rs) {r} h = ground (arith, first-any p rs {r = r})

  -- A change that keeps the selecting condition is what the next select reads.
  pub first-change :
      (p : R → Bool) (f : R → R) (rs : List R)
      → ((r : R) → p (f r) ≡ p r)
      → first p (change p f rs) ≡ Option.map f (first p rs)
  unfolding first change
  first-change p f [] h = refl
  first-change p f (r ∷ rs) h = ground (arith, h r, first-change p f rs h)

  -- A change of rows that the other condition never selects is not seen through it.
  pub first-change_other :
      (p q : R → Bool) (f : R → R) (rs : List R)
      → ((r : R) → p r ≡ true → q r ≡ false)
      → ((r : R) → p r ≡ true → q (f r) ≡ false)
      → first q (change p f rs) ≡ first q rs
  unfolding first change
  first-change_other p q f [] h k = refl
  first-change_other p q f (r ∷ rs) h k = ground (arith, h r, k r, first-change_other p q f rs h k)

  -- A change that never alters the other condition only changes the row that it selects.
  pub any-change :
      (p q : R → Bool) (f : R → R) (rs : List R)
      → ((r : R) → q (f r) ≡ q r)
      → any q (change p f rs) ≡ any q rs
  unfolding change
  any-change p q f [] h = refl
  any-change p q f (r ∷ rs) h = ground (arith, h r, any-change p q f rs h)

  pub first-append :
      (p : R → Bool) (rs : List R) (r : R)
      → first p rs ≡ none
      → first p (rs ++ r ∷ []) ≡ (if p r then some r else none)
  unfolding first
  first-append p [] r h = refl
  first-append p (x ∷ rs) r h = ground (arith, first-append p rs r)

  pub first-append_some :
      (p : R → Bool) (rs : List R) (r : R) {x : R}
      → first p rs ≡ some x
      → first p (rs ++ r ∷ []) ≡ some x
  unfolding first
  first-append_some p [] r h = cc
  first-append_some p (y ∷ rs) r {x} h = ground (arith, first-append_some p rs r {x = x})

  pub first-append_other :
      (p : R → Bool) (rs : List R) (r : R) → p r ≡ false → first p (rs ++ r ∷ []) ≡ first p rs
  unfolding first
  first-append_other p [] r h = ground arith
  first-append_other p (y ∷ rs) r h = ground (arith, first-append_other p rs r h)

  pub first-remove_other :
      (p q : R → Bool) (rs : List R)
      → ((r : R) → p r ≡ true → q r ≡ false)
      → first q (remove p rs) ≡ first q rs
  unfolding first remove
  first-remove_other p q [] h = refl
  first-remove_other p q (r ∷ rs) h = ground (arith, h r, first-remove_other p q rs h)

  -- A row that a wider condition `q` sees is still seen after a change that `q` does not notice.
  pub first-change_known :
      (p q : R → Bool) (f : R → R) (rs : List R) {row : R}
      → ((r : R) → q (f r) ≡ q r)
      → ((r : R) → p r ≡ true → q r ≡ true)
      → first p rs ≡ some row
      → (x : R) × (first q (change p f rs) ≡ some x)
  unfolding first change
  first-change_known p q f [] h k e = cc
  first-change_known p q f (r ∷ rs) {row} h k e = elim (Bool-cases (p r)) [
    | inl yes' ↦ (f r, rw (yes', first, h r, k r yes') refl)
    | inr no' ↦ elim (Bool-cases (q r)) [
      | inl seen ↦ (r, rw (no', first, seen) refl)
      | inr unseen ↦
          let (x, found) = first-change_known p q f rs {row = row} h k (rw no' at e) in
          (x, rw (no', first, unseen) found)
    ]
  ]

-- ===== src/Prelude/Sort.antt =====
-- ORDER BY, as a stable sort, and LIMIT 1.
use mathlib.Core.Path.{◌≡◌, refl, ap, ◌∙◌}
use mathlib.Core.Bool.{Bool, false, ◌||◌}
use mathlib.Core.List.{List, [], ◌∷◌, map}
use mathlib.Core.Option.{Option, none, some}
use native.Mathlib.Omega.{arith}
use remote_control_pjt.Prelude.Tests.{Eq, ◌==◌, ==-sym, if◌then◌else◌, Bool-cases}
use remote_control_pjt.Prelude.Lists.{All, contains, Distinct}
use mathlib.Core.Logic.{inl, inr}

module _ {ℓ} {A : Type ℓ} where
  insert_by : (A → A → Bool) → A → List A → List A
  insert_by le x [] = x ∷ []
  insert_by le x (y ∷ ys) = if le x y then x ∷ y ∷ ys else y ∷ insert_by le x ys

  -- `le x y` says that `x` may stand before `y`.
  unfoldable pub sort_by : (A → A → Bool) → List A → List A
  unfolding insert_by
  sort_by le [] = []
  sort_by le (x ∷ xs) = insert_by le x (sort_by le xs)

  abbrev pub head? : List A → Option A
  head? [] = none
  head? (x ∷ xs) = some x

module _ {ℓ κ} {A : Type ℓ} (P : A → Type κ) (le : A → A → Bool) where
  All-insert_by : (x : A) (xs : List A) → P x → All P xs → All P (insert_by le x xs)
  unfolding insert_by
  All-insert_by x [] h hs = (h, tt)
  All-insert_by x (y ∷ ys) h (k, ks) = elim (Bool-cases (le x y)) [
    | inl before ↦ rw before (h, (k, ks))
    | inr after ↦ rw after (k, All-insert_by x ys h ks)
  ]

  -- ORDER BY yields only rows that were selected.
  pub All-sort_by : (xs : List A) → All P xs → All P (sort_by le xs)
  unfolding sort_by
  All-sort_by [] hs = tt
  All-sort_by (x ∷ xs) (h, hs) = All-insert_by x (sort_by le xs) h (All-sort_by xs hs)

module _ {ℓ κ} {A : Type ℓ} {K : Type κ} ⦃e : Eq K⦄ (key : A → K) (le : A → A → Bool) where
  contains-insert_by :
      (x : A) (xs : List A) (k : K)
      → contains (map key (insert_by le x xs)) k ≡ contains (map key (x ∷ xs)) k
  unfolding insert_by
  contains-insert_by x [] k = refl
  contains-insert_by x (y ∷ ys) k = ground (arith, contains-insert_by x ys k)

  contains-sort_by :
      (xs : List A) (k : K) → contains (map key (sort_by le xs)) k ≡ contains (map key xs) k
  unfolding sort_by
  contains-sort_by [] k = refl
  contains-sort_by (x ∷ xs) k =
      contains-insert_by x (sort_by le xs) k ∙ ap (λ b. key x == k || b) (contains-sort_by xs k)

  or_left : (a b : Bool) → (a || b) ≡ false → a ≡ false
  or_left a b h = ground arith

  or_right : (a b : Bool) → (a || b) ≡ false → b ≡ false
  or_right a b h = ground arith

  either : {a b : Bool} → a ≡ false → b ≡ false → (a || b) ≡ false
  either h k = rw (h, k) refl

  Distinct-insert_by :
      (x : A) (xs : List A)
      → contains (map key xs) (key x) ≡ false
      → Distinct (map key xs)
      → Distinct (map key (insert_by le x xs))
  unfolding insert_by
  Distinct-insert_by x [] n h = (n, tt)
  Distinct-insert_by x (y ∷ ys) n h = elim (Bool-cases (le x y)) [
    | inl before ↦ rw before (n, h)
    | inr after ↦ rw after (
      contains-insert_by x ys (key y) ∙ either (==-sym (key x) (key y) ∙ or_left _ _ n) h.0,
      Distinct-insert_by x ys (or_right _ _ n) h.1,
    )
  ]

  -- Sorting leaves distinct keys distinct.
  pub Distinct-sort_by : (xs : List A) → Distinct (map key xs) → Distinct (map key (sort_by le xs))
  unfolding sort_by
  Distinct-sort_by [] h = tt
  Distinct-sort_by (x ∷ xs) h =
      Distinct-insert_by x (sort_by le xs) (contains-sort_by xs (key x) ∙ h.0)
        (Distinct-sort_by xs h.1)

-- ===== src/Prelude/Lists.antt =====
-- Lists measured by native numbers, Boolean membership, and lists with no repetition.
use Prim.Native.Nat.{ℕ, zero, suc, ◌+◌, ◌≤◌}
use mathlib.Core.Path.{◌≡◌, refl, ap}
use mathlib.Core.Bool.{Bool, true, false, ◌||◌}
use mathlib.Core.Logic.{inl, inr}
use mathlib.Core.List.{List, [], ◌∷◌, ◌++◌, map}
use mathlib.Core.Option.{Option, none, some}
use native.Mathlib.Omega.{arith}
use remote_control_pjt.Prelude.Tests.{Eq, Bool-cases, ◌==◌, ==-sym, if◌then◌else◌}

module _ {ℓ} {A : Type ℓ} where
  abbrev pub length : List A → ℕ
  length [] = 0
  length (x ∷ xs) = suc (length xs)

  abbrev pub get_elem? : List A → ℕ → Option A
  get_elem? [] i = none
  get_elem? (x ∷ xs) zero = some x
  get_elem? (x ∷ xs) (suc i) = get_elem? xs i

  abbrev pub take : ℕ → List A → List A
  take zero xs = []
  take (suc n) [] = []
  take (suc n) (x ∷ xs) = x ∷ take n xs

  -- `[x for x in xs if p(x)]`, and the rows that a WHERE clause keeps.
  abbrev pub keep : (A → Bool) → List A → List A
  keep p [] = []
  keep p (x ∷ xs) = if p x then x ∷ keep p xs else keep p xs

  abbrev pub any : (A → Bool) → List A → Bool
  any p [] = false
  any p (x ∷ xs) = p x || any p xs

  abbrev pub All {κ} : (A → Type κ) → List A → Type κ
  All P [] = Unit
  All P (x ∷ xs) = P x × All P xs

  pub length-keep-le : (p : A → Bool) (xs : List A) → length (keep p xs) ≤ length xs
  length-keep-le p [] = omega arith
  length-keep-le p (x ∷ xs) = ground (arith, length-keep-le p xs)

  pub length-append : (xs ys : List A) → length (xs ++ ys) ≡ length xs + length ys
  length-append [] ys = omega arith
  length-append (x ∷ xs) ys = omega (arith, length-append xs ys)

module _ {ℓ κ} {A : Type ℓ} (P : A → Type κ) (p : A → Bool) where
  -- What holds of the rows, and of those that a WHERE clause lets through, holds of all it keeps.
  pub All-keep : (xs : List A) → ((x : A) → p x ≡ true → P x) → All P (keep p xs)
  All-keep [] h = tt
  All-keep (x ∷ xs) h = elim (Bool-cases (p x)) [
    | inl in' ↦ rw in' (h x in', All-keep xs h)
    | inr out ↦ rw out (All-keep xs h)
  ]

  pub All-keep_both :
      (Q : A → Type κ) (xs : List A)
      → ((x : A) → Q x → p x ≡ true → P x)
      → All Q xs
      → All P (keep p xs)
  All-keep_both Q [] h hs = tt
  All-keep_both Q (x ∷ xs) h (k, ks) = elim (Bool-cases (p x)) [
    | inl in' ↦ rw in' (h x k in', All-keep_both Q xs h ks)
    | inr out ↦ rw out (All-keep_both Q xs h ks)
  ]

module _ {ℓ} {A : Type ℓ} ⦃e : Eq A⦄ where
  -- `a in xs`
  abbrev pub contains : List A → A → Bool
  contains [] a = false
  contains (x ∷ xs) a = x == a || contains xs a

  abbrev pub Distinct : List A → Type 0
  Distinct [] = Unit
  Distinct (x ∷ xs) = (contains xs x ≡ false) × Distinct xs

  pub contains-append :
      (xs : List A) (y k : A)
      → contains xs k ≡ false
      → (y == k) ≡ false
      → contains (xs ++ y ∷ []) k ≡ false
  contains-append [] y k h n = ground arith
  contains-append (x ∷ xs) y k h n = ground (arith, contains-append xs y k)

  -- An insert that the constraint lets through keeps the key column distinct.
  pub Distinct-append :
      (xs : List A) (y : A) → Distinct xs → contains xs y ≡ false → Distinct (xs ++ y ∷ [])
  Distinct-append [] y h n = (refl, tt)
  Distinct-append (x ∷ xs) y h n =
      ground (arith, Distinct-append xs y h.1, contains-append xs y x h.0, ==-sym x y)

module _ {ℓ κ} {A : Type ℓ} {B : Type κ} where
  pub map-snoc : (f : A → B) (xs : List A) (x : A) → map f (xs ++ x ∷ []) ≡ map f xs ++ f x ∷ []
  map-snoc f [] x = refl
  map-snoc f (y ∷ ys) x = ap (◌∷◌ (f y)) (map-snoc f ys x)

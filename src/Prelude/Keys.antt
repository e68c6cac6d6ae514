-- ===== src/Prelude/Keys.antt =====
-- The rows of a table under a key column, which a PRIMARY KEY or UNIQUE constraint keeps distinct.
use mathlib.Core.Path.{◌≡◌, refl, sym, subst, ◌∙◌}
use mathlib.Core.Bool.{Bool, true, false, ◌&&◌}
use mathlib.Core.Logic.{◌⊎◌, inl, inr}
use mathlib.Core.List.{List, [], ◌∷◌, map}
use mathlib.Core.Option.{none, some}
use native.Mathlib.Omega.{arith}
use remote_control_pjt.Prelude.Tests.{Eq, ◌==◌, ==-eq, ==-refl, Bool-cases}
use remote_control_pjt.Prelude.Lists.{contains, Distinct, any}
use remote_control_pjt.Prelude.Rows.{first, change, remove}

none-ne-some {ℓ} : {A : Type ℓ} {a : A} → none ≡ some a → ⊥
none-ne-some e = cc

module _ {ℓ κ} {R : Type ℓ} {K : Type κ} ⦃e : Eq K⦄ where
  abbrev pub has_key : (R → K) → K → R → Bool
  has_key key k r = key r == k

  pub map-change :
      (key : R → K) (p : R → Bool) (f : R → R) (rs : List R)
      → ((r : R) → key (f r) ≡ key r)
      → map key (change p f rs) ≡ map key rs
  unfolding change
  map-change key p f [] h = refl
  map-change key p f (r ∷ rs) h = ground (arith, h r, map-change key p f rs h)

  pub contains-remove :
      (key : R → K) (p : R → Bool) (rs : List R) (k : K)
      → contains (map key rs) k ≡ false
      → contains (map key (remove p rs)) k ≡ false
  unfolding remove
  contains-remove key p [] k h = refl
  contains-remove key p (r ∷ rs) k h = ground (arith, contains-remove key p rs k)

  pub Distinct-remove :
      (key : R → K) (p : R → Bool) (rs : List R)
      → Distinct (map key rs)
      → Distinct (map key (remove p rs))
  unfolding remove
  Distinct-remove key p [] h = tt
  Distinct-remove key p (r ∷ rs) h =
      ground (arith, Distinct-remove key p rs h.1, contains-remove key p rs (key r) h.0)

  pub contains-first :
      (key : R → K) (k : K) (rs : List R)
      → contains (map key rs) k ≡ false
      → first (has_key key k) rs ≡ none
  unfolding first
  contains-first key k [] h = refl
  contains-first key k (r ∷ rs) h = ground (arith, contains-first key k rs)

  pub first-contains :
      (key : R → K) (k : K) (rs : List R)
      → first (has_key key k) rs ≡ none
      → contains (map key rs) k ≡ false
  unfolding first
  first-contains key k [] h = refl
  first-contains key k (r ∷ rs) h = ground (arith, first-contains key k rs)

  -- With distinct keys a deleted row is gone.
  pub first-remove :
      (key : R → K) (k : K) (rs : List R)
      → Distinct (map key rs)
      → first (has_key key k) (remove (has_key key k) rs) ≡ none
  unfolding first remove
  first-remove key k [] h = refl
  first-remove key k (r ∷ rs) h = elim (Bool-cases (key r == k)) [
    | inl same ↦ rw same (contains-first key k rs (rw (==-eq (key r) k same) at h.0))
    | inr other ↦ rw (other, first, other) (first-remove key k rs h.1)
  ]

  -- Conditions on two keys of one column cannot both hold.
  pub has_key_ne :
      (key : R → K) (j k : K) (r : R)
      → (j == k) ≡ false
      → has_key key j r ≡ true
      → has_key key k r ≡ false
  has_key_ne key j k r n h = rw (==-eq (key r) j h) n

  contains-first_and :
      (key : R → K) (k : K) (q : R → Bool) (rs : List R)
      → contains (map key rs) k ≡ false
      → first (λ r. has_key key k r && q r) rs ≡ none
  unfolding first
  contains-first_and key k q [] h = refl
  contains-first_and key k q (r ∷ rs) h = ground (arith, contains-first_and key k q rs)

  -- With distinct keys, a change that ends a row's second condition leaves no row that meets both.
  pub first-change_gone :
      (key : R → K) (k : K) (q : R → Bool) (f : R → R) (rs : List R)
      → Distinct (map key rs)
      → ((r : R) → q (f r) ≡ false)
      → first (λ r. has_key key k r && q r) (change (λ r. has_key key k r && q r) f rs) ≡ none
  unfolding first change
  first-change_gone key k q f [] h n = refl
  first-change_gone key k q f (r ∷ rs) h n = elim (Bool-cases (key r == k)) [
    | inl same ↦
        let absent = contains-first_and key k q rs (rw (==-eq (key r) k same) at h.0) in
        ground (arith, n r, first-change_gone key k q f rs h.1 n)
    | inr other ↦ ground (arith, first-change_gone key k q f rs h.1 n)
  ]

  pub any-contains :
      (key : R → K) (k : K) (rs : List R) → any (has_key key k) rs ≡ contains (map key rs) k
  any-contains key k [] = refl
  any-contains key k (r ∷ rs) = ground (arith, any-contains key k rs)

  -- With distinct keys, a row that any select finds is the one that its key finds.
  pub first-by_key :
      (key : R → K) (p : R → Bool) (rs : List R) (a : R)
      → Distinct (map key rs)
      → first p rs ≡ some a
      → first (has_key key (key a)) rs ≡ some a
  unfolding first
  first-by_key key p [] a h e = cc
  first-by_key key p (r ∷ rs) a h e = elim (Bool-cases (p r)) [
    | inl this ↦
        let same : r ≡ a = cc (rw this at e) in
        subst (λ x. first (has_key key (key x)) (r ∷ rs) ≡ some x) same (rw (==-refl (key r)) refl)
    | inr other ↦ elim (Bool-cases (key r == key a)) [
      | inr differs ↦ rw (differs, first) (first-by_key key p rs a h.1 (rw other at e))
      | inl clash ↦ absurd (
          none-ne-some (
            sym (contains-first key (key a) rs (rw (==-eq (key r) (key a) clash) at h.0))
            ∙ first-by_key key p rs a h.1 (rw other at e)))
    ]
  ]

  -- What a key finds after a change that keeps the keys: what it found, or that row changed.
  pub first-change_either :
      (key : R → K) (k : K) (p : R → Bool) (f : R → R) (rs : List R)
      → ((r : R) → key (f r) ≡ key r)
      → (first (has_key key k) (change p f rs) ≡ first (has_key key k) rs)
        ⊎ ((row : R) × (first (has_key key k) rs ≡ some row)
            × (p row ≡ true)
            × (first (has_key key k) (change p f rs) ≡ some (f row)))
  unfolding first change
  first-change_either key k p f [] h = inl refl
  first-change_either key k p f (r ∷ rs) h = elim (Bool-cases (p r)) [
    | inl yes' ↦ elim (Bool-cases (key r == k)) [
      | inl same ↦ inr (r, rw (same, first) refl, yes', rw (yes', first, h r, same) refl)
      | inr other ↦ inl (rw (yes', first, h r, other) refl)
    ]
    | inr no' ↦ elim (Bool-cases (key r == k)) [
      | inl same ↦ inl (rw (no', first, same) refl)
      | inr other ↦ rw (no', first, other) (first-change_either key k p f rs h)
    ]
  ]

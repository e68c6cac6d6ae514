-- ===== src/World/Inversion.antt =====
-- What a run that has returned has gone through.
use remote_control_pjt.Prelude.{◌≡◌, refl, ap, Bool, true, false, Option, none, some}
use remote_control_pjt.Result.{Error, Result, ok, err}
use remote_control_pjt.World.{
  World, Action, raise, raise_if, gets, lift, pure, or_raise, continue, ◌>>=◌,
}

module _ {A B : Type 0} where
  continue-ok :
      (p : Result A × World) (f : A → Action B) {b : B} {w' : World}
      → continue p.0 f p.1 ≡ (ok b, w')
      → (a : A) × (v : World) × (p ≡ (ok a, v)) × (f a v ≡ (ok b, w'))
  continue-ok (ok a, v) f h = (a, v, refl, h)
  continue-ok (err x, v) f h = absurd (err-ne-ok (ap (λ (p : Result B × World). p.0) h))
    where
      err-ne-ok : {b : B} → err x ≡ ok b → ⊥
      err-ne-ok e = cc

  -- A block that returned: its first action returned, and so did the rest.
  pub bind-ok :
      (m : Action A) (f : A → Action B) {b : B} {w w' : World}
      → (m >>= f) w ≡ (ok b, w')
      → (a : A) × (v : World) × (m w ≡ (ok a, v)) × (f a v ≡ (ok b, w'))
  unfolding ◌>>=◌
  bind-ok m f {w = w} h = continue-ok (m w) f h

module _ {A : Type 0} where
  pub lift-ok : (r : Result A) {a : A} {w v : World} → lift r w ≡ (ok a, v) → (r ≡ ok a) × (w ≡ v)
  unfolding lift
  lift-ok r h = (ap (λ (p : Result A × World). p.0) h, ap (λ (p : Result A × World). p.1) h)

  pub or_raise-ok :
      (o : Option A) (x : Error) {a : A} {w v : World}
      → or_raise o x w ≡ (ok a, v)
      → (o ≡ some a) × (w ≡ v)
  unfolding ◌>>=◌
  or_raise-ok none x h = absurd (failed (ap (λ (p : Result A × World). p.0) h))
    where
      failed : {a : A} → err x ≡ ok a → ⊥
      failed e = cc
  or_raise-ok (some b) x {a = a} h =
      (cc (ap (λ (p : Result A × World). p.0) h), ap (λ (p : Result A × World). p.1) h)

pub pure-ok : {A : Type 0} {a b : A} (w v : World) → pure a w ≡ (ok b, v) → a ≡ b
unfolding pure
pure-ok {A} w v h = cc (ap (λ (p : Result A × World). p.0) h)

pub pure-at : {A : Type 0} (a b : A) (w v : World) → pure a w ≡ (ok b, v) → w ≡ v
unfolding pure
pure-at {A} a b w v h = ap (λ (p : Result A × World). p.1) h

pub raise_if-ok :
    (b : Bool) (x : Error) {u : Unit {0}} (w v : World)
    → raise_if b x w ≡ (ok u, v)
    → (b ≡ false) × (w ≡ v)
unfolding raise pure
raise_if-ok false x w v h = (refl, ap (λ (p : Result (Unit {0}) × World). p.1) h)
raise_if-ok true x w v h = absurd (failed (ap (λ (p : Result (Unit {0}) × World). p.0) h))
  where
    failed : {u : Unit {0}} → err x ≡ ok u → ⊥
    failed e = cc

pub gets-ok :
    {A : Type 0} (f : World → A) {a : A} (w v : World) → gets f w ≡ (ok a, v) → (f w ≡ a) × (w ≡ v)
unfolding gets
gets-ok {A} f w v h =
    (cc (ap (λ (p : Result A × World). p.0) h), ap (λ (p : Result A × World). p.1) h)

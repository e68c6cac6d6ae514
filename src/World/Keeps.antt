-- ===== src/World/Keeps.antt =====
-- Actions that leave one part of the database as it was, whatever they return: a rule for each way
-- to build an action, for `search`.
use remote_control_pjt.Prelude.{
  ◌≡◌, refl, ap, ◌∙◌, inl, inr, Bool, true, false, Option, none, some, if◌then◌else◌,
}
use remote_control_pjt.Result.{Error, Result, ok, err}
use remote_control_pjt.World.{
  World, Action, pure, raise, gets, or_raise, lift, catch, handle, continue, commit, untouched,
  ◌>>=◌,
}
use remote_control_pjt.World.Commit.{commit-Commits}

module _ {F : Type 0} (part : World → F) where
  pub record Keeps {A : Type 0} (m : Action A) : Type 0 where
    pub at : (w : World) → part (m w).1 ≡ part w

  pub pure-Keeps : {A : Type 0} (a : A) → Keeps (pure a)
  unfolding pure
  pure-Keeps a = record { at = λ w. refl }

  pub raise-Keeps : {A : Type 0} (x : Error) → Keeps (raise {A = A} x)
  unfolding raise
  raise-Keeps x = record { at = λ w. refl }

  pub gets-Keeps : {A : Type 0} (f : World → A) → Keeps (gets f)
  unfolding gets
  gets-Keeps f = record { at = λ w. refl }

  pub lift-Keeps : {A : Type 0} (r : Result A) → Keeps (lift r)
  unfolding lift
  lift-Keeps r = record { at = λ w. refl }

  pub or_raise-Keeps : {A : Type 0} (o : Option A) (x : Error) → Keeps (or_raise o x)
  unfolding or_raise raise pure
  or_raise-Keeps none x = record { at = λ w. refl }
  or_raise-Keeps (some a) x = record { at = λ w. refl }

  pub if-Keeps :
      {A : Type 0} (b : Bool) {m k : Action A} → Keeps m → Keeps k → Keeps (if b then m else k)
  if-Keeps true hm hk = hm
  if-Keeps false hm hk = hk

  pub option-Keeps :
      {A B : Type 0} (o : Option A) {m : Action B} {f : A → Action B}
      → Keeps m
      → ((a : A) → Keeps (f a))
      → Keeps (elim o [ none ↦ m | some a ↦ f a ])
  option-Keeps none hm hf = hm
  option-Keeps (some a) hm hf = hf a

  result-Keeps :
      {A B : Type 0} (r : Result A) {f : A → Action B} {g : Error → Action B}
      → ((a : A) → Keeps (f a))
      → ((x : Error) → Keeps (g x))
      → Keeps (elim r [ ok a ↦ f a | err x ↦ g x ])
  result-Keeps (ok a) hf hg = hf a
  result-Keeps (err x) hf hg = hg x

  continue-Keeps :
      {A B : Type 0} (r : Result A) {f : A → Action B} (w : World)
      → ((a : A) → Keeps (f a))
      → part (continue r f w).1 ≡ part w
  continue-Keeps (ok a) w h = (h a).at w
  continue-Keeps (err x) w h = refl

  pub bind-Keeps :
      {A B : Type 0} {m : Action A} {f : A → Action B}
      → Keeps m
      → ((a : A) → Keeps (f a))
      → Keeps (m >>= f)
  unfolding ◌>>=◌
  bind-Keeps {m = m} {f = f} hm hf = record {
    at = λ w. continue-Keeps (m w).0 {f = f} (m w).1 hf ∙ hm.at w;
  }

  handle-Keeps :
      {A : Type 0} (r : Result A) {h : Error → Action A} (w : World)
      → ((x : Error) → Keeps (h x))
      → part (handle r h w).1 ≡ part w
  handle-Keeps (ok a) w k = refl
  handle-Keeps (err x) w k = (k x).at w

  pub catch-Keeps :
      {A : Type 0} {m : Action A} {h : Error → Action A}
      → Keeps m
      → ((x : Error) → Keeps (h x))
      → Keeps (catch m h)
  unfolding catch
  catch-Keeps {m = m} {h = h} hm hh = record {
    at = λ w. handle-Keeps (m w).0 {h = h} (m w).1 hh ∙ hm.at w;
  }

  -- A transaction keeps what its writes keep, and what does not count the COMMITs.
  pub commit-Keeps :
      (violated : Bool) {f : World → World}
      → ((w : World) → part (untouched w) ≡ part w)
      → ((w : World) → part (f w) ≡ part w)
      → Keeps (commit violated f)
  commit-Keeps violated {f} hu hf = record {
    at = λ w. elim (commit-Commits violated f w) [
      | inl (free, e) ↦ ap (λ (p : Result Unit × World). part p.1) e ∙ hf (untouched w) ∙ hu w
      | inr (x, e) ↦ ap (λ (p : Result Unit × World). part p.1) e ∙ hu w
    ];
  }

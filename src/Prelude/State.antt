-- ===== src/Prelude/State.antt =====
-- Calls on one object: state passing with the outcomes of `Prelude.Outcome`. A call that does not
-- return gives no state, since a panic or undefined behaviour ends the program here.
use mathlib.Core.Path.{◌≡◌, refl}
use native.Mathlib.Omega.{arith}
use mathlib.Core.Logic.{◌⊎◌, inl, inr}
use raknet_sys.Prelude.Outcome.{Outcome, ok, panic, Undefined, undefined, out_of_fuel}

abbrev pub M : Type 0 → Type 0 → Type 0
M S A = S → Outcome (A × S)

module _ {S : Type 0} where
  abbrev pub pure : {A : Type 0} → A → M S A
  pure a s = ok (a, s)

  abbrev pub continue : {A B : Type 0} → Outcome (A × S) → (A → M S B) → Outcome (B × S)
  continue (ok (a, s)) f = f a s
  continue (panic p) f = panic p
  continue (undefined u) f = undefined u
  continue out_of_fuel f = out_of_fuel

  infixl 5 ◌>>=◌ ◌>>◌
  abbrev pub ◌>>=◌ : {A B : Type 0} → M S A → (A → M S B) → M S B
  ◌>>=◌ m f s = continue (m s) f

  abbrev pub ◌>>◌ : {B : Type 0} → M S (Unit {0}) → M S B → M S B
  m >> k = m >>= λ _. k

  -- A step that does not touch the object.
  abbrev pub lift : {A : Type 0} → Outcome A → M S A
  lift (ok a) s = ok (a, s)
  lift (panic p) s = panic p
  lift (undefined u) s = undefined u
  lift out_of_fuel s = out_of_fuel

  -- A method that always returns.
  abbrev pub call : {A : Type 0} → (S → A × S) → M S A
  call f s = ok (f s)

  -- A method that returns, or whose behaviour is undefined.
  abbrev pub returned : {A : Type 0} → Undefined ⊎ (A × S) → Outcome (A × S)
  returned (inl u) = undefined u
  returned (inr r) = ok r

  abbrev pub call_partial : {A : Type 0} → (S → Undefined ⊎ (A × S)) → M S A
  call_partial f s = returned (f s)

  -- Inversion of a chain that returned.
  pub continue-eq-ok :
      {A B : Type 0} (r : Outcome (A × S)) (f : A → M S B) {y : B × S}
      → continue r f ≡ ok y
      → (a : A) × (t : S) × (r ≡ ok (a, t)) × (f a t ≡ ok y)
  continue-eq-ok (ok (a, t)) f h = (a, t, refl, h)
  continue-eq-ok (panic p) f h = cc
  continue-eq-ok (undefined u) f h = cc
  continue-eq-ok out_of_fuel f h = cc

  -- Inversion of a lifted outcome that is a value.
  pub lift-eq-ok :
      {A : Type 0} (m : Outcome A) (s : S) {a : A} {t : S}
      → lift m s ≡ ok (a, t)
      → (m ≡ ok a) × (s ≡ t)
  lift-eq-ok (ok a) s h = ground (arith, h)
  lift-eq-ok (panic p) s h = cc
  lift-eq-ok (undefined u) s h = cc
  lift-eq-ok out_of_fuel s h = cc

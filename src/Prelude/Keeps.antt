-- ===== src/Prelude/Keeps.antt =====
-- Calls on one object that leave a view of it as it was: a rule for each way in which calls are built.
use mathlib.Core.Path.{◌≡◌, ap, sym, ◌∙◌}
use mathlib.Core.Bool.{Bool, true, false}
use raknet_sys.Prelude.Tests.{if◌then◌else◌}
use raknet_sys.Prelude.Outcome.{Outcome, ok}
use raknet_sys.Prelude.State.{M, pure, ◌>>=◌, lift, call, continue-eq-ok, lift-eq-ok}
use native.Mathlib.Omega.{arith}

module _ {S X : Type 0} (shown : S → X) where
  -- Whenever the call returns, the view is what it was.
  abbrev pub Keeps : {A : Type 0} → M S A → Type 0
  Keeps {A} m = (s t : S) (a : A) → m s ≡ ok (a, t) → shown t ≡ shown s

  pub Keeps-pure : {A : Type 0} (a : A) → Keeps (pure a)
  Keeps-pure a s t b h = ap shown (sym (ground (arith, h)))

  pub Keeps-lift : {A : Type 0} (m : Outcome A) → Keeps (lift m)
  Keeps-lift m s t a h = ap shown (sym (lift-eq-ok m s h).1)

  pub Keeps-call :
      {A : Type 0} (f : S → A × S) → ((s : S) → shown (f s).1 ≡ shown s) → Keeps (call f)
  Keeps-call f k s t a h = ground (arith, h, k s)

  pub Keeps-bind :
      {A B : Type 0} (m : M S A) {f : A → M S B}
      → Keeps m
      → ((a : A) → Keeps (f a))
      → Keeps (m >>= f)
  Keeps-bind m {f} hm hf s t b h =
      let (a, u, k, rest) = continue-eq-ok (m s) f h in hf a u t b rest ∙ hm s u a k

  -- A step that does not touch the object, and the steps after it.
  pub Keeps-after_lift :
      {A B : Type 0} (m : Outcome A) {f : A → M S B}
      → ((a : A) → Keeps (f a))
      → Keeps (lift m >>= f)
  Keeps-after_lift m hf = Keeps-bind (lift m) (Keeps-lift m) hf

  -- A method that keeps the view, and the steps after it.
  pub Keeps-after_call :
      {A B : Type 0} (g : S → A × S) {f : A → M S B}
      → ((s : S) → shown (g s).1 ≡ shown s)
      → ((a : A) → Keeps (f a))
      → Keeps (call g >>= f)
  Keeps-after_call g k hf = Keeps-bind (call g) (Keeps-call g k) hf

  pub Keeps-if :
      {A : Type 0} (b : Bool) (m n : M S A) → Keeps m → Keeps n → Keeps (if b then m else n)
  Keeps-if true m n hm hn = hm
  Keeps-if false m n hm hn = hn

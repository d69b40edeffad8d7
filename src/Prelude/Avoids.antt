-- ===== src/Prelude/Avoids.antt =====
-- Calls on one object that never end in a given panic: a rule for each way in which calls are built.
use mathlib.Core.Logic.{◌≢◌}
use mathlib.Core.Bool.{Bool, true, false}
use raknet_sys.Prelude.Tests.{if◌then◌else◌}
use raknet_sys.Prelude.Outcome.{Outcome, ok, Panic, panic, undefined, out_of_fuel}
use raknet_sys.Prelude.State.{M, pure, continue, ◌>>=◌, lift, call}

module _ {S : Type 0} (e : Panic) where
  abbrev pub Avoids : {A : Type 0} → M S A → Type 0
  Avoids m = (s : S) → m s ≢ panic e

  pub Avoids-pure : {A : Type 0} (a : A) → Avoids (pure a)
  Avoids-pure a s h = cc

  pub Avoids-call : {A : Type 0} (f : S → A × S) → Avoids (call f)
  Avoids-call f s h = cc

  pub Avoids-lift : {A : Type 0} (m : Outcome A) → m ≢ panic e → Avoids (lift m)
  Avoids-lift (ok a) n s h = cc
  Avoids-lift (panic p) n s h = n (cc)
  Avoids-lift (undefined u) n s h = cc
  Avoids-lift out_of_fuel n s h = cc

  pub Avoids-continue :
      {A B : Type 0} (r : Outcome (A × S)) (f : A → M S B)
      → r ≢ panic e
      → ((a : A) → Avoids (f a))
      → continue r f ≢ panic e
  Avoids-continue (ok (a, s)) f n k h = k a s h
  Avoids-continue (panic p) f n k h = n (cc)
  Avoids-continue (undefined u) f n k h = cc
  Avoids-continue out_of_fuel f n k h = cc

  pub Avoids-bind :
      {A B : Type 0} (m : M S A) (f : A → M S B)
      → Avoids m
      → ((a : A) → Avoids (f a))
      → Avoids (m >>= f)
  Avoids-bind m f n k s = Avoids-continue (m s) f (n s) k

  pub Avoids-if :
      {A : Type 0} (b : Bool) (m n : M S A) → Avoids m → Avoids n → Avoids (if b then m else n)
  Avoids-if true m n hm hn = hm
  Avoids-if false m n hm hn = hn

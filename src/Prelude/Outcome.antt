-- ===== src/Prelude/Outcome.antt =====
-- How a computation ends: with a value, with a Rust panic, with undefined behaviour of C++ or of an
-- `unsafe` block, or not within the fuel given.
use mathlib.Core.Path.{◌≡◌, refl}
use native.Mathlib.Omega.{arith}
use mathlib.Core.Logic.{◌⊎◌, inl, inr}
use mathlib.Core.Option.{Option, none, some}
use mathlib.Core.List.{List, [], ◌∷◌}

pub data Panic : Type 0 where
  -- `unwrap` or `expect` on `None`, and on `Err`
  unwrap_none unwrap_err : Panic
  -- `assert!`, `unimplemented!`, a conversion of a number that no enumerator has
  assertion not_implemented invalid_value : Panic
  -- `Sender::send` before `data` or before a target was given
  no_data no_target : Panic
  -- a slice or an index outside its range
  out_of_range : Panic

pub data Undefined : Type 0 where
  null_pointer dangling_pointer out_of_bounds missing_return : Undefined

pub data Outcome {ℓ} (A : Type ℓ) : Type ℓ where
  ok : A → Outcome A
  panic : Panic → Outcome A
  undefined : Undefined → Outcome A
  out_of_fuel : Outcome A

infixl 5 ◌>>=◌
abbrev pub ◌>>=◌ {ℓ κ} : {A : Type ℓ} {B : Type κ} → Outcome A → (A → Outcome B) → Outcome B
ok a >>= f = f a
panic p >>= f = panic p
undefined u >>= f = undefined u
out_of_fuel >>= f = out_of_fuel

-- `Option::unwrap`
abbrev pub unwrap {ℓ} : {A : Type ℓ} → Option A → Outcome A
unwrap none = panic unwrap_none
unwrap (some a) = ok a

-- Inversion of a chain that returned.
pub >>=-eq-ok {ℓ κ} :
    {A : Type ℓ} {B : Type κ} (r : Outcome A) (next : A → Outcome B) {y : B}
    → (r >>= next) ≡ ok y
    → (x : A) × (r ≡ ok x) × (next x ≡ ok y)
>>=-eq-ok (ok x) next h = (x, refl, h)
>>=-eq-ok (panic p) next h = cc
>>=-eq-ok (undefined u) next h = cc
>>=-eq-ok out_of_fuel next h = cc

-- A loop that may panic in its body: `iter().map(f).collect()`.
unfoldable pub traverse {ℓ κ} :
    {A : Type ℓ} {B : Type κ} → (A → Outcome B) → List A → Outcome (List B)
traverse f [] = ok []
traverse f (x ∷ xs) = f x >>= λ y. traverse f xs >>= λ ys. ok (y ∷ ys)

-- Inversion of a chain that panicked: its first part did, or the rest did.
pub >>=-eq-panic {ℓ κ} :
    {A : Type ℓ} {B : Type κ} (m : Outcome A) (f : A → Outcome B) {p : Panic}
    → (m >>= f) ≡ panic p
    → (m ≡ panic p) ⊎ ((a : A) × (m ≡ ok a) × (f a ≡ panic p))
>>=-eq-panic (ok a) f h = inr (a, refl, h)
>>=-eq-panic (panic p) f h = inl (cc)
>>=-eq-panic (undefined u) f h = cc
>>=-eq-panic out_of_fuel f h = cc

-- A total function on the value of a computation.
abbrev pub map_ok {ℓ κ} : {A : Type ℓ} {B : Type κ} → (A → B) → Outcome A → Outcome B
map_ok f (ok a) = ok (f a)
map_ok f (panic p) = panic p
map_ok f (undefined u) = undefined u
map_ok f out_of_fuel = out_of_fuel

-- Inversion of a mapped computation that returned.
pub map_ok-eq-ok {ℓ κ} :
    {A : Type ℓ} {B : Type κ} (f : A → B) (m : Outcome A) {b : B}
    → map_ok f m ≡ ok b
    → (a : A) × (m ≡ ok a) × (f a ≡ b)
map_ok-eq-ok f (ok a) h = (a, refl, ground (arith, h))
map_ok-eq-ok f (panic p) h = cc
map_ok-eq-ok f (undefined u) h = cc
map_ok-eq-ok f out_of_fuel h = cc

-- A mapped computation that panicked.
pub map_ok-eq-panic {ℓ κ} :
    {A : Type ℓ} {B : Type κ} (f : A → B) (m : Outcome A) {e : Panic}
    → map_ok f m ≡ panic e
    → m ≡ panic e
map_ok-eq-panic f (ok a) h = cc
map_ok-eq-panic f (panic p) h = cc
map_ok-eq-panic f (undefined u) h = cc
map_ok-eq-panic f out_of_fuel h = cc

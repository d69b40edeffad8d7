-- ===== src/Native/Pointer.antt =====
-- Pointers as they cross the C interface of raknet-c.
use raknet_sys.Prelude.Outcome.{Outcome, ok, undefined, null_pointer, dangling_pointer}

-- A null pointer, one to a live object, and one to an object that is gone.
pub data Ptr {ℓ} (A : Type ℓ) : Type ℓ where
  null : Ptr A
  to : A → Ptr A
  dangling : Ptr A

-- `*p`
abbrev pub deref {ℓ} : {A : Type ℓ} → Ptr A → Outcome A
deref null = undefined null_pointer
deref (to a) = ok a
deref dangling = undefined dangling_pointer

-- ===== src/Crypto/Handshake.antt =====
-- The two sides of the handshake of src/libcat.rs.
pub mod Client
pub mod Server
pub mod Agreement
use raknet_sys.Prelude.{Bool, Option, none, some, Bytes, if◌then◌else◌}

-- `if res { Some(..) } else { None }` on the arrays that a call filled.
module _ {S : Type 0} where
  abbrev pub keys_if : (Bool × Bytes × Bytes) × S → Option (Bytes × Bytes) × S
  keys_if ((res, public_key, private_key), self) =
      (if res then some (public_key, private_key) else none, self)

  abbrev pub array_if : (Bool × Bytes) × S → Option Bytes × S
  array_if ((res, array), self) = (if res then some array else none, self)

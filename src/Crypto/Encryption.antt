-- ===== src/Crypto/Encryption.antt =====
-- `AuthenticatedEncryption` of src/libcat.rs: the buffers that its methods hand to C.
pub mod Channel
use raknet_sys.Prelude.{
  ℕ, ◌-◌, ◌%◌, ◌^◌, Bool, Option, none, some, List, ◌++◌, Bytes, length, take, replicate,
  if◌then◌else◌,
}
use raknet_sys.Prelude.Int.{as_i32}
use raknet_sys.Native.Constants.{overhead_bytes}
use raknet_sys.Crypto.Interface.{Cat}
use raknet_sys.Crypto.Shim.{
  authenticated_encryption_generate_proof, authenticated_encryption_validate_proof,
  authenticated_encryption_decrypt, authenticated_encryption_encrypt,
}

-- `Vec::resize`: the first bytes, and zeros after them.
abbrev pub resize : ℕ → Bytes → Bytes
resize n v = take n v ++ replicate (n - length v) 0

module _ (cat : Cat) where
  open cat use {Encryption}

  unfoldable pub generate_proof : ℕ → Encryption → Option Bytes × Encryption
  generate_proof length_of_proof self =
      let v : Bytes = replicate length_of_proof 0 in
      let ((res, v'), self') =
        authenticated_encryption_generate_proof cat v (as_i32 (length v)) self in
      (if res then some v' else none, self')

  unfoldable pub validate_proof : Bytes → Encryption → Bool × Encryption
  validate_proof proof self =
      authenticated_encryption_validate_proof cat proof (as_i32 (length proof)) self

  unfoldable pub encrypt : Bytes → Encryption → Option Bytes × Encryption
  encrypt msg self =
      let v = msg ++ replicate overhead_bytes 0 in
      let ((res, v', msg_bytes), self') =
        authenticated_encryption_encrypt cat v (length v % 2 ^ 32) (length msg % 2 ^ 32) self in
      (if res then some (resize msg_bytes v') else none, self')

  unfoldable pub decrypt : Bytes → Encryption → Option Bytes × Encryption
  decrypt msg self =
      let ((res, v, msg_bytes), self') =
        authenticated_encryption_decrypt cat msg (length msg % 2 ^ 32) self in
      (if res then some (resize msg_bytes v) else none, self')

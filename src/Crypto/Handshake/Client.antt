-- ===== src/Crypto/Handshake/Client.antt =====
-- `ClientEasyHandshake` of src/libcat.rs.
use raknet_sys.Prelude.{Bool, Option, none, some, Bytes, replicate, if◌then◌else◌}
use raknet_sys.Native.Constants.{public_key_bytes, private_key_bytes, challenge_bytes}
use raknet_sys.Crypto.Interface.{Cat}
use raknet_sys.Crypto.Shim.{
  authenticated_encryption_new, client_easy_handshake_new,
  client_easy_handshake_generate_server_key, client_easy_handshake_initialize,
  client_easy_handshake_set_identity, client_easy_handshake_generate_challenge,
  client_easy_handshake_process_answer,
}
use raknet_sys.Crypto.Handshake.{keys_if, array_if}

module _ (cat : Cat) where
  open cat use {Encryption, Client}

  unfoldable pub new : Client
  new = client_easy_handshake_new cat

  unfoldable pub generate_server_key : Client → Option (Bytes × Bytes) × Client
  generate_server_key self = keys_if (
      client_easy_handshake_generate_server_key cat (replicate public_key_bytes 0)
        (replicate private_key_bytes 0) self)

  unfoldable pub initialize : Bytes → Client → Bool × Client
  initialize public_key self = client_easy_handshake_initialize cat public_key self

  unfoldable pub set_identity : Bytes → Bytes → Client → Bool × Client
  set_identity public_key private_key self =
      client_easy_handshake_set_identity cat public_key private_key self

  unfoldable pub generate_challenge : Client → Option Bytes × Client
  generate_challenge self =
      array_if (client_easy_handshake_generate_challenge cat (replicate challenge_bytes 0) self)

  -- The new object is dropped if the answer is refused.
  unfoldable pub process_answer : Bytes → Client → Option Encryption × Client
  process_answer answer self =
      let (res, self', authenticated_encryption) =
        client_easy_handshake_process_answer cat answer self (authenticated_encryption_new cat) in
      (if res then some authenticated_encryption else none, self')

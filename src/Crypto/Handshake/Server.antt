-- ===== src/Crypto/Handshake/Server.antt =====
-- `ServerEasyHandshake` of src/libcat.rs, which keeps the cookie jar that it filled.
use raknet_sys.Prelude.{Bool, Option, none, some, Bytes, replicate, if◌then◌else◌}
use raknet_sys.Native.Constants.{public_key_bytes, private_key_bytes, answer_bytes}
use raknet_sys.Crypto.Interface.{Cat}
use raknet_sys.Crypto.Shim.{
  cookie_jar_new, authenticated_encryption_new, server_easy_handshake_new,
  server_easy_handshake_generate_server_key, server_easy_handshake_fill_cookie_jar,
  server_easy_handshake_initialize, server_easy_handshake_process_challenge,
}
use raknet_sys.Crypto.Handshake.{keys_if}

pub record ServerEasyHandshake (cat : Cat) : Type 0 where
  pub cookie_jar : cat.Jar
  pub inner : cat.Server

module _ (cat : Cat) where
  open cat use {Encryption, Server}

  unfoldable pub new : ServerEasyHandshake cat
  new =
      let filled =
        server_easy_handshake_fill_cookie_jar cat (server_easy_handshake_new cat)
          (cookie_jar_new cat) in
      record { cookie_jar = filled.1; inner = filled.0 }

  -- The handshake with its C++ object after a call.
  abbrev with_inner :
      {A : Type 0} → ServerEasyHandshake cat → A × Server → A × ServerEasyHandshake cat
  with_inner self (a, inner) = (a, record self { inner = inner })

  unfoldable pub generate_server_key :
      ServerEasyHandshake cat → Option (Bytes × Bytes) × ServerEasyHandshake cat
  generate_server_key self = with_inner self (
      keys_if (
        server_easy_handshake_generate_server_key cat (replicate public_key_bytes 0)
          (replicate private_key_bytes 0) self.inner))

  unfoldable pub initialize :
      Bytes → Bytes → ServerEasyHandshake cat → Bool × ServerEasyHandshake cat
  initialize public_key private_key self =
      with_inner self (server_easy_handshake_initialize cat public_key private_key self.inner)

  -- The new object is dropped if the challenge is refused.
  unfoldable pub process_challenge :
      Bytes → ServerEasyHandshake cat → Option (Encryption × Bytes) × ServerEasyHandshake cat
  process_challenge challenge self =
      let ((res, answer), inner, authenticated_encryption) =
        server_easy_handshake_process_challenge cat challenge (replicate answer_bytes 0) self.inner
          (authenticated_encryption_new cat) in
      with_inner self (if res then some (authenticated_encryption, answer) else none, inner)

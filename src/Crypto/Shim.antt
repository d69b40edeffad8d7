-- ===== src/Crypto/Shim.antt =====
-- raknet-c/libcat.cpp: the C functions around the classes of the library cat, which it compiles if
-- `LIBCAT_SECURITY` is 1.
use raknet_sys.Prelude.{ℕ, Bool, Bytes}
use raknet_sys.Prelude.Int.{ℤ}
use raknet_sys.Crypto.Interface.{Cat}

module _ (cat : Cat) where
  open cat use {Jar, Encryption, Client, Server}

  unfoldable pub cookie_jar_new : Jar
  cookie_jar_new = cat.new_jar

  unfoldable pub authenticated_encryption_new : Encryption
  authenticated_encryption_new = cat.new_encryption

  unfoldable pub authenticated_encryption_generate_proof :
      Bytes → ℤ → Encryption → (Bool × Bytes) × Encryption
  authenticated_encryption_generate_proof local_proof proof_bytes self =
      cat.generate_proof local_proof proof_bytes self

  unfoldable pub authenticated_encryption_validate_proof :
      Bytes → ℤ → Encryption → Bool × Encryption
  authenticated_encryption_validate_proof remote_proof proof_bytes self =
      cat.validate_proof remote_proof proof_bytes self

  unfoldable pub authenticated_encryption_decrypt :
      Bytes → ℕ → Encryption → (Bool × Bytes × ℕ) × Encryption
  authenticated_encryption_decrypt buffer buf_bytes self = cat.decrypt buffer buf_bytes self

  unfoldable pub authenticated_encryption_encrypt :
      Bytes → ℕ → ℕ → Encryption → (Bool × Bytes × ℕ) × Encryption
  authenticated_encryption_encrypt buffer buffer_bytes msg_bytes self =
      cat.encrypt buffer buffer_bytes msg_bytes self

  unfoldable pub client_easy_handshake_new : Client
  client_easy_handshake_new = cat.new_client

  unfoldable pub client_easy_handshake_generate_server_key :
      Bytes → Bytes → Client → (Bool × Bytes × Bytes) × Client
  client_easy_handshake_generate_server_key out_public_key out_private_key self =
      cat.client_generate_server_key out_public_key out_private_key self

  unfoldable pub client_easy_handshake_initialize : Bytes → Client → Bool × Client
  client_easy_handshake_initialize in_public_key self = cat.client_initialize in_public_key self

  unfoldable pub client_easy_handshake_set_identity : Bytes → Bytes → Client → Bool × Client
  client_easy_handshake_set_identity in_public_key in_private_key self =
      cat.client_set_identity in_public_key in_private_key self

  unfoldable pub client_easy_handshake_generate_challenge : Bytes → Client → (Bool × Bytes) × Client
  client_easy_handshake_generate_challenge out_challenge self =
      cat.client_generate_challenge out_challenge self

  unfoldable pub client_easy_handshake_process_answer :
      Bytes → Client → Encryption → Bool × Client × Encryption
  client_easy_handshake_process_answer in_answer self auth_enc =
      cat.client_process_answer in_answer self auth_enc

  unfoldable pub client_easy_handshake_process_answer_with_identity :
      Bytes → Bytes → Client → Encryption → (Bool × Bytes) × Client × Encryption
  client_easy_handshake_process_answer_with_identity in_answer out_identity self auth_enc =
      cat.client_process_answer_with_identity in_answer out_identity self auth_enc

  unfoldable pub server_easy_handshake_new : Server
  server_easy_handshake_new = cat.new_server

  unfoldable pub server_easy_handshake_generate_server_key :
      Bytes → Bytes → Server → (Bool × Bytes × Bytes) × Server
  server_easy_handshake_generate_server_key out_public_key out_private_key self =
      cat.server_generate_server_key out_public_key out_private_key self

  unfoldable pub server_easy_handshake_fill_cookie_jar : Server → Jar → Server × Jar
  server_easy_handshake_fill_cookie_jar self jar = cat.server_fill_cookie_jar self jar

  unfoldable pub server_easy_handshake_initialize : Bytes → Bytes → Server → Bool × Server
  server_easy_handshake_initialize in_public_key in_private_key self =
      cat.server_initialize in_public_key in_private_key self

  unfoldable pub server_easy_handshake_process_challenge :
      Bytes → Bytes → Server → Encryption → (Bool × Bytes) × Server × Encryption
  server_easy_handshake_process_challenge in_challenge out_answer self auth_enc =
      cat.server_process_challenge in_challenge out_answer self auth_enc

  unfoldable pub server_easy_handshake_verify_initiator_identity :
      Bytes → Bytes → Bytes → Server → (Bool × Bytes) × Server
  server_easy_handshake_verify_initiator_identity in_answer in_proof out_public_key self =
      cat.server_verify_initiator_identity in_answer in_proof out_public_key self

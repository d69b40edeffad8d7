-- ===== src/Crypto/Interface.antt =====
-- The classes of the library cat, a part of RakNet's git submodule, as raknet-c/libcat.cpp calls them. A
-- buffer that a method writes to is given to it with its bytes, and returned with the bytes after.
use raknet_sys.Prelude.{ℕ, Bool, Bytes}
use raknet_sys.Prelude.Int.{ℤ}

pub record Cat : Type 1 where
  pub Jar : Type 0
  pub Encryption : Type 0
  pub Client : Type 0
  pub Server : Type 0
  pub new_jar : Jar
  pub new_encryption : Encryption
  pub new_client : Client
  pub new_server : Server
  -- `AuthenticatedEncryption`
  pub generate_proof : Bytes → ℤ → Encryption → (Bool × Bytes) × Encryption
  pub validate_proof : Bytes → ℤ → Encryption → Bool × Encryption
  -- the buffer and the number of its bytes
  pub decrypt : Bytes → ℕ → Encryption → (Bool × Bytes × ℕ) × Encryption
  -- the buffer, its size, and the number of bytes of the message in it
  pub encrypt : Bytes → ℕ → ℕ → Encryption → (Bool × Bytes × ℕ) × Encryption
  -- `ClientEasyHandshake`
  pub client_generate_server_key : Bytes → Bytes → Client → (Bool × Bytes × Bytes) × Client
  pub client_initialize : Bytes → Client → Bool × Client
  pub client_set_identity : Bytes → Bytes → Client → Bool × Client
  pub client_generate_challenge : Bytes → Client → (Bool × Bytes) × Client
  pub client_process_answer : Bytes → Client → Encryption → Bool × Client × Encryption
  pub client_process_answer_with_identity :
      Bytes → Bytes → Client → Encryption → (Bool × Bytes) × Client × Encryption
  -- `ServerEasyHandshake`
  pub server_generate_server_key : Bytes → Bytes → Server → (Bool × Bytes × Bytes) × Server
  pub server_fill_cookie_jar : Server → Jar → Server × Jar
  pub server_initialize : Bytes → Bytes → Server → Bool × Server
  pub server_process_challenge :
      Bytes → Bytes → Server → Encryption → (Bool × Bytes) × Server × Encryption
  pub server_verify_initiator_identity : Bytes → Bytes → Bytes → Server → (Bool × Bytes) × Server

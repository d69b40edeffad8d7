-- ===== src/Wrapper/Connect/Password.antt =====
-- The password that `Connect` of src/rakpeer.rs hands to C.
use raknet_sys.Prelude.{
  true, false, ℕ, ◌≡◌, ◌↔◌, refl, Option, none, some, [], ◌∷◌, Bytes, length, arith,
}
use raknet_sys.Prelude.Int.{as_i32}
use raknet_sys.Prelude.Outcome.{ok, panic, unwrap_err}
use raknet_sys.Native.Pointer.{Ptr, null, to, dangling}
use raknet_sys.Peer.Interface.{RakNet, ConnectArgs}
use raknet_sys.Peer.Shim.{rak_peer_connect}
use raknet_sys.Wrapper.Codes.{ConnectionAttemptResult, from_connection_attempt_result}
use raknet_sys.Wrapper.Text.{new_cstring, has_zero}
use raknet_sys.Wrapper.Connect.{PublicKey, into_public_key, password_argument, connect}

password_argument-some :
    (password : Bytes) → password_argument (some password) ≡ (dangling, length password)
unfolding password_argument
password_argument-some [] = refl
password_argument-some (b ∷ bs) = refl

password_argument-none : password_argument none ≡ (null, 0)
unfolding password_argument
password_argument-none = refl

-- What `Connect` calls the library with, at a given password pointer and length.
abbrev pub connect_args : Bytes → ℕ → Ptr Bytes → ℕ → PublicKey → ConnectArgs
connect_args host remote_port password password_length pk = record {
  host = host;
  remote_port = remote_port;
  password = password;
  password_length = as_i32 password_length;
  public_key = to (into_public_key pk);
  connection_socket_index = 0;
  send_connection_attempt_count = 12;
  time_between_send_connection_attempts_ms = 500;
  timeout_time = 0;
}

module _ (lib : RakNet) (host : Bytes) (port : ℕ) (pk : PublicKey) (s t : lib.Peer) where
  -- A host name with a zero byte panics before the library is called.
  connect_interior_zero :
      (password : Option Bytes)
      → has_zero host ≡ true
      → connect lib host port password pk s ≡ panic unwrap_err
  unfolding connect new_cstring
  connect_interior_zero password h = rw h

  -- With a password and a host name without a zero byte, an attempt is started exactly if the
  -- library, called with a pointer to freed memory and the length of the password, starts one: the
  -- copy of the password lives only in the arm of the `match` that takes its address.
  pub connect_password_dangling :
      (password : Bytes)
      → has_zero host ≡ false
      → (connect lib host port (some password) pk s ≡ ok (ConnectionAttemptResult.started, t))
        ↔ (lib.connect (connect_args host port dangling (length password) pk) s ≡ (0, t))
  unfolding connect new_cstring rak_peer_connect from_connection_attempt_result
  connect_password_dangling password h = rw (h, password_argument-some password) (ground arith)

  -- Without a password the library gets a null pointer and the length 0.
  pub connect_no_password :
      has_zero host ≡ false
      → (connect lib host port none pk s ≡ ok (ConnectionAttemptResult.started, t))
        ↔ (lib.connect (connect_args host port null 0 pk) s ≡ (0, t))
  unfolding connect new_cstring rak_peer_connect from_connection_attempt_result
  connect_no_password h = rw (h, password_argument-none) (ground arith)

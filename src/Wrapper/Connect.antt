-- ===== src/Wrapper/Connect.antt =====
-- `RakPeer::Connect` of src/rakpeer.rs, with the public key and the lifetime of the password's copy.
pub mod Allocation
pub mod Keys
pub mod Password
use raknet_sys.Prelude.{ℕ, Option, none, some, List, Bytes, length}
use raknet_sys.Prelude.Int.{ℤ, as_i32}
use raknet_sys.Prelude.State.{M, ◌>>=◌, lift}
use raknet_sys.Native.Pointer.{Ptr, null, to}
use raknet_sys.Native.Enums
use raknet_sys.Native.Structs
use raknet_sys.Peer.Interface.{RakNet}
use raknet_sys.Peer.Shim.{rak_peer_connect}
use raknet_sys.Wrapper.Codes.{ConnectionAttemptResult, from_connection_attempt_result}
use raknet_sys.Wrapper.Text.{new_cstring}
use Allocation.{Heap, empty_heap, alloc, free, pointer}

pub data PublicKey : Type 0 where
  insecure_connection accept_any_public_key : PublicKey
  use_known_public_key : Bytes → PublicKey
  -- the remote public key, and this side's public and private key
  two_way_authentication : Bytes → Bytes → Bytes → PublicKey

-- `Into<ffi::PublicKey> for &PublicKey`; the pointers are to the arrays of the borrowed value.
unfoldable pub into_public_key : PublicKey → Structs.PublicKey
into_public_key insecure_connection = record {
  public_key_mode = Enums.public_key_mode_code Enums.pkm_insecure_connection;
  remote_server_public_key = null;
  my_public_key = null;
  my_private_key = null;
}
into_public_key accept_any_public_key = record {
  public_key_mode = Enums.public_key_mode_code Enums.pkm_accept_any_public_key;
  remote_server_public_key = null;
  my_public_key = null;
  my_private_key = null;
}
into_public_key (use_known_public_key remote_public_key) = record {
  public_key_mode = Enums.public_key_mode_code Enums.pkm_use_known_public_key;
  remote_server_public_key = to remote_public_key;
  my_public_key = null;
  my_private_key = null;
}
into_public_key (two_way_authentication remote_public_key my_public_key my_private_key) = record {
  public_key_mode = Enums.public_key_mode_code Enums.pkm_use_two_way_authentication;
  remote_server_public_key = to remote_public_key;
  my_public_key = to my_public_key;
  my_private_key = to my_private_key;
}

-- `password.map(|x| x.as_bytes().to_vec())`
unfoldable pub copy_password : Option Bytes → Heap → Option (ℕ × Bytes) × Heap
copy_password none h = (none, h)
copy_password (some s) h = let (v, h') = alloc s h in (some (v, s), h')

-- `match password { Some(s) => (s.as_ptr(), s.len()), None => (null(), 0) }`: the arm moves the copy
-- into `s`, so the copy is freed where the arm ends.
unfoldable pub password_pointer : Option (ℕ × Bytes) → Heap → (Option ℕ × ℕ) × Heap
password_pointer none h = ((none, 0), h)
password_pointer (some (v, s)) h = ((some v, length s), free v h)

-- The password's pointer and length as the C function gets them.
unfoldable pub password_argument : Option Bytes → Ptr Bytes × ℕ
unfolding copy_password password_pointer
password_argument password =
    let (copied, h) = copy_password password empty_heap in
    let (data_and_length, h') = password_pointer copied h in
    (pointer h' data_and_length.0, data_and_length.1)

unfoldable pub connect :
    (lib : RakNet) → Bytes → ℕ → Option Bytes → PublicKey → M lib.Peer ConnectionAttemptResult
connect lib host remote_port password pk = do
  host_cstr ← lift (new_cstring host)
  result ← rak_peer_connect lib (record {
    host = host_cstr;
    remote_port = remote_port;
    password = (password_argument password).0;
    password_length = as_i32 (password_argument password).1;
    public_key = to (into_public_key pk);
    connection_socket_index = 0;
    send_connection_attempt_count = 12;
    time_between_send_connection_attempts_ms = 500;
    timeout_time = 0;
  })
  lift (from_connection_attempt_result result)

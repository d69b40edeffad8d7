-- ===== src/Wrapper/Startup.antt =====
-- `RakPeer::Startup` of src/rakpeer.rs.
pub mod Behaviour
use raknet_sys.Prelude.{ℕ, ◌%◌, ◌^◌, List, length}
use raknet_sys.Prelude.Int.{negsuc}
use raknet_sys.Prelude.Outcome.{traverse}
use raknet_sys.Prelude.State.{M, ◌>>=◌, lift}
use raknet_sys.Native.Pointer.{to}
use raknet_sys.Native.Platform.{Platform}
use raknet_sys.Peer.Interface.{RakNet}
use raknet_sys.Peer.Shim.{rak_peer_startup}
use raknet_sys.Wrapper.Codes.{StartupResult, from_startup_result}
use raknet_sys.Wrapper.Socket.{SocketDescriptor, into_socket_descriptor}

unfoldable pub startup :
    (lib : RakNet) → Platform → ℕ → List SocketDescriptor → M lib.Peer StartupResult
startup lib platform max_connections socket_descriptors = do
  inner ← lift (traverse (into_socket_descriptor platform) socket_descriptors)
  result ← rak_peer_startup lib max_connections (to inner) (length inner % 2 ^ 32) (negsuc 99998)
  lift (from_startup_result result)

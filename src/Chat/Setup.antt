-- ===== src/Chat/Setup.antt =====
-- How the chat programs of examples start, before their threads: examples/chat_server.rs and
-- examples/chat_client.rs from the beginning of `main`.
pub mod Same
use raknet_sys.Prelude.{
  ℕ, Bool, true, false, Option, none, some, List, [], ◌∷◌, Bytes, if◌then◌else◌,
}
use raknet_sys.Prelude.State.{M, pure, ◌>>=◌, ◌>>◌}
use raknet_sys.Prelude.Texts.{codes}
use raknet_sys.Native.Platform.{Platform}
use raknet_sys.Peer.Interface.{RakNet}
use raknet_sys.Wrapper.Address.{SystemAddress, unassigned_system_address}
use raknet_sys.Wrapper.Address.Text.{guid_to_string}
use raknet_sys.Wrapper.Codes.{StartupResult, ConnectionAttemptResult}
use raknet_sys.Wrapper.Duration.{Duration}
use raknet_sys.Wrapper.Socket.{SocketDescriptor, ipv4}
use raknet_sys.Wrapper.Startup.{startup}
use raknet_sys.Wrapper.Connect.{accept_any_public_key, connect}
use raknet_sys.Wrapper.Methods.{
  set_occasional_ping, set_unreliable_timeout, set_timeout_time, initialize_security,
  set_maximum_incoming_connections, allow_connection_response_ip_migration, get_internal_addresses,
  get_local_ip_addresses, get_guid_from_system_address,
}
use raknet_sys.Proxy.Connection.{is_started, is_attempt_started}

-- What is printed where `main` returns early.
pub data Failure : Type 0 where
  failed_to_generate_server_key failed_to_initialize_security : Failure
  could_not_start : StartupResult → Failure
  could_not_start_connection_attempt : ConnectionAttemptResult → Failure

abbrev pub socket_descriptor : ℕ → SocketDescriptor
socket_descriptor port = record { port = port; host_address = []; socket_family = ipv4 }

module _ (lib : RakNet) (platform : Platform) where
  open lib use {Peer}

  abbrev allow_connections : M Peer (Option Failure)
  allow_connections = do set_maximum_incoming_connections lib 8; pure none

  abbrev start_secured : M Peer (Option Failure)
  start_secured = do
    result ← startup lib platform 8 (socket_descriptor 4564 ∷ [])
    if is_started result then allow_connections else pure (some (could_not_start result))

  abbrev with_keys : Option (Bytes × Bytes) → M Peer (Option Failure)
  with_keys none = pure (some failed_to_generate_server_key)
  with_keys (some (public_key, private_key)) = do
    secured ← initialize_security lib public_key private_key false
    if secured then start_secured else pure (some failed_to_initialize_security)

  -- The server, with the keys that `GenerateServerKey` gave: the failure, if there is one.
  unfoldable pub start_server : Option (Bytes × Bytes) → M Peer (Option Failure)
  start_server keys = do
    set_occasional_ping lib true
    set_unreliable_timeout lib (record { seconds = 1; nanoseconds = 0 })
    set_timeout_time lib platform (record { seconds = 30; nanoseconds = 0 })
        unassigned_system_address
    with_keys keys

  abbrev connect_client : M Peer (Option Failure)
  connect_client = do
    car ← connect lib (codes "127.0.0.1") 4564 none accept_any_public_key
    pure (if is_attempt_started car then none else some (could_not_start_connection_attempt car))

  -- The client.
  unfoldable pub start_client : M Peer (Option Failure)
  start_client = do
    allow_connection_response_ip_migration lib false
    set_occasional_ping lib true
    result ← startup lib platform 8 (socket_descriptor 0 ∷ [])
    if is_started result then connect_client else pure (some (could_not_start result))

  -- The lines about the program itself: its addresses, in the order in which they are numbered, and
  -- its GUID.
  unfoldable pub introduce_server : M Peer (List SystemAddress × Bytes)
  introduce_server = do
    addresses ← get_internal_addresses lib platform
    guid ← get_guid_from_system_address lib platform unassigned_system_address
    pure (addresses, guid_to_string guid)

  unfoldable pub introduce_client : M Peer (List Bytes × Bytes)
  introduce_client = do
    addresses ← get_local_ip_addresses lib
    guid ← get_guid_from_system_address lib platform unassigned_system_address
    pure (addresses, guid_to_string guid)

-- ===== src/Proxy/Server.antt =====
-- `RakNetProxy` of examples/proxy.rs: the server, and a connection for each of its clients.
pub mod Routing
pub mod Identity
pub mod Delivery
pub mod Round
pub mod Parts
pub mod Unconnected
pub mod Ledger
pub mod Life
pub mod Progress
use raknet_sys.Prelude.{
  ℕ, suc, ◌+◌, Bool, true, false, ◌⊎◌, inl, inr, Option, none, some, List, [], ◌∷◌, Bytes, ◌==◌,
  if◌then◌else◌,
}
use raknet_sys.Prelude.Outcome.{
  Outcome, ok, panic, assertion, unwrap_none, unwrap_err, map_ok, ◌>>=◌ as ◌and_then◌,
}
use raknet_sys.Prelude.State.{M, pure, ◌>>=◌, ◌>>◌, lift, continue}
use raknet_sys.Native.Platform.{Platform}
use raknet_sys.Peer.Interface.{RakNet}
use raknet_sys.MessageId.{id_new_incoming_connection, message_id_byte}
use raknet_sys.Wrapper.Address.{
  SystemAddress, unassigned_system_address, RakNetGuid, guid_eq, is_unassigned_guid, address,
}
use raknet_sys.Wrapper.Duration.{Duration}
use raknet_sys.Wrapper.Socket.{SocketDescriptor, ipv4}
use raknet_sys.Wrapper.Startup.{startup}
use raknet_sys.Wrapper.Sender.{set_data, set_system_identifier, send}
use raknet_sys.Wrapper.Sender
use raknet_sys.Wrapper.Packet.{Packet}
use raknet_sys.Wrapper.Receive.{receive_all}
use raknet_sys.Wrapper.Methods.{
  set_occasional_ping, set_unreliable_timeout, set_timeout_time, initialize_security,
  set_maximum_incoming_connections,
}
use raknet_sys.Wrapper.Methods
use raknet_sys.Proxy.Connection.{
  ProxyConnection, ConnectionError, is_started, first_byte, unwrap_sent, forward_packet,
}
use raknet_sys.Proxy.Connection

-- The hash map, as the list of its entries in the order in which it is walked.
abbrev pub Connections : RakNet → Type 0
Connections lib = List (RakNetGuid × ProxyConnection lib)

pub record RakNetProxy (lib : RakNet) : Type 0 where
  pub server : lib.Peer
  pub connections : Connections lib
  -- how many peers the program has made
  pub peers : ℕ

pub data ProxyError : Type 0 where
  failed_to_generate_server_key failed_to_initialize_security could_not_start : ProxyError

abbrev pub server_descriptor : SocketDescriptor
server_descriptor = record { port = 4564; host_address = []; socket_family = ipv4 }

module _ {lib : RakNet} where
  -- `HashMap::get_mut`
  unfoldable pub get : RakNetGuid → Connections lib → Option (ProxyConnection lib)
  get k [] = none
  get k ((j, c) ∷ m) = if guid_eq j k then some c else get k m

  -- `HashMap::insert`; what the map held at a new key's place is dropped.
  unfoldable pub insert : RakNetGuid → ProxyConnection lib → Connections lib → Connections lib
  insert k c [] = (k, c) ∷ []
  insert k c ((j, d) ∷ m) = if guid_eq j k then (j, c) ∷ m else (j, d) ∷ insert k c m

module _ (lib : RakNet) (platform : Platform) where
  abbrev pub allow_connections : M lib.Peer (Option ProxyError)
  allow_connections = do set_maximum_incoming_connections lib 8; pure none

  abbrev pub start_secured : M lib.Peer (Option ProxyError)
  start_secured = do
    result ← startup lib platform 8 (server_descriptor ∷ [])
    if is_started result then allow_connections else pure (some could_not_start)

  abbrev pub with_keys : Option (Bytes × Bytes) → M lib.Peer (Option ProxyError)
  with_keys none = pure (some failed_to_generate_server_key)
  with_keys (some (public_key, private_key)) = do
    secured ← initialize_security lib public_key private_key false
    if secured then start_secured else pure (some failed_to_initialize_security)

  -- The part of `RakNetProxy::new` that works on the server, with the keys that
  -- `ClientEasyHandshake::GenerateServerKey` gave.
  unfoldable pub start_server : Option (Bytes × Bytes) → M lib.Peer (Option ProxyError)
  start_server keys = do
    set_occasional_ping lib true
    set_unreliable_timeout lib (record { seconds = 1; nanoseconds = 0 })
    set_timeout_time lib platform (record { seconds = 30; nanoseconds = 0 })
        unassigned_system_address
    with_keys keys

  abbrev started : Option ProxyError × lib.Peer → ProxyError ⊎ RakNetProxy lib
  started (some e, server) = inl e
  started (none, server) = inr (record { server = server; connections = []; peers = 1 })

  -- `RakNetProxy::new`: the server is the first peer of the program.
  unfoldable pub new : Option (Bytes × Bytes) → Outcome (ProxyError ⊎ RakNetProxy lib)
  new keys = map_ok started (start_server keys (Methods.new lib 0))

  -- `Result::unwrap` on what `ProxyConnection::new` returns
  abbrev unwrap_connection : ConnectionError ⊎ ProxyConnection lib → Outcome (ProxyConnection lib)
  unwrap_connection (inl e) = panic unwrap_err
  unwrap_connection (inr c) = ok c

  -- The branch of a new connection.
  abbrev pub add_connection : Packet → RakNetProxy lib → Outcome (RakNetProxy lib)
  add_connection packet self =
      Connection.new lib platform self.peers packet.guid packet.system_address and_then λ result.
      map_ok
        (λ c. record self {
          connections = insert packet.guid c self.connections;
          peers = self.peers + 1;
        })
        (unwrap_connection result)

  abbrev update_connection :
      RakNetGuid → RakNetProxy lib → Unit {0} × ProxyConnection lib → RakNetProxy lib
  update_connection guid self (_, c) = record self { connections = insert guid c self.connections }

  abbrev pub route : Packet → RakNetProxy lib → Outcome (RakNetProxy lib)
  route packet self = elim (get packet.guid self.connections) [
    | none ↦ panic unwrap_none
    | some connection ↦
        map_ok (update_connection packet.guid self) (forward_packet lib platform packet connection)
  ]

  -- `RakNetProxy::handle_packet`
  unfoldable pub handle_packet : Packet → RakNetProxy lib → Outcome (RakNetProxy lib)
  handle_packet packet self =
      if is_unassigned_guid packet.guid
      then panic assertion
      else (first_byte packet.bytes and_then λ packet_id.
          if packet_id == message_id_byte id_new_incoming_connection
          then add_connection packet self
          else route packet self)

  -- The first loop of `serve`.
  unfoldable pub handle_packets : List Packet → RakNetProxy lib → Outcome (RakNetProxy lib)
  handle_packets [] self = ok self
  handle_packets (packet ∷ packets) self =
      handle_packet packet self and_then λ self'. handle_packets packets self'

  -- The messages of one connection, sent by the server to the address of that connection.
  unfoldable pub send_to : SystemAddress → List Bytes → M lib.Peer (Unit {0})
  send_to system_address [] = pure tt
  send_to system_address (message ∷ messages) = do
    result ←
        send lib platform
          (set_system_identifier (address system_address) (set_data message Sender.new))
    lift (unwrap_sent result)
    send_to system_address messages

  -- The second loop of `serve`: `connections.values_mut()`.
  unfoldable pub serve_connections : ℕ → Connections lib → M lib.Peer (Connections lib)
  serve_connections fuel [] = pure []
  serve_connections fuel ((k, c) ∷ m) = do
    served ← lift (Connection.serve lib platform fuel c)
    send_to served.1.system_address served.0
    rest ← serve_connections fuel m
    pure ((k, served.1) ∷ rest)

  abbrev with_server : RakNetProxy lib → List Packet × lib.Peer → List Packet × RakNetProxy lib
  with_server self (packets, server) = (packets, record self { server = server })

  abbrev with_served : RakNetProxy lib → Connections lib × lib.Peer → RakNetProxy lib
  with_served self (connections, server) = record self {
    connections = connections;
    server = server;
  }

  -- `RakNetProxy::serve`, with the fuel of each `ReceiveAll`.
  unfoldable pub serve : ℕ → RakNetProxy lib → Outcome (RakNetProxy lib)
  serve fuel self =
      map_ok (with_server self) (receive_all lib platform fuel self.server) and_then λ received.
      handle_packets received.0 received.1 and_then λ handled.
      map_ok (with_served handled) (serve_connections fuel handled.connections handled.server)

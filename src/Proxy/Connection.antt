-- ===== src/Proxy/Connection.antt =====
-- `ProxyConnection` of examples/proxy.rs: a client of its own, and the messages that wait until the
-- client is connected.
pub mod Order
pub mod Fifo
pub mod Relay
pub mod Kept
pub mod Fresh
pub mod Returns
pub mod Queue
pub mod Panics
use raknet_sys.Prelude.{
  ℕ, Bool, true, false, ◌⊎◌, inl, inr, Option, none, some, List, [], ◌∷◌, ◌++◌, Bytes, leb,
  if◌then◌else◌,
}
use raknet_sys.Prelude.Outcome.{
  Outcome, ok, panic, out_of_range, unwrap_err, map_ok, ◌>>=◌ as ◌and_then◌,
}
use raknet_sys.Prelude.State.{M, pure, ◌>>=◌, ◌>>◌, lift, continue}
use raknet_sys.Prelude.Texts.{codes}
use raknet_sys.Native.Platform.{Platform}
use raknet_sys.Peer.Interface.{RakNet}
use raknet_sys.MessageId.{id_advertise_system, message_id_byte}
use raknet_sys.Wrapper.Codes.{StartupResult, ConnectionAttemptResult}
use raknet_sys.Wrapper.Address.{SystemAddress, RakNetGuid, is_unassigned_address}
use raknet_sys.Wrapper.Socket.{SocketDescriptor, ipv4}
use raknet_sys.Wrapper.Startup.{startup}
use raknet_sys.Wrapper.Connect.{accept_any_public_key, connect}
use raknet_sys.Wrapper.Sender.{set_data, set_broadcast, send}
use raknet_sys.Wrapper.Sender
use raknet_sys.Wrapper.Packet.{Packet}
use raknet_sys.Wrapper.Receive.{receive_all}
use raknet_sys.Wrapper.Methods.{
  allow_connection_response_ip_migration, set_occasional_ping, get_system_address_from_index,
}
use raknet_sys.Wrapper.Methods

pub record ProxyConnection (lib : RakNet) : Type 0 where
  pub client : lib.Peer
  pub messages : List Bytes
  pub guid : RakNetGuid
  pub system_address : SystemAddress

pub data ConnectionError : Type 0 where
  could_not_start could_not_start_connection_attempt : ConnectionError

-- `matches!(result, StartupResult::Started)`
abbrev pub is_started : StartupResult → Bool
is_started StartupResult.started = true
is_started _ = false

abbrev pub is_attempt_started : ConnectionAttemptResult → Bool
is_attempt_started ConnectionAttemptResult.started = true
is_attempt_started _ = false

-- `packet.data[0]`
abbrev pub first_byte : Bytes → Outcome ℕ
first_byte [] = panic out_of_range
first_byte (b ∷ bs) = ok b

-- `Result::unwrap` on what `send` returns
abbrev pub unwrap_sent : Option ℕ → Outcome (Unit {0})
unwrap_sent none = panic unwrap_err
unwrap_sent (some receipt) = ok tt

abbrev pub client_descriptor : SocketDescriptor
client_descriptor = record { port = 0; host_address = []; socket_family = ipv4 }

module _ {lib : RakNet} {A : Type 0} where
  abbrev pub with_client : ProxyConnection lib → A × lib.Peer → A × ProxyConnection lib
  with_client self (a, client) = (a, record self { client = client })

  -- A call on the client of the connection.
  abbrev pub on_client : M lib.Peer A → M (ProxyConnection lib) A
  on_client m self = map_ok (with_client self) (m self.client)

module _ (lib : RakNet) (platform : Platform) where
  abbrev pub connect_client : M lib.Peer (Option ConnectionError)
  connect_client = do
    car ← connect lib (codes "127.0.0.1") 4564 none accept_any_public_key
    pure (if is_attempt_started car then none else some could_not_start_connection_attempt)

  -- The part of `ProxyConnection::new` that works on the client: the error, if there is one.
  unfoldable pub start_client : M lib.Peer (Option ConnectionError)
  start_client = do
    allow_connection_response_ip_migration lib false
    set_occasional_ping lib true
    result ← startup lib platform 8 (client_descriptor ∷ [])
    if is_started result then connect_client else pure (some could_not_start)

  abbrev pub started :
      RakNetGuid
      → SystemAddress
      → Option ConnectionError × lib.Peer
      → ConnectionError ⊎ ProxyConnection lib
  started guid system_address (some e, client) = inl e
  started guid system_address (none, client) =
      inr (record { client = client; messages = []; guid = guid; system_address = system_address })

  -- `ProxyConnection::new`, with the n-th peer of the program as its client.
  unfoldable pub new :
      ℕ → RakNetGuid → SystemAddress → Outcome (ConnectionError ⊎ ProxyConnection lib)
  new n guid system_address =
      map_ok (started guid system_address) (start_client (Methods.new lib n))

  -- `send_message`
  unfoldable pub send_message : Bytes → M (ProxyConnection lib) (Unit {0})
  send_message bytes = do
    result ← on_client (send lib platform (set_broadcast (set_data bytes Sender.new)))
    lift (unwrap_sent result)

  -- The loop of `forward_packet` that sends the queued messages; each round takes the first.
  unfoldable pub send_queued : List Bytes → M (ProxyConnection lib) (Unit {0})
  send_queued [] self = ok (tt, record self { messages = [] })
  send_queued (queued_message ∷ rest) self =
      continue (send_message queued_message (record self { messages = rest }))
        (λ _. send_queued rest)

  unfoldable pub forward_packet : Packet → M (ProxyConnection lib) (Unit {0})
  forward_packet packet self =
      continue (on_client (get_system_address_from_index lib platform 0) self)
        (λ connected_system_address c.
          if is_unassigned_address connected_system_address
          then ok (tt, record c { messages = c.messages ++ packet.bytes ∷ [] })
          else continue (send_queued c.messages c) (λ _. send_message packet.bytes))

-- `ProxyConnection::handle_packet`
unfoldable pub handle_packet : Packet → Outcome (Option Bytes)
handle_packet packet =
    map_ok
      (λ packet_id.
        if leb (message_id_byte id_advertise_system) packet_id then some packet.bytes else none)
      (first_byte packet.bytes)

abbrev cons_some {ℓ} : {A : Type ℓ} → Option A → List A → List A
cons_some none xs = xs
cons_some (some x) xs = x ∷ xs

-- `into_iter().filter_map(|packet| self.handle_packet(packet)).collect()`
unfoldable pub handle_packets : List Packet → Outcome (List Bytes)
handle_packets [] = ok []
handle_packets (packet ∷ packets) =
    handle_packet packet and_then λ message. map_ok (cons_some message) (handle_packets packets)

-- `ProxyConnection::serve`, with the fuel of `ReceiveAll`.
unfoldable pub serve : (lib : RakNet) → Platform → ℕ → M (ProxyConnection lib) (List Bytes)
serve lib platform fuel = do
  packets ← on_client (receive_all lib platform fuel)
  lift (handle_packets packets)

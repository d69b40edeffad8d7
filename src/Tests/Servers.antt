-- ===== src/Tests/Servers.antt =====
-- The proxy of examples/proxy.rs on the simulated library: a client comes, and its messages go on.
use raknet_sys.Prelude.{◌-◌, ◌^◌, ◌≡◌, ◌⊎◌, refl, inr, some, [], ◌∷◌, arith}
use raknet_sys.Prelude.Outcome.{ok, panic, unwrap_err}
use raknet_sys.Native.Structs
use raknet_sys.Wrapper.Address.{RakNetGuid, address, into_address_or_guid}
use raknet_sys.Wrapper.Sender.Send.{broadcast_args}
use raknet_sys.Wrapper.Sender.Contract.{Refuses}
use raknet_sys.Proxy.Connection.{ProxyConnection}
use raknet_sys.Proxy.Server.{RakNetProxy, new, get, handle_packet, serve, send_to}
use raknet_sys.Proxy.Server.Routing.{handle_packet_isolated}
use raknet_sys.Proxy.Server.Identity.{Keyed, made, round, network, Reachable-Keyed}
use raknet_sys.Proxy.Server.{Connections}
use raknet_sys.Proxy.Server.Round.{AllReady, deliveries, Drained, serve_connections_lem}
use raknet_sys.Tests.Simulation.{
  linux, native_local, Sim, idle, connected, simulated, queueing, sending,
}
use raknet_sys.Tests.Messages.{two_waiting, two_packets, local, packet, native_packet}
use raknet_sys.MessageId.{message_id_byte}
use raknet_sys.Native.Platform.{swap_bytes16, swap_bytes32, to_be16, to_be32}
use raknet_sys.Peer.Shim.{
  rak_peer_allow_connection_response_ip_migration, rak_peer_connect, rak_peer_deallocate_packet,
  rak_peer_get_system_address_from_index, rak_peer_initialize_security, rak_peer_new,
  rak_peer_receive, rak_peer_send_data, rak_peer_set_maximum_incoming_connections,
  rak_peer_set_occasional_ping, rak_peer_set_timeout_time, rak_peer_set_unreliable_timeout,
  rak_peer_startup,
}
use raknet_sys.Prelude.Outcome.{traverse}
use raknet_sys.Proxy.Connection
use raknet_sys.Proxy.Connection.{forward_packet, send_message, send_queued, start_client}
use raknet_sys.Proxy.Server.{handle_packets, insert, serve_connections, start_server}
use raknet_sys.Wrapper.Address.{
  from_bits, from_guid, from_system_address, from_system_index, guid_eq, into_guid,
  into_system_address, into_system_index, is_unassigned_address, is_unassigned_guid,
  system_address_eq, to_bits, unassigned_address_or_guid, unassigned_guid,
  unassigned_system_address,
}
use raknet_sys.Wrapper.Codes.{from_connection_attempt_result, from_startup_result}
use raknet_sys.Wrapper.Connect.{
  connect, copy_password, into_public_key, password_argument, password_pointer,
}
use raknet_sys.Wrapper.Methods
use raknet_sys.Wrapper.Methods.{
  allow_connection_response_ip_migration, get_system_address_from_index, initialize_security,
  set_maximum_incoming_connections, set_occasional_ping, set_timeout_time, set_unreliable_timeout,
}
use raknet_sys.Wrapper.Packet.{from_packet, slice_from_raw_parts}
use raknet_sys.Wrapper.Receive.{receive, receive_all, receive_all_from}
use raknet_sys.Wrapper.Sender.{send, set_broadcast, set_data, set_system_identifier}
use raknet_sys.Wrapper.Socket.{into_socket_descriptor, string_to_char_array}
use raknet_sys.Wrapper.Startup.{startup}
use raknet_sys.Wrapper.Text.{new_cstring}

abbrev pub one : RakNetGuid
one = record { g = 5; system_index = some 0 }

abbrev two : RakNetGuid
two = record { g = 6; system_index = some 1 }

abbrev connection : RakNetGuid → ProxyConnection simulated
connection guid = record { client = idle; messages = []; guid = guid; system_address = local }

abbrev pub started_proxy : RakNetProxy simulated
started_proxy = record { server = idle; connections = []; peers = 1 }

-- The number of a new connection, and then a message of the client.
abbrev pub client_comes : Sim
client_comes = record idle { queue = native_packet (19 ∷ []) ∷ native_packet (134 ∷ 1 ∷ []) ∷ [] }

abbrev pub serving : RakNetProxy simulated
serving = record {
  server = idle;
  connections =
      (
        one,
        record (connection one) {
          client = record connected { log = broadcast_args linux (134 ∷ 1 ∷ []) ∷ [] };
        },
      )
      ∷ [];
  peers = 2;
}

pub new_starts : new simulated linux (some (1 ∷ [], 2 ∷ [])) ≡ ok (inr started_proxy)
unfolding new start_server set_occasional_ping rak_peer_set_occasional_ping set_unreliable_timeout
    rak_peer_set_unreliable_timeout set_timeout_time into_system_address unassigned_system_address
    rak_peer_set_timeout_time initialize_security rak_peer_initialize_security startup traverse
    into_socket_descriptor string_to_char_array rak_peer_startup from_startup_result rak_peer_new
    rak_peer_set_maximum_incoming_connections Methods.new set_maximum_incoming_connections
new_starts = refl

pub round_serves :
    serve simulated linux 3 (record started_proxy { server = client_comes }) ≡ ok serving
unfolding serve receive_all receive rak_peer_receive from_packet from_system_address
    slice_from_raw_parts rak_peer_deallocate_packet handle_packets handle_packet is_unassigned_guid
    from_guid message_id_byte Connection.new start_client allow_connection_response_ip_migration
    rak_peer_allow_connection_response_ip_migration set_occasional_ping swap_bytes16 swap_bytes32
    to_be16 to_be32 rak_peer_connect rak_peer_get_system_address_from_index rak_peer_new
    rak_peer_send_data rak_peer_set_occasional_ping rak_peer_startup traverse forward_packet
    Connection.handle_packet Connection.handle_packets send_message send_queued Connection.serve get
    insert send_to serve_connections from_bits from_system_index guid_eq into_address_or_guid
    into_guid into_system_address into_system_index is_unassigned_address system_address_eq to_bits
    unassigned_address_or_guid unassigned_guid unassigned_system_address
    from_connection_attempt_result from_startup_result connect copy_password into_public_key
    password_argument password_pointer get_system_address_from_index Methods.new receive_all_from
    send set_broadcast set_data set_system_identifier into_socket_descriptor string_to_char_array
    startup new_cstring
round_serves = refl

abbrev before_message : RakNetProxy simulated
before_message = record started_proxy {
  connections = (one, connection one) ∷ (two, connection two) ∷ [];
}

abbrev after_message : RakNetProxy simulated
after_message = record started_proxy {
  connections =
      (one, record (connection one) { messages = (134 ∷ 1 ∷ []) ∷ [] })
      ∷ (two, connection two)
      ∷ [];
}

client_handled :
    handle_packet simulated linux (packet (134 ∷ 1 ∷ [])) before_message ≡ ok after_message
unfolding handle_packet is_unassigned_guid message_id_byte get forward_packet
    get_system_address_from_index rak_peer_get_system_address_from_index from_system_address
    is_unassigned_address from_bits to_be32 to_be16 from_system_index insert
client_handled = refl

Reachable-Keyed_example : Keyed serving.connections
Reachable-Keyed_example = Reachable-Keyed simulated linux serving (
    round 3 serving
      (network client_comes (λ guid client. client)
        (made (some (1 ∷ [], 2 ∷ [])) started_proxy new_starts))
      round_serves)

handle_packet_isolated_example :
    (get two after_message.connections ≡ get two before_message.connections) × (idle ≡ idle)
handle_packet_isolated_example =
    handle_packet_isolated simulated linux (packet (134 ∷ 1 ∷ [])) before_message after_message two
      client_handled (ground arith)

abbrev native_identity : Structs.AddressOrGuid
native_identity = record {
  rak_net_guid = record { g = 2 ^ 64 - 1; system_index = 0xFFFF };
  system_address = native_local;
}

local_identity : into_address_or_guid linux (address local) ≡ ok native_identity
unfolding into_address_or_guid into_system_address into_guid into_system_index unassigned_guid
    to_bits to_be16 to_be32 swap_bytes16 swap_bytes32
local_identity = refl

-- The first client has received a message and a notification, the second nothing.
abbrev received : Connections simulated
received = (one, record (connection one) { client = two_waiting }) ∷ (two, connection two) ∷ []

no_packets : traverse (from_packet linux) [] ≡ ok []
unfolding traverse
no_packets = refl

received-AllReady : AllReady simulated linux queueing sending 3 received
received-AllReady = (
  record {
    packets = packet (134 ∷ []) ∷ packet (19 ∷ []) ∷ [];
    converted = two_packets;
    not_empty = ground arith;
    enough = omega arith;
    identity = native_identity;
    identified = local_identity;
  },
  (
    record {
      packets = [];
      converted = no_packets;
      not_empty = tt;
      enough = omega arith;
      identity = native_identity;
      identified = local_identity;
    },
    tt,
  ),
)

serve_connections_lem_example :
    ((serve_connections simulated linux 3 received idle ≡ panic unwrap_err) × Refuses simulated)
    ⊎ ((n : Connections simulated) × (t : Sim) × (serve_connections simulated linux 3 received idle
          ≡ ok (n, t))
        × (t.log ≡ deliveries simulated linux queueing sending 3 received received-AllReady)
        × Drained simulated linux queueing sending 3 n)
serve_connections_lem_example =
    serve_connections_lem simulated linux queueing sending 3 received idle received-AllReady

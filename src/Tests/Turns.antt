-- ===== src/Tests/Turns.antt =====
-- The life of a proxy of examples/proxy.rs on the simulated library, and on one that works.
use raknet_sys.Prelude.{
  ◌↔◌, Bytes, true, false, ◌≡◌, refl, none, some, [], ◌∷◌, ◌++◌, ◌||◌, ◌⊎◌, arith,
}
use raknet_sys.Prelude.Outcome.{ok, panic, unwrap_none, out_of_range, traverse}
use raknet_sys.Native.Platform.{to_be16, to_be32, swap_bytes16, swap_bytes32}
use raknet_sys.Peer.Interface.{RakNet}
use raknet_sys.Wrapper.Address.{
  guid_eq, is_unassigned_guid, from_bits, from_guid, from_system_address, from_system_index,
}
use raknet_sys.MessageId.{message_id_byte}
use raknet_sys.Wrapper.Packet.{from_packet, slice_from_raw_parts}
use raknet_sys.Wrapper.Receive.Contract.{Queueing}
use raknet_sys.Wrapper.Sender.Contract.{Sending}
use raknet_sys.Proxy.Connection.Fresh.{Starting}
use raknet_sys.Proxy.Connection.Queue.{Undisturbed}
use raknet_sys.Proxy.Connection.Returns.{Faulty}
use raknet_sys.Proxy.Server.{RakNetProxy, handle_packet}
use raknet_sys.Proxy.Server.Unconnected.{IsUnconnected, handle_packet_panics}
use raknet_sys.Proxy.Server.Ledger.{notes, ledger}
use raknet_sys.Proxy.Server.Life.{Life, made, turn, network, Life-ledger}
use raknet_sys.Proxy.Server.Progress.{has_connection, IsProper}
use raknet_sys.Proxy.Server.Progress.Resting.{Resting, Acceptable}
use raknet_sys.Proxy.Server.Progress.Forever.{
  Arrival, Network, rounds, Orderly, received, rounds_end,
}
use raknet_sys.Proxy.Server.{new, start_server}
use raknet_sys.Peer.Shim.{
  rak_peer_initialize_security, rak_peer_new, rak_peer_set_maximum_incoming_connections,
  rak_peer_set_occasional_ping, rak_peer_set_timeout_time, rak_peer_set_unreliable_timeout,
  rak_peer_startup,
}
use raknet_sys.Wrapper.Methods
use raknet_sys.Wrapper.Methods.{
  initialize_security, set_maximum_incoming_connections, set_occasional_ping, set_timeout_time,
  set_unreliable_timeout,
}
use raknet_sys.Wrapper.Codes.{from_startup_result}
use raknet_sys.Wrapper.Socket.{into_socket_descriptor, string_to_char_array}
use raknet_sys.Wrapper.Startup.{startup}
use raknet_sys.Wrapper.Address.{RakNetGuid, into_system_address, unassigned_system_address}
use raknet_sys.Prelude.{List, inr}
use raknet_sys.Tests.Simulation.{linux, idle, simulated, queueing, sending, starts_silent}
use raknet_sys.Tests.Messages.{packet, native_packet}
use raknet_sys.Tests.Servers.{one, started_proxy, client_comes, serving, new_starts, round_serves}

two_from_client :
    traverse (from_packet linux) client_comes.queue
    ≡ ok (packet (19 ∷ []) ∷ packet (134 ∷ 1 ∷ []) ∷ [])
unfolding traverse from_packet from_system_address from_guid from_system_index from_bits to_be16
    to_be32 swap_bytes16 swap_bytes32 slice_from_raw_parts
two_from_client = refl

one_turn :
    Life simulated linux queueing sending starts_silent
      (packet (19 ∷ []) ∷ packet (134 ∷ 1 ∷ []) ∷ [])
      serving
one_turn =
    turn 3 (packet (19 ∷ []) ∷ packet (134 ∷ 1 ∷ []) ∷ []) serving
      (network client_comes (λ guid client. client)
        (made (some (1 ∷ [], 2 ∷ [])) started_proxy new_starts) (λ guid s. refl))
      (omega arith) two_from_client round_serves

Life-ledger_example :
    ledger simulated linux sending starts_silent one serving.connections
    ≡ notes linux one (packet (19 ∷ []) ∷ packet (134 ∷ 1 ∷ []) ∷ []) none
Life-ledger_example =
    Life-ledger simulated linux queueing sending starts_silent
      (packet (19 ∷ []) ∷ packet (134 ∷ 1 ∷ []) ∷ []) serving one one_turn

-- The simulated library without its refusals and without IPv6.
abbrev working_library : RakNet
working_library = record simulated {
  send = λ args s. (7, record s { log = s.log ++ args ∷ [] });
  get_system_address_from_index = λ i s. (record s.server { sin_family = 2 }, s);
}

abbrev working_queue : Queueing working_library
working_queue = record {
  waiting = queueing.waiting;
  outstanding = queueing.outstanding;
  receive_empty = queueing.receive_empty;
  receive_next = queueing.receive_next;
  give_back = queueing.give_back;
}

abbrev working_sending : Sending working_library
working_sending = record {
  sent = sending.sent;
  send_accepted = λ args s h. refl;
  lookup_keeps = λ i s. refl;
  receive_keeps = sending.receive_keeps;
  deallocate_keeps = λ a s. refl;
}

abbrev starts_empty : Starting working_library working_queue.waiting
starts_empty = record {
  fresh = λ n. refl;
  startup_keeps = λ max sockets count priority s. refl;
  connect_keeps = λ args s. refl;
  occasional_ping_keeps = λ on s. refl;
  ip_migration_keeps = λ on s. refl;
}

abbrev undisturbed : Undisturbed working_library working_queue.waiting
undisturbed = record { send_keeps = λ args s. refl; lookup_keeps = λ i s. refl }

-- A client that is not known yet comes, and sends a message.
abbrev client_at : RakNetProxy working_library
client_at = record { server = client_comes; connections = []; peers = 1 }

first : IsProper (packet (19 ∷ []))
unfolding is_unassigned_guid
first = record {
  assigned = refl;
  not_empty = λ h. cc;
  ip = record { a = 127; b = 0; c = 0; d = 1 };
  port = 4564;
  over_ipv4 = refl;
}

second : IsProper (packet (134 ∷ 1 ∷ []))
unfolding is_unassigned_guid
second = record {
  assigned = refl;
  not_empty = λ h. cc;
  ip = record { a = 127; b = 0; c = 0; d = 1 };
  port = 4564;
  over_ipv4 = refl;
}

sender_known : (guid_eq one one || has_connection client_at one) ≡ true
unfolding guid_eq
sender_known = refl

-- A message of a client that has no connection.
handle_packet_panics_example :
    ((handle_packet simulated linux (packet (134 ∷ 1 ∷ [])) started_proxy ≡ panic unwrap_none) ↔ (
      (is_unassigned_guid one ≡ false)
      × IsUnconnected simulated linux (packet (134 ∷ 1 ∷ [])) started_proxy))
    × ((handle_packet simulated linux (packet (134 ∷ 1 ∷ [])) started_proxy ≡ panic out_of_range)
        ↔ ((is_unassigned_guid one ≡ false) × (◌≡◌ {A = Bytes} (134 ∷ 1 ∷ []) [])))
handle_packet_panics_example =
    handle_packet_panics simulated linux (packet (134 ∷ 1 ∷ [])) started_proxy

-- Two rounds: a client comes and sends a message, and then it sends another.
abbrev network_of_queues : Network working_library working_queue
network_of_queues = record {
  deliver = λ xs s. record s { queue = s.queue ++ xs };
  delivers = λ xs s. refl;
}

abbrev two_arrivals : List Arrival
two_arrivals =
    record {
      at_server = native_packet (19 ∷ []) ∷ native_packet (134 ∷ 1 ∷ []) ∷ [];
      at_client = λ k. [];
    }
    ∷ record { at_server = native_packet (134 ∷ 1 ∷ []) ∷ []; at_client = λ k. [] }
    ∷ []

abbrev made_proxy : RakNetProxy working_library
made_proxy = record { server = idle; connections = []; peers = 1 }

new_made : new working_library linux (some (1 ∷ [], 2 ∷ [])) ≡ ok (inr made_proxy)
unfolding new start_server set_occasional_ping rak_peer_set_occasional_ping set_unreliable_timeout
    rak_peer_set_unreliable_timeout set_timeout_time into_system_address unassigned_system_address
    rak_peer_set_timeout_time initialize_security rak_peer_initialize_security startup traverse
    into_socket_descriptor string_to_char_array rak_peer_startup from_startup_result rak_peer_new
    rak_peer_set_maximum_incoming_connections Methods.new set_maximum_incoming_connections
new_made = refl

one_from_client :
    traverse (from_packet linux) (native_packet (134 ∷ 1 ∷ []) ∷ [])
    ≡ ok (packet (134 ∷ 1 ∷ []) ∷ [])
unfolding traverse from_packet from_system_address from_guid from_system_index from_bits to_be16
    to_be32 swap_bytes16 swap_bytes32 slice_from_raw_parts
one_from_client = refl

nothing-Acceptable : Acceptable working_library linux working_queue working_sending 3 []
unfolding traverse
nothing-Acceptable = record { packets = []; converted = refl; not_empty = tt; enough = omega arith }

two-Orderly :
    Orderly working_library linux working_queue network_of_queues 3 working_sending
      (λ k. false)
      two_arrivals
unfolding message_id_byte guid_eq
two-Orderly = (
  packet (19 ∷ []) ∷ packet (134 ∷ 1 ∷ []) ∷ [],
  two_from_client,
  omega arith,
  (first, (second, (refl, tt))),
  λ k. nothing-Acceptable,
  (
    packet (134 ∷ 1 ∷ []) ∷ [],
    one_from_client,
    omega arith,
    (second, (refl, tt)),
    λ k. nothing-Acceptable,
    tt,
  ),
)

abbrev starts_unsent : Starting working_library working_sending.sent
starts_unsent = record {
  fresh = λ n. refl;
  startup_keeps = λ max sockets count priority s. refl;
  connect_keeps = λ args s. refl;
  occasional_ping_keeps = λ on s. refl;
  ip_migration_keeps = λ on s. refl;
}

rounds_end_example :
    ((final : RakNetProxy working_library) × (rounds working_library linux working_queue
          network_of_queues 3 two_arrivals made_proxy
        ≡ ok final)
      × (final.server.queue ≡ [])
      × Resting working_library linux working_queue working_sending 3 final.connections
      × ((k : RakNetGuid)
          → ledger working_library linux working_sending starts_unsent k final.connections
            ≡ notes linux k
                (received working_library linux working_queue network_of_queues 3 working_sending
                  (λ k. false)
                  two_arrivals
                  two-Orderly)
                none))
    ⊎ Faulty working_library linux
        (rounds working_library linux working_queue network_of_queues 3 two_arrivals made_proxy)
rounds_end_example =
    rounds_end working_library linux working_queue network_of_queues 3 working_sending starts_empty
      undisturbed starts_unsent (λ xs s. refl) (some (1 ∷ [], 2 ∷ [])) made_proxy two_arrivals
      new_made refl two-Orderly

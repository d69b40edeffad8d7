-- ===== src/Tests/Messages.antt =====
-- Messages of src/rakpeer.rs: the sender's calls, and what is received.
use raknet_sys.Prelude.{ℕ, ◌≡◌, ◌≢◌, ◌↔◌, refl, false, none, some, [], ◌∷◌, Bytes, length, arith}
use raknet_sys.Prelude.Int.{pos}
use raknet_sys.Prelude.Outcome.{
  ok, panic, assertion, no_data, no_target, not_implemented, Undefined, undefined, traverse, map_ok,
  out_of_fuel,
}
use raknet_sys.Native.Pointer.{to}
use raknet_sys.Native.Structs
use raknet_sys.Wrapper.Codes.{high, low, reliable_ordered}
use raknet_sys.Wrapper.Address.{
  SystemAddress, v4, v6, guid, address, from_system_address, from_guid, from_system_index,
  from_bits,
}
use raknet_sys.Native.Platform.{to_be16, to_be32, swap_bytes16, swap_bytes32}
use raknet_sys.Wrapper.Sender.{Sender, new, send, broadcast_target, system_identifier_target}
use raknet_sys.Wrapper.Sender.Send.{send_args, send_panics, unassigned_identifier}
use raknet_sys.Wrapper.Sender.Request.{Requests, Answered, send_lem}
use raknet_sys.Peer.Interface.{SendArgs}
use raknet_sys.Wrapper.Sender.Builder.{with_data, with_priority, with_broadcast, build, build_lem}
use raknet_sys.Wrapper.Packet.{Packet, from_packet, slice_from_raw_parts}
use raknet_sys.Wrapper.Receive.{receive_all}
use raknet_sys.Wrapper.Receive.Drain.{receive_all_drains}
use raknet_sys.Wrapper.Receive.Outcomes.{
  receive_all-traverse, receive_all_panics, receive_all_terminates, Convertible,
}
use raknet_sys.Tests.Simulation.{linux, native_local, Sim, idle, connected, simulated, queueing}

-- A native packet from 127.0.0.1 with these bytes.
abbrev pub native_packet : Bytes → Structs.Packet
native_packet bytes = record {
  system_address = native_local;
  guid = record { g = 5; system_index = 0 };
  length = length bytes;
  bit_size = 8;
  bytes = to bytes;
  delete_data = false;
  was_generated_locally = false;
}

abbrev pub local : SystemAddress
local = record {
  sockaddr = v4 (record { a = 127; b = 0; c = 0; d = 1 }) 4564;
  debug_port = 0;
  system_index = some 0;
}

abbrev pub packet : Bytes → Packet
packet bytes = record {
  system_address = local;
  guid = record { g = 5; system_index = some 0 };
  bitsize = 8;
  bytes = bytes;
  local = false;
}

-- An IPv6 packet, which the wrapper does not take.
abbrev foreign_packet : Structs.Packet
foreign_packet = record (native_packet (1 ∷ [])) {
  system_address = record native_local { sin_family = 10 };
}

abbrev pub two_waiting : Sim
two_waiting = record connected { queue = native_packet (134 ∷ []) ∷ native_packet (19 ∷ []) ∷ [] }

abbrev foreign_waiting : Sim
foreign_waiting = record connected { queue = native_packet (134 ∷ []) ∷ foreign_packet ∷ [] }

pub two_packets :
    traverse (from_packet linux) two_waiting.queue ≡ ok (packet (134 ∷ []) ∷ packet (19 ∷ []) ∷ [])
unfolding traverse from_packet from_system_address from_guid from_system_index from_bits to_be16
    to_be32 swap_bytes16 swap_bytes32 slice_from_raw_parts
two_packets = refl

foreign_panics : receive_all simulated linux 3 foreign_waiting ≡ panic assertion
unfolding traverse from_packet from_system_address from_guid from_system_index from_bits to_be16
    to_be32 swap_bytes16 swap_bytes32 slice_from_raw_parts
foreign_panics =
    receive_all_panics simulated linux queueing 3 foreign_waiting assertion (omega arith) refl

receive_all_drains_example :
    (t : Sim) × (receive_all simulated linux 3 two_waiting
      ≡ ok (packet (134 ∷ []) ∷ packet (19 ∷ []) ∷ [], t))
    × (t.queue ≡ [])
    × (queueing.outstanding t ≡ [])
receive_all_drains_example =
    receive_all_drains simulated linux queueing 3 two_waiting
      (packet (134 ∷ []) ∷ packet (19 ∷ []) ∷ []) (omega arith) two_packets

receive_all-traverse_example :
    map_ok (λ r. r.0) (receive_all simulated linux 3 foreign_waiting)
    ≡ traverse (from_packet linux) foreign_waiting.queue
receive_all-traverse_example =
    receive_all-traverse simulated linux queueing 3 foreign_waiting (omega arith)

receive_all_terminates_example :
    (receive_all simulated linux 2 two_waiting ≡ out_of_fuel)
    ↔ Convertible simulated linux queueing 2 two_waiting.queue
receive_all_terminates_example = receive_all_terminates simulated linux queueing 2 two_waiting

abbrev hello : Bytes
hello = 134 ∷ 104 ∷ 105 ∷ []

abbrev native_identifier : Structs.AddressOrGuid
native_identifier = record {
  rak_net_guid = record { g = 5; system_index = 0 };
  system_address = (unassigned_identifier linux).system_address;
}

abbrev to_client : Sender
to_client = record {
  bytes = some hello;
  priority = high;
  reliability = reliable_ordered;
  ordering_channel = pos 0;
  target = some (system_identifier_target (guid (record { g = 5; system_index = some 0 })));
  force_receipt_number = none;
}

abbrev after_hello : Sim
after_hello = (simulated.send (send_args to_client hello native_identifier false) connected).1

send_lem_example : (send simulated linux to_client connected ≡ ok (some 7, after_hello)) ↔ (
    (args : SendArgs) × Requests linux to_client args
    × Answered simulated linux to_client connected after_hello (some 7) args)
send_lem_example = send_lem simulated linux to_client connected after_hello (some 7)

abbrev ipv6_target : Sender
ipv6_target = record to_client {
  target = some (system_identifier_target (address (record local { sockaddr = v6 [] 1 })));
}

send_panics_example :
    ((send simulated linux ipv6_target idle ≡ panic no_data) ↔ (some hello ≡ none))
    × ((send simulated linux ipv6_target idle ≡ panic no_target)
        ↔ ((some hello ≢ none) × (ipv6_target.target ≡ none)))
    × ((send simulated linux ipv6_target idle ≡ panic not_implemented)
        ↔ ((some hello ≢ none) × ((octets : Bytes) × (port : ℕ) × (v6 [] 1 ≡ v6 octets port))))
    × ((u : Undefined) → send simulated linux ipv6_target idle ≢ undefined u)
send_panics_example = send_panics simulated linux ipv6_target idle

build_lem_example :
    build (with_broadcast ∷ with_data (1 ∷ []) ∷ with_priority low ∷ with_data hello ∷ []) new
    ≡ record {
      bytes = some hello;
      priority = low;
      reliability = reliable_ordered;
      ordering_channel = pos 0;
      target = some broadcast_target;
      force_receipt_number = none;
    }
unfolding new
build_lem_example =
    build_lem (with_broadcast ∷ with_data (1 ∷ []) ∷ with_priority low ∷ with_data hello ∷ []) new

-- ===== src/Tests/Connections.antt =====
-- Connections of examples/proxy.rs on the simulated library: a message before the client is
-- connected, and one after.
use raknet_sys.Prelude.{◌≡◌, ◌⊎◌, refl, some, [], ◌∷◌, ◌++◌, map, Bytes}
use raknet_sys.Prelude.Outcome.{ok, panic, unwrap_err}
use raknet_sys.Native.Platform.{to_be16, to_be32, swap_bytes16, swap_bytes32}
use raknet_sys.Peer.Shim.{rak_peer_get_system_address_from_index, rak_peer_send_data}
use raknet_sys.Wrapper.Address.{
  from_system_address, into_system_address, into_address_or_guid, into_guid, into_system_index,
  from_system_index, from_bits, to_bits, unassigned_address_or_guid, unassigned_guid,
  unassigned_system_address, is_unassigned_address,
}
use raknet_sys.Wrapper.Sender.{send, set_data, set_broadcast}
use raknet_sys.Wrapper.Sender
use raknet_sys.Wrapper.Sender.Send.{broadcast_args}
use raknet_sys.Wrapper.Sender.Contract.{Refuses}
use raknet_sys.Wrapper.Methods.{get_system_address_from_index}
use raknet_sys.Proxy.Connection.{ProxyConnection, send_message, send_queued, forward_packet}
use raknet_sys.Proxy.Connection.Order.{Forwards, forward_packet_lem}
use raknet_sys.Proxy.Connection.Fifo.{
  History, created, forwarded, network, total, forwarded_in_order,
}
use raknet_sys.Tests.Simulation.{linux, idle, connected, simulated, sending}
use raknet_sys.Tests.Messages.{local, packet}

abbrev first : Bytes
first = 134 ∷ 1 ∷ []

abbrev second : Bytes
second = 135 ∷ 2 ∷ []

abbrev waiting : ProxyConnection simulated
waiting = record {
  client = idle;
  messages = [];
  guid = record { g = 5; system_index = some 0 };
  system_address = local;
}

abbrev one_queued : ProxyConnection simulated
one_queued = record waiting { messages = first ∷ [] }

abbrev both_sent : ProxyConnection simulated
both_sent = record waiting {
  client = record connected { log = broadcast_args linux first ∷ broadcast_args linux second ∷ [] };
}

-- Before the client is connected a message is queued.
first_queued : forward_packet simulated linux (packet first) waiting ≡ ok (tt, one_queued)
unfolding forward_packet get_system_address_from_index rak_peer_get_system_address_from_index
    from_system_address from_system_index from_bits to_be16 to_be32 swap_bytes16 swap_bytes32
    is_unassigned_address unassigned_system_address
first_queued = refl

-- With the next one it is sent.
second_sent :
    forward_packet simulated linux (packet second) (record one_queued { client = connected })
    ≡ ok (tt, both_sent)
unfolding forward_packet get_system_address_from_index rak_peer_get_system_address_from_index
    from_system_address from_system_index from_bits to_be16 to_be32 swap_bytes16 swap_bytes32
    is_unassigned_address unassigned_system_address send_queued send_message send set_data
    set_broadcast Sender.new rak_peer_send_data into_address_or_guid into_system_address into_guid
    into_system_index to_bits unassigned_address_or_guid unassigned_guid
second_sent = refl

both-History : History simulated linux sending waiting (first ∷ second ∷ []) both_sent
both-History =
    forwarded (packet second) both_sent
      (network connected (forwarded (packet first) one_queued created first_queued) refl)
      second_sent

forwarded_in_order_example :
    total simulated linux sending both_sent ≡ [] ++ map (broadcast_args linux) (first ∷ second ∷ [])
forwarded_in_order_example =
    forwarded_in_order simulated linux sending waiting both_sent (first ∷ second ∷ []) both-History

lookup_local :
    from_system_address linux (simulated.get_system_address_from_index 0 connected).0 ≡ ok local
unfolding from_system_address from_system_index from_bits to_be16 to_be32 swap_bytes16 swap_bytes32
lookup_local = refl

forward_packet_lem_example :
    ((forward_packet simulated linux (packet second) (record one_queued { client = connected })
        ≡ panic unwrap_err)
      × Refuses simulated)
    ⊎ ((d : ProxyConnection simulated) × (forward_packet simulated linux
            (packet second)
            (record one_queued { client = connected })
          ≡ ok (tt, d))
        × Forwards simulated linux sending
            (packet second)
            local
            (record one_queued { client = connected })
            d)
forward_packet_lem_example =
    forward_packet_lem simulated linux sending (packet second)
      (record one_queued { client = connected }) local lookup_local

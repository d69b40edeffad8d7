-- ===== src/Peer/Shim.antt =====
-- The C functions of raknet-c/rakpeer.cpp: each dereferences the pointers that it is given and calls
-- the method of the instance.
use raknet_sys.Prelude.{ℕ, Bool, Option, List, Bytes}
use raknet_sys.Prelude.Int.{ℤ}
use raknet_sys.Prelude.State.{M, pure, ◌>>=◌, lift, call, call_partial}
use raknet_sys.Native.Pointer.{Ptr, to, deref}
use raknet_sys.Native.Structs
use raknet_sys.Peer.Interface.{RakNet, ConnectArgs}

module _ (lib : RakNet) where
  open lib use {Peer}

  unfoldable pub rak_peer_new : ℕ → Peer
  rak_peer_new n = lib.get_instance n

  unfoldable pub rak_peer_receive : M Peer ℕ
  rak_peer_receive = call lib.receive

  unfoldable pub rak_peer_ping : Ptr Structs.SystemAddress → M Peer (Unit {0})
  rak_peer_ping target = do call (lib.ping (← lift (deref target)))

  unfoldable pub rak_peer_get_average_ping : Ptr Structs.AddressOrGuid → M Peer ℤ
  rak_peer_get_average_ping system_identifier = do
    call (lib.get_average_ping (← lift (deref system_identifier)))

  unfoldable pub rak_peer_get_last_ping : Ptr Structs.AddressOrGuid → M Peer ℤ
  rak_peer_get_last_ping system_identifier = do
    call (lib.get_last_ping (← lift (deref system_identifier)))

  unfoldable pub rak_peer_get_system_address_from_index : ℕ → M Peer Structs.SystemAddress
  rak_peer_get_system_address_from_index index = call (lib.get_system_address_from_index index)

  unfoldable pub rak_peer_deallocate_packet : ℕ → M Peer (Unit {0})
  rak_peer_deallocate_packet packet = call (lib.deallocate_packet packet)

  unfoldable pub rak_peer_send_data :
      Ptr Bytes → ℤ → ℕ → ℕ → ℤ → Ptr Structs.AddressOrGuid → Bool → ℕ → M Peer ℕ
  rak_peer_send_data bytes length priority reliability ordering_channel system_identifier broadcast
        force_receipt_number =
      do
        target ← lift (deref system_identifier)
        call (
            lib.send (record {
              bytes = bytes;
              length = length;
              priority = priority;
              reliability = reliability;
              ordering_channel = ordering_channel;
              system_identifier = target;
              broadcast = broadcast;
              force_receipt_number = force_receipt_number;
            }))

  unfoldable pub rak_peer_shutdown : ℕ → ℕ → ℕ → M Peer (Unit {0})
  rak_peer_shutdown block_duration ordering_channel priority =
      call (lib.shutdown block_duration ordering_channel priority)

  unfoldable pub rak_peer_close_connection :
      Ptr Structs.AddressOrGuid → Bool → ℕ → ℕ → M Peer (Unit {0})
  rak_peer_close_connection target send_notification ordering_channel priority = do
    t ← lift (deref target)
    call (lib.close_connection t send_notification ordering_channel priority)

  -- The pointer that is returned is null if the system is not found.
  unfoldable pub rak_peer_get_statistics_address :
      Ptr Structs.SystemAddress → M Peer (Option Structs.RakNetStatistics)
  rak_peer_get_statistics_address system_address = do
    call (lib.get_statistics (← lift (deref system_address)))

  -- The address of the reference that the method returns.
  unfoldable pub rak_peer_get_guid_from_system_address :
      Ptr Structs.SystemAddress → M Peer (Ptr Structs.RakNetGuid)
  rak_peer_get_guid_from_system_address input = do
    a ← lift (deref input)
    g ← call (lib.get_guid_from_system_address a)
    pure (to g)

  unfoldable pub rak_peer_connect : ConnectArgs → M Peer ℕ
  rak_peer_connect args = call (lib.connect args)

  unfoldable pub rak_peer_get_number_of_addresses : M Peer ℕ
  rak_peer_get_number_of_addresses = call lib.get_number_of_addresses

  unfoldable pub rak_peer_set_occasional_ping : Bool → M Peer (Unit {0})
  rak_peer_set_occasional_ping do_ping = call (lib.set_occasional_ping do_ping)

  unfoldable pub rak_peer_allow_connection_response_ip_migration : Bool → M Peer (Unit {0})
  rak_peer_allow_connection_response_ip_migration allow =
      call (lib.allow_connection_response_ip_migration allow)

  unfoldable pub rak_peer_startup : ℕ → Ptr (List Structs.SocketDescriptor) → ℕ → ℤ → M Peer ℕ
  rak_peer_startup max_connections descriptors count thread_priority =
      call (lib.startup max_connections descriptors count thread_priority)

  unfoldable pub rak_peer_get_local_ip : ℕ → M Peer (Ptr Bytes)
  rak_peer_get_local_ip index = call (lib.get_local_ip index)

  unfoldable pub rak_peer_set_unreliable_timeout : ℕ → M Peer (Unit {0})
  rak_peer_set_unreliable_timeout timeout_ms = call (lib.set_unreliable_timeout timeout_ms)

  unfoldable pub rak_peer_set_maximum_incoming_connections : ℕ → M Peer (Unit {0})
  rak_peer_set_maximum_incoming_connections number_allowed =
      call (lib.set_maximum_incoming_connections number_allowed)

  unfoldable pub rak_peer_set_timeout_time : ℕ → Ptr Structs.SystemAddress → M Peer (Unit {0})
  rak_peer_set_timeout_time time_ms target = do
    call (lib.set_timeout_time time_ms (← lift (deref target)))

  unfoldable pub rak_peer_get_internal_id :
      Ptr Structs.SystemAddress → ℤ → M Peer Structs.SystemAddress
  rak_peer_get_internal_id system_address index = do
    a ← lift (deref system_address)
    call_partial (lib.get_internal_id a index)

  unfoldable pub rak_peer_initialize_security : Ptr Bytes → Ptr Bytes → Bool → M Peer Bool
  rak_peer_initialize_security public_key private_key require_client_key =
      call (lib.initialize_security public_key private_key require_client_key)

-- ===== src/Peer/Interface.antt =====
-- RakNet's class `RakPeerInterface`, a git submodule that is not part of the repository: a state of
-- one instance and its methods, as raknet-c/rakpeer.cpp calls them. Nothing is assumed of them here.
use raknet_sys.Prelude.{ℕ, ◌⊎◌, Bool, Option, List, Bytes}
use raknet_sys.Prelude.Int.{ℤ}
use raknet_sys.Prelude.Outcome.{Undefined}
use raknet_sys.Native.Pointer.{Ptr}
use raknet_sys.Native.Structs

-- What `Connect` is called with.
pub record ConnectArgs : Type 0 where
  pub host : Bytes
  pub remote_port : ℕ
  pub password : Ptr Bytes
  pub password_length : ℤ
  pub public_key : Ptr Structs.PublicKey
  pub connection_socket_index : ℕ
  pub send_connection_attempt_count : ℕ
  pub time_between_send_connection_attempts_ms : ℕ
  pub timeout_time : ℕ

-- What `Send` is called with.
pub record SendArgs : Type 0 where
  pub bytes : Ptr Bytes
  pub length : ℤ
  pub priority : ℕ
  pub reliability : ℕ
  pub ordering_channel : ℤ
  pub system_identifier : Structs.AddressOrGuid
  pub broadcast : Bool
  pub force_receipt_number : ℕ

pub record RakNet : Type 1 where
  -- one instance, with its sockets, its queues, and what its network thread has done
  pub Peer : Type 0
  -- the instance that the n-th call of `GetInstance` returns
  pub get_instance : ℕ → Peer
  pub startup : ℕ → Ptr (List Structs.SocketDescriptor) → ℕ → ℤ → Peer → ℕ × Peer
  pub shutdown : ℕ → ℕ → ℕ → Peer → Unit {0} × Peer
  pub initialize_security : Ptr Bytes → Ptr Bytes → Bool → Peer → Bool × Peer
  pub set_maximum_incoming_connections : ℕ → Peer → Unit {0} × Peer
  pub connect : ConnectArgs → Peer → ℕ × Peer
  pub close_connection : Structs.AddressOrGuid → Bool → ℕ → ℕ → Peer → Unit {0} × Peer
  pub send : SendArgs → Peer → ℕ × Peer
  -- the address of the next packet, 0 if there is none
  pub receive : Peer → ℕ × Peer
  -- the packet at an address
  pub packet_at : ℕ → Peer → Ptr Structs.Packet
  pub deallocate_packet : ℕ → Peer → Unit {0} × Peer
  pub ping : Structs.SystemAddress → Peer → Unit {0} × Peer
  pub get_average_ping : Structs.AddressOrGuid → Peer → ℤ × Peer
  pub get_last_ping : Structs.AddressOrGuid → Peer → ℤ × Peer
  pub set_occasional_ping : Bool → Peer → Unit {0} × Peer
  pub get_system_address_from_index : ℕ → Peer → Structs.SystemAddress × Peer
  pub get_guid_from_system_address : Structs.SystemAddress → Peer → Structs.RakNetGuid × Peer
  -- undefined for an index that is not one of the internal addresses
  pub get_internal_id :
      Structs.SystemAddress → ℤ → Peer → Undefined ⊎ (Structs.SystemAddress × Peer)
  pub get_number_of_addresses : Peer → ℕ × Peer
  pub get_local_ip : ℕ → Peer → Ptr Bytes × Peer
  -- the statistics that are written, if the system is found
  pub get_statistics : Structs.SystemAddress → Peer → Option Structs.RakNetStatistics × Peer
  pub set_timeout_time : ℕ → Structs.SystemAddress → Peer → Unit {0} × Peer
  pub set_unreliable_timeout : ℕ → Peer → Unit {0} × Peer
  pub allow_connection_response_ip_migration : Bool → Peer → Unit {0} × Peer

-- C functions that raknet-c/rakpeer.h declares and src/rakpeer.rs calls, and that no file of the
-- repository defines: whatever they are linked with.
pub record MissingFunctions (lib : RakNet) : Type 0 where
  pub set_incoming_password : Ptr Bytes → ℤ → lib.Peer → Unit {0} × lib.Peer
  pub ping_unconnected : Ptr Bytes → ℕ → Bool → ℕ → lib.Peer → Bool × lib.Peer
  pub get_external_id : Ptr Structs.SystemAddress → lib.Peer → Structs.SystemAddress × lib.Peer
  pub add_to_ban_list : Ptr Bytes → ℕ → lib.Peer → Unit {0} × lib.Peer

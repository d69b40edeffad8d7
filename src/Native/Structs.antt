-- ===== src/Native/Structs.antt =====
-- The structs of raknet-c/raknet_types.h, field by field. A double or a float is its bit pattern.
use raknet_sys.Prelude.{ℕ, Bool, List, Bytes}
use raknet_sys.Prelude.Int.{ℤ}
use raknet_sys.Native.Pointer.{Ptr}

-- The address is the `sockaddr_in` of the union, the only member that the library uses here. A
-- number is what the machine reads at that field, so a port in network order is swapped on a
-- little-endian machine.
pub record SystemAddress : Type 0 where
  pub sin_family : ℕ
  pub sin_port : ℕ
  pub s_addr : ℕ
  pub sin_zero : Bytes
  pub debug_port : ℕ
  pub system_index : ℕ

pub record RakNetGuid : Type 0 where
  pub g : ℕ
  pub system_index : ℕ

pub record AddressOrGuid : Type 0 where
  pub rak_net_guid : RakNetGuid
  pub system_address : SystemAddress

pub record PublicKey : Type 0 where
  pub public_key_mode : ℕ
  pub remote_server_public_key : Ptr Bytes
  pub my_public_key : Ptr Bytes
  pub my_private_key : Ptr Bytes

pub record SocketDescriptor : Type 0 where
  pub port : ℕ
  pub host_address : List ℤ
  pub socket_family : ℕ
  pub remote_port_raknet_was_started_on_ps3_psp2 : ℕ
  pub chrome_instance : ℕ
  pub blocking_socket : Bool
  pub extra_socket_options : ℕ

pub record Packet : Type 0 where
  pub system_address : SystemAddress
  pub guid : RakNetGuid
  pub length : ℕ
  pub bit_size : ℕ
  pub bytes : Ptr Bytes
  pub delete_data : Bool
  pub was_generated_locally : Bool

pub record RakNetStatistics : Type 0 where
  pub value_over_last_second : List ℕ
  pub running_total : List ℕ
  pub connection_start_time : ℕ
  pub is_limited_by_congestion_control : Bool
  pub bps_limit_by_congestion_control : ℕ
  pub is_limited_by_outgoing_bandwidth_limit : Bool
  pub bps_limit_by_outgoing_bandwidth_limit : ℕ
  pub message_in_send_buffer : List ℕ
  pub bytes_in_send_buffer : List ℕ
  pub messages_in_resend_buffer : ℕ
  pub bytes_in_resend_buffer : ℕ
  pub packetloss_last_second : ℕ
  pub packetloss_total : ℕ

-- A datagram as the socket gives it; the socket is known by its address only.
pub record Rns2RecvStruct : Type 0 where
  pub bytes : Bytes
  pub bytes_read : ℤ
  pub system_address : SystemAddress
  pub time_read : ℕ
  pub socket : ℕ

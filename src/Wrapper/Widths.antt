-- ===== src/Wrapper/Widths.antt =====
-- The widths of the C types: which values of src/rakpeer.rs are values of their Rust types, and which
-- arguments fit the types that raknet-c/raknet_types.h and raknet-c/rakpeer.h declare.
pub mod Identities
pub mod Calls
use raknet_sys.Prelude.{ℕ, ◌^◌, ◌<◌, ◌≡◌, Option, none, some, List, Bytes, All, length}
use raknet_sys.Prelude.Int.{ℤ, pos, negsuc}
use raknet_sys.Native.Pointer.{Ptr, to}
use raknet_sys.Native.Structs
use raknet_sys.Peer.Interface.{SendArgs}
use raknet_sys.Wrapper.Address.{
  Ipv4Addr, SocketAddr, v4, v6, SystemIndex, SystemAddress, RakNetGuid, AddressOrGuid, address,
  guid,
}
use raknet_sys.Wrapper.Address.RoundTrip.{IsIpv4}
use raknet_sys.Wrapper.Socket.{SocketDescriptor}
use raknet_sys.Wrapper.Sender.{SendTarget, broadcast_target, system_identifier_target, Sender}

-- `char`, `i8`
abbrev pub IsI8 : ℤ → Type 0
IsI8 (pos n) = n < 128
IsI8 (negsuc n) = n < 128

-- `int`, `i32`
abbrev pub IsI32 : ℤ → Type 0
IsI32 (pos n) = n < 2 ^ 31
IsI32 (negsuc n) = n < 2 ^ 31

abbrev pub IsU8 : ℕ → Type 0
IsU8 n = n < 2 ^ 8

-- Values of the Rust types.
abbrev pub IsIndex : SystemIndex → Type 0
IsIndex none = Unit
IsIndex (some n) = n < 2 ^ 16

abbrev pub IsSocketAddr : SocketAddr → Type 0
IsSocketAddr (v4 ip port) = IsIpv4 ip × (port < 2 ^ 16)
IsSocketAddr (v6 octets port) = (length octets ≡ 16) × All IsU8 octets × (port < 2 ^ 16)

abbrev pub IsIdentity : AddressOrGuid → Type 0
IsIdentity (address a) = IsSocketAddr a.sockaddr × (a.debug_port < 2 ^ 16) × IsIndex a.system_index
IsIdentity (guid g) = (g.g < 2 ^ 64) × IsIndex g.system_index

abbrev pub IsTarget : Option SendTarget → Type 0
IsTarget none = Unit
IsTarget (some broadcast_target) = Unit
IsTarget (some (system_identifier_target x)) = IsIdentity x

abbrev pub IsReceipt : Option ℕ → Type 0
IsReceipt none = Unit
IsReceipt (some n) = n < 2 ^ 32

pub record IsSender (self : Sender) : Type 0 where
  pub channel : IsI8 self.ordering_channel
  pub receipt : IsReceipt self.force_receipt_number
  pub identity : IsTarget self.target

pub record IsDescriptor (x : SocketDescriptor) : Type 0 where
  pub port : x.port < 2 ^ 16
  pub host_address : All IsU8 x.host_address

-- Values of the C types.
pub record AddressFits (a : Structs.SystemAddress) : Type 0 where
  pub sin_family : a.sin_family < 2 ^ 16
  pub sin_port : a.sin_port < 2 ^ 16
  pub s_addr : a.s_addr < 2 ^ 32
  pub sin_zero : length a.sin_zero ≡ 8
  pub debug_port : a.debug_port < 2 ^ 16
  pub system_index : a.system_index < 2 ^ 16

pub record IdentifierFits (x : Structs.AddressOrGuid) : Type 0 where
  pub g : x.rak_net_guid.g < 2 ^ 64
  pub system_index : x.rak_net_guid.system_index < 2 ^ 16
  pub system_address : AddressFits x.system_address

pub record DescriptorFits (d : Structs.SocketDescriptor) : Type 0 where
  pub port : d.port < 2 ^ 16
  pub host_length : length d.host_address ≡ 32
  pub host_chars : All IsI8 d.host_address
  pub socket_family : d.socket_family < 2 ^ 16

-- The arguments of `RakPeer_Send_data`, with the enumerators that the header lists.
pub record SendFits (args : SendArgs) : Type 0 where
  pub bytes : (bs : Bytes) × (args.bytes ≡ to bs)
  pub length : IsI32 args.length
  pub priority : args.priority < 4
  pub reliability : args.reliability < 8
  pub ordering_channel : IsI8 args.ordering_channel
  pub system_identifier : IdentifierFits args.system_identifier
  pub force_receipt_number : args.force_receipt_number < 2 ^ 32

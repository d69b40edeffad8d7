-- ===== src/Wrapper/Address.antt =====
-- The identities of src/rakpeer.rs: system index, system address, GUID, and either of the two, with
-- their conversions from and into the C structs.
pub mod RoundTrip
pub mod Unassigned
pub mod Text
pub mod Printed
use raknet_sys.Prelude.{
  ℕ, ◌+◌, ◌*◌, ◌/◌, ◌%◌, ◌^◌, Bool, true, false, ◌&&◌, Option, none, some, List, Bytes, replicate,
  ◌==◌, if◌then◌else◌,
}
use raknet_sys.Prelude.Outcome.{Outcome, ok, panic, assertion, not_implemented, ◌>>=◌}
use raknet_sys.Native.Constants.{system_index_max, u64_max}
use raknet_sys.Native.Platform.{Platform, to_be16, to_be32}
use raknet_sys.Native.Structs

abbrev pub SystemIndex : Type 0
SystemIndex = Option ℕ

-- `From<ffi::SystemIndex> for SystemIndex`
unfoldable pub from_system_index : ℕ → SystemIndex
from_system_index value = if value == system_index_max then none else some value

-- `Into<ffi::SystemIndex> for SystemIndex`
unfoldable pub into_system_index : SystemIndex → ℕ
into_system_index (some val) = val
into_system_index none = system_index_max

-- `std::net::Ipv4Addr`, by its octets.
pub record Ipv4Addr : Type 0 where
  pub a : ℕ
  pub b : ℕ
  pub c : ℕ
  pub d : ℕ

unfoldable pub to_bits : Ipv4Addr → ℕ
to_bits ip = ip.a * 2 ^ 24 + ip.b * 2 ^ 16 + ip.c * 2 ^ 8 + ip.d

unfoldable pub from_bits : ℕ → Ipv4Addr
from_bits w = record {
  a = w / 2 ^ 24 % 256;
  b = w / 2 ^ 16 % 256;
  c = w / 2 ^ 8 % 256;
  d = w % 256;
}

-- `std::net::SocketAddr`; of an IPv6 address the sixteen octets.
pub data SocketAddr : Type 0 where
  v4 : Ipv4Addr → ℕ → SocketAddr
  v6 : Bytes → ℕ → SocketAddr

abbrev pub port_of : SocketAddr → ℕ
port_of (v4 ip port) = port
port_of (v6 ip port) = port

pub record SystemAddress : Type 0 where
  pub sockaddr : SocketAddr
  pub debug_port : ℕ
  pub system_index : SystemIndex

abbrev family_of : Platform → SocketAddr → ℕ
family_of platform (v4 ip port) = platform.af_inet % 2 ^ 16
family_of platform (v6 ip port) = platform.af_inet6 % 2 ^ 16

abbrev s_addr_of : Platform → SocketAddr → Outcome ℕ
s_addr_of platform (v4 ip port) = ok (to_be32 platform (to_bits ip))
s_addr_of platform (v6 ip port) = panic not_implemented

-- `Into<ffi::SystemAddress> for SystemAddress`
unfoldable pub into_system_address : Platform → SystemAddress → Outcome Structs.SystemAddress
into_system_address platform self = s_addr_of platform self.sockaddr >>= λ s_addr. ok (record {
  sin_family = family_of platform self.sockaddr;
  sin_port = to_be16 platform (port_of self.sockaddr);
  s_addr = s_addr;
  sin_zero = replicate 8 0;
  debug_port = self.debug_port;
  system_index = into_system_index self.system_index;
})

-- `From<ffi::SystemAddress> for SystemAddress`
unfoldable pub from_system_address : Platform → Structs.SystemAddress → Outcome SystemAddress
from_system_address platform value =
    if value.sin_family == platform.af_inet % 2 ^ 16
    then ok (record {
      sockaddr = v4 (from_bits (to_be32 platform value.s_addr)) (to_be16 platform value.sin_port);
      debug_port = value.debug_port;
      system_index = from_system_index value.system_index;
    })
    else panic assertion

-- `SystemAddress::unassigned`
unfoldable pub unassigned_system_address : SystemAddress
unassigned_system_address = record {
  sockaddr = v4 (record { a = 0; b = 0; c = 0; d = 0 }) 0;
  debug_port = 0;
  system_index = none;
}

-- The derived `PartialEq`.
abbrev pub system_index_eq : SystemIndex → SystemIndex → Bool
system_index_eq none none = true
system_index_eq (some m) (some n) = m == n
system_index_eq _ _ = false

abbrev pub bytes_eq : Bytes → Bytes → Bool
bytes_eq List.[] List.[] = true
bytes_eq (List.◌∷◌ x xs) (List.◌∷◌ y ys) = x == y && bytes_eq xs ys
bytes_eq _ _ = false

abbrev pub socket_addr_eq : SocketAddr → SocketAddr → Bool
socket_addr_eq (v4 x m) (v4 y n) = x.a == y.a && x.b == y.b && x.c == y.c && x.d == y.d && m == n
socket_addr_eq (v6 x m) (v6 y n) = bytes_eq x y && m == n
socket_addr_eq _ _ = false

unfoldable pub system_address_eq : SystemAddress → SystemAddress → Bool
system_address_eq x y =
    socket_addr_eq x.sockaddr y.sockaddr
    && x.debug_port == y.debug_port
    && system_index_eq x.system_index y.system_index

-- `SystemAddress::is_unassigned`
unfoldable pub is_unassigned_address : SystemAddress → Bool
unfolding system_address_eq unassigned_system_address
is_unassigned_address self = system_address_eq self unassigned_system_address

pub record RakNetGuid : Type 0 where
  pub g : ℕ
  pub system_index : SystemIndex

-- `RakNetGUID::unassigned`
unfoldable pub unassigned_guid : RakNetGuid
unassigned_guid = record { g = u64_max; system_index = none }

-- The derived `PartialEq`: the index is compared too.
unfoldable pub guid_eq : RakNetGuid → RakNetGuid → Bool
guid_eq x y = x.g == y.g && system_index_eq x.system_index y.system_index

-- `Hash for RakNetGUID`: what the hasher is fed with.
unfoldable pub hash_guid : RakNetGuid → ℕ
hash_guid self = self.g

-- `RakNetGUID::is_unassigned`
unfoldable pub is_unassigned_guid : RakNetGuid → Bool
unfolding guid_eq unassigned_guid
is_unassigned_guid self = guid_eq self unassigned_guid

-- `Into<ffi::RakNetGUID> for RakNetGUID`
unfoldable pub into_guid : RakNetGuid → Structs.RakNetGuid
into_guid self = record { g = self.g; system_index = into_system_index self.system_index }

-- `From<ffi::RakNetGUID> for RakNetGUID`
unfoldable pub from_guid : Structs.RakNetGuid → RakNetGuid
from_guid value = record { g = value.g; system_index = from_system_index value.system_index }

pub data AddressOrGuid : Type 0 where
  address : SystemAddress → AddressOrGuid
  guid : RakNetGuid → AddressOrGuid

-- `AddressOrGuid::unassigned`
unfoldable pub unassigned_address_or_guid : AddressOrGuid
unfolding unassigned_system_address
unassigned_address_or_guid = address unassigned_system_address

-- `AddressOrGuid::is_unassigned`
unfoldable pub is_unassigned_address_or_guid : AddressOrGuid → Bool
unfolding is_unassigned_address is_unassigned_guid
is_unassigned_address_or_guid (address a) = is_unassigned_address a
is_unassigned_address_or_guid (guid g) = is_unassigned_guid g

abbrev pub both_halves : AddressOrGuid → SystemAddress × RakNetGuid
both_halves (address a) = (a, unassigned_guid)
both_halves (guid g) = (unassigned_system_address, g)

-- `Into<ffi::AddressOrGUID> for AddressOrGuid`
unfoldable pub into_address_or_guid : Platform → AddressOrGuid → Outcome Structs.AddressOrGuid
into_address_or_guid platform self =
    let (a, g) = both_halves self in
    into_system_address platform a >>= λ system_address.
    ok (record { system_address = system_address; rak_net_guid = into_guid g })

-- ===== src/Wrapper/Address/RoundTrip.antt =====
-- The conversions of src/rakpeer.rs between its identities and the C structs lose nothing, on a
-- machine of either byte order, and put a port and an address into network order.
use raknet_sys.Prelude.{
  Bool-cases, inl, inr, ℕ, ◌/◌, ◌%◌, ◌^◌, ◌<◌, ◌≡◌, ◌≢◌, ◌↔◌, some, [], ◌∷◌, replicate, arith,
}
use raknet_sys.Prelude.Outcome.{ok, panic, assertion, ◌>>=◌}
use raknet_sys.Native.Platform.{
  Platform, to_be16, to_be32, swap_bytes16, swap_bytes32, memory16, memory32,
}
use raknet_sys.Native.Constants.{system_index_max}
use raknet_sys.Native.Structs
use raknet_sys.Wrapper.Address.{
  SystemIndex, from_system_index, into_system_index, Ipv4Addr, to_bits, from_bits, v4,
  SystemAddress, into_system_address, from_system_address, RakNetGuid, into_guid, from_guid,
}

-- A C index survives the way into the wrapper and back.
pub into-from_system_index : (value : ℕ) → into_system_index (from_system_index value) ≡ value
unfolding into_system_index from_system_index
into-from_system_index value = ground arith

-- A wrapper index survives the way out and back exactly when it is not the largest number, which
-- stands for the unassigned index.
pub from-into_system_index :
    (self : SystemIndex)
    → (from_system_index (into_system_index self) ≡ self) ↔ (self ≢ some system_index_max)
unfolding into_system_index from_system_index
from-into_system_index self = ground arith

pub record IsIpv4 (ip : Ipv4Addr) : Type 0 where
  pub a_byte : ip.a < 256
  pub b_byte : ip.b < 256
  pub c_byte : ip.c < 256
  pub d_byte : ip.d < 256

swap_bytes16_twice : (x : ℕ) → x < 2 ^ 16 → swap_bytes16 (swap_bytes16 x) ≡ x
unfolding swap_bytes16
swap_bytes16_twice x h = omega arith

swap_bytes32_twice : (x : ℕ) → x < 2 ^ 32 → swap_bytes32 (swap_bytes32 x) ≡ x
unfolding swap_bytes32
swap_bytes32_twice x h = omega arith

to_be16_twice : (p : Platform) (x : ℕ) → x < 2 ^ 16 → to_be16 p (to_be16 p x) ≡ x
unfolding to_be16
to_be16_twice p x h = elim (Bool-cases p.little_endian) [
  | inl little ↦ rw little (swap_bytes16_twice x h)
  | inr big ↦ rw big
]

to_be32_twice : (p : Platform) (x : ℕ) → x < 2 ^ 32 → to_be32 p (to_be32 p x) ≡ x
unfolding to_be32
to_be32_twice p x h = elim (Bool-cases p.little_endian) [
  | inl little ↦ rw little (swap_bytes32_twice x h)
  | inr big ↦ rw big
]

pub to_bits-lt : (ip : Ipv4Addr) → IsIpv4 ip → to_bits ip < 2 ^ 32
unfolding to_bits
to_bits-lt ip h = omega arith

from_bits-to_bits : (ip : Ipv4Addr) → IsIpv4 ip → from_bits (to_bits ip) ≡ ip
unfolding from_bits to_bits
from_bits-to_bits ip h = ground arith

to_bits-from_bits : (w : ℕ) → w < 2 ^ 32 → to_bits (from_bits w) ≡ w
unfolding from_bits to_bits
to_bits-from_bits w h = omega arith

pub to_be32-lt : (p : Platform) (x : ℕ) → x < 2 ^ 32 → to_be32 p x < 2 ^ 32
unfolding to_be32 swap_bytes32
to_be32-lt p x h = ground arith

-- An IPv4 address whose numbers fit their widths, and whose index is not the largest number.
pub record IsNative (a : SystemAddress) (ip : Ipv4Addr) (port : ℕ) : Type 0 where
  pub v4_address : a.sockaddr ≡ v4 ip port
  pub octets : IsIpv4 ip
  pub port_word : port < 2 ^ 16
  pub index_kept : a.system_index ≢ some system_index_max

-- Every IPv4 address whose octets and port fit their widths and whose index is not the largest
-- number is converted into a C address without a panic, and the C address is converted back into
-- the same address.
pub into-from_system_address :
    (p : Platform) (a : SystemAddress) (ip : Ipv4Addr) (port : ℕ)
    → IsNative a ip port
    → (into_system_address p a >>= from_system_address p) ≡ ok a
unfolding into_system_address from_system_address
into-from_system_address p a ip port h = ground (
  arith,
  to_be16_twice p port,
  to_be32_twice p (to_bits ip),
  to_bits-lt ip,
  from_bits-to_bits ip,
  from-into_system_index a.system_index,
)

-- A C address with its numbers in range and its padding zero is converted into the wrapper and
-- back without a change exactly if it is of the IPv4 family, and panics exactly if it is of another.
pub from-into_system_address :
    (p : Platform) (n : Structs.SystemAddress)
    → n.sin_port < 2 ^ 16
    → n.s_addr < 2 ^ 32
    → n.sin_zero ≡ replicate 8 0
    → (((from_system_address p n >>= into_system_address p) ≡ ok n)
        ↔ (n.sin_family ≡ p.af_inet % 2 ^ 16))
      × (((from_system_address p n >>= into_system_address p) ≡ panic assertion)
          ↔ (n.sin_family ≢ p.af_inet % 2 ^ 16))
unfolding into_system_address from_system_address
from-into_system_address p n hp ha hz = ground (
  arith,
  to_be16_twice p n.sin_port,
  to_be32_twice p n.s_addr,
  to_be32-lt p n.s_addr,
  to_bits-from_bits (to_be32 p n.s_addr),
  into-from_system_index n.system_index,
)

memory16-to_be16 :
    (p : Platform) (port : ℕ)
    → port < 2 ^ 16
    → memory16 p (to_be16 p port) ≡ port / 256 ∷ port % 256 ∷ []
unfolding memory16 to_be16
memory16-to_be16 p port h = ground arith

memory32-to_be32 :
    (p : Platform) (ip : Ipv4Addr)
    → IsIpv4 ip
    → memory32 p (to_be32 p (to_bits ip)) ≡ ip.a ∷ ip.b ∷ ip.c ∷ ip.d ∷ []
unfolding memory32 to_be32 to_bits
memory32-to_be32 p ip h = ground arith

-- Of an IPv4 address whose octets and port fit their widths and whose index is not the largest
-- number, the C side reads in memory the high byte of the port and then its low byte, and the
-- octets from first to last: the byte order of the network on every machine.
into_system_address_network_order :
    (p : Platform) (a : SystemAddress) (ip : Ipv4Addr) (port : ℕ) (n : Structs.SystemAddress)
    → IsNative a ip port
    → into_system_address p a ≡ ok n
    → (memory16 p n.sin_port ≡ port / 256 ∷ port % 256 ∷ [])
      × (memory32 p n.s_addr ≡ ip.a ∷ ip.b ∷ ip.c ∷ ip.d ∷ [])
unfolding into_system_address
into_system_address_network_order p a ip port n h e =
    ground (arith, memory16-to_be16 p port, memory32-to_be32 p ip)

-- A GUID survives the way out and back exactly when its index is not the largest number, and every
-- C GUID survives the way into the wrapper and back.
pub guid_round_trip :
    (self : RakNetGuid) (value : Structs.RakNetGuid)
    → ((from_guid (into_guid self) ≡ self) ↔ (self.system_index ≢ some system_index_max))
      × (into_guid (from_guid value) ≡ value)
unfolding into_guid from_guid
guid_round_trip self value =
    ground
      (arith, from-into_system_index self.system_index, into-from_system_index value.system_index)

-- ===== src/Wrapper/Widths/Identities.antt =====
-- The conversions of src/rakpeer.rs make values that fit their C types.
use raknet_sys.Prelude.{
  ℕ, ◌-◌, ◌^◌, ◌<◌, ◌≤◌, ◌≡◌, none, [], ◌∷◌, ◌++◌, Bytes, All, map, length, replicate, arith, zero,
  suc,
}
use raknet_sys.Prelude.Int.{as_i8, as_i32}
use raknet_sys.Prelude.Outcome.{ok, >>=-eq-ok}
use raknet_sys.Native.Platform.{Platform, to_be16, swap_bytes16}
use raknet_sys.Native.Structs
use raknet_sys.Wrapper.Address.{
  SocketAddr, v4, v6, SystemIndex, AddressOrGuid, address, guid, into_system_index,
  into_system_address, into_guid, into_address_or_guid, unassigned_guid, unassigned_system_address,
  to_bits,
}
use raknet_sys.Wrapper.Address.RoundTrip.{IsIpv4, to_be32-lt, to_bits-lt}
use raknet_sys.Wrapper.Socket.{SocketDescriptor, into_socket_family}
use raknet_sys.Wrapper.Socket.HostAddress.{native_descriptor, length-padded}
use raknet_sys.Wrapper.Widths.{
  IsI8, IsI32, IsU8, IsIndex, IsSocketAddr, IsIdentity, IsDescriptor, AddressFits, IdentifierFits,
  DescriptorFits,
}

into_system_index-lt : (i : SystemIndex) → IsIndex i → into_system_index i < 2 ^ 16
unfolding into_system_index
into_system_index-lt i h = ground (arith, h)

to_be16-lt : (p : Platform) (x : ℕ) → x < 2 ^ 16 → to_be16 p x < 2 ^ 16
unfolding to_be16 swap_bytes16
to_be16-lt p x h = ground arith

sockaddr-AddressFits :
    (p : Platform) (sockaddr : SocketAddr) (d : ℕ) (i : SystemIndex) (n : Structs.SystemAddress)
    → IsSocketAddr sockaddr
    → d < 2 ^ 16
    → IsIndex i
    → into_system_address p (record { sockaddr = sockaddr; debug_port = d; system_index = i })
      ≡ ok n
    → AddressFits n
unfolding into_system_address
sockaddr-AddressFits p (v6 octets port) d i n h k l e = ground (arith, e)
sockaddr-AddressFits p (v4 ip port) d i n (bytes, word) k l e = ground (
  arith,
  e,
  k,
  to_be16-lt p port word,
  to_be32-lt p (to_bits ip) (to_bits-lt ip bytes),
  into_system_index-lt i l,
)

-- An identity of the Rust types is converted into one that fits the C types.
pub into_address_or_guid-IdentifierFits :
    (p : Platform) (x : AddressOrGuid) (n : Structs.AddressOrGuid)
    → IsIdentity x
    → into_address_or_guid p x ≡ ok n
    → IdentifierFits n
unfolding into_address_or_guid into_guid unassigned_guid unassigned_system_address
into_address_or_guid-IdentifierFits p (address a) n (h, k, l) e =
    let (m, converted, whole) = >>=-eq-ok (into_system_address p a) _ e in
    let fits = sockaddr-AddressFits p a.sockaddr a.debug_port a.system_index m h k l converted in
    ground (arith, whole, fits, into_system_index-lt none tt)
into_address_or_guid-IdentifierFits p (guid g) n (h, k) e =
    let (m, converted, whole) = >>=-eq-ok (into_system_address p unassigned_system_address) _ e in
    let bytes : IsIpv4 (record { a = 0; b = 0; c = 0; d = 0 }) = record {
      a_byte = omega arith;
      b_byte = omega arith;
      c_byte = omega arith;
      d_byte = omega arith;
    } in
    let fits =
      sockaddr-AddressFits p (v4 (record { a = 0; b = 0; c = 0; d = 0 }) 0) 0 none m
        (bytes, omega arith) (omega arith) tt converted in
    ground (arith, whole, fits, h, into_system_index-lt g.system_index k)

as_i8-IsI8 : (b : ℕ) → IsU8 b → IsI8 (as_i8 b)
as_i8-IsI8 b h = ground (arith, h)

pub as_i32-IsI32 : (n : ℕ) → IsI32 (as_i32 n)
as_i32-IsI32 n = ground arith

zeros-IsI8 : (n : ℕ) → All IsI8 (map as_i8 (replicate n 0))
zeros-IsI8 zero = tt
zeros-IsI8 (suc n) = (omega arith, zeros-IsI8 n)

padded-IsI8 : (k : ℕ) (s : Bytes) → All IsU8 s → All IsI8 (map as_i8 (s ++ replicate k 0))
padded-IsI8 k [] h = zeros-IsI8 k
padded-IsI8 k (b ∷ s) (h, hs) = (as_i8-IsI8 b h, padded-IsI8 k s hs)

pub native_descriptor-DescriptorFits :
    (p : Platform) (x : SocketDescriptor)
    → IsDescriptor x
    → length x.host_address ≤ 32
    → DescriptorFits (native_descriptor p x)
unfolding into_socket_family
native_descriptor-DescriptorFits p x h room = record {
  port = h.port;
  host_length = length-padded 32 x.host_address room;
  host_chars = padded-IsI8 (32 - length x.host_address) x.host_address h.host_address;
  socket_family = ground arith;
}

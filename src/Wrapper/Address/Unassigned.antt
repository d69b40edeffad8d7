-- ===== src/Wrapper/Address/Unassigned.antt =====
-- The unassigned identities of src/rakpeer.rs: how they are told apart, what the C side gets, and
-- how they stand to the constant of raknet-c/raknet_types.h.
use raknet_sys.Prelude.{ℕ, ◌%◌, ◌^◌, ◌≡◌, ◌≢◌, ◌↔◌, refl, some, true, Bytes, replicate, arith}
use raknet_sys.Prelude.Outcome.{Outcome, ok, panic, assertion, not_implemented, ◌>>=◌, >>=-eq-ok}
use raknet_sys.Native.Platform.{Platform}
use raknet_sys.Native.Constants.{system_index_max}
use raknet_sys.Native.Structs
use raknet_sys.Wrapper.Address.{
  Ipv4Addr, v6, SystemAddress, into_system_address, from_system_address, RakNetGuid, into_guid,
  from_guid, AddressOrGuid, address, guid, both_halves, into_address_or_guid,
  unassigned_system_address, unassigned_guid, is_unassigned_address, is_unassigned_guid, guid_eq,
}
use raknet_sys.Wrapper.Address.RoundTrip.{IsNative, into-from_system_address, guid_round_trip}

-- An address is unassigned exactly when it is the unassigned address, and a GUID exactly when it is
-- the unassigned GUID.
is_unassigned_iff :
    (a : SystemAddress) (g : RakNetGuid)
    → ((is_unassigned_address a ≡ true) ↔ (a ≡ unassigned_system_address))
      × ((is_unassigned_guid g ≡ true) ↔ (g ≡ unassigned_guid))
unfolding is_unassigned_address is_unassigned_guid
is_unassigned_iff a g = ground arith

-- The derived comparison of GUIDs decides equality: two GUIDs with one number and different indices
-- are different keys.
pub guid_eq_iff : (x y : RakNetGuid) → (guid_eq x y ≡ true) ↔ (x ≡ y)
unfolding guid_eq
guid_eq_iff x y = ground arith

-- The address and the GUID that the C side is given for an identity, read back.
abbrev pub read_back : Platform → AddressOrGuid → Outcome (SystemAddress × RakNetGuid)
read_back p x = into_address_or_guid p x >>= λ n.
    from_system_address p n.system_address >>= λ a. ok (a, from_guid n.rak_net_guid)

read_back_parts :
    (p : Platform) (x : AddressOrGuid) (a : SystemAddress) (g : RakNetGuid)
    → both_halves x ≡ (a, g)
    → (into_system_address p a >>= from_system_address p) ≡ ok a
    → from_guid (into_guid g) ≡ g
    → read_back p x ≡ ok (a, g)
unfolding into_address_or_guid
read_back_parts p x a g e ea eg =
    let (s, es, fs) = >>=-eq-ok (into_system_address p a) (from_system_address p) ea in
    ground (arith, es, fs)

-- An IPv4 address whose octets and port fit their widths and whose index is not the largest
-- number reaches the C side as itself beside the unassigned GUID, and a GUID whose index is not
-- the largest number reaches it as itself beside the unassigned address: whichever half was not
-- given is read back as unassigned.
pub into_address_or_guid_halves :
    (p : Platform) (a : SystemAddress) (ip : Ipv4Addr) (port : ℕ) (g : RakNetGuid)
    → IsNative a ip port
    → g.system_index ≢ some system_index_max
    → (read_back p (address a) ≡ ok (a, unassigned_guid))
      × (read_back p (guid g) ≡ ok (unassigned_system_address, g))
unfolding unassigned_system_address unassigned_guid
into_address_or_guid_halves p a ip port g ha hg = (
  read_back_parts p (address a) a unassigned_guid refl (into-from_system_address p a ip port ha)
      ((guid_round_trip unassigned_guid (into_guid unassigned_guid)).0.1 (ground arith)),
  read_back_parts p (guid g) unassigned_system_address g refl
      (into-from_system_address p unassigned_system_address (record { a = 0; b = 0; c = 0; d = 0 })
        0 (ground arith))
      ((guid_round_trip g (into_guid g)).0.1 hg),
)

-- An IPv6 address panics, alone and as an identity, whatever its octets and its port are.
pub into_ipv6_panics :
    (p : Platform) (octets : Bytes) (port : ℕ) (a : SystemAddress)
    → a.sockaddr ≡ v6 octets port
    → (into_system_address p a ≡ panic not_implemented)
      × (into_address_or_guid p (address a) ≡ panic not_implemented)
unfolding into_system_address into_address_or_guid
into_ipv6_panics p octets port a e = ground arith

-- `UNASSIGNED_SYSTEM_ADDRESS = {0xFFFFFFFF, 0xFFFF}` of the header. The initialisers fill the family
-- and the port of the address, to their widths, and leave the rest zero.
abbrev pub native_unassigned_system_address : Structs.SystemAddress
native_unassigned_system_address = record {
  sin_family = 0xFFFFFFFF % 2 ^ 16;
  sin_port = 0xFFFF;
  s_addr = 0;
  sin_zero = replicate 8 0;
  debug_port = 0;
  system_index = 0;
}

-- On a machine whose IPv4 family is not 0xFFFF, the wrapper panics on the header's unassigned
-- address, and it never hands that address out, for its own unassigned address or for another.
pub native_unassigned_differs :
    (p : Platform) (a : SystemAddress)
    → p.af_inet % 2 ^ 16 ≢ 0xFFFF
    → (from_system_address p native_unassigned_system_address ≡ panic assertion)
      × (into_system_address p a ≢ ok native_unassigned_system_address)
unfolding from_system_address into_system_address
native_unassigned_differs p a h = ground arith

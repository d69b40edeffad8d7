-- ===== src/Tests/Identities.antt =====
-- Addresses, GUIDs and identities of src/rakpeer.rs at concrete numbers.
use raknet_sys.Prelude.{◌≡◌, ◌≢◌, ◌↔◌, refl, true, some, [], ◌∷◌, arith}
use raknet_sys.Prelude.Outcome.{ok, panic, assertion, ◌>>=◌}
use raknet_sys.Native.Platform.{to_be16, to_be32, swap_bytes16, swap_bytes32}
use raknet_sys.Native.Structs
use raknet_sys.Wrapper.Address.{
  Ipv4Addr, v4, SystemAddress, RakNetGuid, address, guid, into_system_address, from_system_address,
  into_system_index, to_bits, unassigned_system_address, unassigned_guid,
}
use raknet_sys.Wrapper.Address.{guid_eq, hash_guid}
use raknet_sys.Wrapper.Address.Text.{guid_to_string, read_from, guid_to_string_lem, hash_guid_lem}
use raknet_sys.Wrapper.Address.Printed.{address_or_guid_to_string}
use raknet_sys.Wrapper.Address.Printed.Read.{address_to_string_lem}
use raknet_sys.Wrapper.Text.Numbers.{numbers_from}
use raknet_sys.Prelude.{length}
use raknet_sys.Wrapper.Address.RoundTrip.{
  IsNative, into-from_system_address, from-into_system_address,
}
use raknet_sys.Wrapper.Address.Unassigned.{
  read_back, into_address_or_guid_halves, native_unassigned_system_address,
  native_unassigned_differs,
}
use raknet_sys.Tests.Simulation.{linux, native_local}

abbrev octets : Ipv4Addr
octets = record { a = 127; b = 0; c = 0; d = 1 }

abbrev local : SystemAddress
local = record { sockaddr = v4 octets 4564; debug_port = 0; system_index = some 0 }

abbrev client : RakNetGuid
client = record { g = 5; system_index = some 0 }

abbrev native_client : Structs.RakNetGuid
native_client = record { g = 5; system_index = 0 }

local-IsNative : IsNative local octets 4564
local-IsNative = record {
  v4_address = refl;
  octets = record {
    a_byte = omega arith;
    b_byte = omega arith;
    c_byte = omega arith;
    d_byte = omega arith;
  };
  port_word = omega arith;
  index_kept = ground arith;
}

local_native : into_system_address linux local ≡ ok native_local
unfolding into_system_address into_system_index to_bits to_be16 to_be32 swap_bytes16 swap_bytes32
local_native = refl

into-from_system_address_example :
    (into_system_address linux local >>= from_system_address linux) ≡ ok local
into-from_system_address_example = into-from_system_address linux local octets 4564 local-IsNative

from-into_system_address_example :
    (((from_system_address linux native_local >>= into_system_address linux) ≡ ok native_local)
      ↔ (native_local.sin_family ≡ 2))
    × (((from_system_address linux native_local >>= into_system_address linux) ≡ panic assertion)
        ↔ (native_local.sin_family ≢ 2))
from-into_system_address_example =
    from-into_system_address linux native_local (omega arith) (omega arith) refl

into_address_or_guid_halves_example :
    (read_back linux (address local) ≡ ok (local, unassigned_guid))
    × (read_back linux (guid client) ≡ ok (unassigned_system_address, client))
into_address_or_guid_halves_example =
    into_address_or_guid_halves linux local octets 4564 client local-IsNative (ground arith)

native_unassigned_differs_example :
    (from_system_address linux native_unassigned_system_address ≡ panic assertion)
    × (into_system_address linux local ≢ ok native_unassigned_system_address)
native_unassigned_differs_example = native_unassigned_differs linux local (omega arith)

guid_to_string_lem_example :
    (length (guid_to_string client) ≡ 16) × (read_from 0 (guid_to_string client) ≡ 5)
guid_to_string_lem_example = guid_to_string_lem client (omega arith)

hash_guid_lem_example : (guid_eq client (record client { system_index = some 1 }) ≡ true) ↔ (
    (hash_guid client ≡ hash_guid (record client { system_index = some 1 }))
    × (client.system_index ≡ some 1))
hash_guid_lem_example = hash_guid_lem client (record client { system_index = some 1 })

address_to_string_lem_example :
    numbers_from 0 (address_or_guid_to_string (address local)) ≡ 127 ∷ 0 ∷ 0 ∷ 1 ∷ 4564 ∷ []
address_to_string_lem_example = address_to_string_lem local octets 4564 local-IsNative

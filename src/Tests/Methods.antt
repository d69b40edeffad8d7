-- ===== src/Tests/Methods.antt =====
-- Methods of src/rakpeer.rs on the simulated library.
use raknet_sys.Prelude.{
  ℕ, ◌+◌, ◌%◌, ◌^◌, ◌-◌, ◌≡◌, ◌↔◌, refl, true, none, some, [], ◌∷◌, Bytes, arith,
}
use raknet_sys.Prelude.Int.{pos}
use raknet_sys.Prelude.Outcome.{ok, panic, not_implemented}
use raknet_sys.Prelude.Texts.{codes}
use raknet_sys.Peer.Interface.{MissingFunctions}
use raknet_sys.Native.Structs
use raknet_sys.Wrapper.Address.{
  SystemAddress, v4, v6, address, into_address_or_guid, into_system_address, into_guid,
  into_system_index, to_bits, unassigned_guid,
}
use raknet_sys.Native.Platform.{to_be16, to_be32, swap_bytes16, swap_bytes32}
use raknet_sys.Wrapper.Duration.{Duration}
use raknet_sys.Wrapper.Text.{is_utf8}
use raknet_sys.Wrapper.Methods.{
  add_to_ban_list, get_last_ping, set_timeout_time, ping, get_guid_from_system_address,
  get_statistics, get_average_ping, close_connection, get_internal_id, get_external_id,
}
use raknet_sys.Wrapper.Methods.Settings.{add_to_ban_list_permanent}
use raknet_sys.Wrapper.Methods.Ipv6.{methods_refuse-IsIpv6}
use raknet_sys.Wrapper.Sender.Send.{IsIpv6}
use raknet_sys.Tests.Simulation.{linux, native_local, idle, simulated}

abbrev missing : MissingFunctions simulated
missing = record {
  set_incoming_password = λ password length s. (tt, s);
  ping_unconnected = λ host port only socket s. (true, s);
  get_external_id = λ target s. (native_local, s);
  add_to_ban_list = λ ip milliseconds s. (tt, s);
}

abbrev local : SystemAddress
local = record {
  sockaddr = v4 (record { a = 127; b = 0; c = 0; d = 1 }) 4564;
  debug_port = 0;
  system_index = some 0;
}

abbrev local6 : SystemAddress
local6 = record local { sockaddr = v6 [] 4564 }

-- Half a millisecond.
abbrev short : Duration
short = record { seconds = 0; nanoseconds = 500000 }

abbrev half_minute : Duration
half_minute = record { seconds = 30; nanoseconds = 0 }

add_to_ban_list_permanent_example :
    add_to_ban_list simulated missing (codes "10.0.0.1") (some short) idle
    ≡ add_to_ban_list simulated missing (codes "10.0.0.1") none idle
add_to_ban_list_permanent_example =
    add_to_ban_list_permanent simulated missing (codes "10.0.0.1") short 0 idle refl

abbrev native_identity : Structs.AddressOrGuid
native_identity = record {
  rak_net_guid = record { g = 2 ^ 64 - 1; system_index = 0xFFFF };
  system_address = native_local;
}

local_identity : into_address_or_guid linux (address local) ≡ ok native_identity
unfolding into_address_or_guid into_system_address into_guid into_system_index unassigned_guid
    to_bits to_be16 to_be32 swap_bytes16 swap_bytes32
local_identity = refl

local_address : into_system_address linux local ≡ ok native_local
unfolding into_system_address into_system_index to_bits to_be16 to_be32 swap_bytes16 swap_bytes32
local_address = refl

abbrev text : ℕ → Bytes
text k = 49 ∷ (48 + k % 10) ∷ []

text_valid : (k : ℕ) → is_utf8 (text k) ≡ true
unfolding is_utf8
text_valid k = ground arith

methods_refuse-IsIpv6_example :
    ((ping simulated linux local6 idle ≡ panic not_implemented) ↔ IsIpv6 (address local6))
    × ((set_timeout_time simulated linux half_minute local6 idle ≡ panic not_implemented)
        ↔ IsIpv6 (address local6))
    × ((get_guid_from_system_address simulated linux local6 idle ≡ panic not_implemented)
        ↔ IsIpv6 (address local6))
    × ((get_statistics simulated linux local6 idle ≡ panic not_implemented)
        ↔ IsIpv6 (address local6))
    × ((get_internal_id simulated linux local6 (pos 0) idle ≡ panic not_implemented)
        ↔ IsIpv6 (address local6))
    × ((get_external_id simulated missing linux local6 idle ≡ panic not_implemented)
        ↔ IsIpv6 (address local6))
    × ((get_average_ping simulated linux (address local) idle ≡ panic not_implemented)
        ↔ IsIpv6 (address local))
    × ((get_last_ping simulated linux (address local) idle ≡ panic not_implemented)
        ↔ IsIpv6 (address local))
    × ((close_connection simulated linux (address local) true idle ≡ panic not_implemented)
        ↔ IsIpv6 (address local))
methods_refuse-IsIpv6_example =
    methods_refuse-IsIpv6 simulated linux idle missing local6 (address local) half_minute (pos 0)
      true

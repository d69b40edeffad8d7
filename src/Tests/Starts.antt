-- ===== src/Tests/Starts.antt =====
-- Start-up and connection attempts of src/rakpeer.rs on the simulated library.
use raknet_sys.Prelude.{◌≡◌, ◌↔◌, refl, true, false, some, [], ◌∷◌, map, length, arith}
use raknet_sys.Prelude.Int.{negsuc}
use raknet_sys.Prelude.Outcome.{ok, panic, unwrap_none}
use raknet_sys.Prelude.Texts.{codes}
use raknet_sys.Native.Pointer.{to, dangling}
use raknet_sys.Native.Structs
use raknet_sys.Native.Enums
use raknet_sys.Wrapper.Codes.{StartupResult, ConnectionAttemptResult}
use raknet_sys.Wrapper.Socket.{
  SocketDescriptor, ipv4, ipv6, into_socket_family, into_socket_descriptor,
}
use raknet_sys.Wrapper.Socket.HostAddress.{c_string, native_descriptor, into_socket_descriptor_lem}
use raknet_sys.Wrapper.Startup.{startup}
use raknet_sys.Wrapper.Startup.Behaviour.{any_long, startup_lem}
use raknet_sys.Wrapper.Connect.{accept_any_public_key, connect}
use raknet_sys.Wrapper.Connect.Password.{connect_args, connect_password_dangling}
use raknet_sys.Wrapper.Sender.{Sender, set_broadcast, set_data}
use raknet_sys.Wrapper.Sender
use raknet_sys.Wrapper.Widths.{IsSender}
use raknet_sys.Wrapper.Widths.Calls.{SendsFitting, StartsFitting, calls_fit}
use raknet_sys.Tests.Simulation.{linux, idle, connected, simulated}

abbrev local_socket : SocketDescriptor
local_socket = record { port = 4564; host_address = codes "127.0.0.1"; socket_family = ipv4 }

-- The IPv6 address that raknet-c/raknet_types.h gives as its example.
abbrev ipv6_socket : SocketDescriptor
ipv6_socket = record {
  port = 4564;
  host_address = codes "fe80::7c:31f7:fec4:27de%14";
  socket_family = ipv6;
}

into_socket_descriptor_lem_example :
    (d : Structs.SocketDescriptor) × (into_socket_descriptor linux local_socket ≡ ok d)
    × (d.port ≡ 4564)
    × (d.socket_family ≡ into_socket_family linux ipv4)
    × (length d.host_address ≡ 32)
    × (c_string d.host_address ≡ some (codes "127.0.0.1"))
into_socket_descriptor_lem_example =
    into_socket_descriptor_lem linux local_socket (omega arith) (ground arith)

startup_lem_example :
    ((startup simulated linux 8 (local_socket ∷ ipv6_socket ∷ []) idle ≡ panic unwrap_none)
      ↔ (any_long (local_socket ∷ ipv6_socket ∷ []) ≡ true))
    × ((startup simulated linux 8 (local_socket ∷ ipv6_socket ∷ []) idle
          ≡ ok (StartupResult.started, idle))
        ↔ ((any_long (local_socket ∷ ipv6_socket ∷ []) ≡ false)
            × (simulated.startup 8
                  (to (map (native_descriptor linux) (local_socket ∷ ipv6_socket ∷ [])))
                  2
                  (negsuc 99998)
                  idle
                ≡ (Enums.startup_result_code Enums.raknet_started, idle))))
startup_lem_example = startup_lem simulated linux 8 (local_socket ∷ ipv6_socket ∷ []) idle idle

connect_password_dangling_example :
    (connect simulated (codes "localhost") 4564 (some (codes "secret")) accept_any_public_key idle
      ≡ ok (ConnectionAttemptResult.started, connected))
    ↔ (simulated.connect
          (connect_args (codes "localhost") 4564 dangling 6 accept_any_public_key)
          idle
        ≡ (0, connected))
connect_password_dangling_example =
    connect_password_dangling simulated (codes "localhost") 4564 accept_any_public_key idle
      connected (codes "secret") refl

-- A message to all systems, and two descriptors of which one is refused.
abbrev broadcast : Sender
broadcast = set_broadcast (set_data (134 ∷ []) Sender.new)

broadcast-IsSender : IsSender broadcast
unfolding set_broadcast set_data Sender.new
broadcast-IsSender = record { channel = omega arith; receipt = tt; identity = tt }

calls_fit_example :
    SendsFitting simulated linux broadcast idle
    × StartsFitting simulated linux 8 (local_socket ∷ ipv6_socket ∷ []) idle
calls_fit_example =
    calls_fit simulated linux broadcast 8 (local_socket ∷ ipv6_socket ∷ []) idle broadcast-IsSender
      (
        record { port = omega arith; host_address = ground arith },
        (record { port = omega arith; host_address = ground arith }, tt),
      )

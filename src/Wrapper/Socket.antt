-- ===== src/Wrapper/Socket.antt =====
-- The socket descriptors of src/rakpeer.rs, and the fixed array that holds a host address.
pub mod HostAddress
use raknet_sys.Prelude.{
  ℕ, ◌-◌, ◌%◌, ◌^◌, true, Option, none, some, List, ◌++◌, map, Bytes, length, replicate, ltb,
  if◌then◌else◌,
}
use raknet_sys.Prelude.Int.{ℤ, as_i8}
use raknet_sys.Prelude.Outcome.{Outcome, ok, panic, out_of_range, ◌>>=◌, unwrap}
use raknet_sys.Native.Platform.{Platform}
use raknet_sys.Native.Structs

pub data SocketFamily : Type 0 where
  ipv4 ipv6 : SocketFamily

-- `Into<i16> for SocketFamily`; a `short` is its bit pattern.
unfoldable pub into_socket_family : Platform → SocketFamily → ℕ
into_socket_family platform ipv4 = platform.af_inet % 2 ^ 16
into_socket_family platform ipv6 = platform.af_inet6 % 2 ^ 16

-- The host address is the text's UTF-8 bytes.
pub record SocketDescriptor : Type 0 where
  pub port : ℕ
  pub host_address : Bytes
  pub socket_family : SocketFamily

-- `string_to_char_array::<N>`; the slice `array[..bytes.len()]` panics beyond the array.
unfoldable pub string_to_char_array : ℕ → Bytes → Outcome (Option (List ℤ))
string_to_char_array n s =
    if ltb 16 (length s)
    then ok none
    else if ltb n (length s)
    then panic out_of_range
    else ok (some (map as_i8 (s ++ replicate (n - length s) 0)))

-- The closure of `Startup`; `hostAddress` is an array of 32.
unfoldable pub into_socket_descriptor :
    Platform → SocketDescriptor → Outcome Structs.SocketDescriptor
into_socket_descriptor platform x = string_to_char_array 32 x.host_address >>= λ array.
    unwrap array >>= λ host_address. ok (record {
      port = x.port;
      host_address = host_address;
      socket_family = into_socket_family platform x.socket_family;
      remote_port_raknet_was_started_on_ps3_psp2 = 0;
      chrome_instance = 0;
      blocking_socket = true;
      extra_socket_options = 0;
    })

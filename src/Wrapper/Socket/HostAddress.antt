-- ===== src/Wrapper/Socket/HostAddress.antt =====
-- What the C side reads in the `hostAddress` array that src/rakpeer.rs fills.
use raknet_sys.Prelude.{
  ℕ, suc, ◌-◌, ◌≤◌, ◌<◌, ◌≡◌, ◌↔◌, refl, true, Option, none, some, List, [], ◌∷◌, ◌++◌, map, Bytes,
  All, length, length-append, length-replicate, length-map, replicate, ltb, arith, if◌then◌else◌,
}
use raknet_sys.Prelude.Int.{ℤ, pos, as_i8, as_u8, as_u8-as_i8, ◌==ℤ◌}
use raknet_sys.Prelude.Outcome.{ok, panic, unwrap_none}
use raknet_sys.Native.Platform.{Platform}
use raknet_sys.Native.Structs
use raknet_sys.Wrapper.Socket.{
  SocketDescriptor, string_to_char_array, into_socket_descriptor, into_socket_family,
}

-- A C string in an array of `char`: the bytes up to the first zero; `none` without one.
pub c_string : List ℤ → Option Bytes
c_string [] = none
c_string (x ∷ xs) =
    let rest = c_string xs in
    if x ==ℤ pos 0 then some [] else elim rest [ none ↦ none | some bytes ↦ some (as_u8 x ∷ bytes) ]

-- A byte of a text that can stand in a C string.
abbrev pub IsTextByte : ℕ → Type 0
IsTextByte b = (0 < b) × (b < 256)

c_string-padded :
    (s : Bytes) (k : ℕ)
    → All IsTextByte s
    → c_string (map as_i8 (s ++ replicate (suc k) 0)) ≡ some s
unfolding c_string
c_string-padded [] k h = refl
c_string-padded (b ∷ s) k h = ground (arith, c_string-padded s k h.1, as_u8-as_i8 b)

abbrev pub padded : ℕ → Bytes → List ℤ
padded n s = map as_i8 (s ++ replicate (n - length s) 0)

pub length-padded : (n : ℕ) (s : Bytes) → length s ≤ n → length (padded n s) ≡ n
length-padded n s room =
    rw
      (
        length-map as_i8 (s ++ replicate (n - length s) 0),
        length-append s (replicate (n - length s) 0),
        length-replicate {A = ℕ} (n - length s) 0,
      )
      (omega arith)

c_string_of_padded :
    (n : ℕ) (s : Bytes) → length s < n → All IsTextByte s → c_string (padded n s) ≡ some s
c_string_of_padded n s room text =
    let k : ℕ = n - length s - 1 in
    let e : n - length s ≡ suc k = omega arith in rw e (c_string-padded s k text)

-- A longer one is refused, whatever the array's size: also where it would fit.
pub string_to_char_array_long :
    (n : ℕ) (s : Bytes) → (string_to_char_array n s ≡ ok none) ↔ (16 < length s)
unfolding string_to_char_array
string_to_char_array_long n s = ground arith

abbrev pub native_descriptor : Platform → SocketDescriptor → Structs.SocketDescriptor
native_descriptor p x = record {
  port = x.port;
  host_address = padded 32 x.host_address;
  socket_family = into_socket_family p x.socket_family;
  remote_port_raknet_was_started_on_ps3_psp2 = 0;
  chrome_instance = 0;
  blocking_socket = true;
  extra_socket_options = 0;
}

pub into_socket_descriptor_cases :
    (p : Platform) (x : SocketDescriptor)
    → into_socket_descriptor p x
      ≡ (if ltb 16 (length x.host_address) then panic unwrap_none else ok (native_descriptor p x))
unfolding into_socket_descriptor string_to_char_array
into_socket_descriptor_cases p x = ground arith

-- A descriptor panics exactly if its host address is longer than 16 bytes, although the array that
-- takes the address has 32.
pub into_socket_descriptor_panics :
    (p : Platform) (x : SocketDescriptor)
    → (into_socket_descriptor p x ≡ panic unwrap_none) ↔ (16 < length x.host_address)
into_socket_descriptor_panics p x = ground (arith, into_socket_descriptor_cases p x)

-- A descriptor whose host address has at most 16 bytes, none of them zero, is converted: the C side
-- finds the same port, the number of the family, and an array of 32 in which it reads the address.
pub into_socket_descriptor_lem :
    (p : Platform) (x : SocketDescriptor)
    → length x.host_address ≤ 16
    → All IsTextByte x.host_address
    → (d : Structs.SocketDescriptor) × (into_socket_descriptor p x ≡ ok d)
      × (d.port ≡ x.port)
      × (d.socket_family ≡ into_socket_family p x.socket_family)
      × (length d.host_address ≡ 32)
      × (c_string d.host_address ≡ some x.host_address)
into_socket_descriptor_lem p x short text = (
  native_descriptor p x,
  ground (arith, into_socket_descriptor_cases p x),
  refl,
  refl,
  length-padded 32 x.host_address (omega arith),
  c_string_of_padded 32 x.host_address (omega arith) text,
)

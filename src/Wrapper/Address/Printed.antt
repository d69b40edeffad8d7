-- ===== src/Wrapper/Address/Printed.antt =====
-- `ToString for SystemAddress` and `ToString for AddressOrGuid` of src/rakpeer.rs, with what `Display`
-- prints for socket addresses.
pub mod Read
use raknet_sys.Prelude.{
  ℕ, zero, suc, ◌+◌, ◌*◌, ◌/◌, ◌%◌, ◌^◌, ◌<◌, ◌≡◌, ◌∙◌, ap, refl, List, [], ◌∷◌, ◌++◌, Bytes,
  Option, none, some, drop, take, ltb, ◌==◌, arith, if◌then◌else◌,
}
use raknet_sys.Prelude.Texts.{codes}
use raknet_sys.Wrapper.Address.{
  Ipv4Addr, SocketAddr, v4, v6, SystemAddress, AddressOrGuid, address, guid, bytes_eq,
}
use raknet_sys.Wrapper.Address.Text.{guid_to_string}
use raknet_sys.Wrapper.Text.Numbers.{
  decimal, lower_hex_from, numbers_from, numbers-decimal, numbers-decimal_end,
}

abbrev pub dotted : Ipv4Addr → Bytes
dotted ip = decimal ip.a ++ 46 ∷ (decimal ip.b ++ 46 ∷ (decimal ip.c ++ 46 ∷ decimal ip.d))

-- The 16-bit segments of the octets of an IPv6 address.
abbrev segments_of : Bytes → List ℕ
segments_of [] = []
segments_of (x ∷ []) = []
segments_of (x ∷ y ∷ octets) = (x * 256 + y) ∷ segments_of octets

record Span : Type 0 where
  start : ℕ
  len : ℕ

abbrev no_span : Span
no_span = record { start = 0; len = 0 }

abbrev grow : ℕ → Span → Span
grow i current = record {
  start = if current.len == 0 then i else current.start;
  len = suc current.len;
}

abbrev longer : Span → Span → Span
longer longest current = if ltb longest.len current.len then current else longest

-- The first of the longest runs of zero segments, from the i-th segment on.
abbrev longest_from : ℕ → Span → Span → List ℕ → Span
longest_from i longest current [] = longest
longest_from i longest current (segment ∷ segments) =
    let grown = grow i current in
    let with_zero = longest_from (suc i) (longer longest grown) grown segments in
    let without = longest_from (suc i) longest no_span segments in
    if segment == 0 then with_zero else without

abbrev joined : List ℕ → Bytes
joined [] = []
joined (s ∷ []) = lower_hex_from 4 s
joined (s ∷ t ∷ segments) = lower_hex_from 4 s ++ 58 ∷ joined (t ∷ segments)

abbrev compressed : List ℕ → Span → Bytes
compressed segments zeroes =
    if ltb 1 zeroes.len
    then joined (take zeroes.start segments)
      ++ 58 ∷ 58 ∷ joined (drop (zeroes.start + zeroes.len) segments)
    else joined segments

-- `Ipv6Addr::to_ipv4_mapped`, of the last two segments.
abbrev mapped : List ℕ → Option Ipv4Addr
mapped (x ∷ y ∷ []) = some (record { a = x / 256; b = x % 256; c = y / 256; d = y % 256 })
mapped _ = none

abbrev to_ipv4_mapped : List ℕ → Option Ipv4Addr
to_ipv4_mapped segments =
    if bytes_eq (take 6 segments) (0 ∷ 0 ∷ 0 ∷ 0 ∷ 0 ∷ 0xFFFF ∷ [])
    then mapped (drop 6 segments)
    else none

abbrev mapped_or_compressed : List ℕ → Option Ipv4Addr → Bytes
mapped_or_compressed segments (some ip) = codes "::ffff:" ++ dotted ip
mapped_or_compressed segments none = compressed segments (longest_from 0 no_span no_span segments)

-- An address that holds an IPv4 one is printed with that, every other with its longest run of zeroes
-- left out.
unfoldable pub ipv6_to_string : List ℕ → Bytes
ipv6_to_string segments = mapped_or_compressed segments (to_ipv4_mapped segments)

unfoldable pub socket_addr_to_string : SocketAddr → Bytes
socket_addr_to_string (v4 ip port) = dotted ip ++ 58 ∷ decimal port
socket_addr_to_string (v6 octets port) =
    91 ∷ ipv6_to_string (segments_of octets) ++ codes "]:" ++ decimal port

unfoldable pub system_address_to_string : SystemAddress → Bytes
system_address_to_string self = socket_addr_to_string self.sockaddr

unfoldable pub address_or_guid_to_string : AddressOrGuid → Bytes
address_or_guid_to_string (address a) = system_address_to_string a
address_or_guid_to_string (guid g) = guid_to_string g

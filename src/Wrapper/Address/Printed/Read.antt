-- ===== src/Wrapper/Address/Printed/Read.antt =====
-- What the text of an address tells: the texts of src/rakpeer.rs read back.
use raknet_sys.Prelude.{
  ℕ, ◌<◌, ◌^◌, ◌≡◌, refl, ap, ◌∙◌, false, [], ◌∷◌, ◌++◌, Bytes, append_assoc, arith,
}
use raknet_sys.Wrapper.Address.{Ipv4Addr, SystemAddress, address}
use raknet_sys.Wrapper.Address.RoundTrip.{IsIpv4, IsNative}
use raknet_sys.Wrapper.Address.Printed.{
  dotted, socket_addr_to_string, system_address_to_string, address_or_guid_to_string,
}
use raknet_sys.Wrapper.Text.Numbers.{
  is_digit, decimal, numbers_from, numbers-decimal, numbers-decimal_end,
}

numbers-next :
    (n c : ℕ) (rest tail : Bytes)
    → n < 2 ^ 64
    → is_digit c ≡ false
    → numbers_from 0 ((decimal n ++ c ∷ rest) ++ tail) ≡ n ∷ numbers_from 0 (rest ++ tail)
numbers-next n c rest tail h other =
    ap (numbers_from 0) (append_assoc (decimal n) (c ∷ rest) tail)
    ∙ numbers-decimal n c (rest ++ tail) h other

numbers-dotted :
    (ip : Ipv4Addr) (port : ℕ)
    → IsIpv4 ip
    → port < 2 ^ 16
    → numbers_from 0 (dotted ip ++ 58 ∷ decimal port) ≡ ip.a ∷ ip.b ∷ ip.c ∷ ip.d ∷ port ∷ []
numbers-dotted ip port h k =
    let tail = 58 ∷ decimal port in
    let third = decimal ip.c ++ 46 ∷ decimal ip.d in
    let second = decimal ip.b ++ 46 ∷ third in
    numbers-next ip.a 46 second tail (ground (arith, h)) refl
    ∙ ap (◌∷◌ ip.a) (
        numbers-next ip.b 46 third tail (ground (arith, h)) refl
        ∙ ap (◌∷◌ ip.b) (
            numbers-next ip.c 46 (decimal ip.d) tail (ground (arith, h)) refl
            ∙ ap (◌∷◌ ip.c) (
                numbers-decimal ip.d 58 (decimal port) (ground (arith, h)) refl
                ∙ ap (◌∷◌ ip.d) (numbers-decimal_end port (omega arith)))))

-- The numbers between the other characters of the text of an IPv4 address, whose octets and port fit
-- their widths, are its octets and its port, in that order.
pub address_to_string_lem :
    (self : SystemAddress) (ip : Ipv4Addr) (port : ℕ)
    → IsNative self ip port
    → numbers_from 0 (address_or_guid_to_string (address self))
      ≡ ip.a ∷ ip.b ∷ ip.c ∷ ip.d ∷ port ∷ []
unfolding address_or_guid_to_string system_address_to_string socket_addr_to_string
address_to_string_lem self ip port h = rw h.v4_address (numbers-dotted ip port h.octets h.port_word)

-- ===== src/Wrapper/Sender/Send.antt =====
-- How `Sender::send` of src/rakpeer.rs ends, and what the library is called with.
use raknet_sys.Prelude.{
  ℕ, ◌≡◌, ◌≢◌, ◌↔◌, ◌⊎◌, ◌%◌, ◌^◌, refl, inl, inr, Bool, true, Option, none, some, Bytes, length,
  arith, ◌==◌, if◌then◌else◌, replicate,
}
use raknet_sys.Prelude.Int.{as_i32}
use raknet_sys.Prelude.Outcome.{
  ok, panic, undefined, Undefined, no_data, no_target, not_implemented,
}
use raknet_sys.Native.Pointer.{to}
use raknet_sys.Native.Platform.{Platform, to_be16, to_be32}
use raknet_sys.Native.Constants.{u64_max, system_index_max}
use raknet_sys.Native.Structs
use raknet_sys.Peer.Interface.{RakNet, SendArgs}
use raknet_sys.Peer.Shim.{rak_peer_send_data}
use raknet_sys.Wrapper.Codes.{into_packet_priority, into_packet_reliability}
use raknet_sys.Wrapper.Address.{
  SocketAddr, v4, v6, SystemIndex, AddressOrGuid, address, guid, unassigned_address_or_guid,
  into_address_or_guid, into_system_address, unassigned_system_address, unassigned_guid, into_guid,
  into_system_index, to_bits,
}
use raknet_sys.Wrapper.Sender.{
  SendTarget, Sender, new, set_data, set_broadcast, send, split_target, or_zero,
}

-- What the library is called with for a sender, its bytes and its converted identity.
abbrev pub send_args : Sender → Bytes → Structs.AddressOrGuid → Bool → SendArgs
send_args self bytes identifier broadcast = record {
  bytes = to bytes;
  length = as_i32 (length bytes);
  priority = into_packet_priority self.priority;
  reliability = into_packet_reliability self.reliability;
  ordering_channel = self.ordering_channel;
  system_identifier = identifier;
  broadcast = broadcast;
  force_receipt_number = or_zero self.force_receipt_number;
}

abbrev pub IsIpv6 : AddressOrGuid → Type 0
IsIpv6 (address a) = (octets : Bytes) × (port : ℕ) × (a.sockaddr ≡ v6 octets port)
IsIpv6 (guid g) = ⊥

abbrev Converts : Platform → AddressOrGuid → Type 0
Converts p x =
    ((n : Structs.AddressOrGuid) × (into_address_or_guid p x ≡ ok n))
    ⊎ ((into_address_or_guid p x ≡ panic not_implemented) × IsIpv6 x)

address-Converts :
    (p : Platform) (sockaddr : SocketAddr) (port : ℕ) (index : SystemIndex)
    → Converts p (address (record { sockaddr = sockaddr; debug_port = port; system_index = index }))
unfolding into_address_or_guid into_system_address
address-Converts p (v4 ip port) d i = inl (_, refl)
address-Converts p (v6 octets port) d i = inr (refl, (octets, port, refl))

-- A conversion of an identity returns, or it panics on an IPv6 address.
pub into_address_or_guid-Converts : (p : Platform) (x : AddressOrGuid) → Converts p x
unfolding into_address_or_guid into_system_address unassigned_system_address
into_address_or_guid-Converts p (guid g) = inl (_, refl)
into_address_or_guid-Converts p (address a) =
    address-Converts p a.sockaddr a.debug_port a.system_index

-- It panics so on every IPv6 address.
pub IsIpv6-panics :
    (p : Platform) (x : AddressOrGuid) → IsIpv6 x → into_address_or_guid p x ≡ panic not_implemented
unfolding into_address_or_guid into_system_address
IsIpv6-panics p (guid g) h = absurd h
IsIpv6-panics p (address a) (octets, port, e) = rw e

-- The target of a message is an IPv6 address.
abbrev HasIpv6 : Option SendTarget → Type 0
HasIpv6 none = ⊥
HasIpv6 (some target) = IsIpv6 (split_target target).0

module _ (lib : RakNet) (p : Platform) (self : Sender) (s : lib.Peer) where
  abbrev SendPanics : Type 0
  SendPanics =
      ((send lib p self s ≡ panic no_data) ↔ (self.bytes ≡ none))
      × ((send lib p self s ≡ panic no_target) ↔ ((self.bytes ≢ none) × (self.target ≡ none)))
      × ((send lib p self s ≡ panic not_implemented) ↔ ((self.bytes ≢ none) × HasIpv6 self.target))
      × ((u : Undefined) → send lib p self s ≢ undefined u)

  send_panics_at :
      (bytes : Option Bytes) (target : Option SendTarget)
      → self.bytes ≡ bytes
      → self.target ≡ target
      → SendPanics
  unfolding send rak_peer_send_data
  send_panics_at none target eb et = ground arith
  send_panics_at (some bytes) none eb et = ground arith
  send_panics_at (some bytes) (some target) eb et = ground (
    arith,
    into_address_or_guid-Converts p (split_target target).0,
    IsIpv6-panics p (split_target target).0,
  )

  -- A message without bytes panics, then one without a target, then one to an IPv6 address, each
  -- with its own panic and in no other case; and none has undefined behaviour.
  pub send_panics :
      ((send lib p self s ≡ panic no_data) ↔ (self.bytes ≡ none))
      × ((send lib p self s ≡ panic no_target) ↔ ((self.bytes ≢ none) × (self.target ≡ none)))
      × ((send lib p self s ≡ panic not_implemented) ↔ ((self.bytes ≢ none) × HasIpv6 self.target))
      × ((u : Undefined) → send lib p self s ≢ undefined u)
  send_panics = send_panics_at self.bytes self.target refl refl

  -- With bytes, and a target that is converted into an identity, the library is called once with
  -- these, and with the broadcast flag of the target. Its answer 0 is the error, and every other
  -- answer is the result.
  pub send-answer :
      (bytes : Bytes) (target : SendTarget) (n : Structs.AddressOrGuid) (t : lib.Peer)
      → self.bytes ≡ some bytes
      → self.target ≡ some target
      → into_address_or_guid p (split_target target).0 ≡ ok n
      → ((send lib p self s ≡ ok (none, t))
          ↔ (lib.send (send_args self bytes n (split_target target).1) s ≡ (0, t)))
        × ((receipt : ℕ)
            → (send lib p self s ≡ ok (some receipt, t)) ↔ (
                (lib.send (send_args self bytes n (split_target target).1) s ≡ (receipt, t))
                × (receipt ≢ 0)))
  unfolding send rak_peer_send_data
  send-answer bytes target n t eb et en = rw (eb, et, en) (ground arith, λ receipt. ground arith)

-- The identity that the C side gets for the unassigned one.
abbrev pub unassigned_identifier : Platform → Structs.AddressOrGuid
unassigned_identifier p = record {
  rak_net_guid = record { g = u64_max; system_index = system_index_max };
  system_address = record {
    sin_family = p.af_inet % 2 ^ 16;
    sin_port = 0;
    s_addr = 0;
    sin_zero = replicate 8 0;
    debug_port = 0;
    system_index = system_index_max;
  };
}

pub into_address_or_guid-unassigned :
    (p : Platform)
    → into_address_or_guid p unassigned_address_or_guid ≡ ok (unassigned_identifier p)
unfolding into_address_or_guid unassigned_address_or_guid into_system_address unassigned_guid
    into_guid into_system_index to_be16 to_be32 to_bits
into_address_or_guid-unassigned p = ground arith

-- What the library is called with for a message to all systems, with the other settings as `new` has
-- them.
abbrev pub broadcast_args : Platform → Bytes → SendArgs
broadcast_args p bytes =
    send_args (set_broadcast (set_data bytes new)) bytes (unassigned_identifier p) true

-- A message to all systems is handed to the library in one call.
pub send-broadcast :
    (lib : RakNet) (p : Platform) (bytes : Bytes) (s : lib.Peer)
    → send lib p (set_broadcast (set_data bytes new)) s
      ≡ ok (
        if (lib.send (broadcast_args p bytes) s).0 == 0
            then none
            else some (lib.send (broadcast_args p bytes) s).0,
        (lib.send (broadcast_args p bytes) s).1,
      )
unfolding send rak_peer_send_data set_broadcast set_data
send-broadcast lib p bytes s = rw (into_address_or_guid-unassigned p)

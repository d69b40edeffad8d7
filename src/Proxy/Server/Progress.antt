-- ===== src/Proxy/Server/Progress.antt =====
-- A whole call of `RakNetProxy::serve` of examples/proxy.rs: what the packets that wait have to be for
-- the call to come to its end.
pub mod Readiness
pub mod Packets
pub mod Whole
pub mod Aligned
pub mod Resting
pub mod Forever
use raknet_sys.Prelude.{
  ℕ, ◌≡◌, ◌≢◌, Bool, true, false, ◌||◌, none, some, List, [], ◌∷◌, if◌then◌else◌,
}
use raknet_sys.Wrapper.Address.{RakNetGuid, guid_eq, is_unassigned_guid, Ipv4Addr, v4}
use raknet_sys.Wrapper.Packet.{Packet}
use raknet_sys.Peer.Interface.{RakNet}
use raknet_sys.Proxy.Server.{RakNetProxy, get}
use raknet_sys.Proxy.Server.Ledger.{opens}

-- A packet that the server can handle: its sender has a GUID and an IPv4 address, and it has a byte.
pub record IsProper (packet : Packet) : Type 0 where
  pub assigned : is_unassigned_guid packet.guid ≡ false
  pub not_empty : packet.bytes ≢ []
  pub ip : Ipv4Addr
  pub port : ℕ
  pub over_ipv4 : packet.system_address.sockaddr ≡ v4 ip port

-- The clients that are known after a packet, and after several.
abbrev pub learn : (RakNetGuid → Bool) → Packet → RakNetGuid → Bool
learn known packet = if opens packet then (λ k. guid_eq packet.guid k || known k) else known

abbrev pub learned : (RakNetGuid → Bool) → List Packet → RakNetGuid → Bool
learned known [] = known
learned known (packet ∷ packets) = learned (learn known packet) packets

-- Each packet is proper, and each that is not itself the notification of a new connection comes from
-- a client that is known by then.
abbrev pub Expected : (RakNetGuid → Bool) → List Packet → Type 0
Expected known [] = Unit
Expected known (packet ∷ packets) =
    IsProper packet
    × (if opens packet
        then Expected (λ k. guid_eq packet.guid k || known k) packets
        else (known packet.guid ≡ true) × Expected known packets)

-- The clients that have a connection.
abbrev pub has_connection : {lib : RakNet} → RakNetProxy lib → RakNetGuid → Bool
has_connection self k = elim (get k self.connections) [ none ↦ false | some c ↦ true ]

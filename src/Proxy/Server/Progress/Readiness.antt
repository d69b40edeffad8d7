-- ===== src/Proxy/Server/Progress/Readiness.antt =====
-- The connections of examples/proxy.rs whose waiting packets can be handed on, through the changes of
-- the map.
use raknet_sys.Prelude.{ℕ, ◌<◌, ◌≡◌, inl, inr, some, [], ◌∷◌, arith, Bool-cases}
use raknet_sys.Prelude.Outcome.{ok, traverse}
use raknet_sys.Native.Platform.{Platform}
use raknet_sys.Peer.Interface.{RakNet}
use raknet_sys.Wrapper.Address.{
  RakNetGuid, guid_eq, SystemAddress, Ipv4Addr, v4, address, into_address_or_guid,
}
use raknet_sys.Native.Structs
use raknet_sys.Wrapper.Sender.Send.{into_address_or_guid-Converts}
use raknet_sys.Wrapper.Sender.Contract.{Sending}
use raknet_sys.Wrapper.Receive.Contract.{Queueing}
use raknet_sys.Proxy.Connection.{ProxyConnection}
use raknet_sys.Proxy.Server.{Connections, get, insert}
use raknet_sys.Proxy.Server.Round.{Ready, AllReady}

pub address-converts :
    (p : Platform) (a : SystemAddress) (ip : Ipv4Addr) (port : ℕ)
    → a.sockaddr ≡ v4 ip port
    → (n : Structs.AddressOrGuid) × (into_address_or_guid p (address a) ≡ ok n)
address-converts p a ip port e = elim (into_address_or_guid-Converts p (address a)) [
  | inl converted ↦ converted
  | inr (_, (octets, port', e')) ↦ absurd (ground (arith, e, e'))
]

module _ (lib : RakNet) (p : Platform) (q : Queueing lib) (sending : Sending lib) (fuel : ℕ) where
  open lib use {Peer}
  open q use {waiting}

  abbrev pub CanServe : ProxyConnection lib → Type 0
  CanServe = Ready lib p q sending fuel

  abbrev pub Served : Connections lib → Type 0
  Served = AllReady lib p q sending fuel

  pub insert-Ready :
      (k : RakNetGuid) (c : ProxyConnection lib) (m : Connections lib)
      → CanServe c
      → Served m
      → Served (insert k c m)
  unfolding insert
  insert-Ready k c [] r rs = (r, tt)
  insert-Ready k c ((j, d) ∷ m) r (first, rs) = elim (Bool-cases (guid_eq j k)) [
    | inl same ↦ rw same (r, rs)
    | inr differ ↦ rw differ (first, insert-Ready k c m r rs)
  ]

  pub get-Ready :
      (k : RakNetGuid) (c : ProxyConnection lib) (m : Connections lib)
      → Served m
      → get k m ≡ some c
      → CanServe c
  unfolding get
  get-Ready k c [] rs e = cc
  get-Ready k c ((j, d) ∷ m) (first, rs) e = elim (Bool-cases (guid_eq j k)) [
    | inl same ↦ let found : c ≡ d = ground (arith, e, same) in rw found first
    | inr differ ↦ get-Ready k c m rs (ground (arith, e, differ))
  ]

  -- The packets that wait and the client's address are all that it depends on.
  pub Ready-kept :
      (c d : ProxyConnection lib)
      → waiting d.client ≡ waiting c.client
      → d.system_address ≡ c.system_address
      → CanServe c
      → CanServe d
  Ready-kept c d w a r = record {
    packets = r.packets;
    converted = rw w (r.converted);
    not_empty = r.not_empty;
    enough = rw w (r.enough);
    identity = r.identity;
    identified = rw a (r.identified);
  }

  pub fresh-Ready :
      (c : ProxyConnection lib) (n : Structs.AddressOrGuid)
      → 0 < fuel
      → waiting c.client ≡ []
      → into_address_or_guid p (address c.system_address) ≡ ok n
      → CanServe c
  unfolding traverse
  fresh-Ready c n some_fuel w e = record {
    packets = [];
    converted = rw w;
    not_empty = tt;
    enough = rw w some_fuel;
    identity = n;
    identified = e;
  }

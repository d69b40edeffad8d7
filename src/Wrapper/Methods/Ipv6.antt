-- ===== src/Wrapper/Methods/Ipv6.antt =====
-- The methods of src/rakpeer.rs that take an address or an identity, on IPv6 addresses.
use raknet_sys.Prelude.{◌≡◌, ◌≢◌, ◌↔◌, ◌⊎◌, inl, inr, refl, ℕ, Bytes, Bool, arith}
use raknet_sys.Prelude.Int.{ℤ}
use raknet_sys.Prelude.Outcome.{
  Undefined, Outcome, ok, panic, not_implemented, undefined, out_of_fuel,
}
use raknet_sys.Prelude.State.{M, ◌>>=◌, continue, lift, returned}
use raknet_sys.Native.Pointer.{to}
use raknet_sys.Native.Platform.{Platform}
use raknet_sys.Native.Structs
use raknet_sys.Peer.Interface.{RakNet, MissingFunctions}
use raknet_sys.Peer.Shim.{
  rak_peer_ping, rak_peer_get_average_ping, rak_peer_get_last_ping, rak_peer_close_connection,
  rak_peer_get_statistics_address, rak_peer_get_guid_from_system_address, rak_peer_set_timeout_time,
  rak_peer_get_internal_id,
}
use raknet_sys.Wrapper.Address.{
  SystemAddress, SocketAddr, v4, v6, SystemIndex, into_system_address, from_system_address,
  AddressOrGuid, address, into_address_or_guid,
}
use raknet_sys.Wrapper.Address.Unassigned.{into_ipv6_panics}
use raknet_sys.Wrapper.Duration.{Duration}
use raknet_sys.Wrapper.Sender.Send.{IsIpv6, into_address_or_guid-Converts, IsIpv6-panics}
use raknet_sys.Wrapper.Methods.{
  set_timeout_time, get_internal_id, get_guid_from_system_address, get_statistics, get_average_ping,
  close_connection, ping, get_last_ping, get_external_id,
}

refused_is_ipv6 :
    (p : Platform) (sockaddr : SocketAddr) (port : ℕ) (index : SystemIndex)
    → into_system_address p
        (record { sockaddr = sockaddr; debug_port = port; system_index = index })
      ≡ panic not_implemented
    → (octets : Bytes) × (port' : ℕ) × (sockaddr ≡ v6 octets port')
unfolding into_system_address
refused_is_ipv6 p (v4 ip port) d i h = absurd (ground (arith, h))
refused_is_ipv6 p (v6 octets port) d i h = (octets, port, refl)

-- The address alone is refused exactly when it is an IPv6 one.
into_system_address_refuses :
    (p : Platform) (a : SystemAddress)
    → (into_system_address p a ≡ panic not_implemented) ↔ IsIpv6 (address a)
into_system_address_refuses p a = (
  λ h. refused_is_ipv6 p a.sockaddr a.debug_port a.system_index h,
  λ (octets, port, e). (into_ipv6_panics p octets port a e).0,
)

into_address_or_guid_refuses :
    (p : Platform) (x : AddressOrGuid)
    → (into_address_or_guid p x ≡ panic not_implemented) ↔ IsIpv6 x
into_address_or_guid_refuses p x =
    let converts = into_address_or_guid-Converts p x in
    let panics = IsIpv6-panics p x in
    (
      λ h. elim converts [ inl (n, e) ↦ absurd (ground (arith, h, e)) | inr (e, ipv6) ↦ ipv6 ],
      panics,
    )

-- What the library returns is not refused in this way.
from_system_address-accepts :
    (p : Platform) (n : Structs.SystemAddress) → from_system_address p n ≢ panic not_implemented
unfolding from_system_address
from_system_address-accepts p n = ground arith

module _ (lib : RakNet) (p : Platform) (s : lib.Peer) where
  module _ {A : Type 0} where
    lift-refuses :
        {N : Type 0} (r : Outcome N) (method : N → M lib.Peer A)
        → ((n : N) → method n s ≢ panic not_implemented)
        → ((lift r >>= method) s ≡ panic not_implemented) ↔ (r ≡ panic not_implemented)
    lift-refuses (ok n) method accepts = (λ h. absurd (accepts n h), λ h. cc)
    lift-refuses (panic e) method accepts = ground arith
    lift-refuses (undefined u) method accepts = (λ h. cc, λ h. cc)
    lift-refuses out_of_fuel method accepts = (λ h. cc, λ h. cc)

    -- A method that converts an address first, and does not panic so afterwards.
    address_first :
        (a : SystemAddress) (method : Structs.SystemAddress → M lib.Peer A)
        → ((n : Structs.SystemAddress) → method n s ≢ panic not_implemented)
        → ((lift (into_system_address p a) >>= method) s ≡ panic not_implemented)
          ↔ IsIpv6 (address a)
    address_first a method accepts =
        let (to_panic, from_panic) = lift-refuses (into_system_address p a) method accepts in
        (
          λ h. (into_system_address_refuses p a).0 (to_panic h),
          λ ipv6. from_panic ((into_system_address_refuses p a).1 ipv6),
        )

    identity_first :
        (x : AddressOrGuid) (method : Structs.AddressOrGuid → M lib.Peer A)
        → ((n : Structs.AddressOrGuid) → method n s ≢ panic not_implemented)
        → ((lift (into_address_or_guid p x) >>= method) s ≡ panic not_implemented) ↔ IsIpv6 x
    identity_first x method accepts =
        let (to_panic, from_panic) = lift-refuses (into_address_or_guid p x) method accepts in
        (
          λ h. (into_address_or_guid_refuses p x).0 (to_panic h),
          λ ipv6. from_panic (IsIpv6-panics p x ipv6),
        )

  internal_id-accepts :
      (n : Structs.SystemAddress) (index : ℤ)
      → (rak_peer_get_internal_id lib (to n) index >>= λ id. lift (from_system_address p id)) s
        ≢ panic not_implemented
  unfolding rak_peer_get_internal_id
  internal_id-accepts n index = accepts (lib.get_internal_id n index s)
    where
      accepts :
          (r : Undefined ⊎ (Structs.SystemAddress × lib.Peer))
          → continue (returned r) (λ id. lift (from_system_address p id)) ≢ panic not_implemented
      accepts (inl u) h = cc
      accepts (inr (id, t)) h = ground (arith, h, from_system_address-accepts p id)

  -- The nine methods that take an address or an identity (`Ping`, `SetTimeoutTime`,
  -- `GetGuidFromSystemAddress`, `GetStatistics`, `GetInternalID`, `GetExternalID`,
  -- `GetAveragePing`, `GetLastPing`, `CloseConnection`) panic as not implemented exactly on an IPv6
  -- address, in every state and whatever the library does; on a GUID the last three never do.
  pub methods_refuse-IsIpv6 :
      (missing : MissingFunctions lib) (a : SystemAddress) (x : AddressOrGuid) (d : Duration)
      (index : ℤ) (flag : Bool)
      → ((ping lib p a s ≡ panic not_implemented) ↔ IsIpv6 (address a))
        × ((set_timeout_time lib p d a s ≡ panic not_implemented) ↔ IsIpv6 (address a))
        × ((get_guid_from_system_address lib p a s ≡ panic not_implemented) ↔ IsIpv6 (address a))
        × ((get_statistics lib p a s ≡ panic not_implemented) ↔ IsIpv6 (address a))
        × ((get_internal_id lib p a index s ≡ panic not_implemented) ↔ IsIpv6 (address a))
        × ((get_external_id lib missing p a s ≡ panic not_implemented) ↔ IsIpv6 (address a))
        × ((get_average_ping lib p x s ≡ panic not_implemented) ↔ IsIpv6 x)
        × ((get_last_ping lib p x s ≡ panic not_implemented) ↔ IsIpv6 x)
        × ((close_connection lib p x flag s ≡ panic not_implemented) ↔ IsIpv6 x)
  unfolding ping set_timeout_time get_guid_from_system_address get_statistics get_average_ping
      get_last_ping close_connection get_internal_id get_external_id rak_peer_ping
      rak_peer_get_average_ping rak_peer_get_last_ping rak_peer_close_connection
      rak_peer_get_statistics_address rak_peer_get_guid_from_system_address
      rak_peer_set_timeout_time
  methods_refuse-IsIpv6 missing a x d index flag = (
    address_first a _ (λ n h. ground (arith, h)),
    address_first a _ (λ n h. ground (arith, h)),
    address_first a _ (λ n h. ground (arith, h)),
    address_first a _ (λ n h. ground (arith, h)),
    address_first a _ (λ n. internal_id-accepts n index),
    address_first a _ (λ n h.
        ground (arith, h, from_system_address-accepts p (missing.get_external_id (to n) s).0)),
    identity_first x _ (λ n h. ground (arith, h)),
    identity_first x _ (λ n h. ground (arith, h)),
    identity_first x _ (λ n h. ground (arith, h)),
  )

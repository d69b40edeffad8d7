-- ===== src/Wrapper/Methods/Settings.antt =====
-- What the methods of src/rakpeer.rs make of a duration, and of the library's marks for "none".
use raknet_sys.Prelude.{ℕ, ◌*◌, ◌^◌, ◌<◌, ◌≡◌, ◌≢◌, ◌↔◌, none, some, Bytes, refl, arith}
use raknet_sys.Prelude.Int.{ℤ, negsuc}
use raknet_sys.Prelude.Outcome.{ok}
use raknet_sys.Native.Platform.{Platform}
use raknet_sys.Native.Structs
use raknet_sys.Peer.Interface.{RakNet, MissingFunctions}
use raknet_sys.Peer.Shim.{
  rak_peer_get_last_ping, rak_peer_set_timeout_time, rak_peer_set_unreliable_timeout,
  rak_peer_shutdown,
}
use raknet_sys.Wrapper.Address.{
  AddressOrGuid, into_address_or_guid, SystemAddress, into_system_address,
}
use raknet_sys.Wrapper.Duration.{Duration, as_millis, time_ms, time_ms_exact}
use raknet_sys.Wrapper.Codes.{low, into_packet_priority}
use raknet_sys.Wrapper.Methods.{
  add_to_ban_list, get_last_ping, set_timeout_time, set_unreliable_timeout, shutdown,
}

time_ms-wraps : (d : Duration) (k : ℕ) → as_millis d ≡ 2 ^ 32 * k → time_ms d ≡ 0
unfolding time_ms
time_ms-wraps d k h = omega arith

time_ms-small : (d : Duration) → as_millis d < 2 ^ 32 → time_ms d ≡ as_millis d
time_ms-small d h = (time_ms_exact d).1.1 h

-- A ban for a duration of a multiple of 2 ^ 32 milliseconds, one of less than a millisecond among
-- them, is the ban with no end.
pub add_to_ban_list_permanent :
    (lib : RakNet) (missing : MissingFunctions lib) (ip : Bytes) (d : Duration) (k : ℕ)
    (s : lib.Peer)
    → as_millis d ≡ 2 ^ 32 * k
    → add_to_ban_list lib missing ip (some d) s ≡ add_to_ban_list lib missing ip none s
unfolding add_to_ban_list
add_to_ban_list_permanent lib missing ip d k s h = rw (time_ms-wraps d k h)

module _ (lib : RakNet) (p : Platform) (s t : lib.Peer) where
  -- For an identity that is converted, there is no last ping exactly if the library answers -1,
  -- and any other answer is the ping.
  get_last_ping_lem :
      (x : AddressOrGuid) (n : Structs.AddressOrGuid)
      → into_address_or_guid p x ≡ ok n
      → ((get_last_ping lib p x s ≡ ok (none, t)) ↔ (lib.get_last_ping n s ≡ (negsuc 0, t)))
        × ((res : ℤ)
            → (get_last_ping lib p x s ≡ ok (some res, t))
              ↔ ((lib.get_last_ping n s ≡ (res, t)) × (res ≢ negsuc 0)))
  unfolding get_last_ping rak_peer_get_last_ping
  get_last_ping_lem x n e = rw e (ground arith, λ res. ground arith)

  -- The timeouts and the wait of a shutdown reach the library in full if they are below 2 ^ 32
  -- milliseconds (49 days and 17 hours) and the address of the timeout is converted.
  durations_exact :
      (d : Duration) (x : SystemAddress) (n : Structs.SystemAddress)
      → as_millis d < 2 ^ 32
      → into_system_address p x ≡ ok n
      → (set_timeout_time lib p d x s ≡ ok (lib.set_timeout_time (as_millis d) n s))
        × (set_unreliable_timeout lib d s ≡ ok (lib.set_unreliable_timeout (as_millis d) s))
        × (shutdown lib d s ≡ ok (lib.shutdown (as_millis d) 0 (into_packet_priority low) s))
  unfolding set_timeout_time set_unreliable_timeout shutdown rak_peer_set_timeout_time
      rak_peer_set_unreliable_timeout rak_peer_shutdown
  durations_exact d x n h e = rw (e, time_ms-small d h) (refl, refl, refl)

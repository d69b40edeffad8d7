-- ===== src/Wrapper/Methods.antt =====
-- The other methods of `RakPeer` in src/rakpeer.rs. `Drop` is the end of the peer's state.
pub mod Lists
pub mod Settings
pub mod Ipv6
use raknet_sys.Prelude.{
  ℕ, zero, suc, ◌+◌, ◌^◌, Bool, false, replicate, Option, none, some, List, [], ◌∷◌, Bytes, length,
  if◌then◌else◌,
}
use raknet_sys.Prelude.Int.{ℤ, negsuc, as_i32, ◌==ℤ◌}
use raknet_sys.Prelude.State.{M, pure, ◌>>=◌, ◌>>◌, lift, call}
use raknet_sys.Native.Pointer.{Ptr, null, to, deref}
use raknet_sys.Native.Platform.{Platform}
use raknet_sys.Native.Structs
use raknet_sys.Peer.Interface.{RakNet, MissingFunctions}
use raknet_sys.Peer.Shim.{
  rak_peer_new, rak_peer_ping, rak_peer_get_average_ping, rak_peer_get_last_ping,
  rak_peer_get_system_address_from_index, rak_peer_shutdown, rak_peer_close_connection,
  rak_peer_get_statistics_address, rak_peer_get_guid_from_system_address,
  rak_peer_get_number_of_addresses, rak_peer_set_occasional_ping,
  rak_peer_allow_connection_response_ip_migration, rak_peer_get_local_ip,
  rak_peer_set_unreliable_timeout, rak_peer_set_maximum_incoming_connections,
  rak_peer_set_timeout_time, rak_peer_get_internal_id, rak_peer_initialize_security,
}
use raknet_sys.Wrapper.Codes.{low, into_packet_priority}
use raknet_sys.Wrapper.Address.{
  SystemAddress, into_system_address, from_system_address, unassigned_system_address, RakNetGuid,
  from_guid, AddressOrGuid, into_address_or_guid,
}
use raknet_sys.Wrapper.Text.{new_cstring, cstr_to_string}
use raknet_sys.Wrapper.Duration.{Duration, time_ms}

-- `core::mem::zeroed()` at `RakNetStatistics`: seven metrics and four priorities.
abbrev pub zeroed_statistics : Structs.RakNetStatistics
zeroed_statistics = record {
  value_over_last_second = replicate 7 0;
  running_total = replicate 7 0;
  connection_start_time = 0;
  is_limited_by_congestion_control = false;
  bps_limit_by_congestion_control = 0;
  is_limited_by_outgoing_bandwidth_limit = false;
  bps_limit_by_outgoing_bandwidth_limit = 0;
  message_in_send_buffer = replicate 4 0;
  bytes_in_send_buffer = replicate 4 0;
  messages_in_resend_buffer = 0;
  bytes_in_resend_buffer = 0;
  packetloss_last_second = 0;
  packetloss_total = 0;
}

module _ (lib : RakNet) where
  open lib use {Peer}

  -- `RakPeer::new`, the n-th call in the program.
  unfoldable pub new : ℕ → Peer
  new n = rak_peer_new lib n

  unfoldable pub allow_connection_response_ip_migration : Bool → M Peer (Unit {0})
  allow_connection_response_ip_migration allow =
      rak_peer_allow_connection_response_ip_migration lib allow

  unfoldable pub set_occasional_ping : Bool → M Peer (Unit {0})
  set_occasional_ping do_ping = rak_peer_set_occasional_ping lib do_ping

  unfoldable pub initialize_security : Bytes → Bytes → Bool → M Peer Bool
  initialize_security public_key private_key require_client_key =
      rak_peer_initialize_security lib (to public_key) (to private_key) require_client_key

  unfoldable pub get_number_of_addresses : M Peer ℕ
  get_number_of_addresses = rak_peer_get_number_of_addresses lib

  unfoldable pub shutdown : Duration → M Peer (Unit {0})
  shutdown block_duration =
      rak_peer_shutdown lib (time_ms block_duration) 0 (into_packet_priority low)

  unfoldable pub set_maximum_incoming_connections : ℕ → M Peer (Unit {0})
  set_maximum_incoming_connections number_allowed =
      rak_peer_set_maximum_incoming_connections lib number_allowed

  unfoldable pub set_unreliable_timeout : Duration → M Peer (Unit {0})
  set_unreliable_timeout timeout = rak_peer_set_unreliable_timeout lib (time_ms timeout)

  -- The closure of `GetLocalIpAddresses`, from an index on, for so many addresses.
  unfoldable pub local_ip_addresses_from : ℕ → ℕ → M Peer (List Bytes)
  local_ip_addresses_from zero x = pure []
  local_ip_addresses_from (suc n) x = do
    s ← rak_peer_get_local_ip lib x
    address ← lift (cstr_to_string s)
    rest ← local_ip_addresses_from n (x + 1)
    pure (address ∷ rest)

  unfoldable pub get_local_ip_addresses : M Peer (List Bytes)
  get_local_ip_addresses = do local_ip_addresses_from (← get_number_of_addresses) 0

  module _ (platform : Platform) where
    unfoldable pub set_timeout_time : Duration → SystemAddress → M Peer (Unit {0})
    set_timeout_time timeout system_address = do
      a ← lift (into_system_address platform system_address)
      rak_peer_set_timeout_time lib (time_ms timeout) (to a)

    unfoldable pub get_internal_id : SystemAddress → ℤ → M Peer SystemAddress
    get_internal_id system_address index = do
      a ← lift (into_system_address platform system_address)
      id ← rak_peer_get_internal_id lib (to a) index
      lift (from_system_address platform id)

    -- The closure of `GetInternalAddresses`, from an index on, for so many addresses.
    unfoldable pub internal_addresses_from : ℕ → ℕ → M Peer (List SystemAddress)
    internal_addresses_from zero x = pure []
    internal_addresses_from (suc n) x = do
      a ← lift (into_system_address platform unassigned_system_address)
      id ← rak_peer_get_internal_id lib (to a) (as_i32 x)
      address ← lift (from_system_address platform id)
      rest ← internal_addresses_from n (x + 1)
      pure (address ∷ rest)

    unfoldable pub get_internal_addresses : M Peer (List SystemAddress)
    get_internal_addresses = do internal_addresses_from (← get_number_of_addresses) 0

    unfoldable pub get_guid_from_system_address : SystemAddress → M Peer RakNetGuid
    get_guid_from_system_address system_address = do
      a ← lift (into_system_address platform system_address)
      pointer ← rak_peer_get_guid_from_system_address lib (to a)
      guid ← lift (deref pointer)
      pure (from_guid guid)

    unfoldable pub get_system_address_from_index : ℕ → M Peer SystemAddress
    get_system_address_from_index index = do
      a ← rak_peer_get_system_address_from_index lib index
      lift (from_system_address platform a)

    -- A system that is not found leaves the zeroed statistics.
    unfoldable pub get_statistics : SystemAddress → M Peer Structs.RakNetStatistics
    get_statistics system_address = do
      a ← lift (into_system_address platform system_address)
      found ← rak_peer_get_statistics_address lib (to a)
      pure (elim found [ none ↦ zeroed_statistics | some statistics ↦ statistics ])

    unfoldable pub get_average_ping : AddressOrGuid → M Peer ℤ
    get_average_ping target = do
      t ← lift (into_address_or_guid platform target)
      rak_peer_get_average_ping lib (to t)

    unfoldable pub close_connection : AddressOrGuid → Bool → M Peer (Unit {0})
    close_connection target send_notification = do
      t ← lift (into_address_or_guid platform target)
      rak_peer_close_connection lib (to t) send_notification 0 (into_packet_priority low)

    unfoldable pub ping : SystemAddress → M Peer (Unit {0})
    ping system_address = do
      a ← lift (into_system_address platform system_address)
      rak_peer_ping lib (to a)

    unfoldable pub get_last_ping : AddressOrGuid → M Peer (Option ℤ)
    get_last_ping system_address = do
      a ← lift (into_address_or_guid platform system_address)
      res ← rak_peer_get_last_ping lib (to a)
      pure (if res ==ℤ negsuc 0 then none else some res)

  -- The methods whose C functions are not defined.
  module _ (missing : MissingFunctions lib) where
    unfoldable pub set_incoming_password : Option Bytes → M Peer (Unit {0})
    set_incoming_password none = call (missing.set_incoming_password null (as_i32 0))
    set_incoming_password (some password) =
        call (missing.set_incoming_password (to password) (as_i32 (length password)))

    unfoldable pub ping_ip : Bytes → ℕ → Bool → M Peer Bool
    ping_ip ip port only_reply_on_accepted_connections = do
      ip_cstr ← lift (new_cstring ip)
      call (missing.ping_unconnected (to ip_cstr) port only_reply_on_accepted_connections 0)

    unfoldable pub get_external_id : Platform → SystemAddress → M Peer SystemAddress
    get_external_id platform system_address = do
      a ← lift (into_system_address platform system_address)
      id ← call (missing.get_external_id (to a))
      lift (from_system_address platform id)

    -- `timeout.map_or(0, |x| x.as_millis() as ffi::TimeMS)`
    abbrev pub ban_time : Option Duration → ℕ
    ban_time none = 0
    ban_time (some timeout) = time_ms timeout

    unfoldable pub add_to_ban_list : Bytes → Option Duration → M Peer (Unit {0})
    add_to_ban_list ip timeout = do
      ip_cstr ← lift (new_cstring ip)
      call (missing.add_to_ban_list (to ip_cstr) (ban_time timeout))

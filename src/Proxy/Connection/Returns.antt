-- ===== src/Proxy/Connection/Returns.antt =====
-- How `ProxyConnection::new` and `forward_packet` of examples/proxy.rs end: they return, or the library
-- gave one of the answers for which they panic or fail.
use raknet_sys.Prelude.{
  ℕ, ◌%◌, ◌^◌, ◌≡◌, ◌≢◌, ◌⊎◌, refl, ◌==◌, Bool-cases, inl, inr, none, some, true, false, replicate,
  [], ◌∷◌, arith,
}
use raknet_sys.Prelude.Int.{pos, negsuc}
use raknet_sys.Prelude.Outcome.{
  Outcome, ok, Panic, panic, assertion, unwrap_err, invalid_value, traverse,
}
use raknet_sys.Prelude.State.{lift}
use raknet_sys.Prelude.Texts.{codes}
use raknet_sys.Wrapper.Methods
use raknet_sys.Native.Pointer.{to}
use raknet_sys.Native.Platform.{Platform, to_be16, to_be32}
use raknet_sys.Native.Structs
use raknet_sys.Peer.Interface.{RakNet}
use raknet_sys.Peer.Shim.{
  rak_peer_new, rak_peer_get_system_address_from_index, rak_peer_startup, rak_peer_connect,
  rak_peer_set_occasional_ping, rak_peer_allow_connection_response_ip_migration,
}
use raknet_sys.Wrapper.Address.{
  SystemAddress, RakNetGuid, from_system_address, from_system_index, from_bits, v4,
}
use raknet_sys.Wrapper.Codes.{
  StartupResult, ConnectionAttemptResult, from_startup_result, from_connection_attempt_result,
}
use raknet_sys.Wrapper.Packet.{Packet}
use raknet_sys.Wrapper.Socket.{into_socket_descriptor, string_to_char_array, into_socket_family}
use raknet_sys.Wrapper.Startup.{startup}
use raknet_sys.Wrapper.Connect.{connect, accept_any_public_key}
use raknet_sys.Wrapper.Text.{new_cstring}
use raknet_sys.Wrapper.Methods.{
  allow_connection_response_ip_migration, set_occasional_ping, get_system_address_from_index,
}
use raknet_sys.Wrapper.Sender.Contract.{Sending, Refuses}
use raknet_sys.Proxy.Connection.{
  ProxyConnection, ConnectionError, could_not_start, could_not_start_connection_attempt, new,
  is_started, is_attempt_started, client_descriptor, connect_client, start_client, forward_packet,
}
use raknet_sys.Proxy.Connection.Fresh.{connect_args}
use raknet_sys.Proxy.Connection.Order.{forward_packet_lem}

-- The descriptor of the client's socket, as the library gets it.
abbrev native_descriptor : Platform → Structs.SocketDescriptor
native_descriptor p = record {
  port = 0;
  host_address = replicate 32 (pos 0);
  socket_family = p.af_inet % 2 ^ 16;
  remote_port_raknet_was_started_on_ps3_psp2 = 0;
  chrome_instance = 0;
  blocking_socket = true;
  extra_socket_options = 0;
}

from_system_address-ends :
    (p : Platform) (x : Structs.SystemAddress)
    → ((a : SystemAddress) × (from_system_address p x ≡ ok a))
      ⊎ ((x.sin_family ≢ p.af_inet % 2 ^ 16) × (from_system_address p x ≡ panic assertion))
unfolding from_system_address
from_system_address-ends p x = elim (Bool-cases (x.sin_family == p.af_inet % 2 ^ 16)) [
  | inl same ↦ inl (
    record {
      sockaddr = v4 (from_bits (to_be32 p x.s_addr)) (to_be16 p x.sin_port);
      debug_port = x.debug_port;
      system_index = from_system_index x.system_index;
    },
    rw same refl,
  )
  | inr differ ↦ inr (ground (arith, differ), rw differ refl)
]

startup_code-ends :
    (code : ℕ)
    → ((code ≡ 0) × (from_startup_result code ≡ ok StartupResult.started))
      ⊎ ((code ≢ 0)
          × (((r : StartupResult) × (from_startup_result code ≡ ok r) × (is_started r ≡ false))
              ⊎ (from_startup_result code ≡ panic invalid_value)))
unfolding from_startup_result
startup_code-ends code = ground arith

attempt_code-ends :
    (code : ℕ)
    → ((code ≡ 0) × (from_connection_attempt_result code ≡ ok ConnectionAttemptResult.started))
      ⊎ ((code ≢ 0)
          × (((r : ConnectionAttemptResult) × (from_connection_attempt_result code ≡ ok r)
                × (is_attempt_started r ≡ false))
              ⊎ (from_connection_attempt_result code ≡ panic invalid_value)))
unfolding from_connection_attempt_result
attempt_code-ends code = ground arith

module _ (lib : RakNet) (p : Platform) where
  open lib use {Peer}

  -- The calls of `ProxyConnection::new` on its client, one after the other.
  abbrev prepared : Peer → Peer
  prepared s =
      (lib.set_occasional_ping true (lib.allow_connection_response_ip_migration false s).1).1

  abbrev startup_answer : Peer → ℕ × Peer
  startup_answer s = lib.startup 8 (to (native_descriptor p ∷ [])) 1 (negsuc 99998) (prepared s)

  abbrev connect_answer : Peer → ℕ × Peer
  connect_answer s =
      lib.connect (connect_args (codes "127.0.0.1") 4564 accept_any_public_key) (startup_answer s).1

  -- One of the two answers is an error code.
  abbrev pub StartFails : Peer → Type 0
  StartFails s = ((startup_answer s).0 ≢ 0) ⊎ ((connect_answer s).0 ≢ 0)

  -- The answers of the library at which the proxy panics, with the panic: a message is refused; the
  -- address of a server is not an IPv4 one; the client of a new connection, which is a new
  -- instance, can not be started or connected, with a code that is listed or with another.
  pub data Fault : Panic → Type 0 where
    refused : Refuses lib → Fault unwrap_err
    foreign :
        (s : Peer)
        → (lib.get_system_address_from_index 0 s).0.sin_family ≢ p.af_inet % 2 ^ 16
        → Fault assertion
    not_started : (n : ℕ) → StartFails (lib.get_instance n) → Fault unwrap_err
    unknown_code : (n : ℕ) → StartFails (lib.get_instance n) → Fault invalid_value

  -- The computation panics in a way for which the library has such an answer.
  abbrev pub Faulty : {A : Type 0} → Outcome A → Type 0
  Faulty r = (e : Panic) × (r ≡ panic e) × Fault e

  abbrev Connects : Peer → ℕ × Peer → Type 0
  Connects u r =
      (r.0 ≡ 0) × (connect_client lib p u ≡ ok (none, r.1))
      ⊎ ((r.0 ≢ 0)
          × (((x : ConnectionError) × (connect_client lib p u ≡ ok (some x, r.1)))
              ⊎ (connect_client lib p u ≡ panic invalid_value)))

  connect_client-ends :
      (u : Peer)
      → Connects u (lib.connect (connect_args (codes "127.0.0.1") 4564 accept_any_public_key) u)
  unfolding connect rak_peer_connect new_cstring
  connect_client-ends u =
      let args = connect_args (codes "127.0.0.1") 4564 accept_any_public_key in
      elim (attempt_code-ends (lib.connect args u).0) [
        | inl (zero_code, e) ↦ inl (zero_code, rw e refl)
        | inr (code, inl (r, e, other)) ↦
            inr (code, inl (could_not_start_connection_attempt, rw (e, other) refl))
        | inr (code, inr e) ↦ inr (code, inr (rw e refl))
      ]

  abbrev StartEnds : Peer → Type 0
  StartEnds s =
      ((t : Peer) × (start_client lib p s ≡ ok (none, t)))
      ⊎ ((x : ConnectionError) × (t : Peer) × (start_client lib p s ≡ ok (some x, t))
          × StartFails s)
      ⊎ ((start_client lib p s ≡ panic invalid_value) × StartFails s)

  startup-ends :
      (s : Peer)
      → startup lib p 8 (client_descriptor ∷ []) (prepared s)
        ≡ lift (from_startup_result (startup_answer s).0) (startup_answer s).1
  unfolding startup rak_peer_startup traverse into_socket_descriptor string_to_char_array
      into_socket_family
  startup-ends s = refl

  start_client-ends : (s : Peer) → StartEnds s
  unfolding start_client allow_connection_response_ip_migration set_occasional_ping
      rak_peer_set_occasional_ping rak_peer_allow_connection_response_ip_migration
  start_client-ends s =
      let first = startup-ends s in
      elim (startup_code-ends (startup_answer s).0) [
        | inr (code, inl (r, e, other)) ↦
            inr (inl (could_not_start, (startup_answer s).1, rw (first, e, other) refl, inl code))
        | inr (code, inr e) ↦ inr (inr (rw (first, e) refl, inl code))
        | inl (_, e) ↦ elim (connect_client-ends (startup_answer s).1) [
          | inl (_, k) ↦ inl ((connect_answer s).1, rw (first, e, k) refl)
          | inr (code, inl (x, k)) ↦
              inr (inl (x, (connect_answer s).1, rw (first, e, k) refl, inr code))
          | inr (code, inr k) ↦ inr (inr (rw (first, e, k) refl, inr code))
        ]
      ]

  -- A new connection is made, or its client can not be started or connected.
  pub new-ends :
      (n : ℕ) (guid : RakNetGuid) (system_address : SystemAddress)
      → ((c : ProxyConnection lib) × (new lib p n guid system_address ≡ ok (inr c)))
        ⊎ ((x : ConnectionError) × (new lib p n guid system_address ≡ ok (inl x))
            × StartFails (lib.get_instance n))
        ⊎ ((new lib p n guid system_address ≡ panic invalid_value)
            × StartFails (lib.get_instance n))
  unfolding new Methods.new rak_peer_new
  new-ends n guid system_address = elim (start_client-ends (lib.get_instance n)) [
    | inl (t, e) ↦ inl (
      record { client = t; messages = []; guid = guid; system_address = system_address },
      rw e refl,
    )
    | inr (inl (x, t, e, fails)) ↦ inr (inl (x, rw e refl, fails))
    | inr (inr (e, fails)) ↦ inr (inr (rw e refl, fails))
  ]

  forward_packet-foreign :
      (packet : Packet) (c : ProxyConnection lib)
      → from_system_address p (lib.get_system_address_from_index 0 c.client).0 ≡ panic assertion
      → forward_packet lib p packet c ≡ panic assertion
  unfolding forward_packet get_system_address_from_index rak_peer_get_system_address_from_index
  forward_packet-foreign packet c e = rw e refl

  pub forward_packet-ends :
      (sending : Sending lib) (packet : Packet) (c : ProxyConnection lib)
      → ((d : ProxyConnection lib) × (forward_packet lib p packet c ≡ ok (tt, d)))
        ⊎ Faulty (forward_packet lib p packet c)
  forward_packet-ends sending packet c =
      elim (from_system_address-ends p (lib.get_system_address_from_index 0 c.client).0) [
        | inr (differ, e) ↦
            inr (assertion, forward_packet-foreign packet c e, foreign c.client differ)
        | inl (a, found) ↦ elim (forward_packet_lem lib p sending packet c a found) [
          | inl (e, refuses) ↦ inr (unwrap_err, e, refused refuses)
          | inr (d, e, _) ↦ inl (d, e)
        ]
      ]

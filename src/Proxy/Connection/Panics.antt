-- ===== src/Proxy/Connection/Panics.antt =====
-- Which panics the methods of `ProxyConnection` of examples/proxy.rs do not have: those of a missing
-- value and of an index.
use raknet_sys.Prelude.{
  ℕ, ◌≢◌, inl, inr, Option, none, some, List, [], ◌∷◌, Bytes, arith, Bool-cases,
}
use raknet_sys.Prelude.Outcome.{
  Outcome, ok, Panic, panic, undefined, out_of_fuel, unwrap_none, unwrap_err, out_of_range,
  invalid_value, assertion, not_implemented, no_data, no_target, map_ok, traverse,
}
use raknet_sys.Prelude.State.{M, pure}
use raknet_sys.Prelude.Avoids.{
  Avoids, Avoids-pure, Avoids-lift, Avoids-continue, Avoids-bind, Avoids-if,
}
use raknet_sys.Prelude.Texts.{codes}
use raknet_sys.Native.Platform.{Platform}
use raknet_sys.Native.Structs
use raknet_sys.Peer.Interface.{RakNet}
use raknet_sys.Peer.Shim.{
  rak_peer_startup, rak_peer_connect, rak_peer_set_occasional_ping,
  rak_peer_allow_connection_response_ip_migration, rak_peer_get_system_address_from_index,
}
use raknet_sys.Wrapper.Address.{
  RakNetGuid, SystemAddress, from_system_address, is_unassigned_address,
}
use raknet_sys.Wrapper.Codes.{from_startup_result, from_connection_attempt_result}
use raknet_sys.Wrapper.Packet.{Packet}
use raknet_sys.Wrapper.Sender.{set_data, set_broadcast, send}
use raknet_sys.Wrapper.Sender
use raknet_sys.Wrapper.Sender.Send.{send-broadcast}
use raknet_sys.Wrapper.Socket.{into_socket_descriptor, string_to_char_array}
use raknet_sys.Wrapper.Startup.{startup}
use raknet_sys.Wrapper.Connect.{connect, accept_any_public_key}
use raknet_sys.Wrapper.Text.{new_cstring}
use raknet_sys.Wrapper.Methods.{
  allow_connection_response_ip_migration, set_occasional_ping, get_system_address_from_index,
}
use raknet_sys.Wrapper.Methods
use raknet_sys.Proxy.Connection.{
  new, started, start_client, connect_client, client_descriptor, is_started, could_not_start,
  on_client, with_client, unwrap_sent, send_message, send_queued, forward_packet,
}

-- A missing value, or an index beyond the end.
abbrev pub IsAccess : Panic → Type 0
IsAccess unwrap_none = Unit
IsAccess out_of_range = Unit
IsAccess _ = ⊥

pub others : (e : Panic) → IsAccess e → (invalid_value ≢ e) × (assertion ≢ e) × (unwrap_err ≢ e)
others unwrap_none h = (λ k. cc, λ k. cc, λ k. cc)
others out_of_range h = (λ k. cc, λ k. cc, λ k. cc)
others unwrap_err h = elim h [ ]
others assertion h = elim h [ ]
others not_implemented h = elim h [ ]
others invalid_value h = elim h [ ]
others no_data h = elim h [ ]
others no_target h = elim h [ ]

module _ (e : Panic) (access : IsAccess e) where
  map_ok-avoids : {A B : Type 0} (f : A → B) (m : Outcome A) → m ≢ panic e → map_ok f m ≢ panic e
  map_ok-avoids f (ok a) n h = cc
  map_ok-avoids f (panic p) n h = n (cc)
  map_ok-avoids f (undefined u) n h = cc
  map_ok-avoids f out_of_fuel n h = cc

  startup_result-avoids : (n : ℕ) → from_startup_result n ≢ panic e
  unfolding from_startup_result
  startup_result-avoids n = ground (arith, others e access)

  attempt_result-avoids : (n : ℕ) → from_connection_attempt_result n ≢ panic e
  unfolding from_connection_attempt_result
  attempt_result-avoids n = ground (arith, others e access)

  address-avoids : (p : Platform) (x : Structs.SystemAddress) → from_system_address p x ≢ panic e
  unfolding from_system_address
  address-avoids p x = ground (arith, others e access)

  unwrap_sent-avoids : (r : Option ℕ) → unwrap_sent r ≢ panic e
  unwrap_sent-avoids r = ground (arith, others e access)

  module _ (lib : RakNet) (p : Platform) where
    startup-Avoids : Avoids e (startup lib p 8 (client_descriptor ∷ []))
    unfolding startup rak_peer_startup traverse into_socket_descriptor string_to_char_array
    startup-Avoids s = Avoids-lift e (from_startup_result _) (startup_result-avoids _) _

    connect-Avoids : Avoids e (connect lib (codes "127.0.0.1") 4564 none accept_any_public_key)
    unfolding connect rak_peer_connect new_cstring
    connect-Avoids s = Avoids-lift e (from_connection_attempt_result _) (attempt_result-avoids _) _

    connect_client-Avoids : Avoids e (connect_client lib p)
    connect_client-Avoids =
        Avoids-bind e (connect lib (codes "127.0.0.1") 4564 none accept_any_public_key) _
          connect-Avoids (λ car s h. cc)

    start_client-Avoids : Avoids e (start_client lib p)
    unfolding start_client allow_connection_response_ip_migration set_occasional_ping
        rak_peer_set_occasional_ping rak_peer_allow_connection_response_ip_migration
    start_client-Avoids s =
        Avoids-bind e (startup lib p 8 (client_descriptor ∷ [])) _ startup-Avoids
          (λ result.
            Avoids-if e (is_started result) (connect_client lib p) (pure (some could_not_start))
              connect_client-Avoids (Avoids-pure e (some could_not_start)))
          _

    -- Making a connection.
    pub new-avoids :
        (n : ℕ) (guid : RakNetGuid) (system_address : SystemAddress)
        → new lib p n guid system_address ≢ panic e
    unfolding new
    new-avoids n guid system_address =
        map_ok-avoids (started lib p guid system_address) (start_client lib p (Methods.new lib n))
          (start_client-Avoids (Methods.new lib n))

    on_client-Avoids :
        {A : Type 0} (m : M lib.Peer A) → Avoids e m → Avoids e (on_client {lib = lib} m)
    on_client-Avoids m n c = map_ok-avoids (with_client c) (m c.client) (n c.client)

    send_message-Avoids : (bytes : Bytes) → Avoids e (send_message lib p bytes)
    unfolding send_message
    send_message-Avoids bytes =
        Avoids-bind e (on_client (send lib p (set_broadcast (set_data bytes Sender.new)))) _
          (on_client-Avoids _ (λ s h. ground (arith, h, send-broadcast lib p bytes s)))
          (λ r. Avoids-lift e (unwrap_sent r) (unwrap_sent-avoids r))

    send_queued-Avoids : (ms : List Bytes) → Avoids e (send_queued lib p ms)
    unfolding send_queued
    send_queued-Avoids [] c = λ h. cc
    send_queued-Avoids (m ∷ ms) c =
        Avoids-continue e (send_message lib p m (record c { messages = ms })) _
          (send_message-Avoids m (record c { messages = ms })) (λ _. send_queued-Avoids ms)

    lookup-Avoids : Avoids e (get_system_address_from_index lib p 0)
    unfolding get_system_address_from_index rak_peer_get_system_address_from_index
    lookup-Avoids s = Avoids-lift e (from_system_address p _) (address-avoids p _) _

    -- Forwarding a packet.
    pub forward_packet-Avoids : (packet : Packet) → Avoids e (forward_packet lib p packet)
    unfolding forward_packet
    forward_packet-Avoids packet c =
        Avoids-continue e (on_client (get_system_address_from_index lib p 0) c) _
          (on_client-Avoids (get_system_address_from_index lib p 0) lookup-Avoids c)
          (λ a d. elim (Bool-cases (is_unassigned_address a)) [
            | inl waits ↦ rw waits (λ h. cc)
            | inr connected ↦ rw connected (
                Avoids-continue e (send_queued lib p d.messages d) _
                  (send_queued-Avoids d.messages d) (λ _. send_message-Avoids packet.bytes))
          ])

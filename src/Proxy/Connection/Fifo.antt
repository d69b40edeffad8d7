-- ===== src/Proxy/Connection/Fifo.antt =====
-- A connection of examples/proxy.rs over its life: no message is lost, doubled or overtaken.
use raknet_sys.Prelude.{
  ℕ, ◌≡◌, ap, sym, ◌∙◌, inl, inr, true, false, List, [], ◌∷◌, ◌++◌, map, append-nil, append_assoc,
  Bytes, arith, if◌then◌else◌,
}
use mathlib.Core.List.{map-append}
use raknet_sys.Prelude.Outcome.{map_ok-eq-ok, ok}
use raknet_sys.Prelude.State.{lift-eq-ok, continue-eq-ok}
use raknet_sys.Native.Platform.{Platform}
use raknet_sys.Peer.Interface.{RakNet, SendArgs}
use raknet_sys.Wrapper.Sender.Send.{broadcast_args}
use raknet_sys.Wrapper.Sender.Contract.{Sending}
use raknet_sys.Wrapper.Packet.{Packet}
use raknet_sys.Wrapper.Receive.{receive_all}
use raknet_sys.Wrapper.Receive.Silence.{receive_all-Keeps}
use raknet_sys.Wrapper.Address.{SystemAddress, is_unassigned_address, from_system_address}
use raknet_sys.Wrapper.Methods.{get_system_address_from_index}
use raknet_sys.Peer.Shim.{rak_peer_get_system_address_from_index}
use raknet_sys.Proxy.Connection.{
  on_client, with_client, handle_packets, ProxyConnection, forward_packet, serve,
}
use raknet_sys.Proxy.Connection.Order.{forward_packet_lem, Forwards, Sent}

module _ (lib : RakNet) (p : Platform) (sending : Sending lib) where
  open lib use {Peer}
  open sending use {sent}

  -- The connection `c` after it was asked to forward these messages in this order, with calls of
  -- `serve` anywhere between them, and with anything its client does that sends no message.
  pub data History (start : ProxyConnection lib) : List Bytes → ProxyConnection lib → Type 0 where
    created : History start [] start
    forwarded :
        {ms : List Bytes} {c : ProxyConnection lib} (packet : Packet) (d : ProxyConnection lib)
        → History start ms c
        → forward_packet lib p packet c ≡ ok (tt, d)
        → History start (ms ++ packet.bytes ∷ []) d
    served :
        {ms : List Bytes} {c : ProxyConnection lib} (fuel : ℕ) (out : List Bytes)
        (d : ProxyConnection lib)
        → History start ms c
        → serve lib p fuel c ≡ ok (out, d)
        → History start ms d
    network :
        {ms : List Bytes} {c : ProxyConnection lib} (client : Peer)
        → History start ms c
        → sent client ≡ sent c.client
        → History start ms (record c { client = client })

  -- The accepted messages, then those that wait.
  abbrev pub total : ProxyConnection lib → List SendArgs
  total c = sent c.client ++ map (broadcast_args p) c.messages

  total_snoc :
      (log : List SendArgs) (ms : List Bytes) (m : Bytes)
      → log ++ map (broadcast_args p) (ms ++ m ∷ [])
        ≡ (log ++ map (broadcast_args p) ms) ++ broadcast_args p m ∷ []
  total_snoc log ms m =
      ap (λ xs. log ++ xs) (map-append (broadcast_args p) ms (m ∷ []))
      ∙ sym (append_assoc log (map (broadcast_args p) ms) (broadcast_args p m ∷ []))

  -- Queued or sent, a message comes last.
  Forwards-total :
      (packet : Packet) (a : SystemAddress) (c d : ProxyConnection lib)
      → Forwards lib p sending packet a c d
      → total d ≡ total c ++ broadcast_args p packet.bytes ∷ []
  Forwards-total packet a c d (_, _, h) =
      elim (is_unassigned_address a)
          as (λ u.
            (if u
              then (d.messages ≡ c.messages ++ packet.bytes ∷ [])
                × Sent lib p sending c.client [] d.client
              else (d.messages ≡ [])
                × Sent lib p sending c.client (c.messages ++ packet.bytes ∷ []) d.client)
            → total d ≡ total c ++ broadcast_args p packet.bytes ∷ []) [
              | true ↦ λ k.
                  rw (k.0, k.1, append-nil (sent c.client))
                    (total_snoc (sent c.client) c.messages packet.bytes)
              | false ↦ λ k. rw (k.0) (
                  append-nil (sent d.client)
                  ∙ k.1
                  ∙ total_snoc (sent c.client) c.messages packet.bytes)
            ]
        h

  -- A forwarding that returned has found an address.
  forward_found :
      (packet : Packet) (c d : ProxyConnection lib)
      → forward_packet lib p packet c ≡ ok (tt, d)
      → (a : SystemAddress) × (from_system_address p
            (lib.get_system_address_from_index 0 c.client).0
          ≡ ok a)
  unfolding forward_packet get_system_address_from_index rak_peer_get_system_address_from_index
  forward_found packet c d h =
      let (a, t, e, _) = continue-eq-ok (on_client (get_system_address_from_index lib p 0) c) _ h in
      let (x, k, same) = map_ok-eq-ok (with_client c) _ e in
      let (found, _) =
        lift-eq-ok (from_system_address p (lib.get_system_address_from_index 0 c.client).0) _ k in
      (x.0, found)

  pub forward_packet-total :
      (packet : Packet) (c d : ProxyConnection lib)
      → forward_packet lib p packet c ≡ ok (tt, d)
      → total d ≡ total c ++ broadcast_args p packet.bytes ∷ []
  forward_packet-total packet c d h =
      let (a, e) = forward_found packet c d h in
      elim (forward_packet_lem lib p sending packet c a e) [
        | inl (k, _) ↦ absurd (ground (arith, h, k))
        | inr (d', k, f) ↦
            let same : d' ≡ d = ground (arith, h, k) in
            ap total (sym same) ∙ Forwards-total packet a c d' f
      ]

  pub serve-total :
      (fuel : ℕ) (out : List Bytes) (c d : ProxyConnection lib)
      → serve lib p fuel c ≡ ok (out, d)
      → total d ≡ total c
  unfolding serve
  serve-total fuel out c d h =
      let (packets, t, e, rest) = continue-eq-ok (on_client (receive_all lib p fuel) c) _ h in
      let (x, k, same) = map_ok-eq-ok (with_client c) _ e in
      let (_, kept) = lift-eq-ok (handle_packets packets) t rest in
      let silent = receive_all-Keeps lib p sending fuel c.client x.1 x.0 k in
      ap total (sym (ap (λ y. y.1) same ∙ kept))
      ∙ ap (λ log. log ++ map (broadcast_args p) c.messages) silent

  -- After any sequence of forwarded messages and of calls of `serve`, with network activity of
  -- the client that sends nothing between them, the messages that the library has accepted,
  -- followed by those that wait in the queue, are the accepted and waiting ones of the start,
  -- followed by the forwarded ones in their order, each a broadcast: none is lost, doubled or
  -- overtaken.
  pub forwarded_in_order :
      (c d : ProxyConnection lib) (ms : List Bytes)
      → History c ms d
      → total d ≡ total c ++ map (broadcast_args p) ms
  forwarded_in_order c _ _ created = sym (append-nil (total c))
  forwarded_in_order c d _ (forwarded {ms = ms'} {c = c'} packet _ h e) =
      forward_packet-total packet c' d e
      ∙ ap (λ log. log ++ broadcast_args p packet.bytes ∷ []) (forwarded_in_order c c' ms' h)
      ∙ sym (total_snoc (total c) ms' packet.bytes)
  forwarded_in_order c d ms (served {c = c'} fuel out _ h e) =
      serve-total fuel out c' d e ∙ forwarded_in_order c c' ms h
  forwarded_in_order c _ ms (network {c = c'} client h e) =
      ap (λ log. log ++ map (broadcast_args p) c'.messages) e ∙ forwarded_in_order c c' ms h

-- ===== src/Proxy/Server/Progress/Packets.antt =====
-- The packets of the server of examples/proxy.rs: the first loop of `serve` handles each that is
-- expected, or it panics at an answer of the library.
use raknet_sys.Prelude.{
  ℕ, ◌+◌, ◌<◌, ◌≡◌, ◌≢◌, ◌⊎◌, refl, ◌∙◌, inl, inr, Bool, true, false, ◌||◌, some, List, [], ◌∷◌,
  Bytes, arith, Bool-cases,
}
use raknet_sys.Prelude.Outcome.{ok, Panic, panic, unwrap_err, invalid_value}
use raknet_sys.Native.Platform.{Platform}
use raknet_sys.Peer.Interface.{RakNet}
use raknet_sys.Wrapper.Address.{RakNetGuid, guid_eq}
use raknet_sys.Wrapper.Address.Unassigned.{guid_eq_iff}
use raknet_sys.Wrapper.Packet.{Packet}
use raknet_sys.Wrapper.Sender.Contract.{Sending}
use raknet_sys.Wrapper.Receive.Contract.{Queueing}
use raknet_sys.Proxy.Connection.{ProxyConnection, forward_packet}
use raknet_sys.Proxy.Connection
use raknet_sys.Proxy.Connection.Fresh.{Starting, new-shown}
use raknet_sys.Proxy.Connection.Queue.{Undisturbed, forward_packet-shown}
use raknet_sys.Proxy.Connection.Returns.{
  Faulty, unknown_code, not_started, new-ends, forward_packet-ends,
}
use raknet_sys.Proxy.Connection.Kept.{new_owner, forward_packet-SameOwner}
use raknet_sys.Proxy.Server.{
  Connections, RakNetProxy, get, insert, handle_packet, handle_packets, add_connection,
}
use raknet_sys.Proxy.Server.Round.{AllReady}
use raknet_sys.Proxy.Server.Ledger.{opens}
use raknet_sys.Proxy.Server.Routing.{get-insert_same, get-insert_other}
use raknet_sys.Proxy.Server.Progress.{IsProper, Expected, learn, learned}
use raknet_sys.Proxy.Server.Progress.Readiness.{
  address-converts, insert-Ready, get-Ready, Ready-kept, fresh-Ready,
}

module _ (lib : RakNet) (p : Platform) (q : Queueing lib) (sending : Sending lib)
    (starting : Starting lib q.waiting) (quiet : Undisturbed lib q.waiting) (fuel : ℕ) where
  open lib use {Peer}
  open q use {waiting}

  -- The branch of a new connection, and the branch of a known one.
  handle_packet-adds :
      (packet : Packet) (self : RakNetProxy lib) (c : ProxyConnection lib) (bytes : Bytes)
      → packet.bytes ≡ bytes
      → IsProper packet
      → opens packet ≡ true
      → Connection.new lib p self.peers packet.guid packet.system_address ≡ ok (inr c)
      → handle_packet lib p packet self
        ≡ ok (record self {
          connections = insert packet.guid c self.connections;
          peers = self.peers + 1;
        })
  unfolding handle_packet
  handle_packet-adds packet self c [] e proper new made = absurd (proper.not_empty e)
  handle_packet-adds packet self c (b ∷ bs) e proper new made =
      ground (arith, proper.assigned, e, new, made)

  handle_packet-routes :
      (packet : Packet) (self : RakNetProxy lib) (c d : ProxyConnection lib) (bytes : Bytes)
      → packet.bytes ≡ bytes
      → IsProper packet
      → opens packet ≡ false
      → get packet.guid self.connections ≡ some c
      → forward_packet lib p packet c ≡ ok (tt, d)
      → handle_packet lib p packet self
        ≡ ok (record self { connections = insert packet.guid d self.connections })
  unfolding handle_packet
  handle_packet-routes packet self c d [] e proper old found sent = absurd (proper.not_empty e)
  handle_packet-routes packet self c d (b ∷ bs) e proper old found sent =
      ground (arith, proper.assigned, e, old, found, sent)

  -- The ways in which the two branches panic.
  handle_packet-not_started :
      (packet : Packet) (self : RakNetProxy lib) (bytes : Bytes)
      → packet.bytes ≡ bytes
      → IsProper packet
      → opens packet ≡ true
      → handle_packet lib p packet self ≡ add_connection lib p packet self
  unfolding handle_packet
  handle_packet-not_started packet self [] e proper new = absurd (proper.not_empty e)
  handle_packet-not_started packet self (b ∷ bs) e proper new =
      ground (arith, proper.assigned, e, new)

  handle_packet-refused :
      (packet : Packet) (self : RakNetProxy lib) (c : ProxyConnection lib) (x : Panic)
      (bytes : Bytes)
      → packet.bytes ≡ bytes
      → IsProper packet
      → opens packet ≡ false
      → get packet.guid self.connections ≡ some c
      → forward_packet lib p packet c ≡ panic x
      → handle_packet lib p packet self ≡ panic x
  unfolding handle_packet
  handle_packet-refused packet self c x [] e proper old found k = absurd (proper.not_empty e)
  handle_packet-refused packet self c x (b ∷ bs) e proper old found k =
      ground (arith, proper.assigned, e, old, found, k)

  -- The clients that are said to be known have a connection, and every connection is ready.
  pub record Serving (known : RakNetGuid → Bool) (self : RakNetProxy lib) : Type 0 where
    pub found :
        (k : RakNetGuid)
        → known k ≡ true
        → (c : ProxyConnection lib) × (get k self.connections ≡ some c)
    pub all_ready : AllReady lib p q sending fuel self.connections

  found-insert :
      (known : RakNetGuid → Bool) (j : RakNetGuid) (c : ProxyConnection lib) (m : Connections lib)
      → ((k : RakNetGuid) → known k ≡ true → (d : ProxyConnection lib) × (get k m ≡ some d))
      → (k : RakNetGuid) → (guid_eq j k || known k) ≡ true
      → (d : ProxyConnection lib) × (get k (insert j c m) ≡ some d)
  found-insert known j c m found k h = elim (Bool-cases (guid_eq j k)) [
    | inl same ↦ (c, rw (← (guid_eq_iff j k).0 same) (get-insert_same j c m))
    | inr differ ↦
        let (d, e) = found k (ground (arith, h, differ)) in
        let other : j ≢ k = λ same. ground (arith, differ, (guid_eq_iff j k).1 same) in
        (d, get-insert_other j k c m other ∙ e)
  ]

  abbrev Step : (RakNetGuid → Bool) → Packet → RakNetProxy lib → Type 0
  Step known packet self =
      ((next : RakNetProxy lib) × (handle_packet lib p packet self ≡ ok next)
        × Serving (learn known packet) next
        × (next.server ≡ self.server))
      ⊎ Faulty lib p (handle_packet lib p packet self)

  add_ends :
      (known : RakNetGuid → Bool) (packet : Packet) (self : RakNetProxy lib)
      → 0 < fuel
      → IsProper packet
      → opens packet ≡ true
      → Serving known self
      → Step known packet self
  add_ends known packet self some_fuel proper new serving =
      let whole = handle_packet-not_started packet self packet.bytes refl proper new in
      elim (new-ends lib p self.peers packet.guid packet.system_address) [
        | inr (inl (x, made, fails)) ↦
            inr (unwrap_err, whole ∙ rw made refl, not_started self.peers fails)
        | inr (inr (made, fails)) ↦
            inr (invalid_value, whole ∙ rw made refl, unknown_code self.peers fails)
        | inl (c, made) ↦
            let (_, at, _) = new_owner lib p self.peers packet.guid packet.system_address c made in
            let (n, converts) =
              address-converts p packet.system_address proper.ip proper.port proper.over_ipv4 in
            let empty =
              new-shown lib p waiting starting self.peers packet.guid packet.system_address c
                made in
            let ready = fresh-Ready lib p q sending fuel c n some_fuel empty (rw at converts) in
            let serving' : Serving (λ k. guid_eq packet.guid k || known k)
                (record self {
                  connections = insert packet.guid c self.connections;
                  peers = self.peers + 1;
                }) =
              record {
                found = found-insert known packet.guid c self.connections serving.found;
                all_ready =
                    insert-Ready lib p q sending fuel packet.guid c self.connections ready
                      serving.all_ready;
              } in
            inl (
              record self {
                connections = insert packet.guid c self.connections;
                peers = self.peers + 1;
              },
              handle_packet-adds packet self c packet.bytes refl proper new made,
              rw new serving',
              refl,
            )
      ]

  route_ends :
      (known : RakNetGuid → Bool) (packet : Packet) (self : RakNetProxy lib)
      → IsProper packet
      → opens packet ≡ false
      → known packet.guid ≡ true
      → Serving known self
      → Step known packet self
  route_ends known packet self proper old there serving =
      let (c, found) = serving.found packet.guid there in
      elim (forward_packet-ends lib p sending packet c) [
        | inr (x, k, fault) ↦
            inr
              (x, handle_packet-refused packet self c x packet.bytes refl proper old found k, fault)
        | inl (d, sent) ↦
            let kept = forward_packet-shown lib p waiting quiet packet c d sent in
            let (_, owner) = forward_packet-SameOwner lib p packet c d sent in
            let before =
              get-Ready lib p q sending fuel packet.guid c self.connections serving.all_ready
                found in
            let serving' : Serving known
                (record self { connections = insert packet.guid d self.connections }) =
              record {
                found = λ k h.
                    found-insert known packet.guid d self.connections serving.found k
                      (ground (arith, h));
                all_ready =
                    insert-Ready lib p q sending fuel packet.guid d self.connections
                      (Ready-kept lib p q sending fuel c d kept owner before) serving.all_ready;
              } in
            inl (
              record self { connections = insert packet.guid d self.connections },
              handle_packet-routes packet self c d packet.bytes refl proper old found sent,
              rw old serving',
              refl,
            )
      ]

  -- What is expected of the packets after one.
  Expected-later :
      (known : RakNetGuid → Bool) (packet : Packet) (packets : List Packet)
      → Expected known (packet ∷ packets)
      → Expected (learn known packet) packets
  Expected-later known packet packets expected = elim (Bool-cases (opens packet)) [
    | inl new ↦
        let later : Expected (λ k. guid_eq packet.guid k || known k) packets =
          ground (arith, expected, new) in
        rw new later
    | inr old ↦
        let later : (known packet.guid ≡ true) × Expected known packets =
          ground (arith, expected, old) in
        rw old later.1
  ]

  -- One packet of those that are expected.
  handle_packet_ends :
      (known : RakNetGuid → Bool) (packet : Packet) (packets : List Packet) (self : RakNetProxy lib)
      → 0 < fuel
      → Expected known (packet ∷ packets)
      → Serving known self
      → Step known packet self
  handle_packet_ends known packet packets self some_fuel expected serving =
      elim (Bool-cases (opens packet)) [
        | inl new ↦ add_ends known packet self some_fuel expected.0 new serving
        | inr old ↦
            let later : (known packet.guid ≡ true) × Expected known packets =
              ground (arith, expected, old) in
            route_ends known packet self expected.0 old later.0 serving
      ]

  pub handle_packets_end :
      (known : RakNetGuid → Bool) (packets : List Packet) (self : RakNetProxy lib)
      → 0 < fuel
      → Expected known packets
      → Serving known self
      → ((next : RakNetProxy lib) × (handle_packets lib p packets self ≡ ok next)
          × Serving (learned known packets) next
          × (next.server ≡ self.server))
        ⊎ Faulty lib p (handle_packets lib p packets self)
  unfolding handle_packets
  handle_packets_end known [] self some_fuel expected serving = inl (self, refl, serving, refl)
  handle_packets_end known (x ∷ xs) self some_fuel expected serving =
      elim (handle_packet_ends known x xs self some_fuel expected serving) [
        | inr (e, k, fault) ↦ inr (e, rw k refl, fault)
        | inl (mid, e, serving', same) ↦
            elim (handle_packets_end (learn known x) xs mid some_fuel
              (Expected-later known x xs expected) serving') [
                | inr (panicked, k, fault) ↦ inr (panicked, rw (e, k) refl, fault)
                | inl (next, k, last, same') ↦ inl (next, rw (e, k) refl, last, same' ∙ same)
              ]
      ]

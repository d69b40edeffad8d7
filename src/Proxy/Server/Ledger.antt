-- ===== src/Proxy/Server/Ledger.antt =====
-- The proxy of examples/proxy.rs seen from one client: a ledger of the messages that are to reach the
-- game server in its name, which each packet of that client extends and no other packet touches.
use raknet_sys.Prelude.{
  ℕ, ◌≡◌, ◌≢◌, ap, sym, ◌∙◌, inl, inr, Bool, false, Option, none, some, List, [], ◌∷◌, ◌++◌, Bytes,
  arith, ◌==◌, if◌then◌else◌, Bool-cases,
}
use raknet_sys.Prelude.Outcome.{ok, >>=-eq-ok}
use raknet_sys.Native.Platform.{Platform}
use raknet_sys.Peer.Interface.{RakNet, SendArgs}
use raknet_sys.MessageId.{id_new_incoming_connection, message_id_byte}
use raknet_sys.Wrapper.Address.{RakNetGuid, guid_eq}
use raknet_sys.Wrapper.Address.Unassigned.{guid_eq_iff}
use raknet_sys.Wrapper.Packet.{Packet}
use raknet_sys.Wrapper.Sender.Send.{broadcast_args}
use raknet_sys.Wrapper.Sender.Contract.{Sending}
use raknet_sys.Proxy.Connection.{ProxyConnection}
use raknet_sys.Proxy.Connection.Fifo.{total, forward_packet-total}
use raknet_sys.Proxy.Connection.Fresh.{Starting, new-shown}
use raknet_sys.Proxy.Connection.Kept.{new_owner}
use raknet_sys.Proxy.Server.{Connections, RakNetProxy, get, insert, handle_packet, handle_packets}
use raknet_sys.Proxy.Server.Routing.{
  get-insert_same, added, routed, handle_packet-Handled, guid_eq_other, guid_eq_same,
  handle_packet_isolated,
}

-- What the game server is to get in the name of a client that is connected.
abbrev pub Entry : Type 0
Entry = Option (List SendArgs)

-- The notification of a new connection, which comes in a packet of its own.
abbrev pub opens : Packet → Bool
opens packet = elim packet.bytes [
  | [] ↦ false
  | b ∷ bs ↦ b == message_id_byte id_new_incoming_connection
]

abbrev pub extend : SendArgs → Entry → Entry
extend args none = none
extend args (some sent) = some (sent ++ args ∷ [])

-- A new connection of the client starts its entry afresh, and any other packet of the client is one
-- more message; the packets of other clients leave the entry alone.
unfoldable pub note : Platform → RakNetGuid → Packet → Entry → Entry
note p k packet entry =
    if guid_eq packet.guid k
    then (if opens packet then some [] else extend (broadcast_args p packet.bytes) entry)
    else entry

unfoldable pub notes : Platform → RakNetGuid → List Packet → Entry → Entry
unfolding note
notes p k [] entry = entry
notes p k (packet ∷ packets) entry = notes p k packets (note p k packet entry)

note-opening :
    (p : Platform) (packet : Packet) (bs : Bytes) (entry : Entry)
    → packet.bytes ≡ message_id_byte id_new_incoming_connection ∷ bs
    → note p packet.guid packet entry ≡ some []
unfolding note
note-opening p packet bs entry e = rw (guid_eq_same packet.guid, e) (ground arith)

note-message :
    (p : Platform) (packet : Packet) (b : ℕ) (bs : Bytes) (entry : Entry)
    → packet.bytes ≡ b ∷ bs
    → b ≢ message_id_byte id_new_incoming_connection
    → note p packet.guid packet entry ≡ extend (broadcast_args p packet.bytes) entry
unfolding note
note-message p packet b bs entry e n = rw (guid_eq_same packet.guid) (ground (arith, e, n))

note-other :
    (p : Platform) (k : RakNetGuid) (packet : Packet) (entry : Entry)
    → packet.guid ≢ k
    → note p k packet entry ≡ entry
unfolding note
note-other p k packet entry n = rw (guid_eq_other packet.guid k n)

module _ (lib : RakNet) (p : Platform) (sending : Sending lib)
    (starting : Starting lib sending.sent) where
  abbrev pub entry_of : Option (ProxyConnection lib) → Entry
  entry_of none = none
  entry_of (some c) = some (total lib p sending c)

  -- The ledger of a proxy: of each client, what its connection has sent and what waits in it.
  abbrev pub ledger : RakNetGuid → Connections lib → Entry
  ledger k m = entry_of (get k m)

  ledger-insert :
      (k : RakNetGuid) (c : ProxyConnection lib) (m : Connections lib)
      → ledger k (insert k c m) ≡ some (total lib p sending c)
  ledger-insert k c m = ap entry_of (get-insert_same k c m)

  -- The packet of a client, in the client's own entry.
  handle_packet_own :
      (packet : Packet) (self next : RakNetProxy lib)
      → handle_packet lib p packet self ≡ ok next
      → ledger packet.guid next.connections
        ≡ note p packet.guid packet (ledger packet.guid self.connections)
  handle_packet_own packet self next h = elim (handle_packet-Handled lib p packet self next h) [
    | added bs c e made same ↦
        let (_, _, empty) = new_owner lib p self.peers packet.guid packet.system_address c made in
        let silent =
          new-shown lib p sending.sent starting self.peers packet.guid packet.system_address c
            made in
        let nothing : total lib p sending c ≡ [] = rw (empty, silent) in
        ap (λ (r : RakNetProxy lib). ledger packet.guid r.connections) same
        ∙ ledger-insert packet.guid c self.connections
        ∙ ap some nothing
        ∙ sym (note-opening p packet bs (ledger packet.guid self.connections) e)
    | routed b bs c d e n found forward same ↦
        ap (λ (r : RakNetProxy lib). ledger packet.guid r.connections) same
        ∙ ledger-insert packet.guid d self.connections
        ∙ ap some (forward_packet-total lib p sending packet c d forward)
        ∙ sym (ap (λ o. extend (broadcast_args p packet.bytes) (entry_of o)) found)
        ∙ sym (note-message p packet b bs (ledger packet.guid self.connections) e n)
  ]

  handle_packet-note :
      (k : RakNetGuid) (packet : Packet) (self next : RakNetProxy lib)
      → handle_packet lib p packet self ≡ ok next
      → ledger k next.connections ≡ note p k packet (ledger k self.connections)
  handle_packet-note k packet self next h = elim (Bool-cases (guid_eq packet.guid k)) [
    | inl same ↦ rw (← (guid_eq_iff packet.guid k).0 same) (handle_packet_own packet self next h)
    | inr differ ↦
        let other : packet.guid ≢ k =
          λ e. ground (arith, differ, (guid_eq_iff packet.guid k).1 e) in
        ap entry_of (handle_packet_isolated lib p packet self next k h other).0
        ∙ sym (note-other p k packet (ledger k self.connections) other)
  ]

  pub handle_packets-notes :
      (k : RakNetGuid) (packets : List Packet) (self next : RakNetProxy lib)
      → handle_packets lib p packets self ≡ ok next
      → ledger k next.connections ≡ notes p k packets (ledger k self.connections)
  unfolding handle_packets notes
  handle_packets-notes k [] self next h =
      let same : next ≡ self = ground (arith, h) in
      ap (λ (r : RakNetProxy lib). ledger k r.connections) same
  handle_packets-notes k (x ∷ xs) self next h =
      let (mid, e, rest) = >>=-eq-ok (handle_packet lib p x self) _ h in
      handle_packets-notes k xs mid next rest
      ∙ ap (notes p k xs) (handle_packet-note k x self mid e)

-- ===== src/Proxy/Server/Life.antt =====
-- The proxy of examples/proxy.rs over its life: the ledger of each client is a function of the packets
-- that the server has received.
use raknet_sys.Prelude.{
  ℕ, ◌<◌, ◌≡◌, refl, ap, sym, ◌∙◌, inr, none, Option, List, [], ◌∷◌, ◌++◌, Bytes, length, arith,
  Bool-cases, inl,
}
use raknet_sys.Prelude.Outcome.{ok, traverse}
use raknet_sys.Prelude.State.{lift, continue-eq-ok, lift-eq-ok}
use raknet_sys.Native.Platform.{Platform}
use raknet_sys.Peer.Interface.{RakNet}
use raknet_sys.Wrapper.Address.{RakNetGuid, guid_eq}
use raknet_sys.Wrapper.Packet.{Packet, from_packet}
use raknet_sys.Wrapper.Sender.Contract.{Sending}
use raknet_sys.Wrapper.Receive.Contract.{Queueing}
use raknet_sys.Wrapper.Receive.Drain.{receive_all_drains}
use raknet_sys.Proxy.Connection.{ProxyConnection}
use raknet_sys.Proxy.Connection
use raknet_sys.Proxy.Connection.Fifo.{total, serve-total}
use raknet_sys.Proxy.Connection.Fresh.{Starting}
use raknet_sys.Proxy.Server.{Connections, RakNetProxy, get, new, serve, send_to, serve_connections}
use raknet_sys.Proxy.Server.Identity.{moved}
use raknet_sys.Proxy.Server.Parts.{serve-eq-ok, new-connections}
use raknet_sys.Proxy.Server.Ledger.{Entry, note, notes, ledger, handle_packets-notes}

notes-append :
    (p : Platform) (k : RakNetGuid) (xs ys : List Packet) (entry : Entry)
    → notes p k (xs ++ ys) entry ≡ notes p k ys (notes p k xs entry)
unfolding notes
notes-append p k [] ys entry = refl
notes-append p k (x ∷ xs) ys entry = notes-append p k xs ys (note p k x entry)

module _ (lib : RakNet) (p : Platform) (q : Queueing lib) (sending : Sending lib)
    (starting : Starting lib sending.sent) where
  open lib use {Peer}
  open sending use {sent}

  abbrev entries : RakNetGuid → Connections lib → Entry
  entries = ledger lib p sending starting

  -- The entries of a map whose first connection has the total of another.
  entries-cons :
      (k j : RakNetGuid) (c d : ProxyConnection lib) (m n : Connections lib)
      → total lib p sending d ≡ total lib p sending c
      → entries k n ≡ entries k m
      → entries k ((j, d) ∷ n) ≡ entries k ((j, c) ∷ m)
  unfolding get
  entries-cons k j c d m n e h = elim (Bool-cases (guid_eq j k)) [
    | inl same ↦ rw (same, e)
    | inr differ ↦ rw differ h
  ]

  -- The second loop of `serve` takes packets from the clients and sends nothing through them.
  serve_connections-entries :
      (fuel : ℕ) (k : RakNetGuid) (m n : Connections lib) (s t : Peer)
      → serve_connections lib p fuel m s ≡ ok (n, t)
      → entries k n ≡ entries k m
  unfolding serve_connections
  serve_connections-entries fuel k [] n s t e =
      let same : n ≡ [] = ground (arith, e) in ap (entries k) same
  serve_connections-entries fuel k ((j, c) ∷ m) n s t e =
      let ((out, d), u, served, then_send) =
        continue-eq-ok (lift (Connection.serve lib p fuel c) s) _ e in
      let (_, v, _, then_rest) =
        continue-eq-ok (send_to lib p d.system_address out u) _ then_send in
      let (rest, w, walked, last) = continue-eq-ok (serve_connections lib p fuel m v) _ then_rest in
      let result : n ≡ (j, d) ∷ rest = ground (arith, last) in
      let returned = (lift-eq-ok (Connection.serve lib p fuel c) s served).0 in
      ap (entries k) result
      ∙ entries-cons k j c d m rest (serve-total lib p sending fuel out c d returned)
          (serve_connections-entries fuel k m rest v w walked)

  -- What the network does to the clients sends nothing.
  moved-entries :
      (f : RakNetGuid → Peer → Peer) (k : RakNetGuid) (m : Connections lib)
      → ((j : RakNetGuid) (s : Peer) → sent (f j s) ≡ sent s)
      → entries k (moved lib p f m) ≡ entries k m
  moved-entries f k [] silent = refl
  moved-entries f k ((j, c) ∷ m) silent =
      entries-cons k j c (record c { client = f j c.client }) m (moved lib p f m)
        (rw (silent j c.client)) (moved-entries f k m silent)

  -- The packets that wait at the server are taken and handled.
  serve-notes :
      (fuel : ℕ) (k : RakNetGuid) (packets : List Packet) (self next : RakNetProxy lib)
      → length (q.waiting self.server) < fuel
      → traverse (from_packet p) (q.waiting self.server) ≡ ok packets
      → serve lib p fuel self ≡ ok next
      → entries k next.connections ≡ notes p k packets (entries k self.connections)
  serve-notes fuel k packets self next m e h =
      let (packets', server, handled, n, t, taken, l, walked, result) =
        serve-eq-ok lib p fuel self next h in
      let (_, drained, _, _) = receive_all_drains lib p q fuel self.server packets m e in
      let same : packets' ≡ packets = ground (arith, taken, drained) in
      ap (λ (r : RakNetProxy lib). entries k r.connections) (sym result)
      ∙ serve_connections-entries fuel k handled.connections n handled.server t walked
      ∙ handle_packets-notes lib p sending starting k packets' (record self { server = server })
          handled l
      ∙ ap (λ xs. notes p k xs (entries k self.connections)) same

  -- The life of a proxy, with all packets that its server has received, in their order: `new`, then
  -- calls of `serve` that return, and between them whatever the network does to its peers, which
  -- sends nothing through a client by itself.
  pub data Life : List Packet → RakNetProxy lib → Type 0 where
    made :
        (keys : Option (Bytes × Bytes)) (self : RakNetProxy lib)
        → new lib p keys ≡ ok (inr self)
        → Life [] self
    turn :
        {seen : List Packet} {self : RakNetProxy lib} (fuel : ℕ) (packets : List Packet)
        (next : RakNetProxy lib)
        → Life seen self
        → length (q.waiting self.server) < fuel
        → traverse (from_packet p) (q.waiting self.server) ≡ ok packets
        → serve lib p fuel self ≡ ok next
        → Life (seen ++ packets) next
    network :
        {seen : List Packet} {self : RakNetProxy lib} (server : Peer) (f : RakNetGuid → Peer → Peer)
        → Life seen self
        → ((j : RakNetGuid) (s : Peer) → sent (f j s) ≡ sent s)
        → Life seen (record self { server = server; connections = moved lib p f self.connections })

  -- At any point of the life of a proxy, what the connection of a client has sent to the game
  -- server, followed by what waits in it, is what the ledger of that client says: it is missing if
  -- no packet of the client opened a connection, and otherwise it holds the client's own packets
  -- since the latest that did, each as a broadcast, in the order in which the server received
  -- them. No packet is lost, doubled or overtaken, and none reaches the game server in the name of
  -- another client.
  pub Life-ledger :
      (seen : List Packet) (self : RakNetProxy lib) (k : RakNetGuid)
      → Life seen self
      → ledger lib p sending starting k self.connections ≡ notes p k seen none
  Life-ledger _ self k (made keys _ e) =
      unfold get notes in ap (entries k) (new-connections lib p keys self e)
  Life-ledger _ self k (turn {seen} {self = before} fuel packets _ life m e h) =
      serve-notes fuel k packets before self m e h
      ∙ ap (notes p k packets) (Life-ledger seen before k life)
      ∙ sym (notes-append p k seen packets none)
  Life-ledger seen _ k (network {self = before} server f life silent) =
      moved-entries f k before.connections silent ∙ Life-ledger seen before k life

-- ===== src/Wrapper/Receive/Drain.antt =====
-- `Receive` and `ReceiveAll` of src/rakpeer.rs against the queue that the library documents.
use raknet_sys.Prelude.{
  ℕ, zero, suc, ◌<◌, ◌≡◌, refl, ◌∙◌, none, some, List, [], ◌∷◌, ◌++◌, append-nil, append_assoc,
  length, arith,
}
use raknet_sys.Prelude.Outcome.{ok, traverse, >>=-eq-ok}
use raknet_sys.Native.Platform.{Platform}
use raknet_sys.Native.Structs
use raknet_sys.Peer.Interface.{RakNet}
use raknet_sys.Peer.Shim.{rak_peer_receive, rak_peer_deallocate_packet}
use raknet_sys.Wrapper.Packet.{Packet, from_packet}
use raknet_sys.Wrapper.Receive.{receive, receive_all_from, receive_all}
use raknet_sys.Wrapper.Receive.Contract.{Queueing}

module _ (lib : RakNet) (p : Platform) (q : Queueing lib) where
  open lib use {Peer}
  open q use {waiting, outstanding}

  -- The same packets are out, and these wait.
  abbrev pub Leaves : Peer → Peer → List Structs.Packet → Type 0
  Leaves s t xs = (waiting t ≡ xs) × (outstanding t ≡ outstanding s)

  pub receive-empty :
      (s : Peer) → waiting s ≡ [] → (t : Peer) × (receive lib p s ≡ ok (none, t)) × Leaves s t []
  unfolding receive rak_peer_receive
  receive-empty s h =
      let (zero_address, empty, out) = q.receive_empty s h in
      ((lib.receive s).1, ground (arith, zero_address), (empty, out))

  pub receive-next :
      (s : Peer) (x : Structs.Packet) (xs : List Structs.Packet) (y : Packet)
      → waiting s ≡ x ∷ xs
      → from_packet p x ≡ ok y
      → (t : Peer) × (receive lib p s ≡ ok (some y, t)) × Leaves s t xs
  unfolding receive rak_peer_receive rak_peer_deallocate_packet
  receive-next s x xs y h e =
      let (nonzero, at, left, out) = q.receive_next s x xs h in
      let back = q.give_back (lib.receive s).1 (lib.receive s).0 (outstanding s) out in
      (
        (lib.deallocate_packet (lib.receive s).0 (lib.receive s).1).1,
        ground (arith, nonzero, at, e),
        (back.0 ∙ left, back.1),
      )

  -- The loop, on the packets so far: the waiting packets are appended in their order.
  drain :
      (fuel : ℕ) (packets : List Packet) (xs : List Structs.Packet) (ys : List Packet) (s : Peer)
      → waiting s ≡ xs
      → length xs < fuel
      → traverse (from_packet p) xs ≡ ok ys
      → (t : Peer) × (receive_all_from lib p fuel packets s ≡ ok (packets ++ ys, t)) × Leaves s t []
  unfolding receive_all_from traverse
  drain zero packets xs ys s h m e = elim m [ ]
  drain (suc fuel) packets [] ys s h m e =
      let (t, r, left) = receive-empty s h in (t, rw r (ground (arith, append-nil packets)), left)
  drain (suc fuel) packets (x ∷ xs) ys s h m e =
      let (y, ey, rest) = >>=-eq-ok (from_packet p x) _ e in
      let (zs, ez, done) = >>=-eq-ok (traverse (from_packet p) xs) _ rest in
      let (t, r, (left, out)) = receive-next s x xs y h ey in
      let (u, ru, (empty, same)) = drain fuel (packets ++ y ∷ []) xs zs t left (omega arith) ez in
      (u, rw (r, ru) (ground (arith, append_assoc packets (y ∷ []) zs)), (empty, same ∙ out))

  -- If every waiting packet can be converted, `ReceiveAll` returns them all, in the order of the
  -- queue, and leaves the queue empty; every packet that was handed out has been given back. One
  -- round for each waiting packet and one more are enough.
  pub receive_all_drains :
      (fuel : ℕ) (s : Peer) (ys : List Packet)
      → length (waiting s) < fuel
      → traverse (from_packet p) (waiting s) ≡ ok ys
      → (t : Peer) × (receive_all lib p fuel s ≡ ok (ys, t))
        × (waiting t ≡ [])
        × (outstanding t ≡ outstanding s)
  unfolding receive_all
  receive_all_drains fuel s ys m e =
      let (t, r, (empty, same)) = drain fuel [] (waiting s) ys s refl m e in (t, r, empty, same)

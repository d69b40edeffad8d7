-- ===== src/Wrapper/Receive/Silence.antt =====
-- `Receive` and `ReceiveAll` of src/rakpeer.rs send nothing.
use raknet_sys.Prelude.{ℕ, zero, suc, ◌∙◌, inl, inr, List, [], ◌∷◌, ◌++◌, arith, Option-cases}
use raknet_sys.Prelude.State.{continue-eq-ok}
use raknet_sys.Prelude.Keeps.{Keeps}
use raknet_sys.Native.Platform.{Platform}
use raknet_sys.Peer.Interface.{RakNet}
use raknet_sys.Peer.Shim.{rak_peer_receive, rak_peer_deallocate_packet}
use raknet_sys.Wrapper.Sender.Contract.{Sending}
use raknet_sys.Wrapper.Packet.{Packet}
use raknet_sys.Wrapper.Receive.{receive, receive_all_from, receive_all}

module _ (lib : RakNet) (p : Platform) (sending : Sending lib) where
  open lib use {Peer}
  open sending use {sent}

  receive-Keeps : Keeps sent (receive lib p)
  unfolding receive rak_peer_receive rak_peer_deallocate_packet
  receive-Keeps s t o h =
      ground (
        arith,
        sending.receive_keeps s,
        sending.deallocate_keeps (lib.receive s).0 (lib.receive s).1,
      )

  receive_all_from-Keeps :
      (fuel : ℕ) (packets : List Packet) → Keeps sent (receive_all_from lib p fuel packets)
  unfolding receive_all_from
  receive_all_from-Keeps zero packets s t ys h = cc
  receive_all_from-Keeps (suc fuel) packets s t ys h =
      let (o, u, e, rest) = continue-eq-ok (receive lib p s) _ h in
      elim (Option-cases o) [
        | inl eo ↦ ground (arith, rest, eo, receive-Keeps s u o e)
        | inr (y, eo) ↦
            receive_all_from-Keeps fuel (packets ++ y ∷ []) u t ys (ground (arith, rest, eo))
            ∙ receive-Keeps s u o e
      ]

  pub receive_all-Keeps : (fuel : ℕ) → Keeps sent (receive_all lib p fuel)
  unfolding receive_all
  receive_all-Keeps fuel = receive_all_from-Keeps fuel []

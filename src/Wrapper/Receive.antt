-- ===== src/Wrapper/Receive.antt =====
-- `RakPeer::Receive` and `RakPeer::ReceiveAll` of src/rakpeer.rs.
pub mod Contract
pub mod Drain
pub mod Outcomes
pub mod Silence
use raknet_sys.Prelude.{ℕ, zero, suc, Option, none, some, List, [], ◌∷◌, ◌++◌, ◌==◌, if◌then◌else◌}
use raknet_sys.Prelude.Outcome.{out_of_fuel}
use raknet_sys.Prelude.State.{M, pure, ◌>>=◌, ◌>>◌, lift}
use raknet_sys.Native.Pointer.{deref}
use raknet_sys.Native.Platform.{Platform}
use raknet_sys.Native.Structs
use raknet_sys.Peer.Interface.{RakNet}
use raknet_sys.Peer.Shim.{rak_peer_receive, rak_peer_deallocate_packet}
use raknet_sys.Wrapper.Packet.{Packet, from_packet}

module _ (lib : RakNet) (platform : Platform) where
  open lib use {Peer}

  -- `&*packet`
  abbrev read_packet : ℕ → M Peer Structs.Packet
  read_packet packet s = lift (deref (lib.packet_at packet s)) s

  -- The second branch of `Receive`: copy the packet, then give it back.
  abbrev take_packet : ℕ → M Peer (Option Packet)
  take_packet packet = do
    value ← read_packet packet
    result ← lift (from_packet platform value)
    rak_peer_deallocate_packet lib packet
    pure (some result)

  unfoldable pub receive : M Peer (Option Packet)
  receive = do packet ← rak_peer_receive lib; if packet == 0 then pure none else take_packet packet

  -- The loop of `ReceiveAll` on the packets so far. Each round takes one unit of fuel.
  unfoldable pub receive_all_from : ℕ → List Packet → M Peer (List Packet)
  receive_all_from zero packets = lift out_of_fuel
  receive_all_from (suc fuel) packets = do
    next ← receive
    elim next [ none ↦ pure packets | some packet ↦ receive_all_from fuel (packets ++ packet ∷ []) ]

  unfoldable pub receive_all : ℕ → M Peer (List Packet)
  unfolding receive_all_from
  receive_all fuel = receive_all_from fuel []

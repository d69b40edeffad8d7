-- ===== src/Wrapper/Sender.antt =====
-- `Sender` of src/rakpeer.rs: the builder of a message, and `send`. The peer that it borrows is the
-- state of the call; `Result<u32, ()>` is `Option`, with `none` for the error.
pub mod Builder
pub mod Send
pub mod Request
pub mod Contract
use raknet_sys.Prelude.{
  ℕ, Bool, true, false, Option, none, some, Bytes, length, ◌==◌, if◌then◌else◌,
}
use raknet_sys.Prelude.Int.{ℤ, pos, as_i32}
use raknet_sys.Prelude.Outcome.{Outcome, ok, Panic, panic, no_data, no_target}
use raknet_sys.Prelude.State.{M, pure, ◌>>=◌, lift}
use raknet_sys.Native.Pointer.{to}
use raknet_sys.Native.Platform.{Platform}
use raknet_sys.Peer.Interface.{RakNet}
use raknet_sys.Peer.Shim.{rak_peer_send_data}
use raknet_sys.Wrapper.Codes.{
  PacketPriority, PacketReliability, high, reliable_ordered, into_packet_priority,
  into_packet_reliability,
}
use raknet_sys.Wrapper.Address.{AddressOrGuid, unassigned_address_or_guid, into_address_or_guid}

pub data SendTarget : Type 0 where
  broadcast_target : SendTarget
  system_identifier_target : AddressOrGuid → SendTarget

pub record Sender : Type 0 where
  pub bytes : Option Bytes
  pub priority : PacketPriority
  pub reliability : PacketReliability
  pub ordering_channel : ℤ
  pub target : Option SendTarget
  pub force_receipt_number : Option ℕ

-- `Sender::new`
unfoldable pub new : Sender
new = record {
  bytes = none;
  priority = high;
  reliability = reliable_ordered;
  ordering_channel = pos 0;
  target = none;
  force_receipt_number = none;
}

-- `Sender::data`
unfoldable pub set_data : Bytes → Sender → Sender
set_data bytes self = record self { bytes = some bytes }

-- `Sender::priority`
unfoldable pub set_priority : PacketPriority → Sender → Sender
set_priority priority self = record self { priority = priority }

-- `Sender::reliability`
unfoldable pub set_reliability : PacketReliability → Sender → Sender
set_reliability reliability self = record self { reliability = reliability }

-- `Sender::ordering_channel`
unfoldable pub set_ordering_channel : ℤ → Sender → Sender
set_ordering_channel channel self = record self { ordering_channel = channel }

-- `Sender::system_identifier`
unfoldable pub set_system_identifier : AddressOrGuid → Sender → Sender
set_system_identifier system_identifier self = record self {
  target = some (system_identifier_target system_identifier);
}

-- `Sender::broadcast`
unfoldable pub set_broadcast : Sender → Sender
set_broadcast self = record self { target = some broadcast_target }

-- `Sender::force_receipt_number`
unfoldable pub set_force_receipt_number : ℕ → Sender → Sender
set_force_receipt_number number self = record self { force_receipt_number = some number }

abbrev pub or_panic {ℓ} : {A : Type ℓ} → Option A → Panic → Outcome A
or_panic none p = panic p
or_panic (some a) p = ok a

-- The identity and the broadcast flag for a target.
abbrev pub split_target : SendTarget → AddressOrGuid × Bool
split_target broadcast_target = (unassigned_address_or_guid, true)
split_target (system_identifier_target system_identifier) = (system_identifier, false)

abbrev pub or_zero : Option ℕ → ℕ
or_zero none = 0
or_zero (some n) = n

-- `Sender::send`
unfoldable pub send : (lib : RakNet) → Platform → Sender → M lib.Peer (Option ℕ)
send lib platform self = do
  bytes ← lift (or_panic self.bytes no_data)
  target ← lift (or_panic self.target no_target)
  identifier ← lift (into_address_or_guid platform (split_target target).0)
  res ←
      rak_peer_send_data lib (to bytes) (as_i32 (length bytes)) (into_packet_priority self.priority)
        (into_packet_reliability self.reliability) self.ordering_channel (to identifier)
        (split_target target).1 (or_zero self.force_receipt_number)
  pure (if res == 0 then none else some res)

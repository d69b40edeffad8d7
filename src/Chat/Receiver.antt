-- ===== src/Chat/Receiver.antt =====
-- The loop of the chat programs of examples that prints what is received.
pub mod Shown
use raknet_sys.Prelude.{ℕ, Bool, true, false, List, [], ◌∷◌, ◌++◌, Bytes, length, if◌then◌else◌}
use raknet_sys.Prelude.Outcome.{Outcome, ok, ◌>>=◌ as ◌and_then◌, traverse}
use raknet_sys.Prelude.State.{M, ◌>>=◌, lift}
use raknet_sys.Native.Platform.{Platform}
use raknet_sys.Peer.Interface.{RakNet}
use raknet_sys.Wrapper.Address.{SystemAddress}
use raknet_sys.Wrapper.Packet.{Packet}
use raknet_sys.Wrapper.Receive.{receive_all}
use raknet_sys.Wrapper.Text.{is_utf8}
use raknet_sys.Wrapper.Text.Numbers.{decimal}
use raknet_sys.Wrapper.Address.Text.{hex}
use raknet_sys.Wrapper.Address.Printed.{system_address_to_string}
use raknet_sys.Prelude.Texts.{codes}
use raknet_sys.Proxy.Connection.{first_byte}

-- The message of a packet: a text, or the dump of bytes that are no text.
pub data Message : Type 0 where
  text : Bytes → Message
  dump : Bytes → Message

-- What is printed of a packet.
pub record Received : Type 0 where
  pub system_address : SystemAddress
  pub local : Bool
  pub packet_id : ℕ
  pub data_len : ℕ
  pub bitsize : ℕ
  pub message : Message

-- `String::from_utf8(packet.data)`
unfoldable pub message_of : Bytes → Message
message_of bytes = if is_utf8 bytes then text bytes else dump bytes

unfoldable pub show_packet : Packet → Outcome Received
show_packet packet = first_byte packet.bytes and_then λ packet_id. ok (record {
  system_address = packet.system_address;
  local = packet.local;
  packet_id = packet_id;
  data_len = length packet.bytes;
  bitsize = packet.bitsize;
  message = message_of packet.bytes;
})

-- `{:X?}`
abbrev dump_rest : Bytes → Bytes
dump_rest [] = codes "]"
dump_rest (b ∷ bs) = codes ", " ++ hex 2 b ++ dump_rest bs

abbrev dump_text : Bytes → Bytes
dump_text [] = codes "[]"
dump_text (b ∷ bs) = codes "[" ++ hex 2 b ++ dump_rest bs

abbrev message_text : Message → Bytes
message_text (text bytes) = bytes
message_text (dump bytes) = dump_text bytes

-- The line as it is printed.
unfoldable pub line_of : Received → Bytes
line_of received =
    codes "Receive from "
    ++ system_address_to_string received.system_address
    ++ (if received.local then codes "(local)" else [])
    ++ codes ": ["
    ++ hex 2 received.packet_id
    ++ codes "] ("
    ++ decimal received.data_len
    ++ codes "/"
    ++ decimal received.bitsize
    ++ codes ") "
    ++ message_text received.message

-- One round of the loop, with the fuel of `ReceiveAll`.
unfoldable pub poll : (lib : RakNet) → Platform → ℕ → M lib.Peer (List Received)
poll lib platform fuel = do
  packets ← receive_all lib platform fuel
  lift (traverse show_packet packets)

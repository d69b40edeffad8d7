-- ===== src/Chat/Console.antt =====
-- The thread of the chat programs of examples that reads the console: one line is one command.
pub mod Sends
pub mod Lines
use raknet_sys.Prelude.{
  ℕ, Bool, true, false, Option, none, some, List, [], ◌∷◌, ◌++◌, Bytes, if◌then◌else◌,
}
use raknet_sys.Prelude.Int.{ℤ}
use raknet_sys.Prelude.State.{M, pure, ◌>>=◌, ◌>>◌, lift}
use raknet_sys.Prelude.Texts.{codes}
use raknet_sys.Native.Platform.{Platform}
use raknet_sys.Native.Structs
use raknet_sys.Peer.Interface.{RakNet}
use raknet_sys.Wrapper.Address.{address, is_unassigned_address, bytes_eq}
use raknet_sys.Wrapper.Sender.{set_data, set_broadcast, send}
use raknet_sys.Wrapper.Sender
use raknet_sys.Wrapper.Methods.{
  get_system_address_from_index, get_statistics, get_average_ping, close_connection, ping,
  get_last_ping,
}
use raknet_sys.Proxy.Connection.{unwrap_sent}
use raknet_sys.Chat.Text.{trim_end}
use raknet_sys.Wrapper.Text.Utf8.{Chars, as_bytes}

pub data Command : Type 0 where
  quit stat disconnect ping_server last_ping : Command
  say : Chars → Command

-- `match message.trim_end()`
unfoldable pub parse : Chars → Command
unfolding trim_end
parse line =
    let message = trim_end line in
    if bytes_eq message (codes "quit")
    then quit
    else if bytes_eq message (codes "stat")
    then stat
    else if bytes_eq message (codes "disconnect")
    then disconnect
    else if bytes_eq message (codes "ping")
    then ping_server
    else if bytes_eq message (codes "get_last_ping")
    then last_ping
    else say message

-- What a command prints.
pub data Output : Type 0 where
  stats_line : Structs.RakNetStatistics → Output
  average_ping_line : ℤ → Output
  disconnected_line ping_sent_line : Output
  last_ping_line : Option ℤ → Output

-- `format!("Server: {}", message)` in the server, and the message itself in the client.
pub data Program : Type 0 where
  server client : Program

abbrev pub message_prefix : Program → Bytes
message_prefix server = codes "Server: "
message_prefix client = []

unfoldable pub message_bytes : Program → Chars → Bytes
message_bytes program message = message_prefix program ++ as_bytes message

module _ (lib : RakNet) (platform : Platform) where
  open lib use {Peer}

  unfoldable pub show_stats : M Peer (List Output)
  show_stats = do
    system_address ← get_system_address_from_index lib platform 0
    stats ← get_statistics lib platform system_address
    average_ping ← get_average_ping lib platform (address system_address)
    pure (stats_line stats ∷ average_ping_line average_ping ∷ [])

  unfoldable pub close_first : M Peer (List Output)
  close_first = do
    system_address ← get_system_address_from_index lib platform 0
    close_connection lib platform (address system_address) false
    pure (disconnected_line ∷ [])

  unfoldable pub ping_first : M Peer (List Output)
  ping_first = do
    s ← get_system_address_from_index lib platform 0
    if is_unassigned_address s
        then pure []
        else (do ping lib platform s; pure (ping_sent_line ∷ []))

  unfoldable pub show_last_ping : M Peer (List Output)
  show_last_ping = do
    s ← get_system_address_from_index lib platform 0
    if is_unassigned_address s
        then pure []
        else (do last ← get_last_ping lib platform (address s); pure (last_ping_line last ∷ []))

  unfoldable pub say_to_all : Program → Chars → M Peer (List Output)
  say_to_all program message = do
    result ← send lib platform (set_broadcast (set_data (message_bytes program message) Sender.new))
    lift (unwrap_sent result)
    pure []

  -- The arms of the `match`; the arm of `quit` does not call the peer.
  unfoldable pub run_command : Program → Command → M Peer (List Output)
  run_command program quit = pure []
  run_command program stat = show_stats
  run_command program disconnect = close_first
  run_command program ping_server = ping_first
  run_command program last_ping = show_last_ping
  run_command program (say message) = say_to_all program message

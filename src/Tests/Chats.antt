-- ===== src/Tests/Chats.antt =====
-- The chat programs of examples on the simulated library.
use raknet_sys.Prelude.{
  ℕ, ◌<◌, ◌≤◌, ◌≡◌, ◌≢◌, ◌↔◌, ◌⊎◌, inl, refl, true, false, some, [], ◌∷◌, ◌++◌, Bytes, arith, map,
}
use raknet_sys.Prelude.Outcome.{ok, panic, unwrap_err, out_of_range, map_ok, traverse, ◌>>=◌}
use raknet_sys.Prelude.Texts.{codes}
use raknet_sys.MessageId.{id_user_packet_enum, message_id_byte}
use raknet_sys.Wrapper.Packet.{Packet, from_packet}
use raknet_sys.Wrapper.Text.Utf8.{Chars}
use raknet_sys.Chat.Text.Trim.{EndsInText}
use raknet_sys.Chat.Console.{
  server, client, quit, say, parse, message_bytes, run_command, say_to_all,
}
use raknet_sys.Chat.Console.Lines.{Reads, IsOwn, parse_lem}
use raknet_sys.Chat.Console.Sends.{Silent}
use raknet_sys.Chat.Receiver.{Received, show_packet, poll, line_of, message_of}
use raknet_sys.Wrapper.Address.{v6}
use raknet_sys.Wrapper.Address.Printed.{
  ipv6_to_string, socket_addr_to_string, system_address_to_string,
}
use raknet_sys.Wrapper.Address.Text.{hex}
use raknet_sys.Wrapper.Text.Utf8.{as_bytes}
use raknet_sys.Wrapper.Text.{is_utf8}
use raknet_sys.Wrapper.Text.Numbers.{decimal, decimal_from, lower_hex_from}
use raknet_sys.Chat.Receiver.Shown.{
  shown_as_text, message_shown, message_identifier, StartsAscii, poll_lem,
}
use raknet_sys.Chat.Setup.{start_server, start_client}
use raknet_sys.Chat.Setup.Same.{as_proxy_error, as_connection_error, starts_same}
use raknet_sys.Chat.Threads.{
  crashed, Chat, left, broken, running, testing, finished, Step, Run, here, step, read_quit,
  read_command, carry_out, command_panics, test_ends, start,
}
use raknet_sys.Chat.Threads.Stopping.{broken_console_never_stops}
use raknet_sys.Chat.Threads.Ending.{quit_terminates}
use raknet_sys.Chat.Threads.Broadcasts.{carried, messages, run_broadcasts}
use raknet_sys.Proxy.Server
use raknet_sys.Proxy.Connection
use raknet_sys.Wrapper.Methods
use raknet_sys.Wrapper.Sender
use raknet_sys.Peer.Shim.{rak_peer_shutdown, rak_peer_send_data}
use raknet_sys.Wrapper.Sender.Send.{broadcast_args}
use raknet_sys.Wrapper.Address.{
  into_address_or_guid, into_guid, into_system_address, into_system_index, to_bits,
  unassigned_address_or_guid, unassigned_guid, unassigned_system_address,
}
use raknet_sys.Native.Platform.{swap_bytes16, swap_bytes32, to_be16, to_be32}
use raknet_sys.Tests.Simulation.{linux, Sim, idle, simulated, queueing, sending}
use raknet_sys.Tests.Messages.{packet, two_waiting}

-- The lines as `read_line` gives them.
abbrev quit_line : Chars
quit_line = codes "quit" ++ 10 ∷ []

abbrev hi_line : Chars
hi_line = codes "hi" ++ 32 ∷ 10 ∷ []

parse_lem_example :
    (parse hi_line ≡ say (codes "hi"))
    ↔ (Reads hi_line (codes "hi") × EndsInText (codes "hi") × IsOwn (say (codes "hi")))
parse_lem_example = parse_lem hi_line (say (codes "hi"))

reads_quit : parse quit_line ≡ quit
unfolding parse
reads_quit = refl

reads_hi : parse hi_line ≡ say (codes "hi")
unfolding parse
reads_hi = refl

hi-ne-quit : parse hi_line ≢ quit
hi-ne-quit h = ground (arith, reads_hi, h)

abbrev stopped : Chat simulated
stopped = record (start idle) { stop = true; console = left }

abbrev shut_down : Chat simulated
shut_down = record stopped { receiver = finished }

quits : Run simulated linux server (λ a b. Unit) (start idle) 1 stopped
quits = step here (read_quit (start idle) quit_line refl reads_quit)

ends : Run simulated linux server (λ a b. Unit) stopped 1 shut_down
unfolding Methods.shutdown rak_peer_shutdown
ends = step here (test_ends stopped idle refl refl refl)

quit_terminates_example :
    (1 ≤ 2)
    × (left ≡ left)
    × ((finished ≡ finished)
        ⊎ (finished ≡ crashed)
        ⊎ ((u : Chat simulated) × Step simulated linux server shut_down u))
unfolding traverse
quit_terminates_example =
    quit_terminates simulated linux queueing server (λ a b. Unit) idle 1 1 stopped shut_down quits
      refl ends tt

-- A library that refuses messages, and a line that it refuses.
abbrev refusing : Sim
refusing = record idle { answer = 0 }

abbrev hi_read : Sim → Chat simulated
hi_read peer = record (start peer) { console = running (parse hi_line) }

abbrev console_broken : Chat simulated
console_broken = record (hi_read refusing) { console = broken }

refused : run_command simulated linux server (parse hi_line) refusing ≡ panic unwrap_err
unfolding parse run_command say_to_all Sender.send Sender.set_broadcast Sender.set_data
    rak_peer_send_data unassigned_address_or_guid into_address_or_guid into_system_address
    unassigned_system_address into_guid into_system_index to_bits to_be16 to_be32 swap_bytes16
    swap_bytes32 unassigned_guid
refused = refl

breaks : Run simulated linux server (λ a b. Unit) (start refusing) 2 console_broken
breaks =
    step (step here (read_command (start refusing) hi_line refl hi-ne-quit))
      (command_panics (hi_read refusing) (parse hi_line) unwrap_err refusing refl refused)

broken_console_never_stops_example : (false ≡ false) × (testing ≢ finished)
broken_console_never_stops_example =
    broken_console_never_stops simulated linux server (λ a b. Unit) refusing 2 0 console_broken
      console_broken breaks refl here

abbrev silent : Silent simulated sending
silent = record {
  statistics_keep = λ a s. refl;
  average_ping_keeps = λ t s. refl;
  last_ping_keeps = λ t s. refl;
  ping_keeps = λ a s. refl;
  close_keeps = λ t notify channel priority s. refl;
  shutdown_keeps = λ ms channel priority s. refl;
}

abbrev hi_said : Chat simulated
hi_said = record (start idle) {
  peer = record idle { log = broadcast_args linux (message_bytes server (codes "hi")) ∷ [] };
}

accepted : run_command simulated linux server (parse hi_line) idle ≡ ok ([], hi_said.peer)
unfolding parse run_command say_to_all Sender.send Sender.set_broadcast Sender.set_data
    rak_peer_send_data unassigned_address_or_guid into_address_or_guid into_system_address
    unassigned_system_address into_guid into_system_index to_bits to_be16 to_be32 swap_bytes16
    swap_bytes32 unassigned_guid
accepted = refl

says : Run simulated linux server (λ a b. b.log ≡ a.log) (start idle) 2 hi_said
says =
    step (step here (read_command (start idle) hi_line refl hi-ne-quit))
      (carry_out (hi_read idle) (parse hi_line) [] hi_said.peer refl accepted)

run_broadcasts_example :
    hi_said.peer.log
    ≡ []
      ++ map
          (broadcast_args linux)
          (messages simulated linux server (carried simulated linux server says))
unfolding says
run_broadcasts_example =
    run_broadcasts simulated linux server sending silent (start idle) hi_said says ((tt, tt), tt)

-- What another program of the two is sent.
abbrev greeting : Packet
greeting = packet (message_bytes server (codes "hi"))

message_shown_example :
    ((server ≡ client) × (codes "hi" ≡ []) × (show_packet greeting ≡ panic out_of_range))
    ⊎ ((b : ℕ) × (bs : Bytes) × (message_bytes server (codes "hi") ≡ b ∷ bs)
        × (show_packet greeting ≡ ok (shown_as_text greeting b)))
message_shown_example =
    message_shown server (codes "hi") greeting (inl (omega arith), (inl (omega arith), tt)) refl

message_identifier_example :
    ((server ≡ client) × (codes "hi" ≡ []) × (show_packet greeting ≡ panic out_of_range))
    ⊎ ((received : Received) × (show_packet greeting ≡ ok received)
        × ((received.packet_id < message_id_byte id_user_packet_enum)
            ↔ ((server ≡ server) ⊎ StartsAscii (codes "hi"))))
message_identifier_example =
    message_identifier server (codes "hi") greeting (inl (omega arith), (inl (omega arith), tt))
      refl

poll_lem_example :
    map_ok (λ r. r.0) (poll simulated linux 3 two_waiting)
    ≡ (traverse (from_packet linux) two_waiting.queue >>= traverse show_packet)
poll_lem_example = poll_lem simulated linux queueing 3 two_waiting (omega arith)

starts_same_example :
    (map_ok
        (λ x. (as_proxy_error x.0, x.1))
        (start_server simulated linux (some (1 ∷ [], 2 ∷ [])) idle)
      ≡ Server.start_server simulated linux (some (1 ∷ [], 2 ∷ [])) idle)
    × (map_ok (λ x. (as_connection_error x.0, x.1)) (start_client simulated linux idle)
        ≡ Connection.start_client simulated linux idle)
starts_same_example = starts_same simulated linux (some (1 ∷ [], 2 ∷ [])) idle

-- A message of the server, and bytes that are no text.
greeting_line :
    map_ok line_of (show_packet greeting)
    ≡ ok (codes "Receive from 127.0.0.1:4564: [53] (10/8) Server: hi")
unfolding show_packet message_of line_of system_address_to_string socket_addr_to_string decimal
    decimal_from hex message_bytes as_bytes is_utf8
greeting_line = refl

dump_line :
    map_ok line_of (show_packet (record (packet (200 ∷ 255 ∷ [])) { local = true }))
    ≡ ok (codes "Receive from 127.0.0.1:4564(local): [C8] (2/8) [C8, FF]")
unfolding show_packet message_of line_of system_address_to_string socket_addr_to_string decimal
    decimal_from hex is_utf8
dump_line = refl

ipv6_texts :
    (socket_addr_to_string
        (v6 (32 ∷ 1 ∷ 13 ∷ 184 ∷ 0 ∷ 0 ∷ 0 ∷ 0 ∷ 0 ∷ 1 ∷ 0 ∷ 0 ∷ 0 ∷ 0 ∷ 0 ∷ 10 ∷ []) 80)
      ≡ codes "[2001:db8::1:0:0:a]:80")
    × (socket_addr_to_string
          (v6 (0 ∷ 0 ∷ 0 ∷ 0 ∷ 0 ∷ 0 ∷ 0 ∷ 0 ∷ 0 ∷ 0 ∷ 255 ∷ 255 ∷ 127 ∷ 0 ∷ 0 ∷ 1 ∷ []) 80)
        ≡ codes "[::ffff:127.0.0.1]:80")
unfolding socket_addr_to_string ipv6_to_string decimal decimal_from lower_hex_from
ipv6_texts = (refl, refl)

-- ===== src/Chat/Console/Sends.antt =====
-- What the commands of the chat programs of examples send: one message for a line that is no other
-- command, and nothing for those.
use raknet_sys.Prelude.{
  ℕ, ◌≡◌, ◌≢◌, ap, sym, ◌∙◌, ◌⊎◌, inl, inr, Bool, false, none, some, List, [], ◌∷◌, ◌++◌, map,
  append-nil, Bytes, arith, ◌==◌, if◌then◌else◌, Bool-cases,
}
use raknet_sys.Prelude.Outcome.{ok, panic, unwrap_err, traverse}
use raknet_sys.Prelude.Keeps.{
  Keeps, Keeps-pure, Keeps-lift, Keeps-call, Keeps-bind, Keeps-if, Keeps-after_lift,
  Keeps-after_call,
}
use raknet_sys.Native.Platform.{Platform}
use raknet_sys.Native.Structs
use raknet_sys.Peer.Interface.{RakNet}
use raknet_sys.Peer.Shim.{
  rak_peer_get_system_address_from_index, rak_peer_get_statistics_address,
  rak_peer_get_average_ping, rak_peer_close_connection, rak_peer_ping, rak_peer_get_last_ping,
  rak_peer_shutdown,
}
use raknet_sys.Wrapper.Address.{
  SystemAddress, AddressOrGuid, from_system_address, into_system_address, into_address_or_guid,
  address, is_unassigned_address,
}
use raknet_sys.Wrapper.Sender.Send.{broadcast_args, send-broadcast}
use raknet_sys.Wrapper.Sender.Contract.{Sending}
use raknet_sys.Wrapper.Methods.{
  get_system_address_from_index, get_statistics, get_average_ping, close_connection, ping,
  get_last_ping, shutdown, zeroed_statistics,
}
use raknet_sys.Wrapper.Receive.{receive_all}
use raknet_sys.Wrapper.Receive.Silence.{receive_all-Keeps}
use raknet_sys.Chat.Receiver.{show_packet, poll}
use raknet_sys.Chat.Console.{
  Program, Command, quit, stat, disconnect, ping_server, last_ping, say, Output, message_bytes,
  show_stats, close_first, ping_first, show_last_ping, say_to_all, run_command, stats_line,
  average_ping_line, disconnected_line, ping_sent_line, last_ping_line,
}
use raknet_sys.Wrapper.Text.Utf8.{Chars}
use raknet_sys.Prelude.Int.{◌==ℤ◌, negsuc}
use raknet_sys.Wrapper.Duration.{Duration, time_ms}
use raknet_sys.Wrapper.Codes.{low, into_packet_priority}

-- No call of the chat programs but `Send` sends a message of the program.
pub record Silent (lib : RakNet) (sending : Sending lib) : Type 0 where
  pub statistics_keep :
      (a : Structs.SystemAddress) (s : lib.Peer)
      → sending.sent (lib.get_statistics a s).1 ≡ sending.sent s
  pub average_ping_keeps :
      (t : Structs.AddressOrGuid) (s : lib.Peer)
      → sending.sent (lib.get_average_ping t s).1 ≡ sending.sent s
  pub last_ping_keeps :
      (t : Structs.AddressOrGuid) (s : lib.Peer)
      → sending.sent (lib.get_last_ping t s).1 ≡ sending.sent s
  pub ping_keeps :
      (a : Structs.SystemAddress) (s : lib.Peer) → sending.sent (lib.ping a s).1 ≡ sending.sent s
  pub close_keeps :
      (t : Structs.AddressOrGuid) (notify : Bool) (channel priority : ℕ) (s : lib.Peer)
      → sending.sent (lib.close_connection t notify channel priority s).1 ≡ sending.sent s
  pub shutdown_keeps :
      (ms channel priority : ℕ) (s : lib.Peer)
      → sending.sent (lib.shutdown ms channel priority s).1 ≡ sending.sent s

-- What a command sends.
abbrev pub command_messages : Program → Command → List Bytes
command_messages program (say message) = message_bytes program message ∷ []
command_messages program _ = []

module _ (lib : RakNet) (p : Platform) (sending : Sending lib) (silent : Silent lib sending) where
  open lib use {Peer}
  open sending use {sent}

  lookup-Keeps : (i : ℕ) → Keeps sent (get_system_address_from_index lib p i)
  unfolding get_system_address_from_index rak_peer_get_system_address_from_index
  lookup-Keeps i =
      Keeps-after_call sent (lib.get_system_address_from_index i) (sending.lookup_keeps i)
        λ a. Keeps-lift sent (from_system_address p a)

  statistics-Keeps : (a : SystemAddress) → Keeps sent (get_statistics lib p a)
  unfolding get_statistics rak_peer_get_statistics_address
  statistics-Keeps a = Keeps-after_lift sent (into_system_address p a) λ n.
      Keeps-after_call sent (lib.get_statistics n) (silent.statistics_keep n) λ found.
        Keeps-pure sent (elim found [ none ↦ zeroed_statistics | some statistics ↦ statistics ])

  average_ping-Keeps : (t : AddressOrGuid) → Keeps sent (get_average_ping lib p t)
  unfolding get_average_ping rak_peer_get_average_ping
  average_ping-Keeps t =
      Keeps-after_lift sent (into_address_or_guid p t)
        λ n. Keeps-call sent (lib.get_average_ping n) (silent.average_ping_keeps n)

  last_ping-Keeps : (t : AddressOrGuid) → Keeps sent (get_last_ping lib p t)
  unfolding get_last_ping rak_peer_get_last_ping
  last_ping-Keeps t = Keeps-after_lift sent (into_address_or_guid p t) λ n.
      Keeps-after_call sent (lib.get_last_ping n) (silent.last_ping_keeps n)
        λ res. Keeps-pure sent (if res ==ℤ negsuc 0 then none else some res)

  close_connection-Keeps :
      (t : AddressOrGuid) (notify : Bool) → Keeps sent (close_connection lib p t notify)
  unfolding close_connection rak_peer_close_connection
  close_connection-Keeps t notify = Keeps-after_lift sent (into_address_or_guid p t) λ n.
      Keeps-call sent (lib.close_connection n notify 0 (into_packet_priority low))
        (silent.close_keeps n notify 0 (into_packet_priority low))

  ping-Keeps : (a : SystemAddress) → Keeps sent (ping lib p a)
  unfolding ping rak_peer_ping
  ping-Keeps a =
      Keeps-after_lift sent (into_system_address p a)
        λ n. Keeps-call sent (lib.ping n) (silent.ping_keeps n)

  -- The commands that are no message.
  show_stats-Keeps : Keeps sent (show_stats lib p)
  unfolding show_stats
  show_stats-Keeps = Keeps-bind sent (get_system_address_from_index lib p 0) (lookup-Keeps 0) λ a.
      Keeps-bind sent (get_statistics lib p a) (statistics-Keeps a) λ stats.
        Keeps-bind sent (get_average_ping lib p (address a)) (average_ping-Keeps (address a))
          λ average. Keeps-pure sent (stats_line stats ∷ average_ping_line average ∷ [])

  close_first-Keeps : Keeps sent (close_first lib p)
  unfolding close_first
  close_first-Keeps = Keeps-bind sent (get_system_address_from_index lib p 0) (lookup-Keeps 0) λ a.
      Keeps-bind sent (close_connection lib p (address a) false)
        (close_connection-Keeps (address a) false) λ _. Keeps-pure sent (disconnected_line ∷ [])

  ping_first-Keeps : Keeps sent (ping_first lib p)
  unfolding ping_first
  ping_first-Keeps = Keeps-bind sent (get_system_address_from_index lib p 0) (lookup-Keeps 0) λ a.
      Keeps-if sent (is_unassigned_address a) _ _ (Keeps-pure sent [])
        (Keeps-bind sent (ping lib p a) (ping-Keeps a) λ _. Keeps-pure sent (ping_sent_line ∷ []))

  show_last_ping-Keeps : Keeps sent (show_last_ping lib p)
  unfolding show_last_ping
  show_last_ping-Keeps =
      Keeps-bind sent (get_system_address_from_index lib p 0) (lookup-Keeps 0) λ a.
        Keeps-if sent (is_unassigned_address a) _ _ (Keeps-pure sent []) (
          Keeps-bind sent (get_last_ping lib p (address a)) (last_ping-Keeps (address a))
            λ last. Keeps-pure sent (last_ping_line last ∷ []))

  pub say_to_all_cases :
      (program : Program) (message : Chars) (s : Peer)
      → ((say_to_all lib p program message s ≡ panic unwrap_err)
          × ((lib.send (broadcast_args p (message_bytes program message)) s).0 ≡ 0))
        ⊎ ((say_to_all lib p program message s
              ≡ ok ([], (lib.send (broadcast_args p (message_bytes program message)) s).1))
            × ((lib.send (broadcast_args p (message_bytes program message)) s).0 ≢ 0))
  unfolding say_to_all
  say_to_all_cases program message s =
      let bytes = message_bytes program message in
      elim (Bool-cases ((lib.send (broadcast_args p bytes) s).0 == 0)) [
        | inl refused ↦ inl (rw (send-broadcast lib p bytes s, refused), ground (arith, refused))
        | inr accepted ↦ inr (rw (send-broadcast lib p bytes s, accepted), ground (arith, accepted))
      ]

  -- A message that was accepted comes last.
  say_to_all-sent :
      (program : Program) (message : Chars) (s t : Peer) (out : List Output)
      → say_to_all lib p program message s ≡ ok (out, t)
      → sent t ≡ sent s ++ broadcast_args p (message_bytes program message) ∷ []
  say_to_all-sent program message s t out h =
      let args = broadcast_args p (message_bytes program message) in
      elim (say_to_all_cases program message s) [
        | inl (e, _) ↦ absurd (ground (arith, h, e))
        | inr (e, accepted) ↦
            let same : t ≡ (lib.send args s).1 = ground (arith, h, e) in
            ap sent same ∙ sending.send_accepted args s accepted
      ]

  pub run_command-sent :
      (program : Program) (command : Command) (s t : Peer) (out : List Output)
      → run_command lib p program command s ≡ ok (out, t)
      → sent t ≡ sent s ++ map (broadcast_args p) (command_messages program command)
  unfolding run_command
  run_command-sent program (say message) s t out h = say_to_all-sent program message s t out h
  run_command-sent program quit s t out h = Keeps-pure sent [] s t out h ∙ sym (append-nil (sent s))
  run_command-sent program stat s t out h = show_stats-Keeps s t out h ∙ sym (append-nil (sent s))
  run_command-sent program disconnect s t out h =
      close_first-Keeps s t out h ∙ sym (append-nil (sent s))
  run_command-sent program ping_server s t out h =
      ping_first-Keeps s t out h ∙ sym (append-nil (sent s))
  run_command-sent program last_ping s t out h =
      show_last_ping-Keeps s t out h ∙ sym (append-nil (sent s))

  pub poll-Keeps : (fuel : ℕ) → Keeps sent (poll lib p fuel)
  unfolding poll
  poll-Keeps fuel =
      Keeps-bind sent (receive_all lib p fuel) (receive_all-Keeps lib p sending fuel)
        λ packets. Keeps-lift sent (traverse show_packet packets)

  pub shutdown-Keeps : (block_duration : Duration) → Keeps sent (shutdown lib block_duration)
  unfolding shutdown rak_peer_shutdown
  shutdown-Keeps block_duration =
      Keeps-call sent (lib.shutdown (time_ms block_duration) 0 (into_packet_priority low))
        (silent.shutdown_keeps (time_ms block_duration) 0 (into_packet_priority low))

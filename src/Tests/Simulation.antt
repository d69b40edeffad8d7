-- ===== src/Tests/Simulation.antt =====
-- A library that keeps a queue of packets and a log of messages in memory, in place of RakNet.
use raknet_sys.Prelude.{
  ◌⊎◌, inl, inr, ltb, ℕ, suc, ◌+◌, ◌%◌, ◌≡◌, ◌≢◌, refl, true, none, List, [], ◌∷◌, ◌++◌, length,
  replicate, arith, ◌==◌, if◌then◌else◌,
}
use raknet_sys.Prelude.Int.{ℤ, pos, negsuc}
use raknet_sys.Prelude.Outcome.{Undefined, out_of_bounds}
use raknet_sys.Native.Pointer.{Ptr, null, to}
use raknet_sys.Native.Platform.{Platform}
use raknet_sys.Native.Structs
use raknet_sys.Peer.Interface.{RakNet, SendArgs}
use raknet_sys.Wrapper.Sender.Contract.{Sending}
use raknet_sys.Wrapper.Receive.Contract.{Queueing}
use raknet_sys.Proxy.Connection.Fresh.{Starting}

abbrev pub linux : Platform
linux = record { little_endian = true; af_inet = 2; af_inet6 = 10 }

-- 127.0.0.1:4564 on a little-endian machine
abbrev pub native_local : Structs.SystemAddress
native_local = record {
  sin_family = 2;
  sin_port = 0xD411;
  s_addr = 0x0100007F;
  sin_zero = replicate 8 0;
  debug_port = 0;
  system_index = 0;
}

-- 0.0.0.0:0, without an index: no server is connected
abbrev pub native_nowhere : Structs.SystemAddress
native_nowhere = record {
  sin_family = 2;
  sin_port = 0;
  s_addr = 0;
  sin_zero = replicate 8 0;
  debug_port = 0;
  system_index = 0xFFFF;
}

pub record Sim : Type 0 where
  pub queue : List Structs.Packet
  pub held : List (ℕ × Structs.Packet)
  pub log : List SendArgs
  -- what the first index is connected to
  pub server : Structs.SystemAddress
  -- what the library answers to a message
  pub answer : ℕ

abbrev pub idle : Sim
idle = record { queue = []; held = []; log = []; server = native_nowhere; answer = 7 }

abbrev pub connected : Sim
connected = record idle { server = native_local }

abbrev find : ℕ → List (ℕ × Structs.Packet) → Ptr Structs.Packet
find a [] = null
find a ((b, x) ∷ held) = if a == b then to x else find a held

abbrev remove : ℕ → List (ℕ × Structs.Packet) → List (ℕ × Structs.Packet)
remove a [] = []
remove a ((b, x) ∷ held) = if a == b then held else (b, x) ∷ remove a held

-- A packet that is handed out has an address that no packet before it has.
abbrev take_first : Sim → List Structs.Packet → ℕ × Sim
take_first s [] = (0, s)
take_first s (x ∷ xs) =
    let a : ℕ = suc (length s.held) in (a, record s { queue = xs; held = (a, x) ∷ s.held })

abbrev accept : SendArgs → Sim → ℕ × Sim
accept args s = (s.answer, record s { log = s.log ++ args ∷ [] })

-- At most ten internal addresses.
abbrev internal_id : ℤ → Sim → Undefined ⊎ (Structs.SystemAddress × Sim)
internal_id (pos i) s = if ltb i 10 then inr (native_local, s) else inl out_of_bounds
internal_id (negsuc i) s = inl out_of_bounds

abbrev pub simulated : RakNet
simulated = record {
  Peer = Sim;
  get_instance = λ n. idle;
  startup = λ max sockets count priority s. (0, s);
  shutdown = λ ms channel priority s. (tt, s);
  initialize_security = λ public_key private_key require s. (true, s);
  set_maximum_incoming_connections = λ n s. (tt, s);
  connect = λ args s. (0, record s { server = native_local });
  close_connection = λ target notify channel priority s. (tt, s);
  send = accept;
  receive = λ s. take_first s s.queue;
  packet_at = λ a s. find a s.held;
  deallocate_packet = λ a s. (tt, record s { held = remove a s.held });
  ping = λ target s. (tt, s);
  get_average_ping = λ target s. (pos 12, s);
  get_last_ping = λ target s. (negsuc 0, s);
  set_occasional_ping = λ on s. (tt, s);
  get_system_address_from_index = λ i s. (s.server, s);
  get_guid_from_system_address = λ a s. (record { g = 5; system_index = 0 }, s);
  get_internal_id = λ a i s. internal_id i s;
  get_number_of_addresses = λ s. (2, s);
  get_local_ip = λ i s. (to (49 ∷ (48 + i % 10) ∷ []), s);
  get_statistics = λ a s. (none, s);
  set_timeout_time = λ ms a s. (tt, s);
  set_unreliable_timeout = λ ms s. (tt, s);
  allow_connection_response_ip_migration = λ on s. (tt, s);
}

abbrev addresses : List (ℕ × Structs.Packet) → List ℕ
addresses [] = []
addresses ((a, x) ∷ held) = a ∷ addresses held

pub remove_first :
    (a : ℕ) (rest : List ℕ) (held : List (ℕ × Structs.Packet))
    → addresses held ≡ a ∷ rest
    → addresses (remove a held) ≡ rest
remove_first a rest [] h = cc
remove_first a rest ((b, x) ∷ held) h = ground (arith, h)

pub take_empty :
    (s : Sim) (queue : List Structs.Packet)
    → s.queue ≡ queue
    → queue ≡ []
    → ((take_first s queue).0 ≡ 0)
      × ((take_first s queue).1.queue ≡ [])
      × (addresses (take_first s queue).1.held ≡ addresses s.held)
take_empty s [] e h = (refl, e, refl)
take_empty s (x ∷ xs) e h = cc

pub take_next :
    (s : Sim) (queue : List Structs.Packet) (x : Structs.Packet) (xs : List Structs.Packet)
    → queue ≡ x ∷ xs
    → ((take_first s queue).0 ≢ 0)
      × (find (take_first s queue).0 (take_first s queue).1.held ≡ to x)
      × ((take_first s queue).1.queue ≡ xs)
      × (addresses (take_first s queue).1.held ≡ (take_first s queue).0 ∷ addresses s.held)
take_next s [] x xs e = cc
take_next s (y ∷ ys) x xs e = ground (arith, e)

-- The simulated queue is the documented one.
abbrev pub queueing : Queueing simulated
queueing = record {
  waiting = λ s. s.queue;
  outstanding = λ s. addresses s.held;
  receive_empty = λ s h. take_empty s s.queue refl h;
  receive_next = λ s x xs h. take_next s s.queue x xs h;
  give_back = λ s a rest h. (refl, remove_first a rest s.held h);
}

pub take_first-log : (s : Sim) (queue : List Structs.Packet) → (take_first s queue).1.log ≡ s.log
take_first-log s [] = refl
take_first-log s (x ∷ xs) = refl

-- The simulated log is the one that the users of `Sender` rely on.
abbrev pub sending : Sending simulated
sending = record {
  sent = λ s. s.log;
  send_accepted = λ args s h. refl;
  lookup_keeps = λ i s. refl;
  receive_keeps = λ s. take_first-log s s.queue;
  deallocate_keeps = λ a s. refl;
}

-- New instances of the simulated library have sent nothing.
abbrev pub starts_silent : Starting simulated sending.sent
starts_silent = record {
  fresh = λ n. refl;
  startup_keeps = λ max sockets count priority s. refl;
  connect_keeps = λ args s. refl;
  occasional_ping_keeps = λ on s. refl;
  ip_migration_keeps = λ on s. refl;
}

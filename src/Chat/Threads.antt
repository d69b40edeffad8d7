-- ===== src/Chat/Threads.antt =====
-- The two threads of the chat programs of examples, which share the peer and the flag `stop`: one
-- reads the console, the other receives until the flag is set and then shuts the peer down.
pub mod Stopping
pub mod Ending
pub mod Broadcasts
use raknet_sys.Prelude.{ℕ, zero, suc, ◌≡◌, ◌≢◌, Bool, true, false, List, [], ◌∷◌, ◌++◌}
use raknet_sys.Prelude.Outcome.{ok, Panic, panic}
use raknet_sys.Native.Platform.{Platform}
use raknet_sys.Peer.Interface.{RakNet}
use raknet_sys.Wrapper.Duration.{Duration}
use raknet_sys.Wrapper.Methods.{shutdown}
use raknet_sys.Wrapper.Text.Utf8.{Chars}
use raknet_sys.Chat.Console.{Program, Command, quit, parse, Output, run_command}
use raknet_sys.Chat.Receiver.{Received, poll}

-- Where the thread of the console stands: before a line, with a command to carry out, after `quit`,
-- or after a panic.
pub data Console : Type 0 where
  reading : Console
  running : Command → Console
  left : Console
  broken : Console

-- Where the receiving thread stands: before the test of the flag, in the body of the loop, after
-- `Shutdown`, or after a panic.
pub data Receiver : Type 0 where
  testing receiving finished crashed : Receiver

pub record Chat (lib : RakNet) : Type 0 where
  pub peer : lib.Peer
  pub stop : Bool
  pub console : Console
  pub receiver : Receiver
  -- what each thread has printed, the oldest first
  pub printed : List Output
  pub shown : List Received

abbrev pub shutdown_time : Duration
shutdown_time = record { seconds = 0; nanoseconds = 300000000 }

module _ (lib : RakNet) (p : Platform) (program : Program) where
  -- One step of one of the threads: a line is read or can not be, a command is carried out, the flag is tested, a
  -- round of the loop is made, the peer is shut down. A panic ends its thread and no
  -- other; what the calls before it have done to the peer is left open.
  pub data Step : Chat lib → Chat lib → Type 0 where
    read_quit :
        (s : Chat lib) (line : Chars)
        → s.console ≡ reading
        → parse line ≡ quit
        → Step s (record s { stop = true; console = left })
    read_command :
        (s : Chat lib) (line : Chars)
        → s.console ≡ reading
        → parse line ≢ quit
        → Step s (record s { console = running (parse line) })
    read_panics : (s : Chat lib) → s.console ≡ reading → Step s (record s { console = broken })
    carry_out :
        (s : Chat lib) (command : Command) (out : List Output) (peer : lib.Peer)
        → s.console ≡ running command
        → run_command lib p program command s.peer ≡ ok (out, peer)
        → Step s (record s { peer = peer; console = reading; printed = s.printed ++ out })
    command_panics :
        (s : Chat lib) (command : Command) (e : Panic) (peer : lib.Peer)
        → s.console ≡ running command
        → run_command lib p program command s.peer ≡ panic e
        → Step s (record s { peer = peer; console = broken })
    test_continues :
        (s : Chat lib)
        → s.receiver ≡ testing
        → s.stop ≡ false
        → Step s (record s { receiver = receiving })
    round :
        (s : Chat lib) (fuel : ℕ) (packets : List Received) (peer : lib.Peer)
        → s.receiver ≡ receiving
        → poll lib p fuel s.peer ≡ ok (packets, peer)
        → Step s (record s { peer = peer; receiver = testing; shown = s.shown ++ packets })
    round_panics :
        (s : Chat lib) (fuel : ℕ) (e : Panic) (peer : lib.Peer)
        → s.receiver ≡ receiving
        → poll lib p fuel s.peer ≡ panic e
        → Step s (record s { peer = peer; receiver = crashed })
    test_ends :
        (s : Chat lib) (peer : lib.Peer)
        → s.receiver ≡ testing
        → s.stop ≡ true
        → shutdown lib shutdown_time s.peer ≡ ok (tt, peer)
        → Step s (record s { peer = peer; receiver = finished })

  -- So many steps of the threads, in any order, and between them whatever the network does to the
  -- peer that it is allowed to do.
  pub data Run (allowed : lib.Peer → lib.Peer → Type 0) (from : Chat lib)
      : ℕ → Chat lib → Type 0 where
    here : Run allowed from zero from
    step : {n : ℕ} {s t : Chat lib} → Run allowed from n s → Step s t → Run allowed from (suc n) t
    network :
        {n : ℕ} {s : Chat lib} (peer : lib.Peer)
        → Run allowed from n s
        → allowed s.peer peer
        → Run allowed from n (record s { peer = peer })

-- Where the threads start.
abbrev pub start : {lib : RakNet} → lib.Peer → Chat lib
start peer = record {
  peer = peer;
  stop = false;
  console = reading;
  receiver = testing;
  printed = [];
  shown = [];
}

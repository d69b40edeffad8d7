-- ===== src/Chat/Threads/Stopping.antt =====
-- How the chat programs of examples end: what `quit` does to the other thread, and what its loss does.
use raknet_sys.Prelude.{ℕ, ◌+◌, ◌≤◌, ◌<◌, ◌≡◌, ◌≢◌, refl, true, false, arith, Bool-cases, inl, inr}
use raknet_sys.Native.Platform.{Platform}
use raknet_sys.Peer.Interface.{RakNet}
use raknet_sys.Peer.Shim.{rak_peer_shutdown}
use raknet_sys.Wrapper.Methods.{shutdown}
use raknet_sys.Chat.Console.{Program}
use raknet_sys.Chat.Threads.{
  left, broken, Receiver, testing, receiving, finished, crashed, Chat, Step, read_quit,
  read_command, read_panics, carry_out, command_panics, test_continues, round, round_panics,
  test_ends, Run, here, step, network, start,
}

module _ (lib : RakNet) (p : Platform) (program : Program)
    (allowed : lib.Peer → lib.Peer → Type 0) where
  -- The flag is set exactly when the console was left, and the receiving thread shuts the peer down
  -- only then.
  pub record Agreed (s : Chat lib) : Type 0 where
    pub quit_sets : s.console ≡ left → s.stop ≡ true
    pub only_quit : s.stop ≡ true → s.console ≡ left
    pub not_before : s.receiver ≡ finished → s.stop ≡ true

  Step-Agreed : {s t : Chat lib} → Step lib p program s t → Agreed s → Agreed t
  Step-Agreed (read_quit s line c e) h = ground (arith, h)
  Step-Agreed (read_command s line c e) h = ground (arith, h)
  Step-Agreed (read_panics s c) h = ground (arith, h)
  Step-Agreed (carry_out s command out peer c e) h = ground (arith, h)
  Step-Agreed (command_panics s command x peer c e) h = ground (arith, h)
  Step-Agreed (test_continues s r e) h = ground (arith, h)
  Step-Agreed (round s fuel packets peer r e) h = ground (arith, h)
  Step-Agreed (round_panics s fuel x peer r e) h = ground (arith, h)
  Step-Agreed (test_ends s peer r e k) h = ground (arith, h)

  pub Run-Agreed :
      {s : Chat lib} {n : ℕ} {t : Chat lib} → Agreed s → Run lib p program allowed s n t → Agreed t
  Run-Agreed h here = h
  Run-Agreed h (step run st) = Step-Agreed st (Run-Agreed h run)
  Run-Agreed h (network peer run a) =
      let k = Run-Agreed h run in
      record { quit_sets = k.quit_sets; only_quit = k.only_quit; not_before = k.not_before }

  pub start-Agreed : (peer : lib.Peer) → Agreed (start peer)
  start-Agreed peer = ground arith

  -- The steps that the receiving thread still makes once the flag is set.
  abbrev pub remaining : Receiver → ℕ
  remaining receiving = 2
  remaining testing = 1
  remaining finished = 0
  remaining crashed = 0

  Step-remaining :
      {s t : Chat lib}
      → Step lib p program s t
      → Agreed s
      → s.stop ≡ true
      → (t.stop ≡ true) × (remaining t.receiver < remaining s.receiver)
  Step-remaining (read_quit s line c e) h stopped = absurd (ground (arith, h, stopped, c))
  Step-remaining (read_command s line c e) h stopped = absurd (ground (arith, h, stopped, c))
  Step-remaining (read_panics s c) h stopped = absurd (ground (arith, h, stopped, c))
  Step-remaining (carry_out s command out peer c e) h stopped =
      absurd (ground (arith, h, stopped, c))
  Step-remaining (command_panics s command x peer c e) h stopped =
      absurd (ground (arith, h, stopped, c))
  Step-remaining (test_continues s r e) h stopped = absurd (ground (arith, stopped, e))
  Step-remaining (round s fuel packets peer r e) h stopped = ground (arith, stopped, r)
  Step-remaining (round_panics s fuel x peer r e) h stopped = ground (arith, stopped, r)
  Step-remaining (test_ends s peer r e k) h stopped = ground (arith, stopped, r)

  pub Run-remaining :
      {s : Chat lib} {n : ℕ} {t : Chat lib}
      → Agreed s
      → s.stop ≡ true
      → Run lib p program allowed s n t
      → (t.stop ≡ true) × (n + remaining t.receiver ≤ remaining s.receiver)
  Run-remaining h stopped here = (stopped, omega arith)
  Run-remaining h stopped (step {s = u} run st) =
      let (stopped', before) = Run-remaining h stopped run in
      let (stopped'', less) = Step-remaining st (Run-Agreed h run) stopped' in
      (stopped'', omega arith)
  Run-remaining h stopped (network peer run a) = Run-remaining h stopped run

  pub remaining-le : (r : Receiver) → remaining r ≤ 2
  remaining-le r = ground arith

  -- The test of a flag that is set is followed by `Shutdown`, which returns.
  pub test-ends :
      (s : Chat lib)
      → s.receiver ≡ testing
      → s.stop ≡ true
      → (t : Chat lib) × Step lib p program s t × (t.receiver ≡ finished)
  unfolding shutdown rak_peer_shutdown
  test-ends s r e = (_, test_ends s _ r e refl, refl)

  Step-broken :
      {s t : Chat lib}
      → Step lib p program s t
      → s.console ≡ broken
      → s.stop ≡ false
      → (t.console ≡ broken) × (t.stop ≡ false)
  Step-broken (read_quit s line k e) c stop = absurd (ground (arith, k, c))
  Step-broken (read_command s line k e) c stop = absurd (ground (arith, k, c))
  Step-broken (read_panics s k) c stop = absurd (ground (arith, k, c))
  Step-broken (carry_out s command out peer k e) c stop = absurd (ground (arith, k, c))
  Step-broken (command_panics s command x peer k e) c stop = absurd (ground (arith, k, c))
  Step-broken (test_continues s r e) c stop = (c, stop)
  Step-broken (round s fuel packets peer r e) c stop = (c, stop)
  Step-broken (round_panics s fuel x peer r e) c stop = (c, stop)
  Step-broken (test_ends s peer r e k) c stop = (c, stop)

  Run-broken :
      {s : Chat lib} {n : ℕ} {t : Chat lib}
      → s.console ≡ broken
      → s.stop ≡ false
      → Run lib p program allowed s n t
      → (t.console ≡ broken) × (t.stop ≡ false)
  Run-broken c e here = (c, e)
  Run-broken c e (step run st) = let (c', e') = Run-broken c e run in Step-broken st c' e'
  Run-broken c e (network peer run a) = Run-broken c e run

  not_stopped : (s : Chat lib) → Agreed s → s.console ≡ broken → s.stop ≡ false
  not_stopped s agreed c = elim (Bool-cases s.stop) [
    | inl set ↦ absurd (ground (arith, c, agreed.only_quit set))
    | inr unset ↦ unset
  ]

  -- If the thread of the console panics, the flag is never set any more, and the receiving thread
  -- never ends with the shutdown of the peer, in whatever order the threads and the network go on.
  pub broken_console_never_stops :
      (peer : lib.Peer) (m n : ℕ) (s t : Chat lib)
      → Run lib p program allowed (start peer) m s
      → s.console ≡ broken
      → Run lib p program allowed s n t
      → (t.stop ≡ false) × (t.receiver ≢ finished)
  broken_console_never_stops peer m n s t before c run =
      let agreed = Run-Agreed (start-Agreed peer) before in
      let unset = not_stopped s agreed c in
      let (_, e) = Run-broken c unset run in
      let later = Run-Agreed agreed run in (e, λ done. ground (arith, e, later.not_before done))

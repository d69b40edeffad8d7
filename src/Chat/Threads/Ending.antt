-- ===== src/Chat/Threads/Ending.antt =====
-- How the chat programs of examples come to their end after `quit`.
use raknet_sys.Prelude.{
  ℕ, suc, ◌≤◌, ◌≡◌, ◌⊎◌, refl, inl, inr, true, List, [], ◌∷◌, length, arith, Bool-cases, Bytes,
}
use raknet_sys.Prelude.Outcome.{Outcome, ok, panic, undefined, out_of_fuel, traverse, map_ok, ◌>>=◌}
use raknet_sys.Native.Platform.{Platform}
use raknet_sys.Peer.Interface.{RakNet}
use raknet_sys.Wrapper.Packet.{Packet, from_packet}
use raknet_sys.Wrapper.Receive.Contract.{Queueing}
use raknet_sys.Chat.Console.{Program}
use raknet_sys.Chat.Receiver.{Received, show_packet, poll}
use raknet_sys.Chat.Receiver.Shown.{poll_lem}
use raknet_sys.Chat.Threads.{
  left, Receiver, testing, receiving, finished, crashed, Chat, Step, test_continues, round,
  round_panics, Run, start,
}
use raknet_sys.Chat.Threads.Stopping.{
  Run-Agreed, start-Agreed, Run-remaining, remaining-le, test-ends,
}

-- A value or a panic.
abbrev pub Ends {ℓ} : {A : Type ℓ} → Outcome A → Type 0
Ends (ok a) = Unit
Ends (panic e) = Unit
Ends (undefined u) = ⊥
Ends out_of_fuel = ⊥

bind-Ends {ℓ κ} :
    {A : Type ℓ} {B : Type κ} (r : Outcome A) (f : A → Outcome B)
    → Ends r
    → ((a : A) → Ends (f a))
    → Ends (r >>= f)
bind-Ends (ok a) f h k = k a
bind-Ends (panic e) f h k = tt
bind-Ends (undefined u) f h k = absurd h
bind-Ends out_of_fuel f h k = absurd h

traverse-Ends {ℓ κ} :
    {A : Type ℓ} {B : Type κ} (f : A → Outcome B) (xs : List A)
    → ((a : A) → Ends (f a))
    → Ends (traverse f xs)
unfolding traverse
traverse-Ends f [] h = tt
traverse-Ends f (x ∷ xs) h =
    bind-Ends (f x) _ (h x) (λ y. bind-Ends (traverse f xs) _ (traverse-Ends f xs h) (λ ys. tt))

map_ok-Ends {ℓ κ} :
    {A : Type ℓ} {B : Type κ} (f : A → B) (m : Outcome A) → Ends (map_ok f m) → Ends m
map_ok-Ends f (ok a) h = tt
map_ok-Ends f (panic e) h = tt
map_ok-Ends f (undefined u) h = h
map_ok-Ends f out_of_fuel h = h

show-Ends : (packet : Packet) (bytes : Bytes) → packet.bytes ≡ bytes → Ends (show_packet packet)
unfolding show_packet
show-Ends packet [] e = rw e tt
show-Ends packet (b ∷ bs) e = rw e tt

module _ (lib : RakNet) (p : Platform) (q : Queueing lib) (program : Program) where
  -- The packets that wait are converted, or one of them panics.
  abbrev pub Readable : lib.Peer → Type 0
  Readable peer = Ends (traverse (from_packet p) (q.waiting peer))

  poll-Ends :
      (peer : lib.Peer) → Readable peer → Ends (poll lib p (suc (length (q.waiting peer))) peer)
  poll-Ends peer h =
      let fuel : ℕ = suc (length (q.waiting peer)) in
      let printed =
        bind-Ends (traverse (from_packet p) (q.waiting peer)) (traverse show_packet) h
          (λ packets. traverse-Ends show_packet packets (λ x. show-Ends x x.bytes refl)) in
      map_ok-Ends (λ r. r.0) (poll lib p fuel peer)
        (rw (poll_lem lib p q fuel peer (omega arith)) printed)

  -- The body of the loop is made, or it panics.
  body-steps :
      (s : Chat lib) (fuel : ℕ) (r : Outcome (List Received × lib.Peer))
      → s.receiver ≡ receiving
      → poll lib p fuel s.peer ≡ r
      → Ends r
      → (t : Chat lib) × Step lib p program s t
  body-steps s fuel (ok (packets, peer)) c e h = (_, round s fuel packets peer c e)
  body-steps s fuel (panic x) c e h = (_, round_panics s fuel x s.peer c e)
  body-steps s fuel (undefined u) c e h = absurd h
  body-steps s fuel out_of_fuel c e h = absurd h

  -- The receiving thread has ended or can go on.
  abbrev GoesOn : Chat lib → Type 0
  GoesOn s =
      (s.receiver ≡ finished) ⊎ (s.receiver ≡ crashed) ⊎ ((t : Chat lib) × Step lib p program s t)

  receiver-GoesOn : (s : Chat lib) (r : Receiver) → s.receiver ≡ r → Readable s.peer → GoesOn s
  receiver-GoesOn s finished c h = inl c
  receiver-GoesOn s crashed c h = inr (inl c)
  receiver-GoesOn s receiving c h =
      let fuel : ℕ = suc (length (q.waiting s.peer)) in
      inr (inr (body-steps s fuel (poll lib p fuel s.peer) c refl (poll-Ends s.peer h)))
  receiver-GoesOn s testing c h = elim (Bool-cases s.stop) [
    | inl set ↦ let (t, st, _) = test-ends lib p program (λ a b. Unit) s c set in inr (inr (t, st))
    | inr unset ↦ inr (inr (_, test_continues s c unset))
  ]

  -- After `quit` was read, in whatever order the threads and the network go on, the program makes at
  -- most two more steps and the console is left for good. If the packets that wait then are
  -- converted or panic, it does not stand still before its end: the receiving thread has shut the
  -- peer down, or it has panicked, or there is a further step.
  pub quit_terminates :
      (allowed : lib.Peer → lib.Peer → Type 0) (peer : lib.Peer) (m n : ℕ) (s t : Chat lib)
      → Run lib p program allowed (start peer) m s
      → s.stop ≡ true
      → Run lib p program allowed s n t
      → Readable t.peer
      → (n ≤ 2)
        × (t.console ≡ left)
        × ((t.receiver ≡ finished)
            ⊎ (t.receiver ≡ crashed)
            ⊎ ((u : Chat lib) × Step lib p program t u))
  quit_terminates allowed peer m n s t before stopped run readable =
      let agreed =
        Run-Agreed lib p program allowed (start-Agreed lib p program allowed peer) before in
      let (stopped', bound) = Run-remaining lib p program allowed agreed stopped run in
      (
        omega (arith, remaining-le lib p program allowed s.receiver),
        (Run-Agreed lib p program allowed agreed run).only_quit stopped',
        receiver-GoesOn t t.receiver refl readable,
      )

-- ===== src/Chat/Threads/Broadcasts.antt =====
-- What the chat programs of examples send in a whole run: the lines that are no commands.
use raknet_sys.Prelude.{
  ℕ, ◌≡◌, refl, ap, sym, ◌∙◌, List, [], ◌∷◌, ◌++◌, map, append-nil, append_assoc, Bytes,
}
use mathlib.Core.List.{map-append}
use raknet_sys.Native.Platform.{Platform}
use raknet_sys.Peer.Interface.{RakNet}
use raknet_sys.Wrapper.Sender.Send.{broadcast_args}
use raknet_sys.Wrapper.Sender.Contract.{Sending}
use raknet_sys.Chat.Console.{Program, Command}
use raknet_sys.Chat.Console.Sends.{
  Silent, command_messages, run_command-sent, poll-Keeps, shutdown-Keeps,
}
use raknet_sys.Chat.Threads.{
  Chat, Step, read_quit, read_command, read_panics, carry_out, command_panics, test_continues,
  round, round_panics, test_ends, Run, here, step, network, shutdown_time,
}

module _ (lib : RakNet) (p : Platform) (program : Program) where
  abbrev step_command : {s t : Chat lib} → Step lib p program s t → List Command
  step_command (carry_out _ command _ _ _ _) = command ∷ []
  step_command _ = []

  abbrev StepReturns : {s t : Chat lib} → Step lib p program s t → Type 0
  StepReturns (read_panics _ _) = ⊥
  StepReturns (command_panics _ _ _ _ _ _) = ⊥
  StepReturns (round_panics _ _ _ _ _ _) = ⊥
  StepReturns _ = Unit

  module _ {allowed : lib.Peer → lib.Peer → Type 0} {from : Chat lib} where
    -- The commands that were carried out in a run, the first one first.
    abbrev pub carried : {n : ℕ} {t : Chat lib} → Run lib p program allowed from n t → List Command
    carried here = []
    carried (step run st) = carried run ++ step_command st
    carried (network peer run a) = carried run

    -- No step of the run panicked.
    abbrev pub NoPanic : {n : ℕ} {t : Chat lib} → Run lib p program allowed from n t → Type 0
    NoPanic here = Unit
    NoPanic (step run st) = NoPanic run × StepReturns st
    NoPanic (network peer run a) = NoPanic run

  -- The messages of commands, in their order.
  abbrev pub messages : List Command → List Bytes
  messages [] = []
  messages (command ∷ commands) = command_messages program command ++ messages commands

  messages-append : (xs ys : List Command) → messages (xs ++ ys) ≡ messages xs ++ messages ys
  messages-append [] ys = refl
  messages-append (x ∷ xs) ys =
      ap (λ ms. command_messages program x ++ ms) (messages-append xs ys)
      ∙ sym (append_assoc (command_messages program x) (messages xs) (messages ys))

  module _ (sending : Sending lib) (silent : Silent lib sending) where
    open sending use {sent}

    -- What a step adds to the accepted messages.
    Step-sent :
        {s t : Chat lib} (st : Step lib p program s t)
        → StepReturns st
        → sent t.peer ≡ sent s.peer ++ map (broadcast_args p) (messages (step_command st))
    Step-sent (read_quit s line c e) r = sym (append-nil (sent s.peer))
    Step-sent (read_command s line c e) r = sym (append-nil (sent s.peer))
    Step-sent (read_panics s c) r = absurd r
    Step-sent (carry_out s command out peer c e) r =
        run_command-sent lib p sending silent program command s.peer peer out e
        ∙ ap (λ ms. sent s.peer ++ map (broadcast_args p) ms)
            (sym (append-nil (command_messages program command)))
    Step-sent (command_panics s command x peer c e) r = absurd r
    Step-sent (test_continues s h e) r = sym (append-nil (sent s.peer))
    Step-sent (round s fuel packets peer h e) r =
        poll-Keeps lib p sending silent fuel s.peer peer packets e ∙ sym (append-nil (sent s.peer))
    Step-sent (round_panics s fuel x peer h e) r = absurd r
    Step-sent (test_ends s peer h e k) r =
        shutdown-Keeps lib p sending silent shutdown_time s.peer peer tt k
        ∙ sym (append-nil (sent s.peer))

    -- In a run in which no call panics and the network sends no message of the program by itself, the
    -- messages that the library has accepted are those of before, followed by one broadcast for
    -- each line that was carried out and is no command, in the order of the lines, with the
    -- program's prefix; the other commands, the receiving thread and the shutdown send nothing, in
    -- whatever order the threads go on.
    pub run_broadcasts :
        (from : Chat lib) {n : ℕ} (t : Chat lib)
        (run : Run lib p program (λ a b. sent b ≡ sent a) from n t)
        → NoPanic run
        → sent t.peer ≡ sent from.peer ++ map (broadcast_args p) (messages (carried run))
    run_broadcasts from _ here calm = sym (append-nil (sent from.peer))
    run_broadcasts from _ (network {s} peer run a) calm = a ∙ run_broadcasts from s run calm
    run_broadcasts from t (step {s} run st) (calm, r) =
        let before = carried run in
        let now = step_command st in
        Step-sent st r
        ∙ ap (λ log. log ++ map (broadcast_args p) (messages now)) (run_broadcasts from s run calm)
        ∙ append_assoc (sent from.peer) (map (broadcast_args p) (messages before))
            (map (broadcast_args p) (messages now))
        ∙ ap (λ log. sent from.peer ++ log)
            (sym (map-append (broadcast_args p) (messages before) (messages now)))
        ∙ ap (λ ms. sent from.peer ++ map (broadcast_args p) ms) (sym (messages-append before now))

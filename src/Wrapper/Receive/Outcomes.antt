-- ===== src/Wrapper/Receive/Outcomes.antt =====
-- How `Receive` and `ReceiveAll` of src/rakpeer.rs end, whatever the packets that wait are.
use raknet_sys.Prelude.{
  ℕ, zero, suc, ◌<◌, ◌≡◌, ◌≢◌, ◌↔◌, refl, ap, ◌∙◌, some, List, [], ◌∷◌, ◌++◌, append-nil,
  append_assoc, length, arith,
}
use raknet_sys.Prelude.Outcome.{
  Outcome, ok, Panic, panic, map_ok-eq-panic, undefined, out_of_fuel, traverse, map_ok, ◌>>=◌,
}
use raknet_sys.Native.Platform.{Platform}
use raknet_sys.Native.Structs
use raknet_sys.Peer.Interface.{RakNet}
use raknet_sys.Peer.Shim.{rak_peer_receive}
use raknet_sys.Wrapper.Packet.{Packet, from_packet, slice_from_raw_parts}
use raknet_sys.Wrapper.Address.{from_system_address}
use raknet_sys.Wrapper.Receive.{receive, receive_all_from, receive_all}
use raknet_sys.Wrapper.Receive.Contract.{Queueing}
use raknet_sys.Wrapper.Receive.Drain.{receive-empty, receive-next}

module _ (lib : RakNet) (p : Platform) (q : Queueing lib) where
  open lib use {Peer}
  open q use {waiting}

  -- The outcome without the peer.
  abbrev value : {A : Type 0} → Outcome (A × Peer) → Outcome A
  value = map_ok (λ r. r.0)

  -- A packet whose conversion does not return ends the call in the same way.
  receive-fails :
      (s : Peer) (x : Structs.Packet) (xs : List Structs.Packet) (r : Outcome Packet)
      → waiting s ≡ x ∷ xs
      → from_packet p x ≡ r
      → ((y : Packet) → r ≢ ok y)
      → receive lib p s ≡ (r >>= λ y. ok (some y, s))
  unfolding receive rak_peer_receive
  receive-fails s x xs (ok y) h e n = absurd (n y refl)
  receive-fails s x xs (panic e) h k n = ground (arith, q.receive_next s x xs h)
  receive-fails s x xs (undefined u) h k n = ground (arith, q.receive_next s x xs h)
  receive-fails s x xs out_of_fuel h k n = ground (arith, q.receive_next s x xs h)

  appended : List Packet → Outcome (List Packet) → Outcome (List Packet)
  appended packets = map_ok (λ ys. packets ++ ys)

  appended-cons :
      (packets : List Packet) (y : Packet) (r : Outcome (List Packet))
      → appended (packets ++ y ∷ []) r ≡ appended packets (r >>= λ zs. ok (y ∷ zs))
  unfolding appended
  appended-cons packets y (ok zs) = ap ok (append_assoc packets (y ∷ []) zs)
  appended-cons packets y (panic e) = refl
  appended-cons packets y (undefined u) = refl
  appended-cons packets y out_of_fuel = refl

  -- One round of the loop at a packet, given the value of the rounds after it.
  round-value :
      (fuel : ℕ) (packets : List Packet) (x : Structs.Packet) (xs : List Structs.Packet) (s : Peer)
      (r : Outcome Packet)
      → waiting s ≡ x ∷ xs
      → from_packet p x ≡ r
      → ((y : Packet) (t : Peer)
          → waiting t ≡ xs
          → value (receive_all_from lib p fuel (packets ++ y ∷ []) t)
            ≡ appended (packets ++ y ∷ []) (traverse (from_packet p) xs))
      → value (receive_all_from lib p (suc fuel) packets s)
        ≡ appended packets (r >>= λ y. traverse (from_packet p) xs >>= λ ys. ok (y ∷ ys))
  unfolding receive_all_from appended
  round-value fuel packets x xs s (ok y) h e rest =
      let (t, r, (left, _)) = receive-next lib p q s x xs y h e in
      rw r (rest y t left ∙ appended-cons packets y (traverse (from_packet p) xs))
  round-value fuel packets x xs s (panic e) h k rest =
      rw (receive-fails s x xs (panic e) h k (λ y. cc))
  round-value fuel packets x xs s (undefined u) h k rest =
      rw (receive-fails s x xs (undefined u) h k (λ y. cc))
  round-value fuel packets x xs s out_of_fuel h k rest =
      rw (receive-fails s x xs out_of_fuel h k (λ y. cc))

  receive_all_from-value :
      (fuel : ℕ) (packets : List Packet) (xs : List Structs.Packet) (s : Peer)
      → waiting s ≡ xs
      → length xs < fuel
      → value (receive_all_from lib p fuel packets s)
        ≡ appended packets (traverse (from_packet p) xs)
  unfolding receive_all_from traverse appended
  receive_all_from-value zero packets xs s h m = elim m [ ]
  receive_all_from-value (suc fuel) packets [] s h m =
      let (t, r, _) = receive-empty lib p q s h in rw (r, append-nil packets)
  receive_all_from-value (suc fuel) packets (x ∷ xs) s h m =
      round-value fuel packets x xs s (from_packet p x) h refl
        (λ y t left. receive_all_from-value fuel (packets ++ y ∷ []) xs t left (omega arith))

  appended-nil : (r : Outcome (List Packet)) → appended [] r ≡ r
  unfolding appended
  appended-nil (ok ys) = refl
  appended-nil (panic e) = refl
  appended-nil (undefined u) = refl
  appended-nil out_of_fuel = refl

  -- If there is more fuel than packets that wait, `ReceiveAll` is the conversion of the waiting
  -- packets one after another: it returns the same packets, and where a conversion panics or has
  -- undefined behaviour, so does the call, with the first such packet.
  pub receive_all-traverse :
      (fuel : ℕ) (s : Peer)
      → length (waiting s) < fuel
      → map_ok (λ r. r.0) (receive_all lib p fuel s) ≡ traverse (from_packet p) (waiting s)
  unfolding receive_all
  receive_all-traverse fuel s m =
      receive_all_from-value fuel [] (waiting s) s refl m
      ∙ appended-nil (traverse (from_packet p) (waiting s))

  -- A panic of the conversions is one of the call.
  pub receive_all_panics :
      (fuel : ℕ) (s : Peer) (e : Panic)
      → length (waiting s) < fuel
      → traverse (from_packet p) (waiting s) ≡ panic e
      → receive_all lib p fuel s ≡ panic e
  receive_all_panics fuel s e m k =
      map_ok-eq-panic (λ r. r.0) (receive_all lib p fuel s) (receive_all-traverse fuel s m ∙ k)

  -- The first packets, as many as there is fuel, are there and can be converted.
  abbrev pub Convertible : ℕ → List Structs.Packet → Type 0
  Convertible zero xs = Unit
  Convertible (suc n) [] = ⊥
  Convertible (suc n) (x ∷ xs) = ((y : Packet) × (from_packet p x ≡ ok y)) × Convertible n xs

  -- A conversion has no loop.
  from_packet-ne-out_of_fuel : (x : Structs.Packet) → from_packet p x ≢ out_of_fuel
  unfolding from_packet from_system_address slice_from_raw_parts
  from_packet-ne-out_of_fuel x = ground arith

  round-stops :
      (fuel : ℕ) (packets : List Packet) (x : Structs.Packet) (xs : List Structs.Packet) (s : Peer)
      (r : Outcome Packet)
      → waiting s ≡ x ∷ xs
      → from_packet p x ≡ r
      → ((y : Packet) (t : Peer)
          → waiting t ≡ xs
          → (receive_all_from lib p fuel (packets ++ y ∷ []) t ≡ out_of_fuel) ↔ Convertible fuel xs)
      → (receive_all_from lib p (suc fuel) packets s ≡ out_of_fuel)
        ↔ Convertible (suc fuel) (x ∷ xs)
  unfolding receive_all_from
  round-stops fuel packets x xs s (ok y) h e rest =
      let (t, r, (left, _)) = receive-next lib p q s x xs y h e in
      let (there, back) = rest y t left in
      rw r (λ stops. ((y, e), there stops), λ (_, convertible). back convertible)
  round-stops fuel packets x xs s (panic k) h e rest =
      rw (receive-fails s x xs (panic k) h e (λ y. cc))
        (λ stops. cc, λ ((y, ey), _). absurd (ground (arith, e, ey)))
  round-stops fuel packets x xs s (undefined u) h e rest =
      rw (receive-fails s x xs (undefined u) h e (λ y. cc))
        (λ stops. cc, λ ((y, ey), _). absurd (ground (arith, e, ey)))
  round-stops fuel packets x xs s out_of_fuel h e rest = absurd (from_packet-ne-out_of_fuel x e)

  receive_all_from-stops :
      (fuel : ℕ) (packets : List Packet) (xs : List Structs.Packet) (s : Peer)
      → waiting s ≡ xs
      → (receive_all_from lib p fuel packets s ≡ out_of_fuel) ↔ Convertible fuel xs
  unfolding receive_all_from
  receive_all_from-stops zero packets xs s h = (λ _. tt, λ _. refl)
  receive_all_from-stops (suc fuel) packets [] s h =
      let (t, r, _) = receive-empty lib p q s h in rw r (λ e. cc, λ e. absurd e)
  receive_all_from-stops (suc fuel) packets (x ∷ xs) s h =
      round-stops fuel packets x xs s (from_packet p x) h refl
        (λ y t left. receive_all_from-stops fuel (packets ++ y ∷ []) xs t left)

  -- The loop of `ReceiveAll` is not at its end after as many rounds as there is fuel exactly if as
  -- many packets wait and all of these can be converted: it takes one round for each waiting
  -- packet and one more, and a conversion that does not return ends it before.
  pub receive_all_terminates :
      (fuel : ℕ) (s : Peer)
      → (receive_all lib p fuel s ≡ out_of_fuel) ↔ Convertible fuel (waiting s)
  unfolding receive_all
  receive_all_terminates fuel s = receive_all_from-stops fuel [] (waiting s) s refl

-- ===== src/Wrapper/Sender/Request.antt =====
-- `Sender::send` of src/rakpeer.rs against what a sender asks for: which one call of the library
-- carries it out, said field by field.
use raknet_sys.Prelude.{
  ℕ, ◌≡◌, ◌≢◌, ◌↔◌, ◌⊎◌, refl, sym, inl, inr, true, false, Option, none, some, Bytes, length, arith,
}
use raknet_sys.Prelude.Int.{as_i32}
use raknet_sys.Prelude.Outcome.{ok}
use raknet_sys.Native.Pointer.{to}
use raknet_sys.Native.Platform.{Platform}
use raknet_sys.Native.Structs
use raknet_sys.Peer.Interface.{RakNet, SendArgs}
use raknet_sys.Wrapper.Codes.{from_packet_priority, from_packet_reliability}
use raknet_sys.Wrapper.Codes.RoundTrip.{packet_priority_round_trip, packet_reliability_round_trip}
use raknet_sys.Wrapper.Address.{AddressOrGuid, into_address_or_guid}
use raknet_sys.Wrapper.Sender.{
  SendTarget, broadcast_target, system_identifier_target, Sender, send, split_target, or_zero,
}
use raknet_sys.Wrapper.Sender.Send.{
  send_args, send-answer, unassigned_identifier, into_address_or_guid-unassigned,
  into_address_or_guid-Converts,
}

-- A broadcast names the unassigned identity and sets the flag; a message to one system names its
-- identity and clears the flag.
abbrev pub Aimed : Platform → Option SendTarget → SendArgs → Type 0
Aimed p target args =
    ((target ≡ some broadcast_target)
      × (args.broadcast ≡ true)
      × (args.system_identifier ≡ unassigned_identifier p))
    ⊎ ((x : AddressOrGuid) × (target ≡ some (system_identifier_target x))
        × (args.broadcast ≡ false)
        × (into_address_or_guid p x ≡ ok args.system_identifier))

-- No receipt number is asked for as the number 0.
abbrev pub Numbered : Option ℕ → ℕ → Type 0
Numbered receipt number = ((receipt ≡ none) × (number ≡ 0)) ⊎ (receipt ≡ some number)

-- The arguments of the library are what the sender has been given.
pub record Requests (p : Platform) (self : Sender) (args : SendArgs) : Type 0 where
  pub payload : Bytes
  pub given : self.bytes ≡ some payload
  pub pointed : args.bytes ≡ to payload
  pub measured : args.length ≡ as_i32 (length payload)
  pub priority : from_packet_priority args.priority ≡ ok self.priority
  pub reliability : from_packet_reliability args.reliability ≡ ok self.reliability
  pub channel : args.ordering_channel ≡ self.ordering_channel
  pub numbered : Numbered self.force_receipt_number args.force_receipt_number
  pub aimed : Aimed p self.target args

-- Arguments that agree in every part are the same.
same_args :
    (a b : SendArgs)
    → a.bytes ≡ b.bytes
    → a.length ≡ b.length
    → a.priority ≡ b.priority
    → a.reliability ≡ b.reliability
    → a.ordering_channel ≡ b.ordering_channel
    → a.system_identifier ≡ b.system_identifier
    → a.broadcast ≡ b.broadcast
    → a.force_receipt_number ≡ b.force_receipt_number
    → a ≡ b
same_args a b e1 e2 e3 e4 e5 e6 e7 e8 = λ i. record {
  bytes = e1 i;
  length = e2 i;
  priority = e3 i;
  reliability = e4 i;
  ordering_channel = e5 i;
  system_identifier = e6 i;
  broadcast = e7 i;
  force_receipt_number = e8 i;
}

number_or_zero :
    (receipt : Option ℕ) (number : ℕ) → Numbered receipt number → number ≡ or_zero receipt
number_or_zero receipt number h = ground (arith, h)

or_zero-Numbered : (receipt : Option ℕ) → Numbered receipt (or_zero receipt)
or_zero-Numbered none = inl (refl, refl)
or_zero-Numbered (some n) = inr refl

split_target-Aimed :
    (p : Platform) (self : Sender) (bytes : Bytes) (target : SendTarget) (n : Structs.AddressOrGuid)
    → self.target ≡ some target
    → into_address_or_guid p (split_target target).0 ≡ ok n
    → Aimed p self.target (send_args self bytes n (split_target target).1)
split_target-Aimed p self bytes broadcast_target n set converted =
    let unassigned = into_address_or_guid-unassigned p in inl (set, refl, cc)
split_target-Aimed p self bytes (system_identifier_target x) n set converted =
    inr (x, set, refl, converted)

module _ (lib : RakNet) (p : Platform) (self : Sender) where
  -- Such arguments are the ones that `send` makes.
  made_args :
      (args : SendArgs)
      → Requests p self args
      → (bytes : Bytes) × (target : SendTarget) × (self.bytes ≡ some bytes)
        × (self.target ≡ some target)
        × (into_address_or_guid p (split_target target).0 ≡ ok args.system_identifier)
        × (args ≡ send_args self bytes args.system_identifier (split_target target).1)
  made_args args r =
      let priority = (packet_priority_round_trip args.priority self.priority).0 r.priority in
      let reliability =
        (packet_reliability_round_trip args.reliability self.reliability).0 r.reliability in
      elim r.aimed [
        | inl (broadcast, flag, identifier) ↦ (
          r.payload,
          broadcast_target,
          r.given,
          broadcast,
          rw identifier (into_address_or_guid-unassigned p),
          same_args args _ r.pointed r.measured priority reliability r.channel refl flag
              (number_or_zero self.force_receipt_number args.force_receipt_number r.numbered),
        )
        | inr (x, single, flag, identifier) ↦ (
          r.payload,
          system_identifier_target x,
          r.given,
          single,
          identifier,
          same_args args _ r.pointed r.measured priority reliability r.channel refl flag
              (number_or_zero self.force_receipt_number args.force_receipt_number r.numbered),
        )
      ]

  made_request :
      (bytes : Bytes) (target : SendTarget) (n : Structs.AddressOrGuid)
      → self.bytes ≡ some bytes
      → self.target ≡ some target
      → into_address_or_guid p (split_target target).0 ≡ ok n
      → Requests p self (send_args self bytes n (split_target target).1)
  made_request bytes target n given set converted = record {
    payload = bytes;
    given = given;
    pointed = refl;
    measured = refl;
    priority = (packet_priority_round_trip _ self.priority).1 refl;
    reliability = (packet_reliability_round_trip _ self.reliability).1 refl;
    channel = refl;
    numbered = or_zero-Numbered self.force_receipt_number;
    aimed = split_target-Aimed p self bytes target n set converted;
  }

  -- The call of the library for a sender, and the result that is made of its answer: 0 is the
  -- error.
  abbrev pub Answered : lib.Peer → lib.Peer → Option ℕ → SendArgs → Type 0
  Answered s t r args =
      ((r ≡ none) × (lib.send args s ≡ (0, t)))
      ⊎ ((receipt : ℕ) × (r ≡ some receipt) × (receipt ≢ 0) × (lib.send args s ≡ (receipt, t)))

  module _ (s t : lib.Peer) where
    answer :
        (r : Option ℕ) (bytes : Bytes) (target : SendTarget) (n : Structs.AddressOrGuid)
        → self.bytes ≡ some bytes
        → self.target ≡ some target
        → into_address_or_guid p (split_target target).0 ≡ ok n
        → (send lib p self s ≡ ok (r, t))
          ↔ Answered s t r (send_args self bytes n (split_target target).1)
    answer none bytes target n given set converted =
        ground (arith, (send-answer lib p self s bytes target n t given set converted).0)
    answer (some receipt) bytes target n given set converted =
        ground (arith, (send-answer lib p self s bytes target n t given set converted).1 receipt)

    asked :
        (r : Option ℕ) (bytes : Option Bytes) (target : Option SendTarget)
        → self.bytes ≡ bytes
        → self.target ≡ target
        → send lib p self s ≡ ok (r, t)
        → (args : SendArgs) × Requests p self args × Answered s t r args
    unfolding send
    asked r none target eb et e = absurd (ground (arith, e))
    asked r (some bytes) none eb et e = absurd (ground (arith, e))
    asked r (some bytes) (some target) eb et e =
        elim (into_address_or_guid-Converts p (split_target target).0) [
          | inl (n, converted) ↦ (
            send_args self bytes n (split_target target).1,
            made_request bytes target n eb et converted,
            (answer r bytes target n eb et converted).0 e,
          )
          | inr (panics, _) ↦ absurd (ground (arith, e, eb, et, panics))
        ]

    -- A message is sent, with this result and this state of the peer after it, exactly when the
    -- library, called once with the arguments that the sender asks for (its bytes and their number,
    -- its priority, reliability, channel and receipt number; for a broadcast the unassigned identity
    -- and the flag, for one system its converted identity without the flag), gives this state and an
    -- answer that stands for the result: 0 for the error, and any other number for itself.
    pub send_lem :
        (r : Option ℕ)
        → (send lib p self s ≡ ok (r, t))
          ↔ ((args : SendArgs) × Requests p self args × Answered s t r args)
    send_lem r = (
      asked r self.bytes self.target refl refl,
      λ (args, requests, answered).
          let (bytes, target, given, set, converted, made) = made_args args requests in
          (answer r bytes target args.system_identifier given set converted).1
            (rw (sym made) answered),
    )

-- ===== src/Wrapper/Widths/Calls.antt =====
-- What src/rakpeer.rs hands to the library in `Send` and `Startup` fits the types of the C functions.
use raknet_sys.Prelude.{
  ℕ, ◌%◌, ◌^◌, ◌<◌, ◌≡◌, ◌⊎◌, inl, inr, refl, false, Option, none, some, List, [], ◌∷◌, Bytes, All,
  map, length, length-map, arith, Bool-cases, ◌==◌, if◌then◌else◌,
}
use mathlib.Core.Path.{subst}
use raknet_sys.Prelude.Int.{negsuc}
use raknet_sys.Prelude.Outcome.{ok, Panic, panic, no_data, no_target, not_implemented, unwrap_none}
use raknet_sys.Prelude.State.{lift}
use raknet_sys.Native.Pointer.{to}
use raknet_sys.Native.Platform.{Platform}
use raknet_sys.Native.Structs
use raknet_sys.Peer.Interface.{RakNet, SendArgs}
use raknet_sys.Peer.Shim.{rak_peer_send_data}
use raknet_sys.Wrapper.Codes.{
  PacketPriority, PacketReliability, into_packet_priority, into_packet_reliability,
  from_startup_result,
}
use raknet_sys.Wrapper.Address.{
  into_address_or_guid, unassigned_address_or_guid, unassigned_system_address,
}
use raknet_sys.Wrapper.Sender.{
  SendTarget, broadcast_target, system_identifier_target, Sender, send, split_target, or_zero,
}
use raknet_sys.Wrapper.Sender.Send.{send_args, into_address_or_guid-Converts}
use raknet_sys.Wrapper.Socket.{SocketDescriptor}
use raknet_sys.Wrapper.Socket.HostAddress.{native_descriptor}
use raknet_sys.Wrapper.Startup.{startup}
use raknet_sys.Wrapper.Startup.Behaviour.{any_long, startup-long, startup-short}
use raknet_sys.Wrapper.Widths.{
  IsIdentity, IsTarget, IsReceipt, IsSender, IsDescriptor, SendFits, DescriptorFits,
}
use raknet_sys.Wrapper.Widths.Identities.{
  into_address_or_guid-IdentifierFits, as_i32-IsI32, native_descriptor-DescriptorFits,
}

priority-lt : (x : PacketPriority) → into_packet_priority x < 4
unfolding into_packet_priority
priority-lt x = ground arith

reliability-lt : (x : PacketReliability) → into_packet_reliability x < 8
unfolding into_packet_reliability
reliability-lt x = ground arith

or_zero-lt : (n : Option ℕ) → IsReceipt n → or_zero n < 2 ^ 32
or_zero-lt none h = omega arith
or_zero-lt (some n) h = h

split_target-IsIdentity :
    (target : SendTarget) → IsTarget (some target) → IsIdentity (split_target target).0
unfolding unassigned_address_or_guid unassigned_system_address
split_target-IsIdentity broadcast_target h = (
  (
    record {
      a_byte = omega arith;
      b_byte = omega arith;
      c_byte = omega arith;
      d_byte = omega arith;
    },
    omega arith,
  ),
  omega arith,
  tt,
)
split_target-IsIdentity (system_identifier_target x) h = h

send_args-SendFits :
    (p : Platform) (self : Sender) (bytes : Bytes) (target : SendTarget) (n : Structs.AddressOrGuid)
    → IsSender self
    → self.target ≡ some target
    → into_address_or_guid p (split_target target).0 ≡ ok n
    → SendFits (send_args self bytes n (split_target target).1)
send_args-SendFits p self bytes target n h e converted = record {
  bytes = (bytes, refl);
  length = as_i32-IsI32 (length bytes);
  priority = priority-lt self.priority;
  reliability = reliability-lt self.reliability;
  ordering_channel = h.channel;
  system_identifier =
      into_address_or_guid-IdentifierFits p (split_target target).0 n
        (split_target-IsIdentity target (subst (λ t. IsTarget t) e h.identity)) converted;
  force_receipt_number = or_zero-lt self.force_receipt_number h.receipt;
}

abbrev answer : {S : Type 0} → ℕ × S → Option ℕ × S
answer (res, s) = (if res == 0 then none else some res, s)

module _ (lib : RakNet) (p : Platform) where
  -- No call, or one call with arguments that fit.
  abbrev pub SendsFitting : Sender → lib.Peer → Type 0
  SendsFitting self s =
      ((e : Panic) × (send lib p self s ≡ panic e))
      ⊎ ((args : SendArgs) × SendFits args × (send lib p self s ≡ ok (answer (lib.send args s))))

  send_at :
      (self : Sender) (s : lib.Peer) (bytes : Option Bytes) (target : Option SendTarget)
      → IsSender self
      → self.bytes ≡ bytes
      → self.target ≡ target
      → SendsFitting self s
  unfolding send rak_peer_send_data
  send_at self s none target h eb et = inl (no_data, rw eb refl)
  send_at self s (some bytes) none h eb et = inl (no_target, rw (eb, et) refl)
  send_at self s (some bytes) (some target) h eb et =
      elim (into_address_or_guid-Converts p (split_target target).0) [
        | inl (n, converted) ↦ inr (
          send_args self bytes n (split_target target).1,
          send_args-SendFits p self bytes target n h et converted,
          rw (eb, et, converted) refl,
        )
        | inr (refused, _) ↦ inl (not_implemented, rw (eb, et, refused) refl)
      ]

  -- No call, or one call with descriptors that fit, as many as there are.
  abbrev pub StartsFitting : ℕ → List SocketDescriptor → lib.Peer → Type 0
  StartsFitting max xs s =
      (startup lib p max xs s ≡ panic unwrap_none)
      ⊎ ((ds : List Structs.SocketDescriptor) × All DescriptorFits ds
          × (length ds ≡ length xs)
          × (let (code, t) = lib.startup max (to ds) (length xs % 2 ^ 32) (negsuc 99998) s in
              startup lib p max xs s ≡ lift (from_startup_result code) t))

  descriptors-DescriptorFits :
      (xs : List SocketDescriptor)
      → All IsDescriptor xs
      → any_long xs ≡ false
      → All DescriptorFits (map (native_descriptor p) xs)
  descriptors-DescriptorFits [] h short = tt
  descriptors-DescriptorFits (x ∷ xs) (h, hs) short = (
    native_descriptor-DescriptorFits p x h (ground (arith, short)),
    descriptors-DescriptorFits xs hs (ground (arith, short)),
  )

  startup_at :
      (max : ℕ) (xs : List SocketDescriptor) (s : lib.Peer)
      → All IsDescriptor xs
      → StartsFitting max xs s
  startup_at max xs s h = elim (Bool-cases (any_long xs)) [
    | inl long ↦ inl (startup-long lib p max xs s long)
    | inr short ↦ inr (
      map (native_descriptor p) xs,
      descriptors-DescriptorFits xs h short,
      length-map (native_descriptor p) xs,
      startup-short lib p max xs s short,
    )
  ]

  -- Called with values of the Rust types, `send` either panics before any call, or it returns the
  -- answer of one call whose arguments fit the C types: the integers their widths, the codes the
  -- enumerators, the identity the fields of its structs. `Startup` likewise either panics or makes
  -- one call, with as many descriptors as it was given, each with an array of 32 characters.
  pub calls_fit :
      (self : Sender) (max : ℕ) (xs : List SocketDescriptor) (s : lib.Peer)
      → IsSender self
      → All IsDescriptor xs
      → SendsFitting self s × StartsFitting max xs s
  calls_fit self max xs s h hs =
      (send_at self s self.bytes self.target h refl refl, startup_at max xs s hs)

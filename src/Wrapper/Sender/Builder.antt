-- ===== src/Wrapper/Sender/Builder.antt =====
-- The builder calls of `Sender` against their specification: the last call of each kind counts.
use raknet_sys.Prelude.{ℕ, ◌≡◌, refl, Option, none, some, List, [], ◌∷◌, Bytes}
use raknet_sys.Prelude.Int.{ℤ}
use raknet_sys.Wrapper.Codes.{PacketPriority, PacketReliability}
use raknet_sys.Wrapper.Address.{AddressOrGuid}
use raknet_sys.Wrapper.Sender.{
  SendTarget, broadcast_target, system_identifier_target, Sender, set_data, set_priority,
  set_reliability, set_ordering_channel, set_system_identifier, set_broadcast,
  set_force_receipt_number,
}

pub data BuilderCall : Type 0 where
  with_data : Bytes → BuilderCall
  with_priority : PacketPriority → BuilderCall
  with_reliability : PacketReliability → BuilderCall
  with_ordering_channel : ℤ → BuilderCall
  with_system_identifier : AddressOrGuid → BuilderCall
  with_broadcast : BuilderCall
  with_force_receipt_number : ℕ → BuilderCall

pub apply : BuilderCall → Sender → Sender
unfolding set_data set_priority set_reliability set_ordering_channel set_system_identifier
    set_broadcast set_force_receipt_number
apply (with_data bytes) = set_data bytes
apply (with_priority priority) = set_priority priority
apply (with_reliability reliability) = set_reliability reliability
apply (with_ordering_channel channel) = set_ordering_channel channel
apply (with_system_identifier identifier) = set_system_identifier identifier
apply with_broadcast = set_broadcast
apply (with_force_receipt_number number) = set_force_receipt_number number

-- A chain of builder calls, the first call first.
pub build : List BuilderCall → Sender → Sender
build [] s = s
build (c ∷ cs) s = build cs (apply c s)

-- What a call gives of each kind.
abbrev data_of : BuilderCall → Option Bytes
data_of (with_data bytes) = some bytes
data_of _ = none

abbrev priority_of : BuilderCall → Option PacketPriority
priority_of (with_priority priority) = some priority
priority_of _ = none

abbrev reliability_of : BuilderCall → Option PacketReliability
reliability_of (with_reliability reliability) = some reliability
reliability_of _ = none

abbrev channel_of : BuilderCall → Option ℤ
channel_of (with_ordering_channel channel) = some channel
channel_of _ = none

abbrev target_of : BuilderCall → Option SendTarget
target_of (with_system_identifier identifier) = some (system_identifier_target identifier)
target_of with_broadcast = some broadcast_target
target_of _ = none

abbrev receipt_of : BuilderCall → Option ℕ
receipt_of (with_force_receipt_number number) = some number
receipt_of _ = none

-- The last value of a kind in a chain, or the one from before it.
abbrev last {ℓ} : {A : Type ℓ} → (BuilderCall → Option A) → A → List BuilderCall → A
last f a [] = a
last f a (c ∷ cs) = last f (elim (f c) [ none ↦ a | some b ↦ b ]) cs

abbrev last? {ℓ} : {A : Type ℓ} → (BuilderCall → Option A) → Option A → List BuilderCall → Option A
last? f a [] = a
last? f a (c ∷ cs) = last? f (elim (f c) [ none ↦ a | some b ↦ some b ]) cs

abbrev pub specified : List BuilderCall → Sender → Sender
specified cs s = record {
  bytes = last? data_of s.bytes cs;
  priority = last priority_of s.priority cs;
  reliability = last reliability_of s.reliability cs;
  ordering_channel = last channel_of s.ordering_channel cs;
  target = last? target_of s.target cs;
  force_receipt_number = last? receipt_of s.force_receipt_number cs;
}

-- A chain of builder calls leaves, of each kind, the value of the last call of that kind, and what was
-- there before if the chain has none; the two kinds of target overwrite one another.
pub build_lem : (cs : List BuilderCall) (s : Sender) → build cs s ≡ specified cs s
unfolding build apply
build_lem [] s = refl
build_lem (with_data _ ∷ cs) s = build_lem cs _
build_lem (_ ∷ cs) s = build_lem cs _

-- ===== src/Wrapper/Codes/RoundTrip.antt =====
-- The conversions of the enumerations of src/rakpeer.rs against the C enumerators that they read.
use raknet_sys.Prelude.{ℕ, ◌≤◌, ◌≡◌, ◌≢◌, ◌↔◌, ◌⊎◌, arith}
use raknet_sys.Prelude.Outcome.{ok, panic, invalid_value}
use raknet_sys.Native.Enums
use raknet_sys.Wrapper.Codes.{
  PacketPriority, PacketReliability, StartupResult, ConnectionAttemptResult, into_packet_priority,
  from_packet_priority, into_packet_reliability, from_packet_reliability, from_startup_result,
  from_connection_attempt_result,
}

-- A number is read as a priority exactly when that priority is written as the number.
pub packet_priority_round_trip :
    (v : ℕ) (p : PacketPriority) → (from_packet_priority v ≡ ok p) ↔ (v ≡ into_packet_priority p)
unfolding from_packet_priority into_packet_priority
packet_priority_round_trip v PacketPriority.immediate = ground arith
packet_priority_round_trip v _ = ground arith

-- A number is read as a reliability exactly when that reliability is written as the number.
pub packet_reliability_round_trip :
    (v : ℕ) (r : PacketReliability)
    → (from_packet_reliability v ≡ ok r) ↔ (v ≡ into_packet_reliability r)
unfolding from_packet_reliability into_packet_reliability
packet_reliability_round_trip v PacketReliability.unreliable = ground arith
packet_reliability_round_trip v _ = ground arith

-- Of the C priorities every one but the count of priorities is read, and the count panics.
pub from_packet_priority_native :
    (c : Enums.PacketPriority)
    → (c ≢ Enums.number_of_priorities
        × ((p : PacketPriority) × (from_packet_priority (Enums.packet_priority_code c) ≡ ok p)))
      ⊎ (c ≡ Enums.number_of_priorities
          × (from_packet_priority (Enums.packet_priority_code c) ≡ panic invalid_value))
unfolding from_packet_priority
from_packet_priority_native Enums.PacketPriority.immediate_priority = ground arith
from_packet_priority_native _ = ground arith

-- A number panics as a start-up result exactly from twelve on, and none but 0 is read as `started`.
from_startup_result_range :
    (v : ℕ)
    → ((from_startup_result v ≡ panic invalid_value) ↔ (12 ≤ v))
      × ((from_startup_result v ≡ ok StartupResult.started)
          ↔ (v ≡ Enums.startup_result_code Enums.raknet_started))
unfolding from_startup_result
from_startup_result_range v = ground arith

-- A number panics as the result of a connection attempt exactly from six on, and none but 0 is read
-- as `started`.
pub from_connection_attempt_result_range :
    (v : ℕ)
    → ((from_connection_attempt_result v ≡ panic invalid_value) ↔ (6 ≤ v))
      × ((from_connection_attempt_result v ≡ ok ConnectionAttemptResult.started)
          ↔ (v ≡ Enums.connection_attempt_result_code Enums.connection_attempt_started))
unfolding from_connection_attempt_result
from_connection_attempt_result_range v = ground arith

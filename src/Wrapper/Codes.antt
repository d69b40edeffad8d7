-- ===== src/Wrapper/Codes.antt =====
-- The enumerations of src/rakpeer.rs and their conversions from and into the C numbers.
pub mod RoundTrip
use raknet_sys.Prelude.{ℕ, ◌==◌, if◌then◌else◌}
use raknet_sys.Prelude.Outcome.{Outcome, ok, panic, invalid_value}
use raknet_sys.Native.Enums

pub data PacketPriority : Type 0 where
  immediate high medium low : PacketPriority

-- `Into<ffi::PacketPriority> for PacketPriority`
unfoldable pub into_packet_priority : PacketPriority → ℕ
unfolding Enums.packet_priority_code
into_packet_priority immediate = Enums.packet_priority_code Enums.immediate_priority
into_packet_priority high = Enums.packet_priority_code Enums.high_priority
into_packet_priority medium = Enums.packet_priority_code Enums.medium_priority
into_packet_priority low = Enums.packet_priority_code Enums.low_priority

-- `From<ffi::PacketPriority> for PacketPriority`
unfoldable pub from_packet_priority : ℕ → Outcome PacketPriority
unfolding Enums.packet_priority_code
from_packet_priority value =
    if value == Enums.packet_priority_code Enums.immediate_priority
    then ok immediate
    else if value == Enums.packet_priority_code Enums.high_priority
    then ok high
    else if value == Enums.packet_priority_code Enums.medium_priority
    then ok medium
    else if value == Enums.packet_priority_code Enums.low_priority
    then ok low
    else panic invalid_value

pub data PacketReliability : Type 0 where
  unreliable unreliable_sequenced reliable reliable_ordered reliable_sequenced
        unreliable_with_ack_receipt reliable_with_ack_receipt reliable_ordered_with_ack_receipt :
      PacketReliability

-- `Into<ffi::PacketReliability> for PacketReliability`
unfoldable pub into_packet_reliability : PacketReliability → ℕ
unfolding Enums.packet_reliability_code
into_packet_reliability unreliable = Enums.packet_reliability_code Enums.unreliable
into_packet_reliability unreliable_sequenced =
    Enums.packet_reliability_code Enums.unreliable_sequenced
into_packet_reliability reliable = Enums.packet_reliability_code Enums.reliable
into_packet_reliability reliable_ordered = Enums.packet_reliability_code Enums.reliable_ordered
into_packet_reliability reliable_sequenced = Enums.packet_reliability_code Enums.reliable_sequenced
into_packet_reliability unreliable_with_ack_receipt =
    Enums.packet_reliability_code Enums.unreliable_with_ack_receipt
into_packet_reliability reliable_with_ack_receipt =
    Enums.packet_reliability_code Enums.reliable_with_ack_receipt
into_packet_reliability reliable_ordered_with_ack_receipt =
    Enums.packet_reliability_code Enums.reliable_ordered_with_ack_receipt

-- `From<ffi::PacketReliability> for PacketReliability`
unfoldable pub from_packet_reliability : ℕ → Outcome PacketReliability
unfolding Enums.packet_reliability_code
from_packet_reliability value =
    if value == Enums.packet_reliability_code Enums.unreliable
    then ok unreliable
    else if value == Enums.packet_reliability_code Enums.unreliable_sequenced
    then ok unreliable_sequenced
    else if value == Enums.packet_reliability_code Enums.reliable
    then ok reliable
    else if value == Enums.packet_reliability_code Enums.reliable_ordered
    then ok reliable_ordered
    else if value == Enums.packet_reliability_code Enums.reliable_sequenced
    then ok reliable_sequenced
    else if value == Enums.packet_reliability_code Enums.unreliable_with_ack_receipt
    then ok unreliable_with_ack_receipt
    else if value == Enums.packet_reliability_code Enums.reliable_with_ack_receipt
    then ok reliable_with_ack_receipt
    else if value == Enums.packet_reliability_code Enums.reliable_ordered_with_ack_receipt
    then ok reliable_ordered_with_ack_receipt
    else panic invalid_value

pub data StartupResult : Type 0 where
  started already_started invalid_socket_descriptors invalid_max_connections
        socket_family_not_supported socket_port_already_in_use socket_failed_to_bind
        socket_failed_test_send port_cannot_be_zero failed_to_create_network_thread
        could_not_generate_guid startup_other_failure :
      StartupResult

-- `From<ffi::StartupResult> for StartupResult`
unfoldable pub from_startup_result : ℕ → Outcome StartupResult
unfolding Enums.startup_result_code
from_startup_result value =
    if value == Enums.startup_result_code Enums.raknet_started
    then ok StartupResult.started
    else if value == Enums.startup_result_code Enums.raknet_already_started
    then ok StartupResult.already_started
    else if value == Enums.startup_result_code Enums.invalid_socket_descriptors
    then ok StartupResult.invalid_socket_descriptors
    else if value == Enums.startup_result_code Enums.invalid_max_connections
    then ok StartupResult.invalid_max_connections
    else if value == Enums.startup_result_code Enums.socket_family_not_supported
    then ok StartupResult.socket_family_not_supported
    else if value == Enums.startup_result_code Enums.socket_port_already_in_use
    then ok StartupResult.socket_port_already_in_use
    else if value == Enums.startup_result_code Enums.socket_failed_to_bind
    then ok StartupResult.socket_failed_to_bind
    else if value == Enums.startup_result_code Enums.socket_failed_test_send
    then ok StartupResult.socket_failed_test_send
    else if value == Enums.startup_result_code Enums.port_cannot_be_zero
    then ok StartupResult.port_cannot_be_zero
    else if value == Enums.startup_result_code Enums.failed_to_create_network_thread
    then ok StartupResult.failed_to_create_network_thread
    else if value == Enums.startup_result_code Enums.could_not_generate_guid
    then ok StartupResult.could_not_generate_guid
    else if value == Enums.startup_result_code Enums.startup_other_failure
    then ok StartupResult.startup_other_failure
    else panic invalid_value

pub data ConnectionAttemptResult : Type 0 where
  started invalid_parameter cannot_resolve_domain_name already_connected_to_endpoint
        already_in_progress security_initialization_failed :
      ConnectionAttemptResult

-- `From<ffi::ConnectionAttemptResult> for ConnectionAttemptResult`
unfoldable pub from_connection_attempt_result : ℕ → Outcome ConnectionAttemptResult
unfolding Enums.connection_attempt_result_code
from_connection_attempt_result value =
    if value == Enums.connection_attempt_result_code Enums.connection_attempt_started
    then ok ConnectionAttemptResult.started
    else if value == Enums.connection_attempt_result_code Enums.invalid_parameter
    then ok ConnectionAttemptResult.invalid_parameter
    else if value == Enums.connection_attempt_result_code Enums.cannot_resolve_domain_name
    then ok ConnectionAttemptResult.cannot_resolve_domain_name
    else if value == Enums.connection_attempt_result_code Enums.already_connected_to_endpoint
    then ok ConnectionAttemptResult.already_connected_to_endpoint
    else if value
        == Enums.connection_attempt_result_code Enums.connection_attempt_already_in_progress
    then ok ConnectionAttemptResult.already_in_progress
    else if value == Enums.connection_attempt_result_code Enums.security_initialization_failed
    then ok ConnectionAttemptResult.security_initialization_failed
    else panic invalid_value

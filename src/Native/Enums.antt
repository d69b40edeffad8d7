-- ===== src/Native/Enums.antt =====
-- The enumerations of raknet-c/raknet_types.h. An enumerator crosses the interface as its number.
use raknet_sys.Prelude.{ℕ}

pub data StartupResult : Type 0 where
  raknet_started raknet_already_started invalid_socket_descriptors invalid_max_connections
        socket_family_not_supported socket_port_already_in_use socket_failed_to_bind
        socket_failed_test_send port_cannot_be_zero failed_to_create_network_thread
        could_not_generate_guid startup_other_failure :
      StartupResult

unfoldable pub startup_result_code : StartupResult → ℕ
startup_result_code raknet_started = 0
startup_result_code raknet_already_started = 1
startup_result_code invalid_socket_descriptors = 2
startup_result_code invalid_max_connections = 3
startup_result_code socket_family_not_supported = 4
startup_result_code socket_port_already_in_use = 5
startup_result_code socket_failed_to_bind = 6
startup_result_code socket_failed_test_send = 7
startup_result_code port_cannot_be_zero = 8
startup_result_code failed_to_create_network_thread = 9
startup_result_code could_not_generate_guid = 10
startup_result_code startup_other_failure = 11

pub data ConnectionAttemptResult : Type 0 where
  connection_attempt_started invalid_parameter cannot_resolve_domain_name
        already_connected_to_endpoint connection_attempt_already_in_progress
        security_initialization_failed :
      ConnectionAttemptResult

unfoldable pub connection_attempt_result_code : ConnectionAttemptResult → ℕ
connection_attempt_result_code connection_attempt_started = 0
connection_attempt_result_code invalid_parameter = 1
connection_attempt_result_code cannot_resolve_domain_name = 2
connection_attempt_result_code already_connected_to_endpoint = 3
connection_attempt_result_code connection_attempt_already_in_progress = 4
connection_attempt_result_code security_initialization_failed = 5

pub data PacketPriority : Type 0 where
  immediate_priority high_priority medium_priority low_priority number_of_priorities :
      PacketPriority

unfoldable pub packet_priority_code : PacketPriority → ℕ
packet_priority_code immediate_priority = 0
packet_priority_code high_priority = 1
packet_priority_code medium_priority = 2
packet_priority_code low_priority = 3
packet_priority_code number_of_priorities = 4

pub data PacketReliability : Type 0 where
  unreliable unreliable_sequenced reliable reliable_ordered reliable_sequenced
        unreliable_with_ack_receipt reliable_with_ack_receipt reliable_ordered_with_ack_receipt
        number_of_reliabilities :
      PacketReliability

unfoldable pub packet_reliability_code : PacketReliability → ℕ
packet_reliability_code unreliable = 0
packet_reliability_code unreliable_sequenced = 1
packet_reliability_code reliable = 2
packet_reliability_code reliable_ordered = 3
packet_reliability_code reliable_sequenced = 4
packet_reliability_code unreliable_with_ack_receipt = 5
packet_reliability_code reliable_with_ack_receipt = 6
packet_reliability_code reliable_ordered_with_ack_receipt = 7
packet_reliability_code number_of_reliabilities = 8

pub data ConnectionState : Type 0 where
  is_pending is_connecting is_connected is_disconnecting is_silently_disconnecting is_disconnected
        is_not_connected :
      ConnectionState

unfoldable pub connection_state_code : ConnectionState → ℕ
connection_state_code is_pending = 0
connection_state_code is_connecting = 1
connection_state_code is_connected = 2
connection_state_code is_disconnecting = 3
connection_state_code is_silently_disconnecting = 4
connection_state_code is_disconnected = 5
connection_state_code is_not_connected = 6

pub data PublicKeyMode : Type 0 where
  pkm_insecure_connection pkm_accept_any_public_key pkm_use_known_public_key
        pkm_use_two_way_authentication :
      PublicKeyMode

unfoldable pub public_key_mode_code : PublicKeyMode → ℕ
public_key_mode_code pkm_insecure_connection = 0
public_key_mode_code pkm_accept_any_public_key = 1
public_key_mode_code pkm_use_known_public_key = 2
public_key_mode_code pkm_use_two_way_authentication = 3

pub data RnsPerSecondMetrics : Type 0 where
  user_message_bytes_pushed user_message_bytes_sent user_message_bytes_resent
        user_message_bytes_received_processed user_message_bytes_received_ignored actual_bytes_sent
        actual_bytes_received rns_per_second_metrics_count :
      RnsPerSecondMetrics

unfoldable pub rns_per_second_metrics_code : RnsPerSecondMetrics → ℕ
rns_per_second_metrics_code user_message_bytes_pushed = 0
rns_per_second_metrics_code user_message_bytes_sent = 1
rns_per_second_metrics_code user_message_bytes_resent = 2
rns_per_second_metrics_code user_message_bytes_received_processed = 3
rns_per_second_metrics_code user_message_bytes_received_ignored = 4
rns_per_second_metrics_code actual_bytes_sent = 5
rns_per_second_metrics_code actual_bytes_received = 6
rns_per_second_metrics_code rns_per_second_metrics_count = 7

-- ===== src/MessageId.antt =====
-- `DefaultMessageIDTypes` of src/rakpeer.rs, the first byte of a message.
pub mod Bytes
use raknet_sys.Prelude.{ℕ, ◌%◌}

pub data DefaultMessageIdTypes : Type 0 where
  id_connected_ping id_unconnected_ping id_unconnected_ping_open_connections id_connected_pong
        id_detect_lost_connections id_open_connection_request_1 id_open_connection_reply_1
        id_open_connection_request_2 id_open_connection_reply_2 id_connection_request
        id_remote_system_requires_public_key id_our_system_requires_security id_public_key_mismatch
        id_out_of_band_internal id_snd_receipt_acked id_snd_receipt_loss
        id_connection_request_accepted id_connection_attempt_failed id_already_connected
        id_new_incoming_connection id_no_free_incoming_connections id_disconnection_notification
        id_connection_lost id_connection_banned id_invalid_password id_incompatible_protocol_version
        id_ip_recently_connected id_timestamp id_unconnected_pong id_advertise_system
        id_download_progress id_remote_disconnection_notification id_remote_connection_lost
        id_remote_new_incoming_connection id_file_list_transfer_header id_file_list_transfer_file
        id_file_list_reference_push_ack id_ddt_download_request id_transport_string
        id_replica_manager_construction id_replica_manager_scope_change id_replica_manager_serialize
        id_replica_manager_download_started id_replica_manager_download_complete
        id_rakvoice_open_channel_request id_rakvoice_open_channel_reply id_rakvoice_close_channel
        id_rakvoice_data id_autopatcher_get_changelist_since_date id_autopatcher_creation_list
        id_autopatcher_deletion_list id_autopatcher_get_patch id_autopatcher_patch_list
        id_autopatcher_repository_fatal_error
        id_autopatcher_cannot_download_original_unmodified_files id_autopatcher_finished_internal
        id_autopatcher_finished id_autopatcher_restart_application id_nat_punchthrough_request
        id_nat_connect_at_time id_nat_get_most_recent_port id_nat_client_ready
        id_nat_target_not_connected id_nat_target_unresponsive id_nat_connection_to_target_lost
        id_nat_already_in_progress id_nat_punchthrough_failed id_nat_punchthrough_succeeded
        id_ready_event_set id_ready_event_unset id_ready_event_all_set id_ready_event_query
        id_lobby_general id_rpc_remote_error id_rpc_plugin id_file_list_reference_push
        id_ready_event_force_all_set id_rooms_execute_func id_rooms_logon_status
        id_rooms_handle_change id_lobby2_send_message id_lobby2_server_error id_fcm2_new_host
        id_fcm2_request_fcmguid id_fcm2_respond_connection_count id_fcm2_inform_fcmguid
        id_fcm2_update_min_total_connection_count id_fcm2_verified_join_start
        id_fcm2_verified_join_capable id_fcm2_verified_join_failed id_fcm2_verified_join_accepted
        id_fcm2_verified_join_rejected id_udp_proxy_general id_sqlite3_exec id_sqlite3_unknown_db
        id_sqllite_logger id_nat_type_detection_request id_nat_type_detection_result
        id_router_2_internal id_router_2_forwarding_no_path id_router_2_forwarding_established
        id_router_2_rerouted id_team_balancer_internal id_team_balancer_requested_team_full
        id_team_balancer_requested_team_locked id_team_balancer_team_requested_cancelled
        id_team_balancer_team_assigned id_lightspeed_integration id_xbox_lobby
        id_two_way_authentication_incoming_challenge_success
        id_two_way_authentication_outgoing_challenge_success
        id_two_way_authentication_incoming_challenge_failure
        id_two_way_authentication_outgoing_challenge_failure
        id_two_way_authentication_outgoing_challenge_timeout id_two_way_authentication_negotiation
        id_cloud_post_request id_cloud_release_request id_cloud_get_request id_cloud_get_response
        id_cloud_unsubscribe_request id_cloud_server_to_server_command
        id_cloud_subscription_notification id_lib_voice id_relay_plugin
        id_nat_request_bound_addresses id_nat_respond_bound_addresses id_fcm2_update_user_context
        id_reserved_3 id_reserved_4 id_reserved_5 id_reserved_6 id_reserved_7 id_reserved_8
        id_reserved_9 id_user_packet_enum :
      DefaultMessageIdTypes

-- The discriminants: the enumerators count from 0, in their order.
unfoldable pub discriminant : DefaultMessageIdTypes → ℕ
discriminant id_connected_ping = 0
discriminant id_unconnected_ping = 1
discriminant id_unconnected_ping_open_connections = 2
discriminant id_connected_pong = 3
discriminant id_detect_lost_connections = 4
discriminant id_open_connection_request_1 = 5
discriminant id_open_connection_reply_1 = 6
discriminant id_open_connection_request_2 = 7
discriminant id_open_connection_reply_2 = 8
discriminant id_connection_request = 9
discriminant id_remote_system_requires_public_key = 10
discriminant id_our_system_requires_security = 11
discriminant id_public_key_mismatch = 12
discriminant id_out_of_band_internal = 13
discriminant id_snd_receipt_acked = 14
discriminant id_snd_receipt_loss = 15
discriminant id_connection_request_accepted = 16
discriminant id_connection_attempt_failed = 17
discriminant id_already_connected = 18
discriminant id_new_incoming_connection = 19
discriminant id_no_free_incoming_connections = 20
discriminant id_disconnection_notification = 21
discriminant id_connection_lost = 22
discriminant id_connection_banned = 23
discriminant id_invalid_password = 24
discriminant id_incompatible_protocol_version = 25
discriminant id_ip_recently_connected = 26
discriminant id_timestamp = 27
discriminant id_unconnected_pong = 28
discriminant id_advertise_system = 29
discriminant id_download_progress = 30
discriminant id_remote_disconnection_notification = 31
discriminant id_remote_connection_lost = 32
discriminant id_remote_new_incoming_connection = 33
discriminant id_file_list_transfer_header = 34
discriminant id_file_list_transfer_file = 35
discriminant id_file_list_reference_push_ack = 36
discriminant id_ddt_download_request = 37
discriminant id_transport_string = 38
discriminant id_replica_manager_construction = 39
discriminant id_replica_manager_scope_change = 40
discriminant id_replica_manager_serialize = 41
discriminant id_replica_manager_download_started = 42
discriminant id_replica_manager_download_complete = 43
discriminant id_rakvoice_open_channel_request = 44
discriminant id_rakvoice_open_channel_reply = 45
discriminant id_rakvoice_close_channel = 46
discriminant id_rakvoice_data = 47
discriminant id_autopatcher_get_changelist_since_date = 48
discriminant id_autopatcher_creation_list = 49
discriminant id_autopatcher_deletion_list = 50
discriminant id_autopatcher_get_patch = 51
discriminant id_autopatcher_patch_list = 52
discriminant id_autopatcher_repository_fatal_error = 53
discriminant id_autopatcher_cannot_download_original_unmodified_files = 54
discriminant id_autopatcher_finished_internal = 55
discriminant id_autopatcher_finished = 56
discriminant id_autopatcher_restart_application = 57
discriminant id_nat_punchthrough_request = 58
discriminant id_nat_connect_at_time = 59
discriminant id_nat_get_most_recent_port = 60
discriminant id_nat_client_ready = 61
discriminant id_nat_target_not_connected = 62
discriminant id_nat_target_unresponsive = 63
discriminant id_nat_connection_to_target_lost = 64
discriminant id_nat_already_in_progress = 65
discriminant id_nat_punchthrough_failed = 66
discriminant id_nat_punchthrough_succeeded = 67
discriminant id_ready_event_set = 68
discriminant id_ready_event_unset = 69
discriminant id_ready_event_all_set = 70
discriminant id_ready_event_query = 71
discriminant id_lobby_general = 72
discriminant id_rpc_remote_error = 73
discriminant id_rpc_plugin = 74
discriminant id_file_list_reference_push = 75
discriminant id_ready_event_force_all_set = 76
discriminant id_rooms_execute_func = 77
discriminant id_rooms_logon_status = 78
discriminant id_rooms_handle_change = 79
discriminant id_lobby2_send_message = 80
discriminant id_lobby2_server_error = 81
discriminant id_fcm2_new_host = 82
discriminant id_fcm2_request_fcmguid = 83
discriminant id_fcm2_respond_connection_count = 84
discriminant id_fcm2_inform_fcmguid = 85
discriminant id_fcm2_update_min_total_connection_count = 86
discriminant id_fcm2_verified_join_start = 87
discriminant id_fcm2_verified_join_capable = 88
discriminant id_fcm2_verified_join_failed = 89
discriminant id_fcm2_verified_join_accepted = 90
discriminant id_fcm2_verified_join_rejected = 91
discriminant id_udp_proxy_general = 92
discriminant id_sqlite3_exec = 93
discriminant id_sqlite3_unknown_db = 94
discriminant id_sqllite_logger = 95
discriminant id_nat_type_detection_request = 96
discriminant id_nat_type_detection_result = 97
discriminant id_router_2_internal = 98
discriminant id_router_2_forwarding_no_path = 99
discriminant id_router_2_forwarding_established = 100
discriminant id_router_2_rerouted = 101
discriminant id_team_balancer_internal = 102
discriminant id_team_balancer_requested_team_full = 103
discriminant id_team_balancer_requested_team_locked = 104
discriminant id_team_balancer_team_requested_cancelled = 105
discriminant id_team_balancer_team_assigned = 106
discriminant id_lightspeed_integration = 107
discriminant id_xbox_lobby = 108
discriminant id_two_way_authentication_incoming_challenge_success = 109
discriminant id_two_way_authentication_outgoing_challenge_success = 110
discriminant id_two_way_authentication_incoming_challenge_failure = 111
discriminant id_two_way_authentication_outgoing_challenge_failure = 112
discriminant id_two_way_authentication_outgoing_challenge_timeout = 113
discriminant id_two_way_authentication_negotiation = 114
discriminant id_cloud_post_request = 115
discriminant id_cloud_release_request = 116
discriminant id_cloud_get_request = 117
discriminant id_cloud_get_response = 118
discriminant id_cloud_unsubscribe_request = 119
discriminant id_cloud_server_to_server_command = 120
discriminant id_cloud_subscription_notification = 121
discriminant id_lib_voice = 122
discriminant id_relay_plugin = 123
discriminant id_nat_request_bound_addresses = 124
discriminant id_nat_respond_bound_addresses = 125
discriminant id_fcm2_update_user_context = 126
discriminant id_reserved_3 = 127
discriminant id_reserved_4 = 128
discriminant id_reserved_5 = 129
discriminant id_reserved_6 = 130
discriminant id_reserved_7 = 131
discriminant id_reserved_8 = 132
discriminant id_reserved_9 = 133
discriminant id_user_packet_enum = 134

-- `id as u8`
unfoldable pub message_id_byte : DefaultMessageIdTypes → ℕ
unfolding discriminant
message_id_byte id = discriminant id % 256

-- ===== src/MessageId/Bytes.antt =====
-- Every message identifier of src/rakpeer.rs is a byte of its own.
use raknet_sys.Prelude.{◌<◌, ◌≡◌, refl, some, List, [], ◌∷◌, get_elem?, ap, ◌↔◌, arith}
use raknet_sys.MessageId.{DefaultMessageIdTypes, discriminant, message_id_byte}
use raknet_sys.MessageId

-- The enumerators in their order.
abbrev message_ids : List DefaultMessageIdTypes
message_ids =
    MessageId.id_connected_ping ∷ MessageId.id_unconnected_ping
    ∷ MessageId.id_unconnected_ping_open_connections ∷ MessageId.id_connected_pong
    ∷ MessageId.id_detect_lost_connections ∷ MessageId.id_open_connection_request_1
    ∷ MessageId.id_open_connection_reply_1 ∷ MessageId.id_open_connection_request_2
    ∷ MessageId.id_open_connection_reply_2 ∷ MessageId.id_connection_request
    ∷ MessageId.id_remote_system_requires_public_key ∷ MessageId.id_our_system_requires_security
    ∷ MessageId.id_public_key_mismatch ∷ MessageId.id_out_of_band_internal
    ∷ MessageId.id_snd_receipt_acked ∷ MessageId.id_snd_receipt_loss
    ∷ MessageId.id_connection_request_accepted ∷ MessageId.id_connection_attempt_failed
    ∷ MessageId.id_already_connected ∷ MessageId.id_new_incoming_connection
    ∷ MessageId.id_no_free_incoming_connections ∷ MessageId.id_disconnection_notification
    ∷ MessageId.id_connection_lost ∷ MessageId.id_connection_banned ∷ MessageId.id_invalid_password
    ∷ MessageId.id_incompatible_protocol_version ∷ MessageId.id_ip_recently_connected
    ∷ MessageId.id_timestamp ∷ MessageId.id_unconnected_pong ∷ MessageId.id_advertise_system
    ∷ MessageId.id_download_progress ∷ MessageId.id_remote_disconnection_notification
    ∷ MessageId.id_remote_connection_lost ∷ MessageId.id_remote_new_incoming_connection
    ∷ MessageId.id_file_list_transfer_header ∷ MessageId.id_file_list_transfer_file
    ∷ MessageId.id_file_list_reference_push_ack ∷ MessageId.id_ddt_download_request
    ∷ MessageId.id_transport_string ∷ MessageId.id_replica_manager_construction
    ∷ MessageId.id_replica_manager_scope_change ∷ MessageId.id_replica_manager_serialize
    ∷ MessageId.id_replica_manager_download_started ∷ MessageId.id_replica_manager_download_complete
    ∷ MessageId.id_rakvoice_open_channel_request ∷ MessageId.id_rakvoice_open_channel_reply
    ∷ MessageId.id_rakvoice_close_channel ∷ MessageId.id_rakvoice_data
    ∷ MessageId.id_autopatcher_get_changelist_since_date ∷ MessageId.id_autopatcher_creation_list
    ∷ MessageId.id_autopatcher_deletion_list ∷ MessageId.id_autopatcher_get_patch
    ∷ MessageId.id_autopatcher_patch_list ∷ MessageId.id_autopatcher_repository_fatal_error
    ∷ MessageId.id_autopatcher_cannot_download_original_unmodified_files
    ∷ MessageId.id_autopatcher_finished_internal ∷ MessageId.id_autopatcher_finished
    ∷ MessageId.id_autopatcher_restart_application ∷ MessageId.id_nat_punchthrough_request
    ∷ MessageId.id_nat_connect_at_time ∷ MessageId.id_nat_get_most_recent_port
    ∷ MessageId.id_nat_client_ready ∷ MessageId.id_nat_target_not_connected
    ∷ MessageId.id_nat_target_unresponsive ∷ MessageId.id_nat_connection_to_target_lost
    ∷ MessageId.id_nat_already_in_progress ∷ MessageId.id_nat_punchthrough_failed
    ∷ MessageId.id_nat_punchthrough_succeeded ∷ MessageId.id_ready_event_set
    ∷ MessageId.id_ready_event_unset ∷ MessageId.id_ready_event_all_set
    ∷ MessageId.id_ready_event_query ∷ MessageId.id_lobby_general ∷ MessageId.id_rpc_remote_error
    ∷ MessageId.id_rpc_plugin ∷ MessageId.id_file_list_reference_push
    ∷ MessageId.id_ready_event_force_all_set ∷ MessageId.id_rooms_execute_func
    ∷ MessageId.id_rooms_logon_status ∷ MessageId.id_rooms_handle_change
    ∷ MessageId.id_lobby2_send_message ∷ MessageId.id_lobby2_server_error
    ∷ MessageId.id_fcm2_new_host ∷ MessageId.id_fcm2_request_fcmguid
    ∷ MessageId.id_fcm2_respond_connection_count ∷ MessageId.id_fcm2_inform_fcmguid
    ∷ MessageId.id_fcm2_update_min_total_connection_count ∷ MessageId.id_fcm2_verified_join_start
    ∷ MessageId.id_fcm2_verified_join_capable ∷ MessageId.id_fcm2_verified_join_failed
    ∷ MessageId.id_fcm2_verified_join_accepted ∷ MessageId.id_fcm2_verified_join_rejected
    ∷ MessageId.id_udp_proxy_general ∷ MessageId.id_sqlite3_exec ∷ MessageId.id_sqlite3_unknown_db
    ∷ MessageId.id_sqllite_logger ∷ MessageId.id_nat_type_detection_request
    ∷ MessageId.id_nat_type_detection_result ∷ MessageId.id_router_2_internal
    ∷ MessageId.id_router_2_forwarding_no_path ∷ MessageId.id_router_2_forwarding_established
    ∷ MessageId.id_router_2_rerouted ∷ MessageId.id_team_balancer_internal
    ∷ MessageId.id_team_balancer_requested_team_full
    ∷ MessageId.id_team_balancer_requested_team_locked
    ∷ MessageId.id_team_balancer_team_requested_cancelled ∷ MessageId.id_team_balancer_team_assigned
    ∷ MessageId.id_lightspeed_integration ∷ MessageId.id_xbox_lobby
    ∷ MessageId.id_two_way_authentication_incoming_challenge_success
    ∷ MessageId.id_two_way_authentication_outgoing_challenge_success
    ∷ MessageId.id_two_way_authentication_incoming_challenge_failure
    ∷ MessageId.id_two_way_authentication_outgoing_challenge_failure
    ∷ MessageId.id_two_way_authentication_outgoing_challenge_timeout
    ∷ MessageId.id_two_way_authentication_negotiation ∷ MessageId.id_cloud_post_request
    ∷ MessageId.id_cloud_release_request ∷ MessageId.id_cloud_get_request
    ∷ MessageId.id_cloud_get_response ∷ MessageId.id_cloud_unsubscribe_request
    ∷ MessageId.id_cloud_server_to_server_command ∷ MessageId.id_cloud_subscription_notification
    ∷ MessageId.id_lib_voice ∷ MessageId.id_relay_plugin ∷ MessageId.id_nat_request_bound_addresses
    ∷ MessageId.id_nat_respond_bound_addresses ∷ MessageId.id_fcm2_update_user_context
    ∷ MessageId.id_reserved_3 ∷ MessageId.id_reserved_4 ∷ MessageId.id_reserved_5
    ∷ MessageId.id_reserved_6 ∷ MessageId.id_reserved_7 ∷ MessageId.id_reserved_8
    ∷ MessageId.id_reserved_9 ∷ MessageId.id_user_packet_enum ∷ []

get_elem?-discriminant :
    (id : DefaultMessageIdTypes) → get_elem? message_ids (discriminant id) ≡ some id
unfolding discriminant
get_elem?-discriminant DefaultMessageIdTypes.id_connected_ping = refl
get_elem?-discriminant _ = refl

discriminant-lt : (id : DefaultMessageIdTypes) → discriminant id < 135
unfolding discriminant
discriminant-lt DefaultMessageIdTypes.id_connected_ping = omega arith
discriminant-lt _ = omega arith

message_id_byte-discriminant : (id : DefaultMessageIdTypes) → message_id_byte id ≡ discriminant id
unfolding message_id_byte
message_id_byte-discriminant id = omega (arith, discriminant-lt id)

discriminant-injective : (x y : DefaultMessageIdTypes) → discriminant x ≡ discriminant y → x ≡ y
discriminant-injective x y h = cc (get_elem?-discriminant x, get_elem?-discriminant y)

-- After the cast to a byte no two message identifiers are the same number.
message_id_byte-injective :
    (x y : DefaultMessageIdTypes) → (message_id_byte x ≡ message_id_byte y) ↔ (x ≡ y)
message_id_byte-injective x y = (
  λ h.
      discriminant-injective x y
        (omega (arith, message_id_byte-discriminant x, message_id_byte-discriminant y)),
  λ e. ap message_id_byte e,
)

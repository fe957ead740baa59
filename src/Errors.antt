-- ===== src/Errors.antt =====
-- The typed error codes of server/server/protocol.py (`ErrorCode`).

pub data ErrorCode : Type 0 where
  unknown invalid_credentials invalid_session session_actor_mismatch : ErrorCode
  unsupported_message_type unknown_conversation conversation_access_denied : ErrorCode
  empty_message unknown_remote_session unknown_requester_device unknown_target_device : ErrorCode
  requester_device_user_mismatch requester_device_session_mismatch : ErrorCode
  device_action_denied self_remote_session_not_allowed : ErrorCode
  remote_session_not_awaiting_approval remote_approval_denied remote_rejection_denied : ErrorCode
  remote_cancel_denied remote_terminate_denied remote_disconnect_denied : ErrorCode
  remote_rendezvous_denied remote_session_already_terminal remote_session_not_active : ErrorCode
  remote_session_not_ready_for_rendezvous remote_input_denied unsupported_input_kind : ErrorCode
  invalid_input_payload username_taken weak_password device_id_taken : ErrorCode
  invalid_registration_payload unknown_user conversation_participant_already_present : ErrorCode
  conversation_participant_not_present conversation_too_few_participants : ErrorCode
  unknown_message message_edit_denied message_delete_denied message_already_deleted : ErrorCode
  contact_self_not_allowed contact_already_added contact_not_present : ErrorCode
  report_reason_required leave_confirmation_required attachment_too_large : ErrorCode
  invalid_attachment_payload unknown_attachment attachment_access_denied : ErrorCode
  unknown_upload upload_too_large upload_chunk_out_of_order upload_size_mismatch : ErrorCode
  upload_limit_reached invalid_phone_number phone_otp_rate_limited invalid_otp_code : ErrorCode
  otp_expired otp_attempts_exhausted rate_limited two_fa_already_enabled : ErrorCode
  two_fa_not_enabled invalid_two_fa_code two_fa_required account_delete_auth_failed : ErrorCode
  blocked_by_recipient already_blocked not_blocked not_a_poll poll_closed : ErrorCode
  poll_invalid_option poll_too_few_options poll_close_denied : ErrorCode
  conversation_permission_denied conversation_owner_role_immutable : ErrorCode
  conversation_invalid_role unknown_call call_participant_denied call_not_ringing : ErrorCode
  call_already_terminal call_not_active call_invalid_kind : ErrorCode

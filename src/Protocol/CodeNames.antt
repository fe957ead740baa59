-- ===== src/Protocol/CodeNames.antt =====
-- Error codes are read back from their names on the wire: `ErrorCode(value)`, protocol.py.
use Prim.Native.String.{String}
use mathlib.Core.Path.{◌≡◌, refl}
use mathlib.Core.Option.{Option, some}
use telegram.Prelude.{eq_string, text_eq}
use telegram.Errors.{
  ErrorCode, unknown, invalid_credentials, invalid_session, session_actor_mismatch,
  unsupported_message_type, unknown_conversation, conversation_access_denied, empty_message,
  unknown_remote_session, unknown_requester_device, unknown_target_device,
  requester_device_user_mismatch, requester_device_session_mismatch, device_action_denied,
  self_remote_session_not_allowed, remote_session_not_awaiting_approval, remote_approval_denied,
  remote_rejection_denied, remote_cancel_denied, remote_terminate_denied, remote_disconnect_denied,
  remote_rendezvous_denied, remote_session_already_terminal, remote_session_not_active,
  remote_session_not_ready_for_rendezvous, remote_input_denied, unsupported_input_kind,
  invalid_input_payload, username_taken, weak_password, device_id_taken,
  invalid_registration_payload, unknown_user, conversation_participant_already_present,
  conversation_participant_not_present, conversation_too_few_participants, unknown_message,
  message_edit_denied, message_delete_denied, message_already_deleted, contact_self_not_allowed,
  contact_already_added, contact_not_present, report_reason_required, leave_confirmation_required,
  attachment_too_large, invalid_attachment_payload, unknown_attachment, attachment_access_denied,
  unknown_upload, upload_too_large, upload_chunk_out_of_order, upload_size_mismatch,
  upload_limit_reached, invalid_phone_number, phone_otp_rate_limited, invalid_otp_code, otp_expired,
  otp_attempts_exhausted, rate_limited, two_fa_already_enabled, two_fa_not_enabled,
  invalid_two_fa_code, two_fa_required, account_delete_auth_failed, blocked_by_recipient,
  already_blocked, not_blocked, not_a_poll, poll_closed, poll_invalid_option, poll_too_few_options,
  poll_close_denied, conversation_permission_denied, conversation_owner_role_immutable,
  conversation_invalid_role, unknown_call, call_participant_denied, call_not_ringing,
  call_already_terminal, call_not_active, call_invalid_kind,
}
use telegram.Protocol.Codes.{code_value, error_codes}
use telegram.Protocol.{member_with}

-- `ErrorCode(name)`, `none` where it raises
unfoldable pub code_of_value : String → Option ErrorCode
unfolding member_with
code_of_value name = member_with code_value name error_codes

-- The value of every error code is read back as that code.
pub code_of_value-code_value : (c : ErrorCode) → code_of_value (code_value c) ≡ some c
unfolding code_of_value code_value error_codes text_eq member_with
code_of_value-code_value unknown = refl
code_of_value-code_value invalid_credentials = refl
code_of_value-code_value invalid_session = refl
code_of_value-code_value session_actor_mismatch = refl
code_of_value-code_value unsupported_message_type = refl
code_of_value-code_value unknown_conversation = refl
code_of_value-code_value conversation_access_denied = refl
code_of_value-code_value empty_message = refl
code_of_value-code_value unknown_remote_session = refl
code_of_value-code_value unknown_requester_device = refl
code_of_value-code_value unknown_target_device = refl
code_of_value-code_value requester_device_user_mismatch = refl
code_of_value-code_value requester_device_session_mismatch = refl
code_of_value-code_value device_action_denied = refl
code_of_value-code_value self_remote_session_not_allowed = refl
code_of_value-code_value remote_session_not_awaiting_approval = refl
code_of_value-code_value remote_approval_denied = refl
code_of_value-code_value remote_rejection_denied = refl
code_of_value-code_value remote_cancel_denied = refl
code_of_value-code_value remote_terminate_denied = refl
code_of_value-code_value remote_disconnect_denied = refl
code_of_value-code_value remote_rendezvous_denied = refl
code_of_value-code_value remote_session_already_terminal = refl
code_of_value-code_value remote_session_not_active = refl
code_of_value-code_value remote_session_not_ready_for_rendezvous = refl
code_of_value-code_value remote_input_denied = refl
code_of_value-code_value unsupported_input_kind = refl
code_of_value-code_value invalid_input_payload = refl
code_of_value-code_value username_taken = refl
code_of_value-code_value weak_password = refl
code_of_value-code_value device_id_taken = refl
code_of_value-code_value invalid_registration_payload = refl
code_of_value-code_value unknown_user = refl
code_of_value-code_value conversation_participant_already_present = refl
code_of_value-code_value conversation_participant_not_present = refl
code_of_value-code_value conversation_too_few_participants = refl
code_of_value-code_value unknown_message = refl
code_of_value-code_value message_edit_denied = refl
code_of_value-code_value message_delete_denied = refl
code_of_value-code_value message_already_deleted = refl
code_of_value-code_value contact_self_not_allowed = refl
code_of_value-code_value contact_already_added = refl
code_of_value-code_value contact_not_present = refl
code_of_value-code_value report_reason_required = refl
code_of_value-code_value leave_confirmation_required = refl
code_of_value-code_value attachment_too_large = refl
code_of_value-code_value invalid_attachment_payload = refl
code_of_value-code_value unknown_attachment = refl
code_of_value-code_value attachment_access_denied = refl
code_of_value-code_value unknown_upload = refl
code_of_value-code_value upload_too_large = refl
code_of_value-code_value upload_chunk_out_of_order = refl
code_of_value-code_value upload_size_mismatch = refl
code_of_value-code_value upload_limit_reached = refl
code_of_value-code_value invalid_phone_number = refl
code_of_value-code_value phone_otp_rate_limited = refl
code_of_value-code_value invalid_otp_code = refl
code_of_value-code_value otp_expired = refl
code_of_value-code_value otp_attempts_exhausted = refl
code_of_value-code_value rate_limited = refl
code_of_value-code_value two_fa_already_enabled = refl
code_of_value-code_value two_fa_not_enabled = refl
code_of_value-code_value invalid_two_fa_code = refl
code_of_value-code_value two_fa_required = refl
code_of_value-code_value account_delete_auth_failed = refl
code_of_value-code_value blocked_by_recipient = refl
code_of_value-code_value already_blocked = refl
code_of_value-code_value not_blocked = refl
code_of_value-code_value not_a_poll = refl
code_of_value-code_value poll_closed = refl
code_of_value-code_value poll_invalid_option = refl
code_of_value-code_value poll_too_few_options = refl
code_of_value-code_value poll_close_denied = refl
code_of_value-code_value conversation_permission_denied = refl
code_of_value-code_value conversation_owner_role_immutable = refl
code_of_value-code_value conversation_invalid_role = refl
code_of_value-code_value unknown_call = refl
code_of_value-code_value call_participant_denied = refl
code_of_value-code_value call_not_ringing = refl
code_of_value-code_value call_already_terminal = refl
code_of_value-code_value call_not_active = refl
code_of_value-code_value call_invalid_kind = refl

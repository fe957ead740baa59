-- ===== src/Protocol/Codes.antt =====
-- The values of `ErrorCode` and the texts of `_ERROR_MESSAGES`, server/server/protocol.py.
use Prim.Native.String.{String}
use mathlib.Core.List.{List, [], ◌∷◌}
use telegram.Errors.{
  ErrorCode, unknown, invalid_credentials, invalid_session, session_actor_mismatch,
  unsupported_message_type, unknown_conversation, conversation_access_denied, empty_message,
  unknown_remote_session, unknown_requester_device, unknown_target_device,
  requester_device_user_mismatch, requester_device_session_mismatch, device_action_denied,
  self_remote_session_not_allowed, remote_session_not_awaiting_approval, remote_approval_denied,
  remote_rejection_denied, remote_cancel_denied, remote_terminate_denied, remote_disconnect_denied,
  remote_rendezvous_denied, remote_session_already_terminal, remote_session_not_active,
  remote_session_not_ready_for_rendezvous, remote_input_denied, unsupported_input_kind,
  invalid_input_payload, username_taken, weak_password, device_id_taken,
  invalid_registration_payload, unknown_user, conversation_participant_already_present,
  conversation_participant_not_present, conversation_too_few_participants, unknown_message,
  message_edit_denied, message_delete_denied, message_already_deleted, contact_self_not_allowed,
  contact_already_added, contact_not_present, report_reason_required, leave_confirmation_required,
  attachment_too_large, invalid_attachment_payload, unknown_attachment, attachment_access_denied,
  unknown_upload, upload_too_large, upload_chunk_out_of_order, upload_size_mismatch,
  upload_limit_reached, invalid_phone_number, phone_otp_rate_limited, invalid_otp_code, otp_expired,
  otp_attempts_exhausted, rate_limited, two_fa_already_enabled, two_fa_not_enabled,
  invalid_two_fa_code, two_fa_required, account_delete_auth_failed, blocked_by_recipient,
  already_blocked, not_blocked, not_a_poll, poll_closed, poll_invalid_option, poll_too_few_options,
  poll_close_denied, conversation_permission_denied, conversation_owner_role_immutable,
  conversation_invalid_role, unknown_call, call_participant_denied, call_not_ringing,
  call_already_terminal, call_not_active, call_invalid_kind,
}

-- `ErrorCode.value`
unfoldable pub code_value : ErrorCode → String
code_value unknown = "unknown"
code_value invalid_credentials = "invalid_credentials"
code_value invalid_session = "invalid_session"
code_value session_actor_mismatch = "session_actor_mismatch"
code_value unsupported_message_type = "unsupported_message_type"
code_value unknown_conversation = "unknown_conversation"
code_value conversation_access_denied = "conversation_access_denied"
code_value empty_message = "empty_message"
code_value unknown_remote_session = "unknown_remote_session"
code_value unknown_requester_device = "unknown_requester_device"
code_value unknown_target_device = "unknown_target_device"
code_value requester_device_user_mismatch = "requester_device_user_mismatch"
code_value requester_device_session_mismatch = "requester_device_session_mismatch"
code_value device_action_denied = "device_action_denied"
code_value self_remote_session_not_allowed = "self_remote_session_not_allowed"
code_value remote_session_not_awaiting_approval = "remote_session_not_awaiting_approval"
code_value remote_approval_denied = "remote_approval_denied"
code_value remote_rejection_denied = "remote_rejection_denied"
code_value remote_cancel_denied = "remote_cancel_denied"
code_value remote_terminate_denied = "remote_terminate_denied"
code_value remote_disconnect_denied = "remote_disconnect_denied"
code_value remote_rendezvous_denied = "remote_rendezvous_denied"
code_value remote_session_already_terminal = "remote_session_already_terminal"
code_value remote_session_not_active = "remote_session_not_active"
code_value remote_session_not_ready_for_rendezvous = "remote_session_not_ready_for_rendezvous"
code_value remote_input_denied = "remote_input_denied"
code_value unsupported_input_kind = "unsupported_input_kind"
code_value invalid_input_payload = "invalid_input_payload"
code_value username_taken = "username_taken"
code_value weak_password = "weak_password"
code_value device_id_taken = "device_id_taken"
code_value invalid_registration_payload = "invalid_registration_payload"
code_value unknown_user = "unknown_user"
code_value conversation_participant_already_present = "conversation_participant_already_present"
code_value conversation_participant_not_present = "conversation_participant_not_present"
code_value conversation_too_few_participants = "conversation_too_few_participants"
code_value unknown_message = "unknown_message"
code_value message_edit_denied = "message_edit_denied"
code_value message_delete_denied = "message_delete_denied"
code_value message_already_deleted = "message_already_deleted"
code_value contact_self_not_allowed = "contact_self_not_allowed"
code_value contact_already_added = "contact_already_added"
code_value contact_not_present = "contact_not_present"
code_value report_reason_required = "report_reason_required"
code_value leave_confirmation_required = "leave_confirmation_required"
code_value attachment_too_large = "attachment_too_large"
code_value invalid_attachment_payload = "invalid_attachment_payload"
code_value unknown_attachment = "unknown_attachment"
code_value attachment_access_denied = "attachment_access_denied"
code_value unknown_upload = "unknown_upload"
code_value upload_too_large = "upload_too_large"
code_value upload_chunk_out_of_order = "upload_chunk_out_of_order"
code_value upload_size_mismatch = "upload_size_mismatch"
code_value upload_limit_reached = "upload_limit_reached"
code_value invalid_phone_number = "invalid_phone_number"
code_value phone_otp_rate_limited = "phone_otp_rate_limited"
code_value invalid_otp_code = "invalid_otp_code"
code_value otp_expired = "otp_expired"
code_value otp_attempts_exhausted = "otp_attempts_exhausted"
code_value rate_limited = "rate_limited"
code_value two_fa_already_enabled = "two_fa_already_enabled"
code_value two_fa_not_enabled = "two_fa_not_enabled"
code_value invalid_two_fa_code = "invalid_two_fa_code"
code_value two_fa_required = "two_fa_required"
code_value account_delete_auth_failed = "account_delete_auth_failed"
code_value blocked_by_recipient = "blocked_by_recipient"
code_value already_blocked = "already_blocked"
code_value not_blocked = "not_blocked"
code_value not_a_poll = "not_a_poll"
code_value poll_closed = "poll_closed"
code_value poll_invalid_option = "poll_invalid_option"
code_value poll_too_few_options = "poll_too_few_options"
code_value poll_close_denied = "poll_close_denied"
code_value conversation_permission_denied = "conversation_permission_denied"
code_value conversation_owner_role_immutable = "conversation_owner_role_immutable"
code_value conversation_invalid_role = "conversation_invalid_role"
code_value unknown_call = "unknown_call"
code_value call_participant_denied = "call_participant_denied"
code_value call_not_ringing = "call_not_ringing"
code_value call_already_terminal = "call_already_terminal"
code_value call_not_active = "call_not_active"
code_value call_invalid_kind = "call_invalid_kind"

-- in the order of the class
unfoldable pub error_codes : List ErrorCode
error_codes =
    unknown ∷ invalid_credentials ∷ invalid_session ∷ session_actor_mismatch
    ∷ unsupported_message_type ∷ unknown_conversation ∷ conversation_access_denied ∷ empty_message
    ∷ unknown_remote_session ∷ unknown_requester_device ∷ unknown_target_device
    ∷ requester_device_user_mismatch ∷ requester_device_session_mismatch ∷ device_action_denied
    ∷ self_remote_session_not_allowed ∷ remote_session_not_awaiting_approval
    ∷ remote_approval_denied ∷ remote_rejection_denied ∷ remote_cancel_denied
    ∷ remote_terminate_denied ∷ remote_disconnect_denied ∷ remote_rendezvous_denied
    ∷ remote_session_already_terminal ∷ remote_session_not_active
    ∷ remote_session_not_ready_for_rendezvous ∷ remote_input_denied ∷ unsupported_input_kind
    ∷ invalid_input_payload ∷ username_taken ∷ weak_password ∷ device_id_taken
    ∷ invalid_registration_payload ∷ unknown_user ∷ conversation_participant_already_present
    ∷ conversation_participant_not_present ∷ conversation_too_few_participants ∷ unknown_message
    ∷ message_edit_denied ∷ message_delete_denied ∷ message_already_deleted
    ∷ contact_self_not_allowed ∷ contact_already_added ∷ contact_not_present
    ∷ report_reason_required ∷ leave_confirmation_required ∷ attachment_too_large
    ∷ invalid_attachment_payload ∷ unknown_attachment ∷ attachment_access_denied ∷ unknown_upload
    ∷ upload_too_large ∷ upload_chunk_out_of_order ∷ upload_size_mismatch ∷ upload_limit_reached
    ∷ invalid_phone_number ∷ phone_otp_rate_limited ∷ invalid_otp_code ∷ otp_expired
    ∷ otp_attempts_exhausted ∷ rate_limited ∷ two_fa_already_enabled ∷ two_fa_not_enabled
    ∷ invalid_two_fa_code ∷ two_fa_required ∷ account_delete_auth_failed ∷ blocked_by_recipient
    ∷ already_blocked ∷ not_blocked ∷ not_a_poll ∷ poll_closed ∷ poll_invalid_option
    ∷ poll_too_few_options ∷ poll_close_denied ∷ conversation_permission_denied
    ∷ conversation_owner_role_immutable ∷ conversation_invalid_role ∷ unknown_call
    ∷ call_participant_denied ∷ call_not_ringing ∷ call_already_terminal ∷ call_not_active
    ∷ call_invalid_kind ∷ []

-- `error_message`; every code has a text of its own in the table
unfoldable pub error_message : ErrorCode → String
error_message unknown = "Unknown error."
error_message invalid_credentials = "The username or password is invalid."
error_message invalid_session = "The session id is unknown or has expired."
error_message session_actor_mismatch = "The actor user does not own this session."
error_message unsupported_message_type = "The server does not know how to handle this message type."
error_message unknown_conversation = "No conversation matches that id."
error_message conversation_access_denied = "The sender is not a participant of this conversation."
error_message empty_message = "A message cannot be empty."
error_message unknown_remote_session = "No remote session matches that id."
error_message unknown_requester_device = "The requester device is unknown."
error_message unknown_target_device = "The target device is unknown."
error_message requester_device_user_mismatch = "Requester device does not belong to the actor user."
error_message requester_device_session_mismatch =
    "Requester device does not match the current session."
error_message device_action_denied = "That device cannot be modified by this session."
error_message self_remote_session_not_allowed = "A user cannot remote-control their own device."
error_message remote_session_not_awaiting_approval =
    "Action requires the session to be awaiting approval."
error_message remote_approval_denied = "Only the target user can approve this remote session."
error_message remote_rejection_denied = "Only the target user can reject this remote session."
error_message remote_cancel_denied = "Only participants can cancel this remote session."
error_message remote_terminate_denied = "Only participants can terminate this remote session."
error_message remote_disconnect_denied =
    "Only participants can mark this remote session disconnected."
error_message remote_rendezvous_denied = "Only participants can request rendezvous info."
error_message remote_session_already_terminal = "The remote session is already in a terminal state."
error_message remote_session_not_active =
    "Action requires the session to be in an active (post-approval) state."
error_message remote_session_not_ready_for_rendezvous =
    "Rendezvous info is only available after approval."
error_message remote_input_denied =
    "Only the requester of an active remote session can inject input events."
error_message unsupported_input_kind = "Unsupported input kind."
error_message invalid_input_payload = "Input payload missing required fields for this kind."
error_message username_taken = "That username is already registered."
error_message weak_password = "Password is too short (minimum 8 characters)."
error_message device_id_taken = "That device_id is already registered."
error_message invalid_registration_payload = "Registration payload is missing or malformed."
error_message unknown_user = "No user matches that user_id."
error_message conversation_participant_already_present =
    "That user is already a participant in this conversation."
error_message conversation_participant_not_present =
    "That user is not a participant in this conversation."
error_message conversation_too_few_participants =
    "A conversation must have at least two participants."
error_message unknown_message = "No message matches that id in this conversation."
error_message message_edit_denied = "Only the original sender can edit this message."
error_message message_delete_denied = "Only the original sender can delete this message."
error_message message_already_deleted = "That message has already been deleted."
error_message contact_self_not_allowed = "A user cannot add themselves as a contact."
error_message contact_already_added = "That user is already in your contact list."
error_message contact_not_present = "That user is not in your contact list."
error_message report_reason_required = "A report must include a reason."
error_message leave_confirmation_required = "Leaving a conversation requires confirmation."
error_message attachment_too_large = "Attachment exceeds the maximum allowed size."
error_message invalid_attachment_payload = "Attachment payload is missing fields or malformed."
error_message unknown_attachment = "No attachment matches that id."
error_message attachment_access_denied =
    "You are not a participant of the attachment's conversation."
error_message unknown_upload = "No active upload session matches that id."
error_message upload_too_large = "Upload exceeds the maximum allowed total size."
error_message upload_chunk_out_of_order =
    "Upload chunks must arrive in monotonically increasing sequence."
error_message upload_size_mismatch = "Stitched chunk total does not match the declared upload size."
error_message upload_limit_reached = "Maximum concurrent uploads per user reached."
error_message invalid_phone_number = "Phone number is missing or not in E.164 format."
error_message phone_otp_rate_limited =
    "Too many OTP requests for this phone number; wait before retrying."
error_message invalid_otp_code = "OTP code does not match the most recent issued code."
error_message otp_expired = "OTP code has expired; request a new one."
error_message otp_attempts_exhausted = "Too many OTP verification attempts; request a new code."
error_message rate_limited = "Too many requests for this session; slow down and retry."
error_message two_fa_already_enabled =
    "Two-factor authentication is already enabled for this account."
error_message two_fa_not_enabled = "Two-factor authentication is not enabled for this account."
error_message invalid_two_fa_code =
    "TOTP code does not match; check the authenticator app and retry."
error_message two_fa_required =
    "Two-factor authentication is required; include two_fa_code on login."
error_message account_delete_auth_failed =
    "Account delete must be confirmed with the current password (and TOTP if 2FA is enabled)."
error_message blocked_by_recipient = "The recipient has blocked you; the message was not delivered."
error_message already_blocked = "That user is already on your block list."
error_message not_blocked = "That user is not on your block list."
error_message not_a_poll = "That message is not a poll; vote/close are not applicable."
error_message poll_closed = "Voting on this poll has been closed by the author."
error_message poll_invalid_option = "The selected option index is out of range for this poll."
error_message poll_too_few_options = "A poll must have at least two options."
error_message poll_close_denied = "Only the poll author can close the poll."
error_message conversation_permission_denied =
    "Your role in this conversation does not allow that action."
error_message conversation_owner_role_immutable = "The conversation owner's role cannot be changed."
error_message conversation_invalid_role = "Role must be one of: owner, admin, member."
error_message unknown_call = "No call matches that call_id."
error_message call_participant_denied = "Only the caller or callee may act on this call."
error_message call_not_ringing = "This call is not in a ringing state."
error_message call_already_terminal = "This call is already in a terminal state."
error_message call_not_active = "This call is not in an active (accepted) state."
error_message call_invalid_kind = "Call kind must be 'audio' or 'video'."

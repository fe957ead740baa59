-- ===== src/Protocol/TypeNames.antt =====
-- Message types are read back from their names on the wire: `MessageType(value)`, protocol.py.
use Prim.Native.String.{String}
use mathlib.Core.Path.{◌≡◌, refl}
use mathlib.Core.Option.{Option, some}
use telegram.Prelude.{eq_string, text_eq}
use telegram.Protocol.Messages.{
  MessageType, login_request, login_response, register_request, register_response,
  profile_get_request, profile_update_request, profile_response, user_search_request,
  user_search_response, presence_update, presence_query_request, presence_query_response,
  heartbeat_ping, heartbeat_ack, conversation_sync, conversation_create,
  conversation_add_participant, conversation_remove_participant, conversation_updated, message_send,
  message_deliver, service_command, message_read, message_read_update, message_edit, message_edited,
  message_delete, message_deleted, message_forward, message_reaction, message_reaction_updated,
  message_pin, message_pin_updated, typing_pulse, message_search_request, message_search_response,
  message_send_attachment, attachment_fetch_request, attachment_fetch_response, device_list_request,
  device_list_response, device_revoke_request, device_trust_update_request, contact_add,
  contact_remove, contact_edit, contact_share_request, contact_share_response, contact_list_request,
  contact_list_response, account_settings_get_request, account_settings_update_request,
  account_settings_response, account_features_get_request, account_features_update_request,
  account_features_response, report_conversation_request, report_conversation_response,
  conversation_leave_request, shared_media_page_request, shared_media_page_response, remote_invite,
  remote_approve, remote_reject, remote_cancel, remote_terminate, remote_disconnect,
  remote_rendezvous_request, remote_input_event, remote_input_ack, remote_session_state,
  remote_rendezvous_info, remote_relay_assignment, remote_session_terminated, push_token_register,
  push_token_unregister, push_token_list_request, push_token_list_response, push_token_ack,
  attachment_upload_init_request, attachment_upload_init_response, attachment_upload_chunk_request,
  attachment_upload_chunk_ack, attachment_upload_complete_request, phone_otp_request,
  phone_otp_request_response, phone_otp_verify_request, phone_otp_verify_response,
  two_fa_enable_request, two_fa_enable_response, two_fa_verify_request, two_fa_verify_response,
  two_fa_disable_request, two_fa_disable_response, account_export_request, account_export_response,
  account_delete_request, account_delete_response, block_user_request, unblock_user_request,
  blocked_users_list_request, blocked_users_list_response, block_user_ack,
  conversation_mute_update_request, conversation_mute_update_response, draft_save_request,
  draft_save_response, draft_list_request, draft_list_response, draft_clear_request,
  draft_clear_response, conversation_pin_toggle_request, conversation_pin_toggle_response,
  conversation_archive_toggle_request, conversation_archive_toggle_response,
  profile_avatar_update_request, profile_avatar_update_response, conversation_avatar_update_request,
  conversation_avatar_update_response, poll_create_request, poll_vote_request, poll_close_request,
  poll_updated, conversation_role_update_request, call_invite_request, call_accept_request,
  call_decline_request, call_end_request, call_rendezvous_request, call_state, call_rendezvous_info,
  error, type_value, message_types,
}
use telegram.Protocol.{member_with}

-- `MessageType(name)`, `none` where it raises
unfoldable pub type_of_value : String → Option MessageType
unfolding member_with
type_of_value name = member_with type_value name message_types

-- The value of every message type is read back as that type.
pub type_of_value-type_value : (t : MessageType) → type_of_value (type_value t) ≡ some t
unfolding type_of_value type_value message_types text_eq member_with
type_of_value-type_value login_request = refl
type_of_value-type_value login_response = refl
type_of_value-type_value register_request = refl
type_of_value-type_value register_response = refl
type_of_value-type_value profile_get_request = refl
type_of_value-type_value profile_update_request = refl
type_of_value-type_value profile_response = refl
type_of_value-type_value user_search_request = refl
type_of_value-type_value user_search_response = refl
type_of_value-type_value presence_update = refl
type_of_value-type_value presence_query_request = refl
type_of_value-type_value presence_query_response = refl
type_of_value-type_value heartbeat_ping = refl
type_of_value-type_value heartbeat_ack = refl
type_of_value-type_value conversation_sync = refl
type_of_value-type_value conversation_create = refl
type_of_value-type_value conversation_add_participant = refl
type_of_value-type_value conversation_remove_participant = refl
type_of_value-type_value conversation_updated = refl
type_of_value-type_value message_send = refl
type_of_value-type_value message_deliver = refl
type_of_value-type_value service_command = refl
type_of_value-type_value message_read = refl
type_of_value-type_value message_read_update = refl
type_of_value-type_value message_edit = refl
type_of_value-type_value message_edited = refl
type_of_value-type_value message_delete = refl
type_of_value-type_value message_deleted = refl
type_of_value-type_value message_forward = refl
type_of_value-type_value message_reaction = refl
type_of_value-type_value message_reaction_updated = refl
type_of_value-type_value message_pin = refl
type_of_value-type_value message_pin_updated = refl
type_of_value-type_value typing_pulse = refl
type_of_value-type_value message_search_request = refl
type_of_value-type_value message_search_response = refl
type_of_value-type_value message_send_attachment = refl
type_of_value-type_value attachment_fetch_request = refl
type_of_value-type_value attachment_fetch_response = refl
type_of_value-type_value device_list_request = refl
type_of_value-type_value device_list_response = refl
type_of_value-type_value device_revoke_request = refl
type_of_value-type_value device_trust_update_request = refl
type_of_value-type_value contact_add = refl
type_of_value-type_value contact_remove = refl
type_of_value-type_value contact_edit = refl
type_of_value-type_value contact_share_request = refl
type_of_value-type_value contact_share_response = refl
type_of_value-type_value contact_list_request = refl
type_of_value-type_value contact_list_response = refl
type_of_value-type_value account_settings_get_request = refl
type_of_value-type_value account_settings_update_request = refl
type_of_value-type_value account_settings_response = refl
type_of_value-type_value account_features_get_request = refl
type_of_value-type_value account_features_update_request = refl
type_of_value-type_value account_features_response = refl
type_of_value-type_value report_conversation_request = refl
type_of_value-type_value report_conversation_response = refl
type_of_value-type_value conversation_leave_request = refl
type_of_value-type_value shared_media_page_request = refl
type_of_value-type_value shared_media_page_response = refl
type_of_value-type_value remote_invite = refl
type_of_value-type_value remote_approve = refl
type_of_value-type_value remote_reject = refl
type_of_value-type_value remote_cancel = refl
type_of_value-type_value remote_terminate = refl
type_of_value-type_value remote_disconnect = refl
type_of_value-type_value remote_rendezvous_request = refl
type_of_value-type_value remote_input_event = refl
type_of_value-type_value remote_input_ack = refl
type_of_value-type_value remote_session_state = refl
type_of_value-type_value remote_rendezvous_info = refl
type_of_value-type_value remote_relay_assignment = refl
type_of_value-type_value remote_session_terminated = refl
type_of_value-type_value push_token_register = refl
type_of_value-type_value push_token_unregister = refl
type_of_value-type_value push_token_list_request = refl
type_of_value-type_value push_token_list_response = refl
type_of_value-type_value push_token_ack = refl
type_of_value-type_value attachment_upload_init_request = refl
type_of_value-type_value attachment_upload_init_response = refl
type_of_value-type_value attachment_upload_chunk_request = refl
type_of_value-type_value attachment_upload_chunk_ack = refl
type_of_value-type_value attachment_upload_complete_request = refl
type_of_value-type_value phone_otp_request = refl
type_of_value-type_value phone_otp_request_response = refl
type_of_value-type_value phone_otp_verify_request = refl
type_of_value-type_value phone_otp_verify_response = refl
type_of_value-type_value two_fa_enable_request = refl
type_of_value-type_value two_fa_enable_response = refl
type_of_value-type_value two_fa_verify_request = refl
type_of_value-type_value two_fa_verify_response = refl
type_of_value-type_value two_fa_disable_request = refl
type_of_value-type_value two_fa_disable_response = refl
type_of_value-type_value account_export_request = refl
type_of_value-type_value account_export_response = refl
type_of_value-type_value account_delete_request = refl
type_of_value-type_value account_delete_response = refl
type_of_value-type_value block_user_request = refl
type_of_value-type_value unblock_user_request = refl
type_of_value-type_value blocked_users_list_request = refl
type_of_value-type_value blocked_users_list_response = refl
type_of_value-type_value block_user_ack = refl
type_of_value-type_value conversation_mute_update_request = refl
type_of_value-type_value conversation_mute_update_response = refl
type_of_value-type_value draft_save_request = refl
type_of_value-type_value draft_save_response = refl
type_of_value-type_value draft_list_request = refl
type_of_value-type_value draft_list_response = refl
type_of_value-type_value draft_clear_request = refl
type_of_value-type_value draft_clear_response = refl
type_of_value-type_value conversation_pin_toggle_request = refl
type_of_value-type_value conversation_pin_toggle_response = refl
type_of_value-type_value conversation_archive_toggle_request = refl
type_of_value-type_value conversation_archive_toggle_response = refl
type_of_value-type_value profile_avatar_update_request = refl
type_of_value-type_value profile_avatar_update_response = refl
type_of_value-type_value conversation_avatar_update_request = refl
type_of_value-type_value conversation_avatar_update_response = refl
type_of_value-type_value poll_create_request = refl
type_of_value-type_value poll_vote_request = refl
type_of_value-type_value poll_close_request = refl
type_of_value-type_value poll_updated = refl
type_of_value-type_value conversation_role_update_request = refl
type_of_value-type_value call_invite_request = refl
type_of_value-type_value call_accept_request = refl
type_of_value-type_value call_decline_request = refl
type_of_value-type_value call_end_request = refl
type_of_value-type_value call_rendezvous_request = refl
type_of_value-type_value call_state = refl
type_of_value-type_value call_rendezvous_info = refl
type_of_value-type_value error = refl

-- ===== src/Protocol/Messages.antt =====
-- `MessageType` of server/server/protocol.py, and what `error_message` answers.
use Prim.Native.String.{String}
use mathlib.Core.List.{List, [], ◌∷◌}

pub data MessageType : Type 0 where
  login_request login_response register_request register_response profile_get_request : MessageType
  profile_update_request profile_response user_search_request user_search_response : MessageType
  presence_update presence_query_request presence_query_response heartbeat_ping : MessageType
  heartbeat_ack conversation_sync conversation_create conversation_add_participant : MessageType
  conversation_remove_participant conversation_updated message_send message_deliver : MessageType
  service_command message_read message_read_update message_edit message_edited : MessageType
  message_delete message_deleted message_forward message_reaction : MessageType
  message_reaction_updated message_pin message_pin_updated typing_pulse : MessageType
  message_search_request message_search_response message_send_attachment : MessageType
  attachment_fetch_request attachment_fetch_response device_list_request : MessageType
  device_list_response device_revoke_request device_trust_update_request contact_add : MessageType
  contact_remove contact_edit contact_share_request contact_share_response : MessageType
  contact_list_request contact_list_response account_settings_get_request : MessageType
  account_settings_update_request account_settings_response account_features_get_request :
      MessageType
  account_features_update_request account_features_response report_conversation_request :
      MessageType
  report_conversation_response conversation_leave_request shared_media_page_request : MessageType
  shared_media_page_response remote_invite remote_approve remote_reject remote_cancel : MessageType
  remote_terminate remote_disconnect remote_rendezvous_request remote_input_event : MessageType
  remote_input_ack remote_session_state remote_rendezvous_info remote_relay_assignment : MessageType
  remote_session_terminated push_token_register push_token_unregister : MessageType
  push_token_list_request push_token_list_response push_token_ack : MessageType
  attachment_upload_init_request attachment_upload_init_response : MessageType
  attachment_upload_chunk_request attachment_upload_chunk_ack : MessageType
  attachment_upload_complete_request phone_otp_request phone_otp_request_response : MessageType
  phone_otp_verify_request phone_otp_verify_response two_fa_enable_request : MessageType
  two_fa_enable_response two_fa_verify_request two_fa_verify_response : MessageType
  two_fa_disable_request two_fa_disable_response account_export_request : MessageType
  account_export_response account_delete_request account_delete_response : MessageType
  block_user_request unblock_user_request blocked_users_list_request : MessageType
  blocked_users_list_response block_user_ack conversation_mute_update_request : MessageType
  conversation_mute_update_response draft_save_request draft_save_response : MessageType
  draft_list_request draft_list_response draft_clear_request draft_clear_response : MessageType
  conversation_pin_toggle_request conversation_pin_toggle_response : MessageType
  conversation_archive_toggle_request conversation_archive_toggle_response : MessageType
  profile_avatar_update_request profile_avatar_update_response : MessageType
  conversation_avatar_update_request conversation_avatar_update_response : MessageType
  poll_create_request poll_vote_request poll_close_request poll_updated : MessageType
  conversation_role_update_request call_invite_request call_accept_request : MessageType
  call_decline_request call_end_request call_rendezvous_request call_state : MessageType
  call_rendezvous_info error : MessageType

-- `MessageType.value`
unfoldable pub type_value : MessageType → String
type_value login_request = "login_request"
type_value login_response = "login_response"
type_value register_request = "register_request"
type_value register_response = "register_response"
type_value profile_get_request = "profile_get_request"
type_value profile_update_request = "profile_update_request"
type_value profile_response = "profile_response"
type_value user_search_request = "user_search_request"
type_value user_search_response = "user_search_response"
type_value presence_update = "presence_update"
type_value presence_query_request = "presence_query_request"
type_value presence_query_response = "presence_query_response"
type_value heartbeat_ping = "heartbeat_ping"
type_value heartbeat_ack = "heartbeat_ack"
type_value conversation_sync = "conversation_sync"
type_value conversation_create = "conversation_create"
type_value conversation_add_participant = "conversation_add_participant"
type_value conversation_remove_participant = "conversation_remove_participant"
type_value conversation_updated = "conversation_updated"
type_value message_send = "message_send"
type_value message_deliver = "message_deliver"
type_value service_command = "service_command"
type_value message_read = "message_read"
type_value message_read_update = "message_read_update"
type_value message_edit = "message_edit"
type_value message_edited = "message_edited"
type_value message_delete = "message_delete"
type_value message_deleted = "message_deleted"
type_value message_forward = "message_forward"
type_value message_reaction = "message_reaction"
type_value message_reaction_updated = "message_reaction_updated"
type_value message_pin = "message_pin"
type_value message_pin_updated = "message_pin_updated"
type_value typing_pulse = "typing_pulse"
type_value message_search_request = "message_search_request"
type_value message_search_response = "message_search_response"
type_value message_send_attachment = "message_send_attachment"
type_value attachment_fetch_request = "attachment_fetch_request"
type_value attachment_fetch_response = "attachment_fetch_response"
type_value device_list_request = "device_list_request"
type_value device_list_response = "device_list_response"
type_value device_revoke_request = "device_revoke_request"
type_value device_trust_update_request = "device_trust_update_request"
type_value contact_add = "contact_add"
type_value contact_remove = "contact_remove"
type_value contact_edit = "contact_edit"
type_value contact_share_request = "contact_share_request"
type_value contact_share_response = "contact_share_response"
type_value contact_list_request = "contact_list_request"
type_value contact_list_response = "contact_list_response"
type_value account_settings_get_request = "account_settings_get_request"
type_value account_settings_update_request = "account_settings_update_request"
type_value account_settings_response = "account_settings_response"
type_value account_features_get_request = "account_features_get_request"
type_value account_features_update_request = "account_features_update_request"
type_value account_features_response = "account_features_response"
type_value report_conversation_request = "report_conversation_request"
type_value report_conversation_response = "report_conversation_response"
type_value conversation_leave_request = "conversation_leave_request"
type_value shared_media_page_request = "shared_media_page_request"
type_value shared_media_page_response = "shared_media_page_response"
type_value remote_invite = "remote_invite"
type_value remote_approve = "remote_approve"
type_value remote_reject = "remote_reject"
type_value remote_cancel = "remote_cancel"
type_value remote_terminate = "remote_terminate"
type_value remote_disconnect = "remote_disconnect"
type_value remote_rendezvous_request = "remote_rendezvous_request"
type_value remote_input_event = "remote_input_event"
type_value remote_input_ack = "remote_input_ack"
type_value remote_session_state = "remote_session_state"
type_value remote_rendezvous_info = "remote_rendezvous_info"
type_value remote_relay_assignment = "remote_relay_assignment"
type_value remote_session_terminated = "remote_session_terminated"
type_value push_token_register = "push_token_register"
type_value push_token_unregister = "push_token_unregister"
type_value push_token_list_request = "push_token_list_request"
type_value push_token_list_response = "push_token_list_response"
type_value push_token_ack = "push_token_ack"
type_value attachment_upload_init_request = "attachment_upload_init_request"
type_value attachment_upload_init_response = "attachment_upload_init_response"
type_value attachment_upload_chunk_request = "attachment_upload_chunk_request"
type_value attachment_upload_chunk_ack = "attachment_upload_chunk_ack"
type_value attachment_upload_complete_request = "attachment_upload_complete_request"
type_value phone_otp_request = "phone_otp_request"
type_value phone_otp_request_response = "phone_otp_request_response"
type_value phone_otp_verify_request = "phone_otp_verify_request"
type_value phone_otp_verify_response = "phone_otp_verify_response"
type_value two_fa_enable_request = "two_fa_enable_request"
type_value two_fa_enable_response = "two_fa_enable_response"
type_value two_fa_verify_request = "two_fa_verify_request"
type_value two_fa_verify_response = "two_fa_verify_response"
type_value two_fa_disable_request = "two_fa_disable_request"
type_value two_fa_disable_response = "two_fa_disable_response"
type_value account_export_request = "account_export_request"
type_value account_export_response = "account_export_response"
type_value account_delete_request = "account_delete_request"
type_value account_delete_response = "account_delete_response"
type_value block_user_request = "block_user_request"
type_value unblock_user_request = "unblock_user_request"
type_value blocked_users_list_request = "blocked_users_list_request"
type_value blocked_users_list_response = "blocked_users_list_response"
type_value block_user_ack = "block_user_ack"
type_value conversation_mute_update_request = "conversation_mute_update_request"
type_value conversation_mute_update_response = "conversation_mute_update_response"
type_value draft_save_request = "draft_save_request"
type_value draft_save_response = "draft_save_response"
type_value draft_list_request = "draft_list_request"
type_value draft_list_response = "draft_list_response"
type_value draft_clear_request = "draft_clear_request"
type_value draft_clear_response = "draft_clear_response"
type_value conversation_pin_toggle_request = "conversation_pin_toggle_request"
type_value conversation_pin_toggle_response = "conversation_pin_toggle_response"
type_value conversation_archive_toggle_request = "conversation_archive_toggle_request"
type_value conversation_archive_toggle_response = "conversation_archive_toggle_response"
type_value profile_avatar_update_request = "profile_avatar_update_request"
type_value profile_avatar_update_response = "profile_avatar_update_response"
type_value conversation_avatar_update_request = "conversation_avatar_update_request"
type_value conversation_avatar_update_response = "conversation_avatar_update_response"
type_value poll_create_request = "poll_create_request"
type_value poll_vote_request = "poll_vote_request"
type_value poll_close_request = "poll_close_request"
type_value poll_updated = "poll_updated"
type_value conversation_role_update_request = "conversation_role_update_request"
type_value call_invite_request = "call_invite_request"
type_value call_accept_request = "call_accept_request"
type_value call_decline_request = "call_decline_request"
type_value call_end_request = "call_end_request"
type_value call_rendezvous_request = "call_rendezvous_request"
type_value call_state = "call_state"
type_value call_rendezvous_info = "call_rendezvous_info"
type_value error = "error"

-- in the order of the class
unfoldable pub message_types : List MessageType
message_types =
    login_request ∷ login_response ∷ register_request ∷ register_response ∷ profile_get_request
    ∷ profile_update_request ∷ profile_response ∷ user_search_request ∷ user_search_response
    ∷ presence_update ∷ presence_query_request ∷ presence_query_response ∷ heartbeat_ping
    ∷ heartbeat_ack ∷ conversation_sync ∷ conversation_create ∷ conversation_add_participant
    ∷ conversation_remove_participant ∷ conversation_updated ∷ message_send ∷ message_deliver
    ∷ service_command ∷ message_read ∷ message_read_update ∷ message_edit ∷ message_edited
    ∷ message_delete ∷ message_deleted ∷ message_forward ∷ message_reaction
    ∷ message_reaction_updated ∷ message_pin ∷ message_pin_updated ∷ typing_pulse
    ∷ message_search_request ∷ message_search_response ∷ message_send_attachment
    ∷ attachment_fetch_request ∷ attachment_fetch_response ∷ device_list_request
    ∷ device_list_response ∷ device_revoke_request ∷ device_trust_update_request ∷ contact_add
    ∷ contact_remove ∷ contact_edit ∷ contact_share_request ∷ contact_share_response
    ∷ contact_list_request ∷ contact_list_response ∷ account_settings_get_request
    ∷ account_settings_update_request ∷ account_settings_response ∷ account_features_get_request
    ∷ account_features_update_request ∷ account_features_response ∷ report_conversation_request
    ∷ report_conversation_response ∷ conversation_leave_request ∷ shared_media_page_request
    ∷ shared_media_page_response ∷ remote_invite ∷ remote_approve ∷ remote_reject ∷ remote_cancel
    ∷ remote_terminate ∷ remote_disconnect ∷ remote_rendezvous_request ∷ remote_input_event
    ∷ remote_input_ack ∷ remote_session_state ∷ remote_rendezvous_info ∷ remote_relay_assignment
    ∷ remote_session_terminated ∷ push_token_register ∷ push_token_unregister
    ∷ push_token_list_request ∷ push_token_list_response ∷ push_token_ack
    ∷ attachment_upload_init_request ∷ attachment_upload_init_response
    ∷ attachment_upload_chunk_request ∷ attachment_upload_chunk_ack
    ∷ attachment_upload_complete_request ∷ phone_otp_request ∷ phone_otp_request_response
    ∷ phone_otp_verify_request ∷ phone_otp_verify_response ∷ two_fa_enable_request
    ∷ two_fa_enable_response ∷ two_fa_verify_request ∷ two_fa_verify_response
    ∷ two_fa_disable_request ∷ two_fa_disable_response ∷ account_export_request
    ∷ account_export_response ∷ account_delete_request ∷ account_delete_response
    ∷ block_user_request ∷ unblock_user_request ∷ blocked_users_list_request
    ∷ blocked_users_list_response ∷ block_user_ack ∷ conversation_mute_update_request
    ∷ conversation_mute_update_response ∷ draft_save_request ∷ draft_save_response
    ∷ draft_list_request ∷ draft_list_response ∷ draft_clear_request ∷ draft_clear_response
    ∷ conversation_pin_toggle_request ∷ conversation_pin_toggle_response
    ∷ conversation_archive_toggle_request ∷ conversation_archive_toggle_response
    ∷ profile_avatar_update_request ∷ profile_avatar_update_response
    ∷ conversation_avatar_update_request ∷ conversation_avatar_update_response ∷ poll_create_request
    ∷ poll_vote_request ∷ poll_close_request ∷ poll_updated ∷ conversation_role_update_request
    ∷ call_invite_request ∷ call_accept_request ∷ call_decline_request ∷ call_end_request
    ∷ call_rendezvous_request ∷ call_state ∷ call_rendezvous_info ∷ error ∷ []

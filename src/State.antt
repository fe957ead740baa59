-- ===== src/State.antt =====
-- server/server/state.py: the records, the tables of `InMemoryState`, and `save_runtime_state` with a
-- JSON state file or with none. Clocks count microseconds, so `int(t * 1000)` is `to_ms t`.
-- A string field whose values are the constants of one module is a data type with those constants.
pub mod Loading
pub mod Samples
use telegram.Prelude.{◌≡◌, true, false, ℕ, ◌/◌, String, Bool, Option, some, List, if◌then◌else◌}
use telegram.Prelude.Dict.{Dict, values}
use telegram.Prelude.Int.{ℤ}

pub to_ms : ℕ → ℕ
to_ms t = t / 1000

pub record UserRecord : Type 0 where
  pub user_id : String
  pub username : String
  pub password_hash : String
  pub display_name : String
  pub two_fa_secret : String
  pub avatar_attachment_id : String

pub record DeviceRecord : Type 0 where
  pub device_id : String
  pub user_id : String
  pub label : String
  pub platform : String
  pub trusted : Bool
  pub active : Bool
  pub can_host : Bool
  pub can_view : Bool

pub record SessionRecord : Type 0 where
  pub session_id : String
  pub user_id : String
  pub device_id : String
  pub last_seen_at : ℕ

-- The value under the key `poll` of a message.
pub record Poll : Type 0 where
  pub options : List String
  pub multiple_choice : Bool
  pub closed : Bool
  pub votes : Dict String (List ℕ)

-- A message dict; a key that is absent has the default that every reader passes to `get`.
pub record Message : Type 0 where
  pub message_id : String
  pub sender_user_id : String
  pub text : String
  pub created_at_ms : ℕ
  pub silent : Bool
  pub scheduled_at_ms : ℕ
  pub scheduled : Bool
  pub edited : Bool
  pub deleted : Bool
  pub pinned : Bool
  pub attachment_id : String
  pub reply_to_message_id : String
  pub forwarded_from_conversation_id : String
  pub forwarded_from_message_id : String
  pub forwarded_from_sender_user_id : String
  pub reactions : Dict String (List String)
  pub poll : Option Poll

pub data ChangeKind : Type 0 where
  message_deliver message_edited message_deleted message_reaction_updated : ChangeKind
  message_pin_updated read_marker conversation_updated : ChangeKind

pub record Change : Type 0 where
  pub version : ℕ
  pub kind : ChangeKind
  pub message_id : String
  pub sender_user_id : String
  pub text : String
  pub reader_user_id : String
  pub last_read_message_id : String
  pub reply_to_message_id : String
  pub forwarded_from_conversation_id : String
  pub forwarded_from_message_id : String
  pub forwarded_from_sender_user_id : String
  pub reaction_summary : String
  pub pinned : Bool
  pub silent : Bool
  pub scheduled_at_ms : ℕ
  pub scheduled : Bool

pub data Role : Type 0 where
  owner admin member : Role

pub record ConversationRecord : Type 0 where
  pub conversation_id : String
  pub participant_user_ids : List String
  pub messages : List Message
  pub title : String
  pub read_markers : Dict String String
  pub change_seq : ℕ
  pub changes : List Change
  pub avatar_attachment_id : String
  pub roles : Dict String Role

pub data RemoteStatus : Type 0 where
  awaiting_approval approved rejected cancelled terminated disconnected : RemoteStatus
  negotiating connecting streaming controlling : RemoteStatus

pub record RemoteSessionRecord : Type 0 where
  pub remote_session_id : String
  pub requester_user_id : String
  pub requester_device_id : String
  pub target_user_id : String
  pub target_device_id : String
  pub state : RemoteStatus
  pub relay_endpoint : String
  pub relay_region : String
  pub relay_key_b64 : String

pub data CallStatus : Type 0 where
  ringing accepted declined ended canceled : CallStatus

pub record CallRecord : Type 0 where
  pub call_id : String
  pub caller_user_id : String
  pub caller_device_id : String
  pub callee_user_id : String
  pub callee_device_id : String
  pub kind : String
  pub state : CallStatus
  pub relay_endpoint : String
  pub relay_region : String
  pub relay_key_b64 : String

pub record AttachmentRecord : Type 0 where
  pub attachment_id : String
  pub conversation_id : String
  pub uploader_user_id : String
  pub filename : String
  pub mime_type : String
  pub size_bytes : ℕ
  pub content_b64 : String
  pub storage_key : String

pub record BlockedUserEntry : Type 0 where
  pub target_user_id : String
  pub blocked_at_ms : ℕ

pub record ConversationMuteEntry : Type 0 where
  pub user_id : String
  pub conversation_id : String
  pub muted_until_ms : ℤ

pub record DraftRecord : Type 0 where
  pub user_id : String
  pub conversation_id : String
  pub text : String
  pub reply_to_message_id : String
  pub updated_at_ms : ℕ

pub record PushTokenRecord : Type 0 where
  pub user_id : String
  pub device_id : String
  pub platform : String
  pub token : String
  pub registered_at_ms : ℕ

pub record ConversationReport : Type 0 where
  pub conversation_id : String
  pub reporter_user_id : String
  pub reason : String
  pub comment : String
  pub created_at_ms : ℕ

-- A value in an account's settings or features.
pub data Setting : Type 0 where
  flag_setting : Bool → Setting
  number_setting : ℤ → Setting
  text_setting : String → Setting

-- `_runtime_payload`: what a save writes.
pub record RuntimePayload : Type 0 where
  pub users : List UserRecord
  pub devices : List DeviceRecord
  pub conversations : List ConversationRecord
  pub remote_sessions : List RemoteSessionRecord
  pub sessions : List SessionRecord
  pub contacts : Dict String (List String)
  pub contact_aliases : Dict String (Dict String String)
  pub conversation_reports : List ConversationReport
  pub account_settings : Dict String (Dict String Setting)
  pub account_features : Dict String (Dict String Setting)
  pub attachments : List AttachmentRecord

-- `state_file` says whether a JSON state file is configured; `saved` is what it holds.
pub record InMemoryState : Type 0 where
  pub state_file : Bool
  pub saved : Option RuntimePayload
  pub users : Dict String UserRecord
  pub devices : Dict String DeviceRecord
  pub sessions : Dict String SessionRecord
  pub conversations : Dict String ConversationRecord
  pub remote_sessions : Dict String RemoteSessionRecord
  pub calls : Dict String CallRecord
  pub contacts : Dict String (List String)
  pub contact_aliases : Dict String (Dict String String)
  pub conversation_reports : List ConversationReport
  pub account_settings : Dict String (Dict String Setting)
  pub account_features : Dict String (Dict String Setting)
  pub attachments : Dict String AttachmentRecord
  pub push_tokens : List PushTokenRecord
  pub blocked_users : Dict String (List BlockedUserEntry)
  pub conversation_mutes : Dict (String × String) ConversationMuteEntry
  pub drafts : Dict (String × String) DraftRecord
  pub pinned_conversations : Dict String (List String)
  pub archived_conversations : Dict String (List String)

unfoldable pub runtime_payload : InMemoryState → RuntimePayload
runtime_payload s = record {
  users = values s.users;
  devices = values s.devices;
  conversations = values s.conversations;
  remote_sessions = values s.remote_sessions;
  sessions = values s.sessions;
  contacts = s.contacts;
  contact_aliases = s.contact_aliases;
  conversation_reports = s.conversation_reports;
  account_settings = s.account_settings;
  account_features = s.account_features;
  attachments = values s.attachments;
}

-- With a JSON file the whole payload is written; with no file nothing is.
unfoldable pub save_runtime_state : InMemoryState → InMemoryState
unfolding runtime_payload
save_runtime_state s = record s {
  saved = if s.state_file then some (runtime_payload s) else s.saved;
}

abbrev pub CallStatus_eq : CallStatus → CallStatus → Bool
CallStatus_eq ringing ringing = true
CallStatus_eq accepted accepted = true
CallStatus_eq declined declined = true
CallStatus_eq ended ended = true
CallStatus_eq canceled canceled = true
CallStatus_eq _ _ = false

abbrev pub RemoteStatus_eq : RemoteStatus → RemoteStatus → Bool
RemoteStatus_eq awaiting_approval awaiting_approval = true
RemoteStatus_eq approved approved = true
RemoteStatus_eq rejected rejected = true
RemoteStatus_eq cancelled cancelled = true
RemoteStatus_eq terminated terminated = true
RemoteStatus_eq disconnected disconnected = true
RemoteStatus_eq negotiating negotiating = true
RemoteStatus_eq connecting connecting = true
RemoteStatus_eq streaming streaming = true
RemoteStatus_eq controlling controlling = true
RemoteStatus_eq _ _ = false

-- The file, where one is configured, holds the tables as they are.
abbrev pub IsSaved : InMemoryState → Type 0
IsSaved s = s.state_file ≡ true → s.saved ≡ some (runtime_payload s)

pub save-IsSaved : (s : InMemoryState) → IsSaved (save_runtime_state s)
unfolding save_runtime_state
save-IsSaved s h = rw h

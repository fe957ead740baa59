-- ===== src/Chat/Payloads.antt =====
-- server/server/protocol.py: the payloads and descriptors that the chat service returns. A change
-- and its descriptor have the same fields, so both are a `Change`.
use telegram.Prelude.{eq_nat, eq_string, eq_pair, ℕ, String, Bool, false, Option, List}
use telegram.Prelude.Dict.{Dict}
use telegram.Prelude.Int.{ℤ}
use telegram.State.{Role, Change}

pub record MessageDeliverPayload : Type 0 where
  pub conversation_id : String
  pub message_id : String
  pub sender_user_id : String
  pub text : String
  pub created_at_ms : ℕ
  pub attachment_id : String
  pub filename : String
  pub mime_type : String
  pub size_bytes : ℕ
  pub reply_to_message_id : String
  pub forwarded_from_conversation_id : String
  pub forwarded_from_message_id : String
  pub forwarded_from_sender_user_id : String
  pub silent : Bool
  pub scheduled_at_ms : ℕ
  pub scheduled : Bool

-- The fields that have no default, and the defaults of the others.
abbrev pub deliver : String → String → String → String → ℕ → MessageDeliverPayload
deliver conversation_id message_id sender_user_id text created_at_ms = record {
  conversation_id = conversation_id;
  message_id = message_id;
  sender_user_id = sender_user_id;
  text = text;
  created_at_ms = created_at_ms;
  attachment_id = "";
  filename = "";
  mime_type = "";
  size_bytes = 0;
  reply_to_message_id = "";
  forwarded_from_conversation_id = "";
  forwarded_from_message_id = "";
  forwarded_from_sender_user_id = "";
  silent = false;
  scheduled_at_ms = 0;
  scheduled = false;
}

pub record MessageEditedPayload : Type 0 where
  pub conversation_id : String
  pub message_id : String
  pub text : String
  pub sender_user_id : String
  pub edited : Bool

pub record MessageDeletedPayload : Type 0 where
  pub conversation_id : String
  pub message_id : String
  pub sender_user_id : String
  pub deleted : Bool

pub record MessageReadUpdatePayload : Type 0 where
  pub conversation_id : String
  pub reader_user_id : String
  pub last_read_message_id : String

pub record MessageReactionUpdatedPayload : Type 0 where
  pub conversation_id : String
  pub message_id : String
  pub actor_user_id : String
  pub emoji : String
  pub reaction_summary : String

pub record MessagePinUpdatedPayload : Type 0 where
  pub conversation_id : String
  pub message_id : String
  pub actor_user_id : String
  pub pinned : Bool

pub record AttachmentFetchResponsePayload : Type 0 where
  pub attachment_id : String
  pub conversation_id : String
  pub uploader_user_id : String
  pub filename : String
  pub mime_type : String
  pub size_bytes : ℕ
  pub content_b64 : String

pub record PollOptionDescriptor : Type 0 where
  pub text : String
  pub vote_count : ℕ

pub record PollDescriptor : Type 0 where
  pub options : List PollOptionDescriptor
  pub multiple_choice : Bool
  pub closed : Bool
  pub total_voters : ℕ

pub record MessageDescriptor : Type 0 where
  pub message_id : String
  pub sender_user_id : String
  pub text : String
  pub created_at_ms : ℕ
  pub edited : Bool
  pub deleted : Bool
  pub attachment_id : String
  pub filename : String
  pub mime_type : String
  pub size_bytes : ℕ
  pub reply_to_message_id : String
  pub forwarded_from_conversation_id : String
  pub forwarded_from_message_id : String
  pub forwarded_from_sender_user_id : String
  pub reaction_summary : String
  pub pinned : Bool
  pub silent : Bool
  pub scheduled_at_ms : ℕ
  pub scheduled : Bool
  pub poll : Option PollDescriptor

pub record ConversationDescriptor : Type 0 where
  pub conversation_id : String
  pub participant_user_ids : List String
  pub messages : List MessageDescriptor
  pub title : String
  pub read_markers : Dict String String
  pub version : ℕ
  pub changes : List Change
  pub next_before_message_id : String
  pub has_more : Bool
  pub pinned : Bool
  pub archived : Bool
  pub muted_until_ms : ℤ
  pub avatar_attachment_id : String
  pub roles : Dict String Role

pub record MessageSearchResultDescriptor : Type 0 where
  pub conversation_id : String
  pub conversation_title : String
  pub message_id : String
  pub sender_user_id : String
  pub text : String
  pub created_at_ms : ℕ
  pub attachment_id : String
  pub filename : String
  pub snippet : String

pub record SharedMediaEntryDescriptor : Type 0 where
  pub conversation_id : String
  pub message_id : String
  pub sender_user_id : String
  pub text : String
  pub created_at_ms : ℕ
  pub attachment_id : String
  pub filename : String
  pub mime_type : String
  pub size_bytes : ℕ
  pub link : String

-- ===== src/Chat.antt =====
-- server/server/services/chat.py: the chat service, its state and the steps that its methods share.
-- What `_now_ms()` returns is the argument `now_ms` of a method.
pub mod Authors
pub mod Descriptors
pub mod Failures
pub mod Feed
pub mod Growth
pub mod History
pub mod Payloads
pub mod Requests
pub mod Members
pub mod Messages
pub mod Safety
pub mod Search
pub mod Sending
pub mod Steps
pub mod Sync
pub mod Tests
pub mod Uploads
use telegram.Prelude.{
  eq_nat, eq_string, eq_pair, ◌==◌, if◌then◌else◌, elem, ℕ, String, false, Option, none, some, List,
  [], ◌∷◌, ◌++◌,
}
use telegram.Prelude.Dict.{Dict, get, put, keys, values}
use telegram.Prelude.Exec.{Exec, pure, raise, or_raise, require, ◌>>◌}
use telegram.Prelude.Text.{Bytes}
use telegram.Prelude.Text.Number.{next_counter}
use telegram.Errors.{unknown_conversation, conversation_access_denied, unknown_message}
use telegram.State.{Message, ConversationRecord, InMemoryState, save_runtime_state}

pub record UploadSession : Type 0 where
  pub upload_id : String
  pub user_id : String
  pub conversation_id : String
  pub filename : String
  pub mime_type : String
  pub total_size_bytes : ℕ
  pub next_sequence : ℕ
  pub buffer : Bytes

pub record ChatService : Type 0 where
  pub state : InMemoryState
  pub message_counter : ℕ
  pub conversation_counter : ℕ
  pub attachment_counter : ℕ
  pub upload_counter : ℕ
  pub uploads : Dict String UploadSession

-- the ids of all messages, conversation by conversation
abbrev pub ids_of : List Message → List String
ids_of [] = []
ids_of (m ∷ ms) = m.message_id ∷ ids_of ms

abbrev pub all_message_ids : List ConversationRecord → List String
all_message_ids [] = []
all_message_ids (c ∷ cs) = ids_of c.messages ++ all_message_ids cs

pub next_message_counter : InMemoryState → ℕ
next_message_counter s = next_counter 1 "msg_" (all_message_ids (values s.conversations))

pub next_conversation_counter : InMemoryState → ℕ
next_conversation_counter s = next_counter 0 "conv_" (keys s.conversations)

pub next_attachment_counter : InMemoryState → ℕ
next_attachment_counter s = next_counter 0 "att_" (keys s.attachments)

pub start_chat_service : InMemoryState → ChatService
unfolding next_message_counter next_conversation_counter next_attachment_counter
start_chat_service s = record {
  state = s;
  message_counter = next_message_counter s;
  conversation_counter = next_conversation_counter s;
  attachment_counter = next_attachment_counter s;
  upload_counter = 0;
  uploads = [];
}

-- `self._state.conversations.get(conversation_id)`
abbrev pub conversation_of : String → ChatService → Option ConversationRecord
conversation_of conversation_id s = get conversation_id s.state.conversations

-- Whether the conversation exists, and whether the user takes part in it.
abbrev pub admit : String → Option ConversationRecord → Exec ChatService ConversationRecord
admit user_id none = raise unknown_conversation
admit user_id (some c) =
    require (elem user_id c.participant_user_ids) conversation_access_denied >> pure c

unfoldable pub require_participant : String → String → Exec ChatService ConversationRecord
require_participant conversation_id user_id s = admit user_id (conversation_of conversation_id s) s

abbrev pub first_message : String → List Message → Option Message
first_message id [] = none
first_message id (m ∷ ms) = if m.message_id == id then some m else first_message id ms

unfoldable pub find_message : ConversationRecord → String → Exec ChatService Message
find_message c message_id = or_raise (first_message message_id c.messages) unknown_message

-- The message that `_find_message` returns is changed in place.
unfoldable pub change_message : String → (Message → Message) → List Message → List Message
change_message id change [] = []
change_message id change (m ∷ ms) =
    let rest = change_message id change ms in if m.message_id == id then change m ∷ ms else m ∷ rest

abbrev pub on_message : String → (Message → Message) → ConversationRecord → ConversationRecord
on_message id change c = record c { messages = change_message id change c.messages }

-- `conversation.messages.append(message)`
abbrev pub append_message : Message → ConversationRecord → ConversationRecord
append_message m c = record c { messages = c.messages ++ m ∷ [] }

-- The conversation has been changed to `c`, and the state is saved.
unfoldable pub store : String → ConversationRecord → ChatService → ChatService
store conversation_id c s = record s {
  state =
      save_runtime_state
        (record s.state { conversations = put conversation_id c s.state.conversations });
}

-- A message dict with the keys that every message has; the others are absent.
abbrev pub new_message : String → String → String → ℕ → Message
new_message message_id sender_user_id text created_at_ms = record {
  message_id = message_id;
  sender_user_id = sender_user_id;
  text = text;
  created_at_ms = created_at_ms;
  silent = false;
  scheduled_at_ms = 0;
  scheduled = false;
  edited = false;
  deleted = false;
  pinned = false;
  attachment_id = "";
  reply_to_message_id = "";
  forwarded_from_conversation_id = "";
  forwarded_from_message_id = "";
  forwarded_from_sender_user_id = "";
  reactions = [];
  poll = none;
}

-- `_attachment_meta`: the file name, the type and the size
abbrev pub attachment_meta : InMemoryState → Message → String × String × ℕ
attachment_meta s m = elim (get m.attachment_id s.attachments) [
  | none ↦ ("", "", 0)
  | some attachment ↦ (attachment.filename, attachment.mime_type, attachment.size_bytes)
]

-- ===== src/Chat/Messages.antt =====
-- server/server/services/chat.py: what participants do to a message that exists.
pub mod Markers
use telegram.Prelude.{
  eq_nat, eq_string, eq_pair, ◌==◌, ltb, leb, if◌then◌else◌, length, elem, remove, ℕ, suc, String,
  Bool, true, false, not, ◌&&◌, Option, none, some, List, [], ◌∷◌, ◌++◌,
}
use telegram.Prelude.Dict.{Dict, get, put, pop, keys}
use telegram.Prelude.Exec.{Exec, pure, modify, require, ◌>>=◌, ◌>>◌}
use telegram.Prelude.Text.{numbered, strip, is_empty, text_length}
use Prim.Native.String.{◌++◌ as ◌++ₛ◌}
use telegram.Prelude.Text.Order.{sort_texts}
use telegram.Errors.{
  message_edit_denied, message_delete_denied, message_already_deleted, empty_message,
  unknown_message,
}
use telegram.State.{
  Message, message_edited, message_deleted, message_reaction_updated, message_pin_updated,
  read_marker,
}
use telegram.Chat.{ChatService, require_participant, find_message, on_message, store}
use telegram.Chat.Feed.{change_of, record_change}
use telegram.Chat.Payloads.{
  MessageEditedPayload, MessageDeletedPayload, MessageReadUpdatePayload,
  MessageReactionUpdatedPayload, MessagePinUpdatedPayload,
}

abbrev pub with_text : String → Message → Message
with_text new_text m = record m { text = new_text; edited = true }

unfoldable pub edit_message :
    String → String → String → String → Exec ChatService MessageEditedPayload
unfolding require_participant find_message
edit_message conversation_id actor message_id new_text = do
  conversation ← require_participant conversation_id actor
  message ← find_message conversation message_id
  require (message.sender_user_id == actor) message_edit_denied
  require (not message.deleted) message_already_deleted
  require (not (is_empty (strip new_text))) empty_message
  let change = record (change_of message_edited) {
    message_id = message_id;
    sender_user_id = actor;
    text = new_text;
  }
  modify (
      store conversation_id
        (record_change change (on_message message_id (with_text new_text) conversation)))
  pure (record {
    conversation_id = conversation_id;
    message_id = message_id;
    text = new_text;
    sender_user_id = actor;
    edited = true;
  })

abbrev pub as_deleted : Message → Message
as_deleted m = record m { deleted = true; text = "" }

unfoldable pub delete_message : String → String → String → Exec ChatService MessageDeletedPayload
unfolding require_participant find_message
delete_message conversation_id actor message_id = do
  conversation ← require_participant conversation_id actor
  message ← find_message conversation message_id
  require (message.sender_user_id == actor) message_delete_denied
  require (not message.deleted) message_already_deleted
  let change = record (change_of message_deleted) {
    message_id = message_id;
    sender_user_id = actor;
  }
  modify
      (store conversation_id (record_change change (on_message message_id as_deleted conversation)))
  pure (record {
    conversation_id = conversation_id;
    message_id = message_id;
    sender_user_id = actor;
    deleted = true;
  })

-- `if not users: reactions.pop(emoji, None)`
abbrev keep_users : String → List String → Dict String (List String) → Dict String (List String)
keep_users emoji [] reactions = pop emoji reactions
keep_users emoji (user ∷ users) reactions = put emoji (user ∷ users) reactions

-- `reactions.setdefault(emoji, [])`, then the user is taken out or put in.
abbrev pub toggle : String → String → Dict String (List String) → Dict String (List String)
toggle actor emoji reactions =
    let users : List String = elim (get emoji reactions) [ none ↦ [] | some users ↦ users ] in
    if elem actor users
    then keep_users emoji (remove actor users) reactions
    else put emoji (sort_texts (users ++ actor ∷ [])) reactions

abbrev pub with_reaction : String → String → Message → Message
with_reaction actor emoji m = record m { reactions = toggle actor emoji m.reactions }

summary_parts : Dict String (List String) → List String → List String
summary_parts reactions [] = []
summary_parts reactions (emoji ∷ rest) =
    let later = summary_parts reactions rest in
    elim (get emoji reactions) [
      | none ↦ later
      | some [] ↦ later
      | some (user ∷ users) ↦ numbered (emoji ++ₛ ":") (length (user ∷ users)) ∷ later
    ]

-- `",".join(parts)`
join_commas : List String → String
join_commas [] = ""
join_commas (part ∷ []) = part
join_commas (part ∷ next ∷ rest) = part ++ₛ "," ++ₛ join_commas (next ∷ rest)

unfoldable pub reaction_summary : Dict String (List String) → String
unfolding summary_parts join_commas
reaction_summary reactions = join_commas (summary_parts reactions (sort_texts (keys reactions)))

unfoldable pub toggle_reaction :
    String → String → String → String → Exec ChatService MessageReactionUpdatedPayload
unfolding require_participant find_message
toggle_reaction conversation_id actor message_id emoji' = do
  conversation ← require_participant conversation_id actor
  message ← find_message conversation message_id
  require (not message.deleted) message_already_deleted
  let emoji = strip emoji'
  require (not (is_empty emoji) && leb (text_length emoji) 16) empty_message
  let summary = reaction_summary (toggle actor emoji message.reactions)
  let change = record (change_of message_reaction_updated) {
    message_id = message_id;
    sender_user_id = actor;
    reaction_summary = summary;
  }
  modify (
      store conversation_id
        (record_change change (on_message message_id (with_reaction actor emoji) conversation)))
  pure (record {
    conversation_id = conversation_id;
    message_id = message_id;
    actor_user_id = actor;
    emoji = emoji;
    reaction_summary = summary;
  })

abbrev pub with_pin : Bool → Message → Message
with_pin flag m = record m { pinned = flag }

unfoldable pub set_pin : String → String → String → Bool → Exec ChatService MessagePinUpdatedPayload
unfolding require_participant find_message
set_pin conversation_id actor message_id flag = do
  conversation ← require_participant conversation_id actor
  message ← find_message conversation message_id
  require (not message.deleted) message_already_deleted
  let change = record (change_of message_pin_updated) {
    message_id = message_id;
    sender_user_id = actor;
    pinned = flag;
  }
  modify (
      store conversation_id
        (record_change change (on_message message_id (with_pin flag) conversation)))
  pure (record {
    conversation_id = conversation_id;
    message_id = message_id;
    actor_user_id = actor;
    pinned = flag;
  })

-- `index_by_id[id]` plus one, and 0 where there is no such key: of two messages with one id the
-- later one counts.
unfoldable pub rank : String → List Message → ℕ
rank id [] = 0
rank id (m ∷ ms) =
    let later = rank id ms in if ltb 0 later then suc later else if m.message_id == id then 1 else 0

-- The marker after the reader has asked for `message_id`; -1 is the index of no marker.
abbrev pub advance : String → Option String → List Message → String
advance message_id none messages = message_id
advance message_id (some current) messages =
    if leb (rank current messages) (rank message_id messages) then message_id else current

abbrev pub same_marker : Option String → String → Bool
same_marker none id = false
same_marker (some current) id = id == current

unfoldable pub mark_read : String → String → String → Exec ChatService MessageReadUpdatePayload
unfolding require_participant
mark_read conversation_id reader message_id = do
  conversation ← require_participant conversation_id reader
  require (ltb 0 (rank message_id conversation.messages)) unknown_message
  let current = get reader conversation.read_markers
  let effective_id = advance message_id current conversation.messages
  let marked = record conversation {
    read_markers = put reader effective_id conversation.read_markers;
  }
  let change = record (change_of read_marker) {
    reader_user_id = reader;
    last_read_message_id = effective_id;
  }
  let noted = if same_marker current effective_id then marked else record_change change marked
  modify (store conversation_id noted)
  pure (record {
    conversation_id = conversation_id;
    reader_user_id = reader;
    last_read_message_id = effective_id;
  })

-- ===== src/Chat/Descriptors.antt =====
-- server/server/services/chat.py: what a conversation looks like to a client (`_descriptor`).
use telegram.Prelude.{
  eq_nat, eq_string, eq_pair, ℕ, String, Bool, false, Option, none, some, List, [], ◌∷◌, map,
}
use telegram.Prelude.Int.{pos}
use telegram.State.{Message, Poll, Change, ConversationRecord, InMemoryState}
use telegram.Polls.{tallies, total_voters}
use telegram.Chat.{attachment_meta}
use telegram.Chat.History.{visible_messages}
use telegram.Chat.Messages.{reaction_summary}
use telegram.Chat.Payloads.{
  PollOptionDescriptor, PollDescriptor, MessageDescriptor, ConversationDescriptor,
}

-- the options of a poll beside their tallies
option_descriptors : List String → List ℕ → List PollOptionDescriptor
option_descriptors [] counts = []
option_descriptors (text ∷ texts) [] = []
option_descriptors (text ∷ texts) (count ∷ counts) =
    record { text = text; vote_count = count } ∷ option_descriptors texts counts

pub poll_descriptor : Option Poll → Option PollDescriptor
unfolding option_descriptors tallies
poll_descriptor none = none
poll_descriptor (some poll) = some (record {
  options = option_descriptors poll.options (tallies poll);
  multiple_choice = poll.multiple_choice;
  closed = poll.closed;
  total_voters = total_voters poll;
})

pub message_descriptor : InMemoryState → Message → MessageDescriptor
unfolding poll_descriptor reaction_summary
message_descriptor s m =
    let meta = attachment_meta s m in
    record {
      message_id = m.message_id;
      sender_user_id = m.sender_user_id;
      text = m.text;
      created_at_ms = m.created_at_ms;
      edited = m.edited;
      deleted = m.deleted;
      attachment_id = m.attachment_id;
      filename = meta.0;
      mime_type = meta.1;
      size_bytes = meta.2;
      reply_to_message_id = m.reply_to_message_id;
      forwarded_from_conversation_id = m.forwarded_from_conversation_id;
      forwarded_from_message_id = m.forwarded_from_message_id;
      forwarded_from_sender_user_id = m.forwarded_from_sender_user_id;
      reaction_summary = reaction_summary m.reactions;
      pinned = m.pinned;
      silent = m.silent;
      scheduled_at_ms = m.scheduled_at_ms;
      scheduled = m.scheduled;
      poll = poll_descriptor m.poll;
    }

-- With the messages and changes that the caller passes.
pub descriptor_with :
    InMemoryState
    → ConversationRecord
    → List Message
    → List Change
    → String
    → Bool
    → ConversationDescriptor
unfolding message_descriptor
descriptor_with s c messages changes next_before_message_id has_more = record {
  conversation_id = c.conversation_id;
  participant_user_ids = c.participant_user_ids;
  messages = map (message_descriptor s) (visible_messages messages);
  title = c.title;
  read_markers = c.read_markers;
  version = c.change_seq;
  changes = changes;
  next_before_message_id = next_before_message_id;
  has_more = has_more;
  pinned = false;
  archived = false;
  muted_until_ms = pos 0;
  avatar_attachment_id = c.avatar_attachment_id;
  roles = c.roles;
}

-- With the defaults: all messages and no changes.
pub descriptor : InMemoryState → ConversationRecord → ConversationDescriptor
unfolding descriptor_with
descriptor s c = descriptor_with s c c.messages [] "" false

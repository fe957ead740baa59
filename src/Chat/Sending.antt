-- ===== src/Chat/Sending.antt =====
-- server/server/services/chat.py: new messages, sent, forwarded, answered by the service, and released
-- when their time has come.
use telegram.Prelude.{
  eq_nat, eq_string, eq_pair, ◌==◌, ltb, leb, if◌then◌else◌, keep, ℕ, ◌+◌, String, Bool, false, not,
  ◌&&◌, ◌||◌, List, [], ◌∷◌, ◌++◌, map,
}
use telegram.Prelude.Dict.{Dict, values}
use telegram.Prelude.Exec.{Exec, pure, gets, modify, require, ◌>>=◌, ◌>>◌}
use telegram.Prelude.Text.{numbered, strip, is_empty}
use telegram.Prelude.Int.{ℤ, pos, negsuc}
use Prim.Native.String.{◌++◌ as ◌++ₛ◌}
use telegram.Errors.{empty_message, message_already_deleted}
use telegram.State.{Message, ConversationRecord, InMemoryState, message_deliver, save_runtime_state}
use telegram.Chat.{
  ChatService, require_participant, find_message, append_message, new_message, store,
  attachment_meta,
}
use telegram.Chat.Feed.{change_of, record_change}
use telegram.Chat.Payloads.{MessageDeliverPayload, deliver}

-- `max(0, int(scheduled_at_ms or 0))`
abbrev pub at_least_zero : ℤ → ℕ
at_least_zero (pos n) = n
at_least_zero (negsuc n) = 0

-- A reply is to a message of the conversation that is not deleted.
abbrev pub check_reply : ConversationRecord → String → Exec ChatService Unit
check_reply conversation reply_to_message_id = if is_empty reply_to_message_id then pure tt else (do
  reply_to ← find_message conversation reply_to_message_id
  require (not reply_to.deleted) message_already_deleted)

abbrev pub next_message : ChatService → ChatService
next_message s = record s { message_counter = s.message_counter + 1 }

unfoldable pub send_message :
    ℕ → String → String → String → String → Bool → ℤ → Exec ChatService MessageDeliverPayload
unfolding require_participant find_message
send_message now_ms conversation_id sender text reply_to_message_id silent scheduled_at = do
  conversation ← require_participant conversation_id sender
  require (not (is_empty (strip text))) empty_message
  check_reply conversation reply_to_message_id
  let scheduled_at_ms = at_least_zero scheduled_at
  let is_scheduled = ltb now_ms scheduled_at_ms
  counter ← gets (λ s. s.message_counter)
  let message_id = numbered "msg_" counter
  let created_at_ms = if is_scheduled then scheduled_at_ms else now_ms
  let message = record (new_message message_id sender text created_at_ms) {
    silent = silent;
    scheduled_at_ms = if is_scheduled then scheduled_at_ms else 0;
    scheduled = is_scheduled;
    reply_to_message_id = reply_to_message_id;
  }
  modify (λ s. store conversation_id (append_message message conversation) (next_message s))
  pure (record (deliver conversation_id message_id sender text created_at_ms) {
    reply_to_message_id = reply_to_message_id;
    silent = silent;
    scheduled_at_ms = message.scheduled_at_ms;
    scheduled = is_scheduled;
  })

-- `replies.get(normalized, ...)`
pub reply_text : String → String
reply_text command =
    if command == "/start"
    then "Telegram service is ready. Use /help to see available commands."
    else if command == "/help"
    then "Available commands: /start, /help, /security."
    else if command == "/security"
    then "Security alerts are enabled for login codes and account activity."
    else "Unknown service command: " ++ₛ command ++ₛ ". Use /help."

unfoldable pub service_command :
    ℕ → String → String → String → Exec ChatService MessageDeliverPayload
unfolding require_participant reply_text
service_command now_ms conversation_id sender command = do
  conversation ← require_participant conversation_id sender
  let normalized = strip command
  require (not (is_empty normalized)) empty_message
  let reply = reply_text normalized
  counter ← gets (λ s. s.message_counter)
  let user_id = numbered "msg_" counter
  let service_id = numbered "msg_" (counter + 1)
  let user_message = new_message user_id sender normalized now_ms
  let service_message = record (new_message service_id "telegram" reply (now_ms + 1)) {
    reply_to_message_id = user_id;
  }
  let asked = record (change_of message_deliver) {
    message_id = user_id;
    sender_user_id = sender;
    text = normalized;
  }
  let answered = record (change_of message_deliver) {
    message_id = service_id;
    sender_user_id = "telegram";
    text = reply;
    reply_to_message_id = user_id;
  }
  modify (λ s.
      store conversation_id
        (record_change answered (
          record_change asked
            (append_message service_message (append_message user_message conversation))))
        (next_message (next_message s)))
  pure (record (deliver conversation_id service_id "telegram" reply (now_ms + 1)) {
    reply_to_message_id = user_id;
  })

unfoldable pub forward_message :
    ℕ → String → String → String → String → Exec ChatService MessageDeliverPayload
unfolding require_participant find_message
forward_message now_ms source_conversation_id source_message_id target_conversation_id actor = do
  source_conversation ← require_participant source_conversation_id actor
  target_conversation ← require_participant target_conversation_id actor
  source ← find_message source_conversation source_message_id
  require (not source.deleted) message_already_deleted
  require (not (is_empty (strip source.text)) || not (is_empty source.attachment_id)) empty_message
  counter ← gets (λ s. s.message_counter)
  let message_id = numbered "msg_" counter
  let message = record (new_message message_id actor source.text now_ms) {
    attachment_id = source.attachment_id;
    forwarded_from_conversation_id = source_conversation_id;
    forwarded_from_message_id = source_message_id;
    forwarded_from_sender_user_id = source.sender_user_id;
  }
  modify (λ s.
      store target_conversation_id (append_message message target_conversation) (next_message s))
  state ← gets (λ s. s.state)
  let meta = attachment_meta state message
  pure (record (deliver target_conversation_id message_id actor source.text now_ms) {
    attachment_id = source.attachment_id;
    filename = meta.0;
    mime_type = meta.1;
    size_bytes = meta.2;
    forwarded_from_conversation_id = source_conversation_id;
    forwarded_from_message_id = source_message_id;
    forwarded_from_sender_user_id = source.sender_user_id;
  })

abbrev pub is_due : ℕ → Message → Bool
is_due now m = m.scheduled && leb m.scheduled_at_ms now

abbrev pub released : ℕ → Message → Message
released now m = record m {
  scheduled = false;
  scheduled_at_ms = 0;
  created_at_ms = if ltb 0 m.scheduled_at_ms then m.scheduled_at_ms else now;
}

unfoldable pub release_messages : ℕ → List Message → List Message
release_messages now [] = []
release_messages now (m ∷ ms) =
    (if is_due now m then released now m else m) ∷ release_messages now ms

-- The change that the release of a message makes.
abbrev pub release_change : Message → ConversationRecord → ConversationRecord
release_change m = record_change (record (change_of message_deliver) {
  message_id = m.message_id;
  sender_user_id = m.sender_user_id;
  text = m.text;
  reply_to_message_id = m.reply_to_message_id;
  silent = m.silent;
})

unfoldable pub release_changes : List Message → ConversationRecord → ConversationRecord
release_changes [] c = c
release_changes (m ∷ ms) c = release_changes ms (release_change m c)

-- The loop over the messages of one conversation.
unfoldable pub release_in : ℕ → ConversationRecord → ConversationRecord
unfolding release_messages release_changes
release_in now c = record (release_changes (keep (is_due now) c.messages) c) {
  messages = release_messages now c.messages;
}

abbrev release_payload : ℕ → ConversationRecord → Message → MessageDeliverPayload
release_payload now c m =
    record (deliver c.conversation_id m.message_id m.sender_user_id m.text
      (released now m).created_at_ms) {
        reply_to_message_id = m.reply_to_message_id;
        silent = m.silent;
      }

unfoldable pub released_payloads : ℕ → List ConversationRecord → List MessageDeliverPayload
released_payloads now [] = []
released_payloads now (c ∷ cs) =
    map (release_payload now c) (keep (is_due now) c.messages) ++ released_payloads now cs

abbrev pub release_conversations :
    ℕ → Dict String ConversationRecord → Dict String ConversationRecord
release_conversations now [] = []
release_conversations now ((id, c) ∷ d) = (id, release_in now c) ∷ release_conversations now d

-- `if released: self._state.save_runtime_state()`
abbrev pub save_if_any : List MessageDeliverPayload → InMemoryState → InMemoryState
save_if_any [] s = s
save_if_any (p ∷ ps) s = save_runtime_state s

unfoldable pub release_due_scheduled : ℕ → Exec ChatService (List MessageDeliverPayload)
unfolding released_payloads release_in
release_due_scheduled now = do
  state ← gets (λ s. s.state)
  let due = released_payloads now (values state.conversations)
  let conversations = release_conversations now state.conversations
  modify
      (λ s. record s { state = save_if_any due (record state { conversations = conversations }) })
  pure due

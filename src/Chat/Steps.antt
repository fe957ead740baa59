-- ===== src/Chat/Steps.antt =====
-- The steps of the chat service on its table of conversations, as a relation, and rules for the
-- guards that its methods start with.
pub mod Edits
pub mod Groups
pub mod Handler
pub mod Tables
pub mod Sends
pub mod Transfers
use telegram.Prelude.{
  eq_nat, eq_string, eq_pair, ltb, Bool-cases, Option-cases, length, elem, ℕ, ◌+◌, ◌≤◌, String, ◌≡◌,
  refl, ◌≢◌, inl, inr, Bool, true, false, Option, none, some, [],
}
use telegram.Prelude.Dict.{get, put}
use telegram.Prelude.Exec.{Result, err, Exec, or_raise, require, ◌>>=◌, ◌>>◌}
use telegram.Prelude.Text.{numbered}
use telegram.Errors.{ErrorCode}
use telegram.State.{Message, ConversationRecord, owner}
use telegram.Chat.{ChatService, require_participant, conversation_of, find_message, first_message}
use telegram.Chat.Growth.{Grown}
use telegram.Chat.Sending.{release_conversations}

-- The owner of a group of more than two, against requests of others.
abbrev pub OwnerStays : String → ConversationRecord → ConversationRecord → Type 0
OwnerStays actor c c' =
    (u : String)
    → u ≢ actor
    → get u c.roles ≡ some owner
    → elem u c.participant_user_ids ≡ true
    → ltb 2 (length c.participant_user_ids) ≡ true
    → (get u c'.roles ≡ some owner) × (elem u c'.participant_user_ids ≡ true)

-- A conversation before and after a request, while the message counter goes from `n` to `n'`.
pub record Evolves (actor : String) (n n' : ℕ) (c c' : ConversationRecord) : Type 0 where
  pub messages : Grown actor n n' c.messages c'.messages
  pub ownership : OwnerStays actor c c'

-- The table as it was, one conversation changed, one made, or all messages released that are due.
pub data Step (actor : String) (s t : ChatService) : Type 0 where
  kept :
      t.state.conversations ≡ s.state.conversations
      → s.message_counter ≤ t.message_counter
      → t.conversation_counter ≡ s.conversation_counter
      → Step actor s t
  wrote :
      (id : String) (c c' : ConversationRecord)
      → conversation_of id s ≡ some c
      → t.state.conversations ≡ put id c' s.state.conversations
      → Evolves actor s.message_counter t.message_counter c c'
      → t.conversation_counter ≡ s.conversation_counter
      → Step actor s t
  created :
      (c : ConversationRecord)
      → c.messages ≡ []
      → t.state.conversations
        ≡ put (numbered "conv_" s.conversation_counter) c s.state.conversations
      → t.message_counter ≡ s.message_counter
      → t.conversation_counter ≡ s.conversation_counter + 1
      → Step actor s t
  released :
      (now : ℕ)
      → t.state.conversations ≡ release_conversations now s.state.conversations
      → t.message_counter ≡ s.message_counter
      → t.conversation_counter ≡ s.conversation_counter
      → Step actor s t

module _ {A : Type 0} (P : Result A × ChatService → Type 0) (s : ChatService) where
  pub past_participant :
      (id u : String) (k : ConversationRecord → Exec ChatService A)
      → ((e : ErrorCode) → P (err e, s))
      → ((c : ConversationRecord)
          → conversation_of id s ≡ some c
          → elem u c.participant_user_ids ≡ true
          → P (k c s))
      → P ((require_participant id u >>= k) s)
  unfolding require_participant
  past_participant id u k bad good = elim (Option-cases (conversation_of id s)) [
    | inl gone ↦ rw gone (bad _)
    | inr (c, found) ↦ elim (Bool-cases (elem u c.participant_user_ids)) [
      | inl inside ↦ rw (found, inside) (good c found inside)
      | inr outside ↦ rw (found, outside) (bad _)
    ]
  ]

  pub past_message :
      (c : ConversationRecord) (id : String) (k : Message → Exec ChatService A)
      → ((e : ErrorCode) → P (err e, s))
      → ((m : Message) → first_message id c.messages ≡ some m → P (k m s))
      → P ((find_message c id >>= k) s)
  unfolding find_message
  past_message c id k bad good = elim (Option-cases (first_message id c.messages)) [
    | inl gone ↦ rw gone (bad _)
    | inr (m, found) ↦ rw found (good m found)
  ]

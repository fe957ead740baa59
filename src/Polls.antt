-- ===== src/Polls.antt =====
-- server/server/services/polls.py: polls are messages with a `poll`. The characters that `uuid4`
-- draws are the argument `drawn`, and what the clock shows is `now`.
pub mod Tallies
pub mod Votes
pub mod Tests
use telegram.Prelude.{
  eq_nat, eq_string, eq_pair, ◌==◌, ltb, leb, if◌then◌else◌, length, any, elem, ℕ, zero, suc, ◌+◌,
  String, Bool, true, false, not, ◌||◌, Option, none, some, List, [], ◌∷◌, ◌++◌, map,
}
use telegram.Prelude.Dict.{get, put, values}
use telegram.Prelude.Exec.{Exec, pure, raise, modify, require, ◌>>=◌, ◌>>◌}
use telegram.Prelude.Text.{strip, is_empty}
use telegram.Prelude.Int.{ℤ, pos, negsuc, ltb_ℤ}
use telegram.Prelude.Int.{pos_part}
use Prim.Native.String.{◌++◌ as ◌++ₛ◌}
use telegram.Errors.{
  unknown_conversation, conversation_access_denied, empty_message, poll_too_few_options,
  poll_closed, poll_invalid_option, poll_close_denied, not_a_poll, unknown_message,
}
use telegram.State.{Message, Poll, ConversationRecord, InMemoryState, save_runtime_state, to_ms}

-- The conversation, where it exists and the user takes part in it.
abbrev admit : String → Option ConversationRecord → Exec InMemoryState ConversationRecord
admit user_id none = raise unknown_conversation
admit user_id (some c) =
    require (elem user_id c.participant_user_ids) conversation_access_denied >> pure c

unfoldable conversation_for : String → String → Exec InMemoryState ConversationRecord
conversation_for conversation_id user_id s = admit user_id (get conversation_id s.conversations) s

-- The first message with the id, which has to be a poll.
unfoldable find_poll : String → List Message → Exec InMemoryState (Message × Poll)
find_poll id [] = raise unknown_message
find_poll id (m ∷ ms) =
    let later = find_poll id ms in
    if m.message_id == id
    then elim m.poll [ none ↦ raise not_a_poll | some poll ↦ pure (m, poll) ]
    else later

unfoldable write_poll : String → Poll → List Message → List Message
write_poll id poll [] = []
write_poll id poll (m ∷ ms) =
    let rest = write_poll id poll ms in
    if m.message_id == id then record m { poll = some poll } ∷ ms else m ∷ rest

unfoldable store : String → ConversationRecord → InMemoryState → InMemoryState
store conversation_id c s =
    save_runtime_state (record s { conversations = put conversation_id c s.conversations })

-- `[o.strip() for o in options if o.strip()]`
unfoldable cleaned_options : List String → List String
cleaned_options [] = []
cleaned_options (o ∷ os) =
    let rest = cleaned_options os in if is_empty (strip o) then rest else strip o ∷ rest

unfoldable create :
    String → ℕ → String → String → String → List String → Bool → Exec InMemoryState Message
unfolding conversation_for cleaned_options store
create drawn now conversation_id sender question' options multiple_choice = do
  conversation ← conversation_for conversation_id sender
  let question = strip question'
  require (not (is_empty question)) empty_message
  let cleaned = cleaned_options options
  require (leb 2 (length cleaned)) poll_too_few_options
  let message : Message = record {
    message_id = "msg_poll_" ++ₛ drawn;
    sender_user_id = sender;
    text = question;
    created_at_ms = to_ms now;
    silent = false;
    scheduled_at_ms = 0;
    scheduled = false;
    edited = false;
    deleted = false;
    pinned = false;
    attachment_id = "";
    reply_to_message_id = "";
    forwarded_from_conversation_id = "";
    forwarded_from_message_id = "";
    forwarded_from_sender_user_id = "";
    reactions = [];
    poll = some (record {
      options = cleaned;
      multiple_choice = multiple_choice;
      closed = false;
      votes = [];
    });
  }
  modify (
      store conversation_id
        (record conversation { messages = conversation.messages ++ message ∷ [] }))
  pure message

-- `sorted(set(...))`
unfoldable insert_pick : ℤ → List ℤ → List ℤ
insert_pick i [] = i ∷ []
insert_pick i (j ∷ js) =
    let rest = insert_pick i js in
    if ltb_ℤ i j then i ∷ j ∷ js else if ltb_ℤ j i then j ∷ rest else j ∷ js

unfoldable sorted_picks : List ℤ → List ℤ
unfolding insert_pick
sorted_picks [] = []
sorted_picks (i ∷ is) = insert_pick i (sorted_picks is)

-- `i < 0 or i >= opt_count`
abbrev is_outside : ℕ → ℤ → Bool
is_outside opt_count (pos i) = leb opt_count i
is_outside opt_count (negsuc i) = true

unfoldable vote : String → String → String → List ℤ → Exec InMemoryState Message
unfolding conversation_for find_poll sorted_picks store write_poll
vote conversation_id message_id voter option_indices = do
  conversation ← conversation_for conversation_id voter
  (message, poll) ← find_poll message_id conversation.messages
  require (not poll.closed) poll_closed
  let unique = sorted_picks option_indices
  require (ltb 0 (length unique)) poll_invalid_option
  require (not (any (is_outside (length poll.options)) unique)) poll_invalid_option
  require (poll.multiple_choice || length unique == 1) poll_invalid_option
  let voted = record poll { votes = put voter (map pos_part unique) poll.votes }
  modify (
      store conversation_id
        (record conversation { messages = write_poll message_id voted conversation.messages }))
  pure (record message { poll = some voted })

unfoldable close : String → String → String → Exec InMemoryState Message
unfolding conversation_for find_poll store write_poll
close conversation_id message_id actor = do
  conversation ← conversation_for conversation_id actor
  (message, poll) ← find_poll message_id conversation.messages
  require (message.sender_user_id == actor) poll_close_denied
  let shut = record poll { closed = true }
  modify (
      store conversation_id
        (record conversation { messages = write_poll message_id shut conversation.messages }))
  pure (record message { poll = some shut })

-- `tallies[idx] += 1` where `0 <= idx < len(tallies)`
unfoldable bump : ℕ → List ℕ → List ℕ
bump i [] = []
bump zero (n ∷ ns) = (n + 1) ∷ ns
bump (suc i) (n ∷ ns) = n ∷ bump i ns

unfoldable count_picks : List ℕ → List ℕ → List ℕ
unfolding bump
count_picks [] tallies = tallies
count_picks (i ∷ is) tallies = count_picks is (bump i tallies)

unfoldable count_votes : List (List ℕ) → List ℕ → List ℕ
unfolding count_picks
count_votes [] tallies = tallies
count_votes (picks ∷ rest) tallies = count_votes rest (count_picks picks tallies)

abbrev zeros : List String → List ℕ
zeros [] = []
zeros (o ∷ os) = 0 ∷ zeros os

-- The tallies of `descriptor_from_message`, and the number of voters.
unfoldable pub tallies : Poll → List ℕ
unfolding count_votes
tallies poll = count_votes (values poll.votes) (zeros poll.options)

abbrev pub total_voters : Poll → ℕ
total_voters poll = length poll.votes

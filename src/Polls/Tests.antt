-- ===== src/Polls/Tests.antt =====
-- The polls on concrete conversations.
use telegram.Prelude.{
  text_eq, eq_nat, eq_string, eq_pair, ◌==◌, Bool-cases, get_elem?, ◌≡◌, refl, subst, inl, inr,
  true, false, some, List, [], ◌∷◌, arith,
}
use telegram.Prelude.Dict.{get, put, values}
use telegram.Prelude.Int.{pos}
use telegram.State.{Message, Poll, ConversationRecord, InMemoryState, save_runtime_state}
use telegram.State.Samples.{sample_conversation, seeded_state}
use telegram.Chat.{new_message}
use telegram.Polls.{
  conversation_for, find_poll, write_poll, store, insert_pick, sorted_picks, vote, close, tallies,
}
use telegram.Polls.Tallies.{voters_for, AreFair, same-IsFair}
use telegram.Polls.Votes.{
  Request, cast, shut, serve_poll, serve_polls, IsFairState, serve_polls-counts,
}

abbrev lunch : Poll
lunch = record {
  options = "soup" ∷ "rice" ∷ [];
  multiple_choice = true;
  closed = false;
  votes = ("u_alice", 0 ∷ 1 ∷ []) ∷ [];
}

abbrev asked : Message
asked = record (new_message "msg_poll_1" "u_alice" "Lunch?" 5) { poll = some lunch }

abbrev group : ConversationRecord
group = record sample_conversation {
  participant_user_ids = "u_alice" ∷ "u_bob" ∷ [];
  messages = asked ∷ [];
}

abbrev canteen : InMemoryState
canteen = record seeded_state { conversations = ("conv_1", group) ∷ [] }

-- a vote with a pick that stands twice, and one that is out of range
abbrev meal : List Request
meal =
    cast "conv_1" "msg_poll_1" "u_bob" (pos 1 ∷ pos 1 ∷ [])
    ∷ cast "conv_1" "msg_poll_1" "u_alice" (pos 2 ∷ [])
    ∷ shut "conv_1" "msg_poll_1" "u_alice"
    ∷ []

abbrev closed_lunch : Poll
closed_lunch = record lunch {
  closed = true;
  votes = ("u_alice", 0 ∷ 1 ∷ []) ∷ ("u_bob", 1 ∷ []) ∷ [];
}

abbrev closed_asked : Message
closed_asked = record asked { poll = some closed_lunch }

abbrev closed_group : ConversationRecord
closed_group = record group { messages = closed_asked ∷ [] }

served : get "conv_1" (serve_polls meal canteen).conversations ≡ some closed_group
unfolding serve_polls serve_poll vote close conversation_for find_poll write_poll store insert_pick
    sorted_picks get put text_eq save_runtime_state
served = refl

asked_is_fair : AreFair group.messages
asked_is_fair = (same-IsFair lunch ((refl, (refl, tt)), tt), tt)

canteen-IsFairState : IsFairState canteen
unfolding get
canteen-IsFairState id c h = elim (Bool-cases ("conv_1" == id)) [
  | inl found ↦
      let p : group ≡ c = cc (rw found at h) in
      subst (λ (k : ConversationRecord). AreFair k.messages) p asked_is_fair
  | inr other ↦ cc (rw other at h)
]

serve_polls-counts_example :
    get_elem? (tallies closed_lunch) 1 ≡ some (voters_for 1 (values closed_lunch.votes))
serve_polls-counts_example =
    serve_polls-counts meal canteen "conv_1" closed_group 0 1 closed_asked closed_lunch
      canteen-IsFairState served refl refl (omega arith)

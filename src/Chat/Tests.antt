-- ===== src/Chat/Tests.antt =====
-- Runs of server/server/services/chat.py on a small group.
use telegram.Prelude.{
  text_eq, eq_nat, eq_string, eq_pair, ◌==◌, ==_iff, ltb, if◌then◌else◌, Bool-cases, drop, elem,
  ◌+◌, String, ◌≡◌, refl, subst, ◌≢◌, inl, inr, true, false, Option, none, some, List, [], ◌∷◌,
  arith,
}
use telegram.Prelude.Dict.{get}
use telegram.Prelude.Text.{Bytes, codes}
use telegram.Prelude.Int.{pos}
use telegram.Errors.{message_edit_denied}
use telegram.State.{Message, ConversationRecord, owner, message_edited, message_deleted}
use telegram.State.Samples.{seeded_state, sample_conversation}
use telegram.Chat.{
  ChatService, start_chat_service, conversation_of, ids_of, new_message, require_participant,
  find_message,
}
use telegram.Chat.Authors.{serve_chat-keeps, perform-keeps_owner, IsUnaltered, MessageAt}
use telegram.Chat.Failures.{perform-err}
use telegram.Chat.Feed.{change_of, changes_after, max_conversation_changes}
use telegram.Chat.Feed.Recovery.{record_all, history, unchanged, changes_after-record_all}
use telegram.Chat.Growth.Ids.{Distinct}
use telegram.Chat.History.Paging.{read_back, read_back-all}
use telegram.Chat.Messages.{mark_read, edit_message, rank}
use telegram.Chat.Messages.Markers.{Marks, mark_read-Marks}
use telegram.Chat.Requests.{
  ChatRequest, perform, serve_chat, sends, edits, deletes, removes, starts_upload, adds_chunk,
}
use telegram.Chat.Safety.{IsValid, start_chat_service-IsValid, serve_chat-IsValid}
use telegram.Chat.Uploads.Bounds.{IsBounded}
use telegram.Chat.Uploads.Serving.{serve_chat-IsBounded}

abbrev plain : String → Option Bytes
plain s = some (codes s)

abbrev no_text : Bytes → String
no_text b = ""

abbrev no_store : String → Bytes → String
no_store id b = ""

abbrev hello : Message
hello = new_message "msg_2" "u_alice" "hello" 5

abbrev answer : Message
answer = new_message "msg_3" "u_bob" "hi" 6

abbrev group : ConversationRecord
group = record sample_conversation {
  participant_user_ids = "u_alice" ∷ "u_bob" ∷ "u_carol" ∷ [];
  messages = hello ∷ answer ∷ [];
  roles = ("u_alice", owner) ∷ [];
}

abbrev room : ChatService
room = start_chat_service (record seeded_state { conversations = ("conv_1", group) ∷ [] })

here : conversation_of "conv_1" room ≡ some group
unfolding start_chat_service get text_eq
here = refl

only_group :
    (id : String) (c : ConversationRecord) → get id (("conv_1", group) ∷ []) ≡ some c → group ≡ c
unfolding get
only_group id c h = elim (Bool-cases ("conv_1" == id)) [
  | inl found ↦ cc (rw found at h)
  | inr other ↦ cc (rw other at h)
]

Distinct-ids :
    (id : String) (c : ConversationRecord)
    → get id (("conv_1", group) ∷ []) ≡ some c
    → Distinct (ids_of c.messages)
unfolding text_eq
Distinct-ids id c h =
    subst (λ k. Distinct (ids_of k.messages)) (only_group id c h) (refl, (refl, tt))

start_chat_service-IsValid_example : IsValid room
start_chat_service-IsValid_example =
    start_chat_service-IsValid (record seeded_state { conversations = ("conv_1", group) ∷ [] })
      Distinct-ids

abbrev meddling : List ChatRequest
meddling =
    edits "u_bob" "conv_1" "msg_2" "changed"
    ∷ deletes "u_carol" "conv_1" "msg_2"
    ∷ sends "u_bob" 7 "conv_1" "again" "msg_2" false (pos 0)
    ∷ removes "u_bob" "conv_1" "u_alice"
    ∷ []

room-IsValid : IsValid room
room-IsValid =
    start_chat_service-IsValid (record seeded_state { conversations = ("conv_1", group) ∷ [] })
      Distinct-ids

serve_chat-IsValid_example : IsValid (serve_chat plain no_text no_store meddling room)
serve_chat-IsValid_example = serve_chat-IsValid plain no_text no_store meddling room room-IsValid

differ : (a b : String) → (a == b) ≡ false → some a ≢ some b
differ a b h e = let same : a ≡ b = cc e in cc ((==_iff a b).1 same, h)

bob : ◌≢◌ {A = Option String} (some "u_bob") (some "u_alice")
unfolding text_eq
bob = differ "u_bob" "u_alice" refl

carol : ◌≢◌ {A = Option String} (some "u_carol") (some "u_alice")
unfolding text_eq
carol = differ "u_carol" "u_alice" refl

serve_chat-keeps_example :
    (n : Message) × MessageAt (serve_chat plain no_text no_store meddling room) "conv_1" 0 n
    × IsUnaltered hello n
serve_chat-keeps_example =
    serve_chat-keeps plain no_text no_store meddling room "conv_1" 0 hello room-IsValid
      (group, here, refl) (inr bob, (inr carol, (inr bob, (inr bob, tt))))

perform-keeps_owner_example :
    (c' : ConversationRecord) × (conversation_of "conv_1"
        (perform plain no_text no_store (removes "u_bob" "conv_1" "u_alice") room).1
      ≡ some c')
    × (get "u_alice" c'.roles ≡ some owner)
    × (elem "u_alice" c'.participant_user_ids ≡ true)
unfolding get text_eq
perform-keeps_owner_example =
    perform-keeps_owner plain no_text no_store (removes "u_bob" "conv_1" "u_alice") room "conv_1"
      "u_alice" group room-IsValid here refl refl refl bob

perform-err_example :
    (perform plain no_text no_store (edits "u_bob" "conv_1" "msg_2" "changed") room).1 ≡ room
unfolding perform start_chat_service edit_message require_participant find_message get text_eq
perform-err_example =
    perform-err plain no_text no_store (edits "u_bob" "conv_1" "msg_2" "changed") room
      message_edit_denied refl

changes_after-record_all_example :
    changes_after
      (record_all (change_of message_edited ∷ change_of message_deleted ∷ []) (unchanged group))
      (pos 1)
    ≡ (if ltb (1 + max_conversation_changes) 2
        then none
        else some (drop 1 (history 0 (change_of message_edited ∷ change_of message_deleted ∷ []))))
changes_after-record_all_example =
    changes_after-record_all (change_of message_edited ∷ change_of message_deleted ∷ []) group 1

read_back-all_example : read_back 3 (pos 1) "" group ≡ hello ∷ answer ∷ []
unfolding text_eq
read_back-all_example = read_back-all (pos 1) group (refl, (refl, tt)) refl

mark_read-Marks_example :
    Marks "conv_1" "u_bob" "msg_3" room group (mark_read "conv_1" "u_bob" "msg_3" room).1
unfolding mark_read require_participant start_chat_service get rank text_eq
mark_read-Marks_example = mark_read-Marks "conv_1" "u_bob" "msg_3" room group here tt

abbrev pieces : List ChatRequest
pieces =
    starts_upload "u_bob" "conv_1" "cat.png" "image/png" (pos 4)
    ∷ adds_chunk "u_bob" "upl_1" (pos 0) "abc"
    ∷ adds_chunk "u_bob" "upl_1" (pos 1) "defg"
    ∷ []

no_uploads : IsBounded room.uploads
unfolding start_chat_service get
no_uploads = record {
  filled = λ id u h. cc h;
  declared = λ id u h. cc h;
  total = omega arith;
  each = λ user. omega arith;
}

serve_chat-IsBounded_example : IsBounded (serve_chat plain no_text no_store pieces room).uploads
serve_chat-IsBounded_example = serve_chat-IsBounded plain no_text no_store pieces room no_uploads

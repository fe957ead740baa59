-- ===== src/Chat/Steps/Sends.antt =====
-- The requests that send messages are steps, and so is the release of the scheduled ones.
use telegram.Prelude.{
  eq_nat, eq_string, eq_pair, Bool-cases, Option-cases, ℕ, String, ◌≡◌, refl, ap, inl, inr, Bool,
  not, ◌||◌, some, List, [], ◌∷◌,
}
use telegram.Prelude.Dict.{values}
use telegram.Prelude.Exec.{Result, Exec, ◌>>◌}
use telegram.Prelude.Text.{numbered, strip, is_empty}
use telegram.Prelude.Int.{ℤ}
use telegram.Chat.Payloads.{MessageDeliverPayload}
use telegram.State.{InMemoryState, Message, ConversationRecord, save_runtime_state}
use telegram.Chat.{ChatService, conversation_of, append_message, find_message, first_message, store}
use telegram.Chat.Feed.{record_change}
use telegram.Chat.Growth.{Grown-append, Grown-append_two, numbered_from}
use telegram.Chat.Sending.{
  send_message, service_command, forward_message, release_due_scheduled, check_reply, next_message,
  save_if_any, released_payloads,
}
use telegram.Prelude.Exec.Guards.{past_guard}
use telegram.Chat.Steps.{Step, wrote, released, past_participant, past_message}
use telegram.Chat.Steps.Edits.{Step-refl}

module _ (actor id : String) (s : ChatService) (c : ConversationRecord)
    (found : conversation_of id s ≡ some c) where
  -- A new message with the next id, stored.
  pub append-Step :
      (m : Message)
      → m.message_id ≡ numbered "msg_" s.message_counter
      → Step actor s (store id (append_message m c) (next_message s))
  unfolding store save_runtime_state
  append-Step m named =
      wrote id c (append_message m c) found refl
        (record {
          messages =
              Grown-append actor s.message_counter c.messages (m ∷ [])
                (unfold numbered_from in ap (λ i. i ∷ []) named);
          ownership = λ u other o inside many. (o, inside);
        })
        refl

saved-conversations :
    (due : List MessageDeliverPayload) (s : InMemoryState)
    → (save_if_any due s).conversations ≡ s.conversations
unfolding save_runtime_state
saved-conversations [] s = refl
saved-conversations (p ∷ ps) s = refl

module _ (actor : String) (s : ChatService) where
  abbrev Good : {A : Type 0} → Result A × ChatService → Type 0
  Good o = Step actor s o.1

  abbrev stay : {A : Type 0} → A → Step actor s s
  stay e = Step-refl actor s

  reply-Good :
      {A : Type 0} (c : ConversationRecord) (reply_to : String) (k : Exec ChatService A)
      → Good (k s)
      → Good ((check_reply c reply_to >> k) s)
  unfolding find_message
  reply-Good c reply_to k good = elim (Bool-cases (is_empty reply_to)) [
    | inl plain ↦ rw plain good
    | inr answer ↦ elim (Option-cases (first_message reply_to c.messages)) [
      | inl gone ↦ rw (answer, gone) (stay tt)
      | inr (m, there) ↦ elim (Bool-cases m.deleted) [
        | inl dead ↦ rw (answer, there, dead) (stay tt)
        | inr live ↦ rw (answer, there, live) good
      ]
    ]
  ]

  pub send-Step :
      (now : ℕ) (id text reply_to : String) (silent : Bool) (at : ℤ)
      → Step actor s (send_message now id actor text reply_to silent at s).1
  unfolding send_message
  send-Step now id text reply_to silent at =
      past_participant Good s id actor _ stay λ c found inside.
        past_guard Good s (not (is_empty (strip text))) _ _ stay
          λ worded. reply-Good c reply_to _ (append-Step actor id s c found _ refl)

  pub command-Step :
      (now : ℕ) (id command : String) → Step actor s (service_command now id actor command s).1
  unfolding service_command store save_runtime_state record_change
  command-Step now id command = past_participant Good s id actor _ stay λ c found inside.
      past_guard Good s (not (is_empty (strip command))) _ _ stay λ worded.
        wrote id c _ found refl
          (record {
            messages = Grown-append_two actor s.message_counter c.messages _ _ refl refl;
            ownership = λ u other o within many. (o, within);
          })
          refl

  pub forward-Step :
      (now : ℕ) (source mid target : String)
      → Step actor s (forward_message now source mid target actor s).1
  unfolding forward_message
  forward-Step now source mid target =
      past_participant Good s source actor _ stay λ from found_from inside_from.
        past_participant Good s target actor _ stay λ c found inside.
          past_message Good s from mid _ stay λ m at.
            past_guard Good s (not m.deleted) _ _ stay λ live.
              past_guard Good s (not (is_empty (strip m.text)) || not (is_empty m.attachment_id)) _
                _ stay λ some. append-Step actor target s c found _ refl

  pub release-Step : (now : ℕ) → Step actor s (release_due_scheduled now s).1
  unfolding release_due_scheduled
  release-Step now =
      released now (saved-conversations (released_payloads now (values s.state.conversations)) _)
        refl refl

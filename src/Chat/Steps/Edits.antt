-- ===== src/Chat/Steps/Edits.antt =====
-- The requests on a message that exists are steps.
use telegram.Prelude.{
  eq_nat, eq_string, eq_pair, ◌==◌, ==_iff, ltb, leb, if◌then◌else◌, ℕ, String, ◌≡◌, refl, subst,
  Bool, true, false, not, ◌&&◌, some, arith,
}
use telegram.Prelude.Dict.{Dict}
use telegram.Prelude.Exec.{Result}
use telegram.Prelude.Text.{strip, is_empty, text_length}
use telegram.State.{save_runtime_state, Message, Change, ConversationRecord}
use telegram.Chat.{ChatService, conversation_of, on_message, first_message, store}
use telegram.Chat.Feed.{record_change}
use telegram.Chat.Growth.{Same, Grown-change, Grown-refl}
use telegram.Chat.Messages.{
  edit_message, delete_message, toggle_reaction, set_pin, mark_read, rank, with_text, as_deleted,
  with_reaction, with_pin,
}
use telegram.Prelude.Exec.Guards.{past_guard}
use telegram.Chat.Steps.{Step, Evolves, kept, wrote, past_participant, past_message}

pub Step-refl : (actor : String) (s : ChatService) → Step actor s s
Step-refl actor s = kept refl (omega arith) refl

module _ (actor id : String) (s : ChatService) (c : ConversationRecord)
    (found : conversation_of id s ≡ some c) where
  -- A conversation whose members are as before, stored.
  pub store-Step :
      (c' : ConversationRecord)
      → Evolves actor s.message_counter s.message_counter c c'
      → Step actor s (store id c' s)
  unfolding store save_runtime_state
  store-Step c' e = wrote id c c' found refl e refl

  pub change-Step :
      (mid : String) (f : Message → Message) (change : Change) (m : Message)
      → first_message mid c.messages ≡ some m
      → Same actor m (f m)
      → Step actor s (store id (record_change change (on_message mid f c)) s)
  change-Step mid f change m at same =
      let found_one : (k : Message) → first_message mid c.messages ≡ some k → Same actor k (f k) =
        λ k there. subst (λ k. Same actor k (f k)) (cc (at, there)) same in
      store-Step (record_change change (on_message mid f c)) (
        unfold record_change in
        record {
          messages = Grown-change actor s.message_counter mid f c.messages found_one;
          ownership = λ u other o inside many. (o, inside);
        })

mark-Evolves :
    (actor : String) (n : ℕ) (c : ConversationRecord) (markers : Dict String String) (b : Bool)
    (change : Change)
    → let marked = record c { read_markers = markers } in
      Evolves actor n n c (if b then marked else record_change change marked)
unfolding record_change
mark-Evolves actor n c markers true change = record {
  messages = Grown-refl actor n c.messages;
  ownership = λ u other o inside many. (o, inside);
}
mark-Evolves actor n c markers false change = record {
  messages = Grown-refl actor n c.messages;
  ownership = λ u other o inside many. (o, inside);
}

-- A change that leaves the text and the mark of deletion.
harmless :
    (actor : String) (m n : Message)
    → n.message_id ≡ m.message_id
    → n.sender_user_id ≡ m.sender_user_id
    → n.text ≡ m.text
    → n.deleted ≡ m.deleted
    → Same actor m n
harmless actor m n id sender text deleted = record {
  id = id;
  sender = sender;
  by_others = λ h. (text, deleted);
  once_deleted = λ h. (text, deleted);
}

module _ (id actor mid : String) (s : ChatService) where
  abbrev Good : {A : Type 0} → Result A × ChatService → Type 0
  Good o = Step actor s o.1

  abbrev stay : {A : Type 0} → A → Step actor s s
  stay e = Step-refl actor s

  -- Whoever may change the message is its sender, and it is not deleted.
  by_sender :
      (m n : Message)
      → (m.sender_user_id == actor) ≡ true
      → not m.deleted ≡ true
      → n.message_id ≡ m.message_id
      → n.sender_user_id ≡ m.sender_user_id
      → Same actor m n
  by_sender m n mine live same sender = record {
    id = same;
    sender = sender;
    by_others = λ h. absurd (h ((==_iff m.sender_user_id actor).0 mine));
    once_deleted = λ h. ground (arith, h, live);
  }

  pub edit-Step : (text : String) → Step actor s (edit_message id actor mid text s).1
  unfolding edit_message
  edit-Step text = past_participant Good s id actor _ stay λ c found inside.
      past_message Good s c mid _ stay λ m at.
        past_guard Good s (m.sender_user_id == actor) _ _ stay λ mine.
          past_guard Good s (not m.deleted) _ _ stay λ live.
            past_guard Good s (not (is_empty (strip text))) _ _ stay λ worded.
              change-Step actor id s c found mid (with_text text) _ m at
                (by_sender m _ mine live refl refl)

  pub delete-Step : Step actor s (delete_message id actor mid s).1
  unfolding delete_message
  delete-Step = past_participant Good s id actor _ stay λ c found inside.
      past_message Good s c mid _ stay λ m at.
        past_guard Good s (m.sender_user_id == actor) _ _ stay λ mine.
          past_guard Good s (not m.deleted) _ _ stay λ live.
            change-Step actor id s c found mid as_deleted _ m at (by_sender m _ mine live refl refl)

  pub react-Step : (emoji : String) → Step actor s (toggle_reaction id actor mid emoji s).1
  unfolding toggle_reaction
  react-Step emoji =
      let sign = strip emoji in
      past_participant Good s id actor _ stay λ c found inside.
        past_message Good s c mid _ stay λ m at. past_guard Good s (not m.deleted) _ _ stay λ live.
          past_guard Good s (not (is_empty sign) && leb (text_length sign) 16) _ _ stay λ short.
            change-Step actor id s c found mid (with_reaction actor sign) _ m at
              (harmless actor m _ refl refl refl refl)

  pub pin-Step : (flag : Bool) → Step actor s (set_pin id actor mid flag s).1
  unfolding set_pin
  pin-Step flag = past_participant Good s id actor _ stay λ c found inside.
      past_message Good s c mid _ stay λ m at. past_guard Good s (not m.deleted) _ _ stay λ live.
        change-Step actor id s c found mid (with_pin flag) _ m at
          (harmless actor m _ refl refl refl refl)

  pub read-Step : Step actor s (mark_read id actor mid s).1
  unfolding mark_read
  read-Step = past_participant Good s id actor _ stay λ c found inside.
      past_guard Good s (ltb 0 (rank mid c.messages)) _ _ stay
        λ known. store-Step actor id s c found _ (mark-Evolves actor s.message_counter c _ _ _)

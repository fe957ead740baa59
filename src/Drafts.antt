-- ===== src/Drafts.antt =====
-- server/server/services/drafts.py: unsent text per user and conversation.
pub mod Rules
pub mod Tests
use telegram.Prelude.{
  eq_nat, eq_string, eq_pair, ◌==◌, if◌then◌else◌, elem, ℕ, String, Bool, true, false, not, ◌||◌,
  Option, none, some, List, [], ◌∷◌,
}
use telegram.Prelude.Dict.{Dict, get, put, pop}
use telegram.Prelude.Exec.{Exec, pure, gets, or_raise, modify, require, ◌>>=◌, ◌>>◌}
use telegram.Prelude.Text.{strip, is_empty}
use telegram.Errors.{unknown_conversation, conversation_access_denied}
use telegram.State.{DraftRecord, InMemoryState, save_runtime_state}

pub draft : String → String → String → String → ℕ → DraftRecord
draft user_id conversation_id text reply_to now_ms = record {
  user_id = user_id;
  conversation_id = conversation_id;
  text = text;
  reply_to_message_id = reply_to;
  updated_at_ms = now_ms;
}

-- `not text or not text.strip()`
pub is_blank : String → Bool
is_blank text = is_empty text || is_empty (strip text)

pub set_draft : String × String → Option DraftRecord → InMemoryState → InMemoryState
set_draft key none s = save_runtime_state (record s { drafts = pop key s.drafts })
set_draft key (some d) s = save_runtime_state (record s { drafts = put key d s.drafts })

-- returns the record and whether the draft was cleared
pub save : String → String → String → String → ℕ → Exec InMemoryState (DraftRecord × Bool)
unfolding draft set_draft is_blank
save user_id conversation_id text reply_to now_ms = do
  require (not (is_empty conversation_id)) unknown_conversation
  conversations ← gets (λ s. s.conversations)
  conv ← or_raise (get conversation_id conversations) unknown_conversation
  require (elem user_id conv.participant_user_ids) conversation_access_denied
  let made = draft user_id conversation_id text reply_to now_ms
  let empty = draft user_id conversation_id "" "" now_ms
  modify (set_draft (user_id, conversation_id) (if is_blank text then none else some made))
  pure (if is_blank text then (empty, true) else (made, false))

pub clear_found : String × String → Option DraftRecord → InMemoryState → InMemoryState × Bool
unfolding set_draft
clear_found key none s = (s, false)
clear_found key (some d) s = (set_draft key none s, true)

-- `clear`: says whether there was a draft, and saves only then
pub clear : String → String → InMemoryState → InMemoryState × Bool
unfolding clear_found
clear user_id conversation_id s =
    clear_found (user_id, conversation_id) (get (user_id, conversation_id) s.drafts) s

pub entries_of : String → Dict (String × String) DraftRecord → List DraftRecord
entries_of user_id [] = []
entries_of user_id ((key, d) ∷ rest) =
    let later = entries_of user_id rest in if key.0 == user_id then d ∷ later else later

pub list_for_user : String → InMemoryState → List DraftRecord
unfolding entries_of
list_for_user user_id s = entries_of user_id s.drafts

-- ===== src/Chat/Sync.antt =====
-- server/server/services/chat.py: what a client that syncs is sent.
use telegram.Prelude.{
  eq_nat, eq_string, eq_pair, if◌then◌else◌, keep, elem, ℕ, String, Bool, true, false, ◌&&◌, Option,
  none, some, List, [], ◌∷◌, ◌++◌, map,
}
use telegram.Prelude.Dict.{Dict, get, values}
use telegram.Prelude.Exec.{Exec, gets, ◌>>=◌}
use telegram.Prelude.Text.{is_empty}
use telegram.Prelude.Int.{ℤ, pos, ltb_ℤ}
use telegram.State.{Message, Change, ConversationRecord, InMemoryState}
use telegram.Chat.{ChatService}
use telegram.Chat.Descriptors.{descriptor, descriptor_with}
use telegram.Chat.Feed.{changes_after}
use telegram.Chat.History.{message_history_page, messages_after}
use telegram.Chat.Payloads.{ConversationDescriptor}
use telegram.Chat.Sending.{release_due_scheduled}

abbrev pub joined : String → List ConversationRecord → List ConversationRecord
joined user_id cs = keep (λ c. elem user_id c.participant_user_ids) cs

pub sync_for_user : ℕ → String → Exec ChatService (List ConversationDescriptor)
sync_for_user now_ms user_id = do
  released ← release_due_scheduled now_ms
  gets (λ s. map (descriptor s.state) (joined user_id (values s.state.conversations)))

-- What a client says about each conversation; a missing key has the default of `get`.
pub record SyncRequest : Type 0 where
  pub cursors : Dict String String
  pub versions : Dict String ℤ
  pub history_limits : Dict String ℤ
  pub before_message_ids : Dict String String

abbrev pub text_at : String → Dict String String → String
text_at id d = elim (get id d) [ none ↦ "" | some text ↦ text ]

abbrev pub number_at : String → Dict String ℤ → ℤ
number_at id d = elim (get id d) [ none ↦ pos 0 | some n ↦ n ]

abbrev pub is_nil {ℓ} : {A : Type ℓ} → List A → Bool
is_nil [] = true
is_nil (x ∷ xs) = false

-- The news of one conversation: nothing, the messages and changes that are new, or all of it.
abbrev pub news :
    InMemoryState
    → ConversationRecord
    → Option (List Message)
    → Option (List Change)
    → List ConversationDescriptor
news s c none changes = descriptor s c ∷ []
news s c (some messages) none = descriptor s c ∷ []
news s c (some messages) (some changes) =
    if is_nil messages && is_nil changes
    then []
    else descriptor_with s c messages changes "" false ∷ []

unfoldable pub sync_one :
    InMemoryState → SyncRequest → ConversationRecord → List ConversationDescriptor
sync_one s r c =
    let id = c.conversation_id in
    let history_limit = number_at id r.history_limits in
    let page = message_history_page c history_limit (text_at id r.before_message_ids) in
    let cursor = text_at id r.cursors in
    if ltb_ℤ (pos 0) history_limit
    then descriptor_with s c page.messages [] page.next_before_message_id page.has_more ∷ []
    else if is_empty cursor
    then descriptor s c ∷ []
    else news s c (messages_after c cursor) (changes_after c (number_at id r.versions))

unfoldable pub sync_all :
    InMemoryState → SyncRequest → List ConversationRecord → List ConversationDescriptor
unfolding sync_one
sync_all s r [] = []
sync_all s r (c ∷ cs) = sync_one s r c ++ sync_all s r cs

pub sync_for_user_since : ℕ → String → SyncRequest → Exec ChatService (List ConversationDescriptor)
unfolding sync_all
sync_for_user_since now_ms user_id r = do
  released ← release_due_scheduled now_ms
  gets (λ s. sync_all s.state r (joined user_id (values s.state.conversations)))

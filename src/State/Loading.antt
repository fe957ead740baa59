-- ===== src/State/Loading.antt =====
-- server/server/state.py: `_apply_payload`, which a start calls with what the state file holds. Every
-- entry has been written by `_runtime_payload`, so its keys are those of the records; an entry has no
-- `password`, so a user with an empty hash makes the load raise, which is `none`.
pub mod Restart
pub mod Keyed
pub mod Tests
use telegram.Prelude.{
  eq_nat, eq_string, eq_pair, if◌then◌else◌, any, String, Bool, Option, none, some, List, [], ◌∷◌,
}
use telegram.Prelude.Dict.{Dict, put}
use telegram.Prelude.Text.{is_empty}
use telegram.State.{UserRecord, ConversationRecord, RuntimePayload, InMemoryState}

-- `{key(v): make(v) for v in vs}`
unfoldable pub comprehension :
    {A B : Type 0} → (A → String) → (A → B) → Dict String B → List A → Dict String B
comprehension key make d [] = d
comprehension key make d (v ∷ vs) = comprehension key make (put (key v) (make v) d) vs

-- `if loaded: self.table = ...`
abbrev pub or_else : {A : Type 0} → List A → List A → List A
or_else [] old = old
or_else (v ∷ vs) old = v ∷ vs

-- What the load makes of an entry: it names these fields and no others.
abbrev pub loaded_user : UserRecord → UserRecord
loaded_user u = record {
  user_id = u.user_id;
  username = u.username;
  password_hash = u.password_hash;
  display_name = u.display_name;
  two_fa_secret = "";
  avatar_attachment_id = "";
}

abbrev pub loaded_conversation : ConversationRecord → ConversationRecord
loaded_conversation c = record {
  conversation_id = c.conversation_id;
  participant_user_ids = c.participant_user_ids;
  messages = c.messages;
  title = c.title;
  read_markers = c.read_markers;
  change_seq = c.change_seq;
  changes = c.changes;
  avatar_attachment_id = "";
  roles = [];
}

abbrev pub lacks_hash : UserRecord → Bool
lacks_hash u = is_empty u.password_hash

abbrev pub table : {A B : Type 0} → (A → String) → (A → B) → List A → Dict String B → Dict String B
table key make entries old = or_else (comprehension key make [] entries) old

pub apply_payload : RuntimePayload → InMemoryState → Option InMemoryState
unfolding comprehension
apply_payload p s =
    if any lacks_hash p.users
    then none
    else some (record s {
      users = table (λ u. u.user_id) loaded_user p.users s.users;
      devices = table (λ d. d.device_id) (λ d. d) p.devices s.devices;
      conversations =
          table (λ c. c.conversation_id) loaded_conversation p.conversations s.conversations;
      remote_sessions =
          table (λ r. r.remote_session_id) (λ r. r) p.remote_sessions s.remote_sessions;
      sessions = table (λ x. x.session_id) (λ x. x) p.sessions s.sessions;
      contacts = or_else p.contacts s.contacts;
      contact_aliases = or_else p.contact_aliases s.contact_aliases;
      conversation_reports = or_else p.conversation_reports s.conversation_reports;
      account_settings = or_else p.account_settings s.account_settings;
      account_features = or_else p.account_features s.account_features;
      attachments = table (λ a. a.attachment_id) (λ a. a) p.attachments s.attachments;
    })

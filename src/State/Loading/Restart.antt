-- ===== src/State/Loading/Restart.antt =====
-- What a restart brings back of the state that was saved.
use telegram.Prelude.{eq_nat, eq_string, eq_pair, any, elem, String, ◌≡◌, false, [], ◌∷◌}
use telegram.Prelude.Dict.{Dict, keys, values}
use telegram.State.{InMemoryState}
use telegram.State.Loading.{or_else, loaded_user, loaded_conversation, lacks_hash}

-- Each entry stands under its own id, and no id twice.
unfoldable pub IsKeyed : {A : Type 0} → (A → String) → Dict String A → Type 0
IsKeyed key [] = Unit
IsKeyed key ((k, v) ∷ d) = (key v ≡ k) × (elem k (keys d) ≡ false) × IsKeyed key d

unfoldable pub map_values : {A B : Type 0} → (A → B) → Dict String A → Dict String B
map_values f [] = []
map_values f ((k, v) ∷ d) = (k, f v) ∷ map_values f d

-- No key of the second dictionary is in the first.
Apart : {A B : Type 0} → Dict String B → Dict String A → Type 0
Apart acc [] = Unit
Apart acc ((k, v) ∷ d) = (elem k (keys acc) ≡ false) × Apart acc d

-- The tables that are saved have their entries under their own ids, and every user has a hash.
pub record IsStorable (s : InMemoryState) : Type 0 where
  pub users : IsKeyed (λ u. u.user_id) s.users
  pub devices : IsKeyed (λ d. d.device_id) s.devices
  pub conversations : IsKeyed (λ c. c.conversation_id) s.conversations
  pub remote_sessions : IsKeyed (λ r. r.remote_session_id) s.remote_sessions
  pub sessions : IsKeyed (λ x. x.session_id) s.sessions
  pub attachments : IsKeyed (λ a. a.attachment_id) s.attachments
  pub hashes : any lacks_hash (values s.users) ≡ false

-- The tables after a start on the state `base`, where `s` was saved.
pub restarted : InMemoryState → InMemoryState → InMemoryState
restarted s base = record base {
  users = or_else (map_values loaded_user s.users) base.users;
  devices = or_else s.devices base.devices;
  conversations = or_else (map_values loaded_conversation s.conversations) base.conversations;
  remote_sessions = or_else s.remote_sessions base.remote_sessions;
  sessions = or_else s.sessions base.sessions;
  contacts = or_else s.contacts base.contacts;
  contact_aliases = or_else s.contact_aliases base.contact_aliases;
  conversation_reports = or_else s.conversation_reports base.conversation_reports;
  account_settings = or_else s.account_settings base.account_settings;
  account_features = or_else s.account_features base.account_features;
  attachments = or_else s.attachments base.attachments;
}

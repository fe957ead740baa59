-- ===== src/State/Samples.antt =====
-- Tables for the tests of the services.
use telegram.Prelude.{eq_nat, eq_string, eq_pair, String, true, none, [], ◌∷◌}
use telegram.State.{ConversationRecord, InMemoryState, UserRecord, DeviceRecord}

abbrev pub empty_state : InMemoryState
empty_state = record {
  state_file = true;
  saved = none;
  users = [];
  devices = [];
  sessions = [];
  conversations = [];
  remote_sessions = [];
  calls = [];
  contacts = [];
  contact_aliases = [];
  conversation_reports = [];
  account_settings = [];
  account_features = [];
  attachments = [];
  push_tokens = [];
  blocked_users = [];
  conversation_mutes = [];
  drafts = [];
  pinned_conversations = [];
  archived_conversations = [];
}

abbrev pub sample_user : String → String → UserRecord
sample_user user_id username = record {
  user_id = user_id;
  username = username;
  password_hash = "";
  display_name = username;
  two_fa_secret = "";
  avatar_attachment_id = "";
}

abbrev pub sample_device : String → String → DeviceRecord
sample_device device_id user_id = record {
  device_id = device_id;
  user_id = user_id;
  label = "";
  platform = "windows";
  trusted = true;
  active = true;
  can_host = true;
  can_view = true;
}

-- The seeded users and devices.
abbrev pub seeded_state : InMemoryState
seeded_state = record empty_state {
  users = ("u_alice", sample_user "u_alice" "alice") ∷ ("u_bob", sample_user "u_bob" "bob") ∷ [];
  devices =
      ("dev_alice_win", sample_device "dev_alice_win" "u_alice")
      ∷ ("dev_bob_win", sample_device "dev_bob_win" "u_bob")
      ∷ [];
}

abbrev pub sample_conversation : ConversationRecord
sample_conversation = record {
  conversation_id = "conv_1";
  participant_user_ids = "u_alice" ∷ "u_bob" ∷ [];
  messages = [];
  title = "";
  read_markers = [];
  change_seq = 0;
  changes = [];
  avatar_attachment_id = "";
  roles = [];
}

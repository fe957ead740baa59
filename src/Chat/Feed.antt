-- ===== src/Chat/Feed.antt =====
-- server/server/services/chat.py: the change feed of a conversation, `_record_change` and
-- `_changes_after`. A caller of `_record_change` names the fields it sets; the rest are defaults.
pub mod Recovery
use telegram.Prelude.{
  eq_nat, eq_string, eq_pair, ltb, if◌then◌else◌, length, drop, keep, ℕ, ◌+◌, ◌-◌, Bool, true,
  false, Option, none, some, List, [], ◌∷◌, ◌++◌,
}
use telegram.Prelude.Int.{ℤ, pos, negsuc}
use telegram.State.{Change, ChangeKind, ConversationRecord}

abbrev pub max_conversation_changes : ℕ
max_conversation_changes = 512

-- A change with the keyword defaults of `_record_change`; its version is still to come.
abbrev pub change_of : ChangeKind → Change
change_of kind = record {
  version = 0;
  kind = kind;
  message_id = "";
  sender_user_id = "";
  text = "";
  reader_user_id = "";
  last_read_message_id = "";
  reply_to_message_id = "";
  forwarded_from_conversation_id = "";
  forwarded_from_message_id = "";
  forwarded_from_sender_user_id = "";
  reaction_summary = "";
  pinned = false;
  silent = false;
  scheduled_at_ms = 0;
  scheduled = false;
}

-- `xs[-n:]` where `len(xs) > n`, and else `xs`
unfoldable pub keep_last {ℓ} : {A : Type ℓ} → ℕ → List A → List A
keep_last n xs = drop (length xs - n) xs

unfoldable pub record_change : Change → ConversationRecord → ConversationRecord
unfolding keep_last
record_change change c =
    let seq = c.change_seq + 1 in
    record c {
      change_seq = seq;
      changes =
          keep_last max_conversation_changes (c.changes ++ record change { version = seq } ∷ []);
    }

-- `version < oldest_version - 1`
abbrev pub too_old : ℤ → ℕ → Bool
too_old (pos v) oldest = ltb (v + 1) oldest
too_old (negsuc k) oldest = ltb 0 (oldest + k)

-- `change.version > version`
abbrev pub is_newer : ℤ → Change → Bool
is_newer (pos v) change = ltb v change.version
is_newer (negsuc k) change = true

unfoldable pub changes_since : ℤ → List Change → Option (List Change)
changes_since version [] = some []
changes_since version (change ∷ rest) =
    if too_old version change.version then none else some (keep (is_newer version) (change ∷ rest))

abbrev pub changes_after : ConversationRecord → ℤ → Option (List Change)
changes_after c version = changes_since version c.changes

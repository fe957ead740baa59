-- ===== src/Flags.antt =====
-- server/server/services/conversation_flags.py: which conversations a user has pinned or archived. The
-- two methods are alike, and so are the two tables, which map a user to a set of conversations.
pub mod Rules
pub mod Tests
use telegram.Prelude.{
  eq_nat, eq_string, eq_pair, ◌==◌, if◌then◌else◌, keep, elem, String, Bool, true, false, not, none,
  some, List, [], ◌∷◌, ◌++◌,
}
use telegram.Prelude.Dict.{Dict, get, put, pop}
use telegram.Prelude.Exec.{Exec, pure, gets, or_raise, modify, require, ◌>>=◌, ◌>>◌}
use telegram.Prelude.Text.{is_empty}
use telegram.Errors.{unknown_conversation, conversation_access_denied}
use telegram.State.{InMemoryState, save_runtime_state}

-- `self._state.pinned_conversations.get(user_id, set())`
pub bag_of : String → Dict String (List String) → List String
bag_of user_id table = elim (get user_id table) [ none ↦ [] | some bag ↦ bag ]

-- `bag.discard(c)`; a set has an element once, and `set_flag` keeps it so
pub discard : String → List String → List String
discard c bag = keep (λ x. not (x == c)) bag

-- the change of one table: an empty set is dropped
pub set_flag : String → String → Bool → Dict String (List String) → Dict String (List String)
unfolding bag_of discard
set_flag user_id c true table =
    let bag = bag_of user_id table in put user_id (if elem c bag then bag else bag ++ c ∷ []) table
set_flag user_id c false table =
    let bag = discard c (bag_of user_id table) in
    elim bag [ [] ↦ pop user_id table | x ∷ more ↦ put user_id (x ∷ more) table ]

pub guard : String → String → Exec InMemoryState Unit
guard user_id conversation_id = do
  require (not (is_empty conversation_id)) unknown_conversation
  conversations ← gets (λ s. s.conversations)
  conv ← or_raise (get conversation_id conversations) unknown_conversation
  require (elem user_id conv.participant_user_ids) conversation_access_denied

pub set_pinned : String → String → Bool → Exec InMemoryState Bool
unfolding guard set_flag
set_pinned user_id conversation_id pinned = do
  guard user_id conversation_id
  modify (λ s. save_runtime_state (record s {
    pinned_conversations = set_flag user_id conversation_id pinned s.pinned_conversations;
  }))
  pure pinned

pub is_pinned : String → String → InMemoryState → Bool
unfolding bag_of
is_pinned user_id conversation_id s = elem conversation_id (bag_of user_id s.pinned_conversations)

pub set_archived : String → String → Bool → Exec InMemoryState Bool
unfolding guard set_flag
set_archived user_id conversation_id archived = do
  guard user_id conversation_id
  modify (λ s. save_runtime_state (record s {
    archived_conversations = set_flag user_id conversation_id archived s.archived_conversations;
  }))
  pure archived

pub is_archived : String → String → InMemoryState → Bool
unfolding bag_of
is_archived user_id conversation_id s =
    elem conversation_id (bag_of user_id s.archived_conversations)

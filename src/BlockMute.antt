-- ===== src/BlockMute.antt =====
-- server/server/services/block_mute.py: who has blocked whom, and muted conversations. Times are
-- milliseconds since the epoch, whole and not below zero.
pub mod Rules
pub mod Mutes
pub mod Tests
use telegram.Prelude.{
  eq_nat, eq_string, eq_pair, ◌==◌, ltb, nat_eq, if◌then◌else◌, length, keep, any, ℕ, zero, suc,
  String, Bool, true, false, not, ◌&&◌, ◌||◌, Option, none, some, List, [], ◌∷◌, ◌++◌,
}
use telegram.Prelude.Dict.{get, put, pop, has}
use telegram.Prelude.Exec.{Exec, pure, gets, modify, require, ◌>>=◌, ◌>>◌}
use telegram.Prelude.Text.{is_empty}
use telegram.Prelude.Int.{ℤ, pos, negsuc}
use telegram.Errors.{
  contact_self_not_allowed, unknown_user, already_blocked, not_blocked, unknown_conversation,
}
use telegram.State.{BlockedUserEntry, ConversationMuteEntry, InMemoryState, save_runtime_state}

-- `self._state.blocked_users.get(blocker, [])`
pub list_blocked : String → InMemoryState → List BlockedUserEntry
list_blocked blocker s = elim (get blocker s.blocked_users) [ none ↦ [] | some entries ↦ entries ]

pub targets : String → List BlockedUserEntry → Bool
targets target entries = any (λ e. e.target_user_id == target) entries

pub is_blocked_by : String → String → InMemoryState → Bool
unfolding list_blocked targets
is_blocked_by blocker target s = targets target (list_blocked blocker s)

pub set_blocked : String → List BlockedUserEntry → InMemoryState → InMemoryState
set_blocked blocker entries s = record s { blocked_users = put blocker entries s.blocked_users }

-- The list is made (`setdefault`) before it is searched, so it stays when the search raises.
pub block : String → String → ℕ → Exec InMemoryState Unit
unfolding list_blocked targets set_blocked
block blocker target now_ms = do
  require (not (is_empty target || target == blocker)) contact_self_not_allowed
  users ← gets (λ s. s.users)
  require (has target users) unknown_user
  entries ← gets (list_blocked blocker)
  modify (set_blocked blocker entries)
  require (not (targets target entries)) already_blocked
  let entry : BlockedUserEntry = record { target_user_id = target; blocked_at_ms = now_ms }
  modify (set_blocked blocker (entries ++ entry ∷ []))
  modify save_runtime_state

pub unblock : String → String → Exec InMemoryState Unit
unfolding list_blocked set_blocked
unblock blocker target = do
  entries ← gets (list_blocked blocker)
  let left = keep (λ (e : BlockedUserEntry). not (e.target_user_id == target)) entries
  require (not (nat_eq (length left) (length entries))) not_blocked
  modify (set_blocked blocker left)
  modify save_runtime_state

pub is_zero : ℤ → Bool
is_zero (pos zero) = true
is_zero (pos (suc n)) = false
is_zero (negsuc n) = false

pub set_mute : String → String → ℤ → Exec InMemoryState ℤ
unfolding is_zero
set_mute user_id conversation_id muted_until_ms = do
  require (not (is_empty conversation_id)) unknown_conversation
  conversations ← gets (λ s. s.conversations)
  require (has conversation_id conversations) unknown_conversation
  let key : String × String = (user_id, conversation_id)
  let entry : ConversationMuteEntry = record {
    user_id = user_id;
    conversation_id = conversation_id;
    muted_until_ms = muted_until_ms;
  }
  modify (λ s. record s {
    conversation_mutes =
        if is_zero muted_until_ms
        then pop key s.conversation_mutes
        else put key entry s.conversation_mutes;
  })
  modify save_runtime_state
  pure muted_until_ms

-- `0 < until and until < now`
pub is_over : ℤ → ℕ → Bool
is_over (pos n) now = ltb 0 n && ltb n now
is_over (negsuc n) now = false

-- An entry that is over is dropped, without a save.
pub read_entry :
    String × String → ℕ → Option ConversationMuteEntry → InMemoryState → ℤ × InMemoryState
unfolding is_over
read_entry key now_ms none s = (pos 0, s)
read_entry key now_ms (some e) s =
    if is_over e.muted_until_ms now_ms
    then (pos 0, record s { conversation_mutes = pop key s.conversation_mutes })
    else (e.muted_until_ms, s)

pub get_mute : String → String → ℕ → InMemoryState → ℤ × InMemoryState
unfolding read_entry
get_mute user_id conversation_id now_ms s =
    read_entry (user_id, conversation_id) now_ms
      (get (user_id, conversation_id) s.conversation_mutes) s

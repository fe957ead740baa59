-- ===== src/BlockMute/Mutes.antt =====
-- The mutes as a table of times.
use telegram.Prelude.{eq_nat, eq_string, eq_pair, if◌then◌else◌, ℕ, String, Option, none, some}
use telegram.Prelude.Dict.{Dict}
use telegram.Prelude.Int.{ℤ, pos}
use telegram.State.{ConversationMuteEntry}
use telegram.BlockMute.{is_over}

-- what a reader sees of an entry
read : ℕ → Option ConversationMuteEntry → ℤ
read now none = pos 0
read now (some e) = if is_over e.muted_until_ms now then pos 0 else e.muted_until_ms

abbrev entry : String → String → ℤ → ConversationMuteEntry
entry u c until = record { user_id = u; conversation_id = c; muted_until_ms = until }

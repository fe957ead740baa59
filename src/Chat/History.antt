-- ===== src/Chat/History.antt =====
-- server/server/services/chat.py: pages of a conversation's history (`_message_history_page`), and
-- the messages behind a cursor (`_messages_after`).
pub mod Paging
use telegram.Prelude.{
  eq_nat, eq_string, eq_pair, ◌==◌, ltb, if◌then◌else◌, length, take, drop, keep, ℕ, suc, ◌-◌, min,
  max, String, Bool, not, Option, none, some, List, [], ◌∷◌,
}
use telegram.Prelude.Text.{is_empty}
use telegram.Prelude.Int.{ℤ, pos, negsuc}
use telegram.State.{Message, ConversationRecord}

-- `[m for m in messages if not m.get("scheduled", False)]`
abbrev pub visible_messages : List Message → List Message
visible_messages ms = keep (λ m. not m.scheduled) ms

-- the index of the first message with the id, where one has it
unfoldable pub index_of : String → List Message → Option ℕ
index_of id [] = none
index_of id (m ∷ ms) =
    let later = index_of id ms in
    if m.message_id == id then some 0 else elim later [ none ↦ none | some i ↦ some (suc i) ]

-- `max(1, min(limit, 100))`
abbrev pub clamp_limit : ℤ → ℕ
clamp_limit (pos n) = max 1 (min n 100)
clamp_limit (negsuc n) = 1

-- where a page ends: everything with no cursor, nothing with an unknown one
unfoldable pub page_end : String → List Message → ℕ
unfolding index_of
page_end before visible =
    if is_empty before
    then length visible
    else elim (index_of before visible) [ none ↦ 0 | some index ↦ index ]

pub record Page : Type 0 where
  pub messages : List Message
  pub next_before_message_id : String
  pub has_more : Bool

abbrev pub first_id : List Message → String
first_id [] = ""
first_id (m ∷ ms) = m.message_id

unfoldable pub page_of : ℕ → String → List Message → Page
unfolding page_end
page_of limit before visible =
    let end = page_end before visible in
    let start = end - limit in
    let page = take (end - start) (drop start visible) in
    record {
      messages = page;
      next_before_message_id = if ltb 0 start then first_id page else "";
      has_more = ltb 0 start;
    }

abbrev pub message_history_page : ConversationRecord → ℤ → String → Page
message_history_page c limit before =
    page_of (clamp_limit limit) before (visible_messages c.messages)

unfoldable pub after_id : String → List Message → Option (List Message)
after_id cursor [] = none
after_id cursor (m ∷ ms) = if m.message_id == cursor then some ms else after_id cursor ms

abbrev pub messages_after : ConversationRecord → String → Option (List Message)
messages_after c cursor = after_id cursor (visible_messages c.messages)

-- ===== src/Chat/Search.antt =====
-- server/server/services/chat.py: search in messages, and the pages of shared media. Python's
-- `str.casefold` is an argument.
use telegram.Prelude.{
  eq_nat, eq_string, eq_pair, ◌==◌, ltb, leb, if◌then◌else◌, length, take, drop, keep, elem, ℕ,
  zero, suc, ◌+◌, String, Bool, true, false, not, ◌&&◌, ◌||◌, none, some, List, [], ◌∷◌, ◌++◌, map,
}
use telegram.Prelude.Dict.{values}
use telegram.Prelude.Exec.{Exec, pure, gets, require, ◌>>=◌, ◌>>◌}
use telegram.Prelude.Text.{codes, strip, is_empty, text_length}
use telegram.Prelude.Int.{ℤ}
use Prim.Native.Char.{Char, code}
use Prim.Native.String.{◌++◌ as ◌++ₛ◌}
use telegram.Prelude.Text.{is_space}
use telegram.Prelude.Text.Number.{after_prefix}
use telegram.Errors.{empty_message}
use telegram.State.{Message, ConversationRecord, InMemoryState}
use telegram.Chat.{ChatService, require_participant, attachment_meta}
use telegram.Chat.History.{clamp_limit}
use telegram.Chat.Payloads.{MessageSearchResultDescriptor, SharedMediaEntryDescriptor}
use telegram.Chat.Sending.{at_least_zero}

-- `s.startswith(p)`
unfoldable pub starts_with : String → String → Bool
unfolding after_prefix
starts_with p s = elim (after_prefix (codes p) (codes s)) [ none ↦ false | some rest ↦ true ]

-- `needle in haystack`
unfoldable pub contains : String → String → Bool
unfolding starts_with
contains needle String.[] = starts_with needle String.[]
contains needle (String.◌∷◌ c s) =
    let later = contains needle s in starts_with needle (String.◌∷◌ c s) || later

-- `text[:n]`
unfoldable pub first_chars : ℕ → String → String
first_chars zero s = String.[]
first_chars (suc n) String.[] = String.[]
first_chars (suc n) (String.◌∷◌ c s) = String.◌∷◌ c (first_chars n s)

-- `matches[offset : offset + limit]`, where the next page starts, and whether there is one
abbrev pub page_from : {A : Type 0} → List A → ℕ → ℕ → List A × ℕ × Bool
page_from matches offset limit =
    let page = take limit (drop offset matches) in
    let next_offset = offset + length page in (page, next_offset, ltb next_offset (length matches))

unfoldable pub snippet_of : Message → String
unfolding text_length first_chars
snippet_of m =
    let snippet =
      if leb (text_length m.text) 120 then m.text else first_chars 117 m.text ++ₛ "..." in
    if is_empty snippet then m.message_id else snippet

module _ (casefold : String → String) where
  abbrev pub haystack : InMemoryState → Message → String
  haystack s m = casefold (
      m.message_id
      ++ₛ " "
      ++ₛ m.sender_user_id
      ++ₛ " "
      ++ₛ m.text
      ++ₛ " "
      ++ₛ m.attachment_id
      ++ₛ " "
      ++ₛ (attachment_meta s m).0)

  abbrev pub is_match : InMemoryState → String → Message → Bool
  is_match s needle m = not m.deleted && contains needle (haystack s m)

  abbrev pub search_result :
      InMemoryState → ConversationRecord → Message → MessageSearchResultDescriptor
  unfolding snippet_of
  search_result s c m = record {
    conversation_id = c.conversation_id;
    conversation_title = c.title;
    message_id = m.message_id;
    sender_user_id = m.sender_user_id;
    text = m.text;
    created_at_ms = m.created_at_ms;
    attachment_id = m.attachment_id;
    filename = (attachment_meta s m).0;
    snippet = snippet_of m;
  }

  -- The conversations of the user, or the one that is asked for where it is among them.
  abbrev pub is_searched : String → String → ConversationRecord → Bool
  is_searched user_id conversation_id c =
      elem user_id c.participant_user_ids
      && (is_empty conversation_id || c.conversation_id == conversation_id)

  unfoldable pub search_in :
      InMemoryState
      → String
      → String
      → String
      → List ConversationRecord
      → List MessageSearchResultDescriptor
  search_in s needle user_id conversation_id [] = []
  search_in s needle user_id conversation_id (c ∷ cs) =
      let rest = search_in s needle user_id conversation_id cs in
      if is_searched user_id conversation_id c
      then map (search_result s c) (keep (is_match s needle) c.messages) ++ rest
      else rest

  pub search_messages :
      String
      → String
      → String
      → ℤ
      → ℤ
      → Exec ChatService (List MessageSearchResultDescriptor × ℕ × Bool)
  unfolding search_in
  search_messages user_id query conversation_id limit offset = do
    let needle = casefold (strip query)
    require (not (is_empty needle)) empty_message
    state ← gets (λ s. s.state)
    let matches = search_in state needle user_id conversation_id (values state.conversations)
    pure (page_from matches (at_least_zero offset) (clamp_limit limit))

-- Whether one of the texts is the other.
abbrev pub one_of : String → List String → Bool
one_of kind kinds = elem kind kinds

pub shared_media_matches : String → String → String → String → Bool
unfolding starts_with
shared_media_matches kind attachment_id mime_type link =
    let attached = not (is_empty attachment_id) in
    let image = starts_with "image/" mime_type in
    let video = starts_with "video/" mime_type in
    let audio = starts_with "audio/" mime_type in
    if one_of kind ("link" ∷ "links" ∷ [])
    then not (is_empty link)
    else if one_of kind ("voice" ∷ "audio" ∷ [])
    then attached && audio
    else if one_of kind ("file" ∷ "files" ∷ "documents" ∷ [])
    then attached && not (image || video || audio)
    else attached && (image || video)

-- `text.split()`: the words, the first of them being put together in `word`
unfoldable pub split_words : String → String → List String
split_words word String.[] = if is_empty word then [] else word ∷ []
split_words word (String.◌∷◌ c s) =
    let next = split_words "" s in
    let longer = split_words (word ++ₛ String.◌∷◌ c String.[]) s in
    if is_space (code c) then if is_empty word then next else word ∷ next else longer

-- `()[]{}<>.,;!?'"`
is_punctuation : Char → Bool
is_punctuation c = elem (code c) (codes "()[]{}<>.,;!?'\"")

strip_left : String → String
strip_left String.[] = String.[]
strip_left (String.◌∷◌ c s) =
    let rest = strip_left s in if is_punctuation c then rest else String.◌∷◌ c s

strip_right : String → String
strip_right String.[] = String.[]
strip_right (String.◌∷◌ c s) =
    let rest = strip_right s in
    if is_punctuation c && is_empty rest then String.[] else String.◌∷◌ c rest

-- `token.strip("()[]{}<>.,;!?'\"")`
unfoldable pub strip_punctuation : String → String
unfolding strip_left strip_right is_punctuation
strip_punctuation s = strip_right (strip_left s)

pub is_link : String → Bool
unfolding starts_with
is_link s = starts_with "http://" s || starts_with "https://" s || starts_with "t.me/" s

unfoldable pub link_among : List String → String
unfolding strip_punctuation is_link
link_among [] = ""
link_among (token ∷ tokens) =
    let later = link_among tokens in
    let stripped = strip_punctuation token in if is_link stripped then stripped else later

pub first_link : String → String
unfolding link_among split_words
first_link text = link_among (split_words "" text)

module _ (casefold : String → String) where
  abbrev pub media_kind : String → String
  media_kind kind =
      let folded = casefold (strip kind) in if is_empty folded then "media" else folded

  abbrev pub is_media : InMemoryState → String → Message → Bool
  unfolding shared_media_matches first_link
  is_media s kind m =
      not m.deleted
      && not m.scheduled
      && shared_media_matches kind m.attachment_id (attachment_meta s m).1 (first_link m.text)

  abbrev media_entry : InMemoryState → ConversationRecord → Message → SharedMediaEntryDescriptor
  unfolding first_link
  media_entry s c m =
      let meta = attachment_meta s m in
      record {
        conversation_id = c.conversation_id;
        message_id = m.message_id;
        sender_user_id = m.sender_user_id;
        text = m.text;
        created_at_ms = m.created_at_ms;
        attachment_id = m.attachment_id;
        filename = meta.0;
        mime_type = meta.1;
        size_bytes = meta.2;
        link = first_link m.text;
      }

  pub shared_media_page :
      String
      → String
      → String
      → ℤ
      → ℤ
      → Exec ChatService (List SharedMediaEntryDescriptor × ℕ × Bool)
  unfolding require_participant
  shared_media_page user_id conversation_id kind offset limit = do
    conversation ← require_participant conversation_id user_id
    state ← gets (λ s. s.state)
    let matches = keep (is_media state (media_kind kind)) conversation.messages
    pure (
        page_from (map (media_entry state conversation) matches) (at_least_zero offset)
          (clamp_limit limit))

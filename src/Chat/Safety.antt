-- ===== src/Chat/Safety.antt =====
-- What every run of requests keeps.
use telegram.Prelude.{
  eq_nat, eq_string, eq_pair, ◌==◌, Bool-cases, elem, elem-append, ℕ, ◌≤◌, ◌<◌, String, ◌≡◌, refl,
  sym, ap, subst, ◌∙◌, inl, inr, true, Option, some, List, [], ◌∷◌, arith,
}
use telegram.Prelude.Dict.{Dict, get, has, keys, values, get-keys}
use telegram.Prelude.Text.{Bytes, numbered, numbered_injective}
use telegram.Prelude.Text.Number.{next_counter_fresh}
use telegram.State.{Message, ConversationRecord, InMemoryState}
use telegram.Chat.{
  ChatService, conversation_of, ids_of, all_message_ids, start_chat_service, next_message_counter,
  next_conversation_counter,
}
use telegram.Chat.Growth.Ids.{Distinct, IsBelow, IsBelow-Grown, Distinct-Grown}
use telegram.Chat.Growth.{Grown-le}
use telegram.Chat.Uploads.Fresh.{IsFresh, start_chat_service-IsFresh, perform-IsFresh}
use telegram.Chat.Requests.{ChatRequest, perform, serve_chat}
use telegram.Chat.Steps.{Step}
use telegram.Chat.Steps.Handler.{perform-Step, acting}
use telegram.Chat.Steps.Tables.{Step-counter, Step-origin}

-- The ids of a conversation's messages are distinct, and no counter gives out an id that is in use.
-- The counters are those of messages, conversations, attachments and uploads.
pub record IsValid (s : ChatService) : Type 0 where
  pub distinct :
      (id : String) (c : ConversationRecord)
      → conversation_of id s ≡ some c
      → Distinct (ids_of c.messages)
  pub below :
      (id : String) (c : ConversationRecord)
      → conversation_of id s ≡ some c
      → IsBelow s.message_counter (ids_of c.messages)
  pub fresh :
      (n : ℕ) (c : ConversationRecord)
      → conversation_of (numbered "conv_" n) s ≡ some c
      → n < s.conversation_counter
  pub files : IsFresh s

above : (m n : ℕ) (ids : List String) → m ≤ n → IsBelow m ids → IsBelow n ids
above m n ids le h k e = omega (arith, h k e)

empty_ids : (ms : List Message) → ms ≡ [] → ids_of ms ≡ []
empty_ids ms h = ap ids_of h

Step-IsValid :
    (actor : String) (s t : ChatService) → IsValid s → Step actor s t → IsFresh t → IsValid t
Step-IsValid actor s t v step files = record {
  files = files;
  distinct = λ id c' h. elim (Step-origin actor s t step id c' h) [
    | inl (c, found, (k, le, e)) ↦
        Distinct-Grown actor s.message_counter k c.messages c'.messages (v.below id c found)
          e.messages (v.distinct id c found)
    | inr (empty, new, up) ↦ subst Distinct (sym (empty_ids c'.messages empty)) tt
  ];
  below = λ id c' h. elim (Step-origin actor s t step id c' h) [
    | inl (c, found, (k, le, e)) ↦ above k t.message_counter (ids_of c'.messages) le (
        IsBelow-Grown actor s.message_counter k c.messages c'.messages (v.below id c found)
          e.messages (Grown-le actor s.message_counter k c.messages c'.messages e.messages))
    | inr (empty, new, up) ↦
        λ k e. cc (ap (elem (numbered "msg_" k)) (empty_ids c'.messages empty), e)
  ];
  fresh = λ n c' h. elim (Step-origin actor s t step (numbered "conv_" n) c' h) [
    | inl (c, found, (k, le, e)) ↦ omega (arith, v.fresh n c found, Step-counter actor s t step)
    | inr (empty, new, up) ↦
        omega (arith, up, numbered_injective "conv_" n s.conversation_counter new)
  ];
}

elem-all_message_ids :
    (x id : String) (c : ConversationRecord) (d : Dict String ConversationRecord)
    → get id d ≡ some c
    → elem x (ids_of c.messages) ≡ true
    → elem x (all_message_ids (values d)) ≡ true
unfolding get
elem-all_message_ids x id c [] h m = cc h
elem-all_message_ids x id c ((j, k) ∷ d) h m = elim (Bool-cases (j == id)) [
  | inl here ↦
      let same : k ≡ c = cc (rw here at h) in
      ground (
        arith,
        elem-append x (ids_of k.messages) (all_message_ids (values d)),
        subst (λ z. elem x (ids_of z.messages) ≡ true) (sym same) m,
      )
  | inr later ↦ ground (
    arith,
    elem-append x (ids_of k.messages) (all_message_ids (values d)),
    elem-all_message_ids x id c d (rw later at h) m,
  )
]

-- A service that starts on tables whose conversations have distinct message ids is valid.
pub start_chat_service-IsValid :
    (tables : InMemoryState)
    → ((id : String) (c : ConversationRecord)
        → get id tables.conversations ≡ some c
        → Distinct (ids_of c.messages))
    → IsValid (start_chat_service tables)
unfolding start_chat_service next_message_counter next_conversation_counter
start_chat_service-IsValid tables h = record {
  files = start_chat_service-IsFresh tables;
  distinct = h;
  below = λ id c found k m.
      next_counter_fresh 1 "msg_" (all_message_ids (values tables.conversations)) k
        (elem-all_message_ids (numbered "msg_" k) id c tables.conversations found m);
  fresh = λ n c found.
      next_counter_fresh 0 "conv_" (keys tables.conversations) n
        (sym (get-keys (numbered "conv_" n) tables.conversations) ∙ rw (found, has) refl);
}

module _ (decode : String → Option Bytes) (encode : Bytes → String)
    (put_blob : String → Bytes → String) where
  pub perform-IsValid :
      (r : ChatRequest) (s : ChatService)
      → IsValid s
      → IsValid (perform decode encode put_blob r s).1
  perform-IsValid r s v =
      Step-IsValid (acting r "") s (perform decode encode put_blob r s).1 v
        (perform-Step decode encode put_blob r "" s)
        (perform-IsFresh decode encode put_blob r s v.files)

  -- Every run of requests keeps the invariant: in each conversation the ids of the messages are
  -- distinct, and the ids that the counters of messages, conversations, attachments and uploads give
  -- out next are not in use.
  pub serve_chat-IsValid :
      (rs : List ChatRequest) (s : ChatService)
      → IsValid s
      → IsValid (serve_chat decode encode put_blob rs s)
  unfolding serve_chat
  serve_chat-IsValid [] s v = v
  serve_chat-IsValid (r ∷ rs) s v =
      serve_chat-IsValid rs (perform decode encode put_blob r s).1 (perform-IsValid r s v)

-- ===== src/Chat/Authors.antt =====
-- Who changes a message, and who keeps a group.
use telegram.Prelude.{
  eq_nat, eq_string, eq_pair, ltb, length, get_elem?, All, elem, ℕ, String, ◌≡◌, refl, sym, ap,
  subst, ◌∙◌, ◌≢◌, ◌⊎◌, inl, inr, true, Option, some, List, [], ◌∷◌, arith,
}
use telegram.Prelude.Dict.{get}
use telegram.Prelude.Text.{Bytes, numbered}
use telegram.State.{Message, ConversationRecord, owner}
use telegram.Chat.{ChatService, conversation_of}
use telegram.Chat.Growth.{Same, Grown-get}
use telegram.Chat.Requests.{ChatRequest, actor_of, perform, serve_chat}
use telegram.Chat.Safety.{IsValid, perform-IsValid}
use telegram.Chat.Steps.Handler.{perform-Step, acting, acting-ne}
use telegram.Chat.Steps.Tables.{Step-history}

-- What neither time nor other users change.
pub record IsUnaltered (m n : Message) : Type 0 where
  pub id : n.message_id ≡ m.message_id
  pub sender : n.sender_user_id ≡ m.sender_user_id
  pub text : n.text ≡ m.text
  pub deleted : n.deleted ≡ m.deleted

-- The message at a place of a conversation.
abbrev pub MessageAt : ChatService → String → ℕ → Message → Type 0
MessageAt s id i m =
    (c : ConversationRecord) × (conversation_of id s ≡ some c) × (get_elem? c.messages i ≡ some m)

-- A message is deleted, or the request is not its sender's.
abbrev pub Safe : Message → ChatRequest → Type 0
Safe m r = (m.deleted ≡ true) ⊎ (actor_of r ≢ some m.sender_user_id)

Unaltered-refl : (m : Message) → IsUnaltered m m
Unaltered-refl m = record { id = refl; sender = refl; text = refl; deleted = refl }

Unaltered-trans : (m n k : Message) → IsUnaltered m n → IsUnaltered n k → IsUnaltered m k
Unaltered-trans m n k p q = record {
  id = q.id ∙ p.id;
  sender = q.sender ∙ p.sender;
  text = q.text ∙ p.text;
  deleted = q.deleted ∙ p.deleted;
}

Safe-Unaltered : (m n : Message) (r : ChatRequest) → IsUnaltered m n → Safe m r → Safe n r
Safe-Unaltered m n r h (inl gone) = inl (h.deleted ∙ gone)
Safe-Unaltered m n r h (inr other) = inr (λ e. other (e ∙ ap some h.sender))

All-Safe :
    (m n : Message) (rs : List ChatRequest) → IsUnaltered m n → All (Safe m) rs → All (Safe n) rs
All-Safe m n [] h safe = tt
All-Safe m n (r ∷ rs) h safe = (Safe-Unaltered m n r h safe.0, All-Safe m n rs h safe.1)

Same-Unaltered :
    (r : ChatRequest) (m n : Message)
    → Safe m r
    → Same (acting r m.sender_user_id) m n
    → IsUnaltered m n
Same-Unaltered r m n (inl gone) h =
    let (text, deleted) = h.once_deleted gone in
    record { id = h.id; sender = h.sender; text = text; deleted = deleted }
Same-Unaltered r m n (inr other) h =
    let away : m.sender_user_id ≢ acting r m.sender_user_id =
      λ e. acting-ne r m.sender_user_id other (sym e) in
    let (text, deleted) = h.by_others away in
    record { id = h.id; sender = h.sender; text = text; deleted = deleted }

not_new :
    (s : ChatService) (id : String) (c : ConversationRecord)
    → IsValid s
    → conversation_of id s ≡ some c
    → id ≢ numbered "conv_" s.conversation_counter
not_new s id c v found e = absurd (
    omega
      (arith, v.fresh s.conversation_counter c (subst (λ k. conversation_of k s ≡ some c) e found)))

module _ (decode : String → Option Bytes) (encode : Bytes → String)
    (put_blob : String → Bytes → String) where
  perform-keeps :
      (r : ChatRequest) (s : ChatService) (id : String) (i : ℕ) (m : Message)
      → IsValid s
      → MessageAt s id i m
      → Safe m r
      → (n : Message) × MessageAt (perform decode encode put_blob r s).1 id i n × IsUnaltered m n
  perform-keeps r s id i m v (c, found, at) safe =
      let u = m.sender_user_id in
      let t = (perform decode encode put_blob r s).1 in
      let step = perform-Step decode encode put_blob r u s in
      let (c', there, (k, le, e)) =
        Step-history (acting r u) s t step id c (not_new s id c v found) found in
      let (n, at', same) =
        Grown-get (acting r u) s.message_counter k c.messages c'.messages i m e.messages at in
      (n, (c', there, at'), Same-Unaltered r m n safe same)

  -- In a valid service, a message that is deleted, or whose sender makes none of the requests, is
  -- after any run of requests still at its place in its conversation, with its id, its sender, its
  -- text and its mark of deletion as they were.
  pub serve_chat-keeps :
      (rs : List ChatRequest) (s : ChatService) (id : String) (i : ℕ) (m : Message)
      → IsValid s
      → MessageAt s id i m
      → All (Safe m) rs
      → (n : Message) × MessageAt (serve_chat decode encode put_blob rs s) id i n × IsUnaltered m n
  unfolding serve_chat
  serve_chat-keeps [] s id i m v at safe = (m, at, Unaltered-refl m)
  serve_chat-keeps (r ∷ rs) s id i m v at safe =
      let t = (perform decode encode put_blob r s).1 in
      let (n, at_n, same) = perform-keeps r s id i m v at safe.0 in
      let (k, at_k, later) =
        serve_chat-keeps rs t id i n (perform-IsValid decode encode put_blob r s v) at_n
          (All-Safe m n rs same safe.1) in
      (k, at_k, Unaltered-trans m n k same later)

  -- In a valid service, the owner of a conversation with more than two participants is its owner and
  -- takes part in it after any request of another user.
  pub perform-keeps_owner :
      (r : ChatRequest) (s : ChatService) (id u : String) (c : ConversationRecord)
      → IsValid s
      → conversation_of id s ≡ some c
      → get u c.roles ≡ some owner
      → elem u c.participant_user_ids ≡ true
      → ltb 2 (length c.participant_user_ids) ≡ true
      → actor_of r ≢ some u
      → (c' : ConversationRecord) × (conversation_of id (perform decode encode put_blob r s).1
          ≡ some c')
        × (get u c'.roles ≡ some owner)
        × (elem u c'.participant_user_ids ≡ true)
  perform-keeps_owner r s id u c v found o inside many other =
      let t = (perform decode encode put_blob r s).1 in
      let step = perform-Step decode encode put_blob r u s in
      let (c', there, (k, le, e)) =
        Step-history (acting r u) s t step id c (not_new s id c v found) found in
      let (o', inside') = e.ownership u (λ h. acting-ne r u other (sym h)) o inside many in
      (c', there, o', inside')

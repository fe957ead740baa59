-- ===== src/Chat/Requests.antt =====
-- server/server/services/chat.py: the methods that clients call, as one type of request. The clock
-- of a request is part of it.
use telegram.Prelude.{
  eq_nat, eq_string, eq_pair, ℕ, String, Bool, Option, none, some, List, [], ◌∷◌,
}
use telegram.Prelude.Exec.{Exec, pure, ◌>>=◌}
use telegram.Prelude.Text.{Bytes}
use telegram.Prelude.Int.{ℤ}
use telegram.Chat.{ChatService}
use telegram.Chat.Members.{
  create_conversation, add_participant, remove_participant, leave_conversation, set_role,
  report_conversation,
}
use telegram.Chat.Messages.{edit_message, delete_message, toggle_reaction, set_pin, mark_read}
use telegram.Chat.Sending.{send_message, service_command, forward_message, release_due_scheduled}
use telegram.Chat.Uploads.{
  init_upload, accept_upload_chunk, complete_upload, send_attachment_message,
}

-- The user who asks comes first, and then the arguments as the methods have them.
pub data ChatRequest : Type 0 where
  edits : (actor conversation_id message_id text : String) → ChatRequest
  deletes : (actor conversation_id message_id : String) → ChatRequest
  reacts : (actor conversation_id message_id emoji : String) → ChatRequest
  pins : (actor conversation_id message_id : String) → Bool → ChatRequest
  reads : (actor conversation_id message_id : String) → ChatRequest
  sends : (actor : String) → ℕ → (conversation_id text reply_to : String) → Bool → ℤ → ChatRequest
  commands : (actor : String) → ℕ → (conversation_id command : String) → ChatRequest
  forwards : (actor : String) → ℕ → (source message_id target : String) → ChatRequest
  releases : ℕ → ChatRequest
  creates : (actor : String) → List String → (title : String) → ChatRequest
  adds removes : (actor conversation_id user_id : String) → ChatRequest
  leaves : (actor conversation_id : String) → Bool → ChatRequest
  sets_role : (actor conversation_id target role : String) → ChatRequest
  reports : (actor : String) → ℕ → (conversation_id reason comment : String) → ChatRequest
  starts_upload : (actor conversation_id filename mime_type : String) → ℤ → ChatRequest
  adds_chunk : (actor upload_id : String) → ℤ → (content_b64 : String) → ChatRequest
  completes_upload : (actor : String) → ℕ → (upload_id caption : String) → ChatRequest
  sends_attachment :
      (actor : String)
      → ℕ
      → (conversation_id caption filename mime_type content_b64 : String) → ℤ
      → ChatRequest

-- The release of scheduled messages is nobody's.
abbrev pub actor_of : ChatRequest → Option String
actor_of (edits a _ _ _) = some a
actor_of (deletes a _ _) = some a
actor_of (reacts a _ _ _) = some a
actor_of (pins a _ _ _) = some a
actor_of (reads a _ _) = some a
actor_of (sends a _ _ _ _ _ _) = some a
actor_of (commands a _ _ _) = some a
actor_of (forwards a _ _ _ _) = some a
actor_of (releases _) = none
actor_of (creates a _ _) = some a
actor_of (adds a _ _) = some a
actor_of (removes a _ _) = some a
actor_of (leaves a _ _) = some a
actor_of (sets_role a _ _ _) = some a
actor_of (reports a _ _ _ _) = some a
actor_of (starts_upload a _ _ _ _) = some a
actor_of (adds_chunk a _ _ _) = some a
actor_of (completes_upload a _ _ _) = some a
actor_of (sends_attachment a _ _ _ _ _ _ _) = some a

-- Without the answer.
abbrev pub forget : {S A : Type 0} → Exec S A → Exec S Unit
forget m = m >>= λ _. pure tt

module _ (decode : String → Option Bytes) (encode : Bytes → String)
    (put_blob : String → Bytes → String) where
  unfoldable pub perform : ChatRequest → Exec ChatService Unit
  perform (edits a c m t) = forget (edit_message c a m t)
  perform (deletes a c m) = forget (delete_message c a m)
  perform (reacts a c m e) = forget (toggle_reaction c a m e)
  perform (pins a c m b) = forget (set_pin c a m b)
  perform (reads a c m) = forget (mark_read c a m)
  perform (sends a now c t r q at) = forget (send_message now c a t r q at)
  perform (commands a now c t) = forget (service_command now c a t)
  perform (forwards a now c m d) = forget (forward_message now c m d a)
  perform (releases now) = forget (release_due_scheduled now)
  perform (creates a us t) = forget (create_conversation a us t)
  perform (adds a c u) = forget (add_participant c a u)
  perform (removes a c u) = forget (remove_participant c a u)
  perform (leaves a c b) = forget (leave_conversation c a b)
  perform (sets_role a c u r) = forget (set_role c a u r)
  perform (reports a now c r t) = forget (report_conversation now c a r t)
  perform (starts_upload a c f t n) = forget (init_upload c a f t n)
  perform (adds_chunk a u n t) = forget (accept_upload_chunk decode u a n t)
  perform (completes_upload a now u t) = forget (complete_upload encode put_blob now u a t)
  perform (sends_attachment a now c t f y b n) =
      forget (send_attachment_message decode put_blob now c a t f y b n)

  -- The service after a run of requests, whatever they answer.
  unfoldable pub serve_chat : List ChatRequest → ChatService → ChatService
  unfolding perform
  serve_chat [] s = s
  serve_chat (r ∷ rs) s = serve_chat rs (perform r s).1

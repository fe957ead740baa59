-- ===== src/Chat/Uploads/Serving.antt =====
-- Every run of requests keeps the uploads within their bounds.
use telegram.Prelude.{
  eq_nat, eq_string, eq_pair, ◌==◌, ltb, leb, ltb→lt, leb→le, Bool-cases, length, keep, ℕ, ◌+◌,
  String, ◌≡◌, refl, sym, subst, inl, inr, not, Option, List, [], ◌∷◌, arith,
}
use telegram.Prelude.Dict.{get, values}
use telegram.Prelude.Exec.{Result, Exec}
use telegram.Prelude.Text.{Bytes, strip, is_empty}
use telegram.Prelude.Int.{ℤ}
use telegram.Chat.{ChatService, require_participant, store}
use telegram.Chat.Uploads.{
  init_upload, accept_upload_chunk, complete_upload, send_attachment_message, positive_size,
  same_number, owned_by, max_chunked_upload_bytes, max_active_uploads_total,
  max_active_uploads_per_user,
}
use telegram.Chat.Uploads.Bounds.{IsBounded, extended, begun, ended}
use telegram.Chat.Requests.{
  ChatRequest, forget, perform, serve_chat, edits, deletes, reacts, pins, reads, sends, commands,
  forwards, releases, creates, adds, removes, leaves, sets_role, reports, starts_upload, adds_chunk,
  completes_upload, sends_attachment,
}
use telegram.Prelude.Exec.Guards.{past_guard, past_value}
use telegram.Chat.Steps.{past_participant}
use telegram.Chat.Uploads.Quiet.{
  dropped, past_upload, IsQuiet, edit-IsQuiet, delete-IsQuiet, react-IsQuiet, pin-IsQuiet,
  read-IsQuiet, send-IsQuiet, command-IsQuiet, forward-IsQuiet, release-IsQuiet, add-IsQuiet,
  remove-IsQuiet, leave-IsQuiet, set_role-IsQuiet, report-IsQuiet, create-IsQuiet,
}

abbrev Good : {A : Type 0} → Result A × ChatService → Type 0
Good o = IsBounded o.1.uploads

attach-uploads :
    (decode : String → Option Bytes) (put_blob : String → Bytes → String) (now : ℕ)
    (c a t f y b : String) (n : ℤ) (s : ChatService)
    → (send_attachment_message decode put_blob now c a t f y b n s).1.uploads ≡ s.uploads
unfolding send_attachment_message require_participant store
attach-uploads decode put_blob now c a t f y b n s = ground arith

start-IsBounded :
    (id actor filename mime_type : String) (size : ℤ) (s : ChatService)
    → IsBounded s.uploads
    → IsBounded (init_upload id actor filename mime_type size s).1.uploads
unfolding init_upload
start-IsBounded id actor filename mime_type size s v =
    past_participant Good s id actor _ (λ e. v)
      λ c found inside.
        past_guard Good s (not (is_empty (strip filename))) _ _ (λ e. v)
          λ named.
            past_value Good s (positive_size size) _ _ (λ e. v)
              λ total positive.
                past_guard Good s (leb total max_chunked_upload_bytes) _ _ (λ e. v)
                  λ small.
                    past_guard Good s (ltb (length s.uploads) max_active_uploads_total) _ _ (λ e. v)
                      λ room.
                        past_guard Good s
                          (ltb (length (keep (owned_by actor) (values s.uploads)))
                            max_active_uploads_per_user)
                          _ _ (λ e. v)
                          λ few.
                            begun s.uploads v _ _ refl (leb→le _ _ small) (ltb→lt _ _ room)
                              (ltb→lt _ _ few)

module _ (decode : String → Option Bytes) (encode : Bytes → String)
    (put_blob : String → Bytes → String) where
  chunk-IsBounded :
      (id actor : String) (sequence : ℤ) (content : String) (s : ChatService)
      → IsBounded s.uploads
      → IsBounded (accept_upload_chunk decode id actor sequence content s).1.uploads
  unfolding accept_upload_chunk
  chunk-IsBounded id actor sequence content s v =
      past_upload Good actor s (get id s.uploads) _ (λ e. v)
        λ u found.
          past_guard Good s (same_number sequence u.next_sequence) _ _ (λ e. v)
            λ in_order.
              past_guard Good s (not (is_empty content)) _ _ (λ e. v)
                λ filled.
                  past_value Good s (decode content) _ _ (λ e. v)
                    λ chunk decoded.
                      past_guard Good s (leb (length u.buffer + length chunk) u.total_size_bytes) _
                        _ (λ e. v) λ fits. extended s.uploads v id u chunk found (leb→le _ _ fits)

  complete-IsBounded :
      (id actor : String) (now : ℕ) (caption : String) (s : ChatService)
      → IsBounded s.uploads
      → IsBounded (complete_upload encode put_blob now id actor caption s).1.uploads
  unfolding complete_upload store
  complete-IsBounded id actor now caption s v =
      past_upload Good actor s (get id s.uploads) _ (λ e. v)
        λ u found. elim (Bool-cases (length u.buffer == u.total_size_bytes)) [
          | inr short ↦ rw short (ended s.uploads v id)
          | inl full ↦ rw full (
              past_participant Good _ u.conversation_id actor _ (λ e. v)
                λ c here inside. ended s.uploads v id)
        ]

  quiet :
      {A : Type 0} (m : Exec ChatService A) (s : ChatService)
      → IsQuiet m
      → IsBounded s.uploads
      → IsBounded (forget m s).1.uploads
  quiet m s h v =
      dropped (λ t. IsBounded t.uploads) (m s).0 (m s).1 (subst IsBounded (sym (h.at s).uploads) v)

  perform-IsBounded :
      (r : ChatRequest) (s : ChatService)
      → IsBounded s.uploads
      → IsBounded (perform decode encode put_blob r s).1.uploads
  unfolding perform
  perform-IsBounded (edits a c m t) s v = quiet _ s (edit-IsQuiet c a m t) v
  perform-IsBounded (deletes a c m) s v = quiet _ s (delete-IsQuiet c a m) v
  perform-IsBounded (reacts a c m e) s v = quiet _ s (react-IsQuiet c a m e) v
  perform-IsBounded (pins a c m b) s v = quiet _ s (pin-IsQuiet c a m b) v
  perform-IsBounded (reads a c m) s v = quiet _ s (read-IsQuiet c a m) v
  perform-IsBounded (sends a now c t r q at) s v = quiet _ s (send-IsQuiet now c a t r q at) v
  perform-IsBounded (commands a now c t) s v = quiet _ s (command-IsQuiet now c a t) v
  perform-IsBounded (forwards a now c m d) s v = quiet _ s (forward-IsQuiet now c m d a) v
  perform-IsBounded (releases now) s v = quiet _ s (release-IsQuiet now) v
  perform-IsBounded (creates a us t) s v = quiet _ s (create-IsQuiet a us t) v
  perform-IsBounded (adds a c u) s v = quiet _ s (add-IsQuiet c a u) v
  perform-IsBounded (removes a c u) s v = quiet _ s (remove-IsQuiet c a u) v
  perform-IsBounded (leaves a c b) s v = quiet _ s (leave-IsQuiet c a b) v
  perform-IsBounded (sets_role a c u r) s v = quiet _ s (set_role-IsQuiet c a u r) v
  perform-IsBounded (reports a now c r t) s v = quiet _ s (report-IsQuiet now c a r t) v
  perform-IsBounded (starts_upload a c f y n) s v =
      dropped (λ t. IsBounded t.uploads) _ (init_upload c a f y n s).1
        (start-IsBounded c a f y n s v)
  perform-IsBounded (adds_chunk a u n t) s v =
      dropped (λ t. IsBounded t.uploads) _ (accept_upload_chunk decode u a n t s).1
        (chunk-IsBounded u a n t s v)
  perform-IsBounded (completes_upload a now u t) s v =
      dropped (λ t. IsBounded t.uploads) _ (complete_upload encode put_blob now u a t s).1
        (complete-IsBounded u a now t s v)
  perform-IsBounded (sends_attachment a now c t f y b n) s v =
      dropped (λ t. IsBounded t.uploads) _
        (send_attachment_message decode put_blob now c a t f y b n s).1
        (subst IsBounded (sym (attach-uploads decode put_blob now c a t f y b n s)) v)

  -- Every run of requests keeps the uploads within their bounds: none holds more bytes than it
  -- declared, none declared more than 64 MB, there are at most 256, and at most 8 of one user.
  pub serve_chat-IsBounded :
      (rs : List ChatRequest) (s : ChatService)
      → IsBounded s.uploads
      → IsBounded (serve_chat decode encode put_blob rs s).uploads
  unfolding serve_chat
  serve_chat-IsBounded [] s v = v
  serve_chat-IsBounded (r ∷ rs) s v =
      serve_chat-IsBounded rs (perform decode encode put_blob r s).1 (perform-IsBounded r s v)

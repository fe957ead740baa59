-- ===== src/Chat/Uploads/Fresh.antt =====
-- The ids of attachments and uploads: none is given out twice.
use telegram.Prelude.{
  eq_nat, eq_string, eq_pair, ◌==◌, ltb, leb, Bool-cases, length, keep, ℕ, ◌+◌, ◌<◌, String, refl,
  sym, ap, subst, ◌∙◌, inl, inr, not, Option, arith,
}
use telegram.Prelude.Dict.{get, put, has, keys, values, get-keys}
use telegram.Prelude.Exec.{Result, Exec}
use telegram.Prelude.Text.{Bytes, numbered, strip, is_empty}
use telegram.Prelude.Int.{ℤ}
use telegram.Chat.{ChatService, store}
use telegram.Chat.Uploads.{
  init_upload, accept_upload_chunk, complete_upload, send_attachment_message, positive_size,
  same_number, owned_by, max_chunked_upload_bytes, max_active_uploads_total,
  max_active_uploads_per_user,
}
use telegram.Chat.Requests.{
  ChatRequest, forget, perform, edits, deletes, reacts, pins, reads, sends, commands, forwards,
  releases, creates, adds, removes, leaves, sets_role, reports, starts_upload, adds_chunk,
  completes_upload, sends_attachment,
}
use telegram.Prelude.Exec.Guards.{past_guard, past_value}
use telegram.Chat.Steps.{past_participant}
use telegram.Chat.Uploads.Numbers.{IsUnder, IsUnder-put, IsUnder-replace, IsUnder-pop}
use telegram.Chat.Uploads.Quiet.{
  dropped, past_upload, IsQuiet, edit-IsQuiet, delete-IsQuiet, react-IsQuiet, pin-IsQuiet,
  read-IsQuiet, send-IsQuiet, command-IsQuiet, forward-IsQuiet, release-IsQuiet, add-IsQuiet,
  remove-IsQuiet, leave-IsQuiet, set_role-IsQuiet, report-IsQuiet, create-IsQuiet,
}
use telegram.Prelude.Text.Number.{next_counter_fresh}
use telegram.State.{AttachmentRecord, InMemoryState, save_runtime_state}
use telegram.Chat.{next_attachment_counter, start_chat_service}
use telegram.Chat.Uploads.{max_attachment_size_bytes, declared_size}
use telegram.Chat.Uploads.Quiet.{IsAside}

-- Every attachment and every upload has an id that its counter has given out; `upload_counter` is the
-- number that was given out last.
pub record IsFresh (s : ChatService) : Type 0 where
  pub attachments : IsUnder "att_" s.attachment_counter s.state.attachments
  pub uploads : IsUnder "upl_" (s.upload_counter + 1) s.uploads

aside-IsFresh : (s t : ChatService) → IsAside s t → IsFresh s → IsFresh t
aside-IsFresh s t h v = record {
  attachments = λ n x e.
      subst (λ c. n < c) (sym h.attachment_counter)
        (v.attachments n x (sym (ap (get (numbered "att_" n)) h.attachments) ∙ e));
  uploads = λ n x e.
      subst (λ c. n < c + 1) (sym h.upload_counter)
        (v.uploads n x (sym (ap (get (numbered "upl_" n)) h.uploads) ∙ e));
}

abbrev Good : {A : Type 0} → Result A × ChatService → Type 0
Good o = IsFresh o.1

pub start_chat_service-IsFresh : (tables : InMemoryState) → IsFresh (start_chat_service tables)
unfolding start_chat_service next_attachment_counter get
start_chat_service-IsFresh tables = record {
  attachments = λ n x found.
      next_counter_fresh 0 "att_" (keys tables.attachments) n
        (sym (get-keys (numbered "att_" n) tables.attachments) ∙ rw (found, has) refl);
  uploads = λ n x found. cc found;
}

start-IsFresh :
    (id actor filename mime_type : String) (size : ℤ) (s : ChatService)
    → IsFresh s
    → IsFresh (init_upload id actor filename mime_type size s).1
unfolding init_upload
start-IsFresh id actor filename mime_type size s v =
    past_participant Good s id actor _ (λ e. v)
      λ c found inside.
        past_guard Good s (not (is_empty (strip filename))) _ _ (λ e. v)
          λ named.
            past_value Good s (positive_size size) _ _ (λ e. v)
              λ total positive.
                past_guard Good s (leb total max_chunked_upload_bytes) _ _ (λ e. v)
                  λ small.
                    past_guard Good s (ltb (length s.uploads) max_active_uploads_total) _ _ (λ e. v)
                      λ room.
                        past_guard Good s
                          (ltb (length (keep (owned_by actor) (values s.uploads)))
                            max_active_uploads_per_user)
                          _ _ (λ e. v)
                          λ few. record {
                            attachments = v.attachments;
                            uploads =
                                IsUnder-put "upl_" (s.upload_counter + 1) (s.upload_counter + 1 + 1)
                                  (s.upload_counter + 1) _ s.uploads v.uploads (omega arith)
                                  (omega arith);
                          }

attached :
    (a : AttachmentRecord) (s : ChatService)
    → IsFresh s
    → IsUnder "att_"
        (s.attachment_counter + 1)
        (put (numbered "att_" s.attachment_counter) a s.state.attachments)
attached a s v =
    IsUnder-put "att_" s.attachment_counter (s.attachment_counter + 1) s.attachment_counter a
      s.state.attachments v.attachments (omega arith) (omega arith)

module _ (decode : String → Option Bytes) (encode : Bytes → String)
    (put_blob : String → Bytes → String) where
  chunk-IsFresh :
      (id actor : String) (sequence : ℤ) (content : String) (s : ChatService)
      → IsFresh s
      → IsFresh (accept_upload_chunk decode id actor sequence content s).1
  unfolding accept_upload_chunk
  chunk-IsFresh id actor sequence content s v =
      past_upload Good actor s (get id s.uploads) _ (λ e. v)
        λ u found.
          past_guard Good s (same_number sequence u.next_sequence) _ _ (λ e. v)
            λ in_order.
              past_guard Good s (not (is_empty content)) _ _ (λ e. v)
                λ filled.
                  past_value Good s (decode content) _ _ (λ e. v)
                    λ chunk decoded.
                      past_guard Good s (leb (length u.buffer + length chunk) u.total_size_bytes) _
                        _ (λ e. v)
                        λ fits. record {
                          attachments = v.attachments;
                          uploads = IsUnder-replace "upl_" _ id u _ s.uploads v.uploads found;
                        }

  complete-IsFresh :
      (id actor : String) (now : ℕ) (caption : String) (s : ChatService)
      → IsFresh s
      → IsFresh (complete_upload encode put_blob now id actor caption s).1
  unfolding complete_upload store save_runtime_state
  complete-IsFresh id actor now caption s v =
      past_upload Good actor s (get id s.uploads) _ (λ e. v)
        λ u found. elim (Bool-cases (length u.buffer == u.total_size_bytes)) [
          | inr short ↦ rw short (record {
            attachments = v.attachments;
            uploads = IsUnder-pop "upl_" _ id s.uploads v.uploads;
          })
          | inl full ↦ rw full (
              past_participant Good _ u.conversation_id actor _
                (λ e. record { attachments = attached _ s v; uploads = v.uploads })
                λ c here inside. record {
                  attachments = attached _ s v;
                  uploads = IsUnder-pop "upl_" _ id s.uploads v.uploads;
                })
        ]

  attach-IsFresh :
      (now : ℕ) (id actor caption filename mime_type content : String) (declared : ℤ)
      (s : ChatService)
      → IsFresh s
      → IsFresh
          (send_attachment_message decode put_blob now id actor caption filename mime_type content
            declared s).1
  unfolding send_attachment_message store save_runtime_state
  attach-IsFresh now id actor caption filename mime_type content declared s v =
      past_participant Good s id actor _ (λ e. v)
        λ c found inside.
          past_guard Good s (not (is_empty (strip filename))) _ _ (λ e. v)
            λ named.
              past_value Good s (declared_size declared) _ _ (λ e. v)
                λ size small.
                  past_guard Good s (not (is_empty content)) _ _ (λ e. v)
                    λ filled.
                      past_value Good s (decode content) _ _ (λ e. v)
                        λ decoded is.
                          past_guard Good s (length decoded == size) _ _ (λ e. v)
                            λ same.
                              past_guard Good s (leb (length decoded) max_attachment_size_bytes) _ _
                                (λ e. v)
                                λ fits. record { attachments = attached _ s v; uploads = v.uploads }

  quiet :
      {A : Type 0} (m : Exec ChatService A) (s : ChatService)
      → IsQuiet m
      → IsFresh s
      → IsFresh (forget m s).1
  quiet m s h v = dropped IsFresh (m s).0 (m s).1 (aside-IsFresh s (m s).1 (h.at s) v)

  pub perform-IsFresh :
      (r : ChatRequest) (s : ChatService)
      → IsFresh s
      → IsFresh (perform decode encode put_blob r s).1
  unfolding perform
  perform-IsFresh (edits a c m t) s v = quiet _ s (edit-IsQuiet c a m t) v
  perform-IsFresh (deletes a c m) s v = quiet _ s (delete-IsQuiet c a m) v
  perform-IsFresh (reacts a c m e) s v = quiet _ s (react-IsQuiet c a m e) v
  perform-IsFresh (pins a c m b) s v = quiet _ s (pin-IsQuiet c a m b) v
  perform-IsFresh (reads a c m) s v = quiet _ s (read-IsQuiet c a m) v
  perform-IsFresh (sends a now c t r q at) s v = quiet _ s (send-IsQuiet now c a t r q at) v
  perform-IsFresh (commands a now c t) s v = quiet _ s (command-IsQuiet now c a t) v
  perform-IsFresh (forwards a now c m d) s v = quiet _ s (forward-IsQuiet now c m d a) v
  perform-IsFresh (releases now) s v = quiet _ s (release-IsQuiet now) v
  perform-IsFresh (creates a us t) s v = quiet _ s (create-IsQuiet a us t) v
  perform-IsFresh (adds a c u) s v = quiet _ s (add-IsQuiet c a u) v
  perform-IsFresh (removes a c u) s v = quiet _ s (remove-IsQuiet c a u) v
  perform-IsFresh (leaves a c b) s v = quiet _ s (leave-IsQuiet c a b) v
  perform-IsFresh (sets_role a c u r) s v = quiet _ s (set_role-IsQuiet c a u r) v
  perform-IsFresh (reports a now c r t) s v = quiet _ s (report-IsQuiet now c a r t) v
  perform-IsFresh (starts_upload a c f y n) s v =
      dropped IsFresh _ (init_upload c a f y n s).1 (start-IsFresh c a f y n s v)
  perform-IsFresh (adds_chunk a u n t) s v =
      dropped IsFresh _ (accept_upload_chunk decode u a n t s).1 (chunk-IsFresh u a n t s v)
  perform-IsFresh (completes_upload a now u t) s v =
      dropped IsFresh _ (complete_upload encode put_blob now u a t s).1
        (complete-IsFresh u a now t s v)
  perform-IsFresh (sends_attachment a now c t f y b n) s v =
      dropped IsFresh _ (send_attachment_message decode put_blob now c a t f y b n s).1
        (attach-IsFresh now c a t f y b n s v)

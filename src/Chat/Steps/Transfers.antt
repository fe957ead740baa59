-- ===== src/Chat/Steps/Transfers.antt =====
-- The requests on attachments are steps.
use telegram.Prelude.{
  eq_nat, eq_string, eq_pair, ◌==◌, ltb, leb, Bool-cases, length, keep, ℕ, ◌+◌, String, refl, inl,
  inr, not, Option, none, some, arith,
}
use telegram.Prelude.Dict.{get, values}
use telegram.Prelude.Exec.{Result, Exec, ◌>>=◌}
use telegram.Prelude.Text.{Bytes, strip, is_empty}
use telegram.Prelude.Int.{ℤ}
use telegram.State.{save_runtime_state}
use telegram.Chat.{ChatService, UploadSession, store}
use telegram.Chat.Growth.{Grown-append, numbered_from}
use telegram.Chat.Uploads.{
  init_upload, accept_upload_chunk, complete_upload, send_attachment_message, positive_size,
  own_upload, same_number, owned_by, declared_size, max_chunked_upload_bytes,
  max_active_uploads_total, max_active_uploads_per_user, max_attachment_size_bytes,
}
use telegram.Prelude.Exec.Guards.{past_guard, past_value}
use telegram.Chat.Steps.{Step, kept, wrote, past_participant}
use telegram.Chat.Steps.Edits.{Step-refl}

module _ (id actor : String) (s : ChatService) where
  abbrev Good : {A : Type 0} → Result A × ChatService → Type 0
  Good o = Step actor s o.1

  abbrev stay : {A : Type 0} → A → Step actor s s
  stay e = Step-refl actor s

  pub start-Step :
      (filename mime_type : String) (size : ℤ)
      → Step actor s (init_upload id actor filename mime_type size s).1
  unfolding init_upload
  start-Step filename mime_type size = past_participant Good s id actor _ stay λ c found inside.
      past_guard Good s (not (is_empty (strip filename))) _ _ stay λ named.
        past_value Good s (positive_size size) _ _ stay λ total positive.
          past_guard Good s (leb total max_chunked_upload_bytes) _ _ stay λ small.
            past_guard Good s (ltb (length s.uploads) max_active_uploads_total) _ _ stay λ room.
              past_guard Good s
                (ltb (length (keep (owned_by actor) (values s.uploads)))
                  max_active_uploads_per_user)
                _ _ stay λ few. kept refl (omega arith) refl

  past_own :
      {A : Type 0} (o : Option UploadSession) (k : UploadSession → Exec ChatService A)
      → ((u : UploadSession) → Good (k u s))
      → Good ((own_upload actor o >>= k) s)
  past_own none k good = stay tt
  past_own (some u) k good = elim (Bool-cases (owned_by actor u)) [
    | inl own ↦ rw own (good u)
    | inr other ↦ rw other (stay tt)
  ]

  pub chunk-Step :
      (decode : String → Option Bytes) (sequence : ℤ) (content : String)
      → Step actor s (accept_upload_chunk decode id actor sequence content s).1
  unfolding accept_upload_chunk
  chunk-Step decode sequence content = past_own (get id s.uploads) _ λ u.
      past_guard Good s (same_number sequence u.next_sequence) _ _ stay λ in_order.
        past_guard Good s (not (is_empty content)) _ _ stay λ filled.
          past_value Good s (decode content) _ _ stay λ chunk decoded.
            past_guard Good s (leb (length u.buffer + length chunk) u.total_size_bytes) _ _ stay
              λ fits. kept refl (omega arith) refl

  pub complete-Step :
      (encode : Bytes → String) (put_blob : String → Bytes → String) (now : ℕ) (caption : String)
      → Step actor s (complete_upload encode put_blob now id actor caption s).1
  unfolding complete_upload store save_runtime_state numbered_from
  complete-Step encode put_blob now caption = past_own (get id s.uploads) _ λ u.
      elim (Bool-cases (length u.buffer == u.total_size_bytes)) [
        | inr short ↦ rw short (kept refl (omega arith) refl)
        | inl full ↦ rw full (
            past_participant Good _ u.conversation_id actor _ (λ e. kept refl (omega arith) refl)
              λ c found inside.
                wrote u.conversation_id c _ found refl
                  (record {
                    messages = Grown-append actor s.message_counter c.messages _ refl;
                    ownership = λ v other o there many. (o, there);
                  })
                  refl)
      ]

  pub attach-Step :
      (decode : String → Option Bytes) (put_blob : String → Bytes → String) (now : ℕ)
      → (caption filename mime_type content : String) (declared : ℤ)
      → Step actor s
          (send_attachment_message decode put_blob now id actor caption filename mime_type content
            declared s).1
  unfolding send_attachment_message store save_runtime_state numbered_from
  attach-Step decode put_blob now caption filename mime_type content declared =
      past_participant Good s id actor _ stay λ c found inside.
        past_guard Good s (not (is_empty (strip filename))) _ _ stay λ named.
          past_value Good s (declared_size declared) _ _ stay λ size fits.
            past_guard Good s (not (is_empty content)) _ _ stay λ filled.
              past_value Good s (decode content) _ _ stay λ decoded ok.
                past_guard Good s (length decoded == size) _ _ stay λ as_declared.
                  past_guard Good s (leb (length decoded) max_attachment_size_bytes) _ _ stay
                    λ small.
                      wrote id c _ found refl
                        (record {
                          messages = Grown-append actor s.message_counter c.messages _ refl;
                          ownership = λ v other o there many. (o, there);
                        })
                        refl

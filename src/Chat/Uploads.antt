-- ===== src/Chat/Uploads.antt =====
-- server/server/services/chat.py: attachments, uploaded in chunks or sent whole. The base64 functions,
-- and `put` and `get` of the blob store, are arguments; `decode` gives `none` where `b64decode` raises.
pub mod Bounds
pub mod Quiet
pub mod Numbers
pub mod Serving
pub mod Fresh
use telegram.Prelude.{
  eq_nat, eq_string, eq_pair, ◌==◌, ltb, leb, if◌then◌else◌, length, keep, elem, ℕ, zero, suc, ◌+◌,
  ◌*◌, String, Bool, false, not, Option, none, some, [], ◌++◌,
}
use telegram.Prelude.Dict.{get, put, pop, values}
use telegram.Prelude.Exec.{Exec, pure, raise, gets, or_raise, modify, require, ◌>>=◌, ◌>>◌}
use telegram.Prelude.Text.{Bytes, numbered, strip, is_empty}
use telegram.Prelude.Int.{ℤ, pos, negsuc}
use telegram.Errors.{
  invalid_attachment_payload, upload_too_large, upload_limit_reached, unknown_upload,
  upload_chunk_out_of_order, upload_size_mismatch, attachment_too_large, unknown_attachment,
  attachment_access_denied,
}
use telegram.State.{AttachmentRecord, ConversationRecord}
use telegram.Chat.{
  ChatService, UploadSession, require_participant, append_message, new_message, store,
}
use telegram.Chat.Sending.{next_message}
use telegram.Chat.Payloads.{MessageDeliverPayload, deliver, AttachmentFetchResponsePayload}

abbrev pub max_attachment_size_bytes : ℕ
max_attachment_size_bytes = 1_048_576

abbrev pub default_chunk_size_bytes : ℕ
default_chunk_size_bytes = 1_048_576

abbrev pub max_chunked_upload_bytes : ℕ
max_chunked_upload_bytes = 64 * 1_048_576

abbrev pub max_active_uploads_per_user : ℕ
max_active_uploads_per_user = 8

abbrev pub max_active_uploads_total : ℕ
max_active_uploads_total = 256

-- `mime_type or "application/octet-stream"`
abbrev pub mime_or_default : String → String
mime_or_default mime_type = if is_empty mime_type then "application/octet-stream" else mime_type

-- A size that has to be positive.
abbrev pub positive_size : ℤ → Option ℕ
positive_size (pos zero) = none
positive_size (pos (suc n)) = some (suc n)
positive_size (negsuc n) = none

abbrev pub owned_by : String → UploadSession → Bool
owned_by user_id upload = upload.user_id == user_id

abbrev pub write_upload : String → UploadSession → ChatService → ChatService
write_upload upload_id upload s = record s { uploads = put upload_id upload s.uploads }

abbrev pub drop_upload : String → ChatService → ChatService
drop_upload upload_id s = record s { uploads = pop upload_id s.uploads }

unfoldable pub init_upload : String → String → String → String → ℤ → Exec ChatService (String × ℕ)
unfolding require_participant
init_upload conversation_id user_id filename mime_type total_size = do
  conversation ← require_participant conversation_id user_id
  require (not (is_empty (strip filename))) invalid_attachment_payload
  total ← or_raise (positive_size total_size) invalid_attachment_payload
  require (leb total max_chunked_upload_bytes) upload_too_large
  uploads ← gets (λ s. s.uploads)
  require (ltb (length uploads) max_active_uploads_total) upload_limit_reached
  require (ltb (length (keep (owned_by user_id) (values uploads))) max_active_uploads_per_user)
      upload_limit_reached
  counter ← gets (λ s. s.upload_counter)
  let upload_id = numbered "upl_" (counter + 1)
  modify (λ s.
      write_upload upload_id
        (record {
          upload_id = upload_id;
          user_id = user_id;
          conversation_id = conversation_id;
          filename = filename;
          mime_type = mime_or_default mime_type;
          total_size_bytes = total;
          next_sequence = 0;
          buffer = [];
        })
        (record s { upload_counter = counter + 1 }))
  pure (upload_id, default_chunk_size_bytes)

-- `session is None or session.user_id != user_id`
abbrev pub own_upload : String → Option UploadSession → Exec ChatService UploadSession
own_upload user_id none = raise unknown_upload
own_upload user_id (some upload) = require (owned_by user_id upload) unknown_upload >> pure upload

abbrev pub same_number : ℤ → ℕ → Bool
same_number (pos n) m = n == m
same_number (negsuc n) m = false

abbrev pub extend : Bytes → UploadSession → UploadSession
extend chunk upload = record upload {
  buffer = upload.buffer ++ chunk;
  next_sequence = upload.next_sequence + 1;
}

module _ (decode : String → Option Bytes) where
  unfoldable pub accept_upload_chunk : String → String → ℤ → String → Exec ChatService ℕ
  accept_upload_chunk upload_id user_id sequence content_b64 = do
    found ← gets (λ s. get upload_id s.uploads)
    upload ← own_upload user_id found
    require (same_number sequence upload.next_sequence) upload_chunk_out_of_order
    require (not (is_empty content_b64)) invalid_attachment_payload
    chunk ← or_raise (decode content_b64) invalid_attachment_payload
    require (leb (length upload.buffer + length chunk) upload.total_size_bytes) upload_size_mismatch
    modify (write_upload upload_id (extend chunk upload))
    pure (length upload.buffer + length chunk)

-- `self._state.attachments[attachment_id] = AttachmentRecord(...)`, and the counter before it
abbrev pub add_attachment : AttachmentRecord → ChatService → ChatService
add_attachment attachment s = record s {
  attachment_counter = s.attachment_counter + 1;
  state = record s.state {
    attachments = put attachment.attachment_id attachment s.state.attachments;
  };
}

module _ (encode : Bytes → String) (put_blob : String → Bytes → String) where
  -- The buffer goes to the blob store, or stays inline where the store has no root.
  abbrev pub completed : String → String → UploadSession → AttachmentRecord
  completed attachment_id user_id upload =
      let storage_key = put_blob attachment_id upload.buffer in
      record {
        attachment_id = attachment_id;
        conversation_id = upload.conversation_id;
        uploader_user_id = user_id;
        filename = upload.filename;
        mime_type = upload.mime_type;
        size_bytes = upload.total_size_bytes;
        content_b64 = if is_empty storage_key then encode upload.buffer else "";
        storage_key = storage_key;
      }

  -- The sizes differ: the upload is dropped before the error is raised.
  abbrev pub check_size : String → UploadSession → Exec ChatService Unit
  check_size upload_id upload =
      if length upload.buffer == upload.total_size_bytes
      then pure tt
      else modify (drop_upload upload_id) >> raise upload_size_mismatch

  unfoldable pub complete_upload :
      ℕ → String → String → String → Exec ChatService MessageDeliverPayload
  unfolding require_participant
  complete_upload now_ms upload_id user_id caption = do
    found ← gets (λ s. get upload_id s.uploads)
    upload ← own_upload user_id found
    check_size upload_id upload
    attachment_counter ← gets (λ s. s.attachment_counter)
    let attachment_id = numbered "att_" attachment_counter
    modify (add_attachment (completed attachment_id user_id upload))
    counter ← gets (λ s. s.message_counter)
    let message_id = numbered "msg_" counter
    modify next_message
    conversation ← require_participant upload.conversation_id user_id
    let message = record (new_message message_id user_id caption now_ms) {
      attachment_id = attachment_id;
    }
    modify (λ s.
        drop_upload upload_id
          (store upload.conversation_id (append_message message conversation) s))
    pure (record (deliver upload.conversation_id message_id user_id caption now_ms) {
      attachment_id = attachment_id;
      filename = upload.filename;
      mime_type = upload.mime_type;
      size_bytes = upload.total_size_bytes;
    })

-- `declared < 0 or declared > MAX_ATTACHMENT_SIZE_BYTES`
abbrev pub declared_size : ℤ → Option ℕ
declared_size (pos n) = if leb n max_attachment_size_bytes then some n else none
declared_size (negsuc n) = none

module _ (decode : String → Option Bytes) (put_blob : String → Bytes → String) where
  unfoldable pub send_attachment_message :
      ℕ
      → String
      → String
      → String
      → String
      → String
      → String
      → ℤ
      → Exec ChatService MessageDeliverPayload
  unfolding require_participant
  send_attachment_message now_ms conversation_id sender caption filename mime_type content_b64
        declared =
      do
        conversation ← require_participant conversation_id sender
        require (not (is_empty (strip filename))) invalid_attachment_payload
        size ← or_raise (declared_size declared) attachment_too_large
        require (not (is_empty content_b64)) invalid_attachment_payload
        decoded ← or_raise (decode content_b64) invalid_attachment_payload
        require (length decoded == size) invalid_attachment_payload
        require (leb (length decoded) max_attachment_size_bytes) attachment_too_large
        attachment_counter ← gets (λ s. s.attachment_counter)
        counter ← gets (λ s. s.message_counter)
        let attachment_id = numbered "att_" attachment_counter
        let message_id = numbered "msg_" counter
        let storage_key = put_blob attachment_id decoded
        let attachment : AttachmentRecord = record {
          attachment_id = attachment_id;
          conversation_id = conversation_id;
          uploader_user_id = sender;
          filename = filename;
          mime_type = mime_or_default mime_type;
          size_bytes = size;
          content_b64 = if is_empty storage_key then content_b64 else "";
          storage_key = storage_key;
        }
        let message = record (new_message message_id sender caption now_ms) {
          attachment_id = attachment_id;
        }
        modify (λ s.
            store conversation_id (append_message message conversation)
              (next_message (add_attachment attachment s)))
        pure (record (deliver conversation_id message_id sender caption now_ms) {
          attachment_id = attachment_id;
          filename = filename;
          mime_type = mime_or_default mime_type;
          size_bytes = size;
        })

-- `conversation is None or requester_user_id not in conversation.participant_user_ids`
abbrev pub may_fetch : String → Option ConversationRecord → Bool
may_fetch user_id none = false
may_fetch user_id (some c) = elem user_id c.participant_user_ids

module _ (encode : Bytes → String) (get_blob : String → Bytes) where
  unfoldable pub fetch_attachment :
      String → String → Exec ChatService AttachmentFetchResponsePayload
  fetch_attachment attachment_id requester = do
    found ← gets (λ s. get attachment_id s.state.attachments)
    attachment ← or_raise found unknown_attachment
    home ← gets (λ s. get attachment.conversation_id s.state.conversations)
    require (may_fetch requester home) attachment_access_denied
    pure (record {
      attachment_id = attachment.attachment_id;
      conversation_id = attachment.conversation_id;
      uploader_user_id = attachment.uploader_user_id;
      filename = attachment.filename;
      mime_type = attachment.mime_type;
      size_bytes = attachment.size_bytes;
      content_b64 =
          if is_empty attachment.storage_key
          then attachment.content_b64
          else encode (get_blob attachment.storage_key);
    })

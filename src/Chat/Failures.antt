-- ===== src/Chat/Failures.antt =====
-- Requests of the chat service that raise.
use telegram.Prelude.{
  eq_nat, eq_string, eq_pair, leb, Bool-cases, length, ℕ, String, ◌≡◌, refl, inl, inr, Bool, Option,
  List, [], ◌∷◌, arith,
}
use telegram.Prelude.Exec.{Result, ok, err, escaped, Exec, pure, continue}
use telegram.Prelude.Text.{Bytes}
use telegram.Prelude.Int.{ℤ}
use telegram.Errors.{ErrorCode}
use telegram.Chat.{ChatService, require_participant, find_message}
use telegram.Chat.Members.{
  create_conversation, add_participant, remove_participant, leave_conversation, set_role,
  report_conversation, add_others-cases,
}
use telegram.Chat.Messages.{edit_message, delete_message, toggle_reaction, set_pin, mark_read}
use telegram.Chat.Sending.{send_message, service_command, forward_message, release_due_scheduled}
use telegram.Chat.Uploads.{
  init_upload, accept_upload_chunk, complete_upload, send_attachment_message,
}
use telegram.Chat.Requests.{
  forget, ChatRequest, perform, edits, deletes, reacts, pins, reads, sends, commands, forwards,
  releases, creates, adds, removes, leaves, sets_role, reports, starts_upload, adds_chunk,
  completes_upload, sends_attachment,
}

-- A method that raises leaves the service as it was.
abbrev pub IsTidy : {S A : Type 0} → Exec S A → Type 0
IsTidy {S} {A} m = (s : S) (c : ErrorCode) → (m s).0 ≡ err c → (m s).1 ≡ s

edit-IsTidy : (c a m t : String) → IsTidy (edit_message c a m t)
unfolding edit_message require_participant find_message
edit-IsTidy c a m t s e h = ground arith

delete-IsTidy : (c a m : String) → IsTidy (delete_message c a m)
unfolding delete_message require_participant find_message
delete-IsTidy c a m s e h = ground arith

react-IsTidy : (c a m k : String) → IsTidy (toggle_reaction c a m k)
unfolding toggle_reaction require_participant find_message
react-IsTidy c a m k s e h = ground arith

pin-IsTidy : (c a m : String) (b : Bool) → IsTidy (set_pin c a m b)
unfolding set_pin require_participant find_message
pin-IsTidy c a m b s e h = ground arith

read-IsTidy : (c a m : String) → IsTidy (mark_read c a m)
unfolding mark_read require_participant
read-IsTidy c a m s e h = ground arith

send-IsTidy :
    (now : ℕ) (c a t r : String) (q : Bool) (at : ℤ) → IsTidy (send_message now c a t r q at)
unfolding send_message require_participant find_message
send-IsTidy now c a t r q at s e h = ground arith

command-IsTidy : (now : ℕ) (c a t : String) → IsTidy (service_command now c a t)
unfolding service_command require_participant
command-IsTidy now c a t s e h = ground arith

forward-IsTidy : (now : ℕ) (c m d a : String) → IsTidy (forward_message now c m d a)
unfolding forward_message require_participant find_message
forward-IsTidy now c m d a s e h = ground arith

release-IsTidy : (now : ℕ) → IsTidy (release_due_scheduled now)
unfolding release_due_scheduled
release-IsTidy now s e h = ground arith

add-IsTidy : (c a u : String) → IsTidy (add_participant c a u)
unfolding add_participant require_participant
add-IsTidy c a u s e h = ground arith

remove-IsTidy : (c a u : String) → IsTidy (remove_participant c a u)
unfolding remove_participant require_participant
remove-IsTidy c a u s e h = ground arith

leave-IsTidy : (c a : String) (b : Bool) → IsTidy (leave_conversation c a b)
unfolding leave_conversation remove_participant require_participant
leave-IsTidy c a b s e h = ground arith

set_role-IsTidy : (c a u r : String) → IsTidy (set_role c a u r)
unfolding set_role require_participant
set_role-IsTidy c a u r s e h = ground arith

report-IsTidy : (now : ℕ) (c a r t : String) → IsTidy (report_conversation now c a r t)
unfolding report_conversation require_participant
report-IsTidy now c a r t s e h = ground arith

start-IsTidy : (c a f y : String) (n : ℤ) → IsTidy (init_upload c a f y n)
unfolding init_upload require_participant
start-IsTidy c a f y n s e h = ground arith

chunk-IsTidy :
    (decode : String → Option Bytes) (u a : String) (n : ℤ) (b : String)
    → IsTidy (accept_upload_chunk decode u a n b)
unfolding accept_upload_chunk
chunk-IsTidy decode u a n b s e h = ground arith

attach-IsTidy :
    (decode : String → Option Bytes) (put_blob : String → Bytes → String) (now : ℕ)
    (c a t f y b : String) (n : ℤ)
    → IsTidy (send_attachment_message decode put_blob now c a t f y b n)
unfolding send_attachment_message require_participant
attach-IsTidy decode put_blob now c a t f y b n s e h = ground arith

forget_cases :
    {A : Type 0} (P : ChatService → Type 0) (r : Result A) (s : ChatService) (c : ErrorCode)
    → (r ≡ err c → P s)
    → (continue r (λ _. pure tt) s).0 ≡ err c
    → P (continue r (λ _. pure tt) s).1
forget_cases P (ok a) s c h e = cc e
forget_cases P (err d) s c h e = h (cc e)
forget_cases P escaped s c h e = cc e

-- So does the request, which drops the answer.
tidy : {A : Type 0} (m : Exec ChatService A) → IsTidy m → IsTidy (forget m)
tidy m h s c e = forget_cases (λ t. t ≡ s) (m s).0 (m s).1 c (h s c) e

create-IsTidy : (a : String) (us : List String) (t : String) → IsTidy (create_conversation a us t)
unfolding create_conversation
create-IsTidy a us t s c = elim (add_others-cases s.state.users a us (a ∷ []) s) [
  | inl (e, stopped) ↦ rw stopped (λ _. refl)
  | inr (all, done) ↦ elim (Bool-cases (leb 2 (length all))) [
    | inl many ↦ rw (done, many) (λ h. cc h)
    | inr few ↦ rw (done, few) (λ _. refl)
  ]
]

complete-conversations :
    (encode : Bytes → String) (put_blob : String → Bytes → String) (now : ℕ) (u a t : String)
    → (s : ChatService) (c : ErrorCode) → (complete_upload encode put_blob now u a t s).0 ≡ err c
    → (complete_upload encode put_blob now u a t s).1.state.conversations ≡ s.state.conversations
unfolding complete_upload require_participant
complete-conversations encode put_blob now u a t s c h = ground arith

module _ (decode : String → Option Bytes) (encode : Bytes → String)
    (put_blob : String → Bytes → String) where
  -- What a request that raises leaves: everything, or at least the conversations.
  abbrev pub Unharmed : ChatRequest → ChatService → ChatService → Type 0
  Unharmed (completes_upload a now u t) s s' = s'.state.conversations ≡ s.state.conversations
  Unharmed _ s s' = s' ≡ s

  -- A request that raises leaves the service as it was, and a completion of an upload that raises
  -- leaves the conversations as they were.
  pub perform-err :
      (r : ChatRequest) (s : ChatService) (c : ErrorCode)
      → (perform decode encode put_blob r s).0 ≡ err c
      → Unharmed r s (perform decode encode put_blob r s).1
  unfolding perform
  perform-err (edits a c m t) s e h = tidy _ (edit-IsTidy c a m t) s e h
  perform-err (deletes a c m) s e h = tidy _ (delete-IsTidy c a m) s e h
  perform-err (reacts a c m k) s e h = tidy _ (react-IsTidy c a m k) s e h
  perform-err (pins a c m b) s e h = tidy _ (pin-IsTidy c a m b) s e h
  perform-err (reads a c m) s e h = tidy _ (read-IsTidy c a m) s e h
  perform-err (sends a now c t r q at) s e h = tidy _ (send-IsTidy now c a t r q at) s e h
  perform-err (commands a now c t) s e h = tidy _ (command-IsTidy now c a t) s e h
  perform-err (forwards a now c m d) s e h = tidy _ (forward-IsTidy now c m d a) s e h
  perform-err (releases now) s e h = tidy _ (release-IsTidy now) s e h
  perform-err (creates a us t) s e h = tidy _ (create-IsTidy a us t) s e h
  perform-err (adds a c u) s e h = tidy _ (add-IsTidy c a u) s e h
  perform-err (removes a c u) s e h = tidy _ (remove-IsTidy c a u) s e h
  perform-err (leaves a c b) s e h = tidy _ (leave-IsTidy c a b) s e h
  perform-err (sets_role a c u r) s e h = tidy _ (set_role-IsTidy c a u r) s e h
  perform-err (reports a now c r t) s e h = tidy _ (report-IsTidy now c a r t) s e h
  perform-err (starts_upload a c f t n) s e h = tidy _ (start-IsTidy c a f t n) s e h
  perform-err (adds_chunk a u n t) s e h = tidy _ (chunk-IsTidy decode u a n t) s e h
  perform-err (completes_upload a now u t) s e h =
      let done = complete_upload encode put_blob now u a t s in
      forget_cases (λ s'. s'.state.conversations ≡ s.state.conversations) done.0 done.1 e
        (complete-conversations encode put_blob now u a t s e) h
  perform-err (sends_attachment a now c t f y b n) s e h =
      tidy _ (attach-IsTidy decode put_blob now c a t f y b n) s e h

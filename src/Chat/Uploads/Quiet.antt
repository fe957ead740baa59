-- ===== src/Chat/Uploads/Quiet.antt =====
-- The methods that have nothing to do with attachments and uploads.
use telegram.Prelude.{
  eq_nat, eq_string, eq_pair, leb, Bool-cases, length, ℕ, String, ◌≡◌, refl, inl, inr, Bool, Option,
  none, some, List, [], ◌∷◌, arith,
}
use telegram.Prelude.Exec.{Result, ok, err, escaped, Exec, pure, continue, ◌>>=◌}
use telegram.Prelude.Int.{ℤ}
use telegram.Errors.{ErrorCode, unknown_upload}
use telegram.State.{save_runtime_state}
use telegram.Chat.{ChatService, UploadSession, require_participant, find_message, store}
use telegram.Chat.Members.{
  create_conversation, add_participant, remove_participant, leave_conversation, set_role,
  report_conversation, add_others-cases,
}
use telegram.Chat.Messages.{edit_message, delete_message, toggle_reaction, set_pin, mark_read}
use telegram.Chat.Sending.{send_message, service_command, forward_message, release_due_scheduled}
use telegram.Chat.Uploads.{own_upload, owned_by}

-- What a method that has nothing to do with files keeps.
pub record IsAside (s t : ChatService) : Type 0 where
  pub uploads : t.uploads ≡ s.uploads
  pub upload_counter : t.upload_counter ≡ s.upload_counter
  pub attachments : t.state.attachments ≡ s.state.attachments
  pub attachment_counter : t.attachment_counter ≡ s.attachment_counter

IsAside-refl : (s : ChatService) → IsAside s s
IsAside-refl s = record {
  uploads = refl;
  upload_counter = refl;
  attachments = refl;
  attachment_counter = refl;
}

pub record IsQuiet {A : Type 0} (m : Exec ChatService A) : Type 0 where
  pub at : (s : ChatService) → IsAside s (m s).1

pub edit-IsQuiet : (c a m t : String) → IsQuiet (edit_message c a m t)
unfolding edit_message require_participant find_message store save_runtime_state
edit-IsQuiet c a m t = record { at = λ s. ground arith }

pub delete-IsQuiet : (c a m : String) → IsQuiet (delete_message c a m)
unfolding delete_message require_participant find_message store save_runtime_state
delete-IsQuiet c a m = record { at = λ s. ground arith }

pub react-IsQuiet : (c a m k : String) → IsQuiet (toggle_reaction c a m k)
unfolding toggle_reaction require_participant find_message store save_runtime_state
react-IsQuiet c a m k = record { at = λ s. ground arith }

pub pin-IsQuiet : (c a m : String) (b : Bool) → IsQuiet (set_pin c a m b)
unfolding set_pin require_participant find_message store save_runtime_state
pin-IsQuiet c a m b = record { at = λ s. ground arith }

pub read-IsQuiet : (c a m : String) → IsQuiet (mark_read c a m)
unfolding mark_read require_participant store save_runtime_state
read-IsQuiet c a m = record { at = λ s. ground arith }

pub send-IsQuiet :
    (now : ℕ) (c a t r : String) (q : Bool) (at : ℤ) → IsQuiet (send_message now c a t r q at)
unfolding send_message require_participant find_message store save_runtime_state
send-IsQuiet now c a t r q at = record { at = λ s. ground arith }

pub command-IsQuiet : (now : ℕ) (c a t : String) → IsQuiet (service_command now c a t)
unfolding service_command require_participant store save_runtime_state
command-IsQuiet now c a t = record { at = λ s. ground arith }

pub forward-IsQuiet : (now : ℕ) (c m d a : String) → IsQuiet (forward_message now c m d a)
unfolding forward_message require_participant find_message store save_runtime_state
forward-IsQuiet now c m d a = record { at = λ s. ground arith }

pub release-IsQuiet : (now : ℕ) → IsQuiet (release_due_scheduled now)
unfolding release_due_scheduled store save_runtime_state
release-IsQuiet now = record { at = λ s. ground arith }

pub add-IsQuiet : (c a u : String) → IsQuiet (add_participant c a u)
unfolding add_participant require_participant store save_runtime_state
add-IsQuiet c a u = record { at = λ s. ground arith }

pub remove-IsQuiet : (c a u : String) → IsQuiet (remove_participant c a u)
unfolding remove_participant require_participant store save_runtime_state
remove-IsQuiet c a u = record { at = λ s. ground arith }

pub leave-IsQuiet : (c a : String) (b : Bool) → IsQuiet (leave_conversation c a b)
unfolding leave_conversation remove_participant require_participant store save_runtime_state
leave-IsQuiet c a b = record { at = λ s. ground arith }

pub set_role-IsQuiet : (c a u r : String) → IsQuiet (set_role c a u r)
unfolding set_role require_participant store save_runtime_state
set_role-IsQuiet c a u r = record { at = λ s. ground arith }

pub report-IsQuiet : (now : ℕ) (c a r t : String) → IsQuiet (report_conversation now c a r t)
unfolding report_conversation require_participant store save_runtime_state
report-IsQuiet now c a r t = record { at = λ s. ground arith }

pub create-IsQuiet :
    (a : String) (us : List String) (t : String) → IsQuiet (create_conversation a us t)
unfolding create_conversation store save_runtime_state
create-IsQuiet a us t = record {
  at = λ s. elim (add_others-cases s.state.users a us (a ∷ []) s) [
    | inl (e, stopped) ↦ rw stopped (IsAside-refl s)
    | inr (all, done) ↦ elim (Bool-cases (leb 2 (length all))) [
      | inl many ↦
          rw (done, many)
            (record {
              uploads = refl;
              upload_counter = refl;
              attachments = refl;
              attachment_counter = refl;
            })
      | inr few ↦ rw (done, few) (IsAside-refl s)
    ]
  ];
}

-- The upload of the user, which the methods on uploads start with.
pub past_upload :
    {A : Type 0} (P : Result A × ChatService → Type 0) (actor : String) (s : ChatService)
    (o : Option UploadSession) (k : UploadSession → Exec ChatService A)
    → ((e : ErrorCode) → P (err e, s))
    → ((u : UploadSession) → o ≡ some u → P (k u s))
    → P ((own_upload actor o >>= k) s)
past_upload P actor s none k bad good = bad unknown_upload
past_upload P actor s (some u) k bad good = elim (Bool-cases (owned_by actor u)) [
  | inl own ↦ rw own (good u refl)
  | inr other ↦ rw other (bad unknown_upload)
]

-- What a request does with the answer of its method.
pub dropped :
    {A : Type 0} (P : ChatService → Type 0) (r : Result A) (t : ChatService)
    → P t
    → P (continue r (λ _. pure tt) t).1
dropped P (ok a) t v = v
dropped P (err c) t v = v
dropped P escaped t v = v

-- ===== src/Chat/Steps/Handler.antt =====
-- Every request of the chat service is a step.
use telegram.Prelude.{eq_nat, eq_string, eq_pair, String, ap, ◌≢◌, Option, none, some}
use telegram.Prelude.Exec.{Result, ok, err, escaped, pure, continue}
use telegram.Prelude.Text.{Bytes}
use telegram.Chat.{ChatService}
use telegram.Chat.Requests.{
  ChatRequest, actor_of, perform, edits, deletes, reacts, pins, reads, sends, commands, forwards,
  releases, creates, adds, removes, leaves, sets_role, reports, starts_upload, adds_chunk,
  completes_upload, sends_attachment,
}
use telegram.Chat.Steps.{Step}
use telegram.Chat.Steps.Edits.{edit-Step, delete-Step, react-Step, pin-Step, read-Step}
use telegram.Chat.Steps.Groups.{
  add-Step, remove-Step, leave-Step, set_role-Step, report-Step, create-Step,
}
use telegram.Chat.Steps.Sends.{send-Step, command-Step, forward-Step, release-Step}
use telegram.Chat.Steps.Transfers.{start-Step, chunk-Step, complete-Step, attach-Step}

other_than : String → String
other_than String.[] = "x"
other_than (String.◌∷◌ c s) = ""

other_than-ne : (u : String) → other_than u ≢ u
unfolding other_than
other_than-ne String.[] h = cc h
other_than-ne (String.◌∷◌ c s) h = cc h

-- The user who asks, or one that is not `u` where nobody does.
pub acting : ChatRequest → String → String
acting r u = elim (actor_of r) [ none ↦ other_than u | some a ↦ a ]

acting_cases :
    (o : Option String) (u : String)
    → o ≢ some u
    → elim o as (λ x. String) [ none ↦ other_than u | some a ↦ a ] ≢ u
acting_cases none u h = other_than-ne u
acting_cases (some a) u h = λ e. h (ap some e)

pub acting-ne : (r : ChatRequest) (u : String) → actor_of r ≢ some u → acting r u ≢ u
unfolding acting
acting-ne r u h = acting_cases (actor_of r) u h

forget-Step :
    {A : Type 0} (actor : String) (s : ChatService) (r : Result A) (t : ChatService)
    → Step actor s t
    → Step actor s (continue r (λ _. pure tt) t).1
forget-Step actor s (ok a) t h = h
forget-Step actor s (err c) t h = h
forget-Step actor s escaped t h = h

module _ (decode : String → Option Bytes) (encode : Bytes → String)
    (put_blob : String → Bytes → String) where
  -- Every request is a step of its actor.
  pub perform-Step :
      (r : ChatRequest) (u : String) (s : ChatService)
      → Step (acting r u) s (perform decode encode put_blob r s).1
  unfolding perform acting
  perform-Step (edits a c m t) other s = forget-Step _ _ _ _ (edit-Step c a m s t)
  perform-Step (deletes a c m) other s = forget-Step _ _ _ _ (delete-Step c a m s)
  perform-Step (reacts a c m e) other s = forget-Step _ _ _ _ (react-Step c a m s e)
  perform-Step (pins a c m b) other s = forget-Step _ _ _ _ (pin-Step c a m s b)
  perform-Step (reads a c m) other s = forget-Step _ _ _ _ (read-Step c a m s)
  perform-Step (sends a now c t r q at) other s = forget-Step _ _ _ _ (send-Step a s now c t r q at)
  perform-Step (commands a now c t) other s = forget-Step _ _ _ _ (command-Step a s now c t)
  perform-Step (forwards a now c m d) other s = forget-Step _ _ _ _ (forward-Step a s now c m d)
  perform-Step (releases now) other s = forget-Step _ _ _ _ (release-Step (other_than other) s now)
  perform-Step (creates a us t) other s = forget-Step _ _ _ _ (create-Step "" a s us t)
  perform-Step (adds a c u) other s = forget-Step _ _ _ _ (add-Step c a s u)
  perform-Step (removes a c u) other s = forget-Step _ _ _ _ (remove-Step c a s u)
  perform-Step (leaves a c b) other s = forget-Step _ _ _ _ (leave-Step c a s b)
  perform-Step (sets_role a c u r) other s = forget-Step _ _ _ _ (set_role-Step c a s u r)
  perform-Step (reports a now c r t) other s = forget-Step _ _ _ _ (report-Step c a s now r t)
  perform-Step (starts_upload a c f t n) other s = forget-Step _ _ _ _ (start-Step c a s f t n)
  perform-Step (adds_chunk a u n t) other s = forget-Step _ _ _ _ (chunk-Step u a s decode n t)
  perform-Step (completes_upload a now u t) other s =
      forget-Step _ _ _ _ (complete-Step u a s encode put_blob now t)
  perform-Step (sends_attachment a now c t f y b n) other s =
      forget-Step _ _ _ _ (attach-Step c a s decode put_blob now t f y b n)

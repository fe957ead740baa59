-- ===== src/Calls/Rules.antt =====
-- The state machine that call_session.py documents, and the invariant of the call table.
use telegram.Prelude.{
  eq_nat, eq_string, eq_pair, ℕ, ◌<◌, String, ◌≡◌, ◌≢◌, Bool, true, false, Option, none, some,
}
use telegram.Prelude.Dict.{get}
use telegram.Prelude.Text.{numbered, is_empty}
use telegram.State.{CallRecord, CallStatus, ringing, accepted, declined, ended, canceled}
use telegram.Calls.{CallSessionService}

-- The arrows of the module's diagram; a request that changes nothing keeps the status.
abbrev pub edge : CallStatus → CallStatus → Bool
edge ringing _ = true
edge accepted accepted = true
edge accepted ended = true
edge declined declined = true
edge ended ended = true
edge canceled canceled = true
edge _ _ = false

-- What may become of one call: its parties stay, its status follows an arrow that is not
-- `ringing → ended`, and a key that was drawn stays.
pub record Evolves (c d : CallRecord) : Type 0 where
  pub id : d.call_id ≡ c.call_id
  pub caller : d.caller_user_id ≡ c.caller_user_id
  pub callee : d.callee_user_id ≡ c.callee_user_id
  pub arrow : edge c.state d.state ≡ true
  pub direct : c.state ≡ ringing → d.state ≢ ended
  pub key : is_empty c.relay_key_b64 ≡ false → d.relay_key_b64 ≡ c.relay_key_b64

-- Between two tables, at one id: a call may appear, ringing; none disappears.
abbrev pub Allowed : Option CallRecord → Option CallRecord → Type 0
Allowed none none = Unit
Allowed none (some d) = d.state ≡ ringing
Allowed (some c) none = ⊥
Allowed (some c) (some d) = Evolves c d

-- Every id in the table is one that the counter has handed out, and an accepted call has a key.
pub record IsValid (s : CallSessionService) : Type 0 where
  pub unused : (n : ℕ) → s.counter < n → get (numbered "call_" n) s.calls ≡ none
  pub keyed :
      (k : String) (c : CallRecord)
      → get k s.calls ≡ some c
      → c.state ≡ accepted
      → is_empty c.relay_key_b64 ≡ false

-- ===== src/PushTokens.antt =====
-- server/server/services/push_tokens.py: the tokens of the devices that may be woken, and the queue
-- of the deliveries that have not been taken. What the clock shows is `now`.
pub mod Keys
pub mod Tests
use telegram.Prelude.{
  eq_nat, eq_string, eq_pair, ◌==◌, ltb, if◌then◌else◌, length, keep, ℕ, String, Bool, true, false,
  not, ◌&&◌, List, [], ◌∷◌, ◌++◌, map,
}
use telegram.Prelude.Exec.{Exec, pure, modify, require, ◌>>◌}
use telegram.Prelude.Text.{is_empty}
use telegram.Errors.{invalid_registration_payload}
use telegram.State.{PushTokenRecord, InMemoryState, save_runtime_state, to_ms}

pub record PendingDelivery : Type 0 where
  pub user_id : String
  pub device_id : String
  pub platform : String
  pub token : String
  pub kind : String
  pub body_summary : String
  pub enqueued_at_ms : ℕ

pub record PushTokenService : Type 0 where
  pub state : InMemoryState
  pub pending_deliveries : List PendingDelivery

-- A record is of the user, the device and the platform.
abbrev is_of : String → String → String → PushTokenRecord → Bool
is_of user_id device_id platform r =
    r.user_id == user_id && r.device_id == device_id && r.platform == platform

unfoldable with_tokens : List PushTokenRecord → PushTokenService → PushTokenService
with_tokens tokens s = record s {
  state = save_runtime_state (record s.state { push_tokens = tokens });
}

unfoldable pub register :
    ℕ → String → String → String → String → Exec PushTokenService PushTokenRecord
unfolding with_tokens
register now user_id device_id platform token = do
  require (not (is_empty platform) && not (is_empty token)) invalid_registration_payload
  let new : PushTokenRecord = record {
    user_id = user_id;
    device_id = device_id;
    platform = platform;
    token = token;
    registered_at_ms = to_ms now;
  }
  modify (λ s.
      with_tokens
        (keep (λ r. not (is_of user_id device_id platform r)) s.state.push_tokens ++ new ∷ []) s)
  pure new

-- The answer and the service after it.
unfoldable pub unregister :
    String → String → String → String → PushTokenService → Bool × PushTokenService
unfolding with_tokens
unregister user_id device_id platform token s =
    let left : List PushTokenRecord =
      keep (λ r. not (is_of user_id device_id platform r && r.token == token))
        s.state.push_tokens in
    if ltb (length left) (length s.state.push_tokens)
    then (true, with_tokens left s)
    else (false, record s { state = record s.state { push_tokens = left } })

abbrev pub tokens_for_user : String → PushTokenService → List PushTokenRecord
tokens_for_user user_id s = keep (λ r. r.user_id == user_id) s.state.push_tokens

abbrev delivery : ℕ → String → String → PushTokenRecord → PendingDelivery
delivery now kind body_summary r = record {
  user_id = r.user_id;
  device_id = r.device_id;
  platform = r.platform;
  token = r.token;
  kind = kind;
  body_summary = body_summary;
  enqueued_at_ms = to_ms now;
}

unfoldable pub notify_offline_recipient :
    ℕ → String → String → String → PushTokenService → List PendingDelivery × PushTokenService
notify_offline_recipient now user_id kind body_summary s =
    let enqueued = map (delivery now kind body_summary) (tokens_for_user user_id s) in
    (enqueued, record s { pending_deliveries = s.pending_deliveries ++ enqueued })

unfoldable pub drain_pending : PushTokenService → List PendingDelivery × PushTokenService
drain_pending s = (s.pending_deliveries, record s { pending_deliveries = [] })

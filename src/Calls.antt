-- ===== src/Calls.antt =====
-- server/server/services/call_session.py: voice and video calls. The proofs are in the modules below.
-- `generate_key_b64` draws from the system's randomness; `accept` takes the key that it would return.
pub mod Rules
pub mod Shapes
pub mod Safety
pub mod Traces
pub mod Tests
use telegram.Prelude.{
  eq_nat, eq_string, eq_pair, ◌==◌, if◌then◌else◌, ℕ, suc, String, Bool, not, ◌||◌, none, some,
  List, [], ◌∷◌,
}
use telegram.Prelude.Dict.{get, put, values}
use telegram.Prelude.Exec.{Exec, pure, gets, or_raise, modify, require, ◌>>=◌, ◌>>◌}
use telegram.Prelude.Text.{numbered, is_empty}
use telegram.Errors.{
  call_invalid_kind, unknown_user, unknown_call, call_participant_denied, call_not_ringing,
  call_already_terminal, call_not_active,
}
use telegram.State.{
  InMemoryState, SessionRecord, CallRecord, CallStatus, CallStatus_eq, ringing, accepted, declined,
  ended, canceled,
}

pub record CallSessionService : Type 0 where
  pub state : InMemoryState
  pub open state use *
  pub counter : ℕ
  pub default_relay : String

pub record CallStatePayload : Type 0 where
  pub call_id : String
  pub caller_user_id : String
  pub caller_device_id : String
  pub callee_user_id : String
  pub callee_device_id : String
  pub kind : String
  pub state : CallStatus
  pub detail : String

pub record CallRendezvousInfoPayload : Type 0 where
  pub call_id : String
  pub state : CallStatus
  pub relay_region : String
  pub relay_endpoint : String
  pub relay_key_b64 : String

pub to_state_payload : CallRecord → String → CallStatePayload
to_state_payload r detail = record {
  call_id = r.call_id;
  caller_user_id = r.caller_user_id;
  caller_device_id = r.caller_device_id;
  callee_user_id = r.callee_user_id;
  callee_device_id = r.callee_device_id;
  kind = r.kind;
  state = r.state;
  detail = detail;
}

pub is_terminal : CallStatus → Bool
is_terminal state =
    CallStatus_eq state declined || CallStatus_eq state ended || CallStatus_eq state canceled

-- the walk over the sessions, "" at its end
pub session_owner : String → List SessionRecord → String
session_owner device_id [] = ""
session_owner device_id (s ∷ rest) =
    if s.device_id == device_id then s.user_id else session_owner device_id rest

pub resolve_user_id_for_device : InMemoryState → String → String
resolve_user_id_for_device state device_id = elim (get device_id state.devices) [
  | none ↦ session_owner device_id (values state.sessions)
  | some device ↦ device.user_id
]

pub set_call : String → CallRecord → CallSessionService → CallSessionService
set_call call_id r s = record s { state = record s.state { calls = put call_id r s.calls } }

pub lookup : String → Exec CallSessionService CallRecord
lookup call_id s = or_raise (get call_id s.calls) unknown_call s

-- the record of a new call, which takes the next number
pub new_call : CallSessionService → String → String → String → String → String → CallRecord
new_call s caller_user_id caller_device_id callee_user_id callee_device_id kind = record {
  call_id = numbered "call_" (suc s.counter);
  caller_user_id = caller_user_id;
  caller_device_id = caller_device_id;
  callee_user_id = callee_user_id;
  callee_device_id = callee_device_id;
  kind = kind;
  state = ringing;
  relay_endpoint = s.default_relay;
  relay_region = "dev";
  relay_key_b64 = "";
}

pub create_invite :
    String → String → String → String → String → Exec CallSessionService CallStatePayload
unfolding to_state_payload set_call new_call resolve_user_id_for_device
create_invite caller_user_id caller_device_id callee_user_id callee_device_id kind = do
  require (kind == "audio" || kind == "video") call_invalid_kind
  callee ← gets λ s.
      if is_empty callee_user_id
      then resolve_user_id_for_device s.state callee_device_id
      else callee_user_id
  require (not (is_empty callee)) unknown_user
  r ← gets λ s. new_call s caller_user_id caller_device_id callee callee_device_id kind
  modify λ s. set_call r.call_id r (record s { counter = suc s.counter })
  pure (to_state_payload r "ringing")

pub accept : String → String → String → Exec CallSessionService CallStatePayload
unfolding to_state_payload set_call lookup
accept call_id actor_user_id fresh_key = do
  r ← lookup call_id
  require (actor_user_id == r.callee_user_id) call_participant_denied
  require (CallStatus_eq r.state ringing) call_not_ringing
  let r' = record r {
    state = accepted;
    relay_key_b64 = if is_empty r.relay_key_b64 then fresh_key else r.relay_key_b64;
  }
  modify (set_call call_id r')
  pure (to_state_payload r' "accepted")

pub decline : String → String → Exec CallSessionService CallStatePayload
unfolding to_state_payload set_call lookup
decline call_id actor_user_id = do
  r ← lookup call_id
  require (actor_user_id == r.callee_user_id) call_participant_denied
  require (CallStatus_eq r.state ringing) call_not_ringing
  let r' = record r { state = declined }
  modify (set_call call_id r')
  pure (to_state_payload r' "declined_by_callee")

pub end_call : String → String → Exec CallSessionService CallStatePayload
unfolding to_state_payload set_call lookup is_terminal
end_call call_id actor_user_id = do
  r ← lookup call_id
  require (actor_user_id == r.caller_user_id || actor_user_id == r.callee_user_id)
      call_participant_denied
  require (not (is_terminal r.state)) call_already_terminal
  if CallStatus_eq r.state ringing
      then (do
        require (actor_user_id == r.caller_user_id) call_not_active
        let r' = record r { state = canceled }
        modify (set_call call_id r')
        pure (to_state_payload r' "canceled_by_caller"))
      else (do
        let r' = record r { state = ended }
        modify (set_call call_id r')
        pure (
            to_state_payload r'
              (if actor_user_id == r.caller_user_id then "ended_by_caller" else "ended_by_callee")))

pub rendezvous : String → String → Exec CallSessionService CallRendezvousInfoPayload
unfolding lookup
rendezvous call_id actor_user_id = do
  r ← lookup call_id
  require (actor_user_id == r.caller_user_id || actor_user_id == r.callee_user_id)
      call_participant_denied
  require (CallStatus_eq r.state accepted) call_not_active
  pure (record {
    call_id = call_id;
    state = r.state;
    relay_region = r.relay_region;
    relay_endpoint = r.relay_endpoint;
    relay_key_b64 = r.relay_key_b64;
  })

-- The requests that reach the service; `accepts` carries the key that would be drawn.
pub data Request : Type 0 where
  invites : String → String → String → String → String → Request
  accepts : String → String → String → Request
  declines : String → String → Request
  ends : String → String → Request
  meets : String → String → Request

pub handle_call : Request → CallSessionService → CallSessionService
handle_call (invites u d v e kind) s = (create_invite u d v e kind s).1
handle_call (accepts call_id actor key) s = (accept call_id actor key s).1
handle_call (declines call_id actor) s = (decline call_id actor s).1
handle_call (ends call_id actor) s = (end_call call_id actor s).1
handle_call (meets call_id actor) s = (rendezvous call_id actor s).1

pub serve_calls : List Request → CallSessionService → CallSessionService
serve_calls [] s = s
serve_calls (r ∷ rest) s = serve_calls rest (handle_call r s)

-- ===== src/Remote.antt =====
-- server/server/services/remote_session.py: remote-control sessions. The proofs are in the modules
-- below. `generate_key_b64` draws from the system's randomness; `request_rendezvous` takes the key
-- that it would return.
mod Candidates
pub mod Rules
pub mod Shapes
pub mod Steps
pub mod Safety
pub mod Traces
pub mod Tests
use telegram.Prelude.{
  eq_nat, eq_string, eq_pair, ◌==◌, nat_eq, if◌then◌else◌, ℕ, ◌+◌, ◌%◌, String, Bool, false, not,
  ◌||◌, Option, none, some, List, [], ◌∷◌,
}
use telegram.Prelude.Dict.{get, put, keys}
use telegram.Prelude.Exec.{Exec, pure, gets, or_raise, modify, require, ◌>>=◌, ◌>>◌}
use telegram.Prelude.Text.{codes, numbered, is_empty}
use telegram.Prelude.Int.{ℤ, pos}
use Prim.Native.Char.{code}
use telegram.Prelude.Text.Number.{next_counter, int_of}
use Candidates.{RemoteRendezvousCandidate, rendezvous_candidates}
use telegram.Errors.{
  unknown_requester_device, requester_device_user_mismatch, unknown_target_device,
  self_remote_session_not_allowed, unknown_remote_session, remote_approval_denied,
  remote_session_not_awaiting_approval, remote_rejection_denied, remote_cancel_denied,
  remote_session_already_terminal, remote_terminate_denied, remote_session_not_active,
  remote_rendezvous_denied, remote_session_not_ready_for_rendezvous, remote_disconnect_denied,
}
use telegram.State.{
  InMemoryState, RemoteSessionRecord, RemoteStatus, RemoteStatus_eq, save_runtime_state,
  awaiting_approval, approved, rejected, cancelled, terminated, disconnected, negotiating,
  connecting, streaming, controlling,
}

pub record RemoteSessionService : Type 0 where
  pub state : InMemoryState
  pub open state use *
  pub counter : ℕ

pub record RemoteSessionStatePayload : Type 0 where
  pub remote_session_id : String
  pub state : RemoteStatus
  pub target_user_id : String
  pub target_device_id : String

pub record RemoteRelayAssignmentPayload : Type 0 where
  pub remote_session_id : String
  pub state : RemoteStatus
  pub relay_region : String
  pub relay_endpoint : String

pub record RemoteSessionTerminatedPayload : Type 0 where
  pub remote_session_id : String
  pub state : RemoteStatus
  pub detail : String

-- `candidates` is `none` where `int` raises `ValueError` on the endpoint's port.
pub record RemoteRendezvousInfoPayload : Type 0 where
  pub remote_session_id : String
  pub state : RemoteStatus
  pub candidates : Option (List RemoteRendezvousCandidate)
  pub relay_region : String
  pub relay_endpoint : String
  pub relay_key_b64 : String

-- `_TERMINAL_STATES`, `_ACTIVE_STATES`, `_RENDEZVOUS_SOURCE_STATES`
pub is_terminal : RemoteStatus → Bool
is_terminal st =
    RemoteStatus_eq st cancelled
    || RemoteStatus_eq st rejected
    || RemoteStatus_eq st terminated
    || RemoteStatus_eq st disconnected

pub is_active : RemoteStatus → Bool
is_active st =
    RemoteStatus_eq st approved
    || RemoteStatus_eq st negotiating
    || RemoteStatus_eq st connecting
    || RemoteStatus_eq st streaming
    || RemoteStatus_eq st controlling

pub is_rendezvous_source : RemoteStatus → Bool
is_rendezvous_source st = RemoteStatus_eq st approved || RemoteStatus_eq st negotiating

-- `RemoteSessionService(state)`
pub start_service : InMemoryState → RemoteSessionService
start_service state = record {
  state = state;
  counter = next_counter 0 "remote_" (keys state.remote_sessions);
}

-- A write of a record, with the `persist_remote_session` that follows it.
pub persist_remote_session :
    String → RemoteSessionRecord → RemoteSessionService → RemoteSessionService
unfolding save_runtime_state
persist_remote_session id r s = record s {
  state = save_runtime_state (record s.state { remote_sessions = put id r s.remote_sessions });
}

pub lookup : String → Exec RemoteSessionService RemoteSessionRecord
lookup id s = or_raise (get id s.remote_sessions) unknown_remote_session s

pub is_participant : String → RemoteSessionRecord → Bool
is_participant actor r = actor == r.requester_user_id || actor == r.target_user_id

pub new_session : ℕ → String → String → String → String → RemoteSessionRecord
new_session n requester_user_id requester_device_id target_user_id target_device_id = record {
  remote_session_id = numbered "remote_" n;
  requester_user_id = requester_user_id;
  requester_device_id = requester_device_id;
  target_user_id = target_user_id;
  target_device_id = target_device_id;
  state = awaiting_approval;
  relay_endpoint = "";
  relay_region = "";
  relay_key_b64 = "";
}

state_payload : String → RemoteSessionRecord → RemoteSessionStatePayload
state_payload id r = record {
  remote_session_id = id;
  state = r.state;
  target_user_id = r.target_user_id;
  target_device_id = r.target_device_id;
}

pub create_invite : String → String → String → Exec RemoteSessionService RemoteSessionStatePayload
unfolding persist_remote_session new_session state_payload
create_invite requester_user_id requester_device_id target_device_id = do
  device ← λ s. or_raise (get requester_device_id s.devices) unknown_requester_device s
  require (device.user_id == requester_user_id) requester_device_user_mismatch
  target ← λ s. or_raise (get target_device_id s.devices) unknown_target_device s
  require (not (target.user_id == requester_user_id)) self_remote_session_not_allowed
  r ← gets λ s.
      new_session s.counter requester_user_id requester_device_id target.user_id target_device_id
  modify λ s. persist_remote_session r.remote_session_id r (record s { counter = s.counter + 1 })
  pure (state_payload r.remote_session_id r)

pub approve : String → String → Exec RemoteSessionService RemoteRelayAssignmentPayload
unfolding persist_remote_session lookup
approve id approver_user_id = do
  r ← lookup id
  require (r.target_user_id == approver_user_id) remote_approval_denied
  require (RemoteStatus_eq r.state awaiting_approval) remote_session_not_awaiting_approval
  let r' = record r {
    state = approved;
    relay_region = "us-west";
    relay_endpoint = "relay-usw.example.internal:5000";
  }
  modify (persist_remote_session id r')
  pure (record {
    remote_session_id = id;
    state = r'.state;
    relay_region = r'.relay_region;
    relay_endpoint = r'.relay_endpoint;
  })

pub reject : String → String → Exec RemoteSessionService RemoteSessionStatePayload
unfolding persist_remote_session lookup state_payload
reject id approver_user_id = do
  r ← lookup id
  require (r.target_user_id == approver_user_id) remote_rejection_denied
  require (RemoteStatus_eq r.state awaiting_approval) remote_session_not_awaiting_approval
  let r' = record r { state = rejected }
  modify (persist_remote_session id r')
  pure (state_payload id r')

pub cancel : String → String → Exec RemoteSessionService RemoteSessionTerminatedPayload
unfolding persist_remote_session lookup is_participant is_terminal
cancel id actor_user_id = do
  r ← lookup id
  require (is_participant actor_user_id r) remote_cancel_denied
  require (not (is_terminal r.state)) remote_session_already_terminal
  modify (persist_remote_session id (record r { state = cancelled }))
  pure (record { remote_session_id = id; state = cancelled; detail = "cancelled_by_participant" })

pub terminate : String → String → Exec RemoteSessionService RemoteSessionTerminatedPayload
unfolding persist_remote_session lookup is_participant is_terminal is_active
terminate id actor_user_id = do
  r ← lookup id
  require (is_participant actor_user_id r) remote_terminate_denied
  require (not (is_terminal r.state)) remote_session_already_terminal
  require (is_active r.state) remote_session_not_active
  modify (persist_remote_session id (record r { state = terminated }))
  pure (record {
    remote_session_id = id;
    state = terminated;
    detail =
        if actor_user_id == r.requester_user_id
        then "terminated_by_requester"
        else "terminated_by_target";
  })

-- The two writes of `request_rendezvous`, each made where its test asks for it.
pub start_negotiation : String → RemoteSessionRecord → Exec RemoteSessionService RemoteSessionRecord
unfolding persist_remote_session
start_negotiation id r =
    if RemoteStatus_eq r.state approved
    then (do
      let r' = record r { state = negotiating }
      modify (persist_remote_session id r')
      pure r')
    else pure r

pub mint_key : String → String → RemoteSessionRecord → Exec RemoteSessionService RemoteSessionRecord
unfolding persist_remote_session
mint_key fresh_key id r =
    if is_empty r.relay_key_b64
    then (do
      let r' = record r { relay_key_b64 = fresh_key }
      modify (persist_remote_session id r')
      pure r')
    else pure r

pub request_rendezvous :
    String → String → String → Exec RemoteSessionService RemoteRendezvousInfoPayload
unfolding lookup is_participant is_rendezvous_source start_negotiation mint_key
request_rendezvous id actor_user_id fresh_key = do
  r ← lookup id
  require (is_participant actor_user_id r) remote_rendezvous_denied
  require (is_rendezvous_source r.state) remote_session_not_ready_for_rendezvous
  negotiated ← start_negotiation id r
  keyed ← mint_key fresh_key id negotiated
  pure (record {
    remote_session_id = id;
    state = keyed.state;
    candidates = rendezvous_candidates keyed;
    relay_region = keyed.relay_region;
    relay_endpoint = keyed.relay_endpoint;
    relay_key_b64 = keyed.relay_key_b64;
  })

pub disconnect : String → String → String → Exec RemoteSessionService RemoteSessionTerminatedPayload
unfolding persist_remote_session lookup is_participant is_terminal is_active
disconnect id actor_user_id reason = do
  r ← lookup id
  require (is_participant actor_user_id r) remote_disconnect_denied
  require (not (is_terminal r.state)) remote_session_already_terminal
  require (is_active r.state) remote_session_not_active
  modify (persist_remote_session id (record r { state = disconnected }))
  pure (record {
    remote_session_id = id;
    state = disconnected;
    detail = if is_empty reason then "peer_disconnected" else reason;
  })

-- The requests, each with the user that the dispatcher has authenticated first.
pub data Request : Type 0 where
  invites : String → String → Request
  approves rejects cancels terminates : String → Request
  meets : String → String → Request
  disconnects : String → String → Request

pub handle_session : String → Request → RemoteSessionService → RemoteSessionService
handle_session actor (invites own_device target_device) s =
    (create_invite actor own_device target_device s).1
handle_session actor (approves id) s = (approve id actor s).1
handle_session actor (rejects id) s = (reject id actor s).1
handle_session actor (cancels id) s = (cancel id actor s).1
handle_session actor (terminates id) s = (terminate id actor s).1
handle_session actor (meets id key) s = (request_rendezvous id actor key s).1
handle_session actor (disconnects id reason) s = (disconnect id actor reason s).1

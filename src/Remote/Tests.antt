-- ===== src/Remote/Tests.antt =====
-- Alice asks to control Bob's device, and the theorems at it.
use telegram.Prelude.{
  text_eq, eq_nat, eq_string, eq_pair, ==_iff, String, ◌≡◌, refl, ◌≢◌, false, some, [], ◌∷◌,
}
use telegram.Prelude.Dict.{get, put}
use telegram.Prelude.Text.{numbered}
use telegram.State.{
  InMemoryState, RemoteSessionRecord, RemoteStatus, IsSaved, awaiting_approval, rejected,
}
use telegram.State.Samples.{seeded_state}
use telegram.Remote.{
  RemoteSessionService, start_service, is_active, is_terminal, invites, approves, rejects, meets,
  handle_session, create_invite, reject,
}
use telegram.Prelude.Text.Number.{next_counter}
use telegram.Remote.Rules.{Allowed, IsValid}
use telegram.Remote.Safety.{handle_session-Allowed, handle_session-IsValid}
use telegram.Remote.Traces.{
  serve_sessions, start_service-IsValid, serve_sessions-IsValid, serve_sessions-terminal,
  serve_sessions-consent,
}

abbrev no_file : InMemoryState
no_file = record seeded_state { state_file = false }

no_file-IsSaved : IsSaved no_file
no_file-IsSaved h = cc

abbrev start : RemoteSessionService
start = start_service no_file

start-IsValid : IsValid start
start-IsValid = start_service-IsValid no_file no_file-IsSaved

abbrev invited : RemoteSessionService
invited = handle_session "u_alice" (invites "dev_alice_win" "dev_bob_win") start

invited-IsValid : IsValid invited
invited-IsValid =
    handle_session-IsValid "u_alice" (invites "dev_alice_win" "dev_bob_win") start start-IsValid

abbrev a_session : RemoteStatus → RemoteSessionRecord
a_session st = record {
  remote_session_id = "remote_1";
  requester_user_id = "u_alice";
  requester_device_id = "dev_alice_win";
  target_user_id = "u_bob";
  target_device_id = "dev_bob_win";
  state = st;
  relay_endpoint = "";
  relay_region = "";
  relay_key_b64 = "";
}

invited_session : get "remote_1" invited.remote_sessions ≡ some (a_session awaiting_approval)
unfolding start_service handle_session create_invite get put numbered text_eq next_counter
invited_session = refl

handle_session-Allowed_example :
    Allowed "u_bob"
      (get "remote_1" invited.remote_sessions)
      (get "remote_1" (handle_session "u_bob" (approves "remote_1") invited).remote_sessions)
handle_session-Allowed_example =
    handle_session-Allowed "u_bob" (approves "remote_1") "remote_1" invited invited-IsValid

start_service-IsValid_example : IsValid (start_service (record seeded_state { state_file = false }))
start_service-IsValid_example = start_service-IsValid no_file no_file-IsSaved

serve_sessions-IsValid_example : IsValid (
    serve_sessions
      (("u_bob", approves "remote_1") ∷ ("u_alice", meets "remote_1" "key") ∷ [])
      invited)
serve_sessions-IsValid_example =
    serve_sessions-IsValid
      (("u_bob", approves "remote_1") ∷ ("u_alice", meets "remote_1" "key") ∷ []) invited
      invited-IsValid

abbrev refused : RemoteSessionService
refused = handle_session "u_bob" (rejects "remote_1") invited

refused-IsValid : IsValid refused
refused-IsValid = handle_session-IsValid "u_bob" (rejects "remote_1") invited invited-IsValid

refused_session : get "remote_1" refused.remote_sessions ≡ some (a_session rejected)
unfolding start_service handle_session create_invite reject get put numbered text_eq next_counter
refused_session = refl

serve_sessions-terminal_example :
    (d : RemoteSessionRecord) × (get "remote_1"
        (serve_sessions (("u_bob", approves "remote_1") ∷ []) refused).remote_sessions
      ≡ some d)
    × (d.state ≡ rejected)
unfolding is_terminal
serve_sessions-terminal_example =
    serve_sessions-terminal (("u_bob", approves "remote_1") ∷ []) "remote_1" refused
      (a_session rejected) refused-IsValid refused_session refl

alice-ne-bob : ◌≢◌ {A = String} "u_alice" "u_bob"
unfolding text_eq
alice-ne-bob e = cc ((==_iff {A = String} "u_alice" "u_bob").1 e)

serve_sessions-consent_example :
    (d : RemoteSessionRecord) × (get "remote_1"
        (serve_sessions (("u_alice", approves "remote_1") ∷ []) invited).remote_sessions
      ≡ some d)
    × (is_active d.state ≡ false)
serve_sessions-consent_example =
    serve_sessions-consent (("u_alice", approves "remote_1") ∷ []) "remote_1" invited
      (a_session awaiting_approval) invited-IsValid invited_session refl (alice-ne-bob, tt)

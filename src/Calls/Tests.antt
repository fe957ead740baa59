-- ===== src/Calls/Tests.antt =====
-- A call from Alice to Bob, and the theorems at it.
use telegram.Prelude.{eq_nat, eq_string, eq_pair, text_eq, String, ◌≡◌, refl, false, some, [], ◌∷◌}
use telegram.Prelude.Dict.{get, put}
use telegram.Prelude.Exec.{ok}
use telegram.Prelude.Text.{numbered, is_empty}
use telegram.State.{CallRecord, CallStatus, ringing, accepted, canceled}
use telegram.State.Samples.{seeded_state}
use telegram.Calls.{
  CallSessionService, CallRendezvousInfoPayload, invites, accepts, ends, create_invite, accept,
  end_call, rendezvous, handle_call, serve_calls, is_terminal,
}
use telegram.Calls.Rules.{Allowed, IsValid}
use telegram.Calls.Safety.{handle_call-Allowed, handle_call-IsValid}
use telegram.Calls.Traces.{serve_calls-terminal, rendezvous_agrees}

abbrev start : CallSessionService
start = record { state = seeded_state; counter = 0; default_relay = "relay:5000" }

start-IsValid : IsValid start
unfolding get
start-IsValid = record { unused = λ n h. refl; keyed = λ k c e h. cc }

abbrev invited : CallSessionService
invited = handle_call (invites "u_alice" "dev_alice_win" "" "dev_bob_win" "audio") start

abbrev answered : CallSessionService
answered = handle_call (accepts "call_1" "u_bob" "key") invited

abbrev a_call : CallStatus → String → CallRecord
a_call state key = record {
  call_id = "call_1";
  caller_user_id = "u_alice";
  caller_device_id = "dev_alice_win";
  callee_user_id = "u_bob";
  callee_device_id = "dev_bob_win";
  kind = "audio";
  state = state;
  relay_endpoint = "relay:5000";
  relay_region = "dev";
  relay_key_b64 = key;
}

invited-IsValid : IsValid invited
invited-IsValid =
    handle_call-IsValid (invites "u_alice" "dev_alice_win" "" "dev_bob_win" "audio") start tt
      start-IsValid

answered-IsValid : IsValid answered
answered-IsValid = handle_call-IsValid (accepts "call_1" "u_bob" "key") invited refl invited-IsValid

invited_call : get "call_1" invited.calls ≡ some (a_call ringing "")
unfolding handle_call create_invite get put numbered text_eq
invited_call = refl

answered_call : get "call_1" answered.calls ≡ some (a_call accepted "key")
unfolding handle_call create_invite accept get put numbered text_eq
answered_call = refl

handle_call-Allowed_example :
    Allowed
      (get "call_1" invited.calls)
      (get "call_1" (handle_call (ends "call_1" "u_alice") invited).calls)
handle_call-Allowed_example =
    handle_call-Allowed (ends "call_1" "u_alice") "call_1" invited invited-IsValid

handle_call-IsValid_example : IsValid (handle_call (ends "call_1" "u_bob") answered)
handle_call-IsValid_example =
    handle_call-IsValid (ends "call_1" "u_bob") answered tt answered-IsValid

abbrev hung_up : CallSessionService
hung_up = handle_call (ends "call_1" "u_alice") invited

hung_up-IsValid : IsValid hung_up
hung_up-IsValid = handle_call-IsValid (ends "call_1" "u_alice") invited tt invited-IsValid

hung_up_call : get "call_1" hung_up.calls ≡ some (a_call canceled "")
unfolding handle_call create_invite end_call get put numbered text_eq
hung_up_call = refl

serve_calls-terminal_example :
    (d : CallRecord) × (get "call_1"
        (serve_calls (accepts "call_1" "u_bob" "key" ∷ []) hung_up).calls
      ≡ some d)
    × (d.state ≡ canceled)
unfolding is_terminal
serve_calls-terminal_example =
    serve_calls-terminal (accepts "call_1" "u_bob" "key" ∷ []) "call_1" hung_up (a_call canceled "")
      (refl, tt) hung_up-IsValid hung_up_call refl

abbrev meeting : CallRendezvousInfoPayload
meeting = record {
  call_id = "call_1";
  state = accepted;
  relay_region = "dev";
  relay_endpoint = "relay:5000";
  relay_key_b64 = "key";
}

meeting_runs :
    (rendezvous "call_1" "u_alice" (serve_calls (accepts "call_1" "u_bob" "other" ∷ []) answered)).0
    ≡ ok meeting
unfolding serve_calls handle_call create_invite accept rendezvous get put numbered text_eq
meeting_runs = refl

rendezvous_agrees_example : ◌≡◌ {A = String} "key" "key" × (is_empty "key" ≡ false)
rendezvous_agrees_example =
    rendezvous_agrees (accepts "call_1" "u_bob" "other" ∷ []) "call_1" "u_alice" answered
      (a_call accepted "key") meeting (refl, tt) answered-IsValid answered_call refl meeting_runs

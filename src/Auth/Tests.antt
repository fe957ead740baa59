-- ===== src/Auth/Tests.antt =====
-- Runs of server/server/services/auth.py with a password that is its own hash.
use telegram.Prelude.{
  text_eq, eq_nat, eq_string, eq_pair, ◌==◌, String, ◌≡◌, refl, Bool, true, false, List, [], ◌∷◌,
  ◌⊎◌, inl, inr,
}
use telegram.Prelude.Dict.{get, put}
use telegram.Prelude.Text.{codes, numbered}
use telegram.State.{InMemoryState, save_runtime_state}
use telegram.State.Samples.{seeded_state, sample_user}
use telegram.Auth.{new_session, find_user, open_session, start_auth, login, matches_pattern}
use telegram.Prelude.Text.Number.{next_counter}
use telegram.PhoneOtp.{asks, verifies}
use telegram.Auth.Sessions.{logs_in, registers, resolves, Stands, perform_auth}
use telegram.Auth.Server.{
  Server, start_server, ServerRequest, by_password, by_phone, serve_server, handle_server, IsTaken,
  serve_server-Stands,
}

abbrev same_text : String → String → Bool
same_text password hash = password == hash

abbrev as_it_is : String → String
as_it_is s = s

abbrev tables : InMemoryState
tables = record seeded_state {
  users = ("u_alice", record (sample_user "u_alice" "alice") { password_hash = "wonderland" }) ∷ [];
}

abbrev earlier : List ServerRequest
earlier = by_password (logs_in 100 "alice" "wonderland" "dev_alice_win") ∷ []

abbrev further : List ServerRequest
further =
    by_password (logs_in 130 "alice" "wrong" "dev_alice_win")
    ∷ by_phone (asks "+15551234567" "123456" 135)
    ∷ by_phone (
        verifies "+15551234567" "123456" "Dora" "dev_dora" 138
          (record { password_hash = "hash"; device_id = "dev_phone_1" }))
    ∷ by_password (registers 140 "carol" "longenough" "Carol" "dev_carol" "" "ios")
    ∷ by_password (resolves 150 "sess_1")
    ∷ []

abbrev any_phone : String → Bool
any_phone phone = true

abbrev start : Server
start = start_server 60 tables

abbrev after : List ServerRequest → Server → Server
after = serve_server same_text as_it_is as_it_is any_phone as_it_is

pattern_runs : matches_pattern (codes "a.b-c") ≡ true
unfolding matches_pattern
pattern_runs = refl

pattern_newline : matches_pattern (codes "abc\n") ≡ true
unfolding matches_pattern
pattern_newline = refl

pattern_short : matches_pattern (codes "ab\n") ≡ false
unfolding matches_pattern
pattern_short = refl

alone : ¬ IsTaken same_text as_it_is as_it_is any_phone as_it_is "sess_1" earlier start
alone (inl taken) = taken
alone (inr taken) = taken

serve_server-Stands_example :
    IsTaken same_text as_it_is as_it_is any_phone as_it_is "sess_1" further (after earlier start)
    ⊎ Stands "sess_1" (after earlier start).auth (after further (after earlier start)).auth
unfolding serve_server handle_server perform_auth login find_user open_session start_auth get
    text_eq next_counter save_runtime_state put numbered
serve_server-Stands_example =
    serve_server-Stands same_text as_it_is as_it_is any_phone as_it_is 60 tables earlier further
      "sess_1" (new_session "sess_1" "u_alice" "dev_alice_win" 100) alone refl
